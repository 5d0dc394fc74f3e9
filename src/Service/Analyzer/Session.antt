-- ===== src/Service/Analyzer/Session.antt =====
-- A whole live session of stack/backend/internal/service/live.go without a verify path: the loop, and
-- the workers on the units that it hands over, in any order.
use mathlib.Core.List.{Perm}
use mathlib.Core.List.Perm
use mathlib.Core.Option.{some-injective}
use truth_in_stream.Prelude.{
  zero, suc, ◌*◌, ◌<◌, ℤ, pos, negsuc, gather, gather-append, gather-perm, perm_front, ℕ, String,
  Bool, true, List, [], ◌∷◌, ◌++◌, append_assoc, All, none, some, ◌≡◌, ◌≢◌, refl, sym, ap, ◌∙◌,
  arith, Bool-cases, Option-cases, inl, inr,
}
use truth_in_stream.Prelude.Floats.{Floats}
use truth_in_stream.Service.Events.{LiveEvent, World}
use truth_in_stream.Service.Shown.{IsLive}
use truth_in_stream.Service.Live.{
  PendingUnit, Offer, canceled, Input, closed, Effect, sent, queued, start, analyze_loop,
}
use truth_in_stream.Service.Live.Ledger.{numbered, finals, answered, settled, captioned}
use truth_in_stream.Service.Live.Delivery.{stays_open, analyze_loop_delivers}
use truth_in_stream.Service.Analyzer.{
  Matcher, count_or, second, LiveAnalyzerConfig, LiveAnalyzer, analyzer_of, new_live_analyzer,
  score_units,
}
use truth_in_stream.Service.Analyzer.Results.{
  answers_of, result_event, results_of, all_members, verdicts, answers_of-results_of,
  answers_of-verdicts,
}
use truth_in_stream.Service.Analyzer.Reports.{score_units-Reports}

module _ (F : Floats) where
  -- What the loop leaves on its two channels: the events, and the units.
  abbrev pub events_of : List (Effect F) → List (LiveEvent F)
  events_of [] = []
  events_of (sent e ∷ es) = e ∷ events_of es
  events_of (queued u ∷ es) = events_of es

  abbrev pub units_of : List (Effect F) → List PendingUnit
  units_of [] = []
  units_of (sent e ∷ es) = units_of es
  units_of (queued u ∷ es) = u ∷ units_of es

  -- What is settled has a result of the loop, or is in a unit.
  settled-split :
      (es : List (Effect F))
      → Perm (answers_of F (events_of es) ++ all_members (units_of es)) (gather (settled F) es)
  settled-split [] = Perm.refl []
  settled-split (sent e ∷ es) =
      rw (append_assoc (answered F e) (answers_of F (events_of es)) (all_members (units_of es)))
        (Perm.append (Perm.refl (answered F e)) (settled-split es))
  settled-split (queued u ∷ es) =
      Perm.trans (perm_front (answers_of F (events_of es)) u.members (all_members (units_of es)))
        (Perm.append (Perm.refl u.members) (settled-split es))

  -- An analyzer that is made is given its fields by the configuration.
  fields-new_live_analyzer :
      (c : LiveAnalyzerConfig F) (a : LiveAnalyzer F)
      → new_live_analyzer F c ≡ some a
      → (matcher : Matcher F) × (analyzer_of F c matcher ≡ a)
  unfolding new_live_analyzer
  fields-new_live_analyzer c a h = elim (Option-cases c.matcher) [
    | inl e ↦ absurd (ground (arith, rw e at h))
    | inr (matcher, e) ↦ elim (Bool-cases c.has_stream) [
      | inl t ↦ (matcher, some-injective (analyzer_of F c matcher) a (rw (e, t) at h))
      | inr t ↦ absurd (ground (arith, rw (e, t) at h))
    ]
  ]

  verify-new_live_analyzer :
      (c : LiveAnalyzerConfig F) (a : LiveAnalyzer F)
      → new_live_analyzer F c ≡ some a
      → a.verify ≡ c.verify
  unfolding analyzer_of
  verify-new_live_analyzer c a h =
      let (matcher, e) = fields-new_live_analyzer c a h in ap (λ b. b.verify) (sym e)

  -- `maxHold / idleFlush` never divides by 0.
  idle_flush-new_live_analyzer :
      (c : LiveAnalyzerConfig F) (a : LiveAnalyzer F)
      → new_live_analyzer F c ≡ some a
      → 0 < a.settings.idle_flush
  unfolding analyzer_of
  idle_flush-new_live_analyzer c a h =
      let (matcher, e) = fields-new_live_analyzer c a h in rw (← e) (positive c.idle_flush)
    where
      positive : (n : ℤ) → 0 < count_or (2 * second) n
      positive (pos zero) = omega arith
      positive (pos (suc n)) = omega arith
      positive (negsuc n) = omega arith

module _ (F : Floats) (normalize : String → String) (sends : ℕ → Bool) (offers : ℕ → Offer)
    (all_sent : (n : ℕ) → sends n ≡ true) (none_canceled : (n : ℕ) → offers n ≢ canceled) where
  -- Take a session of an analyzer that is made without a verify path, in which the reader takes every
  -- event, the context is never done, and the transcripts end. Whatever the gate and the matcher
  -- answer, whatever the order of transcripts and timer ticks and whether the queue has room, in
  -- whatever order the workers are done with the units that the loop hands over, and however the
  -- events of the loop and of the workers mix on the channel: each final segment gets one subtitle,
  -- with its number for an id, and exactly one result under the same id; and the results are those of
  -- the loop, and for each member of a unit the one answer of the gate and the matcher on the text of
  -- the whole unit. The idle window, which the longest hold is divided by, is not 0.
  pub score_units_answers :
      (c : LiveAnalyzerConfig F) (a : LiveAnalyzer F) (inputs : List Input) (us : List PendingUnit)
      (w : World F) (out : List (LiveEvent F))
      → new_live_analyzer F c ≡ some a
      → c.verify ≡ none
      → All (λ i. stays_open i ≡ true) inputs
      → Perm us (
          units_of F
            (analyze_loop F sends offers a.settings (inputs ++ closed ∷ []) (start F)).1.effects)
      → IsLive F normalize w
      → w.out ≡ []
      → Perm out (
          events_of F
            (analyze_loop F sends offers a.settings (inputs ++ closed ∷ []) (start F)).1.effects
          ++ (score_units F normalize a us w).out)
      → let effects =
          (analyze_loop F sends offers a.settings (inputs ++ closed ∷ []) (start F)).1.effects in
        (gather (captioned F) effects ≡ numbered 0 (finals inputs))
        × Perm (answers_of F out) (numbered 0 (finals inputs))
        × Perm
            (results_of F out)
            (results_of F (events_of F effects) ++ gather (verdicts F normalize a) us)
        × (0 < a.settings.idle_flush)
  score_units_answers c a inputs us w out made plain open_ended any_order live fresh interleaved =
      let effects =
        (analyze_loop F sends offers a.settings (inputs ++ closed ∷ []) (start F)).1.effects in
      let (captions, settles) =
        analyze_loop_delivers F sends offers a.settings all_sent none_canceled inputs open_ended in
      let done = (score_units F normalize a us w).out in
      let reported : results_of F done ≡ gather (verdicts F normalize a) us =
        rw
          (
            score_units-Reports F normalize a us w (verify-new_live_analyzer F c a made ∙ plain)
                live,
            fresh,
          )
          refl in
      let workers : answers_of F done ≡ all_members us =
        sym (answers_of-results_of F done)
        ∙ ap (answers_of F) reported
        ∙ answers_of-verdicts F normalize a us in
      (
        captions,
        Perm.trans (gather-perm (answered F) interleaved) (
            rw (gather-append (answered F) (events_of F effects) done, workers, ← settles)
              (Perm.trans
                (Perm.append (Perm.refl (answers_of F (events_of F effects)))
                  (gather-perm (λ u. u.members) any_order))
                (settled-split F effects))),
        rw (← reported, ← gather-append (result_event F) (events_of F effects) done)
            (gather-perm (result_event F) interleaved),
        idle_flush-new_live_analyzer F c a made,
      )
