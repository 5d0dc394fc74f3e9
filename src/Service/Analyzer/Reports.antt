-- ===== src/Service/Analyzer/Reports.antt =====
-- The results that the workers of stack/backend/internal/service/live.go report for a unit by the gate
-- and the matcher.
use truth_in_stream.Prelude.{
  gather, gather-append, ℕ, suc, String, Bool, true, false, List, [], ◌∷◌, ◌++◌, append-nil,
  append_assoc, map, Option, none, some, Runes, spelled, Option-cases, ◌&&◌, if◌then◌else◌, ◌≡◌,
  refl, sym, ap, ◌∙◌, Bool-cases, inl, inr,
}
use truth_in_stream.Prelude.Floats.{Floats}
use truth_in_stream.Service.Events.{Decision, LiveEvent, World, send_event}
use truth_in_stream.Service.Path.{Job}
use truth_in_stream.Service.Steps.{QuietLaws, consistency_at-Quiet}
use truth_in_stream.Service.Shown.{IsLive}
use truth_in_stream.Service.Live.{UnitMember, PendingUnit, combined_text}
use truth_in_stream.Service.Gate.{MatchResult, gate_and_match}
use truth_in_stream.Service.Unit.Sends.{send-live}
use truth_in_stream.Service.Analyzer.{
  LiveAnalyzer, report_each, result_for, statement_of, detect_consistency, report_matched,
  score_by_match, score_unit, score_units,
}
use truth_in_stream.Service.Analyzer.Results.{
  result_event, results_of, verdict_of, verdicts, result_event-verdict_of,
}

module _ (F : Floats) (normalize : String → String) where
  abbrev W : Type 0
  W = World F

  -- Exactly these results are reported, and the reader goes on as before.
  abbrev Reports : List (LiveEvent F) → W → W → Type 0
  Reports es w w' = (results_of F w'.out ≡ results_of F w.out ++ es) × (w'.sends ≡ w.sends)

  Reports-none : (w : W) → Reports [] w w
  Reports-none w = (sym (append-nil (results_of F w.out)), refl)

  Reports-trans :
      (es fs : List (LiveEvent F)) (u v w : W)
      → Reports es u v
      → Reports fs v w
      → Reports (es ++ fs) u w
  Reports-trans es fs u v w (p, s) (q, t) =
      (q ∙ ap (λ l. l ++ fs) p ∙ append_assoc (results_of F u.out) es fs, t ∙ s)

  IsLive-kept : (w w' : W) → w'.sends ≡ w.sends → IsLive F normalize w → IsLive F normalize w'
  IsLive-kept w w' kept live n = ap (λ (f : ℕ → Bool). f n) kept ∙ live n

  report_each-live :
      (event : UnitMember → LiveEvent F) (ms : List UnitMember) (w : W)
      → IsLive F normalize w
      → let r = report_each F normalize event ms w in
        (r.0 ≡ true) × (r.1.out ≡ w.out ++ map event ms) × (r.1.sends ≡ w.sends)
  unfolding report_each
  report_each-live event [] w live = (refl, sym (append-nil w.out), refl)
  report_each-live event (m ∷ ms) w live =
      let w1 : W = record w { out = w.out ++ event m ∷ []; asked = suc w.asked } in
      let (on, out, kept) = report_each-live event ms w1 live in
      rw (send-live F normalize (event m) w live)
        (on, out ∙ append_assoc w.out (event m ∷ []) (map event ms), kept)

  -- The loop that reports a verdict to each member.
  report_each-Reports :
      (o : Option (MatchResult F × Decision)) (ms : List UnitMember) (w : W)
      → IsLive F normalize w
      → Reports
          (map (verdict_of F normalize o) ms)
          w
          (report_each F normalize (verdict_of F normalize o) ms w).1
  report_each-Reports o ms w live =
      let (on, out, kept) = report_each-live (verdict_of F normalize o) ms w live in
      (
        ap (results_of F) out
            ∙ gather-append (result_event F) w.out (map (verdict_of F normalize o) ms)
            ∙ ap (λ l. results_of F w.out ++ l) (all_results ms),
        kept,
      )
    where
      all_results :
          (ms : List UnitMember)
          → results_of F (map (verdict_of F normalize o) ms) ≡ map (verdict_of F normalize o) ms
      all_results [] = refl
      all_results (m ∷ ms) =
          rw (result_event-verdict_of F normalize o m)
            (ap (λ l. verdict_of F normalize o m ∷ l) (all_results ms))

  send-Reports :
      (e : LiveEvent F) (w : W) → result_event F e ≡ [] → Reports [] w (send_event F e w).1
  unfolding send_event
  send-Reports e w h = elim (Bool-cases (w.sends w.asked)) [
    | inl t ↦ rw t (
      gather-append (result_event F) w.out (e ∷ [])
          ∙ ap (λ l. results_of F w.out ++ l) (ap (λ l. l ++ []) h),
      refl,
    )
    | inr t ↦ rw t (Reports-none w)
  ]

  -- A consistency check reports no result.
  unreported : (j : Job) → QuietLaws F normalize j
  unreported j = record {
    Quiet = Reports [];
    same = Reports-none;
    then_quiet = Reports-trans [] [];
    notes = λ flag w. send-Reports _ w refl;
    learns = λ p w. Reports-none w;
  }

  detect_consistency-Reports :
      (a : LiveAnalyzer F) (m : UnitMember) (pu : PendingUnit) (text : Runes)
      (embedding : List F.Float) (w : W)
      → Reports [] w (detect_consistency F normalize a m pu text embedding w)
  unfolding detect_consistency unreported
  detect_consistency-Reports a m pu text embedding w = elim (Option-cases a.stance) [
    | inl e ↦ rw e (Reports-none w)
    | inr (contradicts, e) ↦ rw e (
        let j = statement_of F normalize m pu text in
        consistency_at-Quiet F normalize j (unreported j)
          (some (a.consistency_floor, a.consistency_top_k))
          (λ earlier. contradicts earlier (spelled text)) embedding w)
  ]

  -- After the results of the members, whatever the consistency check does.
  then_detects :
      (a : LiveAnalyzer F) (m : UnitMember) (pu : PendingUnit) (embedding : List F.Float)
      (es : List (LiveEvent F)) (b : Bool) (w w' : W)
      → Reports es w w'
      → Reports es w (
          if b
          then detect_consistency F normalize a m pu (combined_text pu.members) embedding w'
          else w')
  then_detects a m pu embedding es false w w' h = h
  then_detects a m pu embedding es true w w' (p, s) =
      let text = combined_text pu.members in
      let (q, t) = detect_consistency-Reports a m pu text embedding w' in
      (q ∙ append-nil (results_of F w'.out) ∙ p, t ∙ s)

  report_matched-Reports :
      (a : LiveAnalyzer F) (m : UnitMember) (pu : PendingUnit)
      (o : Option (MatchResult F × Decision)) (w : W)
      → IsLive F normalize w
      → Reports
          (map (verdict_of F normalize o) pu.members)
          w
          (report_matched F normalize a m pu o w)
  unfolding report_matched
  report_matched-Reports a m pu none w live = report_each-Reports none pu.members w live
  report_matched-Reports a m pu (some (r, d)) w live =
      let reported = report_each F normalize (result_for F normalize r d) pu.members w in
      then_detects a m pu r.query_embedding (map (verdict_of F normalize (some (r, d))) pu.members)
        (reported.0 && d.checkable) w reported.1
        (report_each-Reports (some (r, d)) pu.members w live)

  -- A unit that is scored by the gate and the matcher: each member gets its verdict.
  score_unit-Reports :
      (a : LiveAnalyzer F) (pu : PendingUnit) (w : W)
      → a.verify ≡ none
      → IsLive F normalize w
      → Reports (verdicts F normalize a pu) w (score_unit F normalize a pu w)
  unfolding score_unit score_by_match
  score_unit-Reports a pu w plain live = rw plain (by_match pu.speaker pu.members)
    where
      by_match :
          (speaker : String) (ms : List UnitMember)
          → let pu : PendingUnit = record { speaker = speaker; members = ms } in
            Reports (verdicts F normalize a pu) w (score_by_match F normalize a pu w)
      by_match speaker [] = Reports-none w
      by_match speaker (m ∷ ms) =
          let pu : PendingUnit = record { speaker = speaker; members = m ∷ ms } in
          report_matched-Reports a m pu
            (gate_and_match F a.prechecker a.matcher (combined_text (m ∷ ms))) w live

  pub score_units-Reports :
      (a : LiveAnalyzer F) (pus : List PendingUnit) (w : W)
      → a.verify ≡ none
      → IsLive F normalize w
      → results_of F (score_units F normalize a pus w).out
        ≡ results_of F w.out ++ gather (verdicts F normalize a) pus
  unfolding score_units
  score_units-Reports a [] w plain live = sym (append-nil (results_of F w.out))
  score_units-Reports a (pu ∷ pus) w plain live =
      let (p, s) = score_unit-Reports a pu w plain live in
      let w1 = score_unit F normalize a pu w in
      score_units-Reports a pus w1 plain (IsLive-kept w w1 s live)
      ∙ ap (λ l. l ++ gather (verdicts F normalize a) pus) p
      ∙ append_assoc (results_of F w.out) (verdicts F normalize a pu)
          (gather (verdicts F normalize a) pus)
