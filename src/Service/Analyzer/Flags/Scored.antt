-- ===== src/Service/Analyzer/Flags/Scored.antt =====
-- The flags of a session of stack/backend/internal/service/live.go, unit by unit.
use truth_in_stream.Prelude.{
  String, true, ◌||◌, ◌&&◌, List, [], ◌∷◌, ◌++◌, append-nil, append_assoc, All, Option, none, some,
  Runes, spelled, ◌=?◌, ◌==◌, length, Option-cases, Bool-cases, inl, inr, arith, ◌≡◌, refl, lookup,
}
use truth_in_stream.Prelude.Floats.{Floats}
use truth_in_stream.Service.Memory.{new_speaker_memory, prior}
use truth_in_stream.Service.Events.{Decision, World}
use truth_in_stream.Service.Path.{consistency_at}
use truth_in_stream.Service.Live.{UnitMember, PendingUnit, combined_text}
use truth_in_stream.Service.Gate.{MatchResult, gate_and_match}
use truth_in_stream.Service.Unit.{failure_for}
use truth_in_stream.Service.Analyzer.{
  Stance, LiveAnalyzer, report_each, result_for, statement_of, detect_consistency, report_matched,
  score_by_match, score_unit, score_units,
}
use truth_in_stream.Service.Analyzer.Flags.{
  IsJustified, Sound, grow-Sound, report_each-Sound, result_for-IsJustified,
}
use truth_in_stream.Service.Analyzer.Flags.Detected.{detected-Sound}

module _ (F : Floats) (normalize : String → String) (a : LiveAnalyzer F) where
  abbrev W : Type 0
  W = World F

  abbrev Good : List PendingUnit → W → Type 0
  Good pus w = Sound F normalize a pus w

  module _ (m : UnitMember) (pu : PendingUnit) (text : Runes) (embedding : List F.Float)
      (w : W) where
    detect_consistency-none :
        a.stance ≡ none → detect_consistency F normalize a m pu text embedding w ≡ w
    unfolding detect_consistency
    detect_consistency-none e = rw e refl

    detect_consistency-some :
        (classify : Stance F)
        → a.stance ≡ some classify
        → detect_consistency F normalize a m pu text embedding w
          ≡ consistency_at F normalize
              (some (a.consistency_floor, a.consistency_top_k))
              (λ earlier. classify earlier (spelled text))
              (statement_of F normalize m pu text)
              embedding
              w
    unfolding detect_consistency
    detect_consistency-some classify e = rw e refl

  detect_consistency-Sound :
      (pus : List PendingUnit) (speaker : String) (m : UnitMember) (ms : List UnitMember)
      (r : MatchResult F) (d : Decision) (w : W)
      → gate_and_match F a.prechecker a.matcher (combined_text (m ∷ ms)) ≡ some (r, d)
      → d.checkable ≡ true
      → Good pus w
      → let pu : PendingUnit = record { speaker = speaker; members = m ∷ ms } in
        Good
          (pus ++ pu ∷ [])
          (detect_consistency F normalize a m pu (combined_text (m ∷ ms)) r.query_embedding w)
  unfolding consistency_at
  detect_consistency-Sound pus speaker m ms r d w answer let_through h =
      let pu : PendingUnit = record { speaker = speaker; members = m ∷ ms } in
      let grown = grow-Sound F normalize a pus pu w h in
      let text = combined_text (m ∷ ms) in
      elim (Option-cases a.stance) [
        | inl e ↦ rw (detect_consistency-none m pu text r.query_embedding w e) grown
        | inr (classify, e) ↦
            rw (detect_consistency-some m pu text r.query_embedding w classify e)
              (elim (Bool-cases ((speaker =? "") || length r.query_embedding == 0)) [
                | inl off ↦ rw off grown
                | inr on ↦ rw on (
                    detected-Sound F normalize a pus speaker m ms classify e (ground arith) r d
                      answer let_through r.query_embedding w h.0 grown)
              ])
      ]

  report_matched-Sound :
      (pus : List PendingUnit) (speaker : String) (m : UnitMember) (ms : List UnitMember)
      (o : Option (MatchResult F × Decision)) (w : W)
      → gate_and_match F a.prechecker a.matcher (combined_text (m ∷ ms)) ≡ o
      → Good pus w
      → let pu : PendingUnit = record { speaker = speaker; members = m ∷ ms } in
        Good (pus ++ pu ∷ []) (report_matched F normalize a m pu o w)
  unfolding report_matched
  report_matched-Sound pus speaker m ms none w e h =
      let pu : PendingUnit = record { speaker = speaker; members = m ∷ ms } in
      grow-Sound F normalize a pus pu
        (report_each F normalize (failure_for F normalize) (m ∷ ms) w).1
        (report_each-Sound F normalize a pus (failure_for F normalize) (m ∷ ms) w (λ m. tt) h)
  report_matched-Sound pus speaker m ms (some (r, d)) w e h =
      let pu : PendingUnit = record { speaker = speaker; members = m ∷ ms } in
      let reported = report_each F normalize (result_for F normalize r d) (m ∷ ms) w in
      let told =
        report_each-Sound F normalize a pus (result_for F normalize r d) (m ∷ ms) w
          (result_for-IsJustified F normalize a pus r d) h in
      elim (Bool-cases (reported.0 && d.checkable)) [
        | inl t ↦
            rw t (detect_consistency-Sound pus speaker m ms r d reported.1 e (ground arith) told)
        | inr t ↦ rw t (grow-Sound F normalize a pus pu reported.1 told)
      ]

  score_by_match-Sound :
      (pus : List PendingUnit) (speaker : String) (ms : List UnitMember) (w : W)
      → Good pus w
      → let pu : PendingUnit = record { speaker = speaker; members = ms } in
        Good (pus ++ pu ∷ []) (score_by_match F normalize a pu w)
  unfolding score_by_match
  score_by_match-Sound pus speaker [] w h =
      grow-Sound F normalize a pus (record { speaker = speaker; members = [] }) w h
  score_by_match-Sound pus speaker (m ∷ ms) w h =
      report_matched-Sound pus speaker m ms
        (gate_and_match F a.prechecker a.matcher (combined_text (m ∷ ms))) w refl h

  score_unit-none :
      (pu : PendingUnit) (w : W)
      → a.verify ≡ none
      → score_unit F normalize a pu w ≡ score_by_match F normalize a pu w
  unfolding score_unit
  score_unit-none pu w plain = rw plain refl

  score_unit-Sound :
      (pus : List PendingUnit) (pu : PendingUnit) (w : W)
      → a.verify ≡ none
      → Good pus w
      → Good (pus ++ pu ∷ []) (score_unit F normalize a pu w)
  score_unit-Sound pus pu w plain h =
      rw (score_unit-none pu w plain) (score_by_match-Sound pus pu.speaker pu.members w h)

  score_units-Sound :
      (done pus : List PendingUnit) (w : W)
      → a.verify ≡ none
      → Good done w
      → Good (done ++ pus) (score_units F normalize a pus w)
  unfolding score_units
  score_units-Sound done [] w plain h = rw (append-nil done) h
  score_units-Sound done (pu ∷ pus) w plain h = rw (← append_assoc done (pu ∷ []) pus) (
      score_units-Sound (done ++ pu ∷ []) pus (score_unit F normalize a pu w) plain
        (score_unit-Sound done pu w plain h))

  -- Whatever the units, the gate, the matcher and the stance classifier, and whether the connection
  -- lives, without a verify path and from a fresh memory: each consistency flag that the workers raise
  -- carries the id and the segment of the first member of a unit, and names an earlier statement, that
  -- of a unit scored before; both are units of the flag's speaker, who is known; the gate let both
  -- through and the matcher answered; and the stance classifier said of just these two texts that they
  -- contradict each other, with the flag's rationale.
  pub score_units-IsJustified :
      (pus : List PendingUnit) (w : W)
      → a.verify ≡ none
      → w.memory ≡ new_speaker_memory F
      → w.out ≡ []
      → All (IsJustified F normalize a pus) (score_units F normalize a pus w).out
  unfolding new_speaker_memory prior lookup
  score_units-IsJustified pus w plain fresh silent =
      (score_units-Sound [] pus w plain (rw (fresh, silent) (λ speaker. tt, tt))).1
