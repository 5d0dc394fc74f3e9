-- ===== src/Service/Analyzer/Results.antt =====
-- The results among the events of a live session of stack/backend/internal/service/live.go, and what
-- a unit is to be told.
use truth_in_stream.Prelude.{
  gather, gather-append, gather-map, String, List, [], ◌∷◌, ◌++◌, map, Option, none, some, ◌≡◌,
  refl, ap, ◌∙◌, Bool-cases, inl, inr,
}
use truth_in_stream.Prelude.Floats.{Floats}
use truth_in_stream.Service.Events.{
  Decision, LiveEvent, interim, subtitle, claims, skipped, unit_failed, matched, claim_result,
  consistency, speaker_tally, World,
}
use truth_in_stream.Service.Live.{UnitMember, PendingUnit, combined_text}
use truth_in_stream.Service.Live.Ledger.{answered}
use truth_in_stream.Service.Gate.{MatchResult, gate_and_match}
use truth_in_stream.Service.Unit.{failure_for}
use truth_in_stream.Service.Analyzer.{LiveAnalyzer, result_for}

module _ (F : Floats) where
  -- The members that have a result among the events.
  abbrev pub answers_of : List (LiveEvent F) → List UnitMember
  answers_of es = gather (answered F) es

  abbrev pub result_event : LiveEvent F → List (LiveEvent F)
  result_event (skipped id seg reason) = skipped id seg reason ∷ []
  result_event (unit_failed id seg) = unit_failed id seg ∷ []
  result_event (matched id seg reason matches confidence) =
      matched id seg reason matches confidence ∷ []
  result_event _ = []

  -- The results among the events.
  abbrev pub results_of : List (LiveEvent F) → List (LiveEvent F)
  results_of es = gather result_event es

  answered-result_event : (e : LiveEvent F) → answers_of (result_event e) ≡ answered F e
  answered-result_event (interim _) = refl
  answered-result_event (subtitle _ _) = refl
  answered-result_event (claims _ _ _) = refl
  answered-result_event (skipped _ _ _) = refl
  answered-result_event (unit_failed _ _) = refl
  answered-result_event (matched _ _ _ _ _) = refl
  answered-result_event (claim_result _ _ _ _) = refl
  answered-result_event (consistency _ _ _) = refl
  answered-result_event (speaker_tally _) = refl

  -- Only results answer.
  pub answers_of-results_of : (es : List (LiveEvent F)) → answers_of (results_of es) ≡ answers_of es
  answers_of-results_of [] = refl
  answers_of-results_of (e ∷ es) =
      gather-append (answered F) (result_event e) (results_of es)
      ∙ ap (λ l. l ++ answers_of (results_of es)) (answered-result_event e)
      ∙ ap (λ l. answered F e ++ l) (answers_of-results_of es)

-- The members of the units, one unit after the other.
abbrev pub all_members : List PendingUnit → List UnitMember
all_members pus = gather (λ u. u.members) pus

module _ (F : Floats) (normalize : String → String) where
  abbrev W : Type 0
  W = World F

  abbrev pub verdict_of : Option (MatchResult F × Decision) → UnitMember → LiveEvent F
  verdict_of none m = failure_for F normalize m
  verdict_of (some (r, d)) m = result_for F normalize r d m

  -- What a unit is to be told: for each member the same answer of the gate and the matcher, on the
  -- text of the whole unit.
  abbrev pub verdicts : LiveAnalyzer F → PendingUnit → List (LiveEvent F)
  verdicts a pu =
      map (verdict_of (gate_and_match F a.prechecker a.matcher (combined_text pu.members)))
        pu.members

  answered-verdict_of :
      (o : Option (MatchResult F × Decision)) (m : UnitMember)
      → answered F (verdict_of o m) ≡ m ∷ []
  answered-verdict_of none m = refl
  answered-verdict_of (some (r, d)) m = elim (Bool-cases d.checkable) [
    | inl t ↦ rw t refl
    | inr t ↦ rw t refl
  ]

  pub result_event-verdict_of :
      (o : Option (MatchResult F × Decision)) (m : UnitMember)
      → result_event F (verdict_of o m) ≡ verdict_of o m ∷ []
  result_event-verdict_of none m = refl
  result_event-verdict_of (some (r, d)) m = elim (Bool-cases d.checkable) [
    | inl t ↦ rw t refl
    | inr t ↦ rw t refl
  ]

  -- The verdicts answer each member once.
  pub answers_of-verdicts :
      (a : LiveAnalyzer F) (pus : List PendingUnit)
      → answers_of F (gather (verdicts a) pus) ≡ all_members pus
  answers_of-verdicts a [] = refl
  answers_of-verdicts a (pu ∷ pus) =
      let o = gate_and_match F a.prechecker a.matcher (combined_text pu.members) in
      gather-append (answered F) (verdicts a pu) (gather (verdicts a) pus)
      ∙ ap (λ l. l ++ answers_of F (gather (verdicts a) pus))
          (gather-map (answered F) (verdict_of o) (answered-verdict_of o) pu.members)
      ∙ ap (λ l. pu.members ++ l) (answers_of-verdicts a pus)
