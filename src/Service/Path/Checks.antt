-- ===== src/Service/Path/Checks.antt =====
-- The verdicts of one claim: the curated stores, the two verifiers under the verify pool and the
-- second pass (verify_path.go, political_path.go and second_pass.go of
-- stack/backend/internal/service).
use truth_in_stream.Prelude.{not, List, [], ◌∷◌, Option, none, some, ◌==◌, if◌then◌else◌, length}
use truth_in_stream.Prelude.Floats.{Floats}
use truth_in_stream.Service.Verdicts.{
  Evidence, SegmentMatch, VerifiedVerdict, fast_match, passages_from_matches, verdict_from_result,
  no_match_verdict, curated_verdict, evidence_passages_from, political_verdict_from_result,
  political_curated_verdict, literal_from_credibility, qualifies, upgrade,
}
use truth_in_stream.Service.Path.Given.{
  Slot, acquired, saturated, canceled, Retrieved, Config, Calls, is_political,
}

module _ (F : Floats) where
  open F use {Float, lt, f1, sub}

  -- `politicalFastMatch`
  unfoldable pub political_fast_match : Config F → Calls F → List Float → Option (VerifiedVerdict F)
  political_fast_match cfg calls embedding = elim cfg.political [
    | none ↦ none
    | some store ↦ elim store [
      | none ↦ none
      | some tau ↦ if length embedding == 0 then none else elim calls.search_political [
        | none ↦ none
        | some ms ↦ elim ms [
          | [] ↦ none
          | best ∷ _ ↦
              if lt (sub f1 best.distance) tau
              then none
              else some (political_curated_verdict F best)
        ]
      ]
    ]
  ]

  -- what `verifyClaim` and `verifyPolitical` return: a verdict, the shed flag, or an error
  pub data Check : Type 0 where
    judged : VerifiedVerdict F → Check
    shed : Check
    broken : Check

  abbrev pub in_slot : Slot → Option (VerifiedVerdict F) → Check
  in_slot acquired none = broken
  in_slot acquired (some v) = judged v
  in_slot saturated v = shed
  in_slot canceled v = broken

  unfoldable pub run_verifier : Calls F → List (SegmentMatch F) → Option (VerifiedVerdict F)
  run_verifier calls matches = elim (calls.verify (passages_from_matches F matches)) [
    | none ↦ none
    | some res ↦ some (verdict_from_result F res matches)
  ]

  unfoldable pub verify_claim : Calls F → List (SegmentMatch F) → Check
  unfolding run_verifier
  verify_claim calls [] = judged (no_match_verdict F)
  verify_claim calls (m ∷ ms) = in_slot calls.slot (run_verifier calls (m ∷ ms))

  unfoldable pub run_political_verifier : Calls F → List Evidence → Option (VerifiedVerdict F)
  run_political_verifier calls routed =
      elim (calls.verify_political (evidence_passages_from routed)) [
        | none ↦ none
        | some res ↦ some (political_verdict_from_result F res routed)
      ]

  unfoldable pub verify_political : Calls F → List Evidence → Check
  unfolding run_political_verifier
  verify_political calls routed = in_slot calls.slot (run_political_verifier calls routed)

  -- The second pass up to `upgrade`: the verdict that replaces the fast one, if any.
  unfoldable pub second_look :
      Option (Float × Float)
      → Calls F
      → VerifiedVerdict F
      → Retrieved F
      → Option (VerifiedVerdict F)
  second_look none calls fast ret = none
  second_look (some (lo, hi)) calls fast ret =
      let passages = passages_from_matches F ret.matches in
      if not (qualifies F lo hi fast (length passages))
      then none
      else elim (calls.reverify passages) [
        | none ↦ none
        | some reasoned ↦ upgrade F reasoned ret.matches
      ]

  abbrev pub curated_for : Config F → SegmentMatch F → VerifiedVerdict F
  curated_for cfg fast =
      let v = curated_verdict F fast in
      if is_political F cfg then record v { literal = literal_from_credibility v.verdict } else v

  -- the borrowed verdict of a claim, from the curated political store or from a near match
  unfoldable pub borrowed : Config F → Calls F → Retrieved F → Option (VerifiedVerdict F)
  unfolding political_fast_match
  borrowed cfg calls ret = elim (political_fast_match cfg calls ret.embedding) [
    | some v ↦ some v
    | none ↦ elim (fast_match F cfg.fast_tau ret.matches) [
      | some fast ↦ some (curated_for cfg fast)
      | none ↦ none
    ]
  ]
