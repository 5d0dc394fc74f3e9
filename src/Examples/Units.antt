-- ===== src/Examples/Units.antt =====
-- Examples for the scoring of a unit.
use truth_in_stream.Prelude.{
  String, true, List, [], ◌∷◌, map, Option, none, some, lookup, insert, inl, ◌≡◌, refl,
}
use truth_in_stream.Service.Verdicts.{curated, curated_verdict, fast_match}
use truth_in_stream.Service.ClaimCache.{cache_get, cache_put}
use truth_in_stream.Service.Events.{ClaimOutcome, verified, not_a_claim}
use truth_in_stream.Service.Live.{UnitMember, combined_text}
use truth_in_stream.Service.Unit.{
  UnitCalls, BatchUnit, unit_skipped, without_claims, resolved, analyze_text, score_unit,
}
use truth_in_stream.Service.Unit.Parity.{Agrees, score_unit-analyze_text}
use truth_in_stream.Examples.Numbers.{tenths}
use truth_in_stream.Examples.Claims.{plain, config, calls, near, world}

abbrev two_claims : UnitCalls tenths
two_claims = record {
  gate = λ _. some (record { checkable = true; reason = not_a_claim });
  decompose = λ _ _. "the sky is blue" ∷ "the sea is deep" ∷ [];
  of_claim = λ _. calls;
}

abbrev member : UnitMember
member = record { id = "u1"; seg = record { start = 0; end = 900; text = []; speaker = "A" } }

score_unit-analyze_text_example :
    let r =
      analyze_text tenths plain config two_claims (combined_text (member ∷ [])) "u1" world.cache in
    let w' =
      score_unit tenths plain config two_claims
        (record { speaker = "A"; members = member ∷ [] })
        world in
    Agrees tenths plain (record { speaker = "A"; members = member ∷ [] }) r.0 world w'
    × (w'.cache ≡ r.1)
score_unit-analyze_text_example =
    score_unit-analyze_text tenths plain config two_claims "A" member [] world (λ n. refl)
      (inl refl) (λ k e. cc) refl

abbrev answer_of : Option (BatchUnit tenths) → List (String × ClaimOutcome tenths)
answer_of none = []
answer_of (some (unit_skipped reason)) = []
answer_of (some without_claims) = []
answer_of (some (resolved rs)) = map (λ r. (r.0.claim_id, r.1)) rs

-- Both claims borrow the verdict of the match, under their own ids.
answers :
    answer_of (analyze_text tenths plain config two_claims [] "u1" none).0
    ≡ ("u1-0", verified curated (curated_verdict tenths near))
      ∷ ("u1-1", verified curated (curated_verdict tenths near))
      ∷ []
unfolding analyze_text curated_verdict lookup cache_get cache_put insert fast_match
answers = refl
