-- ===== src/Service/Matching/Setup.antt =====
-- The construction of a matcher, stack/backend/internal/service/match.go, and the corroboration score
-- under its configuration. The program's counts are signed; those below 0, which `validate` refuses
-- as well, have no place here.
use mathlib.Core.Option.{some-injective}
use truth_in_stream.Prelude.{
  ℕ, ◌-◌, ◌^◌, ◌≤◌, ◌<◌, Bool, true, List, length, All, Option, none, some, leb, ltb, ◌&&◌,
  if◌then◌else◌, Bool-cases, inl, inr, ◌≡◌, sym, ap, ◌∙◌, arith,
}
use truth_in_stream.Prelude.Floats.{Floats}
use truth_in_stream.Service.Matching.{Match, MatcherConfig}
use truth_in_stream.Service.Matching.Confidence.{
  ConfidenceParams, Confidence, valid_weight, compute_confidence, match_contributions,
}
use truth_in_stream.Service.Matching.Confidence.Bounds.{IsRounded, compute_confidence_bounds}

abbrev pub max_int32 : ℕ
max_int32 = 2 ^ 31 - 1

module _ (F : Floats) where
  open F use {Float, le, sub, f0, f1, add}

  -- `domain.ValidCosineThreshold`: from -1 to 1
  unfoldable pub valid_cosine_threshold : Float → Bool
  valid_cosine_threshold v = le (sub f0 f1) v && le v f1

  abbrev pub in_range : ℕ → ℕ → Bool
  in_range least n = leb least n && leb n max_int32

  -- `MatcherConfig.validate`
  unfoldable pub validate : MatcherConfig F → Bool
  unfolding valid_weight valid_cosine_threshold
  validate c =
      in_range 1 c.top_k
      && (valid_cosine_threshold c.score_threshold
          && (in_range 0 c.evidence_top_k
              && (valid_cosine_threshold c.evidence_threshold
                  && (in_range 1 c.max_results
                      && (leb 1 c.embed_concurrency
                          && (ltb 0 c.timeout
                              && (in_range 1 c.confidence_cluster_size
                                  && (valid_weight F c.confidence_lead_weight
                                      && valid_weight F c.confidence_body_weight))))))))

  -- `NewMatcher`: the configuration of the matcher, none where it is refused
  unfoldable pub new_matcher : MatcherConfig F → Option (MatcherConfig F)
  unfolding validate
  new_matcher c = if validate c then some c else none

  abbrev pub params_of : MatcherConfig F → ConfidenceParams F
  params_of c = record {
    cluster_size = c.confidence_cluster_size;
    lead_weight = c.confidence_lead_weight;
    body_weight = c.confidence_body_weight;
  }

  -- `Matcher.Confidence`
  unfoldable pub confidence : MatcherConfig F → List (Match F) → Confidence F
  unfolding compute_confidence
  confidence c matches = compute_confidence F (params_of c) matches

  -- `Matcher.Contributions`
  unfoldable pub contributions : MatcherConfig F → List (Match F) → List Float
  unfolding match_contributions
  contributions c matches = match_contributions F (params_of c) matches

  validated :
      (c : MatcherConfig F)
      → validate c ≡ true
      → (valid_weight F c.confidence_lead_weight ≡ true)
        × (valid_weight F c.confidence_body_weight ≡ true)
        × (0 < c.confidence_cluster_size)
  unfolding validate
  validated c h = ground arith

  accepted : (cfg c : MatcherConfig F) → new_matcher cfg ≡ some c → validate c ≡ true
  unfolding new_matcher
  accepted cfg c h = elim (Bool-cases (validate cfg)) [
    | inl ok ↦ ap validate (sym (some-injective cfg c (rw ok at h))) ∙ ok
    | inr refused ↦ absurd (ground (arith, rw refused at h))
  ]

  -- For a configuration that `NewMatcher` accepts and matches whose scores are finite numbers, as long
  -- as the sum of the two weights is finite: the matcher's confidence score is from 0 to 1, no more
  -- evidence items are counted than there are matches, and no more than the cluster cap.
  pub confidence_bounds :
      (finite : Float → Bool)
      → IsRounded F finite
      → (cfg c : MatcherConfig F) (ms : List (Match F)) → new_matcher cfg ≡ some c
      → All (λ m. finite m.score ≡ true) ms
      → finite (add (confidence c ms).supporting (confidence c ms).contradicting) ≡ true
      → (le f0 (confidence c ms).score ≡ true)
        × (le (confidence c ms).score f1 ≡ true)
        × ((confidence c ms).evidence_items ≤ length ms)
        × ((confidence c ms).evidence_items ≤ c.confidence_cluster_size)
  unfolding confidence
  confidence_bounds finite laws cfg c ms made all fits =
      let valid = validated c (accepted cfg c made) in
      let bounds =
        compute_confidence_bounds F finite laws (params_of c) ms (valid.0, valid.1) all fits in
      (bounds.0, bounds.1, bounds.2, bounds.3 valid.2)
