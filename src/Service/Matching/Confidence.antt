-- ===== src/Service/Matching/Confidence.antt =====
-- The corroboration score of stack/backend/internal/service/confidence.go, as `Confidence` and
-- `Contributions` of the matcher give it.
pub mod Explained
pub mod Bounds
use truth_in_stream.Prelude.{
  ℕ, zero, suc, ◌+◌, String, Bool, true, false, List, [], ◌∷◌, length, take, ltb, ◌&&◌, ◌=?◌,
  if◌then◌else◌,
}
use mathlib.Core.List.{foldl}
use truth_in_stream.Prelude.Floats.{Floats}
use truth_in_stream.Service.Verdicts.{MatchKind, claim, evidence}
use truth_in_stream.Service.Matching.{Match}

module _ (F : Floats) where
  open F use {Float, lt, le, add, mul, div, f0, f1}

  -- `confidenceParams`; a cap below 1 caps nothing
  pub record ConfidenceParams : Type 0 where
    pub cluster_size : ℕ
    pub lead_weight : Float
    pub body_weight : Float

  -- the sums that `computeConfidence` keeps
  pub record Weighed : Type 0 where
    pub supporting : Float
    pub contradicting : Float
    pub items : ℕ

  -- `domain.Confidence`
  pub record Confidence : Type 0 where
    pub score : Float
    pub supporting : Float
    pub contradicting : Float
    pub evidence_items : ℕ

  -- `validWeight`, which the configuration of a matcher must pass for both weights
  unfoldable pub valid_weight : Float → Bool
  valid_weight w = le f0 w && le w f1

  unfoldable pub chunk_kind_weight : ConfidenceParams → String → Float
  chunk_kind_weight p kind = if kind =? "body" then p.body_weight else p.lead_weight

  abbrev pub stance_weight : ConfidenceParams → Match F → MatchKind → Float
  stance_weight p m evidence = mul m.score (chunk_kind_weight p m.wiki_kind)
  stance_weight p m claim = if m.verdict =? "unclear" then f0 else m.score

  unfoldable pub match_weight : ConfidenceParams → Match F → Float
  unfolding chunk_kind_weight
  match_weight p m = if le m.score f0 then f0 else stance_weight p m m.kind

  unfoldable pub cluster_limit : ConfidenceParams → ℕ → ℕ
  cluster_limit p n = if ltb 0 p.cluster_size && ltb p.cluster_size n then p.cluster_size else n

  -- `weight == 0`
  abbrev pub is_zero : Float → Bool
  is_zero w = le w f0 && le f0 w

  abbrev pub is_claim : MatchKind → Bool
  is_claim claim = true
  is_claim evidence = false

  abbrev pub contradicts : Match F → Bool
  contradicts m = is_claim m.kind && (m.verdict =? "contradicts")

  -- The body of the loop of `computeConfidence`.
  unfoldable pub weigh : ConfidenceParams → Weighed → Match F → Weighed
  unfolding match_weight
  weigh p s m =
      let weight = match_weight p m in
      if is_zero weight
      then s
      else if contradicts m
      then record s { contradicting = add s.contradicting weight; items = s.items + 1 }
      else record s { supporting = add s.supporting weight; items = s.items + 1 }

  abbrev pub nothing_weighed : Weighed
  nothing_weighed = record { supporting = f0; contradicting = f0; items = 0 }

  unfoldable pub confidence_of : Weighed → Confidence
  confidence_of s =
      let total = add s.supporting s.contradicting in
      record {
        score = if lt f0 total then div s.supporting total else f0;
        supporting = s.supporting;
        contradicting = s.contradicting;
        evidence_items = s.items;
      }

  -- `computeConfidence`
  unfoldable pub compute_confidence : ConfidenceParams → List (Match F) → Confidence
  unfolding weigh confidence_of cluster_limit
  compute_confidence p matches =
      confidence_of
        (foldl (weigh p) nothing_weighed (take (cluster_limit p (length matches)) matches))

  -- The weights of the first matches, and 0 for each of the rest.
  unfoldable pub weights_within : ConfidenceParams → ℕ → List (Match F) → List Float
  unfolding match_weight
  weights_within p limit [] = []
  weights_within p zero (m ∷ ms) = f0 ∷ weights_within p zero ms
  weights_within p (suc limit) (m ∷ ms) = match_weight p m ∷ weights_within p limit ms

  -- `matchContributions`
  unfoldable pub match_contributions : ConfidenceParams → List (Match F) → List Float
  unfolding weights_within cluster_limit
  match_contributions p matches = weights_within p (cluster_limit p (length matches)) matches
