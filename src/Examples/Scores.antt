-- ===== src/Examples/Scores.antt =====
-- The corroboration score at concrete matches, with tenths for scores.
use truth_in_stream.Prelude.{
  ℕ, ◌*◌, ◌/◌, ◌≤◌, Bool, true, false, String, List, [], ◌∷◌, length, keep, Option, none, some,
  if◌then◌else◌, codes, ◌≡◌, refl, arith,
}
use native.Mathlib.Nat.{div-le_of_le-mul}
use truth_in_stream.Service.Verdicts.{MatchKind, claim, evidence}
use truth_in_stream.Service.Matching.{Match, MatcherConfig}
use truth_in_stream.Service.Matching.Confidence.{
  ConfidenceParams, compute_confidence, match_contributions,
}
use truth_in_stream.Service.Matching.Confidence.Explained.{
  shown_weights, backs, refutes, sum_from, compute_confidence-match_contributions,
}
use truth_in_stream.Service.Matching.Confidence.Bounds.{IsRounded}
use truth_in_stream.Service.Matching.Setup
use truth_in_stream.Service.Matching.Setup.{new_matcher, confidence_bounds}
use truth_in_stream.Examples.Numbers.{tenths}

abbrev params : ConfidenceParams tenths
params = record { cluster_size = 3; lead_weight = some 10; body_weight = some 5 }

abbrev match_of : MatchKind → String → String → ℕ → Match tenths
match_of kind verdict wiki_kind score = record {
  kind = kind;
  claim_id = codes "c";
  text = codes "Water is wet.";
  verdict = verdict;
  sources = [];
  article = record { title = []; url = [] };
  wiki_kind = wiki_kind;
  evidence_id = codes "e";
  score = some score;
}

-- The last match is beyond the cap.
abbrev cluster : List (Match tenths)
cluster =
    match_of claim "contradicts" "" 9
    ∷ match_of claim "unclear" "" 8
    ∷ match_of evidence "" "body" 6
    ∷ match_of evidence "" "lead" 5
    ∷ []

weighed : match_contributions tenths params cluster ≡ some 9 ∷ some 0 ∷ some 3 ∷ some 0 ∷ []
unfolding match_contributions
weighed = refl

scored :
    compute_confidence tenths params cluster
    ≡ record { score = some 2; supporting = some 3; contradicting = some 9; evidence_items = 2 }
unfolding compute_confidence
scored = refl

compute_confidence-match_contributions_example :
    let c = compute_confidence tenths params cluster in
    let shown = shown_weights tenths cluster (match_contributions tenths params cluster) in
    let total = tenths.add c.supporting c.contradicting in
    (length (match_contributions tenths params cluster) ≡ length cluster)
    × (c.supporting ≡ sum_from tenths (some 0) (keep (backs tenths) shown))
    × (c.contradicting ≡ sum_from tenths (some 0) (keep (refutes tenths) shown))
    × (c.evidence_items ≡ length shown)
    × (c.score ≡ (if tenths.lt (some 0) total then tenths.div c.supporting total else some 0))
compute_confidence-match_contributions_example =
    compute_confidence-match_contributions tenths params cluster

abbrev finite : Option ℕ → Bool
finite none = false
finite (some n) = true

share : (a t : ℕ) → a ≤ t → a * 10 / t ≤ 10
share a t h = div-le_of_le-mul t (omega arith)

div_unit :
    (a t : Option ℕ)
    → tenths.le (some 0) a ≡ true
    → tenths.le a t ≡ true
    → tenths.lt (some 0) t ≡ true
    → finite t ≡ true
    → (tenths.le (some 0) (tenths.div a t) ≡ true) × (tenths.le (tenths.div a t) (some 10) ≡ true)
div_unit (some a) (some t) h k above fits = ground (arith, share a t)
div_unit none t h k above fits = absurd (ground arith)
div_unit (some a) none h k above fits = absurd (ground arith)

rounded : IsRounded tenths finite
rounded = record {
  add_nonneg = λ a b h k. ground arith;
  le_add = λ a b h k. ground arith;
  mul_nonneg = λ a b f h k l. ground arith;
  div_unit = div_unit;
  finite_number = λ a h. ground arith;
}

abbrev cfg : MatcherConfig tenths
cfg = record {
  top_k = 5;
  score_threshold = some 5;
  evidence_top_k = 5;
  evidence_threshold = some 4;
  max_results = 3;
  embed_concurrency = 2;
  timeout = 1000;
  confidence_cluster_size = 3;
  confidence_lead_weight = some 10;
  confidence_body_weight = some 5;
}

made : new_matcher tenths cfg ≡ some cfg
unfolding new_matcher
made = refl

confidence_bounds_example :
    (tenths.le (some 0) (Setup.confidence tenths cfg cluster).score ≡ true)
    × (tenths.le (Setup.confidence tenths cfg cluster).score (some 10) ≡ true)
    × ((Setup.confidence tenths cfg cluster).evidence_items ≤ 4)
    × ((Setup.confidence tenths cfg cluster).evidence_items ≤ 3)
unfolding Setup.confidence
confidence_bounds_example =
    confidence_bounds tenths finite rounded cfg cfg cluster made (refl, (refl, (refl, (refl, tt))))
      refl
