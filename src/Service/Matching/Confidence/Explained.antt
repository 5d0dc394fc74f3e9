-- ===== src/Service/Matching/Confidence/Explained.antt =====
-- The corroboration score of stack/backend/internal/service/confidence.go, explained by the weights
-- that are shown for each match.
use truth_in_stream.Prelude.{
  ℕ, zero, suc, ◌+◌, Bool, true, not, List, [], ◌∷◌, length, take, map, keep, if◌then◌else◌, ◌≡◌,
  refl, arith, ap, ◌∙◌,
}
use mathlib.Core.List.{foldl}
use truth_in_stream.Prelude.Floats.{Floats}
use truth_in_stream.Service.Matching.{Match}
use truth_in_stream.Service.Matching.Confidence.{
  ConfidenceParams, Weighed, match_weight, cluster_limit, is_zero, contradicts, weigh,
  nothing_weighed, confidence_of, compute_confidence, weights_within, match_contributions,
}

from_zero : (n : ℕ) → 0 + n ≡ n
from_zero n = omega arith

module _ (F : Floats) where
  open F use {Float, add, div, lt, f0, le, is_nan, literals, le_refl}

  -- The matches with their contributions, less those that contribute nothing.
  unfoldable pub shown_weights : List (Match F) → List Float → List (Match F × Float)
  shown_weights [] ws = []
  shown_weights (m ∷ ms) [] = []
  shown_weights (m ∷ ms) (w ∷ ws) =
      let rest = shown_weights ms ws in if is_zero F w then rest else (m, w) ∷ rest

  abbrev pub refutes : Match F × Float → Bool
  refutes mw = contradicts F mw.0

  abbrev pub backs : Match F × Float → Bool
  backs mw = not (contradicts F mw.0)

  abbrev pub sum_from : Float → List (Match F × Float) → Float
  sum_from s mws = foldl add s (map (λ mw. mw.1) mws)

  tallied : Weighed F → List (Match F × Float) → Weighed F
  tallied s mws = record {
    supporting = sum_from s.supporting (keep backs mws);
    contradicting = sum_from s.contradicting (keep refutes mws);
    items = s.items + length mws;
  }

  zero_is_zero : is_zero F f0 ≡ true
  zero_is_zero = ground (arith, le_refl f0 literals.0)

  length-weights_within :
      (p : ConfidenceParams F) (limit : ℕ) (ms : List (Match F))
      → length (weights_within F p limit ms) ≡ length ms
  unfolding weights_within
  length-weights_within p limit [] = refl
  length-weights_within p zero (m ∷ ms) = ap suc (length-weights_within p zero ms)
  length-weights_within p (suc limit) (m ∷ ms) = ap suc (length-weights_within p limit ms)

  shown-beyond :
      (p : ConfidenceParams F) (ms : List (Match F))
      → shown_weights ms (weights_within F p zero ms) ≡ []
  unfolding shown_weights weights_within
  shown-beyond p [] = refl
  shown-beyond p (m ∷ ms) = rw zero_is_zero (shown-beyond p ms)

  tallied-nothing : (s : Weighed F) → s ≡ tallied s []
  unfolding tallied
  tallied-nothing s = ground arith

  tallied-weigh :
      (p : ConfidenceParams F) (s : Weighed F) (m : Match F) (rest : List (Match F × Float))
      → tallied (weigh F p s m) rest
        ≡ tallied s
            (if is_zero F (match_weight F p m) then rest else (m, match_weight F p m) ∷ rest)
  unfolding weigh tallied
  tallied-weigh p s m rest = ground arith

  foldl-tallied :
      (p : ConfidenceParams F) (limit : ℕ) (ms : List (Match F)) (s : Weighed F)
      → foldl (weigh F p) s (take limit ms)
        ≡ tallied s (shown_weights ms (weights_within F p limit ms))
  unfolding shown_weights weights_within
  foldl-tallied p zero [] s = tallied-nothing s
  foldl-tallied p (suc limit) [] s = tallied-nothing s
  foldl-tallied p zero (m ∷ ms) s = rw (zero_is_zero, shown-beyond p ms) (tallied-nothing s)
  foldl-tallied p (suc limit) (m ∷ ms) s =
      foldl-tallied p limit ms (weigh F p s m)
      ∙ tallied-weigh p s m (shown_weights ms (weights_within F p limit ms))

  -- The contributions shown of the matches explain their confidence: there is one for each match, and
  -- leaving out those that are 0, the supporting weight is the sum of the contributions of the
  -- matches that do not contradict, in their order, the contradicting weight that of those that do,
  -- and the number of evidence items is how many are left. The score is the share of the supporting
  -- weight in both where their sum is above 0, else 0.
  pub compute_confidence-match_contributions :
      (p : ConfidenceParams F) (ms : List (Match F))
      → let c = compute_confidence F p ms in
        let shown = shown_weights ms (match_contributions F p ms) in
        let total = add c.supporting c.contradicting in
        (length (match_contributions F p ms) ≡ length ms)
        × (c.supporting ≡ sum_from f0 (keep backs shown))
        × (c.contradicting ≡ sum_from f0 (keep refutes shown))
        × (c.evidence_items ≡ length shown)
        × (c.score ≡ (if lt f0 total then div c.supporting total else f0))
  unfolding compute_confidence match_contributions confidence_of tallied
  compute_confidence-match_contributions p ms =
      let limit = cluster_limit F p (length ms) in
      let summed = foldl-tallied p limit ms (nothing_weighed F) in
      (
        length-weights_within p limit ms,
        ap (λ s. s.supporting) summed,
        ap (λ s. s.contradicting) summed,
        ap (λ s. s.items) summed ∙ from_zero _,
        refl,
      )
