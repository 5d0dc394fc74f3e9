-- ===== src/Service/Matching/Confidence/Bounds.antt =====
-- The bounds of the corroboration score of stack/backend/internal/service/confidence.go.
use truth_in_stream.Prelude.{
  ℕ, zero, suc, ◌+◌, ◌≤◌, ◌<◌, Bool, true, false, List, [], ◌∷◌, length, take, All, Bool-cases, inl,
  inr, ◌≡◌, arith,
}
use mathlib.Core.List.{foldl}
use truth_in_stream.Prelude.Floats.{Floats}
use truth_in_stream.Service.Verdicts.{MatchKind, claim, evidence}
use truth_in_stream.Service.Matching.{Match}
use truth_in_stream.Service.Matching.Confidence.{
  ConfidenceParams, Weighed, valid_weight, chunk_kind_weight, stance_weight, match_weight,
  cluster_limit, weigh, nothing_weighed, confidence_of, compute_confidence,
}

-- What IEEE 754 says of the sums, products and quotients that are formed here.
pub record IsRounded (F : Floats) (finite : F.Float → Bool) : Type 0 where
  pub add_nonneg :
      (a b : F.Float) → F.le F.f0 a ≡ true → F.le F.f0 b ≡ true → F.le F.f0 (F.add a b) ≡ true
  pub le_add : (a b : F.Float) → F.le F.f0 a ≡ true → F.le F.f0 b ≡ true → F.le a (F.add a b) ≡ true
  pub mul_nonneg :
      (a b : F.Float)
      → finite a ≡ true
      → F.le F.f0 a ≡ true
      → F.le F.f0 b ≡ true
      → F.le b F.f1 ≡ true
      → F.le F.f0 (F.mul a b) ≡ true
  pub div_unit :
      (a t : F.Float)
      → F.le F.f0 a ≡ true
      → F.le a t ≡ true
      → F.lt F.f0 t ≡ true
      → finite t ≡ true
      → (F.le F.f0 (F.div a t) ≡ true) × (F.le (F.div a t) F.f1 ≡ true)
  pub finite_number : (a : F.Float) → finite a ≡ true → F.is_nan a ≡ false

module _ (F : Floats) (finite : F.Float → Bool) (laws : IsRounded F finite) where
  open F use {
    Float, add, div, mul, lt, f0, f1, le, is_nan, literals, literal_order, f0_6, le_refl, le_total,
    le_trans,
  }

  zero_nonneg : le f0 f0 ≡ true
  zero_nonneg = le_refl f0 literals.0

  abbrev IsChecked : ConfidenceParams F → Type 0
  IsChecked p = (valid_weight F p.lead_weight ≡ true) × (valid_weight F p.body_weight ≡ true)

  IsNonneg : Weighed F → Type 0
  IsNonneg s = (le f0 s.supporting ≡ true) × (le f0 s.contradicting ≡ true)

  above_zero : (a : Float) → finite a ≡ true → le a f0 ≡ false → le f0 a ≡ true
  above_zero a h = le_total a f0 (laws.finite_number a h) literals.0

  kind_weight_unit :
      (p : ConfidenceParams F) (kind : _)
      → IsChecked p
      → (le f0 (chunk_kind_weight F p kind) ≡ true) × (le (chunk_kind_weight F p kind) f1 ≡ true)
  unfolding chunk_kind_weight valid_weight
  kind_weight_unit p kind h = ground arith

  stance_weight_nonneg :
      (p : ConfidenceParams F) (m : Match F) (kind : MatchKind)
      → IsChecked p
      → finite m.score ≡ true
      → le f0 m.score ≡ true
      → le f0 (stance_weight F p m kind) ≡ true
  stance_weight_nonneg p m claim checked h above = ground (arith, zero_nonneg)
  stance_weight_nonneg p m evidence checked h above =
      let unit = kind_weight_unit p m.wiki_kind checked in
      laws.mul_nonneg m.score (chunk_kind_weight F p m.wiki_kind) h above unit.0 unit.1

  match_weight_nonneg :
      (p : ConfidenceParams F) (m : Match F)
      → IsChecked p
      → finite m.score ≡ true
      → le f0 (match_weight F p m) ≡ true
  unfolding match_weight
  match_weight_nonneg p m checked h = elim (Bool-cases (le m.score f0)) [
    | inl low ↦ rw low zero_nonneg
    | inr high ↦ rw high (stance_weight_nonneg p m m.kind checked h (above_zero m.score h high))
  ]

  weigh-IsNonneg :
      (p : ConfidenceParams F) (s : Weighed F) (m : Match F)
      → le f0 (match_weight F p m) ≡ true
      → IsNonneg s
      → IsNonneg (weigh F p s m)
  unfolding weigh IsNonneg
  weigh-IsNonneg p s m above h = ground (
    arith,
    laws.add_nonneg s.supporting (match_weight F p m),
    laws.add_nonneg s.contradicting (match_weight F p m),
  )

  foldl-IsNonneg :
      (p : ConfidenceParams F) (limit : ℕ) (ms : List (Match F)) (s : Weighed F)
      → IsChecked p
      → All (λ m. finite m.score ≡ true) ms
      → IsNonneg s
      → IsNonneg (foldl (weigh F p) s (take limit ms))
  foldl-IsNonneg p zero [] s checked all h = h
  foldl-IsNonneg p (suc limit) [] s checked all h = h
  foldl-IsNonneg p zero (m ∷ ms) s checked all h = h
  foldl-IsNonneg p (suc limit) (m ∷ ms) s checked all h =
      foldl-IsNonneg p limit ms (weigh F p s m) checked all.1
        (weigh-IsNonneg p s m (match_weight_nonneg p m checked all.0) h)

  items-weigh :
      (p : ConfidenceParams F) (s : Weighed F) (m : Match F) → (weigh F p s m).items ≤ s.items + 1
  unfolding weigh
  items-weigh p s m = ground arith

  items-foldl :
      (p : ConfidenceParams F) (limit : ℕ) (ms : List (Match F)) (s : Weighed F)
      → ((foldl (weigh F p) s (take limit ms)).items ≤ s.items + limit)
        × ((foldl (weigh F p) s (take limit ms)).items ≤ s.items + length ms)
  items-foldl p zero [] s = (omega arith, omega arith)
  items-foldl p (suc limit) [] s = (omega arith, omega arith)
  items-foldl p zero (m ∷ ms) s = (omega arith, omega arith)
  items-foldl p (suc limit) (m ∷ ms) s =
      let later = items-foldl p limit ms (weigh F p s m) in
      let one = items-weigh p s m in (omega arith, omega arith)

  capped :
      (p : ConfidenceParams F) (n items : ℕ)
      → items ≤ 0 + cluster_limit F p n
      → 0 < p.cluster_size
      → items ≤ p.cluster_size
  unfolding cluster_limit
  capped p n items h some = ground arith

  confidence_of-unit :
      (s : Weighed F)
      → IsNonneg s
      → finite (add s.supporting s.contradicting) ≡ true
      → let c = confidence_of F s in (le f0 c.score ≡ true) × (le c.score f1 ≡ true)
  unfolding confidence_of IsNonneg
  confidence_of-unit s h fits = elim (Bool-cases (lt f0 (add s.supporting s.contradicting))) [
    | inl above ↦ rw above (
        laws.div_unit s.supporting (add s.supporting s.contradicting) h.0
          (laws.le_add s.supporting s.contradicting h.0 h.1) above fits)
    | inr nothing ↦ rw nothing (zero_nonneg, le_trans f0 f0_6 f1 literal_order.0 literal_order.1)
  ]

  -- For weights that the configuration accepts and scores that are finite numbers, as long as the sum
  -- of the two weights is finite: the confidence score is from 0 to 1, no more evidence items are
  -- counted than there are matches, and no more than a cap above 0 lets through.
  pub compute_confidence_bounds :
      (p : ConfidenceParams F) (ms : List (Match F))
      → IsChecked p
      → All (λ m. finite m.score ≡ true) ms
      → finite
          (add (compute_confidence F p ms).supporting (compute_confidence F p ms).contradicting)
        ≡ true
      → let c = compute_confidence F p ms in
        (le f0 c.score ≡ true)
        × (le c.score f1 ≡ true)
        × (c.evidence_items ≤ length ms)
        × (0 < p.cluster_size → c.evidence_items ≤ p.cluster_size)
  unfolding compute_confidence confidence_of
  compute_confidence_bounds p ms checked all fits =
      let limit = cluster_limit F p (length ms) in
      let start = nothing_weighed F in
      let s = foldl (weigh F p) start (take limit ms) in
      let unit =
        confidence_of-unit s
          (foldl-IsNonneg p limit ms start checked all
            (unfold IsNonneg in (zero_nonneg, zero_nonneg)))
          fits in
      let counted = items-foldl p limit ms start in
      (unit.0, unit.1, omega arith, capped p (length ms) s.items counted.0)
