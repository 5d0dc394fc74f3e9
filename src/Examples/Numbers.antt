-- ===== src/Examples/Numbers.antt =====
-- Tenths as the floats of the examples: `none` is NaN. The arithmetic saturates at 0.
use truth_in_stream.Prelude.{
  ℕ, ◌+◌, ◌-◌, ◌*◌, ◌/◌, Bool, true, false, not, Option, none, some, leb, ltb, arith, ◌≡◌, refl,
}
use truth_in_stream.Prelude.Floats.{Floats}

abbrev Tenths : Type 0
Tenths = Option ℕ

abbrev is_nan : Tenths → Bool
is_nan none = true
is_nan (some n) = false

abbrev lt : Tenths → Tenths → Bool
lt none b = false
lt (some a) none = false
lt (some a) (some b) = ltb a b

abbrev le : Tenths → Tenths → Bool
le none b = false
le (some a) none = false
le (some a) (some b) = leb a b

abbrev both : (ℕ → ℕ → ℕ) → Tenths → Tenths → Tenths
both f none b = none
both f (some a) none = none
both f (some a) (some b) = some (f a b)

pub lt_nan : (a b : Tenths) → is_nan a ≡ true → (lt a b ≡ false) × (lt b a ≡ false)
lt_nan a b h = ground arith

pub le_nan : (a b : Tenths) → is_nan a ≡ true → (le a b ≡ false) × (le b a ≡ false)
le_nan a b h = ground arith

pub lt_not_le : (a b : Tenths) → is_nan a ≡ false → is_nan b ≡ false → lt a b ≡ not (le b a)
lt_not_le a b h k = ground arith

pub le_refl : (a : Tenths) → is_nan a ≡ false → le a a ≡ true
le_refl a h = ground arith

pub le_total : (a b : Tenths) → is_nan a ≡ false → is_nan b ≡ false → le a b ≡ false → le b a ≡ true
le_total a b h k l = ground arith

pub le_trans : (a b c : Tenths) → le a b ≡ true → le b c ≡ true → le a c ≡ true
le_trans a b c h k = ground arith

abbrev pub tenths : Floats
tenths = record {
  Float = Tenths;
  is_nan = is_nan;
  lt = lt;
  le = le;
  f0 = some 0;
  f0_6 = some 6;
  f1 = some 10;
  add = both (λ a b. a + b);
  sub = both (λ a b. a - b);
  mul = both (λ a b. a * b / 10);
  div = both (λ a b. a * 10 / b);
  sqrt = λ a. a;
  lt_nan = lt_nan;
  le_nan = le_nan;
  lt_not_le = lt_not_le;
  le_refl = le_refl;
  le_total = le_total;
  le_trans = le_trans;
  literals = (refl, refl, refl);
  literal_order = (refl, refl);
}
