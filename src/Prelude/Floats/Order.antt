-- ===== src/Prelude/Floats/Order.antt =====
-- The strict order of the numbers, as a descending sort needs it.
use mathlib.Core.Path.{◌≡◌}
use mathlib.Core.Bool.{true, false}
use native.Mathlib.Omega.{arith}
use truth_in_stream.Prelude.Floats.{Floats}

module _ (F : Floats) where
  open F use {Float, is_nan, lt, le, le_nan, lt_not_le, le_total, le_trans}

  pub not_nan_of_le : (a b : Float) → le a b ≡ true → (is_nan a ≡ false) × (is_nan b ≡ false)
  not_nan_of_le a b h = ground (arith, le_nan a b, le_nan b a)

  pub lt_asym : (x y : Float) → is_nan x ≡ false → is_nan y ≡ false → lt y x ≡ true → lt x y ≡ false
  lt_asym x y nx ny h = ground (arith, lt_not_le x y, lt_not_le y x, le_total x y, le_total y x)

  pub not_lt_trans :
      (x y z : Float)
      → is_nan x ≡ false
      → is_nan y ≡ false
      → is_nan z ≡ false
      → lt x y ≡ false
      → lt y z ≡ false
      → lt x z ≡ false
  not_lt_trans x y z nx ny nz h k =
      ground (arith, lt_not_le x y, lt_not_le y z, lt_not_le x z, le_trans z y x)
