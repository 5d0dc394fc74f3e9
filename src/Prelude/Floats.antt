-- ===== src/Prelude/Floats.antt =====
-- The float64 values that the program compares, behind what IEEE 754 says of their order.
pub mod Order
use mathlib.Core.Path.{◌≡◌}
use mathlib.Core.Bool.{Bool, true, false, not}

pub record Floats : Type 1 where
  pub Float : Type 0
  pub is_nan : Float → Bool
  -- `a < b` and `a <= b`, false where an operand is NaN
  pub lt : Float → Float → Bool
  pub le : Float → Float → Bool
  -- the literals 0, 0.6 and 1
  pub f0 : Float
  pub f0_6 : Float
  pub f1 : Float
  -- arithmetic, rounded as the hardware does; nothing is assumed of it
  pub add : Float → Float → Float
  pub sub : Float → Float → Float
  pub mul : Float → Float → Float
  pub div : Float → Float → Float
  pub sqrt : Float → Float
  pub lt_nan : (a b : Float) → (is_nan a ≡ true) → (lt a b ≡ false) × (lt b a ≡ false)
  pub le_nan : (a b : Float) → (is_nan a ≡ true) → (le a b ≡ false) × (le b a ≡ false)
  pub lt_not_le : (a b : Float) → is_nan a ≡ false → is_nan b ≡ false → lt a b ≡ not (le b a)
  pub le_refl : (a : Float) → is_nan a ≡ false → le a a ≡ true
  pub le_total :
      (a b : Float) → is_nan a ≡ false → is_nan b ≡ false → le a b ≡ false → le b a ≡ true
  pub le_trans : (a b c : Float) → le a b ≡ true → le b c ≡ true → le a c ≡ true
  pub literals : (is_nan f0 ≡ false) × (is_nan f0_6 ≡ false) × (is_nan f1 ≡ false)
  pub literal_order : (le f0 f0_6 ≡ true) × (le f0_6 f1 ≡ true)
