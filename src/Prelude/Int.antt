-- ===== src/Prelude/Int.antt =====
-- Go's `int` where it may be negative; the values that the program meets are far from overflow.
use Prim.Native.Nat.{ℕ, zero, suc}
use mathlib.Core.Bool.{Bool, true, false}
use truth_in_stream.Prelude.Tests.{leb}

-- `negsuc n` is -(n + 1).
pub data ℤ : Type 0 where
  pos : ℕ → ℤ
  negsuc : ℕ → ℤ

-- `a < 0`
abbrev pub is_negative : ℤ → Bool
is_negative (pos n) = false
is_negative (negsuc n) = true

-- `a <= b`
abbrev pub le_int : ℤ → ℤ → Bool
le_int (pos a) (pos b) = leb a b
le_int (pos a) (negsuc b) = false
le_int (negsuc a) (pos b) = true
le_int (negsuc a) (negsuc b) = leb b a

-- `a + 1`
abbrev pub next_int : ℤ → ℤ
next_int (pos a) = pos (suc a)
next_int (negsuc zero) = pos 0
next_int (negsuc (suc a)) = negsuc a
