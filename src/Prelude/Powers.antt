-- ===== src/Prelude/Powers.antt =====
-- Repeated doubling on the native numbers.
use Prim.Native.Nat.{ℕ, zero, suc, ◌*◌, ◌^◌, ◌≤◌}
use mathlib.Core.Path.{◌≡◌, sym, ap, ◌∙◌}
use native.Mathlib.Nat.{mul_assoc}
use native.Mathlib.Omega.{arith}

two_pow : (n : ℕ) → 2 ^ suc n ≡ 2 * 2 ^ n
two_pow n = omega arith

pub twice_pow : (delay n : ℕ) → delay * 2 ^ suc n ≡ delay * 2 * 2 ^ n
twice_pow delay n = ap (λ p. delay * p) (two_pow n) ∙ sym (mul_assoc delay 2 (2 ^ n))

pub le_times_pow : (delay n : ℕ) → delay ≤ delay * 2 ^ n
le_times_pow delay zero = omega arith
le_times_pow delay (suc n) = omega (arith, le_times_pow delay n, twice_pow delay n)
