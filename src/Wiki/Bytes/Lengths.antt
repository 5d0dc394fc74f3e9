-- ===== src/Wiki/Bytes/Lengths.antt =====
-- How long the texts are that the functions on bytes return.
use truth_in_stream.Prelude.{ℕ, zero, suc, ◌-◌, ◌≤◌, [], ◌∷◌, length, take, drop, arith, ◌≡◌}
use truth_in_stream.Wiki.Bytes.{
  Bytes, space_width, last_space_width, trim_left_from, trim_right_from, trim_space, trim_blanks,
}

pub length-take-le_length : (n : ℕ) (s : Bytes) → length (take n s) ≤ length s
length-take-le_length zero s = omega arith
length-take-le_length (suc n) [] = omega arith
length-take-le_length (suc n) (c ∷ s) = omega (arith, length-take-le_length n s)

pub length-drop_exact : (n : ℕ) (s : Bytes) → length (drop n s) ≡ length s - n
length-drop_exact zero s = omega arith
length-drop_exact (suc n) [] = omega arith
length-drop_exact (suc n) (c ∷ s) = omega (arith, length-drop_exact n s)

length-trim_left_from : (fuel : ℕ) (s : Bytes) → length (trim_left_from fuel s) ≤ length s
unfolding trim_left_from
length-trim_left_from zero s = omega arith
length-trim_left_from (suc fuel) s = ground (
  arith,
  length-trim_left_from fuel (drop (space_width s) s),
  length-drop_exact (space_width s) s,
)

length-trim_right_from : (fuel : ℕ) (s : Bytes) → length (trim_right_from fuel s) ≤ length s
unfolding trim_right_from
length-trim_right_from zero s = omega arith
length-trim_right_from (suc fuel) s =
    let shorter = take (length s - last_space_width s) s in
    ground (
      arith,
      length-trim_right_from fuel shorter,
      length-take-le_length (length s - last_space_width s) s,
    )

pub length-trim_space : (s : Bytes) → length (trim_space s) ≤ length s
unfolding trim_space
length-trim_space s =
    let t = trim_left_from (length s) s in
    omega (arith, length-trim_left_from (length s) s, length-trim_right_from (length t) t)

pub length-trim_blanks : (s : Bytes) → length (trim_blanks s) ≤ length s
unfolding trim_blanks
length-trim_blanks [] = omega arith
length-trim_blanks (c ∷ s) = ground (arith, length-trim_blanks s)
