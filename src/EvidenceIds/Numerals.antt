-- ===== src/EvidenceIds/Numerals.antt =====
-- The numbers in the ids of stack/backend/internal/source/source.go are read back.
use Prim.Native.Char.{code}
use truth_in_stream.Prelude.{
  ℕ, zero, suc, ◌+◌, ◌-◌, ◌*◌, ◌/◌, ◌%◌, ◌<◌, String, false, [], ◌∷◌, get_elem?, get_or, some, All,
  Runes, codes, digits, digits_onto, itoa, le→leb, ◌==◌, pos, arith, ◌≡◌, refl, ap, ◌∙◌, Bool-cases,
  inl, inr,
}
use truth_in_stream.EvidenceIds.{
  id_separator, digits_value, unsigned_value, int_limit, in_range, atoi,
}

-- No separator in a text.
abbrev pub IsPlain : Runes → Type 0
IsPlain s = All (λ c. (c == id_separator) ≡ false) s

digit_code : (d : ℕ) → d < 10 → code (get_or (get_elem? digits d) "0") ≡ 48 + d
digit_code zero h = refl
digit_code (suc zero) h = refl
digit_code (suc (suc zero)) h = refl
digit_code (suc (suc (suc zero))) h = refl
digit_code (suc (suc (suc (suc zero)))) h = refl
digit_code (suc (suc (suc (suc (suc zero))))) h = refl
digit_code (suc (suc (suc (suc (suc (suc zero)))))) h = refl
digit_code (suc (suc (suc (suc (suc (suc (suc zero))))))) h = refl
digit_code (suc (suc (suc (suc (suc (suc (suc (suc zero)))))))) h = refl
digit_code (suc (suc (suc (suc (suc (suc (suc (suc (suc zero))))))))) h = refl
digit_code (suc (suc (suc (suc (suc (suc (suc (suc (suc (suc d)))))))))) h =
    absurd (omega (arith, h))

-- A digit in front of digits.
digits_value-digit :
    (n d : ℕ) (s : Runes) → d < 10 → digits_value n ((48 + d) ∷ s) ≡ digits_value (n * 10 + d) s
unfolding digits_value
digits_value-digit n d s h =
    rw (le→leb 48 (48 + d) (omega arith), le→leb (48 + d) 57 (omega (arith, h)), plus_minus d) refl
  where
    plus_minus : (d : ℕ) → 48 + d - 48 ≡ d
    plus_minus d = omega arith

digits_value-onto :
    (fuel n : ℕ) (text : String)
    → n < fuel
    → digits_value 0 (codes (digits_onto fuel n text)) ≡ digits_value n (codes text)
unfolding digits_onto
digits_value-onto zero n text h = absurd (omega arith)
digits_value-onto (suc fuel) n text h =
    let digit = get_or (get_elem? digits (n % 10)) "0" in
    let longer = String.◌∷◌ digit text in
    let front = digit_code (n % 10) (omega arith) in
    elim (Bool-cases (n / 10 == 0)) [
      | inl e ↦ rw e (
          rw front (
            digits_value-digit 0 (n % 10) (codes text) (omega arith)
            ∙ ap (λ k. digits_value k (codes text)) (ground (arith, e))))
      | inr e ↦ rw e (
          digits_value-onto fuel (n / 10) longer (ground (arith, e, h))
          ∙ rw front (
              digits_value-digit (n / 10) (n % 10) (codes text) (omega arith)
              ∙ ap (λ k. digits_value k (codes text)) (omega arith)))
    ]

longer : ℕ → String → String
longer n text = String.◌∷◌ (get_or (get_elem? digits (n % 10)) "0") text

-- The text begins with a digit.
abbrev IsNumeral : Runes → Type 0
IsNumeral s = (d : ℕ) × (rest : Runes) × (d < 10) × (s ≡ (48 + d) ∷ rest)

longer-IsNumeral : (n : ℕ) (text : String) → IsNumeral (codes (longer n text))
unfolding longer
longer-IsNumeral n text =
    let front = digit_code (n % 10) (omega arith) in
    (n % 10, codes text, omega arith, rw front refl)

longer-IsPlain : (n : ℕ) (text : String) → IsPlain (codes text) → IsPlain (codes (longer n text))
unfolding longer
longer-IsPlain n text h =
    rw (digit_code (n % 10) (omega arith)) (no_separator (n % 10) (omega arith), h)
  where
    no_separator : (d : ℕ) → d < 10 → (48 + d == id_separator) ≡ false
    no_separator d h = ground (arith, h)

digits_onto-IsNumeral :
    (fuel n : ℕ) (text : String)
    → IsNumeral (codes text)
    → IsNumeral (codes (digits_onto fuel n text))
unfolding digits_onto longer
digits_onto-IsNumeral zero n text h = h
digits_onto-IsNumeral (suc fuel) n text h = elim (Bool-cases (n / 10 == 0)) [
  | inl e ↦ rw e (longer-IsNumeral n text)
  | inr e ↦ rw e (digits_onto-IsNumeral fuel (n / 10) (longer n text) (longer-IsNumeral n text))
]

digits_onto-IsPlain :
    (fuel n : ℕ) (text : String) → IsPlain (codes text) → IsPlain (codes (digits_onto fuel n text))
unfolding digits_onto longer
digits_onto-IsPlain zero n text h = h
digits_onto-IsPlain (suc fuel) n text h = elim (Bool-cases (n / 10 == 0)) [
  | inl e ↦ rw e (longer-IsPlain n text h)
  | inr e ↦ rw e (digits_onto-IsPlain fuel (n / 10) (longer n text) (longer-IsPlain n text h))
]

pub itoa-IsNumeral : (n : ℕ) → IsNumeral (codes (itoa n))
unfolding itoa digits_onto longer
itoa-IsNumeral n = elim (Bool-cases (n / 10 == 0)) [
  | inl e ↦ rw e (longer-IsNumeral n "")
  | inr e ↦ rw e (digits_onto-IsNumeral n (n / 10) (longer n "") (longer-IsNumeral n ""))
]

pub itoa-IsPlain : (n : ℕ) → IsPlain (codes (itoa n))
unfolding itoa
itoa-IsPlain n = digits_onto-IsPlain (suc n) n "" tt

no_more : (n : ℕ) → digits_value n [] ≡ some n
unfolding digits_value
no_more n = refl

pub digits_value-itoa : (n : ℕ) → digits_value 0 (codes (itoa n)) ≡ some n
unfolding itoa
digits_value-itoa n = digits_value-onto (suc n) n "" (omega arith) ∙ no_more n

-- A text that begins with a digit is read without a sign.
pub atoi_numeral :
    (s : Runes) (n : ℕ)
    → IsNumeral s
    → digits_value 0 s ≡ some n
    → n < int_limit
    → atoi s ≡ some (pos n)
unfolding atoi unsigned_value in_range
atoi_numeral [] n (d, rest, small, e) v h = cc
atoi_numeral (c ∷ s) n (d, rest, small, e) v h =
    let front : c ≡ 48 + d = cc in
    rw (no_minus c d small front, no_plus c d small front) (rw v (in_int n h))
  where
    no_minus : (c d : ℕ) → d < 10 → c ≡ 48 + d → (c == 45) ≡ false
    no_minus c d h e = ground (arith, h, e)

    no_plus : (c d : ℕ) → d < 10 → c ≡ 48 + d → (c == 43) ≡ false
    no_plus c d h e = ground (arith, h, e)

    in_int : (n : ℕ) → n < int_limit → in_range (int_limit - 1) pos (some n) ≡ some (pos n)
    in_int n h = rw (le→leb n 9223372036854775807 (omega (arith, h))) refl
