-- ===== src/Worker/Versions/Newest.antt =====
-- The order of all-digit versions in stack/backend/internal/workerlifecycle/version.go, and the
-- newest of them.
use truth_in_stream.Prelude.{
  ℕ, zero, suc, ◌+◌, ◌-◌, ◌*◌, ◌^◌, ◌≤◌, ◌<◌, Bool, some, get_elem?, true, false, ◌&&◌, ◌||◌, List,
  [], ◌∷◌, Runes, length, ltb, ◌==◌, if◌then◌else◌, All, arith, ◌≡◌, refl, sym, ◌∙◌, ap, inl, inr,
  ◌⊎◌, &&_true, ltb→lt,
}
use truth_in_stream.Worker.Versions.{
  text_less, is_digit, all_digits, is_digits, version_less, newest_from, newest_version,
}

-- The number that decimal digits spell.
abbrev pub value : Runes → ℕ
value [] = 0
value (c ∷ v) = (c - b'0') * 10 ^ length v + value v

-- A non-empty run of digits without a leading zero, or "0".
abbrev pub is_canonical : Runes → Bool
is_canonical [] = false
is_canonical (c ∷ []) = is_digit c
is_canonical (c ∷ d ∷ v) = ltb b'0' c && all_digits (c ∷ d ∷ v)

suc_mul : (n m : ℕ) → suc n * m ≡ m + n * m
suc_mul n m = omega arith

digit_first : (a b p x y : ℕ) → a < b → x < p → a * p + x < b * p + y
digit_first zero (suc b) p x y h k = rw (suc_mul b p) (omega (arith, k))
digit_first (suc a) (suc b) p x y h k =
    rw (suc_mul a p, suc_mul b p) (omega (arith, digit_first a b p x y (omega arith) k))
digit_first a zero p x y h k = absurd (omega arith)

ten_pow : (n : ℕ) → 10 ^ suc n ≡ 10 * 10 ^ n
ten_pow n = omega arith

ten_pow_pos : (n : ℕ) → 0 < 10 ^ n
ten_pow_pos zero = omega arith
ten_pow_pos (suc n) = omega (arith, ten_pow n, ten_pow_pos n)

ten_pow_mono : (m n : ℕ) → m ≤ n → 10 ^ m ≤ 10 ^ n
ten_pow_mono zero n h = ten_pow_pos n
ten_pow_mono (suc m) (suc n) h = omega (arith, ten_pow m, ten_pow n, ten_pow_mono m n (omega arith))
ten_pow_mono (suc m) zero h = absurd (omega arith)

digit_below : (c : ℕ) → is_digit c ≡ true → c - b'0' < 10
unfolding is_digit
digit_below c h = ground (arith, h)

value_below : (v : Runes) → all_digits v ≡ true → value v < 10 ^ length v
unfolding all_digits
value_below [] h = omega arith
value_below (c ∷ v) h =
    let (digit, digits) = &&_true (is_digit c) (all_digits v) h in
    omega (
      arith,
      ten_pow (length v),
      digit_first (c - b'0') 10 (10 ^ length v) (value v) 0 (digit_below c digit)
          (value_below v digits),
    )

-- Without a leading zero, the first digit already counts for its place.
value_above : (c : ℕ) (v : Runes) → b'0' < c → 10 ^ length v ≤ value (c ∷ v)
value_above c v h = omega (
  arith,
  digit_first 0 (c - b'0') (10 ^ length v) (10 ^ length v - 1) (value v) (omega arith)
      (omega (arith, ten_pow_pos (length v))),
)

leading_less :
    (c d p x y : ℕ) (rest : Bool)
    → b'0' ≤ c
    → b'0' ≤ d
    → x < p
    → y < p
    → rest ≡ ltb x y
    → (ltb c d || (c == d && rest)) ≡ ltb ((c - b'0') * p + x) ((d - b'0') * p + y)
leading_less c d p x y rest hc hd hx hy h = elim (trichotomy c d) [
  | inl less ↦
      ground (arith, less, digit_first (c - b'0') (d - b'0') p x y (omega (arith, less, hc)) hx)
  | inr (inl more) ↦
      ground (arith, more, digit_first (d - b'0') (c - b'0') p y x (omega (arith, more, hd)) hy)
  | inr (inr same) ↦ rw same (ground (arith, h))
]
  where
    trichotomy : (a b : ℕ) → (a < b) ⊎ ((b < a) ⊎ (a ≡ b))
    trichotomy a b = omega arith

digit_from : (c : ℕ) → is_digit c ≡ true → b'0' ≤ c
unfolding is_digit
digit_from c h = ground (arith, h)

text_less-value :
    (a b : Runes)
    → all_digits a ≡ true
    → all_digits b ≡ true
    → length a ≡ length b
    → text_less a b ≡ ltb (value a) (value b)
unfolding text_less all_digits
text_less-value [] [] ha hb h = refl
text_less-value [] (d ∷ b) ha hb h = absurd (omega (arith, h))
text_less-value (c ∷ a) [] ha hb h = absurd (omega (arith, h))
text_less-value (c ∷ a) (d ∷ b) ha hb h =
    let (digit_c, digits_a) = &&_true (is_digit c) (all_digits a) ha in
    let (digit_d, digits_b) = &&_true (is_digit d) (all_digits b) hb in
    let same : length a ≡ length b = omega (arith, h) in
    leading_less c d (10 ^ length a) (value a) (value b) (text_less a b) (digit_from c digit_c)
      (digit_from d digit_d) (value_below a digits_a) (rw same (value_below b digits_b))
      (text_less-value a b digits_a digits_b same)
    ∙ ap (λ n. ltb ((c - b'0') * 10 ^ length a + value a) ((d - b'0') * 10 ^ n + value b)) same

canonical_digits : (v : Runes) → is_canonical v ≡ true → all_digits v ≡ true
unfolding all_digits
canonical_digits [] h = refl
canonical_digits (c ∷ []) h = ground (arith, h)
canonical_digits (c ∷ d ∷ v) h = (&&_true (ltb b'0' c) (all_digits (c ∷ d ∷ v)) h).1

longer_value :
    (a b : Runes)
    → is_canonical a ≡ true
    → is_canonical b ≡ true
    → length a < length b
    → value a < value b
longer_value a (d ∷ e ∷ b) ha hb h =
    let (leading, digits) = &&_true (ltb b'0' d) (all_digits (d ∷ e ∷ b)) hb in
    omega (
      arith,
      value_below a (canonical_digits a ha),
      ten_pow_mono (length a) (length (e ∷ b)) (omega (arith, h)),
      value_above d (e ∷ b) (ltb→lt b'0' d leading),
    )
longer_value (c ∷ a) (d ∷ []) ha hb h = absurd (omega (arith, h))
longer_value a [] ha hb h = absurd (omega (arith, h))
longer_value [] (d ∷ []) ha hb h = cc

canonical-is_digits : (v : Runes) → is_canonical v ≡ true → is_digits v ≡ true
unfolding is_digits
canonical-is_digits [] h = h
canonical-is_digits (c ∷ v) h = canonical_digits (c ∷ v) h

-- Versions that are numbers without a leading zero are ordered by value.
pub version_less-value :
    (a b : Runes)
    → is_canonical a ≡ true
    → is_canonical b ≡ true
    → version_less a b ≡ ltb (value a) (value b)
unfolding version_less
version_less-value a b ha hb = elim (trichotomy (length a) (length b)) [
  | inl less ↦
      rw (canonical-is_digits a ha, canonical-is_digits b hb)
        (ground (arith, less, longer_value a b ha hb less))
  | inr (inl more) ↦
      rw (canonical-is_digits a ha, canonical-is_digits b hb)
        (ground (arith, more, longer_value b a hb ha more))
  | inr (inr same) ↦
      rw (canonical-is_digits a ha, canonical-is_digits b hb)
        (ground
          (arith, same, text_less-value a b (canonical_digits a ha) (canonical_digits b hb) same))
]
  where
    trichotomy : (a b : ℕ) → (a < b) ⊎ ((b < a) ⊎ (a ≡ b))
    trichotomy a b = omega arith

abbrev Greatest : Runes → Runes → List Runes → Type 0
Greatest r first rest =
    (value first ≤ value r)
    × All (λ v. value v ≤ value r) rest
    × ((r ≡ first) ⊎ ((i : ℕ) × (get_elem? rest i ≡ some r)))

take_later :
    (r n v : Runes) (vs : List Runes) → value n < value v → Greatest r v vs → Greatest r n (v ∷ vs)
take_later r n v vs h (least, others, inl same) =
    (omega (arith, h, least), (least, others), inr (0, sym (ap some same)))
take_later r n v vs h (least, others, inr (i, found)) =
    (omega (arith, h, least), (least, others), inr (suc i, found))

keep_first :
    (r n v : Runes) (vs : List Runes) → value v ≤ value n → Greatest r n vs → Greatest r n (v ∷ vs)
keep_first r n v vs h (least, others, inl same) =
    (least, (omega (arith, h, least), others), inl same)
keep_first r n v vs h (least, others, inr (i, found)) =
    (least, (omega (arith, h, least), others), inr (suc i, found))

newest_from-Greatest :
    (n : Runes) (vs : List Runes)
    → is_canonical n ≡ true
    → All (λ v. is_canonical v ≡ true) vs
    → Greatest (newest_from n vs) n vs
unfolding newest_from
newest_from-Greatest n [] hn h = (omega arith, tt, inl refl)
newest_from-Greatest n (v ∷ vs) hn (hv, h) =
    pick (version_less n v) (version_less-value n v hn hv) (newest_from-Greatest v vs hv h)
      (newest_from-Greatest n vs hn h)
  where
    pick :
        (less : Bool)
        → less ≡ ltb (value n) (value v)
        → Greatest (newest_from v vs) v vs
        → Greatest (newest_from n vs) n vs
        → Greatest (newest_from (if less then v else n) vs) n (v ∷ vs)
    pick true e later first =
        take_later (newest_from v vs) n v vs (ltb→lt (value n) (value v) (sym e)) later
    pick false e later first = keep_first (newest_from n vs) n v vs (ground (arith, sym e)) first

-- Where every version is a decimal number without a leading zero, `NewestVersion` returns one of
-- them, and none of them is a greater number.
pub newest_version_greatest :
    (first : Runes) (rest : List Runes)
    → is_canonical first ≡ true
    → All (λ v. is_canonical v ≡ true) rest
    → (value first ≤ value (newest_version first rest))
      × All (λ v. value v ≤ value (newest_version first rest)) rest
      × ((newest_version first rest ≡ first)
          ⊎ ((i : ℕ) × (get_elem? rest i ≡ some (newest_version first rest))))
unfolding newest_version
newest_version_greatest first rest h k = newest_from-Greatest first rest h k
