-- ===== src/Wiki/Chunk/Cuts.antt =====
-- The pieces that `cutAtWord` and `cutAtRune` of stack/backend/internal/wiki/chunk.go return.
use truth_in_stream.Prelude.{
  ℕ, zero, suc, ◌≤◌, ◌<◌, max, Bool, true, false, [], ◌∷◌, Option, none, some, length, take, drop,
  length-take-le, leb, ◌==◌, if◌then◌else◌, arith, ◌≡◌, refl, Bool-cases, inl, inr, ◌⊎◌,
}
use truth_in_stream.Wiki.Bytes.{Bytes, last_index}
use truth_in_stream.Wiki.Bytes.Lengths.{
  length-take-le_length, length-drop_exact, length-trim_blanks,
}
use truth_in_stream.Wiki.Chunk.{cut_at, cut_at_word, back_to_rune, cut_at_rune}

index_first : (test : Bool) (i n : ℕ) → (if test then some 0 else none) ≡ some i → i < suc n
index_first true i n h = let e : 0 ≡ i = cc h in omega (arith, e)
index_first false i n h = cc

index_later :
    (o : Option ℕ) (test : Bool) (i n : ℕ)
    → ((j : ℕ) → o ≡ some j → j < n)
    → (elim o [ some j ↦ some (suc j) | none ↦ if test then some 0 else none ]) ≡ some i
    → i < suc n
index_later (some j) test i n below h = let e : suc j ≡ i = cc h in omega (arith, e, below j refl)
index_later none test i n below h = index_first test i n h

last_index_below : (b : ℕ) (s : Bytes) (i : ℕ) → last_index b s ≡ some i → i < length s
unfolding last_index
last_index_below b [] i h = cc
last_index_below b (c ∷ s) i h =
    index_later (last_index b s) (c == b) i (length s) (last_index_below b s) h

-- A piece and what is left of a text: nothing is cut off, or the piece fits and less is left.
abbrev pub Cut : Bytes → ℕ → Bytes × Bytes → Type 0
Cut s limit piece = (piece.0 ≡ []) ⊎ ((length piece.0 ≤ limit) × (length piece.1 < length s))

cut_at-Cut :
    (o : Option ℕ) (s : Bytes) (limit : ℕ)
    → ((i : ℕ) → o ≡ some i → (i < limit) × (i < length s))
    → Cut s limit (cut_at o s)
unfolding cut_at
cut_at-Cut none s limit h = inl refl
cut_at-Cut (some zero) s limit h = inl refl
cut_at-Cut (some (suc i)) s limit h =
    let (fits, inside) = h (suc i) refl in
    inr (
      omega (arith, length-take-le (suc i) s, fits),
      omega (arith, length-trim_blanks (drop (suc i) s), length-drop_exact (suc i) s, inside),
    )

pub cut_at_word-Cut : (s : Bytes) (limit : ℕ) → 0 < length s → Cut s limit (cut_at_word s limit)
unfolding cut_at_word
cut_at_word-Cut s limit some_left = elim (Bool-cases (limit == 0)) [
  | inl t ↦ rw t (inl refl)
  | inr t ↦ rw t (elim (Bool-cases (leb (length s) limit)) [
    | inl whole ↦ rw whole (inr (ground (arith, whole), some_left))
    | inr longer ↦ rw longer (
        cut_at-Cut (last_index b' ' (take limit s)) s limit (λ i e. (
          omega (arith, last_index_below b' ' (take limit s) i e, length-take-le limit s),
          omega (arith, last_index_below b' ' (take limit s) i e, length-take-le_length limit s),
        )))
  ])
]

back_to_rune_bounds : (s : Bytes) (n : ℕ) → 0 < n → (0 < back_to_rune s n) × (back_to_rune s n ≤ n)
unfolding back_to_rune
back_to_rune_bounds s zero h = absurd (omega arith)
back_to_rune_bounds s (suc zero) h = (omega arith, omega arith)
back_to_rune_bounds s (suc (suc n)) h =
    (ground (arith, back_to_rune_bounds s (suc n)), ground (arith, back_to_rune_bounds s (suc n)))

pub cut_at_rune-Cut :
    (s : Bytes) (limit : ℕ)
    → 0 < length s
    → 0 < limit
    → (length (cut_at_rune s limit).0 ≤ limit) × (length (cut_at_rune s limit).1 < length s)
unfolding cut_at_rune
cut_at_rune-Cut s limit some_left room = elim (Bool-cases (leb (length s) limit)) [
  | inl whole ↦ rw whole (ground (arith, whole), some_left)
  | inr longer ↦ rw longer (
      let cut = back_to_rune s (max limit 1) in
      let (pos, most) = back_to_rune_bounds s (max limit 1) (omega arith) in
      (
        omega (arith, length-take-le cut s, most, room),
        omega (arith, length-drop_exact cut s, pos, some_left),
      ))
]
