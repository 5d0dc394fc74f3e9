-- ===== src/EvidenceIds/RoundTrip.antt =====
-- An id of stack/backend/internal/source/source.go is read back as it was written.
use truth_in_stream.Prelude.{
  ℕ, suc, ◌+◌, ◌-◌, ◌<◌, false, [], ◌∷◌, ◌++◌, append_assoc, length, length-append, take, drop,
  none, some, Runes, codes, itoa, ◌==◌, ℤ, pos, is_negative, arith, ◌≡◌, refl, sym, ap, ◌∙◌,
  Bool-cases, inl, inr,
}
use truth_in_stream.EvidenceIds.{
  EvidenceId, id_separator, sanitize, itoa_int, id_string, int_limit, atoi, first_index, last_index,
  parsed, with_index, split_id, parse_evidence_id,
}
use truth_in_stream.EvidenceIds.Numerals.{
  IsPlain, itoa-IsNumeral, itoa-IsPlain, digits_value-itoa, atoi_numeral,
}

sanitize-IsPlain : (s : Runes) → IsPlain (sanitize s)
unfolding sanitize
sanitize-IsPlain [] = tt
sanitize-IsPlain (c ∷ s) = elim (Bool-cases (c == id_separator)) [
  | inl e ↦ rw e (refl, sanitize-IsPlain s)
  | inr e ↦ rw (e, id_separator) (e, sanitize-IsPlain s)
]

first_index_at : (k s : Runes) → IsPlain k → first_index (k ++ (id_separator ∷ s)) ≡ some (length k)
unfolding first_index
first_index_at [] s h = refl
first_index_at (c ∷ k) s h = rw (h.0) (rw (first_index_at k s h.1) refl)

last_index-none : (s : Runes) → IsPlain s → last_index s ≡ none
unfolding last_index
last_index-none [] h = refl
last_index-none (c ∷ s) h = rw (last_index-none s h.1) (rw h.0 refl)

last_index_at : (a s : Runes) → IsPlain s → last_index (a ++ (id_separator ∷ s)) ≡ some (length a)
unfolding last_index
last_index_at [] s h = rw (last_index-none s h) refl
last_index_at (c ∷ a) s h = rw (last_index_at a s h) refl

take_prefix : (a b : Runes) → take (length a) (a ++ b) ≡ a
take_prefix [] b = refl
take_prefix (c ∷ a) b = ap (λ l. c ∷ l) (take_prefix a b)

drop_prefix : (a b : Runes) (c : ℕ) → drop (suc (length a)) (a ++ (c ∷ b)) ≡ b
drop_prefix [] b c = refl
drop_prefix (d ∷ a) b c = drop_prefix a b c

-- The pieces of a text with a separator before and behind its middle.
split_three :
    (kind middle num : Runes)
    → let s = kind ++ (id_separator ∷ (middle ++ (id_separator ∷ num))) in
      let last = length kind + suc (length middle) in
      split_id s (some (length kind)) (some last) ≡ with_index kind middle (atoi num)
unfolding split_id
split_three kind middle num =
    let rest = middle ++ (id_separator ∷ num) in
    let whole = append_assoc kind (id_separator ∷ middle) (id_separator ∷ num) in
    rw
      (
        apart (length kind) (length middle),
        take_prefix kind (id_separator ∷ rest),
        drop_prefix kind rest id_separator,
        width (length kind) (length middle),
        take_prefix middle (id_separator ∷ num),
      )
      (ap (λ l. with_index kind middle (atoi l)) (tail whole))
  where
    apart : (k m : ℕ) → (k == k + suc m) ≡ false
    apart k m = ground arith

    width : (k m : ℕ) → k + suc m - suc k ≡ m
    width k m = omega arith

    tail :
        (kind ++ (id_separator ∷ middle)) ++ (id_separator ∷ num)
          ≡ kind ++ (id_separator ∷ (middle ++ (id_separator ∷ num)))
        → drop
            (suc (length kind + suc (length middle)))
            (kind ++ (id_separator ∷ (middle ++ (id_separator ∷ num))))
          ≡ num
    tail whole =
        ap (λ l. drop (suc (length kind + suc (length middle))) l) (sym whole)
        ∙ ap (λ k. drop (suc k) ((kind ++ (id_separator ∷ middle)) ++ (id_separator ∷ num)))
            (sym (length-append kind (id_separator ∷ middle)))
        ∙ drop_prefix (kind ++ (id_separator ∷ middle)) num id_separator

last_of_three :
    (kind middle num : Runes)
    → IsPlain num
    → last_index (kind ++ (id_separator ∷ (middle ++ (id_separator ∷ num))))
      ≡ some (length kind + suc (length middle))
last_of_three kind middle num plain =
    ap last_index (sym (append_assoc kind (id_separator ∷ middle) (id_separator ∷ num)))
    ∙ last_index_at (kind ++ (id_separator ∷ middle)) num plain
    ∙ ap some (length-append kind (id_separator ∷ middle))

with_index_pos :
    (kind middle : Runes) (index : ℤ) (n : ℕ)
    → index ≡ pos n
    → with_index kind middle (some index)
      ≡ parsed (record { kind = kind; source_id = middle; index = index })
unfolding with_index
with_index_pos kind middle index n e = rw (ap is_negative e) refl

-- Where the kind holds no separator and the index is a number below 2 ^ 63 that is not negative:
-- the text of an id is read back as the same id, whatever its source id holds.
pub parse_evidence_id-id_string :
    (e : EvidenceId) (n : ℕ)
    → IsPlain e.kind
    → e.index ≡ pos n
    → n < int_limit
    → parse_evidence_id (id_string e) ≡ parsed e
unfolding parse_evidence_id id_string itoa_int
parse_evidence_id-id_string e n plain number small =
    let num = codes (itoa n) in
    let written = ap itoa_int number in
    let read = atoi_numeral num n (itoa-IsNumeral n) (digits_value-itoa n) small in
    rw
      (
        written,
        first_index_at e.kind (e.source_id ++ (id_separator ∷ num)) plain,
        last_of_three e.kind e.source_id num (itoa-IsPlain n),
      )
      (split_three e.kind e.source_id num
        ∙ ap (with_index e.kind e.source_id) (read ∙ ap some (sym number))
        ∙ with_index_pos e.kind e.source_id e.index n number)
