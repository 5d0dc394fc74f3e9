-- ===== src/Verify/Flags.antt =====
-- The closed vocabulary of manipulation flags in stack/backend/internal/verify/political.go.
use truth_in_stream.Prelude.{
  String, Bool, true, false, not, ◌&&◌, List, [], ◌∷◌, ◌=?◌, any, arith, ◌≡◌, refl, ap, sym, ◌∙◌,
  =?→≡, =?_refl, &&_true_right,
}
use truth_in_stream.Verify.{known_political_flags, is_known, sanitize_from, sanitize_flags}

-- `f` is one of the flags `fs`.
abbrev pub has : String → List String → Bool
has f fs = any (λ g. g =? f) fs

-- No flag is listed twice.
abbrev pub Distinct : List String → Type 0
Distinct [] = Unit
Distinct (f ∷ fs) = (has f fs ≡ false) × Distinct fs

has_congr : (f g : String) (fs : List String) → (g =? f) ≡ true → has f fs ≡ has g fs
has_congr f g fs h = ap (λ x. has x fs) (sym (=?→≡ g f h))

is_known_congr : (f g : String) → (g =? f) ≡ true → is_known f ≡ is_known g
is_known_congr f g h = ap is_known (sym (=?→≡ g f h))

-- The flags left are the known ones that were not seen.
has-sanitize_from :
    (f : String) (seen fs : List String)
    → has f (sanitize_from seen fs) ≡ (has f fs && (is_known f && not (has f seen)))
unfolding sanitize_from
has-sanitize_from f seen [] = refl
has-sanitize_from f seen (g ∷ fs) = ground (
  arith,
  has-sanitize_from f seen fs,
  has-sanitize_from f (g ∷ seen) fs,
  has_congr f g seen,
  is_known_congr f g,
)

sanitize_from-Distinct : (seen fs : List String) → Distinct (sanitize_from seen fs)
unfolding sanitize_from
sanitize_from-Distinct seen [] = tt
sanitize_from-Distinct seen (g ∷ fs) = ground (
  arith,
  sanitize_from-Distinct seen fs,
  sanitize_from-Distinct (g ∷ seen) fs,
  has-sanitize_from g (g ∷ seen) fs,
  =?_refl g,
)

-- The guard keeps a flag exactly when the model sent it and it is in the vocabulary, and keeps
-- it once.
pub sanitize_flags_exact :
    (flags : List String)
    → ((f : String) → has f (sanitize_flags flags) ≡ (has f flags && has f known_political_flags))
      × Distinct (sanitize_flags flags)
unfolding sanitize_flags
sanitize_flags_exact flags = (
  λ f.
      has-sanitize_from f [] flags
      ∙ unfold is_known in ap (λ b. has f flags && b) (&&_true_right (has f known_political_flags)),
  sanitize_from-Distinct [] flags,
)
