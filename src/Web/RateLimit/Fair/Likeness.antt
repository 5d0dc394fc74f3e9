-- ===== src/Web/RateLimit/Fair/Likeness.antt =====
-- Token buckets that cannot be told apart from some time on.
use truth_in_stream.Prelude.{ℕ, ◌≤◌, Bool, true, List, [], ◌∷◌, drop, arith, ◌≡◌, ap, ◌∙◌, sym}
use truth_in_stream.Web.RateLimit.{Library}
use truth_in_stream.Web.RateLimit.Fair.{Ascending, Like}

Ascending-earlier : (t u : ℕ) (us : List ℕ) → t ≤ u → Ascending u us → Ascending t us
Ascending-earlier t u [] h asc = tt
Ascending-earlier t u (v ∷ us) h asc = (omega (arith, h, asc.0), asc.1)

first : List Bool → Bool
first [] = true
first (b ∷ bs) = b

module _ {Limiter : Type 0} (lib : Library Limiter) where
  pub Like-later : (t u : ℕ) (l m : Limiter) → t ≤ u → Like lib t l m → Like lib u l m
  Like-later t u l m h like us asc = like us (Ascending-earlier t u us h asc)

  pub Like-trans : (t : ℕ) (l m n : Limiter) → Like lib t l m → Like lib t m n → Like lib t l n
  Like-trans t l m n lm mn us asc = lm us asc ∙ mn us asc

  pub Like-sym : (t : ℕ) (l m : Limiter) → Like lib t l m → Like lib t m l
  Like-sym t l m lm us asc = sym (lm us asc)

  -- Such buckets answer an attempt alike, and are alike after it.
  pub Like-answer :
      (t u : ℕ) (l m : Limiter) → t ≤ u → Like lib t l m → (lib.allow u l).0 ≡ (lib.allow u m).0
  unfolding first
  Like-answer t u l m h like = ap first (like (u ∷ []) (h, tt))

  pub Like-allow :
      (t u : ℕ) (l m : Limiter)
      → t ≤ u
      → Like lib t l m
      → Like lib u (lib.allow u l).1 (lib.allow u m).1
  Like-allow t u l m h like us asc = ap (drop 1) (like (u ∷ us) (h, asc))
