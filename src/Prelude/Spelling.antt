-- ===== src/Prelude/Spelling.antt =====
-- Go strings, put together from their code points.
use Prim.Native.Nat.{ℕ, Ordering, compare}
use Prim.Native.Char.{Char, char, IsScalar}
use Prim.Native.String.{String}
use mathlib.Core.Path.{◌≡◌, refl}
use mathlib.Core.List.{[], ◌∷◌}
use truth_in_stream.Prelude.Text.{Runes}

-- What stands for a number that is no Unicode scalar value.
abbrev replacement : Char
replacement = char 0xfffd tt

abbrev low-IsScalar : (n : ℕ) → compare n 0xd800 ≡ Ordering.lt → IsScalar n
low-IsScalar n low = rw low tt

abbrev high-IsScalar :
    (n : ℕ)
    → compare n 0xd800 ≡ Ordering.gt
    → compare 0xdfff n ≡ Ordering.lt
    → compare n 0x110000 ≡ Ordering.lt
    → IsScalar n
high-IsScalar n above high end = rw (above, high, end) tt

-- Surrogates and numbers from 0x110000 up are no characters.
unfoldable rune_from :
    (n : ℕ) (o p q : Ordering)
    → compare n 0xd800 ≡ o
    → compare 0xdfff n ≡ p
    → compare n 0x110000 ≡ q
    → Char
rune_from n Ordering.lt p q low _ _ = char n (low-IsScalar n low)
rune_from n Ordering.gt Ordering.lt Ordering.lt above high end =
    char n (high-IsScalar n above high end)
rune_from n _ _ _ _ _ _ = replacement

-- `string(text)` of a `[]rune`
unfoldable pub spelled : Runes → String
unfolding rune_from
spelled [] = String.[]
spelled (c ∷ text) =
    String.◌∷◌
      (rune_from c (compare c 0xd800) (compare 0xdfff c) (compare c 0x110000) refl refl refl)
      (spelled text)
