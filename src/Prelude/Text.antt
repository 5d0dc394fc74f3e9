-- ===== src/Prelude/Text.antt =====
-- Go strings that are read character by character: lists of Unicode code points.
use Prim.Native.Nat.{ℕ, zero, suc, ◌/◌, ◌%◌}
use Prim.Native.Char.{Char, code}
use mathlib.Core.Path.{◌≡◌, refl}
use mathlib.Core.Option.{get_or}
use truth_in_stream.Prelude.Lists.{get_elem?}
use Prim.Native.String.{String}
use mathlib.Core.Bool.{Bool, true, false, ◌&&◌, ◌||◌}
use mathlib.Core.List.{List, [], ◌∷◌}
use truth_in_stream.Prelude.Tests.{◌==◌, leb, if◌then◌else◌}

abbrev pub Runes : Type 0
Runes = List ℕ

-- `[]rune(text)`
abbrev pub codes : String → Runes
codes String.[] = []
codes (String.◌∷◌ letter text) = code letter ∷ codes text

-- `unicode.IsSpace`
abbrev pub is_space : ℕ → Bool
is_space c =
    (leb 9 c && leb c 13)
    || c == 32
    || c == 0x85
    || c == 0xa0
    || c == 0x1680
    || (leb 0x2000 c && leb c 0x200a)
    || c == 0x2028
    || c == 0x2029
    || c == 0x202f
    || c == 0x205f
    || c == 0x3000

-- `strings.TrimSpace(s) == ""`: there is nothing but white space.
abbrev pub is_blank : Runes → Bool
is_blank [] = true
is_blank (c ∷ s) = is_space c && is_blank s

-- `strings.HasPrefix(s, p)`
abbrev pub starts_with : Runes → Runes → Bool
starts_with s [] = true
starts_with [] (p ∷ ps) = false
starts_with (c ∷ s) (p ∷ ps) = c == p && starts_with s ps

-- `strings.Contains(s, p)`
abbrev pub contains : Runes → Runes → Bool
contains [] p = starts_with [] p
contains (c ∷ s) p = starts_with (c ∷ s) p || contains s p

abbrev pub digits : List Char
digits = "0" ∷ "1" ∷ "2" ∷ "3" ∷ "4" ∷ "5" ∷ "6" ∷ "7" ∷ "8" ∷ "9" ∷ []

-- The decimal digits of a number before a text; a number has at most as many digits as its fuel.
unfoldable pub digits_onto : ℕ → ℕ → String → String
digits_onto zero n text = text
digits_onto (suc fuel) n text =
    let longer = String.◌∷◌ (get_or (get_elem? digits (n % 10)) "0") text in
    let rest = digits_onto fuel (n / 10) longer in if n / 10 == 0 then longer else rest

-- `strconv.Itoa`
unfoldable pub itoa : ℕ → String
unfolding digits_onto
itoa n = digits_onto (suc n) n ""

itoa_205 : itoa 205 ≡ "205"
unfolding itoa
itoa_205 = refl
