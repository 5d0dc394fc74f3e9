-- ===== src/Wiki/Bytes.antt =====
-- The functions of Go's `strings` and `unicode/utf8` that stack/backend/internal/wiki/chunk.go uses,
-- on texts as lists of bytes.
pub mod Lengths
use truth_in_stream.Prelude.{
  ℕ, zero, suc, ◌-◌, Bool, true, false, not, ◌&&◌, ◌||◌, Option, none, some, List, [], ◌∷◌, ◌++◌,
  reverse, length, take, drop, ltb, leb, ◌==◌, if◌then◌else◌,
}

abbrev pub Bytes : Type 0
Bytes = List ℕ

-- The width of the white space that a text begins with, in UTF-8, or 0.
unfoldable pub space_width : Bytes → ℕ
space_width [] = 0
space_width (a ∷ []) = if (leb 9 a && leb a 13) || a == 32 then 1 else 0
space_width (a ∷ b ∷ []) =
    if (leb 9 a && leb a 13) || a == 32
    then 1
    else if a == 0xc2 && (b == 0x85 || b == 0xa0)
    then 2
    else 0
space_width (a ∷ b ∷ c ∷ s) =
    if (leb 9 a && leb a 13) || a == 32
    then 1
    else if a == 0xc2 && (b == 0x85 || b == 0xa0)
    then 2
    else if (a == 0xe1 && b == 0x9a && c == 0x80)
        || (a == 0xe2
            && ((b == 0x80 && ((leb 0x80 c && leb c 0x8a) || c == 0xa8 || c == 0xa9 || c == 0xaf))
                || (b == 0x81 && c == 0x9f)))
        || (a == 0xe3 && b == 0x80 && c == 0x80)
    then 3
    else 0

-- The width of the white space that a text ends with: of its last one, two or three bytes.
unfoldable pub last_space_width : Bytes → ℕ
unfolding space_width
last_space_width s =
    let n = length s in
    let one = space_width (drop (n - 1) s) in
    let two = space_width (drop (n - 2) s) in
    let three = space_width (drop (n - 3) s) in
    if one == 1 then 1 else if two == 2 then 2 else if three == 3 then 3 else 0

-- A text has at most as many white spaces as bytes, so its length is fuel enough.
unfoldable pub trim_left_from : ℕ → Bytes → Bytes
unfolding space_width
trim_left_from zero s = s
trim_left_from (suc fuel) s =
    let rest = trim_left_from fuel (drop (space_width s) s) in
    if space_width s == 0 then s else rest

unfoldable pub trim_right_from : ℕ → Bytes → Bytes
unfolding last_space_width
trim_right_from zero s = s
trim_right_from (suc fuel) s =
    let rest = trim_right_from fuel (take (length s - last_space_width s) s) in
    if last_space_width s == 0 then s else rest

-- `strings.TrimSpace`
unfoldable pub trim_space : Bytes → Bytes
unfolding trim_left_from trim_right_from
trim_space s = let t = trim_left_from (length s) s in trim_right_from (length t) t

-- `strings.TrimLeft(s, " ")`
unfoldable pub trim_blanks : Bytes → Bytes
trim_blanks [] = []
trim_blanks (c ∷ s) = let rest = trim_blanks s in if c == 32 then rest else c ∷ s

-- `strings.LastIndexByte`, `none` for -1
unfoldable pub last_index : ℕ → Bytes → Option ℕ
last_index b [] = none
last_index b (c ∷ s) = elim (last_index b s) [
  | some i ↦ some (suc i)
  | none ↦ if c == b then some 0 else none
]

-- `strings.Split(s, sep)` for a separator of two bytes: the first piece and the others.
unfoldable pub split_on : ℕ → ℕ → Bytes → Bytes × List Bytes
split_on x y [] = ([], [])
split_on x y (c ∷ []) = (c ∷ [], [])
split_on x y (c ∷ d ∷ s) =
    let later = split_on x y s in
    let longer = split_on x y (d ∷ s) in
    if c == x && d == y then ([], later.0 ∷ later.1) else (c ∷ longer.0, longer.1)

-- `strings.SplitAfter(s, sep)` for a separator of two bytes
unfoldable pub split_after : ℕ → ℕ → Bytes → Bytes × List Bytes
split_after x y [] = ([], [])
split_after x y (c ∷ []) = (c ∷ [], [])
split_after x y (c ∷ d ∷ s) =
    let later = split_after x y s in
    let longer = split_after x y (d ∷ s) in
    if c == x && d == y then (c ∷ d ∷ [], later.0 ∷ later.1) else (c ∷ longer.0, longer.1)

-- `utf8.RuneStart`
unfoldable pub rune_start : ℕ → Bool
rune_start b = ltb b 0x80 || leb 0xc0 b
