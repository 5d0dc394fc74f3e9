-- ===== src/Worker/Versions.antt =====
-- Versioned queues: stack/backend/internal/workerlifecycle/version.go, and `NewestVersionedDepth` of
-- scale.go. A name is the list of its bytes; a map keyed by names is the list of its entries, in
-- the order in which Go ranges over it. Backlogs are natural numbers.
pub mod Newest
pub mod Names
use truth_in_stream.Prelude.{
  ℕ, Bool, true, false, not, ◌&&◌, ◌||◌, List, [], ◌∷◌, ◌++◌, map, Option, none, some, Runes, codes,
  length, drop, starts_with, ltb, leb, ◌==◌, if◌then◌else◌, ◌≡◌, refl,
}

-- `==` on texts
unfoldable pub same_text : Runes → Runes → Bool
same_text [] [] = true
same_text [] (d ∷ t) = false
same_text (c ∷ s) [] = false
same_text (c ∷ s) (d ∷ t) = c == d && same_text s t

-- `<` on texts, byte by byte
unfoldable pub text_less : Runes → Runes → Bool
text_less s [] = false
text_less [] (d ∷ t) = true
text_less (c ∷ s) (d ∷ t) = ltb c d || (c == d && text_less s t)

abbrev pub Depths : Type 0
Depths = List (Runes × ℕ)

abbrev pub version_marker : Runes
version_marker = b'.' ∷ b'v' ∷ []

unfoldable pub versioned_queue_name : Runes → Runes → Runes
versioned_queue_name base version = base ++ version_marker ++ version

unfoldable pub is_digit : ℕ → Bool
is_digit r = leb b'0' r && leb r b'9'

unfoldable pub all_digits : Runes → Bool
unfolding is_digit
all_digits [] = true
all_digits (r ∷ v) = is_digit r && all_digits v

unfoldable pub is_digits : Runes → Bool
unfolding all_digits
is_digits [] = false
is_digits (r ∷ v) = all_digits (r ∷ v)

unfoldable pub version_less : Runes → Runes → Bool
unfolding is_digits text_less
version_less a b =
    if is_digits a && is_digits b
    then if not (length a == length b) then ltb (length a) (length b) else text_less a b
    else text_less a b

unfoldable pub newest_from : Runes → List Runes → Runes
unfolding version_less
newest_from newest [] = newest
newest_from newest (v ∷ vs) = newest_from (if version_less newest v then v else newest) vs

-- The list is not empty: its first item comes apart.
unfoldable pub newest_version : Runes → List Runes → Runes
unfolding newest_from
newest_version first rest = newest_from first rest

unfoldable pub is_token_rune : ℕ → Bool
unfolding is_digit
is_token_rune r =
    (leb b'a' r && leb r b'z') || (leb b'A' r && leb r b'Z') || is_digit r || r == b'_' || r == b'-'

unfoldable pub all_token : Runes → Bool
unfolding is_token_rune
all_token [] = true
all_token (r ∷ v) = is_token_rune r && all_token v

unfoldable pub is_version_token : Runes → Bool
unfolding all_token
is_version_token [] = false
is_version_token (r ∷ v) = all_token (r ∷ v)

unfoldable pub queue_version : Runes → Runes → Option Runes
unfolding is_version_token
queue_version name base =
    let prefix = base ++ version_marker in
    let token = drop (length prefix) name in
    if starts_with name prefix && is_version_token token then some token else none

-- `out[v] = depth`
unfoldable pub set_depth : Runes → ℕ → Depths → Depths
unfolding same_text
set_depth v depth [] = (v, depth) ∷ []
set_depth v depth (entry ∷ rest) =
    let others = set_depth v depth rest in
    if same_text entry.0 v then (v, depth) ∷ rest else entry ∷ others

unfoldable pub record_depth : Option Runes → ℕ → Depths → Depths
unfolding set_depth
record_depth none depth out = out
record_depth (some v) depth out = set_depth v depth out

unfoldable pub depths_onto : Depths → Runes → Depths → Depths
unfolding queue_version record_depth
depths_onto out base [] = out
depths_onto out base (entry ∷ depths) =
    depths_onto (record_depth (queue_version entry.0 base) entry.1 out) base depths

unfoldable pub versioned_depths : Depths → Runes → Depths
unfolding depths_onto
versioned_depths depths base = depths_onto [] base depths

-- `byVersion[v]`, the zero value on a missing key
unfoldable pub depth_of : Runes → Depths → ℕ
unfolding same_text
depth_of v [] = 0
depth_of v (entry ∷ rest) = if same_text entry.0 v then entry.1 else depth_of v rest

abbrev pub names : Depths → List Runes
names = map (λ e. e.0)

unfoldable pub newest_depth : Depths → Option ℕ
unfolding newest_version depth_of
newest_depth [] = none
newest_depth (entry ∷ rest) = some (depth_of (newest_version entry.0 (names rest)) (entry ∷ rest))

unfoldable pub newest_versioned_depth : Depths → Runes → Option ℕ
unfolding versioned_depths newest_depth
newest_versioned_depth depths base = newest_depth (versioned_depths depths base)

-- Over "2", "10" and "1a" the order goes round in a circle, so the newest of them depends on the
-- order in which the map is read.
cyclic :
    (version_less (codes "2") (codes "10") ≡ true)
    × (version_less (codes "10") (codes "1a") ≡ true)
    × (version_less (codes "1a") (codes "2") ≡ true)
unfolding version_less
cyclic = (refl, refl, refl)

unsettled :
    (newest_version (codes "2") (codes "10" ∷ codes "1a" ∷ []) ≡ codes "1a")
    × (newest_version (codes "10") (codes "1a" ∷ codes "2" ∷ []) ≡ codes "2")
unfolding newest_version
unsettled = (refl, refl)

-- Leading zeros count: "003" is later than "10".
padded : version_less (codes "10") (codes "003") ≡ true
unfolding version_less
padded = refl
