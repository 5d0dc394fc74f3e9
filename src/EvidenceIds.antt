-- ===== src/EvidenceIds.antt =====
-- The ids of evidence passages: `EvidenceID` of stack/backend/internal/source/source.go. Texts are
-- lists of code points; indexes into them count these and not bytes, which cuts the same pieces.
pub mod Numerals
pub mod RoundTrip
use truth_in_stream.Prelude.{
  ℕ, zero, suc, ◌+◌, ◌-◌, ◌*◌, ◌^◌, ◌<◌, Bool, true, false, ◌&&◌, ◌||◌, List, [], ◌∷◌, ◌++◌, map,
  length, take, drop, Option, none, some, Runes, codes, itoa, ltb, leb, ◌==◌, if◌then◌else◌, ℤ, pos,
  negsuc, is_negative,
}

pub record EvidenceId : Type 0 where
  pub kind : Runes
  pub source_id : Runes
  pub index : ℤ

-- `idSeparator`, ':'
abbrev pub id_separator : ℕ
id_separator = 58

-- `strings.ReplaceAll(s, ":", "_")`
unfoldable pub sanitize : Runes → Runes
sanitize [] = []
sanitize (c ∷ s) = (if c == id_separator then 95 else c) ∷ sanitize s

unfoldable pub new_evidence_id : Runes → Runes → ℤ → EvidenceId
unfolding sanitize
new_evidence_id kind source_id index = record {
  kind = kind;
  source_id = sanitize source_id;
  index = if is_negative index then pos 0 else index;
}

-- `strconv.Itoa`
unfoldable pub itoa_int : ℤ → Runes
unfolding itoa
itoa_int (pos n) = codes (itoa n)
itoa_int (negsuc n) = 45 ∷ codes (itoa (suc n))

-- `EvidenceID.String`
unfoldable pub id_string : EvidenceId → Runes
unfolding itoa_int
id_string e = e.kind ++ (id_separator ∷ (e.source_id ++ (id_separator ∷ itoa_int e.index)))

-- The value of decimal digits behind a number; none for anything else.
unfoldable pub digits_value : ℕ → Runes → Option ℕ
digits_value n [] = some n
digits_value n (c ∷ s) =
    let rest = digits_value (n * 10 + (c - 48)) s in if leb 48 c && leb c 57 then rest else none

-- At least one digit.
unfoldable pub unsigned_value : Runes → Option ℕ
unfolding digits_value
unsigned_value [] = none
unsigned_value (c ∷ s) = digits_value 0 (c ∷ s)

abbrev pub int_limit : ℕ
int_limit = 9223372036854775808

abbrev pub negative : ℕ → ℤ
negative zero = pos 0
negative (suc n) = negsuc n

unfoldable pub in_range : ℕ → (ℕ → ℤ) → Option ℕ → Option ℤ
in_range most sign none = none
in_range most sign (some n) = if leb n most then some (sign n) else none

-- `strconv.Atoi` on 64 bits
unfoldable pub atoi : Runes → Option ℤ
unfolding unsigned_value in_range
atoi [] = none
atoi (c ∷ s) =
    if c == 45
    then in_range int_limit negative (unsigned_value s)
    else if c == 43
    then in_range (int_limit - 1) pos (unsigned_value s)
    else in_range (int_limit - 1) pos (unsigned_value (c ∷ s))

-- `strings.Index(s, ":")`
unfoldable pub first_index : Runes → Option ℕ
first_index [] = none
first_index (c ∷ s) =
    let rest = first_index s in
    if c == id_separator then some 0 else elim rest [ none ↦ none | some i ↦ some (suc i) ]

-- `strings.LastIndex(s, ":")`
unfoldable pub last_index : Runes → Option ℕ
last_index [] = none
last_index (c ∷ s) = elim (last_index s) [
  | some i ↦ some (suc i)
  | none ↦ if c == id_separator then some 0 else none
]

-- Why a text is no id: too few separators, no number, a negative number.
pub data IdError : Type 0 where
  no_parts bad_index negative_index : IdError

pub data Parsed : Type 0 where
  parsed : EvidenceId → Parsed
  refused : IdError → Parsed

unfoldable pub with_index : Runes → Runes → Option ℤ → Parsed
with_index kind source_id none = refused bad_index
with_index kind source_id (some index) =
    if is_negative index
    then refused negative_index
    else parsed (record { kind = kind; source_id = source_id; index = index })

unfoldable pub split_id : Runes → Option ℕ → Option ℕ → Parsed
unfolding with_index atoi
split_id s none last = refused no_parts
split_id s (some first) none = refused no_parts
split_id s (some first) (some last) =
    if first == last
    then refused no_parts
    else with_index (take first s) (take (last - suc first) (drop (suc first) s))
        (atoi (drop (suc last) s))

-- `ParseEvidenceID`
unfoldable pub parse_evidence_id : Runes → Parsed
unfolding split_id first_index last_index
parse_evidence_id s = split_id s (first_index s) (last_index s)
