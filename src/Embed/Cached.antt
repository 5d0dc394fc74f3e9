-- ===== src/Embed/Cached.antt =====
-- The embedding cache of stack/backend/internal/embed/cache.go: its keys, the map, and the embedder
-- that embeds only what it misses. The hash in hexadecimal is a parameter, and so are the filler
-- that embeds, over a state of the outside world.
-- Vectors are values, so the copies that the code makes are not seen.
pub mod Answers
use truth_in_stream.Prelude.{
  ℕ, suc, String, Bool, true, false, List, [], ◌∷◌, ◌++◌, map, length, set, Option, none, some,
  Dict, lookup, insert, Runes, codes, is_space, ◌==◌, if◌then◌else◌,
}

-- `strings.Fields`: the maximal runs of runes that are no white space; `word` is the open one.
unfoldable pub fields : Runes → Runes → List Runes
fields [] [] = []
fields (c ∷ word) [] = (c ∷ word) ∷ []
fields word (c ∷ text) =
    let rest = fields (if is_space c then [] else word ++ c ∷ []) text in
    if is_space c then elim word [ [] ↦ rest | a ∷ w ↦ (a ∷ w) ∷ rest ] else rest

-- `strings.Join(words, " ")`
unfoldable pub join_words : List Runes → Runes
join_words [] = []
join_words (w ∷ []) = w
join_words (w ∷ v ∷ words) = w ++ (32 ∷ join_words (v ∷ words))

unfoldable pub normalize_text : Runes → Runes
unfolding fields join_words
normalize_text text = join_words (fields [] text)

-- `inputType`
pub data InputType : Type 0 where
  document query : InputType

unfoldable pub input_type_text : InputType → Runes
input_type_text document = codes "document"
input_type_text query = codes "query"

-- `CacheKey`, over `hex.EncodeToString(sha256.Sum256(...))`
unfoldable pub cache_key : (Runes → String) → Runes → InputType → Runes → String
unfolding input_type_text normalize_text
cache_key digest model kind text =
    digest (model ++ (0 ∷ (input_type_text kind ++ (0 ∷ normalize_text text))))

module _ (Vector : Type 0) where
  pub record Cache : Type 0 where
    pub vectors : Dict Vector
    pub dirty : Bool

  -- How a call of the embedder ends.
  pub data Embedding : Type 0 where
    -- the slots of `out`, `none` for a nil one
    embedded : List (Option Vector) → Embedding
    cache_miss : Runes → Embedding
    filler_failed : Embedding
    wrong_count : ℕ → ℕ → Embedding

  -- `Filler`: `EmbedDocuments` and `EmbedQueries`.
  pub record Filler (World : Type 0) : Type 0 where
    pub embed_documents : List Runes → World → Option (List Vector) × World
    pub embed_queries : List Runes → World → Option (List Vector) × World

abbrev pub new_cache : (Vector : Type 0) → Cache Vector
new_cache Vector = record { vectors = []; dirty = false }

module _ {Vector : Type 0} where
  unfoldable pub get : String → Cache Vector → Option Vector
  unfolding lookup
  get key c = lookup key c.vectors

  unfoldable pub put : String → Vector → Cache Vector → Cache Vector
  unfolding insert
  put key vec c = record { vectors = insert key vec c.vectors; dirty = true }

module _ {Vector : Type 0} (digest : Runes → String) (model : Runes) where
  -- The loop over the texts, from an index on: `out`, and the missing texts with their positions.
  unfoldable pub scan :
      Cache Vector → InputType → ℕ → List Runes → List (Option Vector) × List (Runes × ℕ)
  unfolding cache_key get
  scan c kind i [] = ([], [])
  scan c kind i (text ∷ texts) =
      let rest = scan c kind (suc i) texts in
      elim (get (cache_key digest model kind text) c) [
        | some vec ↦ (some vec ∷ rest.0, rest.1)
        | none ↦ (none ∷ rest.0, (text, i) ∷ rest.1)
      ]

  -- The loop over the filled vectors.
  unfoldable pub fill :
      InputType
      → List (Runes × ℕ)
      → List Vector
      → Cache Vector
      → List (Option Vector)
      → List (Option Vector) × Cache Vector
  unfolding cache_key put
  fill kind [] vectors c out = (out, c)
  fill kind (miss ∷ misses) [] c out = (out, c)
  fill kind (miss ∷ misses) (vec ∷ vectors) c out =
      fill kind misses vectors (put (cache_key digest model kind miss.0) vec c)
        (set out miss.1 (some vec))

  unfoldable pub store_filled :
      InputType
      → List (Option Vector)
      → List (Runes × ℕ)
      → Option (List Vector)
      → Cache Vector
      → Embedding Vector × Cache Vector
  unfolding fill
  store_filled kind out misses none c = (filler_failed, c)
  store_filled kind out misses (some vectors) c =
      if length vectors == length misses
      then (let r = fill kind misses vectors c out in (embedded r.0, r.1))
      else (wrong_count (length vectors) (length misses), c)

unfoldable pub fill_misses :
    {Vector World : Type 0}
    → Filler Vector World
    → InputType
    → List Runes
    → World
    → Option (List Vector) × World
fill_misses filler document texts w = filler.embed_documents texts w
fill_misses filler query texts w = filler.embed_queries texts w

module _ {Vector World : Type 0} (digest : Runes → String) (model : Runes) where
  -- The part of `embed` after the scan, with at least one miss.
  unfoldable pub embed_missing :
      Option (Filler Vector World)
      → InputType
      → List (Option Vector)
      → Runes × ℕ
      → List (Runes × ℕ)
      → Cache Vector
      → World
      → Embedding Vector × Cache Vector × World
  unfolding fill_misses store_filled
  embed_missing none kind out miss misses c w = (cache_miss miss.0, c, w)
  embed_missing (some filler) kind out miss misses c w =
      let answer = fill_misses filler kind (map (λ m. m.0) (miss ∷ misses)) w in
      let r = store_filled digest model kind out (miss ∷ misses) answer.0 c in (r.0, r.1, answer.1)

  unfoldable pub embed_scanned :
      Option (Filler Vector World)
      → InputType
      → List (Option Vector) × List (Runes × ℕ)
      → Cache Vector
      → World
      → Embedding Vector × Cache Vector × World
  unfolding embed_missing
  embed_scanned filler kind (out, []) c w = (embedded out, c, w)
  embed_scanned filler kind (out, miss ∷ misses) c w = embed_missing filler kind out miss misses c w

  -- `Cached.embed`
  unfoldable pub embed_cached :
      Option (Filler Vector World)
      → InputType
      → List Runes
      → Cache Vector
      → World
      → Embedding Vector × Cache Vector × World
  unfolding scan embed_scanned
  embed_cached filler kind texts c w =
      embed_scanned filler kind (scan digest model c kind 0 texts) c w
