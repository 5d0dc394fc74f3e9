-- ===== src/Wiki/Delta.antt =====
-- `RunDelta` of stack/backend/internal/wiki/delta.go with `embedChunks` of embedrun.go: the calls of
-- the store, of the MediaWiki API and of the embedding client are a record over a state of the
-- outside world. Times are natural numbers of nanoseconds, with Go's zero time for 0; page and
-- revision ids are not negative, and chunk indexes fit the int32 of a cursor. Requests that run in
-- parallel are made one after the other.
pub mod Actions
pub mod Run
pub mod Courses
pub mod Checkpoint
pub mod Ends
use truth_in_stream.Prelude.{
  ℕ, zero, suc, ◌+◌, ◌-◌, ◌*◌, String, Bool, true, false, not, ◌&&◌, ◌||◌, List, [], ◌∷◌, ◌++◌, map,
  length, Option, none, some, get_or, Dict, lookup, itoa, ltb, leb, ◌==◌, if◌then◌else◌, ℤ, pos,
}
use truth_in_stream.Corpus.{
  EvidenceChunk, WikiMetadata, EvidenceTrim, EvidenceCursor, EvidenceSyncState,
}
use truth_in_stream.Wiki.Bytes.{Bytes}
use truth_in_stream.Wiki.Chunk.{chunk}
use truth_in_stream.Wiki.Changes.{Change, ChangePlan, plan_changes, dedupe_titles}

pub record DeltaConfig : Type 0 where
  pub corpus : String
  pub retention_days : ℕ
  pub batch_size : ℕ
  pub concurrency : ℕ

pub record DeltaStats : Type 0 where
  pub changed : ℕ
  pub skipped : ℕ
  pub deleted : ℕ
  pub embedded : ℕ
  pub recommend_bulk : Bool

pub record Extract : Type 0 where
  pub page_id : ℕ
  pub title : String
  pub revision_id : ℕ
  pub text : Bytes
  pub missing : Bool

-- The calls whose error ends a run.
pub data Call : Type 0 where
  get_sync_state embed_in_progress recent_changes count_documents stored_revisions extracts
        unembedded_chunks embed_documents trim_documents upsert_chunks delete_by_title
        set_chunk_embeddings set_sync_state :
      Call

pub data DeltaError : Type 0 where
  bad_config no_baseline window_exceeds_retention bulk_embed_in_progress wrong_count : DeltaError
  call_failed : Call → DeltaError

-- How code ends: `diverges` where it never returns.
pub data Outcome (A : Type 0) : Type 0 where
  ok : A → Outcome A
  failed : DeltaError → Outcome A
  diverges : Outcome A

abbrev pub ContentChunk : Type 0 → Type 0
ContentChunk Value = EvidenceChunk Bytes Value

-- A write that succeeded.
pub data Write (Value : Type 0) : Type 0 where
  trimmed : List EvidenceTrim → Write Value
  upserted : List (ContentChunk Value) → Write Value
  deleted : List String → Write Value
  embedded : List (ContentChunk Value) → Write Value
  checkpointed : EvidenceSyncState → Write Value

-- An answer is `none` or `false` on an error.
pub record DeltaEnv (Value World : Type 0) : Type 0 where
  -- the bytes of a string in UTF-8
  pub utf8 : String → Bytes
  -- `pageURL`, over `net/url`
  pub page_url : String → String → String
  -- `float64(changed) > fraction*float64(total)`
  pub over_share : ℕ → ℕ → Bool
  pub get_sync_state : String → World → Option (Option EvidenceSyncState) × World
  pub embed_in_progress : World → Option Bool × World
  pub recent_changes : ℕ → World → Option (List Change) × World
  pub count_documents : World → Option ℕ × World
  pub stored_revisions : String → List ℕ → World → Option (List (ℕ × ℕ)) × World
  pub extracts : List String → World → Option (List Extract) × World
  pub unembedded_chunks : EvidenceCursor → ℕ → World → Option (List (ContentChunk Value)) × World
  pub embed_documents : List Bytes → World → Option (List (List Value)) × World
  pub trim_documents : List EvidenceTrim → World → Bool × World
  pub upsert_chunks : List (ContentChunk Value) → World → Bool × World
  pub delete_by_title : String → List String → World → Bool × World
  pub set_chunk_embeddings : List (ContentChunk Value) → World → Bool × World
  pub set_sync_state : EvidenceSyncState → World → Bool × World

-- The world, and the writes so far, the latest first.
pub record Session (Value World : Type 0) : Type 0 where
  pub world : World
  pub writes : List (Write Value)

-- `stored[id]`
unfoldable pub revision_of : ℕ → List (ℕ × ℕ) → Option ℕ
revision_of id [] = none
revision_of id ((page, revision) ∷ stored) =
    if page == id then some revision else revision_of id stored

-- Whether the stored revision of the page is the reported one.
unfoldable pub is_current : List (ℕ × ℕ) → Change → Bool
unfolding revision_of
is_current stored ch = elim (revision_of ch.page_id stored) [
  | none ↦ false
  | some revision ↦ revision == ch.revision_id
]

-- The page ids that `unchangedFiltered` asks for.
unfoldable pub asked_pages : Dict Change → List ℕ
asked_pages [] = []
asked_pages (e ∷ edits) =
    let others = asked_pages edits in if ltb 0 e.1.page_id then e.1.page_id ∷ others else others

-- `unchangedFiltered`: the titles to fetch again, and how many are skipped.
unfoldable pub unchanged_filtered : List (ℕ × ℕ) → Dict Change → List String × ℕ
unfolding is_current
unchanged_filtered stored [] = ([], 0)
unchanged_filtered stored (e ∷ edits) =
    let rest = unchanged_filtered stored edits in
    if is_current stored e.1 then (rest.0, suc rest.1) else (e.0 ∷ rest.0, rest.1)

-- The items in groups of `size`, the last one perhaps shorter; `group` is the open one.
unfoldable pub grouped : {A : Type 0} → ℕ → List A → List A → List (List A)
grouped size [] [] = []
grouped size (g ∷ group) [] = (g ∷ group) ∷ []
grouped size group (x ∷ xs) =
    let longer = group ++ x ∷ [] in
    let full = leb size (length longer) in
    let rest = grouped size (if full then [] else longer) xs in if full then longer ∷ rest else rest

-- The vectors written back onto their chunks.
unfoldable pub with_vectors :
    {Value : Type 0} → List (ContentChunk Value) → List (List Value) → List (ContentChunk Value)
with_vectors [] vectors = []
with_vectors (c ∷ chunks) [] = c ∷ chunks
with_vectors (c ∷ chunks) (vec ∷ vectors) =
    record c { embedding = vec } ∷ with_vectors chunks vectors

-- The position of the last chunk.
unfoldable pub cursor_of :
    {Value : Type 0} → ContentChunk Value → List (ContentChunk Value) → EvidenceCursor
cursor_of c [] = record {
  source = c.source;
  external_id = c.external_id;
  chunk_index = c.chunk_index;
}
cursor_of c (d ∷ chunks) = cursor_of d chunks

abbrev pub first_cursor : EvidenceCursor
first_cursor = record { source = ""; external_id = ""; chunk_index = pos 0 }

-- 24 hours
abbrev pub day : ℕ
day = 86400000000000

abbrev pub no_stats : DeltaStats
no_stats = record { changed = 0; skipped = 0; deleted = 0; embedded = 0; recommend_bulk = false }

-- What `buildDeltaChunks` returns.
pub record Built (Value : Type 0) : Type 0 where
  pub chunks : List (ContentChunk Value)
  pub trims : List EvidenceTrim
  pub missing : List String
