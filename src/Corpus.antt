-- ===== src/Corpus.antt =====
-- The rows of the evidence corpus: stack/backend/internal/domain/evidence_chunk.go. `Text` is how
-- the contents are read, as strings or as bytes; `Value` is the type of float32.
use truth_in_stream.Prelude.{ℕ, String, List, Bool, ◌||◌, Option, ◌=?◌}
use truth_in_stream.Prelude.{ℤ}

-- `EvidenceChunkKind.Valid`, over the constants of the type
unfoldable pub valid_kind : String → Bool
valid_kind kind = (kind =? "lead") || (kind =? "body")

-- `WikiMetadata` as an ingestion writes it: the clustering outputs are still absent.
pub record WikiMetadata : Type 0 where
  pub revision_id : ℤ
  pub section : String

-- `EvidenceChunk`; its metadata is the payload of the wiki source or none.
pub record EvidenceChunk (Text Value : Type 0) : Type 0 where
  pub source : String
  pub external_id : String
  pub chunk_index : ℤ
  pub title : String
  pub url : String
  pub content : Text
  pub kind : String
  pub metadata : Option WikiMetadata
  pub embedding : List Value

-- Every chunk of the document with this index or a later one is stale.
pub record EvidenceTrim : Type 0 where
  pub source : String
  pub external_id : String
  pub from_index : ℕ

-- A keyset position; the zero value sorts before every chunk.
pub record EvidenceCursor : Type 0 where
  pub source : String
  pub external_id : String
  pub chunk_index : ℤ

-- The checkpoint of a source; its time is 0 until the first bulk run completes.
pub record EvidenceSyncState : Type 0 where
  pub source : String
  pub last_change_ts : ℕ
  pub dump_version : String

-- `EmbeddingDim` of domain/claim.go
abbrev pub embedding_dim : ℕ
embedding_dim = 1024
