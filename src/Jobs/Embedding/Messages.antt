-- ===== src/Jobs/Embedding/Messages.antt =====
-- The jobs of the embedding worker of stack/backend/internal/embedjob/embedjob.go, its configuration,
-- and what it makes of one message.
use truth_in_stream.Prelude.{
  ℕ, String, Bool, List, [], ◌∷◌, length, Option, none, some, if◌then◌else◌, ltb, ◌==◌, ◌=?◌, ℤ,
  is_negative, next_int,
}
use truth_in_stream.Corpus.{EvidenceChunk, embedding_dim}
use truth_in_stream.Jobs.Broker.{Delivery}

pub record Job : Type 0 where
  pub source : String
  pub external_id : String
  pub chunk_index : ℤ
  pub content : String
  pub attempt : ℤ
  pub staging : Bool

-- What `validate` rejects.
pub data Invalid : Type 0 where
  no_source no_external_id bad_index no_content bad_attempt : Invalid

-- `none` where the code returns no error
unfoldable pub validate : Job → Option Invalid
validate j =
    if j.source =? ""
    then some no_source
    else if j.external_id =? ""
    then some no_external_id
    else if is_negative j.chunk_index
    then some bad_index
    else if j.content =? ""
    then some no_content
    else if is_negative j.attempt
    then some bad_attempt
    else none

-- `Config` and `Worker`. Counts that are not positive are 0.
pub record WorkerConfig : Type 0 where
  pub concurrency : ℕ
  pub batch_size : ℕ
  pub batch_wait : ℕ
  pub max_attempts : ℕ
  pub known_versions : List String

-- 200 milliseconds
abbrev pub default_batch_wait : ℕ
default_batch_wait = 200000000

-- The clamping of `NewWorker`.
unfoldable pub new_worker : WorkerConfig → WorkerConfig
new_worker cfg = record {
  concurrency = if ltb cfg.concurrency 1 then 1 else cfg.concurrency;
  batch_size = if ltb cfg.batch_size 1 then 1 else cfg.batch_size;
  batch_wait = if cfg.batch_wait == 0 then default_batch_wait else cfg.batch_wait;
  max_attempts = if ltb cfg.max_attempts 1 then 1 else cfg.max_attempts;
  known_versions = cfg.known_versions;
}

-- `json.Unmarshal` and `json.Marshal` of a job
pub record Json (Body : Type 0) : Type 0 where
  pub unmarshal : Body → Option Job
  pub marshal : Job → Option Body

pub record Pending (Body : Type 0) : Type 0 where
  pub d : Delivery Body
  pub job : Job

module _ {Body : Type 0} (json : Json Body) where
  unfoldable pub valid_job : Job → Option Job
  unfolding validate
  valid_job job = elim (validate job) [ none ↦ some job | some e ↦ none ]

  unfoldable pub decode : Body → Option Job
  unfolding valid_job
  decode body = elim (json.unmarshal body) [ none ↦ none | some job ↦ valid_job job ]

  -- The job that is sent for another try.
  abbrev pub retry_of : Job → Job
  retry_of job = record job { attempt = next_int job.attempt }

module _ {Value : Type 0} where
  -- `domain.EvidenceChunk` as the worker fills it
  abbrev pub chunk_of : Job → List Value → EvidenceChunk String Value
  chunk_of job vec = record {
    source = job.source;
    external_id = job.external_id;
    chunk_index = job.chunk_index;
    title = "";
    url = "";
    content = job.content;
    kind = "";
    metadata = none;
    embedding = vec;
  }

  abbrev pub is_vector : List Value → Bool
  is_vector vec = length vec == embedding_dim

  -- The single vector of an answer for one text.
  unfoldable pub only_vector : List (List Value) → Option (List Value)
  only_vector [] = none
  only_vector (vec ∷ []) = if is_vector vec then some vec else none
  only_vector (vec ∷ other ∷ more) = none
