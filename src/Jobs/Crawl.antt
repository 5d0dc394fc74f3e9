-- ===== src/Jobs/Crawl.antt =====
-- The crawl worker of stack/backend/internal/crawljob/crawljob.go: self-contained chunk jobs.
pub mod Reasons
pub mod Drops
use truth_in_stream.Prelude.{
  ℕ, zero, suc, ◌-◌, String, Bool, true, false, not, List, [], ◌∷◌, itoa, Option, none, some,
  if◌then◌else◌, ltb, ◌=?◌, ℤ, pos, negsuc, is_negative, le_int, next_int,
}
use truth_in_stream.Corpus.{EvidenceChunk, WikiMetadata, valid_kind}
use truth_in_stream.Jobs.Broker.{
  Delivery, Fate, ack_it, republish_it, requeue_it, Env, State, knows_version, ack, embed, upsert,
  apply_fate,
}
use truth_in_stream.Jobs.Embedding.{only_vector}

pub record CrawlJob : Type 0 where
  pub page_id : ℤ
  pub chunk_index : ℤ
  pub title : String
  pub url : String
  pub revision_id : ℤ
  pub corpus : String
  pub content : String
  pub section : String
  pub kind : String
  pub attempt : ℤ

-- What `validate` rejects.
pub data CrawlFault : Type 0 where
  bad_page negative_index wide_index no_content no_corpus bad_kind bad_revision bad_attempt :
      CrawlFault

-- `math.MaxInt32`
abbrev pub max_int32 : ℤ
max_int32 = pos 2147483647

-- `none` where the code returns no error
unfoldable pub validate : CrawlJob → Option CrawlFault
unfolding valid_kind
validate j =
    if le_int j.page_id (pos 0)
    then some bad_page
    else if is_negative j.chunk_index
    then some negative_index
    else if not (le_int j.chunk_index max_int32)
    then some wide_index
    else if j.content =? ""
    then some no_content
    else if j.corpus =? ""
    then some no_corpus
    else if not (valid_kind j.kind)
    then some bad_kind
    else if is_negative j.revision_id
    then some bad_revision
    else if is_negative j.attempt
    then some bad_attempt
    else none

-- `strconv.FormatInt(n, 10)`
unfoldable pub format_int : ℤ → String
unfolding itoa
format_int (pos n) = itoa n
format_int (negsuc n) = String.◌∷◌ "-" (itoa (suc n))

-- `Config` and `Worker`. Counts that are not positive are 0.
pub record CrawlConfig : Type 0 where
  pub concurrency : ℕ
  pub max_attempts : ℕ
  pub known_versions : List String

-- The clamping of `NewWorker`.
unfoldable pub new_crawl_worker : CrawlConfig → CrawlConfig
new_crawl_worker cfg = record cfg {
  concurrency = if ltb cfg.concurrency 1 then 1 else cfg.concurrency;
  max_attempts = if ltb cfg.max_attempts 1 then 1 else cfg.max_attempts;
}

-- `json.Unmarshal` and `json.Marshal` of a job
pub record CrawlJson (Body : Type 0) : Type 0 where
  pub unmarshal : Body → Option CrawlJob
  pub marshal : CrawlJob → Option Body

unfoldable pub valid_job : CrawlJob → Option CrawlJob
unfolding validate
valid_job job = elim (validate job) [ none ↦ some job | some e ↦ none ]

-- The start of `Process`: the job of a body, if it is one and valid.
unfoldable pub decode : {Body : Type 0} → CrawlJson Body → Body → Option CrawlJob
unfolding valid_job
decode json body = elim (json.unmarshal body) [ none ↦ none | some job ↦ valid_job job ]

abbrev pub retry_of : CrawlJob → CrawlJob
retry_of job = record job { attempt = next_int job.attempt }

unfoldable pub chunk_of : {Value : Type 0} → CrawlJob → List Value → EvidenceChunk String Value
unfolding format_int
chunk_of job vec = record {
  source = job.corpus;
  external_id = format_int job.page_id;
  chunk_index = job.chunk_index;
  title = job.title;
  url = job.url;
  content = job.content;
  kind = job.kind;
  metadata = some (record { revision_id = job.revision_id; section = job.section });
  embedding = vec;
}

module _ {Value Body World : Type 0} (env : Env Value Body World) (json : CrawlJson Body)
    (w : CrawlConfig) where
  unfoldable pub after_failure : CrawlJob → ℕ → State Value Body World → Fate Body
  after_failure job priority s =
      if env.done s.world
      then requeue_it
      else if le_int (pos (w.max_attempts - 1)) job.attempt
      then ack_it
      else elim (json.marshal (retry_of job)) [
        | none ↦ ack_it
        | some encoded ↦ republish_it encoded priority
      ]

  -- The end of `Process`, after a vector of the right length.
  unfoldable pub upsert_job :
      CrawlJob → ℕ → List Value → State Value Body World → Fate Body × State Value Body World
  unfolding chunk_of upsert after_failure
  upsert_job job priority vec s =
      let r = upsert env (chunk_of job vec) s in
      if r.0 then (ack_it, r.1) else (after_failure job priority r.1, r.1)

  -- `Process`, after the job is decoded.
  unfoldable pub embed_and_upsert :
      CrawlJob → ℕ → State Value Body World → Fate Body × State Value Body World
  unfolding embed after_failure only_vector upsert_job
  embed_and_upsert job priority s =
      let r = embed env (job.content ∷ []) s in
      elim r.0 [
        | none ↦ (after_failure job priority r.1, r.1)
        | some vectors ↦ elim (only_vector vectors) [
          | none ↦ (ack_it, r.1)
          | some vec ↦ upsert_job job priority vec r.1
        ]
      ]

  unfoldable pub process : Body → ℕ → State Value Body World → Fate Body × State Value Body World
  unfolding decode embed_and_upsert
  process body priority s = elim (decode json body) [
    | none ↦ (ack_it, s)
    | some job ↦ embed_and_upsert job priority s
  ]

  unfoldable pub handle : Delivery Body → State Value Body World → State Value Body World
  unfolding knows_version ack process apply_fate
  handle d s =
      if knows_version w.known_versions d.version
      then (let r = process d.body d.priority s in apply_fate env d r.0 r.1)
      else ack env d s

  -- `Run`: `slots` holds, by the number of the delivery, whether a slot of the pool was free before
  -- the context was done. The deliveries that are left: the one that was received when it was not,
  -- which stays unacknowledged, and those after it. The handlers run here one after the other.
  unfoldable pub run_from :
      ℕ
      → (ℕ → Bool)
      → List (Delivery Body)
      → State Value Body World
      → State Value Body World × List (Delivery Body)
  unfolding handle
  run_from n slots [] s = (s, [])
  run_from n slots (d ∷ ds) s =
      let rest = run_from (suc n) slots ds (handle d s) in if slots n then rest else (s, d ∷ ds)
