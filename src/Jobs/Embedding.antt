-- ===== src/Jobs/Embedding.antt =====
-- The embedding worker of stack/backend/internal/embedjob/embedjob.go: one batch of deliveries.
pub mod Splitting
pub mod Settling
pub mod Faults
pub mod Drops
pub mod Retries
mod Messages
unfoldable pub use Messages.*
use truth_in_stream.Prelude.{
  ℕ, zero, suc, ◌-◌, String, Bool, true, false, List, [], ◌∷◌, ◌++◌, map, length, Option, none,
  some, if◌then◌else◌, ltb, ◌==◌, ◌=?◌, ℤ, pos, is_negative, le_int, next_int,
}
use truth_in_stream.Corpus.{EvidenceChunk, embedding_dim}
use truth_in_stream.Jobs.Broker.{
  Delivery, Fate, ack_it, republish_it, requeue_it, Env, State, knows_version, ack, nack, embed,
  set_embeddings, apply_fate,
}

module _ {Value Body World : Type 0} (env : Env Value Body World) (json : Json Body)
    (w : WorkerConfig) where
  unfoldable pub after_failure : Job → ℕ → State Value Body World → Fate Body
  after_failure job priority s =
      if env.done s.world
      then requeue_it
      else if le_int (pos (w.max_attempts - 1)) job.attempt
      then ack_it
      else elim (json.marshal (retry_of json job)) [
        | none ↦ ack_it
        | some encoded ↦ republish_it encoded priority
      ]

  unfoldable pub write_chunk :
      Job → ℕ → List Value → State Value Body World → Fate Body × State Value Body World
  unfolding set_embeddings after_failure
  write_chunk job priority vec s =
      let r = set_embeddings env job.staging (chunk_of job vec ∷ []) s in
      elim r.0 [ none ↦ (after_failure job priority r.1, r.1) | some matched ↦ (ack_it, r.1) ]

  unfoldable pub embed_and_write :
      Job → ℕ → State Value Body World → Fate Body × State Value Body World
  unfolding embed after_failure only_vector write_chunk
  embed_and_write job priority s =
      let r = embed env (job.content ∷ []) s in
      elim r.0 [
        | none ↦ (after_failure job priority r.1, r.1)
        | some vectors ↦ elim (only_vector vectors) [
          | none ↦ (ack_it, r.1)
          | some vec ↦ write_chunk job priority vec r.1
        ]
      ]

  -- `Process`
  unfoldable pub process : Body → ℕ → State Value Body World → Fate Body × State Value Body World
  unfolding decode embed_and_write
  process body priority s = elim (decode json body) [
    | none ↦ (ack_it, s)
    | some job ↦ embed_and_write job priority s
  ]

  -- `requeueAll`
  unfoldable pub requeue_all :
      List (Delivery Body) → State Value Body World → State Value Body World
  unfolding nack
  requeue_all [] s = s
  requeue_all (d ∷ ds) s = requeue_all ds (nack env d s)

  -- `requeueItems`
  unfoldable pub requeue_items :
      List (Pending Body) → State Value Body World → State Value Body World
  unfolding nack
  requeue_items [] s = s
  requeue_items (p ∷ ps) s = requeue_items ps (nack env p.d s)

  unfoldable pub ack_items : List (Pending Body) → State Value Body World → State Value Body World
  unfolding ack
  ack_items [] s = s
  ack_items (p ∷ ps) s = ack_items ps (ack env p.d s)

  -- One delivery of the first loop of `processBatch`: an item, or none for one that is dropped.
  unfoldable pub admit :
      Delivery Body → State Value Body World → Option (Pending Body) × State Value Body World
  unfolding knows_version decode ack
  admit d s =
      if knows_version w.known_versions d.version
      then elim (decode json d.body) [
        | none ↦ (none, ack env d s)
        | some job ↦ (some (record { d = d; job = job }), s)
      ]
      else (none, ack env d s)

  abbrev pub add_item : Option (Pending Body) → List (Pending Body) → List (Pending Body)
  add_item none items = items
  add_item (some p) items = p ∷ items

  unfoldable pub admit_all :
      List (Delivery Body) → State Value Body World → List (Pending Body) × State Value Body World
  unfolding admit
  admit_all [] s = ([], s)
  admit_all (d ∷ ds) s =
      let r = admit d s in let rest = admit_all ds r.1 in (add_item r.0 rest.0, rest.1)

  -- The loop that a failed embedding of the whole batch falls back to.
  unfoldable pub one_by_one : List (Pending Body) → State Value Body World → State Value Body World
  unfolding embed_and_write apply_fate
  one_by_one [] s = s
  one_by_one (p ∷ ps) s =
      let r = embed_and_write p.job p.d.priority s in one_by_one ps (apply_fate env p.d r.0 r.1)

  -- `good`, `live` and `staging`
  pub record Sorted : Type 0 where
    pub good : List (Pending Body)
    pub live : List (EvidenceChunk String Value)
    pub staging : List (EvidenceChunk String Value)

  abbrev pub add_good : Pending Body → List Value → Sorted → Sorted
  add_good p vec rest =
      let chunk = chunk_of p.job vec in
      if p.job.staging
      then record { good = p ∷ rest.good; live = rest.live; staging = chunk ∷ rest.staging }
      else record { good = p ∷ rest.good; live = chunk ∷ rest.live; staging = rest.staging }

  -- The loop over the items and their vectors; an item without a vector has a nil one.
  unfoldable pub sort_vectors :
      List (Pending Body)
      → List (List Value)
      → State Value Body World
      → Sorted × State Value Body World
  unfolding ack
  sort_vectors [] vectors s = (record { good = []; live = []; staging = [] }, s)
  sort_vectors (p ∷ ps) [] s = sort_vectors ps [] (ack env p.d s)
  sort_vectors (p ∷ ps) (vec ∷ vectors) s =
      let rest = sort_vectors ps vectors (if is_vector vec then s else ack env p.d s) in
      ((if is_vector vec then add_good p vec rest.0 else rest.0), rest.1)

  -- A half of `writeChunks`: nothing is written where there is nothing to write.
  unfoldable pub write_half :
      Bool
      → List (EvidenceChunk String Value)
      → State Value Body World
      → Option ℕ × State Value Body World
  unfolding set_embeddings
  write_half staging [] s = (some 0, s)
  write_half staging (c ∷ cs) s = set_embeddings env staging (c ∷ cs) s

  -- `writeChunks`, without the number of rows, which is only logged
  unfoldable pub write_chunks : Sorted → State Value Body World → Bool × State Value Body World
  unfolding write_half
  write_chunks sorted s =
      let r = write_half false sorted.live s in
      elim r.0 [
        | none ↦ (false, r.1)
        | some n ↦
            let q = write_half true sorted.staging r.1 in
            elim q.0 [ none ↦ (false, q.1) | some m ↦ (true, q.1) ]
      ]

  -- The loop after a write of the batch that failed.
  unfoldable pub fail_all : List (Pending Body) → State Value Body World → State Value Body World
  unfolding after_failure apply_fate
  fail_all [] s = s
  fail_all (p ∷ ps) s = fail_all ps (apply_fate env p.d (after_failure p.job p.d.priority s) s)

  unfoldable pub finish :
      List (Pending Body) → Bool × State Value Body World → State Value Body World
  unfolding requeue_items fail_all ack_items
  finish good (true, s) = ack_items good s
  finish good (false, s) = if env.done s.world then requeue_items good s else fail_all good s

  unfoldable pub write_sorted : Sorted × State Value Body World → State Value Body World
  unfolding write_chunks finish
  write_sorted (sorted, s) = elim sorted.good [
    | [] ↦ s
    | p ∷ ps ↦ finish (p ∷ ps) (write_chunks sorted s)
  ]

  abbrev pub texts_of : List (Pending Body) → List String
  texts_of = map (λ p. p.job.content)

  unfoldable pub embed_items : List (Pending Body) → State Value Body World → State Value Body World
  unfolding embed one_by_one requeue_items sort_vectors write_sorted
  embed_items [] s = s
  embed_items (p ∷ ps) s =
      let items = p ∷ ps in
      let r = embed env (texts_of items) s in
      elim r.0 [
        | none ↦ if env.done r.1.world then requeue_items items r.1 else one_by_one items r.1
        | some vectors ↦ write_sorted (sort_vectors items vectors r.1)
      ]

  unfoldable pub process_batch :
      List (Delivery Body) → State Value Body World → State Value Body World
  unfolding admit_all embed_items
  process_batch ds s = let r = admit_all ds s in embed_items r.0 r.1
