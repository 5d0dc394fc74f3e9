-- ===== src/Jobs/Broker.antt =====
-- What the consumers of stack/backend/internal/embedjob/embedjob.go and crawljob/crawljob.go share:
-- deliveries, the calls that leave the process, and a trace of what they did.
pub mod Settling
use truth_in_stream.Prelude.{
  ℕ, zero, String, Bool, true, false, List, [], ◌∷◌, ◌++◌, any, Option, none, some, if◌then◌else◌,
  ◌=?◌,
}
use truth_in_stream.Corpus.{EvidenceChunk}

-- `Delivery`, without the methods that acknowledge it
pub record Delivery (Body : Type 0) : Type 0 where
  pub body : Body
  pub priority : ℕ
  pub version : String

-- `Action`, with the fields of `Result` that it goes with
pub data Fate (Body : Type 0) : Type 0 where
  ack_it : Fate Body
  republish_it : Body → ℕ → Fate Body
  requeue_it : Fate Body

-- The calls that leave the process. The write of chunks yields how many rows matched, or an error.
pub record Env (Value Body World : Type 0) : Type 0 where
  -- `ctx.Err() != nil`
  pub done : World → Bool
  -- `EmbedDocuments`
  pub embed_documents : List String → World → Option (List (List Value)) × World
  -- `SetStagingChunkEmbeddings` (true), `SetLiveChunkEmbeddings` (false)
  pub set_embeddings : Bool → List (EvidenceChunk String Value) → World → Option ℕ × World
  -- `UpsertEmbeddedChunk`: whether it succeeded
  pub upsert_chunk : EvidenceChunk String Value → World → Bool × World
  -- `Enqueue`: whether it succeeded
  pub enqueue : Body → ℕ → World → Bool × World
  -- `Ack` and `Nack(true)`, whose errors are only logged
  pub acknowledge : Delivery Body → World → World
  pub reject : Delivery Body → World → World

-- What a call did: an answer of the embedding client with the texts that were asked for, or its
-- failure; a write that succeeded or failed; a republished body; and the end of a delivery, where it
-- is acknowledged with whether the context was done by then.
pub data Effect (Value Body : Type 0) : Type 0 where
  answered : List String → List (List Value) → Effect Value Body
  unanswered : List String → Effect Value Body
  stored : Bool → List (EvidenceChunk String Value) → Effect Value Body
  unstored : Bool → List (EvidenceChunk String Value) → Effect Value Body
  upserted : EvidenceChunk String Value → Effect Value Body
  unupserted : EvidenceChunk String Value → Effect Value Body
  republished : Body → ℕ → Effect Value Body
  acked : Delivery Body → Bool → Effect Value Body
  nacked : Delivery Body → Effect Value Body

-- The world, and the effects so far, the latest first.
pub record State (Value Body World : Type 0) : Type 0 where
  pub world : World
  pub trace : List (Effect Value Body)

-- `knowsVersion`: no known versions is no check.
unfoldable pub knows_version : List String → String → Bool
knows_version [] version = true
knows_version (v ∷ vs) version = any (λ known. known =? version) (v ∷ vs)

module _ {Value Body World : Type 0} (env : Env Value Body World) where
  unfoldable pub ack : Delivery Body → State Value Body World → State Value Body World
  ack d s = record {
    world = env.acknowledge d s.world;
    trace = acked d (env.done s.world) ∷ s.trace;
  }

  unfoldable pub nack : Delivery Body → State Value Body World → State Value Body World
  nack d s = record { world = env.reject d s.world; trace = nacked d ∷ s.trace }

  unfoldable pub embed :
      List String → State Value Body World → Option (List (List Value)) × State Value Body World
  embed texts s =
      let r = env.embed_documents texts s.world in
      elim r.0 [
        | none ↦ (none, record { world = r.1; trace = unanswered texts ∷ s.trace })
        | some vectors ↦
            (some vectors, record { world = r.1; trace = answered texts vectors ∷ s.trace })
      ]

  unfoldable pub set_embeddings :
      Bool
      → List (EvidenceChunk String Value)
      → State Value Body World
      → Option ℕ × State Value Body World
  set_embeddings staging chunks s =
      let r = env.set_embeddings staging chunks s.world in
      elim r.0 [
        | none ↦ (none, record { world = r.1; trace = unstored staging chunks ∷ s.trace })
        | some matched ↦
            (some matched, record { world = r.1; trace = stored staging chunks ∷ s.trace })
      ]

  unfoldable pub upsert :
      EvidenceChunk String Value → State Value Body World → Bool × State Value Body World
  upsert chunk s =
      let r = env.upsert_chunk chunk s.world in
      if r.0
      then (true, record { world = r.1; trace = upserted chunk ∷ s.trace })
      else (false, record { world = r.1; trace = unupserted chunk ∷ s.trace })

  unfoldable pub enqueue : Body → ℕ → State Value Body World → Bool × State Value Body World
  enqueue body priority s =
      let r = env.enqueue body priority s.world in
      if r.0
      then (true, record { world = r.1; trace = republished body priority ∷ s.trace })
      else (false, record s { world = r.1 })

  -- `applyResult`, and the end of the crawl worker's `handle`
  unfoldable pub apply_fate :
      Delivery Body → Fate Body → State Value Body World → State Value Body World
  unfolding ack nack enqueue
  apply_fate d ack_it s = ack d s
  apply_fate d requeue_it s = nack d s
  apply_fate d (republish_it body priority) s =
      let r = enqueue body priority s in if r.0 then ack d r.1 else nack d r.1
