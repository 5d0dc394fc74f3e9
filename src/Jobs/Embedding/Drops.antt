-- ===== src/Jobs/Embedding/Drops.antt =====
-- Why the worker of stack/backend/internal/embedjob acknowledges a delivery, which drops it.
pub mod Singles
pub mod Sifting
pub mod Batches
use truth_in_stream.Prelude.{
  ℕ, ◌-◌, String, Bool, true, false, List, [], ◌∷◌, map, All, All-map, Some, Option, none, some,
  Option-cases, if◌then◌else◌, ℤ, pos, le_int, arith, ◌≡◌, ◌≢◌, length, next_int, refl, sym, ap,
  ◌∙◌, Bool-cases, ◌⊎◌, inl, inr,
}
use truth_in_stream.Corpus.{EvidenceChunk, embedding_dim}
use truth_in_stream.Jobs.Broker.{
  Delivery, Fate, ack_it, republish_it, requeue_it, Env, Effect, answered, unanswered, stored,
  unstored, upserted, unupserted, republished, acked, nacked, State, knows_version, ack, nack,
  embed, set_embeddings, enqueue, apply_fate,
}
use truth_in_stream.Jobs.Embedding.Faults.{IsUnknown, IsUnreadable, IsAnswer}
use truth_in_stream.Jobs.Embedding.Splitting.{add_good-good}
use truth_in_stream.Jobs.Embedding.{
  WorkerConfig, Job, Json, chunk_of, retry_of, Pending, decode, embed_and_write, write_chunk,
  only_vector, is_vector, requeue_all, requeue_items, ack_items, admit, admit_all, add_item,
  one_by_one, Sorted, add_good, sort_vectors, write_half, write_chunks, fail_all, finish,
  write_sorted, embed_items, process_batch, texts_of, after_failure,
}

abbrev pub Proper : {Body : Type 0} → Json Body → Pending Body → Type 0
Proper json p = decode json p.d.body ≡ some p.job

module _ {Value Body : Type 0} (json : Json Body) (w : WorkerConfig) where
  -- The chunk of the job, with a vector of the right length.
  abbrev pub IsChunkOf : Job → EvidenceChunk String Value → Type 0
  IsChunkOf job c =
      (vec : List Value) × (length vec ≡ embedding_dim)
      × (c ≡ record {
        source = job.source;
        external_id = job.external_id;
        chunk_index = job.chunk_index;
        title = "";
        url = "";
        content = job.content;
        kind = "";
        metadata = none;
        embedding = vec;
      })

  -- A write to the corpus that the job is for held its chunk, with a vector of the right length.
  abbrev pub Stores : Job → Effect Value Body → Type 0
  Stores job (stored staging chunks) = (staging ≡ job.staging) × Some (IsChunkOf job) chunks
  Stores job _ = ⊥

  -- The job was sent for another try, its attempt counted, at the priority that it had.
  abbrev pub Resends : Job → ℕ → Effect Value Body → Type 0
  Resends job priority (republished body p) =
      (p ≡ priority) × (json.marshal (record job { attempt = next_int job.attempt }) ≡ some body)
  Resends job priority _ = ⊥

  -- The vector in the place of this text is missing or has a wrong length.
  abbrev pub Lacks : String → List String → List (List Value) → Type 0
  Lacks content [] vectors = ⊥
  Lacks content (t ∷ ts) [] = (t ≡ content) ⊎ Lacks content ts []
  Lacks content (t ∷ ts) (vec ∷ vectors) =
      ((t ≡ content) × (length vec ≢ embedding_dim)) ⊎ Lacks content ts vectors

  -- The client answered this text with a wrong shape.
  abbrev pub Misshapes : String → Effect Value Body → Type 0
  Misshapes content (answered texts vectors) =
      Lacks content texts vectors ⊎ ((texts ≡ content ∷ []) × ¬ IsAnswer vectors)
  Misshapes content _ = ⊥

  -- The latest answer of the client was for texts with this one.
  abbrev pub Asked : String → List (Effect Value Body) → Type 0
  Asked content [] = ⊥
  Asked content (answered texts vectors ∷ t) = Some (λ text. text ≡ content) texts
  Asked content (unanswered texts ∷ t) = ⊥
  Asked content (_ ∷ t) = Asked content t

  -- A try with this text failed: the client did not answer for it, or a write failed after the
  -- latest answer of the client, which was for texts with this one.
  abbrev pub Failed : String → List (Effect Value Body) → Type 0
  Failed content [] = ⊥
  Failed content (unanswered texts ∷ t) = (texts ≡ content ∷ []) ⊎ Failed content t
  Failed content (unstored staging chunks ∷ t) = Asked content t ⊎ Failed content t
  Failed content (_ ∷ t) = Failed content t

  -- Why a delivery may be acknowledged after these effects, `done` being whether the context is done.
  pub data Reason (d : Delivery Body) (done : Bool) (t : List (Effect Value Body)) : Type 0 where
    unknown_version : IsUnknown w.known_versions d.version → Reason d done t
    unreadable : IsUnreadable json d.body → Reason d done t
    written : (job : Job) → decode json d.body ≡ some job → Some (Stores job) t → Reason d done t
    resent :
        (job : Job)
        → decode json d.body ≡ some job
        → le_int (pos (w.max_attempts - 1)) job.attempt ≡ false
        → Failed job.content t
        → Some (Resends job d.priority) t
        → Reason d done t
    misshapen :
        (job : Job)
        → decode json d.body ≡ some job
        → Some (Misshapes job.content) t
        → Reason d done t
    spent :
        (job : Job)
        → decode json d.body ≡ some job
        → le_int (pos (w.max_attempts - 1)) job.attempt ≡ true
        → Failed job.content t
        → done ≡ false
        → Reason d done t
    unencodable :
        (job : Job)
        → decode json d.body ≡ some job
        → le_int (pos (w.max_attempts - 1)) job.attempt ≡ false
        → Failed job.content t
        → done ≡ false
        → json.marshal (record job { attempt = next_int job.attempt }) ≡ none
        → Reason d done t

  -- Every acknowledgement has its reason in the effects before it.
  abbrev pub Sound : List (Effect Value Body) → Type 0
  Sound [] = Unit
  Sound (acked d done ∷ t) = Reason d done t × Sound t
  Sound (nacked d ∷ t) = Sound t
  Sound (answered texts vectors ∷ t) = Sound t
  Sound (unanswered texts ∷ t) = Sound t
  Sound (stored staging chunks ∷ t) = Sound t
  Sound (unstored staging chunks ∷ t) = Sound t
  Sound (upserted chunk ∷ t) = Sound t
  Sound (unupserted chunk ∷ t) = Sound t
  Sound (republished body priority ∷ t) = Sound t

  pub Failed-grow :
      (e : Effect Value Body) (content : String) (t : List (Effect Value Body))
      → Failed content t
      → Failed content (e ∷ t)
  Failed-grow (unanswered texts) content t h = inr h
  Failed-grow (unstored staging chunks) content t h = inr h
  Failed-grow (answered texts vectors) content t h = h
  Failed-grow (stored staging chunks) content t h = h
  Failed-grow (upserted chunk) content t h = h
  Failed-grow (unupserted chunk) content t h = h
  Failed-grow (republished body priority) content t h = h
  Failed-grow (acked d done) content t h = h
  Failed-grow (nacked d) content t h = h

  pub grow :
      (e : Effect Value Body) (d : Delivery Body) (done : Bool) (t : List (Effect Value Body))
      → Reason d done t
      → Reason d done (e ∷ t)
  grow e d done t (unknown_version h) = unknown_version h
  grow e d done t (unreadable h) = unreadable h
  grow e d done t (written job h k) = written job h (inr k)
  grow e d done t (resent job h l f k) = resent job h l (Failed-grow e job.content t f) (inr k)
  grow e d done t (misshapen job h k) = misshapen job h (inr k)
  grow e d done t (spent job h l f k) = spent job h l (Failed-grow e job.content t f) k
  grow e d done t (unencodable job h l f k m) =
      unencodable job h l (Failed-grow e job.content t f) k m

  -- The action is fit for the delivery after these effects.
  abbrev pub Fits : Pending Body → Bool → List (Effect Value Body) → Fate Body → Type 0
  Fits p done t ack_it = Reason p.d done t
  Fits p done t (republish_it body priority) =
      (priority ≡ p.d.priority)
      × (le_int (pos (w.max_attempts - 1)) p.job.attempt ≡ false)
      × Failed p.job.content t
      × (json.marshal (retry_of json p.job) ≡ some body)
  Fits p done t requeue_it = Unit

  module _ {World : Type 0} (env : Env Value Body World) where
    abbrev pub IsSound : State Value Body World → Type 0
    IsSound s = Sound s.trace

    pub after_failure-Fits :
        (p : Pending Body) (s : State Value Body World) (t : List (Effect Value Body))
        → Proper json p
        → Failed p.job.content t
        → Fits p (env.done s.world) t (after_failure env json w p.job p.d.priority s)
    unfolding after_failure
    after_failure-Fits p s t h tried = elim (Bool-cases (env.done s.world)) [
      | inl e ↦ rw e tt
      | inr e ↦ rw e (elim (Bool-cases (le_int (pos (w.max_attempts - 1)) p.job.attempt)) [
        | inl f ↦ rw f (spent p.job h f tried refl)
        | inr f ↦ rw f (elim (Option-cases (json.marshal (retry_of json p.job))) [
          | inl g ↦ rw g (unencodable p.job h f tried refl g)
          | inr (body, g) ↦ rw g (refl, f, tried, g)
        ])
      ])
    ]

    pub apply_fate-Sound :
        (p : Pending Body) (f : Fate Body) (s : State Value Body World)
        → Proper json p
        → Fits p (env.done s.world) s.trace f
        → IsSound s
        → IsSound (apply_fate env p.d f s)
    unfolding apply_fate
    apply_fate-Sound p ack_it s h fits sound = (fits, sound)
    apply_fate-Sound p requeue_it s h fits sound = sound
    apply_fate-Sound p (republish_it body priority) s h (same, left, tried, coded) sound =
        elim (Bool-cases (env.enqueue body priority s.world).0) [
          | inl e ↦ rw e (resent p.job h left tried (inl (same, coded)), sound)
          | inr e ↦ rw e sound
        ]

    -- What failed before the end of a delivery failed before what follows.
    pub apply_fate-Failed :
        (d : Delivery Body) (f : Fate Body) (s : State Value Body World) (content : String)
        → Failed content s.trace
        → Failed content (apply_fate env d f s).trace
    unfolding apply_fate
    apply_fate-Failed d ack_it s content h = h
    apply_fate-Failed d requeue_it s content h = h
    apply_fate-Failed d (republish_it body priority) s content h =
        elim (Bool-cases (env.enqueue body priority s.world).0) [ inl e ↦ rw e h | inr e ↦ rw e h ]
