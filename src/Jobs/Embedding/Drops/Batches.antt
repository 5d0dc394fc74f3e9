-- ===== src/Jobs/Embedding/Drops/Batches.antt =====
-- Dropped deliveries of stack/backend/internal/embedjob: a whole batch.
use truth_in_stream.Prelude.{
  ℕ, String, Bool, true, false, List, [], ◌∷◌, All, All-map, Some, none, some, Option-cases, ◌≡◌,
  refl, sym, Bool-cases, inl, inr,
}
use truth_in_stream.Corpus.{EvidenceChunk}
use truth_in_stream.Jobs.Broker.{Delivery, Env, State, embed}
use truth_in_stream.Jobs.Embedding.{
  WorkerConfig, Job, Json, Pending, admit_all, Sorted, sort_vectors, write_half, write_chunks,
  finish, write_sorted, embed_items, process_batch, texts_of,
}
use truth_in_stream.Jobs.Broker.Settling.{embed-trace, set_embeddings-trace}
use truth_in_stream.Jobs.Embedding.Drops.{
  Proper, IsChunkOf, Asked, Failed, Stores, Reason, Sound, IsSound, written,
}
use truth_in_stream.Jobs.Embedding.Drops.Singles.{
  one_by_one-Sound, fail_all-Sound, requeue_items-Sound, ack_items-Sound,
}
use truth_in_stream.Jobs.Embedding.Drops.Sifting.{admit_all-Sound, Has, sort_vectors-Sifted}

module _ {Value Body World : Type 0} (json : Json Body) (w : WorkerConfig)
    (env : Env Value Body World) where
  write_half-Stores :
      (staging : Bool) (chunks : List (EvidenceChunk String Value)) (s : State Value Body World)
      → IsSound json w env s
      → let r = write_half env json w staging chunks s in
        Sound json w r.1.trace
        × ((job : Job) → Some (Stores json w job) s.trace → Some (Stores json w job) r.1.trace)
        × ((n : ℕ)
            → r.0 ≡ some n
            → (job : Job) → job.staging ≡ staging
            → Some (IsChunkOf json w job) chunks
            → Some (Stores json w job) r.1.trace)
  unfolding write_half
  write_half-Stores staging [] s sound = (sound, (λ job h. h), λ n e job f h. absurd h)
  write_half-Stores staging (c ∷ cs) s sound = elim (set_embeddings-trace env staging (c ∷ cs) s) [
    | inl (e, t) ↦ (rw t sound, (λ job h. rw t (inr h)), λ n f job g h. cc)
    | inr (m, e, t) ↦ (rw t sound, (λ job h. rw t (inr h)), λ n f job g h. rw t (inl (sym g, h)))
  ]

  write_chunks-Stores :
      (sorted : Sorted env json w) (s : State Value Body World)
      → IsSound json w env s
      → let r = write_chunks env json w sorted s in
        Sound json w r.1.trace
        × (r.0 ≡ true
            → (p : Pending Body) → Has json w env sorted p
            → Some (Stores json w p.job) r.1.trace)
  unfolding write_chunks
  write_chunks-Stores sorted s sound =
      let r = write_half env json w false sorted.live s in
      let first = write_half-Stores false sorted.live s sound in
      elim (Option-cases r.0) [
        | inl e ↦ rw (e, write_chunks) (first.0, λ h. cc)
        | inr (n, e) ↦
            rw (e, write_chunks)
              (let second = write_half-Stores true sorted.staging r.1 first.0 in
                elim (Option-cases (write_half env json w true sorted.staging r.1).0) [
                  | inl f ↦ rw (f, write_chunks) (second.0, λ h. cc)
                  | inr (m, f) ↦
                      rw (f, write_chunks)
                        (
                          second.0,
                          λ h p has. elim (Bool-cases p.job.staging) [
                            | inl g ↦ second.2 m f p.job g (rw g at has)
                            | inr g ↦ second.1 p.job (first.2 n e p.job g (rw g at has))
                          ],
                        )
                ])
      ]

  write_half-Failed :
      (staging : Bool) (chunks : List (EvidenceChunk String Value)) (s : State Value Body World)
      (content : String)
      → Asked json w content s.trace
      → let r = write_half env json w staging chunks s in
        Asked json w content r.1.trace × (r.0 ≡ none → Failed json w content r.1.trace)
  unfolding write_half
  write_half-Failed staging [] s content asked = (asked, λ h. cc)
  write_half-Failed staging (c ∷ cs) s content asked =
      elim (set_embeddings-trace env staging (c ∷ cs) s) [
        | inl (e, t) ↦ (rw t asked, λ h. rw t (inl asked))
        | inr (m, e, t) ↦ (rw t asked, λ h. cc)
      ]

  -- Where a write fails, the tries of all the texts that were answered fail.
  write_chunks-Failed :
      (sorted : Sorted env json w) (s : State Value Body World) (content : String)
      → Asked json w content s.trace
      → let r = write_chunks env json w sorted s in r.0 ≡ false → Failed json w content r.1.trace
  unfolding write_chunks
  write_chunks-Failed sorted s content asked =
      let r = write_half env json w false sorted.live s in
      let first = write_half-Failed false sorted.live s content asked in
      elim (Option-cases r.0) [
        | inl e ↦ rw (e, write_chunks) (λ h. first.1 e)
        | inr (n, e) ↦
            rw (e, write_chunks)
              (let second = write_half-Failed true sorted.staging r.1 content first.0 in
                elim (Option-cases (write_half env json w true sorted.staging r.1).0) [
                  | inl f ↦ rw (f, write_chunks) (λ h. second.1 f)
                  | inr (m, f) ↦ rw (f, write_chunks) (λ h. cc)
                ])
      ]

  finish-Sound :
      (good : List (Pending Body)) (written_all : Bool) (s : State Value Body World)
      → All (Proper json) good
      → (written_all ≡ true → All (λ p. Some (Stores json w p.job) s.trace) good)
      → (written_all ≡ false → All (λ p. Failed json w p.job.content s.trace) good)
      → IsSound json w env s
      → IsSound json w env (finish env json w good (written_all, s))
  unfolding finish
  finish-Sound good true s h stores fails sound =
      ack_items-Sound json w env good s (reasons good h (stores refl)) sound
    where
      reasons :
          (ps : List (Pending Body))
          → All (Proper json) ps
          → All (λ p. Some (Stores json w p.job) s.trace) ps
          → All (λ p. (done : Bool) → Reason json w p.d done s.trace) ps
      reasons [] h k = tt
      reasons (p ∷ ps) h k = ((λ done. written p.job h.0 k.0), reasons ps h.1 k.1)
  finish-Sound good false s h stores fails sound = elim (Bool-cases (env.done s.world)) [
    | inl e ↦ rw e (requeue_items-Sound json w env good s sound)
    | inr e ↦ rw e (fail_all-Sound json w env good s h (fails refl) sound)
  ]

  write_good :
      (sorted : Sorted env json w) (s : State Value Body World) (good : List (Pending Body))
      → All (Proper json) good
      → All (Has json w env sorted) good
      → All (λ p. Asked json w p.job.content s.trace) good
      → IsSound json w env s
      → IsSound json w env (elim good as (λ _. State Value Body World) [
        | [] ↦ s
        | p ∷ ps ↦ finish env json w (p ∷ ps) (write_chunks env json w sorted s)
      ])
  write_good sorted s [] h has asked sound = sound
  write_good sorted s (p ∷ ps) h has asked sound =
      let r = write_chunks env json w sorted s in
      let wrote = write_chunks-Stores sorted s sound in
      finish-Sound (p ∷ ps) r.0 r.1 h
        (λ e.
          All-map (Has json w env sorted) (λ q. Some (Stores json w q.job) r.1.trace) (p ∷ ps)
            (wrote.1 e) has)
        (λ e.
          All-map (λ q. Asked json w q.job.content s.trace)
            (λ q. Failed json w q.job.content r.1.trace) (p ∷ ps)
            (λ q k. write_chunks-Failed sorted s q.job.content k e) asked)
        wrote.0

  embed_items-Sound :
      (items : List (Pending Body)) (s : State Value Body World)
      → All (Proper json) items
      → IsSound json w env s
      → IsSound json w env (embed_items env json w items s)
  unfolding embed_items write_sorted
  embed_items-Sound [] s h sound = sound
  embed_items-Sound (p ∷ ps) s h sound =
      let items = p ∷ ps in
      let texts = texts_of env json w items in
      let r = embed env texts s in
      elim (embed-trace env texts s) [
        | inl (e, t) ↦
            rw (e, embed_items)
              (elim (Bool-cases (env.done r.1.world)) [
                | inl f ↦ rw f (requeue_items-Sound json w env items r.1 (rw t sound))
                | inr f ↦ rw f (one_by_one-Sound json w env items r.1 h (rw t sound))
              ])
        | inr (vectors, e, t) ↦
            rw (e, embed_items)
              (let q = sort_vectors env json w items vectors r.1 in
                let k =
                  sort_vectors-Sifted json w env items vectors r.1 h
                    (λ c lacks. rw t (inl (inl lacks))) (λ c k. rw t k) (rw t sound) in
                write_good q.0 q.1 q.0.good k.proper k.held k.asked k.sound)
      ]

  -- From a trace in which every acknowledgement has its reason, a batch leads to such a trace.
  -- So a delivery is dropped only when its version is not known; when its body is no valid job;
  -- after a write, to the corpus that the job is for, that held its chunk with a vector of the
  -- right length; after the client answered its text with a wrong shape; or after a try with its
  -- text failed, when its job, with the attempt counted, was republished at the same priority, or
  -- when, in a context that is not done, its attempts are spent or its retry cannot be encoded.
  pub process_batch-Sound :
      (ds : List (Delivery Body)) (s : State Value Body World)
      → Sound json w s.trace
      → Sound json w (process_batch env json w ds s).trace
  unfolding process_batch
  process_batch-Sound ds s sound =
      let r = admit_all env json w ds s in
      let k = admit_all-Sound json w env ds s sound in embed_items-Sound r.0 r.1 k.0 k.1
