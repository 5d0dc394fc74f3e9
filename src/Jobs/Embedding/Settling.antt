-- ===== src/Jobs/Embedding/Settling.antt =====
-- Every delivery of a batch of stack/backend/internal/embedjob is acknowledged or given back once.
use mathlib.Core.List.Perm
use truth_in_stream.Prelude.{
  ℕ, String, Bool, true, false, List, [], ◌∷◌, Option-cases, ◌≡◌, refl, ◌∙◌, Bool-cases, inl, inr,
}
use truth_in_stream.Corpus.{EvidenceChunk}
use truth_in_stream.Jobs.Broker.{Delivery, Env, State, ack, nack, embed, set_embeddings, apply_fate}
use truth_in_stream.Jobs.Broker.Settling.{
  done_with, Settles, Settles-none, Settles-trans, embed-settled, set_embeddings-settled,
  ack-Settles, nack-Settles, apply_fate-Settles,
}
use truth_in_stream.Jobs.Embedding.{
  WorkerConfig, Job, Json, chunk_of, Pending, embed_and_write, write_chunk, only_vector,
  requeue_all, requeue_items, ack_items, admit_all, one_by_one, Sorted, sort_vectors, write_half,
  write_chunks, fail_all, finish, write_sorted, embed_items, process_batch, texts_of, after_failure,
}
use truth_in_stream.Jobs.Embedding.Splitting.{
  handles, Splits-Settles, admit_all-Splits, sort_vectors-Splits,
}

module _ {Value Body World : Type 0} (env : Env Value Body World) (json : Json Body)
    (w : WorkerConfig) where
  pub requeue_all-Settles :
      (ds : List (Delivery Body)) (s : State Value Body World)
      → Settles ds s (requeue_all env json w ds s)
  unfolding requeue_all
  requeue_all-Settles [] s = Perm.refl _
  requeue_all-Settles (d ∷ ds) s =
      Settles-trans (d ∷ []) ds s (nack env d s) (requeue_all env json w ds (nack env d s))
        (nack-Settles env d s) (requeue_all-Settles ds (nack env d s))

  requeue_items-Settles :
      (ps : List (Pending Body)) (s : State Value Body World)
      → Settles (handles ps) s (requeue_items env json w ps s)
  unfolding requeue_items
  requeue_items-Settles [] s = Perm.refl _
  requeue_items-Settles (p ∷ ps) s =
      Settles-trans (p.d ∷ []) (handles ps) s (nack env p.d s)
        (requeue_items env json w ps (nack env p.d s)) (nack-Settles env p.d s)
        (requeue_items-Settles ps (nack env p.d s))

  ack_items-Settles :
      (ps : List (Pending Body)) (s : State Value Body World)
      → Settles (handles ps) s (ack_items env json w ps s)
  unfolding ack_items
  ack_items-Settles [] s = Perm.refl _
  ack_items-Settles (p ∷ ps) s =
      Settles-trans (p.d ∷ []) (handles ps) s (ack env p.d s)
        (ack_items env json w ps (ack env p.d s)) (ack-Settles env p.d s)
        (ack_items-Settles ps (ack env p.d s))

  fail_all-Settles :
      (ps : List (Pending Body)) (s : State Value Body World)
      → Settles (handles ps) s (fail_all env json w ps s)
  unfolding fail_all
  fail_all-Settles [] s = Perm.refl _
  fail_all-Settles (p ∷ ps) s =
      let s' = apply_fate env p.d (after_failure env json w p.job p.d.priority s) s in
      Settles-trans (p.d ∷ []) (handles ps) s s' (fail_all env json w ps s')
        (apply_fate-Settles env p.d _ s) (fail_all-Settles ps s')

  write_chunk-settled :
      (job : Job) (priority : ℕ) (vec : List Value) (s : State Value Body World)
      → done_with (write_chunk env json w job priority vec s).1 ≡ done_with s
  unfolding write_chunk
  write_chunk-settled job priority vec s =
      let chunks = chunk_of job vec ∷ [] in
      let same = set_embeddings-settled env job.staging chunks s in
      elim (Option-cases (set_embeddings env job.staging chunks s).0) [
        | inl e ↦ rw (e, write_chunk) same
        | inr (n, e) ↦ rw (e, write_chunk) same
      ]

  embed_and_write-settled :
      (job : Job) (priority : ℕ) (s : State Value Body World)
      → done_with (embed_and_write env json w job priority s).1 ≡ done_with s
  unfolding embed_and_write
  embed_and_write-settled job priority s =
      let r = embed env (job.content ∷ []) s in
      let same = embed-settled env (job.content ∷ []) s in
      elim (Option-cases r.0) [
        | inl e ↦ rw (e, embed_and_write) same
        | inr (vectors, e) ↦
            rw (e, embed_and_write)
              (elim (Option-cases (only_vector vectors)) [
                | inl f ↦ rw (f, embed_and_write) same
                | inr (vec, f) ↦
                    rw (f, embed_and_write) (write_chunk-settled job priority vec r.1 ∙ same)
              ])
      ]

  one_by_one-Settles :
      (ps : List (Pending Body)) (s : State Value Body World)
      → Settles (handles ps) s (one_by_one env json w ps s)
  unfolding one_by_one
  one_by_one-Settles [] s = Perm.refl _
  one_by_one-Settles (p ∷ ps) s =
      let r = embed_and_write env json w p.job p.d.priority s in
      let s' = apply_fate env p.d r.0 r.1 in
      let quiet = Settles-none s r.1 (embed_and_write-settled p.job p.d.priority s) in
      Settles-trans (p.d ∷ []) (handles ps) s s' (one_by_one env json w ps s')
        (Settles-trans [] (p.d ∷ []) s r.1 s' quiet (apply_fate-Settles env p.d r.0 r.1))
        (one_by_one-Settles ps s')

  write_half-settled :
      (staging : Bool) (chunks : List (EvidenceChunk String Value)) (s : State Value Body World)
      → done_with (write_half env json w staging chunks s).1 ≡ done_with s
  unfolding write_half
  write_half-settled staging [] s = refl
  write_half-settled staging (c ∷ cs) s = set_embeddings-settled env staging (c ∷ cs) s

  write_chunks-settled :
      (sorted : Sorted env json w) (s : State Value Body World)
      → done_with (write_chunks env json w sorted s).1 ≡ done_with s
  unfolding write_chunks
  write_chunks-settled sorted s =
      let r = write_half env json w false sorted.live s in
      let same = write_half-settled false sorted.live s in
      elim (Option-cases r.0) [
        | inl e ↦ rw (e, write_chunks) same
        | inr (n, e) ↦
            rw (e, write_chunks)
              (let both = write_half-settled true sorted.staging r.1 ∙ same in
                elim (Option-cases (write_half env json w true sorted.staging r.1).0) [
                  | inl f ↦ rw (f, write_chunks) both
                  | inr (m, f) ↦ rw (f, write_chunks) both
                ])
      ]

  finish-Settles :
      (good : List (Pending Body)) (written : Bool) (s : State Value Body World)
      → Settles (handles good) s (finish env json w good (written, s))
  unfolding finish
  finish-Settles good true s = ack_items-Settles good s
  finish-Settles good false s = elim (Bool-cases (env.done s.world)) [
    | inl e ↦ rw e (requeue_items-Settles good s)
    | inr e ↦ rw e (fail_all-Settles good s)
  ]

  write_good :
      (sorted : Sorted env json w) (s : State Value Body World) (good : List (Pending Body))
      → Settles (handles good) s (elim good as (λ _. State Value Body World) [
        | [] ↦ s
        | p ∷ ps ↦ finish env json w (p ∷ ps) (write_chunks env json w sorted s)
      ])
  write_good sorted s [] = Perm.refl _
  write_good sorted s (p ∷ ps) =
      let r = write_chunks env json w sorted s in
      Settles-trans [] (handles (p ∷ ps)) s r.1 (finish env json w (p ∷ ps) r)
        (Settles-none s r.1 (write_chunks-settled sorted s)) (finish-Settles (p ∷ ps) r.0 r.1)

  write_sorted-Settles :
      (sorted : Sorted env json w) (s : State Value Body World)
      → Settles (handles sorted.good) s (write_sorted env json w (sorted, s))
  unfolding write_sorted
  write_sorted-Settles sorted s = write_good sorted s sorted.good

  embed_items-Settles :
      (items : List (Pending Body)) (s : State Value Body World)
      → Settles (handles items) s (embed_items env json w items s)
  unfolding embed_items
  embed_items-Settles [] s = Perm.refl _
  embed_items-Settles (p ∷ ps) s =
      let items = p ∷ ps in
      let r = embed env (texts_of env json w items) s in
      let quiet = Settles-none s r.1 (embed-settled env (texts_of env json w items) s) in
      Settles-trans [] (handles items) s r.1 (embed_items env json w items s) quiet
        (elim (Option-cases r.0) [
          | inl e ↦
              rw (e, embed_items)
                (elim (Bool-cases (env.done r.1.world)) [
                  | inl f ↦ rw f (requeue_items-Settles items r.1)
                  | inr f ↦ rw f (one_by_one-Settles items r.1)
                ])
          | inr (vectors, e) ↦
              rw (e, embed_items)
                (let q = sort_vectors env json w items vectors r.1 in
                  Splits-Settles (handles items) q.0.good r.1 q.1 (write_sorted env json w q)
                    (sort_vectors-Splits env json w items vectors r.1)
                    (write_sorted-Settles q.0 q.1))
        ])

  -- Processing a batch settles exactly its deliveries, whatever is answered.
  pub process_batch-Settles :
      (ds : List (Delivery Body)) (s : State Value Body World)
      → Settles ds s (process_batch env json w ds s)
  unfolding process_batch
  process_batch-Settles ds s =
      let r = admit_all env json w ds s in
      Splits-Settles ds r.0 s r.1 (embed_items env json w r.0 r.1)
        (admit_all-Splits env json w ds s) (embed_items-Settles r.0 r.1)
