-- ===== src/Jobs/Embedding/Drops/Singles.antt =====
-- Dropped deliveries of stack/backend/internal/embedjob: the fates of single jobs.
use truth_in_stream.Prelude.{
  Bool, true, List, [], ◌∷◌, All, All-map, some, Option-cases, arith, ◌≡◌, refl, inl, inr,
}
use truth_in_stream.Jobs.Broker.{Env, acked, State, ack, nack, embed, set_embeddings, apply_fate}
use truth_in_stream.Jobs.Embedding.{
  WorkerConfig, Json, chunk_of, Pending, embed_and_write, write_chunk, only_vector, is_vector,
  requeue_items, ack_items, one_by_one, fail_all, after_failure,
}
use truth_in_stream.Jobs.Broker.Settling.{embed-trace, set_embeddings-trace}
use truth_in_stream.Jobs.Embedding.Faults.{only_vector-IsAnswer, good_length}
use truth_in_stream.Jobs.Embedding.Drops.{
  Proper, Reason, Asked, Failed, Sound, Fits, grow, apply_fate-Failed, after_failure-Fits,
  apply_fate-Sound, IsSound, written, misshapen,
}

module _ {Value Body World : Type 0} (json : Json Body) (w : WorkerConfig)
    (env : Env Value Body World) where
  pub write_chunk-Fits :
      (p : Pending Body) (vec : List Value) (s : State Value Body World)
      → Proper json p
      → is_vector vec ≡ true
      → Asked json w p.job.content s.trace
      → IsSound json w env s
      → let r = write_chunk env json w p.job p.d.priority vec s in
        Fits json w p (env.done r.1.world) r.1.trace r.0 × Sound json w r.1.trace
  unfolding write_chunk
  write_chunk-Fits p vec s h good asked sound =
      let chunks = chunk_of p.job vec ∷ [] in
      let r = set_embeddings env p.job.staging chunks s in
      elim (set_embeddings-trace env p.job.staging chunks s) [
        | inl (e, t) ↦
            rw (e, write_chunk)
              (after_failure-Fits json w env p r.1 r.1.trace h (rw t (inl asked)), rw t sound)
        | inr (n, e, t) ↦
            rw (e, write_chunk)
              (
                rw t (written p.job h (inl (refl, inl (vec, good_length vec good, refl)))),
                rw t sound,
              )
      ]

  pub only_vector_is :
      (vectors : List (List Value)) (vec : List Value)
      → only_vector vectors ≡ some vec
      → is_vector vec ≡ true
  unfolding only_vector
  only_vector_is [] vec h = cc
  only_vector_is (v ∷ []) vec h = ground arith
  only_vector_is (v ∷ u ∷ more) vec h = cc

  pub embed_and_write-Fits :
      (p : Pending Body) (s : State Value Body World)
      → Proper json p
      → IsSound json w env s
      → let r = embed_and_write env json w p.job p.d.priority s in
        Fits json w p (env.done r.1.world) r.1.trace r.0 × Sound json w r.1.trace
  unfolding embed_and_write
  embed_and_write-Fits p s h sound =
      let texts = p.job.content ∷ [] in
      let r = embed env texts s in
      elim (embed-trace env texts s) [
        | inl (e, t) ↦
            rw (e, embed_and_write)
              (after_failure-Fits json w env p r.1 r.1.trace h (rw t (inl refl)), rw t sound)
        | inr (vectors, e, t) ↦
            rw (e, embed_and_write)
              (elim (Option-cases (only_vector vectors)) [
                | inl f ↦
                    rw (f, embed_and_write)
                      (
                        rw t (misshapen p.job h (inl (inr (refl, only_vector-IsAnswer vectors f)))),
                        rw t sound,
                      )
                | inr (vec, f) ↦
                    rw (f, embed_and_write)
                      (write_chunk-Fits p vec r.1 h (only_vector_is vectors vec f) (rw t (inl refl))
                        (rw t sound))
              ])
      ]

  pub one_by_one-Sound :
      (ps : List (Pending Body)) (s : State Value Body World)
      → All (Proper json) ps
      → IsSound json w env s
      → IsSound json w env (one_by_one env json w ps s)
  unfolding one_by_one
  one_by_one-Sound [] s h sound = sound
  one_by_one-Sound (p ∷ ps) s h sound =
      let r = embed_and_write env json w p.job p.d.priority s in
      let fits = embed_and_write-Fits p s h.0 sound in
      one_by_one-Sound ps (apply_fate env p.d r.0 r.1) h.1
        (apply_fate-Sound json w env p r.0 r.1 h.0 fits.0 fits.1)

  pub fail_all-Sound :
      (ps : List (Pending Body)) (s : State Value Body World)
      → All (Proper json) ps
      → All (λ p. Failed json w p.job.content s.trace) ps
      → IsSound json w env s
      → IsSound json w env (fail_all env json w ps s)
  unfolding fail_all
  fail_all-Sound [] s h tried sound = sound
  fail_all-Sound (p ∷ ps) s h tried sound =
      let f = after_failure env json w p.job p.d.priority s in
      let s' = apply_fate env p.d f s in
      fail_all-Sound ps s' h.1
        (All-map (λ q. Failed json w q.job.content s.trace)
          (λ q. Failed json w q.job.content s'.trace) ps
          (λ q. apply_fate-Failed json w env p.d f s q.job.content) tried.1)
        (apply_fate-Sound json w env p f s h.0
          (after_failure-Fits json w env p s s.trace h.0 tried.0) sound)

  pub requeue_items-Sound :
      (ps : List (Pending Body)) (s : State Value Body World)
      → IsSound json w env s
      → IsSound json w env (requeue_items env json w ps s)
  unfolding requeue_items nack
  requeue_items-Sound [] s sound = sound
  requeue_items-Sound (p ∷ ps) s sound = requeue_items-Sound ps (nack env p.d s) sound

  pub ack_items-Sound :
      (ps : List (Pending Body)) (s : State Value Body World)
      → All (λ p. (done : Bool) → Reason json w p.d done s.trace) ps
      → IsSound json w env s
      → IsSound json w env (ack_items env json w ps s)
  unfolding ack_items ack
  ack_items-Sound [] s h sound = sound
  ack_items-Sound (p ∷ ps) s h sound =
      let now = env.done s.world in
      ack_items-Sound ps (ack env p.d s)
        (All-map (λ q. (done : Bool) → Reason json w q.d done s.trace)
          (λ q. (done : Bool) → Reason json w q.d done (acked p.d now ∷ s.trace)) ps
          (λ q k done. grow json w (acked p.d now) q.d done s.trace (k done)) h.1)
        (h.0 now, sound)
