-- ===== src/Jobs/Crawl/Drops.antt =====
-- What becomes of the deliveries of stack/backend/internal/crawljob/crawljob.go.
use mathlib.Core.List.{Perm, perm_middle}
use mathlib.Core.List.Perm
use truth_in_stream.Prelude.{
  ℕ, suc, ◌-◌, Bool, List, [], ◌∷◌, ◌++◌, append-nil, some, Option-cases, length, Some, pos, le_int,
  arith, ◌≡◌, refl, ◌∙◌, Bool-cases, inl, inr,
}
use truth_in_stream.Corpus.{embedding_dim}
use truth_in_stream.Jobs.Broker.{
  Delivery, Fate, ack_it, republish_it, requeue_it, Env, Effect, State, knows_version, ack, embed,
  upsert, apply_fate,
}
use truth_in_stream.Jobs.Broker.Settling.{
  done_with, Settles, Settles-none, Settles-trans, apply_fate-Settles, embed-trace, upsert-trace,
}
use truth_in_stream.Jobs.Embedding.{only_vector}
use truth_in_stream.Jobs.Embedding.Faults.{knows_version-IsUnknown, only_vector-IsAnswer}
use truth_in_stream.Jobs.Crawl.{
  CrawlJob, CrawlJson, CrawlConfig, retry_of, decode, chunk_of, after_failure, upsert_job,
  embed_and_upsert, process, handle, run_from,
}
use truth_in_stream.Jobs.Crawl.Reasons.{
  unknown_version, unreadable, written, resent, misshapen, spent, unencodable, Sound, Fails, Fits,
  decode-IsUnreadable,
}

module _ {Value Body World : Type 0} (json : CrawlJson Body) (w : CrawlConfig)
    (env : Env Value Body World) where
  -- A part of `Process`: it settles nothing, and its action is fit.
  abbrev Fitting :
      Delivery Body → State Value Body World → Fate Body × State Value Body World → Type 0
  Fitting d s r =
      Fits json w d (env.done r.1.world) r.1.trace r.0
      × Sound json w r.1.trace
      × (done_with r.1 ≡ done_with s)

  after_failure-Fits :
      (d : Delivery Body) (job : CrawlJob) (s : State Value Body World)
      (t : List (Effect Value Body))
      → decode json d.body ≡ some job
      → Some (Fails json w job) t
      → Fits json w d (env.done s.world) t (after_failure env json w job d.priority s)
  unfolding after_failure
  after_failure-Fits d job s t h tried = elim (Bool-cases (env.done s.world)) [
    | inl e ↦ rw e tt
    | inr e ↦ rw e (elim (Bool-cases (le_int (pos (w.max_attempts - 1)) job.attempt)) [
      | inl f ↦ rw f (spent job h f tried refl)
      | inr f ↦ rw f (elim (Option-cases (json.marshal (retry_of job))) [
        | inl g ↦ rw g (unencodable job h f tried refl g)
        | inr (body, g) ↦ rw g (job, h, refl, f, tried, g)
      ])
    ])
  ]

  only_vector_is :
      (vectors : List (List Value)) (vec : List Value)
      → only_vector vectors ≡ some vec
      → length vec ≡ embedding_dim
  unfolding only_vector
  only_vector_is [] vec h = cc
  only_vector_is (v ∷ []) vec h = ground arith
  only_vector_is (v ∷ u ∷ more) vec h = cc

  upsert_job-Fitting :
      (d : Delivery Body) (job : CrawlJob) (vec : List Value) (s : State Value Body World)
      → decode json d.body ≡ some job
      → length vec ≡ embedding_dim
      → Sound json w s.trace
      → Fitting d s (upsert_job env json w job d.priority vec s)
  unfolding upsert_job chunk_of
  upsert_job-Fitting d job vec s h good sound =
      let r = upsert env (chunk_of job vec) s in
      elim (upsert-trace env (chunk_of job vec) s) [
        | inl (e, t) ↦ rw e (
          after_failure-Fits d job r.1 r.1.trace h (rw t (inl (vec, good, refl))),
          rw t sound,
          rw t,
        )
        | inr (e, t) ↦ rw e (rw t (written job h (inl (vec, good, refl))), rw t sound, rw t)
      ]

  embed_and_upsert-Fitting :
      (d : Delivery Body) (job : CrawlJob) (s : State Value Body World)
      → decode json d.body ≡ some job
      → Sound json w s.trace
      → Fitting d s (embed_and_upsert env json w job d.priority s)
  unfolding embed_and_upsert
  embed_and_upsert-Fitting d job s h sound =
      let texts = job.content ∷ [] in
      let r = embed env texts s in
      elim (embed-trace env texts s) [
        | inl (e, t) ↦
            rw (e, embed_and_upsert)
              (after_failure-Fits d job r.1 r.1.trace h (rw t (inl refl)), rw t sound, rw t)
        | inr (vectors, e, t) ↦
            rw (e, embed_and_upsert)
              (elim (Option-cases (only_vector vectors)) [
                | inl f ↦
                    rw (f, embed_and_upsert)
                      (
                        rw t (misshapen job h (inl (refl, only_vector-IsAnswer vectors f))),
                        rw t sound,
                        rw t,
                      )
                | inr (vec, f) ↦
                    rw (f, embed_and_upsert)
                      (let k =
                          upsert_job-Fitting d job vec r.1 h (only_vector_is vectors vec f)
                            (rw t sound) in
                        (k.0, k.1, k.2 ∙ rw t))
              ])
      ]

  apply_fate-Sound :
      (d : Delivery Body) (f : Fate Body) (s : State Value Body World)
      → Fits json w d (env.done s.world) s.trace f
      → Sound json w s.trace
      → Sound json w (apply_fate env d f s).trace
  unfolding apply_fate
  apply_fate-Sound d ack_it s fits sound = (fits, sound)
  apply_fate-Sound d requeue_it s fits sound = sound
  apply_fate-Sound d (republish_it body priority) s (job, h, same, left, tried, coded) sound =
      elim (Bool-cases (env.enqueue body priority s.world).0) [
        | inl e ↦ rw e (resent job h left (inr tried) (inl (same, coded)), sound)
        | inr e ↦ rw e sound
      ]

  process-Fitting :
      (d : Delivery Body) (s : State Value Body World)
      → Sound json w s.trace
      → Fitting d s (process env json w d.body d.priority s)
  unfolding process
  process-Fitting d s sound = elim (Option-cases (decode json d.body)) [
    | inl e ↦ rw (e, process) (unreadable (decode-IsUnreadable json d.body e), sound, refl)
    | inr (job, e) ↦ rw (e, process) (embed_and_upsert-Fitting d job s e sound)
  ]

  handle_once :
      (d : Delivery Body) (s : State Value Body World)
      → Sound json w s.trace
      → Sound json w (handle env json w d s).trace × Settles (d ∷ []) s (handle env json w d s)
  unfolding handle ack
  handle_once d s sound = elim (Bool-cases (knows_version w.known_versions d.version)) [
    | inr e ↦ rw e (
      (unknown_version (knows_version-IsUnknown w.known_versions d.version e), sound),
      Perm.refl _,
    )
    | inl e ↦ rw e (
        let r = process env json w d.body d.priority s in
        let k = process-Fitting d s sound in
        (
          apply_fate-Sound d r.0 r.1 k.0 k.1,
          Settles-trans [] (d ∷ []) s r.1 (apply_fate env d r.0 r.1) (Settles-none s r.1 k.2)
              (apply_fate-Settles env d r.0 r.1),
        ))
  ]

  run_from_once :
      (n : ℕ) (slots : ℕ → Bool) (ds : List (Delivery Body)) (s : State Value Body World)
      → Sound json w s.trace
      → let r = run_from env json w n slots ds s in
        Sound json w r.0.trace × Perm (r.1 ++ done_with r.0) (ds ++ done_with s)
  unfolding run_from
  run_from_once n slots [] s sound = (sound, Perm.refl _)
  run_from_once n slots (d ∷ ds) s sound = elim (Bool-cases (slots n)) [
    | inr e ↦ rw e (sound, Perm.refl _)
    | inl e ↦ rw e (
        let s' = handle env json w d s in
        let k = handle_once d s sound in
        let rest = run_from_once (suc n) slots ds s' k.0 in
        (
          rest.0,
          Perm.trans rest.1
              (Perm.trans (Perm.append (Perm.refl ds) k.1) (perm_middle ds (done_with s))),
        ))
  ]

  -- Whatever the embedding client, the store and the broker answer: the deliveries that a run of
  -- the crawl worker acknowledges or gives back, and those that it leaves unacknowledged or in the
  -- stream, are the deliveries of the stream, each as often as it was sent. Every acknowledgement
  -- has its reason in what was done before it: the version is not known; the body is no valid
  -- job; the chunk of the job was upserted with a vector of the right length; the client did not
  -- answer with one vector of the right length; or a try of the job failed: the client did not
  -- answer for its text, or its chunk, with a vector of the right length, was not upserted. In this
  -- last case the job, with its attempt counted and attempts left, was republished at the priority
  -- that it had; or the context was not done when the delivery was acknowledged, and its attempts
  -- are spent or its retry cannot be encoded.
  pub run_from_settles :
      (slots : ℕ → Bool) (ds : List (Delivery Body)) (world : World)
      → let r = run_from env json w 0 slots ds (record { world = world; trace = [] }) in
        Perm (r.1 ++ done_with r.0) ds × Sound json w r.0.trace
  run_from_settles slots ds world =
      let k = run_from_once 0 slots ds (record { world = world; trace = [] }) tt in
      (rw append-nil at k.1, k.0)
