-- ===== src/Jobs/Batching/Whole.antt =====
-- `Run` of stack/backend/internal/embedjob/embedjob.go from the stream to the acknowledgements.
use mathlib.Core.List.{Perm}
use mathlib.Core.List.Perm
use truth_in_stream.Prelude.{ℕ, ◌<◌, Bool, List, [], ◌∷◌, ◌++◌, append-nil}
use truth_in_stream.Jobs.Broker.{Delivery, Env, State, nack}
use truth_in_stream.Jobs.Embedding.{WorkerConfig, Json, requeue_all, process_batch}
use truth_in_stream.Jobs.Broker.Settling.{done_with, Settles, Settles-trans}
use truth_in_stream.Jobs.Embedding.Settling.{process_batch-Settles, requeue_all-Settles}
use truth_in_stream.Jobs.Embedding.Drops.{Sound}
use truth_in_stream.Jobs.Embedding.Drops.Batches.{process_batch-Sound}
use truth_in_stream.Jobs.Batching.{Event, run_loop, process_batches, run}
use truth_in_stream.Jobs.Batching.Kept.{joined, arrivals}
use truth_in_stream.Jobs.Batching.Delivered.{run_loop_delivers}

module _ {Value Body World : Type 0} (env : Env Value Body World) (json : Json Body)
    (w : WorkerConfig) where
  process_batches-Settles :
      (bs : List (List (Delivery Body))) (s : State Value Body World)
      → Settles (joined bs) s (process_batches env json w bs s)
  unfolding process_batches
  process_batches-Settles [] s = Perm.refl _
  process_batches-Settles (b ∷ bs) s =
      let s' = process_batch env json w b s in
      Settles-trans b (joined bs) s s' (process_batches env json w bs s')
        (process_batch-Settles env json w b s) (process_batches-Settles bs s')

  -- Where a batch holds at least one delivery: whatever the embedding client, the store and the
  -- broker answer, and wherever the context ends, the deliveries that a run acknowledges or gives
  -- back, and those that it leaves in the stream, are the deliveries of the stream, each as often
  -- as it was sent.
  pub run_settles :
      0 < w.batch_size
      → (slots : ℕ → Bool) (canceled : Bool) (events : List (Event Body)) (world : World)
      → Perm
          (done_with (run env json w slots canceled events (record { world = world; trace = [] }))
            ++ arrivals (run_loop w slots canceled events).1)
          (arrivals events)
  unfolding run
  run_settles pos slots canceled events world =
      let s : State Value Body World = record { world = world; trace = [] } in
      let r = run_loop w slots canceled events in
      let s' = process_batches env json w r.0.dispatched s in
      let all =
        Settles-trans (joined r.0.dispatched) r.0.requeued s s'
          (requeue_all env json w r.0.requeued s') (process_batches-Settles r.0.dispatched s)
          (requeue_all-Settles env json w r.0.requeued s') in
      rw (← (run_loop_delivers w slots pos canceled events).0)
        (Perm.append (rw append-nil at all) (Perm.refl (arrivals r.1)))

  process_batches-Sound :
      (bs : List (List (Delivery Body))) (s : State Value Body World)
      → Sound json w s.trace
      → Sound json w (process_batches env json w bs s).trace
  unfolding process_batches
  process_batches-Sound [] s sound = sound
  process_batches-Sound (b ∷ bs) s sound =
      process_batches-Sound bs (process_batch env json w b s)
        (process_batch-Sound json w env b s sound)

  requeue_all-Sound :
      (ds : List (Delivery Body)) (s : State Value Body World)
      → Sound json w s.trace
      → Sound json w (requeue_all env json w ds s).trace
  unfolding requeue_all nack
  requeue_all-Sound [] s sound = sound
  requeue_all-Sound (d ∷ ds) s sound = requeue_all-Sound ds (nack env d s) sound

  -- Every acknowledgement of a run has its reason in what the run did before it: the version is not
  -- known; the body is no valid job; a write, to the corpus that the job is for, held its chunk
  -- with a vector of the right length; the client answered its text with a wrong shape; or a try
  -- with its text failed, so that the client did not answer for this text, or a write failed while
  -- the latest answer was for texts with this one. In this last case the job, with its attempt
  -- counted and attempts left, was republished at the priority that it had; or the context was not
  -- done when the delivery was acknowledged, and its attempts are spent or its retry cannot be
  -- encoded. So no delivery is dropped for spent attempts, or for a retry that cannot be encoded,
  -- untried or at a shutdown.
  pub run-Sound :
      (slots : ℕ → Bool) (canceled : Bool) (events : List (Event Body)) (world : World)
      → Sound json w
          (run env json w slots canceled events (record { world = world; trace = [] })).trace
  unfolding run
  run-Sound slots canceled events world =
      let r = run_loop w slots canceled events in
      let s : State Value Body World = record { world = world; trace = [] } in
      requeue_all-Sound r.0.requeued (process_batches env json w r.0.dispatched s)
        (process_batches-Sound r.0.dispatched s tt)
