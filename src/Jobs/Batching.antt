-- ===== src/Jobs/Batching.antt =====
-- `Run` of stack/backend/internal/embedjob/embedjob.go: how deliveries are collected into batches.
-- What the loop meets is a list of events, which ends when the stream is closed. `slots` holds, by
-- the number of flushes so far, whether a slot of the pool was free before the context was done.
-- The batches that are handed to the pool are processed here one after the other.
pub mod Kept
pub mod Delivered
pub mod Whole
use truth_in_stream.Prelude.{
  ℕ, suc, Bool, true, false, List, [], ◌∷◌, ◌++◌, length, if◌then◌else◌, leb,
}
use truth_in_stream.Jobs.Broker.{Delivery, Env, State}
use truth_in_stream.Jobs.Embedding.{WorkerConfig, Json, requeue_all, process_batch}

module _ (Body : Type 0) where
  -- A delivery is received, or the timer fires.
  pub data Event : Type 0 where
    arrives : Delivery Body → Event
    fires : Event

  -- The variables of `Run`, the batches that were handed to the pool, and the deliveries that
  -- `requeueAll` was called for.
  pub record Loop : Type 0 where
    pub batch : List (Delivery Body)
    pub timer_running : Bool
    pub dispatched : List (List (Delivery Body))
    pub requeued : List (Delivery Body)
    pub flushes : ℕ

abbrev pub idle_loop : (Body : Type 0) → Loop Body
idle_loop Body = record {
  batch = [];
  timer_running = false;
  dispatched = [];
  requeued = [];
  flushes = 0;
}

-- `requeueAll(ctx, batch)` and `batch = nil`
abbrev pub abandon : {Body : Type 0} → Loop Body → Loop Body
abandon s = record s { batch = []; requeued = s.requeued ++ s.batch }

module _ {Body : Type 0} (w : WorkerConfig) (slots : ℕ → Bool) where
  unfoldable pub flush_batch : List (Delivery Body) → Loop Body → Bool × Loop Body
  flush_batch [] s = (true, s)
  flush_batch (d ∷ ds) s =
      if slots s.flushes
      then (
        true,
        record s {
          batch = [];
          dispatched = s.dispatched ++ (d ∷ ds) ∷ [];
          flushes = suc s.flushes;
        },
      )
      else (false, record s { flushes = suc s.flushes })

  -- `flush`
  unfoldable pub flush : Loop Body → Bool × Loop Body
  unfolding flush_batch
  flush s = flush_batch s.batch s

  -- `add`
  unfoldable pub add : Delivery Body → Loop Body → Bool × Loop Body
  unfolding flush
  add d s =
      let batch = s.batch ++ d ∷ [] in
      if leb w.batch_size (length batch)
      then flush (record s { batch = batch; timer_running = false })
      else (true, record s { batch = batch; timer_running = true })

  unfoldable pub on_event : Event Body → Loop Body → Bool × Loop Body
  unfolding add flush
  on_event (arrives d) s = add d s
  on_event fires s = flush (record s { timer_running = false })

  -- The loop, and the events that it leaves unread.
  unfoldable pub collect : List (Event Body) → Loop Body → Loop Body × List (Event Body)
  unfolding on_event
  collect [] s = (s, [])
  collect (e ∷ es) s =
      let r = on_event e s in let rest = collect es r.1 in if r.0 then rest else (abandon r.1, es)

  -- What follows the loop: `canceled` is `ctx.Err() != nil`.
  unfoldable pub wind_down : Bool → Loop Body → Loop Body
  unfolding flush
  wind_down canceled s =
      if canceled then abandon s else let r = flush s in if r.0 then r.1 else abandon r.1

  -- The whole run: what becomes of the deliveries, and the events that are left unread.
  unfoldable pub run_loop : Bool → List (Event Body) → Loop Body × List (Event Body)
  unfolding collect wind_down
  run_loop canceled events =
      let r = collect events (idle_loop Body) in (wind_down canceled r.0, r.1)

module _ {Value Body World : Type 0} (env : Env Value Body World) (json : Json Body)
    (w : WorkerConfig) where
  unfoldable pub process_batches :
      List (List (Delivery Body)) → State Value Body World → State Value Body World
  unfolding process_batch
  process_batches [] s = s
  process_batches (b ∷ bs) s = process_batches bs (process_batch env json w b s)

  -- `Run`: the batches of the pool, and the deliveries that are requeued.
  unfoldable pub run :
      (ℕ → Bool) → Bool → List (Event Body) → State Value Body World → State Value Body World
  unfolding run_loop process_batches requeue_all
  run slots canceled events s =
      let end = (run_loop w slots canceled events).0 in
      requeue_all env json w end.requeued (process_batches end.dispatched s)
