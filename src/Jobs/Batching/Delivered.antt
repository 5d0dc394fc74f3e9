-- ===== src/Jobs/Batching/Delivered.antt =====
-- No delivery is lost between the queue and the batches: `Run` of stack/backend/internal/embedjob.
use truth_in_stream.Prelude.{
  ℕ, ◌≤◌, ◌<◌, Bool, true, false, List, [], ◌∷◌, ◌++◌, length, append-nil, if◌then◌else◌, All,
  All-append, arith, ◌≡◌, refl, sym, ap, ◌∙◌, Bool-cases, inl, inr, ◌⊎◌,
}
use truth_in_stream.Jobs.Broker.{Delivery}
use truth_in_stream.Jobs.Embedding.{WorkerConfig}
use truth_in_stream.Jobs.Batching.{
  Event, Loop, idle_loop, flush_batch, flush, on_event, abandon, collect, wind_down, run_loop,
}
use truth_in_stream.Jobs.Batching.Kept.{
  joined, arrivals, joined-append, arrivals-cons, Sized, Kept, on_event-Kept,
}

module _ {Body : Type 0} (w : WorkerConfig) (slots : ℕ → Bool) (pos : 0 < w.batch_size) where
  -- When the loop is left: the deliveries that it received.
  record Ended (received : List (Delivery Body)) (s : Loop Body) : Type 0 where
    either : (s.requeued ≡ []) ⊎ (s.batch ≡ [])
    bounded : length s.batch ≤ w.batch_size
    sized : All (Sized w slots) s.dispatched
    whole : joined s.dispatched ++ (s.requeued ++ s.batch) ≡ received

  abandon-Ended :
      {received : List (Delivery Body)} (s : Loop Body)
      → Kept w slots received s
      → Ended received (abandon s)
  abandon-Ended s k = record {
    either = inr refl;
    bounded = omega arith;
    sized = k.sized;
    whole =
        ap (λ l. joined s.dispatched ++ l) (append-nil _)
        ∙ ap (λ l. joined s.dispatched ++ (l ++ s.batch)) k.fresh
        ∙ k.whole;
  }

  -- The loop ends with what it received, and leaves the rest of the stream unread.
  abbrev Leaves : List (Delivery Body) → Loop Body × List (Event Body) → Type 0
  Leaves all r = (got : List (Delivery Body)) × Ended got r.0 × (got ++ arrivals r.1 ≡ all)

  collect-Ended :
      (es : List (Event Body)) (received : List (Delivery Body)) (s : Loop Body)
      → Kept w slots received s
      → length s.batch < w.batch_size
      → Leaves (received ++ arrivals es) (collect w slots es s)
  unfolding collect
  collect-Ended [] received s k room = (
    received,
    record {
      either = inl k.fresh;
      bounded = k.bounded;
      sized = k.sized;
      whole = ap (λ l. joined s.dispatched ++ (l ++ s.batch)) k.fresh ∙ k.whole;
    },
    refl,
  )
  collect-Ended (e ∷ es) received s k room =
      let r = on_event-Kept w slots pos e s k room in
      let step = on_event w slots e s in
      elim (Bool-cases step.0) [
        | inl on ↦ rw on (
            rw (← arrivals-cons received e es)
              (collect-Ended es (received ++ arrivals (e ∷ [])) step.1 r.0 (r.1 on)))
        | inr stop ↦
            rw stop
              (received ++ arrivals (e ∷ []), abandon-Ended step.1 r.0, arrivals-cons received e es)
      ]

  record WoundDown (received : List (Delivery Body)) (s : Loop Body) : Type 0 where
    empty : s.batch ≡ []
    sized : All (Sized w slots) s.dispatched
    whole : joined s.dispatched ++ s.requeued ≡ received

  abandon-WoundDown :
      {received : List (Delivery Body)} (s : Loop Body)
      → Ended received s
      → WoundDown received (abandon s)
  abandon-WoundDown s k = record { empty = refl; sized = k.sized; whole = k.whole }

  wind_down_batch :
      {received : List (Delivery Body)} (b : List (Delivery Body)) (s : Loop Body)
      → s.batch ≡ b
      → Ended received s
      → let r = flush_batch w slots b s in WoundDown received (if r.0 then r.1 else abandon r.1)
  unfolding flush_batch
  wind_down_batch [] s e k = record {
    empty = e;
    sized = k.sized;
    whole =
        ap (λ l. joined s.dispatched ++ l)
          (sym (append-nil s.requeued) ∙ sym (ap (λ l. s.requeued ++ l) e))
        ∙ k.whole;
  }
  wind_down_batch (d ∷ ds) s e k = elim (Bool-cases (slots s.flushes)) [
    | inl free ↦ rw free (record {
      empty = refl;
      sized =
          All-append (Sized w slots) s.dispatched ((d ∷ ds) ∷ []) k.sized
            ((omega arith, rw e at k.bounded), tt);
      whole = elim k.either [
        | inl fresh ↦
            ap (λ l. joined (s.dispatched ++ (d ∷ ds) ∷ []) ++ l) fresh
            ∙ append-nil _
            ∙ joined-append s.dispatched (d ∷ ds)
            ∙ sym (ap (λ l. joined s.dispatched ++ l) e)
            ∙ sym (ap (λ l. joined s.dispatched ++ (l ++ s.batch)) fresh)
            ∙ k.whole
        | inr empty ↦ cc
      ];
    })
    | inr full ↦ rw full (record { empty = refl; sized = k.sized; whole = k.whole })
  ]

  wind_down-WoundDown :
      {received : List (Delivery Body)} (canceled : Bool) (s : Loop Body)
      → Ended received s
      → WoundDown received (wind_down w slots canceled s)
  unfolding wind_down flush
  wind_down-WoundDown true s k = abandon-WoundDown s k
  wind_down-WoundDown false s k = wind_down_batch s.batch s refl k

  -- Where a batch holds at least one delivery, with every course of the events, of the free
  -- slots and of the context: the dispatched batches, then the requeued deliveries, then those
  -- that are left in the stream, are the deliveries of the stream in their order. No delivery
  -- is left in the open batch, and a dispatched batch is neither empty nor over the batch size.
  pub run_loop_delivers :
      (canceled : Bool) (events : List (Event Body))
      → let r = run_loop w slots canceled events in
        (joined r.0.dispatched ++ r.0.requeued ++ arrivals r.1 ≡ arrivals events)
        × (r.0.batch ≡ [])
        × All (Sized w slots) r.0.dispatched
  unfolding run_loop
  run_loop_delivers canceled events =
      let (got, ended, all) = collect-Ended events [] (idle_loop Body) start pos in
      let end = wind_down-WoundDown canceled (collect w slots events (idle_loop Body)).0 ended in
      (
        ap (λ l. l ++ arrivals (run_loop w slots canceled events).1) end.whole ∙ all,
        end.empty,
        end.sized,
      )
    where
      start : Kept w slots [] (idle_loop Body)
      start = record { fresh = refl; bounded = omega arith; sized = tt; whole = refl }
