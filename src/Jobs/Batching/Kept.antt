-- ===== src/Jobs/Batching/Kept.antt =====
-- The batching loop of `Run` of stack/backend/internal/embedjob while it receives: what it has is in
-- its batches.
use truth_in_stream.Prelude.{
  ℕ, ◌≤◌, ◌<◌, Bool, true, false, List, [], ◌∷◌, ◌++◌, length, length-append, leb, append-nil,
  append_assoc, All, All-append, arith, ◌≡◌, refl, sym, ap, ◌∙◌, Bool-cases, inl, inr,
}
use truth_in_stream.Jobs.Broker.{Delivery}
use truth_in_stream.Jobs.Embedding.{WorkerConfig}
use truth_in_stream.Jobs.Batching.{Event, arrives, fires, Loop, flush_batch, flush, add, on_event}

module _ {Body : Type 0} where
  abbrev pub joined : List (List (Delivery Body)) → List (Delivery Body)
  joined [] = []
  joined (b ∷ bs) = b ++ joined bs

  abbrev pub arrivals : List (Event Body) → List (Delivery Body)
  arrivals [] = []
  arrivals (arrives d ∷ es) = d ∷ arrivals es
  arrivals (fires ∷ es) = arrivals es

  pub joined-append :
      (bs : List (List (Delivery Body))) (b : List (Delivery Body))
      → joined (bs ++ b ∷ []) ≡ joined bs ++ b
  joined-append [] b = append-nil b
  joined-append (x ∷ bs) b =
      ap (λ l. x ++ l) (joined-append bs b) ∙ sym (append_assoc x (joined bs) b)

  pub arrivals-cons :
      (received : List (Delivery Body)) (e : Event Body) (es : List (Event Body))
      → (received ++ arrivals (e ∷ [])) ++ arrivals es ≡ received ++ arrivals (e ∷ es)
  arrivals-cons received (arrives d) es = append_assoc received (d ∷ []) (arrivals es)
  arrivals-cons received fires es = ap (λ l. l ++ arrivals es) (append-nil received)

  module _ (w : WorkerConfig) (slots : ℕ → Bool) where
    abbrev pub Sized : List (Delivery Body) → Type 0
    Sized b = (0 < length b) × (length b ≤ w.batch_size)

    -- The deliveries received so far are in the dispatched batches and the open one, in order.
    pub record Kept (received : List (Delivery Body)) (s : Loop Body) : Type 0 where
      pub fresh : s.requeued ≡ []
      pub bounded : length s.batch ≤ w.batch_size
      pub sized : All Sized s.dispatched
      pub whole : joined s.dispatched ++ s.batch ≡ received

    flush_batch-Kept :
        {received : List (Delivery Body)} (b : List (Delivery Body)) (s : Loop Body)
        → s.batch ≡ b
        → Kept received s
        → Kept received (flush_batch w slots b s).1
          × ((flush_batch w slots b s).0 ≡ true → (flush_batch w slots b s).1.batch ≡ [])
    unfolding flush_batch
    flush_batch-Kept [] s e k = (k, λ _. e)
    flush_batch-Kept (d ∷ ds) s e k = elim (Bool-cases (slots s.flushes)) [
      | inl free ↦ rw free (
        record {
          fresh = k.fresh;
          bounded = omega arith;
          sized =
              All-append Sized s.dispatched ((d ∷ ds) ∷ []) k.sized
                ((omega arith, rw e at k.bounded), tt);
          whole = append-nil _ ∙ joined-append s.dispatched (d ∷ ds) ∙ rw (← e) k.whole;
        },
        λ _. refl,
      )
      | inr full ↦ rw full (
        record { fresh = k.fresh; bounded = k.bounded; sized = k.sized; whole = k.whole },
        λ h. cc,
      )
    ]

    flush-Kept :
        {received : List (Delivery Body)} (s : Loop Body)
        → Kept received s
        → Kept received (flush w slots s).1
          × ((flush w slots s).0 ≡ true → (flush w slots s).1.batch ≡ [])
    unfolding flush
    flush-Kept s k = flush_batch-Kept s.batch s refl k

    module _ (pos : 0 < w.batch_size) where
      with_delivery :
          {received : List (Delivery Body)} (d : Delivery Body) (running : Bool) (s : Loop Body)
          → Kept received s
          → length s.batch < w.batch_size
          → Kept
              (received ++ d ∷ [])
              (record s { batch = s.batch ++ d ∷ []; timer_running = running })
      with_delivery d running s k room = record {
        fresh = k.fresh;
        bounded = omega (arith, length-append s.batch (d ∷ []));
        sized = k.sized;
        whole =
            sym (append_assoc (joined s.dispatched) s.batch (d ∷ []))
            ∙ ap (λ l. l ++ d ∷ []) k.whole;
      }

      add-Kept :
          {received : List (Delivery Body)} (d : Delivery Body) (s : Loop Body)
          → Kept received s
          → length s.batch < w.batch_size
          → Kept (received ++ d ∷ []) (add w slots d s).1
            × ((add w slots d s).0 ≡ true → length (add w slots d s).1.batch < w.batch_size)
      unfolding add
      add-Kept d s k room = elim (Bool-cases (leb w.batch_size (length (s.batch ++ d ∷ [])))) [
        | inl full ↦ rw full (
            let r =
              flush-Kept (record s { batch = s.batch ++ d ∷ []; timer_running = false })
                (with_delivery d false s k room) in
            (r.0, λ h. rw (r.1 h) pos))
        | inr open_still ↦
            rw open_still (with_delivery d true s k room, λ _. ground (arith, open_still))
      ]

      pub on_event-Kept :
          {received : List (Delivery Body)} (e : Event Body) (s : Loop Body)
          → Kept received s
          → length s.batch < w.batch_size
          → Kept (received ++ arrivals (e ∷ [])) (on_event w slots e s).1
            × ((on_event w slots e s).0 ≡ true
                → length (on_event w slots e s).1.batch < w.batch_size)
      unfolding on_event
      on_event-Kept (arrives d) s k room = add-Kept d s k room
      on_event-Kept {received} fires s k room =
          let r =
            flush-Kept (record s { timer_running = false })
              (record {
                fresh = k.fresh;
                bounded = k.bounded;
                sized = k.sized;
                whole = k.whole ∙ sym (append-nil received);
              }) in
          (r.0, λ h. rw (r.1 h) pos)
