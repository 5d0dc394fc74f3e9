-- ===== src/Service/Live/Delivery.antt =====
-- A live session of stack/backend/internal/service/live.go that nothing cancels.
use truth_in_stream.Prelude.{
  gather, ℕ, String, Bool, true, false, List, [], ◌∷◌, ◌++◌, All, append-nil, ◌≡◌, ◌≢◌, refl,
  if◌then◌else◌, itoa, suc, leb,
}
use truth_in_stream.Prelude.Floats.{Floats}
use truth_in_stream.Service.Events.{Segment, LiveEvent, subtitle, skipped, not_checked, interim}
use truth_in_stream.Service.Sentences.{sentence_count}
use truth_in_stream.Service.Live.Flow.{
  Holds, Holds-elim, and_then-goes_on, if_then_else-goes_on, analyze_loop-append,
}
use truth_in_stream.Service.Live.Ledger.{numbered, finals, settled, captioned, Ledger, flush-Ledger}
use truth_in_stream.Service.Live.Order.{Balanced, analyze_loop-Balanced}
use truth_in_stream.Service.Live.{
  Loop, and_then, send, shed, answer_offer, dispatch, flush, must_close, buffer, on_subtitled,
  on_final, must_hold, on_tick, step, analyze_loop, start, add, is_empty, empty_unit, UnitMember,
  PendingUnit, Offer, taken, full, canceled, Input, done, tick, closed, transcript, Settings,
}

-- The context is not done and the stream has not ended.
abbrev pub stays_open : Input → Bool
stays_open done = false
stays_open closed = false
stays_open tick = true
stays_open (transcript final seg) = true

module _ (F : Floats) (sends : ℕ → Bool) (offers : ℕ → Offer) (cfg : Settings)
    (all_sent : (n : ℕ) → sends n ≡ true) (none_canceled : (n : ℕ) → offers n ≢ canceled) where
  send-goes_on : (e : LiveEvent F) (s : Loop F) → (send F sends offers e s).0 ≡ true
  unfolding send
  send-goes_on e s = rw (all_sent s.asked) refl

  shed-goes_on : (ms : List UnitMember) (s : Loop F) → (shed F sends offers ms s).0 ≡ true
  unfolding shed
  shed-goes_on [] s = refl
  shed-goes_on (m ∷ ms) s =
      and_then-goes_on F (send F sends offers (skipped m.id m.seg not_checked) s)
        (shed F sends offers ms) (send-goes_on (skipped m.id m.seg not_checked) s) (shed-goes_on ms)

  answer_offer-goes_on :
      (o : Offer) (u : PendingUnit) (s : Loop F)
      → o ≢ canceled
      → (answer_offer F sends offers o u s).0 ≡ true
  unfolding answer_offer
  answer_offer-goes_on taken u s h = refl
  answer_offer-goes_on full u s h = shed-goes_on u.members s
  answer_offer-goes_on canceled u s h = absurd (h refl)

  flush-goes_on : (s : Loop F) → (flush F sends offers s).0 ≡ true
  unfolding flush dispatch
  flush-goes_on s =
      if_then_else-goes_on F (is_empty s.unit) (true, s)
        (dispatch F sends offers (record { speaker = s.unit.speaker; members = s.unit.members })
          (record s { unit = empty_unit; armed = false; idle_holds = 0 }))
        refl
        (answer_offer-goes_on (offers s.offered)
          (record { speaker = s.unit.speaker; members = s.unit.members })
          (record s { unit = empty_unit; armed = false; idle_holds = 0; offered = suc s.offered })
          (none_canceled s.offered))

  buffer-goes_on :
      (id : String) (seg : Segment) (n : ℕ) (s : Loop F)
      → (buffer F sends offers cfg id seg n s).0 ≡ true
  unfolding buffer
  buffer-goes_on id seg n s =
      let t = record s { unit = add id seg n s.unit; idle_holds = 0; armed = true } in
      if_then_else-goes_on F (leb cfg.max_sentences t.unit.sentences) (flush F sends offers t)
        (true, t) (flush-goes_on t) refl

  on_final-goes_on : (seg : Segment) (s : Loop F) → (on_final F sends offers cfg seg s).0 ≡ true
  unfolding on_final on_subtitled
  on_final-goes_on seg s =
      let n = sentence_count seg.text in
      and_then-goes_on F
        (send F sends offers (subtitle (itoa s.seq) seg) (record s { seq = suc s.seq }))
        (on_subtitled F sends offers cfg (itoa s.seq) seg n)
        (send-goes_on (subtitle (itoa s.seq) seg) (record s { seq = suc s.seq }))
        (λ t.
          and_then-goes_on F
            (if must_close F sends offers cfg seg n t.unit
              then flush F sends offers t
              else (true, t))
            (buffer F sends offers cfg (itoa s.seq) seg n)
            (if_then_else-goes_on F (must_close F sends offers cfg seg n t.unit)
              (flush F sends offers t) (true, t) (flush-goes_on t) refl)
            (buffer-goes_on (itoa s.seq) seg n))

  on_tick-goes_on : (s : Loop F) → (on_tick F sends offers cfg s).0 ≡ true
  unfolding on_tick
  on_tick-goes_on s =
      let t = record s { armed = false } in
      if_then_else-goes_on F (must_hold F sends offers cfg t)
        (true, record t { idle_holds = suc t.idle_holds; armed = true }) (flush F sends offers t)
        refl (flush-goes_on t)

  step-goes_on :
      (i : Input) (s : Loop F) → stays_open i ≡ true → (step F sends offers cfg i s).0 ≡ true
  unfolding step
  step-goes_on done s h = h
  step-goes_on closed s h = h
  step-goes_on tick s h =
      if_then_else-goes_on F s.armed (on_tick F sends offers cfg s) (true, s) (on_tick-goes_on s)
        refl
  step-goes_on (transcript false seg) s h = send-goes_on (interim seg) s
  step-goes_on (transcript true seg) s h = on_final-goes_on seg s

  pub analyze_loop-goes_on :
      (inputs : List Input) (s : Loop F)
      → All (λ i. stays_open i ≡ true) inputs
      → (analyze_loop F sends offers cfg inputs s).0 ≡ true
  unfolding analyze_loop
  analyze_loop-goes_on [] s h = refl
  analyze_loop-goes_on (i ∷ inputs) s (hi, h) =
      and_then-goes_on F (step F sends offers cfg i s) (analyze_loop F sends offers cfg inputs)
        (step-goes_on i s hi) (λ t. analyze_loop-goes_on inputs t h)

  -- Everything is settled in order.
  abbrev pub Delivered : List Segment → Loop F → Type 0
  Delivered segs s =
      (gather (settled F) s.effects ≡ numbered 0 segs)
      × (gather (captioned F) s.effects ≡ numbered 0 segs)

  flush_delivers :
      (segs : List Segment) (s : Loop F)
      → Balanced F sends offers cfg segs s
      → Delivered segs (flush F sends offers s).1
  flush_delivers segs s h =
      let (none_left, (balance, captions, next)) =
        Holds-elim F (λ t. (t.unit.members ≡ []) × Ledger F segs [] t) (flush F sends offers s)
          (flush-goes_on s)
          (flush-Ledger F sends offers cfg segs [] s (rw (append-nil s.unit.members) h)) in
      (rw append-nil at balance, captions)

  close_delivers :
      (segs : List Segment) (r : Bool × Loop F)
      → r.0 ≡ true
      → Holds F (Balanced F sends offers cfg segs) r
      → Delivered segs (and_then F r (analyze_loop F sends offers cfg (closed ∷ []))).1
  unfolding and_then analyze_loop step
  close_delivers segs (true, s) h k = flush_delivers segs s k
  close_delivers segs (false, s) h k = cc

  -- Take a session in which the reader takes every event, the context is never done, and the
  -- transcripts end: whatever the order of transcripts and timer ticks and whether the queue has
  -- room, each final segment gets one subtitle, with its number for an id, in order, and then, in
  -- the same order, it is either in one unit handed to the workers or reported as not checked.
  pub analyze_loop_delivers :
      (inputs : List Input)
      → All (λ i. stays_open i ≡ true) inputs
      → let end = (analyze_loop F sends offers cfg (inputs ++ closed ∷ []) (start F)).1 in
        (gather (captioned F) end.effects ≡ numbered 0 (finals inputs))
        × (gather (settled F) end.effects ≡ numbered 0 (finals inputs))
  analyze_loop_delivers inputs h =
      rw (analyze_loop-append F sends offers cfg inputs (closed ∷ []) (start F)) (
        let (settles, captions) =
          close_delivers (finals inputs) (analyze_loop F sends offers cfg inputs (start F))
            (analyze_loop-goes_on inputs (start F) h)
            (analyze_loop-Balanced F sends offers cfg [] inputs (start F) (refl, refl, refl)) in
        (captions, settles))
