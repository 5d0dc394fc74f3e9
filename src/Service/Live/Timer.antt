-- ===== src/Service/Live/Timer.antt =====
-- The idle timer of the loop of stack/backend/internal/service/live.go and its count of idle
-- windows, from step to step.
use truth_in_stream.Prelude.{
  ℕ, suc, ◌≤◌, ◌<◌, String, Bool, true, false, not, List, [], ◌∷◌, length, length-append, arith,
  ◌≡◌, refl, sym, ◌∙◌, ap, inl, inr, ◌⊎◌, if◌then◌else◌, itoa, leb,
}
use truth_in_stream.Prelude.Floats.{Floats}
use truth_in_stream.Service.Events.{Segment, interim, subtitle, skipped, not_checked}
use truth_in_stream.Service.Sentences.{sentence_count}
use truth_in_stream.Service.Live.Flow.{Holds, Holds-imp, and_then-Holds, if_then_else-Holds}
use truth_in_stream.Service.Live.Ledger.{is_empty-cases, send-Holds}
use truth_in_stream.Service.Live.{
  Loop, send, shed, answer_offer, dispatch, flush, must_close, buffer, on_subtitled, on_final,
  must_hold, on_tick, step, analyze_loop, add, is_empty, empty_unit, LiveUnit, UnitMember,
  PendingUnit, Offer, taken, full, canceled, Input, done, tick, closed, transcript, Settings,
  max_idle_holds,
}

is_empty-add :
    (id : String) (seg : Segment) (n : ℕ) (u : LiveUnit) → is_empty (add id seg n u) ≡ false
unfolding add
is_empty-add id seg n u = elim (is_empty-cases (add id seg n u)) [
  | inl (t, e) ↦
      absurd
        (omega (arith, ap length e, length-append u.members (record { id = id; seg = seg } ∷ [])))
  | inr t ↦ t
]

module _ (F : Floats) where
  module _ (sends : ℕ → Bool) (offers : ℕ → Offer) (cfg : Settings) where
    -- Between two statements the timer runs exactly while a unit is buffered.
    abbrev pub Timed : Loop F → Type 0
    Timed s = (s.idle_holds ≤ max_idle_holds cfg) × (s.armed ≡ not (is_empty s.unit))

    -- In the middle of a statement a buffered unit may be without its timer.
    abbrev Bounded : Loop F → Type 0
    Bounded s = (s.idle_holds ≤ max_idle_holds cfg) × (is_empty s.unit ≡ true → s.armed ≡ false)

    abbrev pub Idle : Loop F → Type 0
    Idle s = Timed s × (s.unit.members ≡ [])

    Timed-Bounded : (s : Loop F) → Timed s → Bounded s
    Timed-Bounded s (few, timer) = (few, λ e. timer ∙ ap not e)

    shed-Holds :
        (P : LiveUnit → Bool → ℕ → Type 0) (ms : List UnitMember) (s : Loop F)
        → P s.unit s.armed s.idle_holds
        → Holds F (λ t. P t.unit t.armed t.idle_holds) (shed F sends offers ms s)
    unfolding shed
    shed-Holds P [] s h = h
    shed-Holds P (m ∷ ms) s h =
        let Q = λ (t : Loop F). P t.unit t.armed t.idle_holds in
        and_then-Holds F Q Q (send F sends offers (skipped m.id m.seg not_checked) s)
          (shed F sends offers ms)
          (send-Holds F sends offers cfg Q (skipped m.id m.seg not_checked) s h) (shed-Holds P ms)

    abbrev IsIdle : LiveUnit → Bool → ℕ → Type 0
    IsIdle u armed holds =
        ((holds ≤ max_idle_holds cfg) × (armed ≡ not (is_empty u))) × (u.members ≡ [])

    answer_offer-Idle :
        (o : Offer) (u : PendingUnit) (s : Loop F)
        → Idle s
        → Holds F Idle (answer_offer F sends offers o u s)
    unfolding answer_offer
    answer_offer-Idle canceled u s h = tt
    answer_offer-Idle taken u s h = h
    answer_offer-Idle full u s h = shed-Holds IsIdle u.members s h

    flush-Idle : (s : Loop F) → Bounded s → Holds F Idle (flush F sends offers s)
    unfolding flush dispatch is_empty
    flush-Idle s (few, timer) = elim (is_empty-cases s.unit) [
      | inl (t, none_left) ↦ rw t ((few, timer t ∙ sym (ap not t)), none_left)
      | inr t ↦ rw t (
          answer_offer-Idle (offers s.offered)
            (record { speaker = s.unit.speaker; members = s.unit.members })
            (record s { unit = empty_unit; armed = false; idle_holds = 0; offered = suc s.offered })
            ((omega arith, refl), refl))
    ]

    flush-Timed : (s : Loop F) → Bounded s → Holds F Timed (flush F sends offers s)
    flush-Timed s h = Holds-imp F Idle Timed (flush F sends offers s) (flush-Idle s h) (λ t k. k.0)

    buffer-Timed :
        (id : String) (seg : Segment) (n : ℕ) (s : Loop F)
        → Holds F Timed (buffer F sends offers cfg id seg n s)
    unfolding buffer
    buffer-Timed id seg n s =
        let t : Loop F = record s { unit = add id seg n s.unit; idle_holds = 0; armed = true } in
        let h : Timed t = (omega arith, sym (ap not (is_empty-add id seg n s.unit))) in
        if_then_else-Holds F Timed (leb cfg.max_sentences t.unit.sentences) (flush F sends offers t)
          (true, t) (λ _. flush-Timed t (Timed-Bounded t h)) (λ _. h)

    on_final-Timed :
        (seg : Segment) (s : Loop F) → Timed s → Holds F Timed (on_final F sends offers cfg seg s)
    unfolding on_final on_subtitled
    on_final-Timed seg s h =
        let n = sentence_count seg.text in
        and_then-Holds F Timed Timed
          (send F sends offers (subtitle (itoa s.seq) seg) (record s { seq = suc s.seq }))
          (on_subtitled F sends offers cfg (itoa s.seq) seg n)
          (send-Holds F sends offers cfg Timed (subtitle (itoa s.seq) seg)
            (record s { seq = suc s.seq }) h)
          (λ t ht.
            and_then-Holds F Timed Timed
              (if must_close F sends offers cfg seg n t.unit
                then flush F sends offers t
                else (true, t))
              (buffer F sends offers cfg (itoa s.seq) seg n)
              (if_then_else-Holds F Timed (must_close F sends offers cfg seg n t.unit)
                (flush F sends offers t) (true, t) (λ _. flush-Timed t (Timed-Bounded t ht))
                (λ _. ht))
              (λ v _. buffer-Timed (itoa s.seq) seg n v))

    must_hold-room :
        (s : Loop F)
        → must_hold F sends offers cfg s ≡ true
        → (s.idle_holds < max_idle_holds cfg) × (is_empty s.unit ≡ false)
    unfolding must_hold
    must_hold-room s h = (ground (arith, h), ground (arith, h))

    -- A tick either starts one more idle window or flushes.
    pub on_tick-Timed :
        (s : Loop F)
        → Timed s
        → Holds F
            (λ t. Timed t × ((t.unit.members ≡ []) ⊎ (t.idle_holds ≡ suc s.idle_holds)))
            (on_tick F sends offers cfg s)
    unfolding on_tick
    on_tick-Timed s (few, timer) =
        let t : Loop F = record s { armed = false } in
        if_then_else-Holds F
          (λ v. Timed v × ((v.unit.members ≡ []) ⊎ (v.idle_holds ≡ suc s.idle_holds)))
          (must_hold F sends offers cfg t)
          (true, record t { idle_holds = suc t.idle_holds; armed = true }) (flush F sends offers t)
          (λ held.
            let (room, buffered) = must_hold-room s held in
            ((room, sym (ap not buffered)), inr refl))
          (λ _.
            Holds-imp F Idle
              (λ v. Timed v × ((v.unit.members ≡ []) ⊎ (v.idle_holds ≡ suc s.idle_holds)))
              (flush F sends offers t) (flush-Idle t (few, λ _. refl)) (λ v k. (k.0, inl k.1)))

    on_tick_or_not-Timed : (s : Loop F) → Timed s → Holds F Timed (step F sends offers cfg tick s)
    unfolding step
    on_tick_or_not-Timed s h =
        if_then_else-Holds F Timed s.armed (on_tick F sends offers cfg s) (true, s)
          (λ _.
            Holds-imp F (λ t. Timed t × ((t.unit.members ≡ []) ⊎ (t.idle_holds ≡ suc s.idle_holds)))
              Timed (on_tick F sends offers cfg s) (on_tick-Timed s h) (λ t k. k.0))
          (λ _. h)

    step-Timed : (i : Input) (s : Loop F) → Timed s → Holds F Timed (step F sends offers cfg i s)
    unfolding step
    step-Timed done s h = tt
    step-Timed closed s h = tt
    step-Timed tick s h = on_tick_or_not-Timed s h
    step-Timed (transcript false seg) s h = send-Holds F sends offers cfg Timed (interim seg) s h
    step-Timed (transcript true seg) s h = on_final-Timed seg s h

    pub analyze_loop-Timed :
        (inputs : List Input) (s : Loop F)
        → Timed s
        → Holds F Timed (analyze_loop F sends offers cfg inputs s)
    unfolding analyze_loop
    analyze_loop-Timed [] s h = h
    analyze_loop-Timed (i ∷ inputs) s h =
        and_then-Holds F Timed Timed (step F sends offers cfg i s)
          (analyze_loop F sends offers cfg inputs) (step-Timed i s h) (analyze_loop-Timed inputs)
