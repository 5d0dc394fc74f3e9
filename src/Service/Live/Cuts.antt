-- ===== src/Service/Live/Cuts.antt =====
-- The units that the loop of stack/backend/internal/service/live.go hands to the workers.
use truth_in_stream.Prelude.{
  ℕ, suc, String, Bool, true, false, List, [], ◌∷◌, ◌++◌, All, All-append, arith, ◌≡◌, refl,
  Bool-cases, inl, inr, if◌then◌else◌, itoa, leb,
}
use truth_in_stream.Prelude.Floats.{Floats}
use truth_in_stream.Service.Events.{Segment, LiveEvent, interim, subtitle, skipped, not_checked}
use truth_in_stream.Service.Sentences.{sentence_count}
use truth_in_stream.Service.Live.Flow.{Outcome, and_then-Outcome, if_then_else-Outcome, Outcome-imp}
use truth_in_stream.Service.Live.Ledger.{is_empty-cases}
use truth_in_stream.Service.Live.{
  Loop, Effect, sent, queued, send, shed, answer_offer, dispatch, flush, must_close, buffer,
  on_subtitled, on_final, must_hold, on_tick, step, analyze_loop, start, add, empty_unit, LiveUnit,
  UnitMember, PendingUnit, Offer, taken, full, canceled, Input, done, tick, closed, transcript,
  Settings,
}
use truth_in_stream.Service.Live.Units.{OneVoice, Short, Sound, Joins, add-Sound}

module _ (F : Floats) where
  -- A unit that went to the workers.
  abbrev pub Cut : ℕ → Effect F → Type 0
  Cut cap (queued u) = OneVoice u.speaker u.members × Short cap u.members
  Cut cap (sent e) = Unit

  module _ (sends : ℕ → Bool) (offers : ℕ → Offer) (cfg : Settings) where
    abbrev pub Cuts : Loop F → Type 0
    Cuts s = All (Cut cfg.max_sentences) s.effects

    abbrev pub Building : Loop F → Type 0
    Building s = Cuts s × Sound cfg.max_sentences s.unit

    emit-Cuts :
        (e : Effect F) (es : List (Effect F))
        → Cut cfg.max_sentences e
        → All (Cut cfg.max_sentences) es
        → All (Cut cfg.max_sentences) (es ++ e ∷ [])
    emit-Cuts e es he hs = All-append (Cut cfg.max_sentences) es (e ∷ []) hs (he, tt)

    send-Building :
        (P : LiveUnit → Type 0) (e : LiveEvent F) (s : Loop F)
        → Cuts s × P s.unit
        → Outcome F Cuts (λ t. Cuts t × P t.unit) (send F sends offers e s)
    unfolding send
    send-Building P e s h = elim (Bool-cases (sends s.asked)) [
      | inl t ↦ rw t (emit-Cuts (sent e) s.effects tt h.0, h.1)
      | inr t ↦ rw t h.0
    ]

    shed-Building :
        (P : LiveUnit → Type 0) (ms : List UnitMember) (s : Loop F)
        → Cuts s × P s.unit
        → Outcome F Cuts (λ t. Cuts t × P t.unit) (shed F sends offers ms s)
    unfolding shed
    shed-Building P [] s h = h
    shed-Building P (m ∷ ms) s h =
        and_then-Outcome F Cuts (λ t. Cuts t × P t.unit) (λ t. Cuts t × P t.unit)
          (send F sends offers (skipped m.id m.seg not_checked) s) (shed F sends offers ms)
          (send-Building P (skipped m.id m.seg not_checked) s h) (shed-Building P ms)

    answer_offer-Building :
        (P : LiveUnit → Type 0) (o : Offer) (u : PendingUnit) (s : Loop F)
        → Cut cfg.max_sentences (queued u)
        → Cuts s × P s.unit
        → Outcome F Cuts (λ t. Cuts t × P t.unit) (answer_offer F sends offers o u s)
    unfolding answer_offer
    answer_offer-Building P canceled u s hu h = h.0
    answer_offer-Building P taken u s hu h = (emit-Cuts (queued u) s.effects hu h.0, h.1)
    answer_offer-Building P full u s hu h = shed-Building P u.members s h

    abbrev Emptied : LiveUnit → Type 0
    Emptied u = Sound cfg.max_sentences u × (u.members ≡ [])

    empty-Emptied : Emptied empty_unit
    empty-Emptied = ((tt, refl, inl (omega arith), λ _. refl), refl)

    flush-Building :
        (s : Loop F)
        → Building s
        → Outcome F Cuts (λ t. Cuts t × Emptied t.unit) (flush F sends offers s)
    unfolding flush dispatch
    flush-Building s (cuts, sound) = elim (is_empty-cases s.unit) [
      | inl (t, none_left) ↦ rw t (cuts, (sound, none_left))
      | inr t ↦ rw t (
          answer_offer-Building Emptied (offers s.offered)
            (record { speaker = s.unit.speaker; members = s.unit.members })
            (record s { unit = empty_unit; armed = false; idle_holds = 0; offered = suc s.offered })
            (sound.0, sound.2) (cuts, empty-Emptied))
    ]

    flushed : (s : Loop F) → Building s → Outcome F Cuts Building (flush F sends offers s)
    flushed s h =
        Outcome-imp F Cuts (λ t. Cuts t × Emptied t.unit) Building (flush F sends offers s)
          (flush-Building s h) (λ t k. (k.0, k.1.0))

    buffer-Building :
        (id : String) (seg : Segment) (s : Loop F)
        → Building s × Joins cfg.max_sentences seg s.unit
        → Outcome F Cuts Building (buffer F sends offers cfg id seg (sentence_count seg.text) s)
    unfolding buffer
    buffer-Building id seg s (building, joins) =
        let t : Loop F = record s {
          unit = add id seg (sentence_count seg.text) s.unit;
          idle_holds = 0;
          armed = true;
        } in
        let after : Building t =
          (building.0, add-Sound cfg.max_sentences id seg s.unit building.1 joins) in
        if_then_else-Outcome F Cuts Building (leb cfg.max_sentences t.unit.sentences)
          (flush F sends offers t) (true, t) (λ _. flushed t after) (λ _. after)

    open-Joins :
        (seg : Segment) (u : LiveUnit)
        → must_close F sends offers cfg seg (sentence_count seg.text) u ≡ false
        → Joins cfg.max_sentences seg u
    unfolding must_close
    open-Joins seg u h = elim (is_empty-cases u) [
      | inl (t, none_left) ↦ inl none_left
      | inr t ↦ inr (ground (arith, h, t))
    ]

    on_final-Building :
        (seg : Segment) (s : Loop F)
        → Building s
        → Outcome F Cuts Building (on_final F sends offers cfg seg s)
    unfolding on_final on_subtitled
    on_final-Building seg s h =
        let Ready = λ (t : Loop F). Building t × Joins cfg.max_sentences seg t.unit in
        let n = sentence_count seg.text in
        and_then-Outcome F Cuts Building Building
          (send F sends offers (subtitle (itoa s.seq) seg) (record s { seq = suc s.seq }))
          (on_subtitled F sends offers cfg (itoa s.seq) seg n)
          (send-Building (Sound cfg.max_sentences) (subtitle (itoa s.seq) seg)
            (record s { seq = suc s.seq }) h)
          (λ t ht.
            and_then-Outcome F Cuts Ready Building
              (if must_close F sends offers cfg seg n t.unit
                then flush F sends offers t
                else (true, t))
              (buffer F sends offers cfg (itoa s.seq) seg n)
              (if_then_else-Outcome F Cuts Ready (must_close F sends offers cfg seg n t.unit)
                (flush F sends offers t) (true, t)
                (λ _.
                  Outcome-imp F Cuts (λ v. Cuts v × Emptied v.unit) Ready (flush F sends offers t)
                    (flush-Building t ht) (λ v k. ((k.0, k.1.0), inl k.1.1)))
                (λ no. (ht, open-Joins seg t.unit no)))
              (buffer-Building (itoa s.seq) seg))

    on_tick-Building :
        (s : Loop F) → Building s → Outcome F Cuts Building (on_tick F sends offers cfg s)
    unfolding on_tick
    on_tick-Building s h =
        let t : Loop F = record s { armed = false } in
        if_then_else-Outcome F Cuts Building (must_hold F sends offers cfg t)
          (true, record t { idle_holds = suc t.idle_holds; armed = true }) (flush F sends offers t)
          (λ _. h) (λ _. flushed t h)

    returned : (r : Bool × Loop F) → Outcome F Cuts Building r → Cuts r.1
    returned (false, s) h = h
    returned (true, s) h = h.0

    step-Building :
        (i : Input) (s : Loop F)
        → Building s
        → Outcome F Cuts Building (step F sends offers cfg i s)
    unfolding step
    step-Building done s h = h.0
    step-Building tick s h =
        if_then_else-Outcome F Cuts Building s.armed (on_tick F sends offers cfg s) (true, s)
          (λ _. on_tick-Building s h) (λ _. h)
    step-Building closed s h = returned (flush F sends offers s) (flushed s h)
    step-Building (transcript false seg) s h =
        send-Building (Sound cfg.max_sentences) (interim seg) s h
    step-Building (transcript true seg) s h = on_final-Building seg s h

    analyze_loop-Building :
        (inputs : List Input) (s : Loop F)
        → Building s
        → Outcome F Cuts Building (analyze_loop F sends offers cfg inputs s)
    unfolding analyze_loop
    analyze_loop-Building [] s h = h
    analyze_loop-Building (i ∷ inputs) s h =
        and_then-Outcome F Cuts Building Building (step F sends offers cfg i s)
          (analyze_loop F sends offers cfg inputs) (step-Building i s h)
          (analyze_loop-Building inputs)

    -- In every session, however it ends, each unit that is handed to the workers carries one
    -- speaker's label: its members are that speaker's or nobody's known. Its text has at most
    -- `max_sentences` sentences by the loop's own count, or it is a single segment.
    pub analyze_loop_cuts :
        (inputs : List Input)
        → All (Cut cfg.max_sentences) (analyze_loop F sends offers cfg inputs (start F)).1.effects
    analyze_loop_cuts inputs =
        returned (analyze_loop F sends offers cfg inputs (start F))
          (analyze_loop-Building inputs (start F) (tt, empty-Emptied.0))
