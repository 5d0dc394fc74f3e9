-- ===== src/Service/Live/Order.antt =====
-- What becomes of the final segments that the loop of stack/backend/internal/service/live.go
-- subtitles: the units it hands over, and the members it reports as not checked.
use truth_in_stream.Prelude.{
  gather, gather-snoc, ℕ, String, suc, ◌+◌, Bool, true, false, List, [], ◌∷◌, ◌++◌, length, itoa,
  append-nil, append_assoc, length-append, arith, ◌≡◌, refl, sym, ◌∙◌, ap, if◌then◌else◌, leb,
}
use truth_in_stream.Prelude.Floats.{Floats}
use truth_in_stream.Service.Events.{Segment, interim, subtitle}
use truth_in_stream.Service.Sentences.{sentence_count}
use truth_in_stream.Service.Live.Ledger.{
  numbered, finals, numbered-append, settled, captioned, Ledger, settle, send-Holds, flush-Ledger,
}
use truth_in_stream.Service.Live.Flow.{Holds, and_then-Holds, Holds-imp, if_then_else-Holds}
use truth_in_stream.Service.Live.{
  Loop, sent, send, flush, must_close, buffer, on_subtitled, on_final, on_tick, must_hold, step,
  analyze_loop, add, UnitMember, Offer, Input, done, tick, closed, transcript, Settings,
}

module _ (F : Floats) where
  module _ (sends : ℕ → Bool) (offers : ℕ → Offer) (cfg : Settings) where
    -- The state between two statements of the loop: only the unit is still waiting.
    abbrev pub Balanced : List Segment → Loop F → Type 0
    Balanced segs s = Ledger F segs s.unit.members s

    only_waiting :
        (segs : List Segment) (t : Loop F)
        → (t.unit.members ≡ []) × Ledger F segs [] t
        → Balanced segs t
    only_waiting segs t (none_left, h) = rw none_left h

    flush-Balanced :
        (segs : List Segment) (s : Loop F)
        → Balanced segs s
        → Holds F (Balanced segs) (flush F sends offers s)
    flush-Balanced segs s h =
        Holds-imp F (λ t. (t.unit.members ≡ []) × Ledger F segs [] t) (Balanced segs)
          (flush F sends offers s)
          (flush-Ledger F sends offers cfg segs [] s (rw (append-nil s.unit.members) h))
          (only_waiting segs)

    buffer-Balanced :
        (segs : List Segment) (id : String) (seg : Segment) (n : ℕ) (s : Loop F)
        → Ledger F segs (s.unit.members ++ record { id = id; seg = seg } ∷ []) s
        → Holds F (Balanced segs) (buffer F sends offers cfg id seg n s)
    unfolding buffer add
    buffer-Balanced segs id seg n s h =
        let t = record s { unit = add id seg n s.unit; idle_holds = 0; armed = true } in
        if_then_else-Holds F (Balanced segs) (leb cfg.max_sentences t.unit.sentences)
          (flush F sends offers t) (true, t) (λ _. flush-Balanced segs t h) (λ _. h)

    on_subtitled-Balanced :
        (segs : List Segment) (id : String) (seg : Segment) (n : ℕ) (s : Loop F)
        → Ledger F segs (s.unit.members ++ record { id = id; seg = seg } ∷ []) s
        → Holds F (Balanced segs) (on_subtitled F sends offers cfg id seg n s)
    unfolding on_subtitled
    on_subtitled-Balanced segs id seg n s h =
        let Waiting =
          λ (t : Loop F). Ledger F segs (t.unit.members ++ record { id = id; seg = seg } ∷ []) t in
        and_then-Holds F Waiting (Balanced segs)
          (if must_close F sends offers cfg seg n s.unit then flush F sends offers s else (true, s))
          (buffer F sends offers cfg id seg n)
          (if_then_else-Holds F Waiting (must_close F sends offers cfg seg n s.unit)
            (flush F sends offers s) (true, s)
            (λ _.
              Holds-imp F
                (λ t. (t.unit.members ≡ []) × Ledger F segs (record { id = id; seg = seg } ∷ []) t)
                Waiting (flush F sends offers s)
                (flush-Ledger F sends offers cfg segs (record { id = id; seg = seg } ∷ []) s h)
                (λ t k. rw k.0 k.1))
            (λ _. h))
          (buffer-Balanced segs id seg n)

    extended :
        (segs : List Segment) (seg : Segment) (n : ℕ)
        → n ≡ length segs
        → numbered 0 segs ++ record { id = itoa n; seg = seg } ∷ [] ≡ numbered 0 (segs ++ seg ∷ [])
    extended segs seg n h =
        ap (λ k. numbered 0 segs ++ record { id = itoa k; seg = seg } ∷ [])
          (h ∙ zero_plus (length segs))
        ∙ sym (numbered-append 0 segs seg)
      where
        zero_plus : (k : ℕ) → k ≡ 0 + k
        zero_plus k = omega arith

    caption :
        (segs : List Segment) (seg : Segment) (s : Loop F)
        → Balanced segs s
        → Ledger F
            (segs ++ seg ∷ [])
            (s.unit.members ++ record { id = itoa s.seq; seg = seg } ∷ [])
            (record s {
              seq = suc s.seq;
              effects = s.effects ++ sent (subtitle (itoa s.seq) seg) ∷ [];
              asked = suc s.asked;
            })
    caption segs seg s (balance, captions, next) =
        let e = sent (subtitle (itoa s.seq) seg) in
        let m : List UnitMember = record { id = itoa s.seq; seg = seg } ∷ [] in
        (
          ap (λ l. l ++ (s.unit.members ++ m))
                (gather-snoc (settled F) s.effects e ∙ append-nil (gather (settled F) s.effects))
              ∙ sym (append_assoc (gather (settled F) s.effects) s.unit.members m)
              ∙ ap (λ l. l ++ m) balance
              ∙ extended segs seg s.seq next,
          gather-snoc (captioned F) s.effects e
              ∙ ap (λ l. l ++ m) captions
              ∙ extended segs seg s.seq next,
          omega (arith, next, length-append segs (seg ∷ [])),
        )

    on_final-Balanced :
        (segs : List Segment) (seg : Segment) (s : Loop F)
        → Balanced segs s
        → Holds F (Balanced (segs ++ seg ∷ [])) (on_final F sends offers cfg seg s)
    unfolding on_final
    on_final-Balanced segs seg s h =
        and_then-Holds F
          (λ t.
            Ledger F (segs ++ seg ∷ [])
              (t.unit.members ++ record { id = itoa s.seq; seg = seg } ∷ []) t)
          (Balanced (segs ++ seg ∷ []))
          (send F sends offers (subtitle (itoa s.seq) seg) (record s { seq = suc s.seq }))
          (on_subtitled F sends offers cfg (itoa s.seq) seg (sentence_count seg.text))
          (send-Holds F sends offers cfg
            (λ t.
              Ledger F (segs ++ seg ∷ [])
                (t.unit.members ++ record { id = itoa s.seq; seg = seg } ∷ []) t)
            (subtitle (itoa s.seq) seg) (record s { seq = suc s.seq }) (caption segs seg s h))
          (on_subtitled-Balanced (segs ++ seg ∷ []) (itoa s.seq) seg (sentence_count seg.text))

    on_tick-Balanced :
        (segs : List Segment) (s : Loop F)
        → Balanced segs s
        → Holds F (Balanced segs) (on_tick F sends offers cfg s)
    unfolding on_tick
    on_tick-Balanced segs s h =
        if_then_else-Holds F (Balanced segs)
          (must_hold F sends offers cfg (record s { armed = false }))
          (true, record s { idle_holds = suc s.idle_holds; armed = true })
          (flush F sends offers (record s { armed = false })) (λ _. h)
          (λ _. flush-Balanced segs (record s { armed = false }) h)

    step-Balanced :
        (segs : List Segment) (i : Input) (s : Loop F)
        → Balanced segs s
        → Holds F (Balanced (segs ++ finals (i ∷ []))) (step F sends offers cfg i s)
    unfolding step
    step-Balanced segs done s h = tt
    step-Balanced segs closed s h = tt
    step-Balanced segs tick s h = rw (append-nil segs) (
        if_then_else-Holds F (Balanced segs) s.armed (on_tick F sends offers cfg s) (true, s)
          (λ _. on_tick-Balanced segs s h) (λ _. h))
    step-Balanced segs (transcript false seg) s h = rw (append-nil segs) (
        send-Holds F sends offers cfg (Balanced segs) (interim seg) s
          (settle F (sent (interim seg)) segs s.unit.members s refl h))
    step-Balanced segs (transcript true seg) s h = on_final-Balanced segs seg s h

    finals-cons :
        (i : Input) (inputs : List Input) → finals (i ∷ inputs) ≡ finals (i ∷ []) ++ finals inputs
    finals-cons done inputs = refl
    finals-cons tick inputs = refl
    finals-cons closed inputs = refl
    finals-cons (transcript false seg) inputs = refl
    finals-cons (transcript true seg) inputs = refl

    pub analyze_loop-Balanced :
        (segs : List Segment) (inputs : List Input) (s : Loop F)
        → Balanced segs s
        → Holds F (Balanced (segs ++ finals inputs)) (analyze_loop F sends offers cfg inputs s)
    unfolding analyze_loop
    analyze_loop-Balanced segs [] s h = rw (append-nil segs) h
    analyze_loop-Balanced segs (i ∷ inputs) s h =
        rw (finals-cons i inputs, ← append_assoc segs (finals (i ∷ [])) (finals inputs))
          (and_then-Holds F (Balanced (segs ++ finals (i ∷ [])))
            (Balanced ((segs ++ finals (i ∷ [])) ++ finals inputs)) (step F sends offers cfg i s)
            (analyze_loop F sends offers cfg inputs) (step-Balanced segs i s h)
            (analyze_loop-Balanced (segs ++ finals (i ∷ [])) inputs))
