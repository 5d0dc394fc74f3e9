-- ===== src/Service/Live/Ledger.antt =====
-- A ledger of what becomes of the final segments that the loop of stack/backend/internal/service/live.go
-- subtitles: the units it hands over, and the members it reports as not checked.
use truth_in_stream.Prelude.{
  ℕ, suc, ◌+◌, gather, gather-snoc, Bool, true, false, List, [], ◌∷◌, ◌++◌, length, itoa,
  append-nil, append_assoc, arith, ◌≡◌, refl, ◌∙◌, ap, Bool-cases, inl, inr, ◌⊎◌,
}
use truth_in_stream.Prelude.Floats.{Floats}
use truth_in_stream.Service.Events.{
  Segment, LiveEvent, subtitle, skipped, unit_failed, matched, not_checked,
}
use truth_in_stream.Service.Live.Flow.{Holds, and_then-Holds}
use truth_in_stream.Service.Live.{
  Loop, Effect, sent, queued, send, shed, answer_offer, dispatch, flush, is_empty, empty_unit,
  LiveUnit, UnitMember, PendingUnit, Offer, taken, full, canceled, Input, done, tick, closed,
  transcript, Settings,
}

-- The final segments with the ids that they should get, from a number on.
abbrev pub numbered : ℕ → List Segment → List UnitMember
numbered n [] = []
numbered n (seg ∷ segs) = record { id = itoa n; seg = seg } ∷ numbered (suc n) segs

abbrev pub finals : List Input → List Segment
finals [] = []
finals (transcript true seg ∷ inputs) = seg ∷ finals inputs
finals (transcript false seg ∷ inputs) = finals inputs
finals (done ∷ inputs) = finals inputs
finals (tick ∷ inputs) = finals inputs
finals (closed ∷ inputs) = finals inputs

pub numbered-append :
    (n : ℕ) (xs : List Segment) (seg : Segment)
    → numbered n (xs ++ seg ∷ [])
      ≡ numbered n xs ++ record { id = itoa (n + length xs); seg = seg } ∷ []
numbered-append n [] seg = λ i. record { id = itoa (plus_zero n i); seg = seg } ∷ []
  where
    plus_zero : (n : ℕ) → n ≡ n + 0
    plus_zero n = omega arith
numbered-append n (x ∷ xs) seg =
    ap (λ l. record { id = itoa n; seg = x } ∷ l) (numbered-append (suc n) xs seg)
    ∙ ap
        (λ k.
          record { id = itoa n; seg = x } ∷ numbered (suc n) xs
          ++ record { id = itoa k; seg = seg } ∷ [])
        (shift n (length xs))
  where
    shift : (n k : ℕ) → suc n + k ≡ n + suc k
    shift n k = omega arith

pub is_empty-cases :
    (u : LiveUnit) → ((is_empty u ≡ true) × (u.members ≡ [])) ⊎ (is_empty u ≡ false)
unfolding is_empty
is_empty-cases u =
    elim u.members
      as (λ ms.
        ((elim ms [ [] ↦ true | _ ∷ _ ↦ false ] ≡ true) × (ms ≡ []))
        ⊎ (elim ms [ [] ↦ true | _ ∷ _ ↦ false ] ≡ false)) [
          | [] ↦ inl (refl, refl)
          | _ ∷ _ ↦ inr refl
        ]

module _ (F : Floats) where
  -- The member that a result event answers for.
  abbrev pub answered : LiveEvent F → List UnitMember
  answered (skipped id seg reason) = record { id = id; seg = seg } ∷ []
  answered (unit_failed id seg) = record { id = id; seg = seg } ∷ []
  answered (matched id seg reason matches confidence) = record { id = id; seg = seg } ∷ []
  answered _ = []

  -- What an event or a queued unit settles: the members that it gives a result or a worker.
  abbrev pub settled : Effect F → List UnitMember
  settled (queued u) = u.members
  settled (sent e) = answered e

  abbrev pub captioned : Effect F → List UnitMember
  captioned (sent (subtitle id seg)) = record { id = id; seg = seg } ∷ []
  captioned _ = []

  -- The subtitles so far are the segments, numbered in order; what is settled, with what is still
  -- waiting behind it, is the same.
  abbrev pub Ledger : List Segment → List UnitMember → Loop F → Type 0
  Ledger segs waiting s =
      (gather settled s.effects ++ waiting ≡ numbered 0 segs)
      × (gather captioned s.effects ≡ numbered 0 segs)
      × (s.seq ≡ length segs)

  pub settle :
      (e : Effect F) (segs : List Segment) (waiting : List UnitMember) (s : Loop F)
      → captioned e ≡ []
      → Ledger segs (settled e ++ waiting) s
      → Ledger segs waiting (record s { effects = s.effects ++ e ∷ [] })
  settle e segs waiting s h (balance, captions, next) = (
    ap (λ l. l ++ waiting) (gather-snoc settled s.effects e)
        ∙ append_assoc (gather settled s.effects) (settled e) waiting
        ∙ balance,
    gather-snoc captioned s.effects e
        ∙ ap (λ l. gather captioned s.effects ++ l) h
        ∙ append-nil (gather captioned s.effects)
        ∙ captions,
    next,
  )

  module _ (sends : ℕ → Bool) (offers : ℕ → Offer) (cfg : Settings) where
    pub send-Holds :
        (P : Loop F → Type 0) (e : LiveEvent F) (s : Loop F)
        → P (record s { effects = s.effects ++ sent e ∷ []; asked = suc s.asked })
        → Holds F P (send F sends offers e s)
    unfolding send
    send-Holds P e s h = elim (Bool-cases (sends s.asked)) [ inl t ↦ rw t h | inr t ↦ rw t tt ]

    -- The unit stays empty while a full queue sheds the last one.
    shed-Ledger :
        (segs : List Segment) (waiting ms : List UnitMember) (s : Loop F)
        → s.unit.members ≡ []
        → Ledger segs (ms ++ waiting) s
        → Holds F (λ t. (t.unit.members ≡ []) × Ledger segs waiting t) (shed F sends offers ms s)
    unfolding shed
    shed-Ledger segs waiting [] s same h = (same, h)
    shed-Ledger segs waiting (m ∷ ms) s same h =
        and_then-Holds F (λ t. (t.unit.members ≡ []) × Ledger segs (ms ++ waiting) t)
          (λ t. (t.unit.members ≡ []) × Ledger segs waiting t)
          (send F sends offers (skipped m.id m.seg not_checked) s) (shed F sends offers ms)
          (send-Holds (λ t. (t.unit.members ≡ []) × Ledger segs (ms ++ waiting) t)
            (skipped m.id m.seg not_checked) s
            (same, settle (sent (skipped m.id m.seg not_checked)) segs (ms ++ waiting) s refl h))
          (λ t k. shed-Ledger segs waiting ms t k.0 k.1)

    answer_offer-Ledger :
        (o : Offer) (p : PendingUnit) (segs : List Segment) (waiting : List UnitMember) (s : Loop F)
        → s.unit.members ≡ []
        → Ledger segs (p.members ++ waiting) s
        → Holds F
            (λ t. (t.unit.members ≡ []) × Ledger segs waiting t)
            (answer_offer F sends offers o p s)
    unfolding answer_offer
    answer_offer-Ledger canceled p segs waiting s same h = tt
    answer_offer-Ledger taken p segs waiting s same h =
        (same, settle (queued p) segs waiting s refl h)
    answer_offer-Ledger full p segs waiting s same h = shed-Ledger segs waiting p.members s same h

    pub flush-Ledger :
        (segs : List Segment) (waiting : List UnitMember) (s : Loop F)
        → Ledger segs (s.unit.members ++ waiting) s
        → Holds F (λ t. (t.unit.members ≡ []) × Ledger segs waiting t) (flush F sends offers s)
    unfolding flush is_empty dispatch
    flush-Ledger segs waiting s h = elim (is_empty-cases s.unit) [
      | inl (t, none_left) ↦ rw t (none_left, rw none_left at h)
      | inr t ↦ rw t (
          answer_offer-Ledger (offers s.offered)
            (record { speaker = s.unit.speaker; members = s.unit.members }) segs waiting
            (record s { unit = empty_unit; armed = false; idle_holds = 0; offered = suc s.offered })
            refl h)
    ]
