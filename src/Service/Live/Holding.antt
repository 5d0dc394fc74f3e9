-- ===== src/Service/Live/Holding.antt =====
-- How long the loop of stack/backend/internal/service/live.go holds a unit that no more speech
-- joins: the idle timer and the number of idle windows.
use truth_in_stream.Prelude.{
  ℕ, zero, suc, ◌+◌, ◌<◌, Bool, true, false, not, List, [], ◌∷◌, ◌++◌, All, arith, ◌≡◌, ◌≢◌, refl,
  ap, inl, inr, ◌⊎◌, All-append,
}
use truth_in_stream.Prelude.Floats.{Floats}
use truth_in_stream.Service.Live.Flow.{
  Holds, Holds-imp, Holds-elim, and_then-Holds, if_then_else-Holds, analyze_loop-append,
}
use truth_in_stream.Service.Live.Ledger.{is_empty-cases}
use truth_in_stream.Service.Live.Timer.{Timed, Idle, on_tick-Timed, analyze_loop-Timed}
use truth_in_stream.Service.Live.Delivery.{stays_open, analyze_loop-goes_on}
use truth_in_stream.Service.Live.{
  Loop, and_then, on_tick, step, analyze_loop, start, is_empty, Offer, canceled, Input, tick,
  Settings, max_idle_holds,
}

abbrev pub ticks : ℕ → List Input
ticks zero = []
ticks (suc k) = tick ∷ ticks k

module _ (F : Floats) where
  module _ (sends : ℕ → Bool) (offers : ℕ → Offer) (cfg : Settings) where
    -- So many ticks are enough to empty the unit.
    abbrev Waiting : ℕ → Loop F → Type 0
    Waiting k s =
        Timed F sends offers cfg s
        × ((s.unit.members ≡ []) ⊎ (max_idle_holds cfg < s.idle_holds + k))

    disarmed-empty :
        (s : Loop F) → Timed F sends offers cfg s → s.armed ≡ false → s.unit.members ≡ []
    disarmed-empty s h off = elim (is_empty-cases s.unit) [
      | inl (t, none_left) ↦ none_left
      | inr t ↦ absurd (cc (ap not t))
    ]

    quiet_disarmed :
        (s : Loop F) → Timed F sends offers cfg s → s.unit.members ≡ [] → s.armed ≡ false
    unfolding is_empty
    quiet_disarmed s h e = rw e at h.1

    armed-not_empty :
        (s : Loop F) → Timed F sends offers cfg s → s.armed ≡ true → s.unit.members ≢ []
    armed-not_empty s h on e = cc (quiet_disarmed s h e)

    one_less :
        (k : ℕ) (s t : Loop F)
        → s.armed ≡ true
        → Waiting (suc k) s
        → (t.unit.members ≡ []) ⊎ (t.idle_holds ≡ suc s.idle_holds)
        → (t.unit.members ≡ []) ⊎ (max_idle_holds cfg < t.idle_holds + k)
    one_less k s t on h (inl e) = inl e
    one_less k s t on h (inr e) = elim h.1 [
      | inl none_left ↦ absurd (armed-not_empty s h.0 on none_left)
      | inr many ↦ inr (omega (arith, many, e))
    ]

    tick-Waiting :
        (k : ℕ) (s : Loop F)
        → Waiting (suc k) s
        → Holds F (Waiting k) (step F sends offers cfg tick s)
    unfolding step
    tick-Waiting k s h =
        if_then_else-Holds F (Waiting k) s.armed (on_tick F sends offers cfg s) (true, s)
          (λ on.
            Holds-imp F
              (λ t.
                Timed F sends offers cfg t
                × ((t.unit.members ≡ []) ⊎ (t.idle_holds ≡ suc s.idle_holds)))
              (Waiting k) (on_tick F sends offers cfg s) (on_tick-Timed F sends offers cfg s h.0)
              (λ t j. (j.0, one_less k s t on h j.1)))
          (λ off. (h.0, inl (disarmed-empty s h.0 off)))

    ticks-Idle :
        (k : ℕ) (s : Loop F)
        → Waiting k s
        → Holds F (Idle F sends offers cfg) (analyze_loop F sends offers cfg (ticks k) s)
    unfolding analyze_loop
    ticks-Idle zero s h =
        (h.0, elim h.1 [ inl e ↦ e | inr many ↦ absurd (omega (arith, many, h.0.0)) ])
    ticks-Idle (suc k) s h =
        and_then-Holds F (Waiting k) (Idle F sends offers cfg) (step F sends offers cfg tick s)
          (analyze_loop F sends offers cfg (ticks k)) (tick-Waiting k s h) (ticks-Idle k)

    session_after_ticks :
        (r : Bool × Loop F)
        → Holds F (Timed F sends offers cfg) r
        → Holds F
            (Idle F sends offers cfg)
            (and_then F r (analyze_loop F sends offers cfg (ticks (suc (max_idle_holds cfg)))))
    unfolding and_then
    session_after_ticks (false, s) h = tt
    session_after_ticks (true, s) h = ticks-Idle (suc (max_idle_holds cfg)) s (h, inr (omega arith))

    ticks_open : (k : ℕ) → All (λ i. stays_open i ≡ true) (ticks k)
    ticks_open zero = tt
    ticks_open (suc k) = (refl, ticks_open k)

    -- Where every send succeeds and no offer is canceled: after any transcripts and ticks, one tick
    -- more than the hold allows, `max_hold / idle_flush`, leaves the loop running with nothing
    -- buffered and its timer stopped.
    pub analyze_loop_idles :
        (all_sent : (n : ℕ) → sends n ≡ true) (none_canceled : (n : ℕ) → offers n ≢ canceled)
        (inputs : List Input)
        → All (λ i. stays_open i ≡ true) inputs
        → let r =
            analyze_loop F sends offers cfg
              (inputs ++ ticks (suc (max_idle_holds cfg)))
              (start F) in
          (r.0 ≡ true) × (r.1.unit.members ≡ []) × (r.1.armed ≡ false)
    unfolding is_empty
    analyze_loop_idles all_sent none_canceled inputs h =
        let later = ticks (suc (max_idle_holds cfg)) in
        let running =
          analyze_loop-goes_on F sends offers cfg all_sent none_canceled (inputs ++ later) (start F)
            (All-append (λ i. stays_open i ≡ true) inputs later h
              (ticks_open (suc (max_idle_holds cfg)))) in
        let (timed, none_left) =
          Holds-elim F (Idle F sends offers cfg)
            (analyze_loop F sends offers cfg (inputs ++ later) (start F)) running
            (rw (analyze_loop-append F sends offers cfg inputs later (start F)) (
              session_after_ticks (analyze_loop F sends offers cfg inputs (start F))
                (analyze_loop-Timed F sends offers cfg inputs (start F) (omega arith, refl)))) in
        (
          running,
          none_left,
          quiet_disarmed (analyze_loop F sends offers cfg (inputs ++ later) (start F)).1 timed
              none_left,
        )
