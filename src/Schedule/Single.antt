-- ===== src/Schedule/Single.antt =====
-- The runs of a source in stack/backend/internal/schedule/scheduler.go never overlap.
use truth_in_stream.Prelude.{
  ℕ, zero, suc, ◌+◌, ◌≤◌, Bool, true, false, List, [], ◌∷◌, All, get_elem?, set, Option, none, some,
  get_or, leb, ◌==◌, arith, ◌≡◌, refl, ap, ◌∙◌, Bool-cases, inl, inr, ◌⊎◌,
}
use truth_in_stream.Schedule.{
  Entry, Phase, ticking, draining, returned, Loop, Event, ticked, canceled, ended, closed, waited,
  start_loop, start_run, on_tick, on_event, start_loops, Reached, started, moved,
}

abbrev pub as_count : Bool → ℕ
as_count true = 1
as_count false = 0

pub as_count_le : (b : Bool) → as_count b ≤ 1
as_count_le true = omega arith
as_count_le false = omega arith

-- One producer runs just while `running` is set, `inFlight` counts the runs, and a loop that has
-- returned has none left.
abbrev pub IsSound : Loop → Type 0
IsSound s =
    (s.producing ≡ as_count s.running)
    × (s.in_flight ≡ s.producing + s.closing)
    × (s.phase ≡ returned → s.in_flight ≡ 0)

-- Of a result, if there is one.
abbrev pub Result : Option Loop → Type 0
Result none = Unit
Result (some s) = IsSound s

Phase-cases : (p : Phase) → (p ≡ ticking) ⊎ (p ≡ draining) ⊎ (p ≡ returned)
Phase-cases ticking = inl refl
Phase-cases draining = inr (inl refl)
Phase-cases returned = inr (inr refl)

is_returned : Phase → Bool
is_returned ticking = false
is_returned draining = false
is_returned returned = true

not_returned : (p : Phase) → is_returned p ≡ false → p ≡ returned → ⊥
unfolding is_returned
not_returned p h r = let never = ap is_returned r in ground (arith, h, never)

module _ {Producer : Type 0} (e : Entry Producer) where
  start_loop-IsSound : (now draw : ℕ) → IsSound (start_loop e now draw)
  unfolding start_loop
  start_loop-IsSound now draw = (refl, refl, λ h. refl)

  on_tick-Result :
      (now draw : ℕ) (s : Loop) → s.phase ≡ ticking → IsSound s → Result (on_tick e now draw s)
  unfolding on_tick start_run is_returned
  on_tick-Result now draw s phase sound =
      let ticks : is_returned s.phase ≡ false = ap is_returned phase in
      elim (Bool-cases (leb s.until now)) [
        | inr early ↦ rw early tt
        | inl fired ↦ elim (Bool-cases s.running) [
          | inl busy ↦ rw (fired, busy) (sound.0 ∙ ap as_count busy, sound.1, sound.2)
          | inr idle ↦
              let none_runs = sound.0 ∙ ap as_count idle in
              rw (fired, idle)
                (
                  omega (arith, none_runs),
                  omega (arith, sound.1),
                  λ h. absurd (not_returned s.phase ticks h),
                )
        ]
      ]

  on_event-Result : (event : Event) (s : Loop) → IsSound s → Result (on_event e event s)
  unfolding on_event is_returned
  on_event-Result (ticked now draw) s sound = elim (Phase-cases s.phase) [
    | inl t ↦ rw (t, on_event) (on_tick-Result now draw s t sound)
    | inr (inl d) ↦ rw (d, on_event) tt
    | inr (inr r) ↦ rw (r, on_event) tt
  ]
  on_event-Result canceled s sound = elim (Phase-cases s.phase) [
    | inl t ↦ rw (t, on_event) (sound.0, sound.1, λ h. absurd (not_returned draining refl h))
    | inr (inl d) ↦ rw (d, on_event) tt
    | inr (inr r) ↦ rw (r, on_event) tt
  ]
  on_event-Result ended s sound = elim (Bool-cases (s.producing == 0)) [
    | inl none_left ↦ rw (none_left, on_event) tt
    | inr some_left ↦
        rw (some_left, on_event)
          (let few = as_count_le s.running in
            (
              omega (arith, few, sound.0),
              ground (arith, few, sound.0, sound.1, some_left),
              sound.2,
            ))
  ]
  on_event-Result closed s sound = elim (Bool-cases (s.closing == 0)) [
    | inl none_left ↦ rw (none_left, on_event) tt
    | inr some_left ↦
        rw (some_left, on_event)
          (
            sound.0,
            ground (arith, sound.1, some_left),
            λ h. let none_left = sound.2 h in omega (arith, none_left),
          )
  ]
  on_event-Result waited s sound = elim (Phase-cases s.phase) [
    | inl t ↦ rw (t, on_event) tt
    | inr (inr r) ↦ rw (r, on_event) tt
    | inr (inl d) ↦ elim (Bool-cases (s.in_flight == 0)) [
      | inr busy ↦ rw (d, on_event, busy) tt
      | inl idle ↦ rw (d, on_event, idle) (sound.0, sound.1, λ h. ground (arith, idle))
    ]
  ]

  on_event-IsSound :
      (event : Event) (s s' : Loop) → on_event e event s ≡ some s' → IsSound s → IsSound s'
  on_event-IsSound event s s' h sound = rw h at (on_event-Result event s sound)

All-set :
    (loops : List Loop) (i : ℕ) (s : Loop)
    → All IsSound loops
    → IsSound s
    → All IsSound (set loops i s)
All-set [] i s h hs = tt
All-set (t ∷ loops) zero s h hs = (hs, h.1)
All-set (t ∷ loops) (suc i) s h hs = (h.0, All-set loops i s h.1 hs)

All-get :
    (loops : List Loop) (i : ℕ) (s : Loop)
    → All IsSound loops
    → get_elem? loops i ≡ some s
    → IsSound s
All-get [] i s h e = absurd (grind (arith, e))
All-get (t ∷ loops) zero s h e = let same = ap (λ o. get_or o t) e in rw same at h.0
All-get (t ∷ loops) (suc i) s h e = All-get loops i s h.1 e

module _ {Producer : Type 0} where
  start_loops-All :
      (entries : List (Entry Producer)) (starts : List (ℕ × ℕ))
      → All IsSound (start_loops entries starts)
  unfolding start_loops
  start_loops-All [] starts = tt
  start_loops-All (e ∷ entries) [] = (start_loop-IsSound e 0 0, start_loops-All entries [])
  start_loops-All (e ∷ entries) (start ∷ starts) =
      (start_loop-IsSound e start.0 start.1, start_loops-All entries starts)

  pub Reached-All :
      (entries : List (Entry Producer)) (loops : List Loop)
      → Reached entries loops
      → All IsSound loops
  Reached-All entries _ (started starts) = start_loops-All entries starts
  Reached-All entries _ (moved i e event s s' loops before entry at_i h) =
      let all = Reached-All entries loops before in
      All-set loops i s' all (on_event-IsSound e event s s' h (All-get loops i s all at_i))
