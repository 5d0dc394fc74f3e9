-- ===== src/Examples/Schedules.antt =====
-- The scheduler at concrete inputs: one source, every ten units of time.
use truth_in_stream.Prelude.{
  ℕ, ◌+◌, ◌*◌, ◌/◌, ◌≤◌, String, true, [], ◌∷◌, All, none, some, ◌≡◌, refl, pos,
}
use truth_in_stream.Schedule.{
  Entry, Registry, empty_registry, register_schedule, register, returned, Loop, ticked, start_loop,
  on_event, start_loops, Reached, started, moved,
}
use truth_in_stream.Schedule.Distinct.{Registered, unused, added}
use truth_in_stream.Schedule.Overlap.{runs_of, Reached-runs}

abbrev every_ten : ℕ → ℕ
every_ten t = 10 * (t / 10) + 10

abbrev crawl : Entry String
crawl = record { source = "wiki"; schedule = every_ten; jitter = pos 0; producer = "crawl" }

abbrev fleet : Registry String
fleet = record { entries = crawl ∷ []; seen = "wiki" ∷ [] }

fleet-Registered : Registered fleet
unfolding register_schedule
fleet-Registered =
    added "wiki" (some every_ten) (pos 0) (some "crawl") (empty_registry String) fleet unused refl

refuses_twins : register_schedule "wiki" (some every_ten) (pos 0) (some "again") fleet ≡ none
unfolding register_schedule
refuses_twins = refl

refuses_specs : register (λ spec. none) "votes" "* *" (some "votes") fleet ≡ none
unfolding register
refuses_specs = refl

-- A second tick during a run starts no other one.
abbrev busy : Loop
busy = record (start_loop crawl 3 0) { until = 30; running = true; in_flight = 1; producing = 1 }

skips : on_event crawl (ticked 20 0) (record busy { until = 20 }) ≡ some busy
unfolding on_event start_loop
skips = refl

too_early : on_event crawl (ticked 9 0) (start_loop crawl 3 0) ≡ none
unfolding on_event start_loop
too_early = refl

busy-Reached : Reached fleet.entries (record busy { until = 20 } ∷ [])
unfolding on_event start_loop start_loops
busy-Reached =
    moved 0 crawl (ticked 10 0) (start_loop crawl 3 0) (record busy { until = 20 })
      (start_loop crawl 3 0 ∷ []) (started ((3, 0) ∷ [])) refl refl refl

Reached-runs_example :
    ((name : String) → runs_of name fleet.entries (record busy { until = 20 } ∷ []) ≤ 1)
    × (All (λ s. s.phase ≡ returned) (record busy { until = 20 } ∷ [])
        → All (λ s. s.producing + s.closing ≡ 0) (record busy { until = 20 } ∷ []))
Reached-runs_example =
    Reached-runs fleet (record busy { until = 20 } ∷ []) fleet-Registered busy-Reached
