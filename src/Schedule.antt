-- ===== src/Schedule.antt =====
-- The scheduler of the ingestion fleet: stack/backend/internal/schedule, registry.go and
-- scheduler.go. A cron schedule is its `Next`, on times in nanoseconds; the parser of cron
-- expressions, the random numbers and the producers are parameters. The goroutines of the runs of a
-- source are counted by their stage, since nothing tells them apart.
pub mod Distinct
pub mod Single
pub mod Overlap
use truth_in_stream.Prelude.{
  ℕ, zero, suc, ◌+◌, ◌-◌, String, Bool, true, false, List, [], ◌∷◌, ◌++◌, any, length, get_elem?,
  set, Option, none, some, ltb, leb, ◌==◌, ◌=?◌, if◌then◌else◌, ◌≡◌, ℤ, pos, negsuc, is_negative,
}

module _ (Producer : Type 0) where
  -- `entry`
  pub record Entry : Type 0 where
    pub source : String
    pub schedule : ℕ → ℕ
    pub jitter : ℤ
    pub producer : Producer

  pub record Registry : Type 0 where
    pub entries : List Entry
    pub seen : List String

  abbrev pub empty_registry : Registry
  empty_registry = record { entries = []; seen = [] }

module _ {Producer : Type 0} where
  -- `RegisterSchedule`, none for an error: a nil schedule or producer is none.
  unfoldable pub register_schedule :
      String → Option (ℕ → ℕ) → ℤ → Option Producer → Registry Producer → Option (Registry Producer)
  register_schedule source none jitter producer r = none
  register_schedule source (some schedule) jitter none r = none
  register_schedule source (some schedule) jitter (some producer) r =
      let added : Entry Producer = record {
        source = source;
        schedule = schedule;
        jitter = jitter;
        producer = producer;
      } in
      if is_negative jitter
      then none
      else if any (λ name. name =? source) r.seen
      then none
      else some (record { entries = r.entries ++ added ∷ []; seen = source ∷ r.seen })

  -- `Register`, over `ParseSpec`
  unfoldable pub register :
      (String → Option (ℕ → ℕ))
      → String
      → String
      → Option Producer
      → Registry Producer
      → Option (Registry Producer)
  unfolding register_schedule
  register parse_spec source spec producer r = elim (parse_spec spec) [
    | none ↦ none
    | some schedule ↦ register_schedule source (some schedule) (pos 0) producer r
  ]

  -- `Registry.Len`
  abbrev pub len : Registry Producer → ℕ
  len r = length r.entries

-- Where the loop of a source is: at its `select`, at `inFlight.Wait()`, or over.
pub data Phase : Type 0 where
  ticking draining returned : Phase

-- The variables of `runSource`: the time of the timer, `running`, `inFlight`; and the runs whose
-- producer has not returned, and those that have cleared `running` but not left `inFlight`.
pub record Loop : Type 0 where
  pub phase : Phase
  pub until : ℕ
  pub running : Bool
  pub in_flight : ℕ
  pub producing : ℕ
  pub closing : ℕ

-- What happens next to the loop of a source and to its runs.
pub data Event : Type 0 where
  -- the timer has fired, and the clock and the random number of the next round
  ticked : ℕ → ℕ → Event
  canceled : Event
  -- a producer has returned, and `running` is cleared
  ended : Event
  -- a run has left `inFlight`
  closed : Event
  -- `inFlight.Wait()` is over
  waited : Event

-- `jitterFor`, with the number that `rand.N` draws
unfoldable pub jitter_for : ℤ → ℕ → ℕ
jitter_for (pos zero) draw = 0
jitter_for (pos (suc n)) draw = draw
jitter_for (negsuc n) draw = 0

-- A run starts, unless the previous one still goes on.
unfoldable pub start_run : Loop → Loop
start_run s =
    if s.running
    then s
    else record s { running = true; in_flight = suc s.in_flight; producing = suc s.producing }

module _ {Producer : Type 0} where
  -- When the timer that is set at `now` fires.
  unfoldable pub fire_at : Entry Producer → ℕ → ℕ → ℕ
  unfolding jitter_for
  fire_at e now draw = now + ((e.schedule now - now) + jitter_for e.jitter draw)

  unfoldable pub start_loop : Entry Producer → ℕ → ℕ → Loop
  unfolding fire_at
  start_loop e now draw = record {
    phase = ticking;
    until = fire_at e now draw;
    running = false;
    in_flight = 0;
    producing = 0;
    closing = 0;
  }

  unfoldable pub on_tick : Entry Producer → ℕ → ℕ → Loop → Option Loop
  unfolding fire_at start_run
  on_tick e now draw s =
      let next : Loop = record (start_run s) { until = fire_at e now draw } in
      if leb s.until now then some next else none

  -- One event of `runSource` and its runs; none where it cannot happen.
  unfoldable pub on_event : Entry Producer → Event → Loop → Option Loop
  unfolding on_tick
  on_event e (ticked now draw) s = elim s.phase [
    | ticking ↦ on_tick e now draw s
    | draining ↦ none
    | returned ↦ none
  ]
  on_event e canceled s = elim s.phase [
    | ticking ↦ some (record s { phase = draining })
    | draining ↦ none
    | returned ↦ none
  ]
  on_event e ended s =
      if s.producing == 0
      then none
      else some (record s { running = false; producing = s.producing - 1; closing = suc s.closing })
  on_event e closed s =
      if s.closing == 0
      then none
      else some (record s { in_flight = s.in_flight - 1; closing = s.closing - 1 })
  on_event e waited s = elim s.phase [
    | ticking ↦ none
    | draining ↦ if s.in_flight == 0 then some (record s { phase = returned }) else none
    | returned ↦ none
  ]

  -- The loops of `Run`, each started at a time and with a random number of its own.
  unfoldable pub start_loops : List (Entry Producer) → List (ℕ × ℕ) → List Loop
  unfolding start_loop
  start_loops [] starts = []
  start_loops (e ∷ entries) [] = start_loop e 0 0 ∷ start_loops entries []
  start_loops (e ∷ entries) (start ∷ starts) =
      start_loop e start.0 start.1 ∷ start_loops entries starts

  -- The sources of a scheduler and the states of their loops that `Run` can reach: the loops start,
  -- and one of them at a time takes an event.
  pub data Reached (entries : List (Entry Producer)) : List Loop → Type 0 where
    started : (starts : List (ℕ × ℕ)) → Reached entries (start_loops entries starts)
    moved :
        (i : ℕ) (e : Entry Producer) (event : Event) (s s' : Loop) (loops : List Loop)
        → Reached entries loops
        → get_elem? entries i ≡ some e
        → get_elem? loops i ≡ some s
        → on_event e event s ≡ some s'
        → Reached entries (set loops i s')
