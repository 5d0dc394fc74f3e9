-- ===== src/Schedule/Overlap.antt =====
-- The fleet of stack/backend/internal/schedule: what `Run` guarantees of a registry.
use truth_in_stream.Prelude.{
  ℕ, ◌+◌, ◌≤◌, String, false, List, [], ◌∷◌, any, All, if◌then◌else◌, ◌=?◌, =?→≡, arith, ◌≡◌, refl,
  Bool-cases, inl, inr,
}
use truth_in_stream.Schedule.{Entry, Registry, returned, Loop, Reached}
use truth_in_stream.Schedule.Distinct.{is_for, IsDistinct, Registered, Registered-IsDistinct}
use truth_in_stream.Schedule.Single.{IsSound, as_count_le, Reached-All}

over_or_running :
    (loops : List Loop)
    → All IsSound loops
    → All (λ s. s.phase ≡ returned) loops
    → All (λ s. s.producing + s.closing ≡ 0) loops
over_or_running [] sound over = tt
over_or_running (s ∷ loops) sound over =
    let idle = sound.0.2 over.0 in
    (omega (arith, idle, sound.0.1), over_or_running loops sound.1 over.1)

module _ {Producer : Type 0} where
  -- How many producers of a source run at once.
  abbrev pub runs_of : String → List (Entry Producer) → List Loop → ℕ
  runs_of name [] loops = 0
  runs_of name (e ∷ entries) [] = 0
  runs_of name (e ∷ entries) (s ∷ loops) =
      (if e.source =? name then s.producing else 0) + runs_of name entries loops

  runs_of_none :
      (name : String) (entries : List (Entry Producer)) (loops : List Loop)
      → any (is_for name) entries ≡ false
      → runs_of name entries loops ≡ 0
  runs_of_none name [] loops h = refl
  runs_of_none name (e ∷ entries) [] h = refl
  runs_of_none name (e ∷ entries) (s ∷ loops) h =
      let rest = runs_of_none name entries loops (ground (arith, h)) in ground (arith, h, rest)

  runs_of_le :
      (name : String) (entries : List (Entry Producer)) (loops : List Loop)
      → IsDistinct entries
      → All IsSound loops
      → runs_of name entries loops ≤ 1
  runs_of_le name [] loops distinct sound = omega arith
  runs_of_le name (e ∷ entries) [] distinct sound = omega arith
  runs_of_le name (e ∷ entries) (s ∷ loops) distinct sound = elim (Bool-cases (e.source =? name)) [
    | inr other ↦ rw other (omega (arith, runs_of_le name entries loops distinct.1 sound.1))
    | inl same ↦
        let absent = rw (=?→≡ e.source name same) at distinct.0 in
        let rest = runs_of_none name entries loops absent in
        let few = as_count_le s.running in rw same (omega (arith, rest, few, sound.0.0))
  ]

  -- In every state that the scheduler of a registry reaches, whenever the timers fire, the producers
  -- return and the context is canceled: no source, by its name, has two producers running at once;
  -- and where the loops of all sources are over, so that `Run` returns, no run is left.
  pub Reached-runs :
      (r : Registry Producer) (loops : List Loop)
      → Registered r
      → Reached r.entries loops
      → ((name : String) → runs_of name r.entries loops ≤ 1)
        × (All (λ s. s.phase ≡ returned) loops → All (λ s. s.producing + s.closing ≡ 0) loops)
  Reached-runs r loops registered reached =
      let sound = Reached-All r.entries loops reached in
      (
        λ name. runs_of_le name r.entries loops (Registered-IsDistinct r registered) sound,
        over_or_running loops sound,
      )
