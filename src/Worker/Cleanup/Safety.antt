-- ===== src/Worker/Cleanup/Safety.antt =====
-- Which task sets stack/backend/internal/workerlifecycle/cleanup.go keeps.
use truth_in_stream.Prelude.{
  ℕ, ◌<◌, true, false, not, ◌&&◌, List, [], ◌∷◌, Option, none, some, Runes, length, any, ltb, ◌==◌,
  All, arith, ◌≡◌, refl, sym, ap, inl, inr, ◌⊎◌, Bool-cases, &&_true,
}
use truth_in_stream.Prelude.Sorting.{All-sort_stable}
use truth_in_stream.Worker.Versions.{
  Depths, same_text, newest_version, versioned_depths, names, queue_version, set_depth,
  record_depth, depths_onto,
}
use truth_in_stream.Worker.Cleanup.{
  drained, retirable_of, retirable_versions, text_greater, TaskSet, PrimaryTaskSet, RetirePolicy,
  retire_reason,
}

same_text-≡ : (a b : Runes) → same_text a b ≡ true → a ≡ b
unfolding same_text
same_text-≡ [] [] h = refl
same_text-≡ [] (d ∷ t) h = cc
same_text-≡ (c ∷ s) [] h = cc
same_text-≡ (c ∷ s) (d ∷ t) h = ground (arith, h, same_text-≡ s t)

same_text_comm : (a b : Runes) → same_text a b ≡ same_text b a
unfolding same_text
same_text_comm [] [] = refl
same_text_comm [] (d ∷ t) = refl
same_text_comm (c ∷ s) [] = refl
same_text_comm (c ∷ s) (d ∷ t) = ground (arith, same_text_comm s t)

-- A backlog that is recorded under the version is positive.
abbrev Busy : Runes → Runes × ℕ → Type 0
Busy v e = same_text v e.0 ≡ true → 0 < e.1

set_depth-Busy :
    (v w : Runes) (depth : ℕ) (out : Depths)
    → (same_text v w ≡ true → 0 < depth)
    → All (Busy v) out
    → All (Busy v) (set_depth w depth out)
unfolding set_depth
set_depth-Busy v w depth [] h k = (h, tt)
set_depth-Busy v w depth (entry ∷ rest) h (ke, k) = elim (Bool-cases (same_text entry.0 w)) [
  | inl t ↦ rw t (h, k)
  | inr t ↦ rw t (ke, set_depth-Busy v w depth rest h k)
]

record_depth-Busy :
    (v : Runes) (o : Option Runes) (depth : ℕ) (out : Depths)
    → (o ≡ some v → 0 < depth)
    → All (Busy v) out
    → All (Busy v) (record_depth o depth out)
unfolding record_depth
record_depth-Busy v none depth out h k = k
record_depth-Busy v (some w) depth out h k =
    set_depth-Busy v w depth out (λ e. h (ap some (sym (same_text-≡ v w e)))) k

depths_onto-Busy :
    (v base : Runes) (out depths : Depths)
    → All (λ e. queue_version e.0 base ≡ some v → 0 < e.1) depths
    → All (Busy v) out
    → All (Busy v) (depths_onto out base depths)
unfolding depths_onto
depths_onto-Busy v base out [] h k = k
depths_onto-Busy v base out (entry ∷ depths) (he, h) k =
    depths_onto-Busy v base (record_depth (queue_version entry.0 base) entry.1 out) depths h
      (record_depth-Busy v (queue_version entry.0 base) entry.1 out he k)

-- The list does not name the version.
abbrev Spares : Runes → List Runes → Type 0
Spares v = All (λ w. same_text v w ≡ false)

drained-Spares-Busy :
    (v current : Runes) (ds : Depths) → All (Busy v) ds → Spares v (names (drained current ds))
unfolding drained
drained-Spares-Busy v current [] h = tt
drained-Spares-Busy v current (e ∷ ds) (he, h) =
    elim (Bool-cases (not (same_text e.0 current) && e.1 == 0)) [
      | inl t ↦ rw t (idle_other v current e he t, drained-Spares-Busy v current ds h)
      | inr t ↦ rw t (drained-Spares-Busy v current ds h)
    ]
  where
    idle_other :
        (v current : Runes) (e : Runes × ℕ)
        → Busy v e
        → (not (same_text e.0 current) && e.1 == 0) ≡ true
        → same_text v e.0 ≡ false
    idle_other v current e he t = elim (Bool-cases (same_text v e.0)) [
      | inr differs ↦ differs
      | inl same ↦ absurd (ground (arith, he same, t))
    ]

drained-Spares_current : (v : Runes) (ds : Depths) → Spares v (names (drained v ds))
unfolding drained
drained-Spares_current v [] = tt
drained-Spares_current v (e ∷ ds) = elim (Bool-cases (not (same_text e.0 v) && e.1 == 0)) [
  | inl t ↦
      rw t (other v e (&&_true (not (same_text e.0 v)) (e.1 == 0) t).0, drained-Spares_current v ds)
  | inr t ↦ rw t (drained-Spares_current v ds)
]
  where
    other : (v : Runes) (e : Runes × ℕ) → not (same_text e.0 v) ≡ true → same_text v e.0 ≡ false
    other v e t = ground (arith, t, same_text_comm v e.0)

drained-Spares_same :
    (v current : Runes) (ds : Depths) → current ≡ v → Spares v (names (drained current ds))
drained-Spares_same v current ds e = rw e (drained-Spares_current v ds)

spared_not_retirable : (v : Runes) (ws : List Runes) → Spares v ws → any (same_text v) ws ≡ false
spared_not_retirable v [] h = refl
spared_not_retirable v (w ∷ ws) (hw, h) = rw hw (spared_not_retirable v ws h)

-- The version that `NewestVersion` picks from the map, if the map is not empty.
abbrev pub current_version : Depths → Option Runes
current_version [] = none
current_version (e ∷ ds) = some (newest_version e.0 (names ds))

retirable_of-Spares :
    (v : Runes) (ds : Depths)
    → (current_version ds ≡ some v) ⊎ All (Busy v) ds
    → Spares v (retirable_of ds)
unfolding retirable_of
retirable_of-Spares v [] h = tt
retirable_of-Spares v (e ∷ ds) h = elim (Bool-cases (ltb (length (e ∷ ds)) 2)) [
  | inl t ↦ rw t tt
  | inr t ↦ rw t (
      All-sort_stable text_greater (λ w. same_text v w ≡ false)
        (names (drained (newest_version e.0 (names ds)) (e ∷ ds))) (spared h))
]
  where
    spared :
        (current_version (e ∷ ds) ≡ some v) ⊎ All (Busy v) (e ∷ ds)
        → Spares v (names (drained (newest_version e.0 (names ds)) (e ∷ ds)))
    spared (inl newest) = drained-Spares_same v (newest_version e.0 (names ds)) (e ∷ ds) (cc newest)
    spared (inr busy) = drained-Spares-Busy v (newest_version e.0 (names ds)) (e ∷ ds) busy

versioned_depths-Busy :
    (v base : Runes) (depths : Depths)
    → (current_version (versioned_depths depths base) ≡ some v)
      ⊎ All (λ e. queue_version e.0 base ≡ some v → 0 < e.1) depths
    → (current_version (versioned_depths depths base) ≡ some v)
      ⊎ All (Busy v) (versioned_depths depths base)
unfolding versioned_depths
versioned_depths-Busy v base depths (inl newest) = inl newest
versioned_depths-Busy v base depths (inr busy) = inr (depths_onto-Busy v base [] depths busy tt)

-- A task set with running tasks, on a known version other than the primary's, is kept whatever the
-- ages, when its version is the newest one of the queues or every queue of it has messages left.
pub retire_reason_keeps :
    (depths : Depths) (base : Runes) (ts : TaskSet) (primary : PrimaryTaskSet)
    (policy : RetirePolicy) (now : ℕ)
    → same_text ts.version [] ≡ false
    → same_text ts.version primary.version ≡ false
    → 0 < ts.running_count
    → (current_version (versioned_depths depths base) ≡ some ts.version)
      ⊎ All (λ e. queue_version e.0 base ≡ some ts.version → 0 < e.1) depths
    → retire_reason ts primary (λ v. any (same_text v) (retirable_versions depths base)) policy now
      ≡ none
unfolding retire_reason retirable_versions
retire_reason_keeps depths base ts primary policy now known differs running h =
    let spared = spared_not_retirable ts.version (retirable_of (versioned_depths depths base)) (
      retirable_of-Spares ts.version (versioned_depths depths base)
        (versioned_depths-Busy ts.version base depths h)) in
    rw (known, differs, spared) (ground (arith, running))
