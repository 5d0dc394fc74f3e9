-- ===== src/Service/Pool/Moves.antt =====
-- One step of a claim at the verify pool of stack/backend/internal/service/verify_path.go.
use truth_in_stream.Prelude.{
  ℕ, zero, suc, ◌+◌, ◌≤◌, ◌<◌, Bool, true, not, ◌||◌, List, [], ◌∷◌, All, Option, none, some,
  get_or, arith, ◌⊎◌, ◌≡◌, refl,
}
use truth_in_stream.Service.Pool.{
  Phase, fresh, queued, refused, holding, judged, shed, canceled, Claim, Pool, Pick, take_slot,
  see_done, go_without, attempt, moved, move_at,
}

-- How many claims hold a slot.
abbrev pub slot_of : Phase → ℕ
slot_of fresh = 0
slot_of queued = 0
slot_of refused = 0
slot_of holding = 1
slot_of judged = 0
slot_of shed = 0
slot_of canceled = 0

unfoldable pub holders : List Claim → ℕ
holders [] = 0
holders (c ∷ cs) = slot_of c.phase + holders cs

-- The steps that a claim can have before it, at most.
abbrev pub left_of : Phase → ℕ
left_of fresh = 3
left_of queued = 2
left_of refused = 1
left_of holding = 1
left_of judged = 0
left_of shed = 0
left_of canceled = 0

unfoldable pub remaining : List Claim → ℕ
remaining [] = 0
remaining (c ∷ cs) = left_of c.phase + remaining cs

-- A claim of a document neither waits for a time nor is shed, and none is canceled but by the context.
abbrev pub allowed : Bool → Bool → Phase → Bool
allowed done blocking fresh = true
allowed done blocking queued = not blocking
allowed done blocking refused = not blocking || done
allowed done blocking holding = true
allowed done blocking judged = true
allowed done blocking shed = not blocking
allowed done blocking canceled = done

abbrev pub IsAllowed : Bool → Claim → Type 0
IsAllowed done c = allowed done c.blocking c.phase ≡ true

attempt-held :
    (p : Pool) (held others : ℕ) (blocking : Bool) (phase : Phase) (pick : Pick)
    → held ≡ slot_of phase + others
    → held ≤ p.capacity
    → let r = get_or (attempt p held blocking phase pick) (phase, held) in
      (r.1 ≡ slot_of r.0 + others) × (r.1 ≤ p.capacity)
unfolding attempt
attempt-held p held others blocking fresh take_slot h k = ground arith
attempt-held p held others blocking fresh see_done h k = ground arith
attempt-held p held others blocking fresh go_without h k = ground arith
attempt-held p held others blocking queued take_slot h k = ground arith
attempt-held p held others blocking queued see_done h k = ground arith
attempt-held p held others blocking queued go_without h k = (h, k)
attempt-held p held others blocking refused pick h k = ground arith
attempt-held p held others blocking holding pick h k = (omega arith, omega arith)
attempt-held p held others blocking judged pick h k = (h, k)
attempt-held p held others blocking shed pick h k = (h, k)
attempt-held p held others blocking canceled pick h k = (h, k)

attempt-allowed :
    (p : Pool) (held : ℕ) (blocking : Bool) (phase : Phase) (pick : Pick)
    → allowed p.done blocking phase ≡ true
    → allowed p.done blocking (get_or (attempt p held blocking phase pick) (phase, held)).0 ≡ true
unfolding attempt
attempt-allowed p held blocking fresh take_slot h = ground arith
attempt-allowed p held blocking fresh see_done h = ground arith
attempt-allowed p held blocking fresh go_without h = ground arith
attempt-allowed p held blocking queued take_slot h = ground arith
attempt-allowed p held blocking queued see_done h = ground arith
attempt-allowed p held blocking queued go_without h = ground arith
attempt-allowed p held blocking refused pick h = ground arith
attempt-allowed p held blocking holding pick h = refl
attempt-allowed p held blocking judged pick h = h
attempt-allowed p held blocking shed pick h = h
attempt-allowed p held blocking canceled pick h = h

-- A claim with a slot, or any claim where a slot is free, has a step, which brings it nearer its end.
pub attempt-nearer :
    (p : Pool) (held : ℕ) (blocking : Bool) (phase : Phase)
    → (held < p.capacity) ⊎ (0 < slot_of phase)
    → 0 < left_of phase
    → left_of (get_or (attempt p held blocking phase take_slot) (phase, held)).0 < left_of phase
unfolding attempt
attempt-nearer p held blocking fresh h k = ground arith
attempt-nearer p held blocking queued h k = ground arith
attempt-nearer p held blocking refused h k = ground arith
attempt-nearer p held blocking holding h k = omega arith
attempt-nearer p held blocking judged h k = absurd (omega arith)
attempt-nearer p held blocking shed h k = absurd (omega arith)
attempt-nearer p held blocking canceled h k = absurd (omega arith)

pub moved_lem :
    (c : Claim) (cs : List Claim) (held : ℕ) (o : Option (Phase × ℕ))
    → let r = get_or o (c.phase, held) in
      moved c cs held o ≡ (record { blocking = c.blocking; phase = r.0 } ∷ cs, r.1)
moved_lem c cs held none = refl
moved_lem c cs held (some r) = refl

pub move_at-held :
    (p : Pool) (pick : Pick) (i : ℕ) (cs : List Claim) (held others : ℕ)
    → held ≡ holders cs + others
    → held ≤ p.capacity
    → let r = move_at p pick i cs held in (r.1 ≡ holders r.0 + others) × (r.1 ≤ p.capacity)
unfolding move_at holders
move_at-held p pick i [] held others h k = (h, k)
move_at-held p pick zero (c ∷ cs) held others h k =
    rw (moved_lem c cs held (attempt p held c.blocking c.phase pick)) (
      let r = attempt-held p held (holders cs + others) c.blocking c.phase pick (omega arith) k in
      (omega arith, r.1))
move_at-held p pick (suc i) (c ∷ cs) held others h k =
    let r = move_at-held p pick i cs held (slot_of c.phase + others) (omega arith) k in
    (omega arith, r.1)

pub move_at-All :
    (p : Pool) (pick : Pick) (i : ℕ) (cs : List Claim) (held : ℕ)
    → All (IsAllowed p.done) cs
    → All (IsAllowed p.done) (move_at p pick i cs held).0
unfolding move_at
move_at-All p pick i [] held h = tt
move_at-All p pick zero (c ∷ cs) held h =
    rw (moved_lem c cs held (attempt p held c.blocking c.phase pick))
      (attempt-allowed p held c.blocking c.phase pick h.0, h.1)
move_at-All p pick (suc i) (c ∷ cs) held h = (h.0, move_at-All p pick i cs held h.1)

attempt-left :
    (p : Pool) (held : ℕ) (blocking : Bool) (phase : Phase) (pick : Pick)
    → left_of (get_or (attempt p held blocking phase pick) (phase, held)).0 ≤ left_of phase
unfolding attempt
attempt-left p held blocking fresh take_slot = ground arith
attempt-left p held blocking fresh see_done = ground arith
attempt-left p held blocking fresh go_without = ground arith
attempt-left p held blocking queued take_slot = ground arith
attempt-left p held blocking queued see_done = ground arith
attempt-left p held blocking queued go_without = ground arith
attempt-left p held blocking refused pick = ground arith
attempt-left p held blocking holding pick = omega arith
attempt-left p held blocking judged pick = omega arith
attempt-left p held blocking shed pick = omega arith
attempt-left p held blocking canceled pick = omega arith

-- No step brings the claims farther from their ends.
pub remaining-move_at :
    (p : Pool) (pick : Pick) (i : ℕ) (cs : List Claim) (held : ℕ)
    → remaining (move_at p pick i cs held).0 ≤ remaining cs
unfolding move_at remaining
remaining-move_at p pick i [] held = omega arith
remaining-move_at p pick zero (c ∷ cs) held =
    rw (moved_lem c cs held (attempt p held c.blocking c.phase pick))
      (let less = attempt-left p held c.blocking c.phase pick in omega arith)
remaining-move_at p pick (suc i) (c ∷ cs) held =
    let less = remaining-move_at p pick i cs held in omega arith
