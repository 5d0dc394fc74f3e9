-- ===== src/Service/Pool/Served.antt =====
-- That the verify pool of stack/backend/internal/service/verify_path.go serves its claims.
use truth_in_stream.Prelude.{
  ℕ, zero, suc, ◌≤◌, ◌<◌, Bool, true, false, List, [], ◌∷◌, map, All, arith, inl, inr, ◌⊎◌, ◌≡◌,
  refl,
}
use truth_in_stream.Service.Pool.{
  Phase, fresh, Claim, Pool, take_slot, attempt, move_at, Move, cancels, moves, step, run, new_pool,
}
use truth_in_stream.Service.Pool.Moves.{
  slot_of, holders, left_of, remaining, IsAllowed, allowed, attempt-nearer, moved_lem, move_at-held,
  move_at-All, remaining-move_at,
}

-- Some step brings the claims nearer their ends.
abbrev Nearer : Pool → List Claim → ℕ → Type 0
Nearer p cs held = (i : ℕ) × (remaining (move_at p take_slot i cs held).0 < remaining cs)

Nearer-here :
    (p : Pool) (c : Claim) (cs : List Claim) (held : ℕ)
    → (held < p.capacity) ⊎ (0 < slot_of c.phase)
    → 0 < left_of c.phase
    → Nearer p (c ∷ cs) held
unfolding move_at remaining
Nearer-here p c cs held h k = (
  0,
  rw (moved_lem c cs held (attempt p held c.blocking c.phase take_slot))
      (let less = attempt-nearer p held c.blocking c.phase h k in omega arith),
)

Nearer-later :
    (p : Pool) (c : Claim) (cs : List Claim) (held : ℕ) → Nearer p cs held → Nearer p (c ∷ cs) held
unfolding move_at remaining
Nearer-later p c cs held (i, less) = (suc i, omega arith)

none_or_some : (n : ℕ) → (n ≡ 0) ⊎ (0 < n)
none_or_some zero = inl refl
none_or_some (suc n) = inr (omega arith)

holder_left : (phase : Phase) → 0 < slot_of phase → 0 < left_of phase
holder_left phase h = ground arith

holder-Nearer : (p : Pool) (cs : List Claim) (held : ℕ) → 0 < holders cs → Nearer p cs held
unfolding holders
holder-Nearer p [] held h = absurd (omega arith)
holder-Nearer p (c ∷ cs) held h = elim (none_or_some (slot_of c.phase)) [
  | inl without ↦ Nearer-later p c cs held (holder-Nearer p cs held (omega arith))
  | inr with ↦ Nearer-here p c cs held (inr with) (holder_left c.phase with)
]

free-Nearer :
    (p : Pool) (cs : List Claim) (held : ℕ)
    → held < p.capacity
    → (remaining cs ≡ 0) ⊎ Nearer p cs held
unfolding remaining
free-Nearer p [] held h = inl refl
free-Nearer p (c ∷ cs) held h = elim (none_or_some (left_of c.phase)) [
  | inr more ↦ inr (Nearer-here p c cs held (inl h) more)
  | inl over ↦ elim (free-Nearer p cs held h) [
    | inl ended ↦ inl (omega arith)
    | inr later ↦ inr (Nearer-later p c cs held later)
  ]
]

record IsSound (capacity : ℕ) (p : Pool) : Type 0 where
  limit : p.capacity ≡ capacity
  counted : p.held ≡ holders p.claims
  bounded : p.held ≤ p.capacity
  lawful : All (IsAllowed p.done) p.claims

canceled-All : (done : Bool) (cs : List Claim) → All (IsAllowed done) cs → All (IsAllowed true) cs
canceled-All done [] h = tt
canceled-All done (c ∷ cs) h = (still done c.blocking c.phase h.0, canceled-All done cs h.1)
  where
    still :
        (done blocking : Bool) (phase : Phase)
        → allowed done blocking phase ≡ true
        → allowed true blocking phase ≡ true
    still done blocking phase h = ground arith

step-IsSound :
    (capacity : ℕ) (m : Move) (p : Pool) → IsSound capacity p → IsSound capacity (step m p)
unfolding step
step-IsSound capacity cancels p s = record {
  limit = s.limit;
  counted = s.counted;
  bounded = s.bounded;
  lawful = canceled-All p.done p.claims s.lawful;
}
step-IsSound capacity (moves i pick) p s =
    let r = move_at-held p pick i p.claims p.held 0 (omega (arith, s.counted)) s.bounded in
    record {
      limit = s.limit;
      counted = omega (arith, r.0);
      bounded = r.1;
      lawful = move_at-All p pick i p.claims p.held s.lawful;
    }

run-IsSound :
    (capacity : ℕ) (ms : List Move) (p : Pool) → IsSound capacity p → IsSound capacity (run ms p)
unfolding run
run-IsSound capacity [] p s = s
run-IsSound capacity (m ∷ ms) p s = run-IsSound capacity ms (step m p) (step-IsSound capacity m p s)

start-IsSound :
    (capacity queue_depth : ℕ) (blocking : List Bool)
    → IsSound capacity (new_pool capacity queue_depth blocking)
unfolding new_pool holders
start-IsSound capacity queue_depth blocking = record {
  limit = refl;
  counted = empty blocking;
  bounded = omega arith;
  lawful = unstarted blocking;
}
  where
    asking : List Bool → List Claim
    asking = map (λ b. record { blocking = b; phase = fresh })

    empty : (bs : List Bool) → 0 ≡ holders (asking bs)
    empty [] = refl
    empty (b ∷ bs) = omega (arith, empty bs)

    unstarted : (bs : List Bool) → All (IsAllowed false) (asking bs)
    unstarted [] = tt
    unstarted (b ∷ bs) = (refl, unstarted bs)

progress :
    (capacity : ℕ) (p : Pool)
    → 0 < capacity
    → IsSound capacity p
    → (remaining p.claims ≡ 0) ⊎ Nearer p p.claims p.held
progress capacity p least s = elim (none_or_some (holders p.claims)) [
  | inl idle ↦ free-Nearer p p.claims p.held (omega (arith, s.limit, s.counted))
  | inr busy ↦ inr (holder-Nearer p p.claims p.held busy)
]

remaining-step : (m : Move) (p : Pool) → remaining (step m p).claims ≤ remaining p.claims
unfolding step
remaining-step cancels p = omega arith
remaining-step (moves i pick) p = remaining-move_at p pick i p.claims p.held

-- Whatever the claims do and in whatever order, with a pool of at least one slot: the channel counts
-- the claims whose verifier runs, and these are no more than the slots. A claim of a document is
-- neither timed nor shed, and none is canceled unless the context is done. And the pool never stops
-- short: counting at most three steps for a claim by where it stands, no step leaves more, and unless
-- none is left, some claim has a step that leaves fewer.
pub run_serves :
    (capacity queue_depth : ℕ) (blocking : List Bool) (ms : List Move)
    → 0 < capacity
    → let p = run ms (new_pool capacity queue_depth blocking) in
      (p.held ≡ holders p.claims)
      × (p.held ≤ capacity)
      × All (IsAllowed p.done) p.claims
      × ((m : Move) → remaining (step m p).claims ≤ remaining p.claims)
      × ((remaining p.claims ≡ 0)
          ⊎ ((i : ℕ) × (remaining (step (moves i take_slot) p).claims < remaining p.claims)))
unfolding step
run_serves capacity queue_depth blocking ms least =
    let p = run ms (new_pool capacity queue_depth blocking) in
    let s =
      run-IsSound capacity ms (new_pool capacity queue_depth blocking)
        (start-IsSound capacity queue_depth blocking) in
    (
      s.counted,
      omega (arith, s.bounded, s.limit),
      s.lawful,
      λ m. remaining-step m p,
      progress capacity p least s,
    )
