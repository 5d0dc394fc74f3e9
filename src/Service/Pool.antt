-- ===== src/Service/Pool.antt =====
-- The verify pool of stack/backend/internal/service/verify_path.go: `verifySem`, as the goroutines of
-- the claims take and give back its slots in `verifyClaim` and `verifyClaimBlocking` (and the same
-- two of political_path.go) with `acquireVerifySlot` and `acquireVerifySlotBlocking`. A step of a
-- claim is what a `select` or a return does; any sequence of steps is an interleaving.
pub mod Moves
pub mod Served
use truth_in_stream.Prelude.{
  ℕ, zero, suc, ◌+◌, ◌-◌, Bool, true, false, ◌||◌, List, [], ◌∷◌, map, Option, none, some,
  if◌then◌else◌, ltb, ◌==◌,
}

-- Where the goroutine of a claim stands: before its first `select`, in the bounded wait, past an
-- attempt that failed, with a slot while the verifier runs, or at its end.
pub data Phase : Type 0 where
  fresh queued refused holding judged shed canceled : Phase

-- `blocking` is for a claim of a document.
pub record Claim : Type 0 where
  pub blocking : Bool
  pub phase : Phase

-- `held` is the length of the channel `verifySem`, `done` is for the context.
pub record Pool : Type 0 where
  pub capacity : ℕ
  pub queue_depth : ℕ
  pub held : ℕ
  pub done : Bool
  pub claims : List Claim

-- The case that a `select` takes: the slot, the context, or else the default of the first one and the
-- timer of the second.
pub data Pick : Type 0 where
  take_slot see_done go_without : Pick

abbrev pub take : Pool → ℕ → Option (Phase × ℕ)
take p held = if ltb held p.capacity then some (holding, suc held) else none

abbrev pub see : Pool → ℕ → Option (Phase × ℕ)
see p held = if p.done then some (refused, held) else none

-- The default of the first `select`, which is taken only where no other case is ready.
abbrev pub saturate : Pool → Bool → ℕ → Option (Phase × ℕ)
saturate p blocking held =
    if blocking || (p.done || ltb held p.capacity)
    then none
    else some ((if p.queue_depth == 0 then refused else queued), held)

-- One step of a claim, with the slots that are held after it; none where it cannot be taken.
unfoldable pub attempt : Pool → ℕ → Bool → Phase → Pick → Option (Phase × ℕ)
attempt p held blocking fresh take_slot = take p held
attempt p held blocking fresh see_done = see p held
attempt p held blocking fresh go_without = saturate p blocking held
attempt p held blocking queued take_slot = take p held
attempt p held blocking queued see_done = see p held
attempt p held blocking queued go_without = some (refused, held)
attempt p held blocking refused pick = some ((if p.done then canceled else shed), held)
attempt p held blocking holding pick = some (judged, held - 1)
attempt p held blocking judged pick = none
attempt p held blocking shed pick = none
attempt p held blocking canceled pick = none

abbrev pub moved : Claim → List Claim → ℕ → Option (Phase × ℕ) → List Claim × ℕ
moved c cs held none = (c ∷ cs, held)
moved c cs held (some r) = (record { blocking = c.blocking; phase = r.0 } ∷ cs, r.1)

-- The step of one of the claims.
unfoldable pub move_at : Pool → Pick → ℕ → List Claim → ℕ → List Claim × ℕ
unfolding attempt
move_at p pick i [] held = ([], held)
move_at p pick zero (c ∷ cs) held = moved c cs held (attempt p held c.blocking c.phase pick)
move_at p pick (suc i) (c ∷ cs) held = let r = move_at p pick i cs held in (c ∷ r.0, r.1)

pub data Move : Type 0 where
  cancels : Move
  moves : ℕ → Pick → Move

unfoldable pub step : Move → Pool → Pool
unfolding move_at
step cancels p = record p { done = true }
step (moves i pick) p =
    let r = move_at p pick i p.claims p.held in record p { held = r.1; claims = r.0 }

unfoldable pub run : List Move → Pool → Pool
unfolding step
run [] p = p
run (m ∷ ms) p = run ms (step m p)

-- The pool that `NewVerifyPath` makes, with the claims that will ask for its slots.
unfoldable pub new_pool : ℕ → ℕ → List Bool → Pool
new_pool capacity queue_depth blocking = record {
  capacity = capacity;
  queue_depth = queue_depth;
  held = 0;
  done = false;
  claims = map (λ b. record { blocking = b; phase = fresh }) blocking;
}
