-- ===== src/Examples/Pools.antt =====
-- The verify pool with one slot: two live claims and one of a document.
use truth_in_stream.Prelude.{
  ℕ, ◌≤◌, ◌<◌, none, some, Bool, true, false, List, [], ◌∷◌, map, All, ◌⊎◌, ◌≡◌, refl,
}
use truth_in_stream.Service.Pool.{
  judged, shed, holding, take_slot, see_done, go_without, Move, moves, step, run, new_pool,
}
use truth_in_stream.Service.Pool.Moves.{holders, remaining, IsAllowed}
use truth_in_stream.Service.Setup.{VerifyPathConfig, VerifyPath, new_verify_path, new_second_pass}
use truth_in_stream.Service.Setup.Serving.{run-new_verify_path}
use truth_in_stream.Service.Verdicts.{qualifies, no_match_verdict}
use truth_in_stream.Examples.Numbers.{tenths}

abbrev asking : List Bool
asking = false ∷ false ∷ true ∷ []

-- The second claim finds the pool full and does not wait; the third waits for the first to end.
abbrev course : List Move
course =
    moves 0 take_slot
    ∷ moves 2 take_slot
    ∷ moves 1 go_without
    ∷ moves 1 see_done
    ∷ moves 2 go_without
    ∷ moves 0 take_slot
    ∷ moves 2 take_slot
    ∷ []

abbrev settings : VerifyPathConfig tenths
settings = record {
  has_decomposer = true;
  has_matcher = true;
  has_verifier = true;
  fast_tau = some 9;
  verify_concurrency = 1;
  verify_queue_depth = 0;
  fast_deadline = 5;
  verify_deadline = 9;
  cache_ttl = 0;
  political = none;
  second_pass = none;
}

abbrev path : VerifyPath tenths
path = record {
  config = record { fast_tau = some 9; political = none; second_pass = none; stance = none };
  capacity = 1;
  queue_depth = 0;
  cache = none;
}

made : new_verify_path tenths settings none ≡ some path
unfolding new_verify_path
made = refl

-- A band that is not a number passes the checks, and no verdict is in it.
accepts_nan :
    (new_second_pass tenths
        (record { has_reverifier = true; mid_band_lo = none; mid_band_hi = none; deadline = 1 })
      ≡ some (none, none))
    × (qualifies tenths none none (record (no_match_verdict tenths) { basis = "evidence" }) 1
        ≡ false)
unfolding new_second_pass qualifies no_match_verdict
accepts_nan = (refl, refl)

ends : map (λ c. c.phase) (run course (new_pool 1 0 asking)).claims ≡ judged ∷ shed ∷ holding ∷ []
unfolding run new_pool
ends = refl

run-new_verify_path_example :
    let p = run course (new_pool 1 0 asking) in
    (p.held ≡ holders p.claims)
    × (p.held ≤ 1)
    × All (IsAllowed p.done) p.claims
    × ((m : Move) → remaining (step m p).claims ≤ remaining p.claims)
    × ((remaining p.claims ≡ 0)
        ⊎ ((i : ℕ) × (remaining (step (moves i take_slot) p).claims < remaining p.claims)))
run-new_verify_path_example = run-new_verify_path tenths settings none path asking course made
