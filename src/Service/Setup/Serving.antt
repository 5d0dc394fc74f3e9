-- ===== src/Service/Setup/Serving.antt =====
-- The pool of a verify path that `NewVerifyPath` of stack/backend/internal/service/verify_path.go made.
use mathlib.Core.Option.{some-injective}
use truth_in_stream.Prelude.{
  ℕ, ◌<◌, Bool, true, ◌&&◌, Option, none, some, List, All, ◌⊎◌, ◌≤◌, Bool-cases, Option-cases, sym,
  ap, inl, inr, ◌≡◌, arith,
}
use truth_in_stream.Prelude.Floats.{Floats}
use truth_in_stream.Service.Setup.{
  SecondPassConfig, VerifyPathConfig, VerifyPath, new_second_pass, accepts, accepts_political,
  verify_path_of, with_second_pass, new_verify_path,
}
use truth_in_stream.Service.Pool.{Move, moves, take_slot, step, run, new_pool}
use truth_in_stream.Service.Pool.Moves.{holders, remaining, IsAllowed}
use truth_in_stream.Service.Pool.Served.{run_serves}

module _ (F : Floats) where
  open F use {Float}

  capacity_of :
      (c : VerifyPathConfig F) (stance : Option (Float × ℕ)) (sp : Option (SecondPassConfig F))
      (vp : VerifyPath F)
      → with_second_pass F c stance sp ≡ some vp
      → vp.capacity ≡ c.verify_concurrency
  unfolding verify_path_of
  capacity_of c stance none vp h =
      ap (λ q. q.capacity) (sym (some-injective (verify_path_of F c stance none) vp h))
  capacity_of c stance (some sp) vp h = elim (Option-cases (new_second_pass F sp)) [
    | inl refused ↦ absurd (ground (arith, rw (refused, with_second_pass) at h))
    | inr (band, e) ↦
        ap (λ q. q.capacity)
          (sym (
            some-injective (verify_path_of F c stance (some band)) vp
              (rw (e, with_second_pass) at h)))
  ]

  accepts_capacity :
      (c : VerifyPathConfig F) (b : Bool) → (accepts F c && b) ≡ true → 0 < c.verify_concurrency
  unfolding accepts
  accepts_capacity c b h = ground arith

  -- A path that is made has a slot in its pool.
  capacity-new_verify_path :
      (c : VerifyPathConfig F) (stance : Option (Float × ℕ)) (vp : VerifyPath F)
      → new_verify_path F c stance ≡ some vp
      → 0 < vp.capacity
  unfolding new_verify_path
  capacity-new_verify_path c stance vp h =
      elim (Bool-cases (accepts F c && accepts_political F c.political)) [
        | inr refused ↦ absurd (ground (arith, rw refused at h))
        | inl fine ↦
            rw (capacity_of c stance c.second_pass vp (rw fine at h))
              (accepts_capacity c (accepts_political F c.political) fine)
      ]

  -- With the pool of a verify path that is made, whatever its claims do and in whatever order: the
  -- channel counts the claims whose verifier runs, and these are no more than the slots. A claim of a
  -- document is neither timed nor shed, and none is canceled unless the context is done. And the pool
  -- never stops short: counting at most three steps for a claim by where it stands, no step leaves
  -- more, and unless none is left, some claim has a step that leaves fewer.
  pub run-new_verify_path :
      (c : VerifyPathConfig F) (stance : Option (Float × ℕ)) (vp : VerifyPath F)
      (blocking : List Bool) (ms : List Move)
      → new_verify_path F c stance ≡ some vp
      → let p = run ms (new_pool vp.capacity vp.queue_depth blocking) in
        (p.held ≡ holders p.claims)
        × (p.held ≤ vp.capacity)
        × All (IsAllowed p.done) p.claims
        × ((m : Move) → remaining (step m p).claims ≤ remaining p.claims)
        × ((remaining p.claims ≡ 0)
            ⊎ ((i : ℕ) × (remaining (step (moves i take_slot) p).claims < remaining p.claims)))
  run-new_verify_path c stance vp blocking ms made =
      run_serves vp.capacity vp.queue_depth blocking ms (capacity-new_verify_path c stance vp made)
