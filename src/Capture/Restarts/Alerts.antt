-- ===== src/Capture/Restarts/Alerts.antt =====
-- When stack/backend/internal/tvcapture/supervisor.go alerts, and how long it waits.
use truth_in_stream.Prelude.{
  twice_pow, le_times_pow, ℕ, zero, suc, ◌-◌, ◌*◌, ◌^◌, ◌<◌, min, Bool, true, false, not, ◌&&◌,
  List, [], ◌∷◌, ltb, leb, ◌==◌, if◌then◌else◌, arith, ◌≡◌, refl, sym, ◌∙◌, ap,
}
use truth_in_stream.Capture.Restarts.{
  Life, SupervisorConfig, doubled_to, compute_backoff, Act, lived, run_from, run,
}

-- The loop without the flag: the alert belongs to one crash of a streak, the `max_attempts`th since
-- a capture last ran long enough, and the wait before the next capture grows with the streak.
abbrev pub expected : SupervisorConfig → ℕ → List Life → List Act
expected cfg streak [] = []
expected cfg streak (life ∷ lives) =
    let crashes = if leb cfg.healthy_reset life.ran then 1 else suc streak in
    let rest = expected cfg crashes lives in
    lived (crashes == cfg.max_attempts) (min cfg.backoff_max (cfg.backoff_base * 2 ^ (crashes - 1)))
      life rest

doubled_to_pow : (cap rounds d : ℕ) → 0 < d → doubled_to cap rounds d ≡ min cap (d * 2 ^ rounds)
unfolding doubled_to
doubled_to_pow cap zero d h = ground arith
doubled_to_pow cap (suc rounds) d h = rw (twice_pow d rounds) (
    ground
      (arith, doubled_to_pow cap rounds (d * 2) (omega (arith, h)), le_times_pow (d * 2) rounds))

-- The first wait is the base, each later one twice as long, up to the maximum.
compute_backoff_pow :
    (n base cap : ℕ)
    → 0 < base
    → compute_backoff (suc n) base cap ≡ min cap (base * 2 ^ (suc n - 1))
unfolding compute_backoff
compute_backoff_pow n base cap h = rw (less n, pred n) (doubled_to_pow cap n base h)
  where
    pred : (n : ℕ) → suc n - 1 ≡ n
    pred n = omega arith

    less : (n : ℕ) → (if ltb (suc n) 1 then 1 else suc n) - 1 ≡ n
    less n = ground arith

module _ (cfg : SupervisorConfig) (paced : 0 < cfg.backoff_base)
    (patient : 0 < cfg.max_attempts) where
  dies_once :
      (streak : ℕ)
      → (leb cfg.max_attempts (suc streak) && not (leb cfg.max_attempts streak))
        ≡ (suc streak == cfg.max_attempts)
  dies_once streak = ground arith

  told_after :
      (streak : ℕ)
      → (if suc streak == cfg.max_attempts then true else leb cfg.max_attempts streak)
        ≡ leb cfg.max_attempts (suc streak)
  told_after streak = ground arith

  told_never : leb cfg.max_attempts 0 ≡ false
  told_never = ground (arith, patient)

  crash_after :
      (streak : ℕ) (silent : Bool) (life : Life) (lives : List Life)
      → silent ≡ leb cfg.max_attempts streak
      → ((n : ℕ) → run_from cfg n (leb cfg.max_attempts n) lives ≡ expected cfg n lives)
      → let dies = leb cfg.max_attempts (suc streak) && not silent in
        lived dies
          (compute_backoff (suc streak) cfg.backoff_base cfg.backoff_max)
          life
          (run_from cfg (suc streak) (if dies then true else silent) lives)
        ≡ lived
            (suc streak == cfg.max_attempts)
            (min cfg.backoff_max (cfg.backoff_base * 2 ^ (suc streak - 1)))
            life
            (expected cfg (suc streak) lives)
  crash_after streak silent life lives e rest =
      rw
        (
          e,
          dies_once streak,
          told_after streak,
          rest (suc streak),
          compute_backoff_pow streak cfg.backoff_base cfg.backoff_max paced,
        )
        refl

  -- One crash, whether the capture before it was healthy or not.
  crash :
      (healthy : Bool) (streak : ℕ) (life : Life) (lives : List Life)
      → ((n : ℕ) → run_from cfg n (leb cfg.max_attempts n) lives ≡ expected cfg n lives)
      → let attempt = suc (if healthy then 0 else streak) in
        let silent = if healthy then false else leb cfg.max_attempts streak in
        let dies = leb cfg.max_attempts attempt && not silent in
        let crashes = if healthy then 1 else suc streak in
        lived dies
          (compute_backoff attempt cfg.backoff_base cfg.backoff_max)
          life
          (run_from cfg attempt (if dies then true else silent) lives)
        ≡ lived
            (crashes == cfg.max_attempts)
            (min cfg.backoff_max (cfg.backoff_base * 2 ^ (crashes - 1)))
            life
            (expected cfg crashes lives)
  crash true streak life lives rest = crash_after 0 false life lives (sym told_never) rest
  crash false streak life lives rest =
      crash_after streak (leb cfg.max_attempts streak) life lives refl rest

  run_from-expected :
      (streak : ℕ) (lives : List Life)
      → run_from cfg streak (leb cfg.max_attempts streak) lives ≡ expected cfg streak lives
  unfolding run_from
  run_from-expected streak [] = refl
  run_from-expected streak (life ∷ lives) =
      crash (leb cfg.healthy_reset life.ran) streak life lives (λ n. run_from-expected n lives)

  -- Where the base of the backoff and the number of attempts are positive, the loop does what it
  -- would do without its flag: an alert goes out at the `max_attempts`th crash in a row since a
  -- capture last ran for `healthy_reset`, and at no other; and the wait after the nth crash in a row
  -- is the base doubled n - 1 times, or the maximum if that is less.
  pub run-expected : (lives : List Life) → run cfg lives ≡ expected cfg 0 lives
  unfolding run
  run-expected lives = ap (λ t. run_from cfg 0 t lives) (sym told_never) ∙ run_from-expected 0 lives
