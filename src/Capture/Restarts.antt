-- ===== src/Capture/Restarts.antt =====
-- The restart loop `run` of stack/backend/internal/tvcapture/supervisor.go, with `computeBackoff`.
-- A `Life` is one capture lifecycle as the loop meets it: whether the context is done before it and
-- after it, how long it ran, and whether the backoff behind it is waited for to its end. Durations
-- are nanoseconds, and so small that their doubling stays in an int64.
pub mod Alerts
use truth_in_stream.Prelude.{
  ℕ, zero, suc, ◌-◌, ◌*◌, Bool, true, false, not, ◌&&◌, ◌||◌, List, [], ◌∷◌, ltb, leb, ◌==◌,
  if◌then◌else◌,
}

pub record Life : Type 0 where
  pub done_before : Bool
  pub ran : ℕ
  pub done_after : Bool
  pub waited : Bool

pub record SupervisorConfig : Type 0 where
  pub backoff_base : ℕ
  pub backoff_max : ℕ
  pub healthy_reset : ℕ
  pub max_attempts : ℕ

-- The doublings that are left, and the delay so far.
unfoldable pub doubled_to : ℕ → ℕ → ℕ → ℕ
doubled_to cap zero d = if ltb cap d then cap else d
doubled_to cap (suc rounds) d =
    let next = d * 2 in
    let later = doubled_to cap rounds next in if leb cap next || next == 0 then cap else later

unfoldable pub compute_backoff : ℕ → ℕ → ℕ → ℕ
unfolding doubled_to
compute_backoff attempt base cap =
    let n = if ltb attempt 1 then 1 else attempt in doubled_to cap (n - 1) base

-- What the loop does: a capture, the alert of its death, and the wait before the next.
pub data Act : Type 0 where
  captured alerted : Act
  waits : ℕ → Act

-- One lifecycle, given whether its crash is alerted, the wait behind it, and what follows.
unfoldable pub lived : Bool → ℕ → Life → List Act → List Act
lived dies delay life rest =
    let wait = waits delay ∷ (if life.waited then rest else []) in
    if life.done_before
    then []
    else if life.done_after
    then captured ∷ []
    else captured ∷ (if dies then alerted ∷ wait else wait)

module _ (cfg : SupervisorConfig) where
  unfoldable pub run_from : ℕ → Bool → List Life → List Act
  unfolding compute_backoff lived
  run_from attempt told [] = []
  run_from attempt told (life ∷ lives) =
      let healthy = leb cfg.healthy_reset life.ran in
      let crashes = suc (if healthy then 0 else attempt) in
      let silent = if healthy then false else told in
      let dies = leb cfg.max_attempts crashes && not silent in
      let rest = run_from crashes (if dies then true else silent) lives in
      lived dies (compute_backoff crashes cfg.backoff_base cfg.backoff_max) life rest

  unfoldable pub run : List Life → List Act
  unfolding run_from
  run lives = run_from 0 false lives
