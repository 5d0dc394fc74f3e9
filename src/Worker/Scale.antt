-- ===== src/Worker/Scale.antt =====
-- The autoscaling policy of stack/backend/internal/workerlifecycle/scale.go. Counts and limits are
-- natural numbers: the source treats a negative limit, ratio or backlog as it treats 0.
pub mod Convergence
use truth_in_stream.Prelude.{
  ℕ, ◌+◌, ◌-◌, ◌*◌, ◌/◌, min, max, Bool, false, Option, none, some, Runes, ltb, ◌==◌, if◌then◌else◌,
}

pub record ServiceScaling : Type 0 where
  pub queue_base : Runes
  pub ratio : ℕ
  pub least : ℕ
  pub most : ℕ
  pub cooldown : ℕ

unfoldable pub step_toward : ℕ → ℕ → ℕ
step_toward current raw =
    if ltb current raw
    then min raw (max 1 current * 2)
    else if ltb raw current
    then max raw (current / 2)
    else raw

-- `ceil(backlog / Ratio)`
unfoldable pub raw_count : ℕ → ℕ → ℕ
raw_count ratio backlog = if ltb 0 backlog then (backlog + ratio - 1) / ratio else 0

unfoldable pub clamped : ServiceScaling → ℕ → ℕ
clamped s n = min s.most (max s.least n)

unfoldable pub compute_desired_count : ServiceScaling → ℕ → ℕ → ℕ
unfolding clamped step_toward raw_count
compute_desired_count s current backlog =
    if s.most == 0
    then 0
    else if s.ratio == 0
    then current
    else clamped s (step_toward current (raw_count s.ratio backlog))

-- `none` is the zero time: the service was never scaled.
unfoldable pub cooldown_active : ServiceScaling → Option ℕ → ℕ → Bool
cooldown_active s none now = false
cooldown_active s (some last_scaled) now = ltb now (last_scaled + s.cooldown)
