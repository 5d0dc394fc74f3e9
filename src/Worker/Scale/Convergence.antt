-- ===== src/Worker/Scale/Convergence.antt =====
-- Repeated decisions of stack/backend/internal/workerlifecycle/scale.go at a constant backlog.
use truth_in_stream.Prelude.{ℕ, zero, suc, ◌+◌, ◌-◌, ◌≤◌, ◌<◌, min, max, arith, ◌≡◌, inl, inr, ◌⊎◌}
use truth_in_stream.Worker.Scale.{
  ServiceScaling, step_toward, raw_count, clamped, compute_desired_count,
}

-- The desired counts of successive ticks, each from the one before.
abbrev pub after_ticks : ServiceScaling → ℕ → ℕ → ℕ → ℕ
after_ticks s backlog zero current = current
after_ticks s backlog (suc n) current =
    after_ticks s backlog n (compute_desired_count s current backlog)

-- How far two counts are apart.
abbrev distance : ℕ → ℕ → ℕ
distance a b = a - b + (b - a)

step_up :
    (current raw : ℕ)
    → current < raw
    → (current < step_toward current raw) × (step_toward current raw ≤ raw)
unfolding step_toward
step_up current raw h = ground arith

step_down :
    (current raw : ℕ)
    → raw < current
    → (raw ≤ step_toward current raw) × (step_toward current raw < current)
unfolding step_toward
step_down current raw h = (ground arith, ground arith)

step_same : (raw : ℕ) → step_toward raw raw ≡ raw
unfolding step_toward
step_same raw = ground arith

nearer_up :
    (least most current next raw k : ℕ)
    → least ≤ most
    → current < next
    → next ≤ raw
    → distance current (min most (max least raw)) ≤ k
    → distance (min most (max least next)) (min most (max least raw)) ≤ k - 1
nearer_up least most current next raw k h a b c = omega arith

nearer_down :
    (least most current next raw k : ℕ)
    → least ≤ most
    → raw ≤ next
    → next < current
    → distance current (min most (max least raw)) ≤ k
    → distance (min most (max least next)) (min most (max least raw)) ≤ k - 1
nearer_down least most current next raw k h a b c = omega arith

nearer_same :
    (least most raw k : ℕ) → distance (min most (max least raw)) (min most (max least raw)) ≤ k - 1
nearer_same least most raw k = omega arith

module _ (s : ServiceScaling) (backlog : ℕ) (enabled : 0 < s.most) (valid : 0 < s.ratio) where
  decides :
      (current : ℕ)
      → compute_desired_count s current backlog
        ≡ clamped s (step_toward current (raw_count s.ratio backlog))
  unfolding compute_desired_count
  decides current = ground arith

  nearer :
      (current k : ℕ)
      → s.least ≤ s.most
      → distance current (clamped s (raw_count s.ratio backlog)) ≤ k
      → distance (compute_desired_count s current backlog) (clamped s (raw_count s.ratio backlog))
        ≤ k - 1
  unfolding clamped
  nearer current k h c =
      let raw = raw_count s.ratio backlog in
      rw (decides current) (elim (trichotomy current raw) [
        | inl below ↦
            let (up, limit) = step_up current raw below in
            nearer_up s.least s.most current (step_toward current raw) raw k h up limit c
        | inr (inl above) ↦
            let (limit, down) = step_down current raw above in
            nearer_down s.least s.most current (step_toward current raw) raw k h limit down c
        | inr (inr same) ↦ rw (same, step_same raw) (nearer_same s.least s.most raw k)
      ])
    where
      trichotomy : (a b : ℕ) → (a < b) ⊎ ((b < a) ⊎ (a ≡ b))
      trichotomy a b = omega arith

  reaches :
      (n current : ℕ)
      → s.least ≤ s.most
      → distance current (clamped s (raw_count s.ratio backlog)) ≤ n
      → after_ticks s backlog n current ≡ clamped s (raw_count s.ratio backlog)
  reaches zero current h c = omega (arith, c)
  reaches (suc n) current h c =
      reaches n (compute_desired_count s current backlog) h
        (omega (arith, nearer current (suc n) h c))

  -- Where the service is on and the backlog stays the same, the fleet settles: after as many ticks
  -- as there are replicas now and at most, the count is `ceil(backlog / ratio)` within the limits.
  pub after_ticks_settles :
      (n current : ℕ)
      → s.least ≤ s.most
      → current + s.most ≤ n
      → after_ticks s backlog n current ≡ clamped s (raw_count s.ratio backlog)
  unfolding clamped
  after_ticks_settles n current h enough = reaches n current h (omega (arith, enough))
