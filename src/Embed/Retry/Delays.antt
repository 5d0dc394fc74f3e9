-- ===== src/Embed/Retry/Delays.antt =====
-- Bounds of the backoffs of stack/backend/internal/embed/retry.go.
use truth_in_stream.Prelude.{
  twice_pow, le_times_pow, ℕ, zero, suc, ◌+◌, ◌-◌, ◌*◌, ◌^◌, ◌≤◌, ◌<◌, min, ltb, leb, ◌==◌,
  if◌then◌else◌, arith, ◌≡◌,
}
use truth_in_stream.Embed.Retry.{
  RetryConfig, with_retry, Failure, retry_after, doubled, Run, backoff, delay_for,
}

pub with_retry_valid :
    (cfg : RetryConfig)
    → ((with_retry cfg).base_delay ≤ (with_retry cfg).max_delay)
      × (0 < (with_retry cfg).base_delay)
      × (0 < (with_retry cfg).max_attempts)
unfolding with_retry
with_retry_valid cfg = (ground arith, ground arith, ground arith)

doubled_le_most : (most rounds delay : ℕ) → delay ≤ most → doubled most rounds delay ≤ most
unfolding doubled
doubled_le_most most zero delay h = h
doubled_le_most most (suc rounds) delay h = ground (arith, doubled_le_most most rounds (delay * 2))

doubled_le_pow : (most rounds delay : ℕ) → doubled most rounds delay ≤ delay * 2 ^ rounds
unfolding doubled
doubled_le_pow most zero delay = omega arith
doubled_le_pow most (suc rounds) delay =
    rw (twice_pow delay rounds)
      (ground (arith, doubled_le_pow most rounds (delay * 2), le_times_pow (delay * 2) rounds))

paced :
    (ra base most backed drawn limit : ℕ)
    → base ≤ most
    → backed ≤ most
    → backed ≤ limit
    → drawn < (if ltb (most - ra) base then most - ra else base) + 1
    → let delay = if ra == 0 then backed else if leb most ra then most else ra + drawn in
      (delay ≤ most)
      × (ra ≡ 0 → delay ≤ limit)
      × (0 < ra → (min most ra ≤ delay) × (delay ≤ ra + base))
paced ra base most backed drawn limit h k l d =
    (ground arith, λ e. ground arith, λ e. (ground arith, ground arith))

module _ (A : Type 0) (cfg : RetryConfig) (run : Run A)
    (draws : (attempt n : ℕ) → 0 < n → run.draw attempt n < n) where
  backoff_bounds :
      (attempt : ℕ)
      → cfg.base_delay ≤ cfg.max_delay
      → (backoff A cfg run attempt ≤ cfg.max_delay)
        × (backoff A cfg run attempt ≤ cfg.base_delay * 2 ^ (attempt - 1))
  unfolding backoff
  backoff_bounds attempt h =
      let delay = doubled cfg.max_delay (attempt - 1) cfg.base_delay in
      let most = doubled_le_most cfg.max_delay (attempt - 1) cfg.base_delay h in
      let pow = doubled_le_pow cfg.max_delay (attempt - 1) cfg.base_delay in
      let drawn = draws attempt (delay + 1) (omega arith) in
      (ground (arith, most, drawn), ground (arith, pow, drawn))

  -- Where `rand.Int64N` draws below its bound, and the delays are as `WithRetry` leaves them: a
  -- backoff is never longer than `max_delay`. Without a Retry-After it is at most the base delay,
  -- doubled for each earlier attempt. With one, it is at least what the provider asked for, unless
  -- that is more than `max_delay`, and at most the base delay longer.
  pub delay_for_bounds :
      (attempt : ℕ) (err : Failure)
      → cfg.base_delay ≤ cfg.max_delay
      → (delay_for A cfg run attempt err ≤ cfg.max_delay)
        × (retry_after err ≡ 0
            → delay_for A cfg run attempt err ≤ cfg.base_delay * 2 ^ (attempt - 1))
        × (0 < retry_after err
            → (min cfg.max_delay (retry_after err) ≤ delay_for A cfg run attempt err)
              × (delay_for A cfg run attempt err ≤ retry_after err + cfg.base_delay))
  unfolding delay_for
  delay_for_bounds attempt err h =
      let ra = retry_after err in
      let room = cfg.max_delay - ra in
      let spread = if ltb room cfg.base_delay then room else cfg.base_delay in
      let (most, pow) = backoff_bounds attempt h in
      paced ra cfg.base_delay cfg.max_delay (backoff A cfg run attempt)
        (run.draw attempt (spread + 1)) (cfg.base_delay * 2 ^ (attempt - 1)) h most pow
        (draws attempt (spread + 1) (omega arith))
