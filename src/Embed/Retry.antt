-- ===== src/Embed/Retry.antt =====
-- `RetryClient` of stack/backend/internal/embed/retry.go. Durations are nanoseconds, and so small
-- that their doubling stays in an int64. What a run meets is the record `Run`, by the number of the
-- attempt: the wrapped client's answer, whether the context is done by then, whether the backoff
-- was slept to its end, and the random number, which `rand.Int64N` draws below its bound.
pub mod Delays
pub mod Attempts
use truth_in_stream.Prelude.{
  ℕ, zero, suc, ◌+◌, ◌-◌, ◌*◌, ◌<◌, Bool, true, false, ◌&&◌, ◌||◌, List, [], ◌∷◌, Option, none,
  some, ltb, leb, ◌==◌, if◌then◌else◌,
}

-- Delays that are not positive are 0.
pub record RetryConfig : Type 0 where
  pub max_attempts : ℕ
  pub base_delay : ℕ
  pub max_delay : ℕ

abbrev pub default_retry_base_delay : ℕ
default_retry_base_delay = 1000000000

-- The clamping of `WithRetry`, in its order.
unfoldable pub with_retry : RetryConfig → RetryConfig
with_retry cfg =
    let base = if cfg.base_delay == 0 then default_retry_base_delay else cfg.base_delay in
    record {
      max_attempts = if ltb cfg.max_attempts 1 then 1 else cfg.max_attempts;
      base_delay = base;
      max_delay = if ltb cfg.max_delay base then base else cfg.max_delay;
    }

-- An error of the wrapped client: the status and the Retry-After of an API error, if it is one, and
-- whether it is a network timeout.
pub record Failure : Type 0 where
  pub api_error : Option (ℕ × ℕ)
  pub timed_out : Bool

unfoldable pub is_rate_limited : Failure → Bool
is_rate_limited err = elim err.api_error [ none ↦ false | some e ↦ e.0 == 429 ]

unfoldable pub is_retriable : Failure → Bool
unfolding is_rate_limited
is_retriable err = is_rate_limited err || err.timed_out

unfoldable pub retry_after : Failure → ℕ
retry_after err = elim err.api_error [ none ↦ 0 | some e ↦ if e.0 == 429 then e.1 else 0 ]

-- The rounds of doubling that are left, and the delay so far.
unfoldable pub doubled : ℕ → ℕ → ℕ → ℕ
doubled most zero delay = delay
doubled most (suc rounds) delay =
    let next = delay * 2 in
    let later = doubled most rounds next in if leb most next then most else later

module _ (A : Type 0) where
  pub data Answer : Type 0 where
    answered : A → Answer
    refused : Failure → Answer

  pub record Run : Type 0 where
    pub answer : ℕ → Answer
    pub done : ℕ → Bool
    pub slept : ℕ → Bool
    pub draw : ℕ → ℕ → ℕ

  -- How a call ends: `ctx.Err()` is `context_error`.
  pub data Ending : Type 0 where
    embedded : A → Ending
    context_error : Ending
    failed : Failure → Ending
    gave_up : ℕ → Failure → Ending

  module _ (cfg : RetryConfig) (run : Run) where
    unfoldable pub backoff : ℕ → ℕ
    unfolding doubled
    backoff attempt =
        let delay = doubled cfg.max_delay (attempt - 1) cfg.base_delay in
        if delay == 0 then 0 else run.draw attempt (delay + 1)

    unfoldable pub delay_for : ℕ → Failure → ℕ
    unfolding backoff retry_after
    delay_for attempt err =
        let ra = retry_after err in
        let room = cfg.max_delay - ra in
        let spread = if ltb room cfg.base_delay then room else cfg.base_delay in
        if ra == 0
        then backoff attempt
        else if leb cfg.max_delay ra
        then cfg.max_delay
        else ra + run.draw attempt (spread + 1)

    -- The rest of a round whose request failed, given what the later rounds make of it: how the
    -- call ends, and the backoffs that are waited for.
    unfoldable pub after_failure : ℕ → Failure → Ending × List ℕ → Ending × List ℕ
    unfolding is_retriable delay_for
    after_failure attempt err later =
        if run.done attempt
        then (context_error, [])
        else if is_retriable err
        then if attempt == cfg.max_attempts
          then (gave_up cfg.max_attempts err, [])
          else if run.slept attempt
          then (later.0, delay_for attempt err ∷ later.1)
          else (context_error, delay_for attempt err ∷ [])
        else (failed err, [])

    unfoldable pub after_answer : ℕ → Answer → Ending × List ℕ → Ending × List ℕ
    unfolding after_failure
    after_answer attempt (answered out) later = (embedded out, [])
    after_answer attempt (refused err) later = after_failure attempt err later

    -- `left` rounds are left, this one included; the round with none is never reached.
    unfoldable pub attempts_from : ℕ → ℕ → Ending × List ℕ
    unfolding after_answer
    attempts_from zero attempt = (context_error, [])
    attempts_from (suc left) attempt =
        after_answer attempt (run.answer attempt) (attempts_from left (suc attempt))

    unfoldable pub embed_documents : Ending × List ℕ
    unfolding attempts_from
    embed_documents = attempts_from cfg.max_attempts 1
