-- ===== src/Examples/Embedding.antt =====
-- Embedding calls at concrete inputs.
use truth_in_stream.Prelude.{
  ℕ, zero, suc, ◌+◌, ◌-◌, ◌*◌, ◌^◌, ◌≤◌, ◌<◌, min, true, false, [], ◌∷◌, some, length, arith, ◌≡◌,
  refl,
}
use truth_in_stream.Embed.Retry.{
  RetryConfig, Failure, retry_after, Run, Answer, answered, refused, embedded, delay_for,
  embed_documents,
}
use truth_in_stream.Embed.Retry.Delays.{delay_for_bounds}
use truth_in_stream.Embed.Retry.Attempts.{GoesOn, EndsAt, embed_documents_ends}

abbrev retries : RetryConfig
retries = record { max_attempts = 3; base_delay = 10; max_delay = 100 }

abbrev throttled : Failure
throttled = record { api_error = some (429, 25); timed_out = false }

abbrev second_time : ℕ → Answer ℕ
second_time zero = refused throttled
second_time (suc zero) = refused throttled
second_time (suc (suc n)) = answered 7

abbrev run : Run ℕ
run = record {
  answer = second_time;
  done = λ _. false;
  slept = λ _. true;
  draw = λ attempt n. n - 1;
}

delay_for_bounds_example :
    (delay_for ℕ retries run 1 throttled ≤ 100)
    × (retry_after throttled ≡ 0 → delay_for ℕ retries run 1 throttled ≤ 10 * 2 ^ (1 - 1))
    × (0 < retry_after throttled
        → (min 100 (retry_after throttled) ≤ delay_for ℕ retries run 1 throttled)
          × (delay_for ℕ retries run 1 throttled ≤ retry_after throttled + 10))
delay_for_bounds_example =
    delay_for_bounds ℕ retries run (λ attempt n h. omega (arith, h)) 1 throttled (omega arith)

embed_documents_ends_example :
    (k : ℕ) × (1 ≤ k)
    × (k ≤ 3)
    × ((j : ℕ) → 1 ≤ j → j < k → GoesOn ℕ retries run j)
    × EndsAt ℕ retries run k (embed_documents ℕ retries run).0
    × (1 + length (embed_documents ℕ retries run).1 ≤ suc k)
embed_documents_ends_example = embed_documents_ends ℕ retries run (omega arith)

retried : embed_documents ℕ retries run ≡ (embedded 7, 35 ∷ [])
unfolding embed_documents
retried = refl
