-- ===== src/Embed/Retry/Attempts.antt =====
-- The attempts of stack/backend/internal/embed/retry.go: which round ends a call, and how.
use truth_in_stream.Prelude.{
  ℕ, zero, suc, ◌+◌, ◌≤◌, ◌<◌, Bool, true, false, List, [], ◌∷◌, length, ◌==◌, arith, ◌≡◌, refl,
  Bool-cases, inl, inr, ◌⊎◌,
}
use truth_in_stream.Embed.Retry.{
  RetryConfig, Failure, is_retriable, Run, Answer, answered, refused, Ending, embedded,
  context_error, failed, gave_up, delay_for, after_failure, after_answer, attempts_from,
  embed_documents,
}

module _ (A : Type 0) (cfg : RetryConfig) (run : Run A) where
  -- The attempt fails in a way that is tried again, and its backoff is slept to the end.
  abbrev pub GoesOn : ℕ → Type 0
  GoesOn k =
      (err : Failure) × (run.answer k ≡ refused err)
      × (run.done k ≡ false)
      × (is_retriable err ≡ true)
      × (run.slept k ≡ true)

  -- How attempt `k` ends the call.
  pub data EndsAt (k : ℕ) : Ending A → Type 0 where
    success : {out : A} → run.answer k ≡ answered out → EndsAt k (embedded out)
    stopped :
        {err : Failure} → run.answer k ≡ refused err → run.done k ≡ true → EndsAt k context_error
    permanent :
        {err : Failure}
        → run.answer k ≡ refused err
        → run.done k ≡ false
        → is_retriable err ≡ false
        → EndsAt k (failed err)
    exhausted :
        {err : Failure}
        → run.answer k ≡ refused err
        → run.done k ≡ false
        → is_retriable err ≡ true
        → k ≡ cfg.max_attempts
        → EndsAt k (gave_up cfg.max_attempts err)
    interrupted :
        {err : Failure}
        → run.answer k ≡ refused err
        → run.done k ≡ false
        → is_retriable err ≡ true
        → k < cfg.max_attempts
        → run.slept k ≡ false
        → EndsAt k context_error

  -- From an attempt on, a call goes through some attempts that are tried again to one that ends it.
  abbrev Ends : ℕ → Ending A × List ℕ → Type 0
  Ends first result =
      (k : ℕ) × (first ≤ k)
      × (k ≤ cfg.max_attempts)
      × ((j : ℕ) → first ≤ j → j < k → GoesOn j)
      × EndsAt k result.0
      × (first + length result.1 ≤ suc k)

  at_once :
      (k : ℕ) (e : Ending A) (delays : List ℕ)
      → k ≤ cfg.max_attempts
      → EndsAt k e
      → length delays ≤ 1
      → Ends k (e, delays)
  at_once k e delays h ends few =
      (k, omega arith, h, (λ j a b. absurd (omega (arith, a, b))), ends, omega (arith, few))

  go_on :
      (k : ℕ) (e : Ending A) (delay : ℕ) (delays : List ℕ)
      → GoesOn k
      → Ends (suc k) (e, delays)
      → Ends k (e, delay ∷ delays)
  go_on k e delay delays goes (n, from, to, before, ends, few) = (
    n,
    omega (arith, from),
    to,
    (λ j a b. elim (split k j a) [ inl same ↦ rw (← same) goes | inr later ↦ before j later b ]),
    ends,
    omega (arith, few),
  )
    where
      split : (k j : ℕ) → k ≤ j → (k ≡ j) ⊎ (suc k ≤ j)
      split k j h = omega (arith, h)

  after_failure-Ends :
      (k : ℕ) (err : Failure) (later : Ending A × List ℕ)
      → k ≤ cfg.max_attempts
      → run.answer k ≡ refused err
      → (k < cfg.max_attempts → Ends (suc k) later)
      → Ends k (after_failure A cfg run k err later)
  unfolding after_failure
  after_failure-Ends k err later h ans next = elim (Bool-cases (run.done k)) [
    | inl stop ↦ rw stop (at_once k context_error [] h (stopped ans stop) (omega arith))
    | inr goes ↦ rw goes (elim (Bool-cases (is_retriable err)) [
      | inr bad ↦ rw bad (at_once k (failed err) [] h (permanent ans goes bad) (omega arith))
      | inl again ↦ rw again (elim (last (k == cfg.max_attempts) k cfg.max_attempts h refl) [
        | inl (yes_last, same) ↦ rw yes_last (
            at_once k (gave_up cfg.max_attempts err) [] h (exhausted ans goes again same)
              (omega arith))
        | inr (not_last, less) ↦ rw not_last (elim (Bool-cases (run.slept k)) [
          | inl full ↦ rw full (
              go_on k later.0 (delay_for A cfg run k err) later.1 (err, ans, goes, again, full)
                (next less))
          | inr cut ↦ rw cut (
              at_once k context_error (delay_for A cfg run k err ∷ []) h
                (interrupted ans goes again less cut) (omega arith))
        ])
      ])
    ])
  ]
    where
      last :
          (b : Bool) (k n : ℕ)
          → k ≤ n
          → (k == n) ≡ b
          → ((b ≡ true) × (k ≡ n)) ⊎ ((b ≡ false) × (k < n))
      last true k n h e = inl (refl, ground (arith, e))
      last false k n h e = inr (refl, ground (arith, e))

  after_answer-Ends :
      (k : ℕ) (ans : Answer A) (later : Ending A × List ℕ)
      → k ≤ cfg.max_attempts
      → run.answer k ≡ ans
      → (k < cfg.max_attempts → Ends (suc k) later)
      → Ends k (after_answer A cfg run k ans later)
  unfolding after_answer
  after_answer-Ends k (answered out) later h ans next =
      at_once k (embedded out) [] h (success ans) (omega arith)
  after_answer-Ends k (refused err) later h ans next = after_failure-Ends k err later h ans next

  attempts_from-Ends :
      (left k : ℕ)
      → left + k ≡ suc cfg.max_attempts
      → 0 < left
      → Ends k (attempts_from A cfg run left k)
  unfolding attempts_from
  attempts_from-Ends (suc left) k h pos =
      after_answer-Ends k (run.answer k) (attempts_from A cfg run left (suc k)) (omega (arith, h))
        refl (λ less. attempts_from-Ends left (suc k) (omega (arith, h)) (omega (arith, h, less)))
  attempts_from-Ends zero k h pos = absurd (omega arith)

  -- Where at least one attempt is allowed: a call makes `k` requests, one to `max_attempts`. Every
  -- earlier one failed with a rate limit or a timeout in a live context and was slept after, and
  -- the last one decides how the call ends: with the vectors; with the context's error, when the
  -- context is done after the request or during the sleep; with a permanent error at once; or with
  -- the last error, when no attempt is left. It waits at most `k` times.
  pub embed_documents_ends :
      0 < cfg.max_attempts
      → (k : ℕ) × (1 ≤ k)
        × (k ≤ cfg.max_attempts)
        × ((j : ℕ) → 1 ≤ j → j < k → GoesOn j)
        × EndsAt k (embed_documents A cfg run).0
        × (1 + length (embed_documents A cfg run).1 ≤ suc k)
  unfolding embed_documents
  embed_documents_ends h = attempts_from-Ends cfg.max_attempts 1 (omega arith) h
