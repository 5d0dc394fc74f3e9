-- ===== src/Jobs/Embedding/Retries.antt =====
-- How often the worker of stack/backend/internal/embedjob sends a job for another try.
use truth_in_stream.Prelude.{
  ℕ, zero, suc, ◌+◌, ◌-◌, ◌<◌, false, if◌then◌else◌, Option, none, some, Option-cases, pos, le_int,
  leb, arith, ◌≡◌, refl, sym, ap, ◌∙◌, Bool-cases, ◌⊎◌, inl, inr,
}
use truth_in_stream.Jobs.Broker.{Fate, ack_it, republish_it, requeue_it, Env, State}
use truth_in_stream.Jobs.Embedding.{
  WorkerConfig, Job, Json, retry_of, validate, valid_job, decode, after_failure,
}

plus_zero : (a : ℕ) → a ≡ a + 0
plus_zero a = omega arith

plus_suc : (a n : ℕ) → suc (a + n) ≡ a + suc n
plus_suc a n = omega arith

below : (most a n : ℕ) → leb (most - 1) (a + n) ≡ false → a + suc n < most
below most a n h = ground arith

spent_test : (most k : ℕ) → leb (most - 1) k ≡ leb most (suc k)
spent_test most k = ground arith

module _ {Value Body World : Type 0} (env : Env Value Body World) (json : Json Body)
    (w : WorkerConfig) where
  -- A failure sends the first job for another try, and the body that is sent is read as the second.
  pub record IsRetried (job next : Job) : Type 0 where
    pub priority : ℕ
    pub state : State Value Body World
    pub body : Body
    pub sent : after_failure env json w job priority state ≡ republish_it body priority
    pub read : decode json body ≡ some next

  -- This many failures, one after the other, lead from the first job to the second.
  pub data Retries (job : Job) : ℕ → Job → Type 0 where
    fresh : Retries job 0 job
    again :
        {n : ℕ} {last next : Job}
        → Retries job n last
        → IsRetried last next
        → Retries job (suc n) next

  abbrev pub resent : ℕ → Option Body → Fate Body
  resent priority none = ack_it
  resent priority (some body) = republish_it body priority

  after_failure_fate :
      (job : Job) (k priority : ℕ) (s : State Value Body World)
      → job.attempt ≡ pos k
      → after_failure env json w job priority s ≡ (
          if env.done s.world
          then requeue_it
          else if leb w.max_attempts (suc k)
          then ack_it
          else resent priority (json.marshal (record job { attempt = pos (suc k) })))
  unfolding after_failure
  after_failure_fate job k priority s e = rw (e, spent_test w.max_attempts k) refl

  module _
      (round_trip : (job : Job) (body : Body)
        → json.marshal job ≡ some body
        → json.unmarshal body ≡ some job) where
    after_failure_sends :
        (job : Job) (priority : ℕ) (s : State Value Body World) (body : Body)
        → after_failure env json w job priority s ≡ republish_it body priority
        → (le_int (pos (w.max_attempts - 1)) job.attempt ≡ false)
          × (json.marshal (retry_of json job) ≡ some body)
    unfolding after_failure
    after_failure_sends job priority s body h = elim (Bool-cases (env.done s.world)) [
      | inl e ↦ let bad = rw e at h in cc
      | inr e ↦
          let live = rw e at h in
          elim (Bool-cases (le_int (pos (w.max_attempts - 1)) job.attempt)) [
            | inl f ↦ let bad = rw f at live in cc
            | inr f ↦
                let left = rw f at live in
                elim (Option-cases (json.marshal (retry_of json job))) [
                  | inl g ↦ let bad = rw g at left in cc
                  | inr (sent, g) ↦ let same = rw g at left in (f, cc)
                ]
          ]
    ]

    decode_retry :
        (job next : Job) (body : Body)
        → json.marshal job ≡ some body
        → decode json body ≡ some next
        → next ≡ job
    unfolding decode valid_job
    decode_retry job next body h k =
        let valid = rw (round_trip job body h, decode) at k in
        elim (Option-cases (validate job)) [
          | inl e ↦ let same = rw (e, valid_job) at valid in cc
          | inr (bad, e) ↦ let same = rw (e, valid_job) at valid in cc
        ]

    Retries-attempts :
        (job last : Job) (a n : ℕ)
        → job.attempt ≡ pos a
        → Retries job n last
        → (last ≡ record job { attempt = pos (a + n) }) × ((n ≡ 0) ⊎ (a + n < w.max_attempts))
    Retries-attempts job last a zero e fresh =
        ((λ i. record job { attempt = (e ∙ ap pos (plus_zero a)) i }), inl refl)
    Retries-attempts job next a (suc n) e (again {last} r step) =
        let before = Retries-attempts job last a n e r in
        let sends = after_failure_sends last step.priority step.state step.body step.sent in
        let same = decode_retry (retry_of json last) next step.body sends.1 step.read in
        let left = ap (λ j. le_int (pos (w.max_attempts - 1)) j.attempt) (sym before.0) ∙ sends.0 in
        (
          same ∙ ap (retry_of json) before.0 ∙ (λ i. record job { attempt = pos (plus_suc a n i) }),
          inr (below (w.max_attempts) a n left),
        )

    -- Where JSON reads back a job that it wrote: a job that was sent for another try `n` times, each
    -- time after a failure of the job that was sent before, is the first job with `n` attempts more,
    -- and if it was sent at all, its attempts are below the budget. When it fails once more, its
    -- delivery is given back if the context is done. Otherwise the job is dropped if this attempt
    -- uses up the budget, and if not, it is sent with one attempt more at the priority of its
    -- delivery, or dropped where it cannot be encoded. Only failures are counted here: a delivery
    -- that is given back comes again with the same attempts.
    pub Retries-bounded :
        (job last : Job) (a n priority : ℕ) (s : State Value Body World)
        → job.attempt ≡ pos a
        → Retries job n last
        → (last ≡ record job { attempt = pos (a + n) })
          × ((n ≡ 0) ⊎ (a + n < w.max_attempts))
          × (after_failure env json w last priority s ≡ (
              if env.done s.world
              then requeue_it
              else if leb w.max_attempts (suc (a + n))
              then ack_it
              else resent priority (json.marshal (record job { attempt = pos (suc (a + n)) }))))
    Retries-bounded job last a n priority s e r =
        let (same, below_budget) = Retries-attempts job last a n e r in
        (
          same,
          below_budget,
          rw same
              (after_failure_fate (record job { attempt = pos (a + n) }) (a + n) priority s refl),
        )
