-- ===== src/Examples/Limits.antt =====
-- The limiter of login attempts at work, with a token bucket that holds one token, back after 30
-- seconds: its state is the time from which it is full.
use truth_in_stream.Prelude.{
  ℕ, ◌+◌, ◌*◌, ◌≤◌, true, false, List, [], ◌∷◌, lookup, leb, if◌then◌else◌, arith, ◌≡◌, refl,
  Bool-cases, inl, inr, String,
}
use truth_in_stream.Web.RateLimit.{
  Library, Bucket, Attempt, evict_from, allow_all, new_rate_limiter, minute,
}
use truth_in_stream.Web.RateLimit.Fair.{Like, Refilling, InOrder, turned_away, answers_by_key}
use truth_in_stream.Web.RateLimit.Fair.Following.{Tracks}
use truth_in_stream.Web.RateLimit.Fair.Tracking.{allow_all-answers_by_key}

abbrev second : ℕ
second = 1000000000

abbrev refill : ℕ
refill = 30 * second

abbrev one_token : Library ℕ
one_token = record {
  new_limiter = 0;
  allow = λ t full_at. if leb full_at t then (true, t + refill) else (false, full_at);
  is_full = λ t full_at. leb full_at t;
}

both_full : (t l m : ℕ) → l ≤ t → m ≤ t → Like one_token t l m
both_full t l m hl hm [] asc = refl
both_full t l m hl hm (u ∷ us) asc =
    let el : leb l u ≡ true = ground (arith, asc.0) in
    let em : leb m u ≡ true = ground (arith, asc.0) in rw (el, em) refl

one_token-Refilling : Refilling one_token refill
one_token-Refilling = record {
  full = λ u l h. both_full u l 0 (ground (arith, h)) (omega arith);
  refused = λ u l h us asc. elim (Bool-cases (leb l u)) [
    | inl e ↦ absurd (ground (arith, h, e))
    | inr e ↦ rw e refl
  ];
  refilled = λ u l h. both_full (u + refill) (one_token.allow u l).1 0 (ground arith) (omega arith);
}

-- Two attempts with one key at once, one with another key, and one with the first key later.
abbrev at_time : String → ℕ → Attempt
at_time key t = record { key = key; now = t; inspect_at = λ i. t; attempt_at = t; sample = [] }

abbrev calls : List Attempt
calls =
    at_time "10.0.0.1" minute
    ∷ at_time "10.0.0.1" (minute + second)
    ∷ at_time "10.0.0.2" (minute + 2 * second)
    ∷ at_time "10.0.0.1" (minute + 31 * second)
    ∷ []

calls_answer : (allow_all one_token calls (new_rate_limiter ℕ)).0 ≡ true ∷ false ∷ true ∷ true ∷ []
unfolding allow_all
calls_answer = refl

-- Of two buckets in the order of the map, the first one that is full makes room.
evicts :
    let full : Bucket ℕ = record { limiter = 5; last_seen = 5 } in
    let spent : Bucket ℕ = record { limiter = 90; last_seen = 60 } in
    (evict_from one_token
      (λ i. 70)
      0
      ("a" ∷ "b" ∷ [])
      (record { buckets = ("a", spent) ∷ ("b", full) ∷ []; last_sweep = 0 })).1.buckets
    ≡ ("a", spent) ∷ []
unfolding evict_from
evicts = refl

calls-InOrder : InOrder one_token refill 0 calls
calls-InOrder =
    let at : (t : ℕ) → ℕ → (t ≤ t) × (t ≤ t) = λ t i. (omega arith, omega arith) in
    (
      omega arith,
      at minute,
      omega arith,
      (
        omega arith,
        at (minute + second),
        omega arith,
        (
          omega arith,
          at (minute + 2 * second),
          omega arith,
          (omega arith, at (minute + 31 * second), omega arith, tt),
        ),
      ),
    )

none_held : Tracks one_token 0 (new_rate_limiter ℕ) (λ key. 0)
unfolding lookup
none_held = (tt, λ key us asc. refl)

allow_all-answers_by_key_example :
    (allow_all one_token calls (new_rate_limiter ℕ)).0
    ≡ answers_by_key one_token calls (turned_away one_token calls (new_rate_limiter ℕ)) (λ key. 0)
allow_all-answers_by_key_example =
    allow_all-answers_by_key one_token refill one_token-Refilling 0 calls (new_rate_limiter ℕ)
      (λ key. 0) calls-InOrder none_held
