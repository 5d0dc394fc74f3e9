-- ===== src/Web/RateLimit/Fair.antt =====
-- Who is let in by stack/backend/internal/middleware/ratelimit.go, against a token bucket for each
-- key that is never dropped.
pub mod Likeness
pub mod Following
pub mod Tracking
use truth_in_stream.Prelude.{
  ℕ, ◌+◌, ◌≤◌, String, Bool, true, false, List, [], ◌∷◌, All, if◌then◌else◌, ◌=?◌, ◌≡◌, none, some,
}
use truth_in_stream.Web.RateLimit.{
  Library, RateLimiter, Attempt, stale_after, sweep, bucket_for, allow,
}

-- Times that never go backwards, from `t` on.
abbrev pub Ascending : ℕ → List ℕ → Type 0
Ascending t [] = Unit
Ascending t (u ∷ us) = (t ≤ u) × Ascending u us

module _ {Limiter : Type 0} (lib : Library Limiter) where
  -- What one token bucket answers to attempts at these times.
  abbrev pub answers : Limiter → List ℕ → List Bool
  answers l [] = []
  answers l (u ∷ us) = let a = lib.allow u l in a.0 ∷ answers a.1 us

  -- From `t` on, two token buckets cannot be told apart.
  abbrev pub Like : ℕ → Limiter → Limiter → Type 0
  Like t l m = (us : List ℕ) → Ascending t us → answers l us ≡ answers m us

  -- What the limiter relies on: a full bucket is like a new one; a refused attempt changes nothing;
  -- and an attempt that is let in leaves a bucket that is full again `refill` later.
  pub record Refilling (refill : ℕ) : Type 0 where
    pub full : (u : ℕ) (l : Limiter) → lib.is_full u l ≡ true → Like u l lib.new_limiter
    pub refused : (u : ℕ) (l : Limiter) → (lib.allow u l).0 ≡ false → Like u (lib.allow u l).1 l
    pub refilled :
        (u : ℕ) (l : Limiter)
        → (lib.allow u l).0 ≡ true
        → Like (u + refill) (lib.allow u l).1 lib.new_limiter

  -- The times of calls: each starts after those before it, its readings of the clock are in order,
  -- and it ends soon enough that `stale_after` covers the refill.
  abbrev pub InOrder : ℕ → ℕ → List Attempt → Type 0
  InOrder refill t [] = Unit
  InOrder refill t (c ∷ calls) =
      (t ≤ c.now)
      × ((i : ℕ) → (c.now ≤ c.inspect_at i) × (c.inspect_at i ≤ c.attempt_at))
      × (c.attempt_at + refill ≤ c.now + stale_after)
      × InOrder refill c.attempt_at calls

  -- Whether a call is turned away with no attempt, since its key has no bucket and there is no room.
  abbrev pub is_turned_away : Attempt → RateLimiter Limiter → Bool
  is_turned_away c r = elim (bucket_for lib c (sweep lib c.now r)) [ none ↦ true | some b ↦ false ]

  abbrev pub turned_away : List Attempt → RateLimiter Limiter → List Bool
  turned_away [] r = []
  turned_away (c ∷ calls) r = is_turned_away c r ∷ turned_away calls (allow lib c r).1

  abbrev pub after : Attempt → (String → Limiter) → String → Limiter
  after c held key = if c.key =? key then (lib.allow c.attempt_at (held c.key)).1 else held key

  -- A token bucket for each key, kept forever: a call that is turned away is refused, and every
  -- other one is what the bucket of its key answers.
  abbrev pub answers_by_key : List Attempt → List Bool → (String → Limiter) → List Bool
  answers_by_key [] flags held = []
  answers_by_key (c ∷ calls) [] held = []
  answers_by_key (c ∷ calls) (true ∷ flags) held = false ∷ answers_by_key calls flags held
  answers_by_key (c ∷ calls) (false ∷ flags) held =
      (lib.allow c.attempt_at (held c.key)).0 ∷ answers_by_key calls flags (after c held)
