-- ===== src/Web/RateLimit.antt =====
-- The limiter of login attempts: stack/backend/internal/middleware/ratelimit.go. The token bucket of
-- golang.org/x/time/rate is a parameter. Times are nanoseconds since Go's zero time, never backwards.
pub mod Size
pub mod Fair
use truth_in_stream.Prelude.{
  ℕ, suc, ◌-◌, ◌*◌, ◌^◌, String, Bool, true, false, List, [], ◌∷◌, length, keep, Option, none, some,
  Dict, lookup, insert, erase, ltb, leb, if◌then◌else◌,
}

-- `time.Minute`
abbrev pub minute : ℕ
minute = 60 * 10 ^ 9

-- `staleAfter`
abbrev pub stale_after : ℕ
stale_after = 15 * minute

-- `maxBuckets`
abbrev pub max_buckets : ℕ
max_buckets = 10000

-- `evictSample`
abbrev pub evict_sample : ℕ
evict_sample = 64

-- What the code calls of a `rate.Limiter`, each at the time of the call: `rate.NewLimiter` with the
-- limit and the burst of the rate limiter, `Allow`, and `Tokens() >= float64(burst)`.
pub record Library (Limiter : Type 0) : Type 0 where
  pub new_limiter : Limiter
  pub allow : ℕ → Limiter → Bool × Limiter
  pub is_full : ℕ → Limiter → Bool

pub record Bucket (Limiter : Type 0) : Type 0 where
  pub limiter : Limiter
  pub last_seen : ℕ

pub record RateLimiter (Limiter : Type 0) : Type 0 where
  pub buckets : Dict (Bucket Limiter)
  pub last_sweep : ℕ

-- `NewRateLimiter`
abbrev pub new_rate_limiter : (Limiter : Type 0) → RateLimiter Limiter
new_rate_limiter Limiter = record { buckets = []; last_sweep = 0 }

-- One call of `Allow`: the key, the clock as `Allow` reads it, as the token bucket reads it when the
-- ith bucket is inspected, and when the attempt is made; and the keys in the order in which the map
-- is ranged over.
pub record Attempt : Type 0 where
  pub key : String
  pub now : ℕ
  pub inspect_at : ℕ → ℕ
  pub attempt_at : ℕ
  pub sample : List String

module _ {Limiter : Type 0} (lib : Library Limiter) where
  unfoldable pub sweep : ℕ → RateLimiter Limiter → RateLimiter Limiter
  sweep now r = if ltb (now - r.last_sweep) stale_after then r else record {
    buckets = keep (λ entry. ltb (now - entry.1.last_seen) stale_after) r.buckets;
    last_sweep = now;
  }

  -- `evictRefilled`, from the ith inspected entry on
  unfoldable pub evict_from :
      (ℕ → ℕ) → ℕ → List String → RateLimiter Limiter → Bool × RateLimiter Limiter
  unfolding lookup erase
  evict_from inspect_at i [] r = (false, r)
  evict_from inspect_at i (key ∷ keys) r =
      let rest = evict_from inspect_at (suc i) keys r in
      elim (lookup key r.buckets) [
        | none ↦ rest
        | some b ↦
            if lib.is_full (inspect_at i) b.limiter
            then (true, record r { buckets = erase key r.buckets })
            else if leb evict_sample (suc i)
            then (false, r)
            else rest
      ]

  abbrev pub new_bucket : Bucket Limiter
  new_bucket = record { limiter = lib.new_limiter; last_seen = 0 }

  unfoldable pub make_room :
      Attempt → RateLimiter Limiter → Option (Bucket Limiter × RateLimiter Limiter)
  unfolding evict_from
  make_room c r =
      if leb max_buckets (length r.buckets)
      then (let evicted = evict_from c.inspect_at 0 c.sample r in
          if evicted.0 then some (new_bucket, evicted.1) else none)
      else some (new_bucket, r)

  -- The bucket of the key in the swept map, made if it is missing; `none` if the map has no room.
  unfoldable pub bucket_for :
      Attempt → RateLimiter Limiter → Option (Bucket Limiter × RateLimiter Limiter)
  unfolding lookup make_room
  bucket_for c r = elim (lookup c.key r.buckets) [ none ↦ make_room c r | some b ↦ some (b, r) ]

  unfoldable pub attempt :
      Attempt → Bucket Limiter → RateLimiter Limiter → Bool × RateLimiter Limiter
  unfolding insert
  attempt c b r =
      let a = lib.allow c.attempt_at b.limiter in
      let seen = if a.0 then c.now else b.last_seen in
      let b' : Bucket Limiter = record { limiter = a.1; last_seen = seen } in
      (a.0, record r { buckets = insert c.key b' r.buckets })

  -- `RateLimiter.Allow`
  unfoldable pub allow : Attempt → RateLimiter Limiter → Bool × RateLimiter Limiter
  unfolding sweep bucket_for attempt
  allow c r =
      let swept = sweep c.now r in
      elim (bucket_for c swept) [ none ↦ (false, swept) | some (b, r') ↦ attempt c b r' ]

  -- What the calls answer, one after the other, and the limiter after them.
  unfoldable pub allow_all : List Attempt → RateLimiter Limiter → List Bool × RateLimiter Limiter
  unfolding allow
  allow_all [] r = ([], r)
  allow_all (c ∷ calls) r =
      let a = allow c r in let rest = allow_all calls a.1 in (a.0 ∷ rest.0, rest.1)
