-- ===== src/Web/RateLimit/Fair/Following.antt =====
-- The buckets of stack/backend/internal/middleware/ratelimit.go, and the buckets that they stand for.
use truth_in_stream.Prelude.{
  ℕ, ◌+◌, ◌-◌, ◌≤◌, String, Option, none, some, lookup, lookup-keep, IsDistinct, keep-IsDistinct,
  filtered, ltb, arith, Bool-cases, inl, inr,
}
use truth_in_stream.Web.RateLimit.{stale_after, Library, RateLimiter, Bucket, sweep}
use truth_in_stream.Web.RateLimit.Fair.{Like}
use truth_in_stream.Web.RateLimit.Fair.Likeness.{Like-later, Like-trans, Like-sym}

module _ {Limiter : Type 0} (lib : Library Limiter) where
  -- From `t` on, the bucket of a key, a new one if there is none, is like the one kept forever; and
  -- it is like a new one once it has been idle for `stale_after`.
  abbrev pub Follows : ℕ → Option (Bucket Limiter) → Limiter → Type 0
  Follows t none m = Like lib t lib.new_limiter m
  Follows t (some b) m =
      Like lib t b.limiter m
      × ((v : ℕ) → t ≤ v → b.last_seen + stale_after ≤ v → Like lib v b.limiter lib.new_limiter)

  abbrev pub Tracks : ℕ → RateLimiter Limiter → (String → Limiter) → Type 0
  Tracks t r held =
      IsDistinct r.buckets × ((key : String) → Follows t (lookup key r.buckets) (held key))

  Follows-later :
      (t u : ℕ) (o : Option (Bucket Limiter)) (m : Limiter) → t ≤ u → Follows t o m → Follows u o m
  Follows-later t u none m h f = Like-later lib t u lib.new_limiter m h f
  Follows-later t u (some b) m h f =
      (Like-later lib t u b.limiter m h f.0, λ v le. f.1 v (omega (arith, h, le)))

  pub Tracks-later :
      (t u : ℕ) (r : RateLimiter Limiter) (held : String → Limiter)
      → t ≤ u
      → Tracks t r held
      → Tracks u r held
  Tracks-later t u r held h tr =
      (tr.0, λ key. Follows-later t u (lookup key r.buckets) (held key) h (tr.1 key))

  -- A bucket that is idle may be dropped, and so may a full one.
  Follows-filtered :
      (t : ℕ) (o : Option (Bucket Limiter)) (m : Limiter)
      → Follows t o m
      → Follows t (filtered (λ b. ltb (t - b.last_seen) stale_after) o) m
  Follows-filtered t none m f = f
  Follows-filtered t (some b) m f = elim (Bool-cases (ltb (t - b.last_seen) stale_after)) [
    | inl fresh ↦ rw fresh f
    | inr stale ↦ rw stale (
        let idle : b.last_seen + stale_after ≤ t = ground (arith, stale) in
        Like-trans lib t lib.new_limiter b.limiter m
          (Like-sym lib t b.limiter lib.new_limiter (f.1 t (omega arith) idle)) f.0)
  ]

  pub sweep-Tracks :
      (t now : ℕ) (r : RateLimiter Limiter) (held : String → Limiter)
      → t ≤ now
      → Tracks t r held
      → Tracks now (sweep lib now r) held
  unfolding sweep
  sweep-Tracks t now r held h tr =
      let tr' = Tracks-later t now r held h tr in
      let q = λ (b : Bucket Limiter). ltb (now - b.last_seen) stale_after in
      elim (Bool-cases (ltb (now - r.last_sweep) stale_after)) [
        | inl e ↦ rw e tr'
        | inr e ↦ rw e (
          keep-IsDistinct q r.buckets tr.0,
          λ key.
              rw (lookup-keep q key r.buckets tr.0)
                (Follows-filtered now (lookup key r.buckets) (held key) (tr'.1 key)),
        )
      ]
