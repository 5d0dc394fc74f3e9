-- ===== src/Web/RateLimit/Size.antt =====
-- The size of the map of stack/backend/internal/middleware/ratelimit.go.
use truth_in_stream.Prelude.{
  ℕ, suc, ◌≤◌, ◌<◌, String, true, false, List, [], ◌∷◌, length, length-keep, Option, none, some,
  Option-cases, Dict, lookup, insert, erase, ltb, leb, ◌=?◌, arith, ◌≡◌, refl, Bool-cases, inl, inr,
  ◌-◌, ◌⊎◌,
}
use truth_in_stream.Web.RateLimit.{
  max_buckets, stale_after, Library, RateLimiter, Bucket, Attempt, evict_sample, sweep, evict_from,
  make_room, bucket_for, attempt, allow, allow_all,
}

length-erase :
    {V : Type 0} (key : String) (entries : Dict V) → length (erase key entries) ≤ length entries
unfolding erase
length-erase key [] = omega arith
length-erase key (entry ∷ rest) = ground (arith, length-erase key rest)

length-erase_found :
    {V : Type 0} (key : String) (v : V) (entries : Dict V)
    → lookup key entries ≡ some v
    → suc (length (erase key entries)) ≤ length entries
unfolding erase lookup
length-erase_found key v [] h = absurd (grind arith)
length-erase_found key v (entry ∷ rest) h = elim (Bool-cases (entry.0 =? key)) [
  | inl e ↦ rw e (omega (arith, length-erase key rest))
  | inr e ↦ rw e (let shorter = length-erase_found key v rest (rw e at h) in omega (arith, shorter))
]

module _ {Limiter : Type 0} (lib : Library Limiter) where
  -- An eviction drops one bucket that is full, or nothing.
  pub evict_from-cases :
      (inspect_at : ℕ → ℕ) (i : ℕ) (keys : List String) (r : RateLimiter Limiter)
      → (evict_from lib inspect_at i keys r ≡ (false, r))
        ⊎ ((key : String) × (b : Bucket Limiter) × (j : ℕ) × (lookup key r.buckets ≡ some b)
            × (lib.is_full (inspect_at j) b.limiter ≡ true)
            × (evict_from lib inspect_at i keys r
                ≡ (true, record r { buckets = erase key r.buckets })))
  unfolding evict_from
  evict_from-cases inspect_at i [] r = inl refl
  evict_from-cases inspect_at i (key ∷ keys) r = elim (Option-cases (lookup key r.buckets)) [
    | inl e ↦ rw (e, evict_from) (evict_from-cases inspect_at (suc i) keys r)
    | inr (b, e) ↦ elim (Bool-cases (lib.is_full (inspect_at i) b.limiter)) [
      | inl full ↦ inr (key, b, i, e, full, rw (e, evict_from, full) refl)
      | inr spent ↦ elim (Bool-cases (leb evict_sample (suc i))) [
        | inl last ↦ inl (rw (e, evict_from, spent, last) refl)
        | inr more ↦ rw (e, evict_from, spent, more) (evict_from-cases inspect_at (suc i) keys r)
      ]
    ]
  ]

  length-sweep :
      (now : ℕ) (r : RateLimiter Limiter) → length (sweep lib now r).buckets ≤ length r.buckets
  unfolding sweep
  length-sweep now r =
      let kept = length-keep (λ entry. ltb (now - entry.1.last_seen) stale_after) r.buckets in
      elim (Bool-cases (ltb (now - r.last_sweep) stale_after)) [
        | inl e ↦ rw e (omega arith)
        | inr e ↦ rw e kept
      ]

  -- The bucket that an attempt is made with is in the map, or there is room for it.
  HasRoom : Attempt → Option (Bucket Limiter × RateLimiter Limiter) → Type 0
  HasRoom c none = Unit
  HasRoom c (some (b, r)) =
      (length r.buckets ≤ max_buckets)
      × ((lookup c.key r.buckets ≡ some b) ⊎ (length r.buckets < max_buckets))

  make_room-HasRoom :
      (c : Attempt) (r : RateLimiter Limiter)
      → length r.buckets ≤ max_buckets
      → HasRoom c (make_room lib c r)
  unfolding make_room HasRoom
  make_room-HasRoom c r h = elim (Bool-cases (leb max_buckets (length r.buckets))) [
    | inr e ↦ rw e (h, inr (ground (arith, e)))
    | inl e ↦ elim (evict_from-cases c.inspect_at 0 c.sample r) [
      | inl stays ↦ rw (e, stays) tt
      | inr (key, b, j, found, full, gone) ↦
          let room = length-erase_found key b r.buckets found in
          rw (e, gone) (omega (arith, room), inr (omega (arith, room)))
    ]
  ]

  bucket_for-HasRoom :
      (c : Attempt) (r : RateLimiter Limiter)
      → length r.buckets ≤ max_buckets
      → HasRoom c (bucket_for lib c r)
  unfolding bucket_for HasRoom
  bucket_for-HasRoom c r h = elim (Option-cases (lookup c.key r.buckets)) [
    | inl e ↦ rw (e, bucket_for) (make_room-HasRoom c r h)
    | inr (b, e) ↦ rw (e, bucket_for) (h, inl e)
  ]

  length-attempt :
      (c : Attempt) (b : Bucket Limiter) (r : RateLimiter Limiter)
      → HasRoom c (some (b, r))
      → length (attempt lib c b r).1.buckets ≤ max_buckets
  unfolding attempt insert HasRoom
  length-attempt c b r (h, inl e) = omega (arith, length-erase_found c.key b r.buckets e)
  length-attempt c b r (h, inr e) = omega (arith, length-erase c.key r.buckets)

  length-allow :
      (c : Attempt) (r : RateLimiter Limiter)
      → length r.buckets ≤ max_buckets
      → length (allow lib c r).1.buckets ≤ max_buckets
  unfolding allow
  length-allow c r h =
      let swept = sweep lib c.now r in
      let small : length swept.buckets ≤ max_buckets = omega (arith, length-sweep c.now r) in
      let room = bucket_for-HasRoom c swept small in
      elim (Option-cases (bucket_for lib c swept)) [
        | inl e ↦ rw (e, allow) small
        | inr ((b, r'), e) ↦ rw (e, allow) (length-attempt c b r' (rw e at room))
      ]

  -- However many keys are tried, in whatever order the map is ranged over and whatever the token
  -- buckets answer: a limiter that has at most `max_buckets` buckets never has more of them.
  length-allow_all :
      (calls : List Attempt) (r : RateLimiter Limiter)
      → length r.buckets ≤ max_buckets
      → length (allow_all lib calls r).1.buckets ≤ max_buckets
  unfolding allow_all
  length-allow_all [] r h = h
  length-allow_all (c ∷ calls) r h = length-allow_all calls (allow lib c r).1 (length-allow c r h)
