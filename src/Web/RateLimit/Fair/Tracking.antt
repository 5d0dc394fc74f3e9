-- ===== src/Web/RateLimit/Fair/Tracking.antt =====
-- The buckets of stack/backend/internal/middleware/ratelimit.go stand for buckets that are never
-- dropped.
use truth_in_stream.Prelude.{
  ℕ, ◌+◌, ◌≤◌, String, true, false, List, [], ◌∷◌, Option, none, some, Option-cases, lookup, erase,
  lookup-insert, lookup-erase, erase-IsDistinct, insert-IsDistinct, leb, length, if◌then◌else◌,
  ◌=?◌, =?→≡, arith, ◌≡◌, refl, sym, ap, Bool-cases, inl, inr,
}
use truth_in_stream.Web.RateLimit.{
  stale_after, Library, RateLimiter, Bucket, Attempt, sweep, make_room, bucket_for, attempt, allow,
  allow_all, max_buckets, new_bucket,
}
use truth_in_stream.Web.RateLimit.Size.{evict_from-cases}
use truth_in_stream.Web.RateLimit.Fair.{
  Like, Refilling, InOrder, is_turned_away, turned_away, after, answers_by_key,
}
use truth_in_stream.Web.RateLimit.Fair.Likeness.{
  Like-later, Like-trans, Like-sym, Like-answer, Like-allow,
}
use truth_in_stream.Web.RateLimit.Fair.Following.{Follows, Tracks, Tracks-later, sweep-Tracks}

module _ {Limiter : Type 0} (lib : Library Limiter) where
  module _ (refill : ℕ) (law : Refilling lib refill) where
    erase-Tracks :
        (t : ℕ) (key : String) (b : Bucket Limiter) (r : RateLimiter Limiter)
        (held : String → Limiter)
        → lookup key r.buckets ≡ some b
        → lib.is_full t b.limiter ≡ true
        → Tracks lib t r held
        → Tracks lib t (record r { buckets = erase key r.buckets }) held
    erase-Tracks t key b r held found full tr = (
      erase-IsDistinct key r.buckets tr.0,
      λ other. rw (lookup-erase key other r.buckets) (elim (Bool-cases (key =? other)) [
        | inr e ↦ rw e (tr.1 other)
        | inl e ↦
            let f : Follows lib t (some b) (held key) = rw found at (tr.1 key) in
            rw (e, sym (=?→≡ key other e))
              (Like-trans lib t lib.new_limiter b.limiter (held key)
                (Like-sym lib t b.limiter lib.new_limiter (law.full t b.limiter full)) f.0)
      ]),
    )

    -- The bucket that an attempt is made with follows its key's.
    abbrev Ready :
        Attempt → (String → Limiter) → Option (Bucket Limiter × RateLimiter Limiter) → Type 0
    Ready c held none = Unit
    Ready c held (some (b, r)) =
        Tracks lib c.attempt_at r held × Follows lib c.attempt_at (some b) (held c.key)

    abbrev Timed : Attempt → Type 0
    Timed c = (i : ℕ) → (c.now ≤ c.inspect_at i) × (c.inspect_at i ≤ c.attempt_at)

    new-Follows :
        (t : ℕ) (m : Limiter)
        → Like lib t lib.new_limiter m
        → Follows lib t (some (new_bucket lib)) m
    new-Follows t m f = (f, λ v le old us asc. refl)

    make_room-Ready :
        (c : Attempt) (r : RateLimiter Limiter) (held : String → Limiter)
        → Timed c
        → lookup c.key r.buckets ≡ none
        → Tracks lib c.now r held
        → Ready c held (make_room lib c r)
    unfolding make_room
    make_room-Ready c r held timed missing tr =
        let a = c.attempt_at in
        let no_later : c.now ≤ a = omega (arith, timed 0) in
        let tr' : Tracks lib a r held = Tracks-later lib c.now a r held no_later tr in
        let f : Like lib a lib.new_limiter (held c.key) = rw missing at (tr'.1 c.key) in
        let fresh : Follows lib a (some (new_bucket lib)) (held c.key) =
          new-Follows a (held c.key) f in
        elim (Bool-cases (leb max_buckets (length r.buckets))) [
          | inr e ↦ rw e (tr', fresh)
          | inl e ↦ elim (evict_from-cases lib c.inspect_at 0 c.sample r) [
            | inl stays ↦ rw (e, stays) tt
            | inr (key, b, j, found, full, gone) ↦
                let u = c.inspect_at j in
                let tr_u = Tracks-later lib c.now u r held (timed j).0 tr in
                rw (e, gone)
                  (
                    Tracks-later lib u a (record r { buckets = erase key r.buckets }) held
                        (timed j).1 (erase-Tracks u key b r held found full tr_u),
                    fresh,
                  )
          ]
        ]

    bucket_for-Ready :
        (c : Attempt) (r : RateLimiter Limiter) (held : String → Limiter)
        → Timed c
        → Tracks lib c.now r held
        → Ready c held (bucket_for lib c r)
    unfolding bucket_for
    bucket_for-Ready c r held timed tr =
        let a = c.attempt_at in
        let tr' : Tracks lib a r held =
          Tracks-later lib c.now a r held (omega (arith, timed 0)) tr in
        elim (Option-cases (lookup c.key r.buckets)) [
          | inl e ↦ rw (e, bucket_for) (make_room-Ready c r held timed e tr)
          | inr (b, e) ↦ rw (e, bucket_for) (tr', rw e at (tr'.1 c.key))
        ]

    -- The bucket after the attempt follows its key's after the attempt.
    tried-Follows :
        (c : Attempt) (b : Bucket Limiter) (m : Limiter)
        → c.attempt_at + refill ≤ c.now + stale_after
        → Follows lib c.attempt_at (some b) m
        → let a = lib.allow c.attempt_at b.limiter in
          Follows lib c.attempt_at
            (some (record { limiter = a.1; last_seen = if a.0 then c.now else b.last_seen }))
            (lib.allow c.attempt_at m).1
    tried-Follows c b m soon f =
        let t = c.attempt_at in
        let a = lib.allow t b.limiter in
        (
          Like-allow lib t t b.limiter m (omega arith) f.0,
          elim (Bool-cases a.0) [
            | inl e ↦ rw e (λ v le old.
                Like-later lib (t + refill) v a.1 lib.new_limiter (omega (arith, soon, old))
                  (law.refilled t b.limiter e))
            | inr e ↦ rw e (λ v le old.
                Like-trans lib v a.1 b.limiter lib.new_limiter
                  (Like-later lib t v a.1 b.limiter le (law.refused t b.limiter e)) (f.1 v le old))
          ],
        )

    attempt-Tracks :
        (c : Attempt) (b : Bucket Limiter) (r : RateLimiter Limiter) (held : String → Limiter)
        → c.attempt_at + refill ≤ c.now + stale_after
        → Tracks lib c.attempt_at r held
        → Follows lib c.attempt_at (some b) (held c.key)
        → Tracks lib c.attempt_at (attempt lib c b r).1 (after lib c held)
    unfolding attempt
    attempt-Tracks c b r held soon tr f =
        let a = lib.allow c.attempt_at b.limiter in
        let b' : Bucket Limiter = record {
          limiter = a.1;
          last_seen = if a.0 then c.now else b.last_seen;
        } in
        (
          insert-IsDistinct c.key b' r.buckets tr.0,
          λ other. rw (lookup-insert c.key other b' r.buckets) (elim (Bool-cases (c.key =? other)) [
            | inl e ↦ rw e (tried-Follows c b (held c.key) soon f)
            | inr e ↦ rw e (tr.1 other)
          ]),
        )

    -- Where a full bucket is like a new one, a refused attempt changes nothing, and a bucket is full
    -- again `refill` after an attempt that is let in; where the calls come one after the other, and
    -- each makes its attempt so soon that `stale_after` covers the refill: what the calls answer,
    -- whatever the order in which the map is ranged over, is what a bucket for each key that is never
    -- dropped would answer, but for the calls that are turned away for want of room, which are
    -- refused. So no client gets more attempts by filling the map with other keys.
    pub allow_all-answers_by_key :
        (t : ℕ) (calls : List Attempt) (r : RateLimiter Limiter) (held : String → Limiter)
        → InOrder lib refill t calls
        → Tracks lib t r held
        → (allow_all lib calls r).0 ≡ answers_by_key lib calls (turned_away lib calls r) held
    unfolding allow_all allow
    allow_all-answers_by_key t [] r held timed tr = refl
    allow_all-answers_by_key t (c ∷ calls) r held timed tr =
        let swept = sweep lib c.now r in
        let tr' = sweep-Tracks lib t c.now r held timed.0 tr in
        let ready = bucket_for-Ready c swept held timed.1 tr' in
        let no_later : c.now ≤ c.attempt_at = omega (arith, timed.1 0) in
        elim (Option-cases (bucket_for lib c swept)) [
          | inl e ↦
              rw (e, allow, is_turned_away)
                (ap (λ l. false ∷ l)
                  (allow_all-answers_by_key c.attempt_at calls swept held timed.3
                    (Tracks-later lib c.now c.attempt_at swept held no_later tr')))
          | inr ((b, r'), e) ↦
              let at_hand : Ready c held (some (b, r')) = rw e at ready in
              let same =
                Like-answer lib c.attempt_at c.attempt_at b.limiter (held c.key) (omega arith)
                  at_hand.1.0 in
              let onward =
                allow_all-answers_by_key c.attempt_at calls (attempt lib c b r').1
                  (after lib c held) timed.3
                  (attempt-Tracks c b r' held timed.2 at_hand.0 at_hand.1) in
              rw (e, allow, is_turned_away) (λ i. same i ∷ onward i)
        ]
