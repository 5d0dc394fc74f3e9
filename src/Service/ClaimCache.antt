-- ===== src/Service/ClaimCache.antt =====
-- The verdict cache of stack/backend/internal/service/verify_path.go: `claimCache`, `cacheGet` and
-- `cachePut`. Times are numbers; `normalize` stands for `normalizeClaim`, whose letter cases come
-- from the Unicode tables.
pub mod History
use truth_in_stream.Prelude.{
  ℕ, ◌+◌, ◌≤◌, ◌<◌, String, false, List, [], Option, none, some, ◌=?◌, if◌then◌else◌, Dict, lookup,
  insert, erase, ltb, lookup-insert, lookup-erase, ◌≡◌, refl, arith, ap, ◌∙◌, =?_refl, lt→ltb,
}
use truth_in_stream.Prelude.Floats.{Floats}
use truth_in_stream.Service.Verdicts.{VerdictSource, VerifiedVerdict}

module _ (F : Floats) where
  pub record CacheEntry : Type 0 where
    pub source : VerdictSource
    pub verdict : VerifiedVerdict F
    pub embedding : List F.Float
    pub expires : ℕ

  pub record ClaimCache : Type 0 where
    pub ttl : ℕ
    pub entries : Dict CacheEntry

  -- `newClaimCache`
  unfoldable pub new_claim_cache : ℕ → ClaimCache
  new_claim_cache ttl = record { ttl = ttl; entries = [] }

live_test : (later limit : ℕ) → later ≤ limit → ltb limit later ≡ false
live_test later limit h = ground arith

module _ (F : Floats) (normalize : String → String) where
  abbrev Cache : Type 0
  Cache = ClaimCache F

  -- an entry past its time is dropped
  pub answer : ℕ → String → Cache → Option (CacheEntry F) → Option (CacheEntry F) × Cache
  answer now key c none = (none, c)
  answer now key c (some e) =
      if ltb e.expires now then (none, record c { entries = erase key c.entries }) else (some e, c)

  unfoldable pub get : ℕ → String → Cache → Option (CacheEntry F) × Cache
  unfolding answer
  get now claim c = answer now (normalize claim) c (lookup (normalize claim) c.entries)

  unfoldable pub put : ℕ → String → CacheEntry F → Cache → Cache
  put now claim e c = record c {
    entries = insert (normalize claim) (record e { expires = now + c.ttl }) c.entries;
  }

  -- `cacheGet` and `cachePut`: a nil cache, which a TTL of 0 gives, holds nothing
  unfoldable pub cache_get : ℕ → String → Option Cache → Option (CacheEntry F) × Option Cache
  unfolding get
  cache_get now claim none = (none, none)
  cache_get now claim (some c) = let (hit, c') = get now claim c in (hit, some c')

  unfoldable pub cache_put : ℕ → String → CacheEntry F → Option Cache → Option Cache
  unfolding put
  cache_put now claim e none = none
  cache_put now claim e (some c) = some (put now claim e c)

  pub lookup-put :
      (now : ℕ) (a k : String) (e : CacheEntry F) (c : Cache)
      → lookup k (put now a e c).entries ≡ (
          if normalize a =? k
          then some (record e { expires = now + c.ttl })
          else lookup k c.entries)
  unfolding put
  lookup-put now a k e c =
      lookup-insert (normalize a) k (record e { expires = now + c.ttl }) c.entries

  lookup-put_same :
      (now : ℕ) (a b : String) (e : CacheEntry F) (c : Cache)
      → normalize a ≡ normalize b
      → lookup (normalize b) (put now a e c).entries ≡ some (record e { expires = now + c.ttl })
  lookup-put_same now a b e c same =
      lookup-put now a (normalize b) e c
      ∙ ap
          (λ t.
            if t then some (record e { expires = now + c.ttl }) else lookup (normalize b) c.entries)
          (ap (λ k. k =? normalize b) same ∙ =?_refl (normalize b))

  gone : (k : String) (m : Dict (CacheEntry F)) → lookup k (erase k m) ≡ none
  gone k m = lookup-erase k k m ∙ ap (λ t. if t then none else lookup k m) (=?_refl k)

  -- A claim that is put is found, by any claim with the same normal form, up to and including the
  -- end of its time to live, and the lookup changes nothing; after that it is not found, and its
  -- entry is dropped from the map.
  pub get-put :
      (now later : ℕ) (a b : String) (e : CacheEntry F) (c : Cache)
      → normalize a ≡ normalize b
      → let c' = put now a e c in
        (later ≤ now + c.ttl → get later b c' ≡ (some (record e { expires = now + c.ttl }), c'))
        × (now + c.ttl < later
            → ((get later b c').0 ≡ none)
              × (lookup (normalize b) (get later b c').1.entries ≡ none))
  unfolding get
  get-put now later a b e c same =
      let c' = put now a e c in
      let e' : CacheEntry F = record e { expires = now + c.ttl } in
      let found = ap (answer later (normalize b) c') (lookup-put_same now a b e c same) in
      (
        λ live.
            found
            ∙ ap
                (λ t.
                  if t
                  then (none, record c' { entries = erase (normalize b) c'.entries })
                  else (some e', c'))
                (live_test later (now + c.ttl) live),
        λ dead.
            let all =
              found
              ∙ ap
                  (λ t.
                    if t
                    then (none, record c' { entries = erase (normalize b) c'.entries })
                    else (some e', c'))
                  (lt→ltb (now + c.ttl) later dead) in
            (
              ap (λ r. r.0) all,
              ap (λ r. lookup (normalize b) r.1.entries) all ∙ gone (normalize b) c'.entries,
            ),
      )

  found-answer :
      (now : ℕ) (k : String) (c d : Cache) (o : Option (CacheEntry F))
      → (answer now k c o).0 ≡ (answer now k d o).0
  unfolding answer
  found-answer now k c d none = refl
  found-answer now k c d (some e) = ground arith

  -- A put does not change what is found for a claim of another normal form.
  pub get-put_ne :
      (now later : ℕ) (a b : String) (e : CacheEntry F) (c : Cache)
      → (normalize a =? normalize b) ≡ false
      → (get later b (put now a e c)).0 ≡ (get later b c).0
  unfolding get
  get-put_ne now later a b e c differ =
      found-answer later (normalize b) (put now a e c) c _
      ∙ ap (λ o. (answer later (normalize b) c o).0)
          (lookup-put now a (normalize b) e c
            ∙ ap
                (λ t.
                  if t
                  then some (record e { expires = now + c.ttl })
                  else lookup (normalize b) c.entries)
                differ)
