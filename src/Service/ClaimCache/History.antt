-- ===== src/Service/ClaimCache/History.antt =====
-- The verdict cache of stack/backend/internal/service/verify_path.go against the record of what was
-- put: a `CacheUse` is a call of `cacheGet` or `cachePut` at a time.
use truth_in_stream.Prelude.{
  ℕ, ◌+◌, ◌≤◌, String, Bool, true, false, List, [], ◌∷◌, Option, none, some, ◌=?◌, if◌then◌else◌,
  lookup, erase, ltb, lookup-erase, Bool-cases, =?→≡, sym, inl, inr, ◌≡◌, refl, arith, ap, ◌∙◌,
}
use truth_in_stream.Prelude.Floats.{Floats}
use truth_in_stream.Service.ClaimCache.{
  ClaimCache, new_claim_cache, CacheEntry, answer, get, put, lookup-put,
}

pub data CacheUse (F : Floats) : Type 0 where
  getting : ℕ → String → CacheUse F
  putting : ℕ → String → CacheEntry F → CacheUse F

expired_later : (expires t later : ℕ) → ltb expires t ≡ true → t ≤ later → ltb expires later ≡ true
expired_later expires t later h since = ground arith

module _ (F : Floats) (normalize : String → String) where
  abbrev Cache : Type 0
  Cache = ClaimCache F

  abbrev Entry : Type 0
  Entry = CacheEntry F

  -- what a run of uses finds, and the cache it leaves
  unfoldable pub run_uses : List (CacheUse F) → Cache → List (Option Entry)
  unfolding get put
  run_uses [] c = []
  run_uses (getting now claim ∷ uses) c =
      let r = get F normalize now claim c in r.0 ∷ run_uses uses r.1
  run_uses (putting now claim e ∷ uses) c = run_uses uses (put F normalize now claim e c)

  -- no use is earlier than the one before it
  unfoldable pub InOrder : ℕ → List (CacheUse F) → Type 0
  InOrder now [] = Unit
  InOrder now (getting t claim ∷ uses) = (now ≤ t) × InOrder t uses
  InOrder now (putting t claim e ∷ uses) = (now ≤ t) × InOrder t uses

  -- What the uses so far, the latest first, leave to find for a normal form at a time: the last put
  -- of it, while it is within its time to live.
  unfoldable pub standing : ℕ → ℕ → String → List (CacheUse F) → Option Entry
  standing ttl later key [] = none
  standing ttl later key (getting t claim ∷ past) = standing ttl later key past
  standing ttl later key (putting t claim e ∷ past) =
      let before = standing ttl later key past in
      if normalize claim =? key
      then (if ltb (t + ttl) later then none else some (record e { expires = t + ttl }))
      else before

  unfoldable pub recalled : ℕ → List (CacheUse F) → List (CacheUse F) → List (Option Entry)
  unfolding standing
  recalled ttl past [] = []
  recalled ttl past (getting t claim ∷ uses) =
      standing ttl t (normalize claim) past ∷ recalled ttl (getting t claim ∷ past) uses
  recalled ttl past (putting t claim e ∷ uses) = recalled ttl (putting t claim e ∷ past) uses

  unfoldable fresh : ℕ → Option Entry → Option Entry
  fresh later none = none
  fresh later (some e) = if ltb e.expires later then none else some e

  Tracks : ℕ → Cache → List (CacheUse F) → Type 0
  Tracks now c past =
      (later : ℕ) (key : String)
      → now ≤ later
      → fresh later (lookup key c.entries) ≡ standing c.ttl later key past

  found-fresh :
      (now : ℕ) (key : String) (c : Cache) (o : Option Entry)
      → (answer F normalize now key c o).0 ≡ fresh now o
  unfolding fresh answer
  found-fresh now key c none = refl
  found-fresh now key c (some e) = ground arith

  ttl-answer :
      (now : ℕ) (key : String) (c : Cache) (o : Option Entry)
      → (answer F normalize now key c o).1.ttl ≡ c.ttl
  unfolding answer
  ttl-answer now key c none = refl
  ttl-answer now key c (some e) = ground arith

  fresh_if :
      (later : ℕ) (b : Bool) (e : Entry) (o : Option Entry)
      → fresh later (if b then some e else o)
        ≡ (if b then (if ltb e.expires later then none else some e) else fresh later o)
  unfolding fresh
  fresh_if later true e o = refl
  fresh_if later false e o = refl

  put-Tracks :
      (now t : ℕ) (claim : String) (e : Entry) (c : Cache) (past : List (CacheUse F))
      → now ≤ t
      → Tracks now c past
      → Tracks t (put F normalize t claim e c) (putting t claim e ∷ past)
  unfolding Tracks standing put
  put-Tracks now t claim e c past h tracks later key since =
      ap (fresh later) (lookup-put F normalize t claim key e c)
      ∙ fresh_if later (normalize claim =? key) (record e { expires = t + c.ttl })
          (lookup key c.entries)
      ∙ ap
          (λ (rest : Option Entry).
            if normalize claim =? key
            then (if ltb (t + c.ttl) later then none else some (record e { expires = t + c.ttl }))
            else rest)
          (tracks later key (omega arith))

  -- what a get drops could not be found later
  fresh-erased :
      (t later : ℕ) (k key : String) (c : Cache) (e : Entry)
      → lookup k c.entries ≡ some e
      → ltb e.expires t ≡ true
      → t ≤ later
      → fresh later (lookup key (erase k c.entries)) ≡ fresh later (lookup key c.entries)
  unfolding fresh
  fresh-erased t later k key c e found expired h = elim (Bool-cases (k =? key)) [
    | inr other ↦ rw (lookup-erase, other) refl
    | inl same ↦
        rw
          (
            lookup-erase,
            same,
            sym (=?→≡ k key same),
            found,
            expired_later e.expires t later expired h,
          )
          refl
  ]

  fresh-answer :
      (t later : ℕ) (k key : String) (c : Cache) (o : Option Entry)
      → lookup k c.entries ≡ o
      → t ≤ later
      → fresh later (lookup key (answer F normalize t k c o).1.entries)
        ≡ fresh later (lookup key c.entries)
  unfolding answer
  fresh-answer t later k key c none found h = refl
  fresh-answer t later k key c (some e) found h = elim (Bool-cases (ltb e.expires t)) [
    | inl expired ↦ rw expired (fresh-erased t later k key c e found expired h)
    | inr live ↦ rw live refl
  ]

  get-Tracks :
      (now t : ℕ) (claim : String) (c : Cache) (past : List (CacheUse F))
      → now ≤ t
      → Tracks now c past
      → Tracks t (get F normalize t claim c).1 (getting t claim ∷ past)
  unfolding Tracks standing get
  get-Tracks now t claim c past h tracks later key since =
      let k = normalize claim in
      fresh-answer t later k key c (lookup k c.entries) refl since
      ∙ tracks later key (omega arith)
      ∙ ap (λ ttl. standing ttl later key past) (sym (ttl-answer t k c (lookup k c.entries)))

  ttl-get : (t : ℕ) (claim : String) (c : Cache) → (get F normalize t claim c).1.ttl ≡ c.ttl
  unfolding get
  ttl-get t claim c = ttl-answer t (normalize claim) c (lookup (normalize claim) c.entries)

  found-get :
      (now t : ℕ) (claim : String) (c : Cache) (past : List (CacheUse F))
      → now ≤ t
      → Tracks now c past
      → (get F normalize t claim c).0 ≡ standing c.ttl t (normalize claim) past
  unfolding get Tracks
  found-get now t claim c past h tracks =
      found-fresh t (normalize claim) c (lookup (normalize claim) c.entries)
      ∙ tracks t (normalize claim) h

  run_uses-recalled_after :
      (now : ℕ) (uses : List (CacheUse F)) (c : Cache) (past : List (CacheUse F))
      → Tracks now c past
      → InOrder now uses
      → run_uses uses c ≡ recalled c.ttl past uses
  unfolding run_uses recalled InOrder
  run_uses-recalled_after now [] c past tracks order = refl
  run_uses-recalled_after now (getting t claim ∷ uses) c past tracks order =
      rw (found-get now t claim c past order.0 tracks) (
        ap (λ later. standing c.ttl t (normalize claim) past ∷ later)
          (run_uses-recalled_after t uses (get F normalize t claim c).1 (getting t claim ∷ past)
              (get-Tracks now t claim c past order.0 tracks) order.1
            ∙ ap (λ ttl. recalled ttl (getting t claim ∷ past) uses) (ttl-get t claim c)))
  run_uses-recalled_after now (putting t claim e ∷ uses) c past tracks order =
      unfold put in
      run_uses-recalled_after t uses (put F normalize t claim e c) (putting t claim e ∷ past)
        (put-Tracks now t claim e c past order.0 tracks) order.1

  -- Over any sequence of lookups and stores whose times do not go back, from the empty cache: each
  -- lookup finds what was last stored for a claim of the same normal form, with its end of life, as
  -- long as that is not past, and nothing else. So what the lookups drop on their way is never
  -- missed.
  pub run_uses-recalled :
      (ttl : ℕ) (uses : List (CacheUse F))
      → InOrder 0 uses
      → run_uses uses (new_claim_cache F ttl) ≡ recalled ttl [] uses
  unfolding new_claim_cache
  run_uses-recalled ttl uses order =
      run_uses-recalled_after 0 uses (new_claim_cache F ttl) []
        (unfold new_claim_cache Tracks fresh standing lookup in λ later key h. refl) order
