-- ===== src/Schedule/Distinct.antt =====
-- The registry of stack/backend/internal/schedule/registry.go has one entry for a source.
use truth_in_stream.Prelude.{
  ℕ, String, Bool, false, ◌||◌, List, [], ◌∷◌, ◌++◌, any, Option, none, some, ◌=?◌, arith, ◌≡◌,
  refl, Bool-cases, inl, inr, ℤ, is_negative, get_or, ap, sym, ◌∙◌, eq_iff,
}
use truth_in_stream.Schedule.{Entry, Registry, empty_registry, register_schedule}

module _ {Producer : Type 0} where
  abbrev pub is_for : String → Entry Producer → Bool
  is_for name e = e.source =? name

  -- No source has two entries.
  abbrev pub IsDistinct : List (Entry Producer) → Type 0
  IsDistinct [] = Unit
  IsDistinct (e ∷ entries) = (any (is_for e.source) entries ≡ false) × IsDistinct entries

  -- The registries that calls of `RegisterSchedule` make of an empty one.
  pub data Registered : Registry Producer → Type 0 where
    unused : Registered (empty_registry Producer)
    added :
        (source : String) (schedule : Option (ℕ → ℕ)) (jitter : ℤ) (producer : Option Producer)
        (r r' : Registry Producer)
        → Registered r
        → register_schedule source schedule jitter producer r ≡ some r'
        → Registered r'

  abbrev IsValid : Registry Producer → Type 0
  IsValid r =
      IsDistinct r.entries
      × ((name : String) → any (is_for name) r.entries ≡ any (λ n. n =? name) r.seen)

  any-snoc :
      (name : String) (entries : List (Entry Producer)) (e : Entry Producer)
      → any (is_for name) (entries ++ e ∷ []) ≡ (is_for name e || any (is_for name) entries)
  any-snoc name [] e = refl
  any-snoc name (d ∷ entries) e = ground (arith, any-snoc name entries e)

  snoc-IsDistinct :
      (entries : List (Entry Producer)) (e : Entry Producer)
      → any (is_for e.source) entries ≡ false
      → IsDistinct entries
      → IsDistinct (entries ++ e ∷ [])
  snoc-IsDistinct [] e h distinct = (refl, tt)
  snoc-IsDistinct (d ∷ entries) e h distinct =
      let split = any-snoc d.source entries e in
      (
        ground (arith, split, h, distinct.0, eq_iff e.source d.source, eq_iff d.source e.source),
        snoc-IsDistinct entries e (ground (arith, h)) distinct.1,
      )

  register_schedule-IsValid :
      (source : String) (schedule : Option (ℕ → ℕ)) (jitter : ℤ) (producer : Option Producer)
      (r r' : Registry Producer)
      → register_schedule source schedule jitter producer r ≡ some r'
      → IsValid r
      → IsValid r'
  unfolding register_schedule
  register_schedule-IsValid source none jitter producer r r' h valid = absurd (grind (arith, h))
  register_schedule-IsValid source (some schedule) jitter none r r' h valid =
      absurd (grind (arith, h))
  register_schedule-IsValid source (some schedule) jitter (some producer) r r' h valid =
      elim (Bool-cases (is_negative jitter)) [
        | inl e ↦ absurd (grind (arith, rw e at h))
        | inr e ↦ elim (Bool-cases (any (λ name. name =? source) r.seen)) [
          | inl twice ↦ absurd (grind (arith, rw (e, twice) at h))
          | inr new ↦
              let added_entry : Entry Producer = record {
                source = source;
                schedule = schedule;
                jitter = jitter;
                producer = producer;
              } in
              let same = ap (λ o. get_or o r') (rw (e, new) at h) in
              rw (sym same) (
                snoc-IsDistinct r.entries added_entry (valid.1 source ∙ new) valid.0,
                λ name. ground (arith, any-snoc name r.entries added_entry, valid.1 name),
              )
        ]
      ]

  Registered-IsValid : (r : Registry Producer) → Registered r → IsValid r
  Registered-IsValid _ unused = (tt, λ name. refl)
  Registered-IsValid r' (added source schedule jitter producer r _ before h) =
      register_schedule-IsValid source schedule jitter producer r r' h (Registered-IsValid r before)

  pub Registered-IsDistinct : (r : Registry Producer) → Registered r → IsDistinct r.entries
  Registered-IsDistinct r reg = (Registered-IsValid r reg).0
