-- ===== src/Prelude/Maps.antt =====
-- A Go map keyed by strings: its entries, latest write first, which is one of the orders in which
-- Go may range over it. A write drops the entry that it replaces.
use Prim.Native.String.{String}
use mathlib.Core.Path.{◌≡◌, refl}
use mathlib.Core.Bool.{Bool}
use mathlib.Core.Logic.{inl, inr}
use mathlib.Core.Option.{Option, none, some}
use mathlib.Core.List.{List, [], ◌∷◌}
use native.Mathlib.Omega.{arith}
use text.Mathlib.TextEquality.{eq_iff}
use truth_in_stream.Prelude.Tests.{◌=?◌, if◌then◌else◌, =?→≡, Bool-cases}
use truth_in_stream.Prelude.Lists.{keep}

abbrev pub Dict {ℓ} : Type ℓ → Type ℓ
Dict V = List (String × V)

module _ {ℓ} {V : Type ℓ} where
  -- `delete(m, key)`
  unfoldable pub erase : String → Dict V → Dict V
  erase key [] = []
  erase key (entry ∷ rest) =
      let others = erase key rest in if entry.0 =? key then others else entry ∷ others

  -- `m[key] = value`
  unfoldable pub insert : String → V → Dict V → Dict V
  unfolding erase
  insert key value entries = (key, value) ∷ erase key entries

  -- `m[key]`, `none` on a missing key
  unfoldable pub lookup : String → Dict V → Option V
  lookup key [] = none
  lookup key (entry ∷ rest) = if entry.0 =? key then some entry.1 else lookup key rest

  pub lookup-erase :
      (key other : String) (entries : Dict V)
      → lookup other (erase key entries) ≡ (if key =? other then none else lookup other entries)
  unfolding erase lookup
  lookup-erase key other [] = ground arith
  lookup-erase key other (entry ∷ rest) = ground (
    arith,
    eq_iff key other,
    eq_iff entry.0 key,
    eq_iff entry.0 other,
    lookup-erase key other rest,
  )

  pub lookup-insert :
      (key other : String) (value : V) (entries : Dict V)
      → lookup other (insert key value entries)
        ≡ (if key =? other then some value else lookup other entries)
  unfolding insert lookup
  lookup-insert key other value entries = ground (arith, lookup-erase key other entries)

  -- Every key has one entry.
  abbrev pub IsDistinct : Dict V → Type ℓ
  IsDistinct [] = Unit
  IsDistinct (entry ∷ rest) = (lookup entry.0 rest ≡ none) × IsDistinct rest

  abbrev pub filtered : (V → Bool) → Option V → Option V
  filtered q none = none
  filtered q (some v) = if q v then some v else none

  lookup-keep-none :
      (q : V → Bool) (key : String) (entries : Dict V)
      → lookup key entries ≡ none
      → lookup key (keep (λ e. q e.1) entries) ≡ none
  unfolding lookup
  lookup-keep-none q key [] h = refl
  lookup-keep-none q key (entry ∷ rest) h = elim (Bool-cases (entry.0 =? key)) [
    | inl e ↦ absurd (ground (arith, rw e at h))
    | inr e ↦
        let onward = lookup-keep-none q key rest (rw e at h) in
        elim (Bool-cases (q entry.1)) [
          | inl kept ↦ rw (kept, e) onward
          | inr dropped ↦ rw dropped onward
        ]
  ]

  pub lookup-keep :
      (q : V → Bool) (key : String) (entries : Dict V)
      → IsDistinct entries
      → lookup key (keep (λ e. q e.1) entries) ≡ filtered q (lookup key entries)
  unfolding lookup
  lookup-keep q key [] h = refl
  lookup-keep q key (entry ∷ rest) h = elim (Bool-cases (entry.0 =? key)) [
    | inr e ↦
        let onward = lookup-keep q key rest h.1 in
        elim (Bool-cases (q entry.1)) [
          | inl kept ↦ rw (kept, e) onward
          | inr dropped ↦ rw (dropped, e) onward
        ]
    | inl e ↦ elim (Bool-cases (q entry.1)) [
      | inl kept ↦ rw (kept, e, kept) refl
      | inr dropped ↦
          rw (dropped, e, dropped) (lookup-keep-none q key rest (rw (=?→≡ entry.0 key e) at h.0))
    ]
  ]

  pub keep-IsDistinct :
      (q : V → Bool) (entries : Dict V)
      → IsDistinct entries
      → IsDistinct (keep (λ e. q e.1) entries)
  keep-IsDistinct q [] h = tt
  keep-IsDistinct q (entry ∷ rest) h = elim (Bool-cases (q entry.1)) [
    | inl kept ↦ rw kept (lookup-keep-none q entry.0 rest h.0, keep-IsDistinct q rest h.1)
    | inr dropped ↦ rw dropped (keep-IsDistinct q rest h.1)
  ]

  pub erase-IsDistinct :
      (key : String) (entries : Dict V) → IsDistinct entries → IsDistinct (erase key entries)
  unfolding erase
  erase-IsDistinct key [] h = tt
  erase-IsDistinct key (entry ∷ rest) h = elim (Bool-cases (entry.0 =? key)) [
    | inl e ↦ rw e (erase-IsDistinct key rest h.1)
    | inr e ↦
        rw e (ground (arith, lookup-erase key entry.0 rest, h.0), erase-IsDistinct key rest h.1)
  ]

  pub insert-IsDistinct :
      (key : String) (value : V) (entries : Dict V)
      → IsDistinct entries
      → IsDistinct (insert key value entries)
  unfolding insert
  insert-IsDistinct key value entries h =
      (ground (arith, lookup-erase key key entries, eq_iff key key), erase-IsDistinct key entries h)
