-- ===== src/Prelude/Sorting.antt =====
-- `sort.SliceStable(xs, func(i, j) { return xs[i] > xs[j] })` for an order `gt` that is given, and
-- `slices.Sort`: the list sorted, equal items in their first order. Insertion from the left.
use mathlib.Core.Path.{◌≡◌, refl, ap, ◌∙◌}
use mathlib.Core.Logic.{inl, inr}
use mathlib.Core.Bool.{Bool, true, false}
use mathlib.Core.List.{List, [], ◌∷◌, ◌++◌, Perm, perm_middle, append-nil, map}
use mathlib.Core.List.Perm
use truth_in_stream.Prelude.Tests.{if◌then◌else◌, Bool-cases}
use truth_in_stream.Prelude.Lists.{All}

module _ {ℓ} {A : Type ℓ} (gt : A → A → Bool) where
  -- behind every item that is not below `x`
  unfoldable pub insert_sorted : A → List A → List A
  insert_sorted x [] = x ∷ []
  insert_sorted x (y ∷ ys) = if gt x y then x ∷ y ∷ ys else y ∷ insert_sorted x ys

  pub sort_onto : List A → List A → List A
  sort_onto done [] = done
  sort_onto done (x ∷ xs) = sort_onto (insert_sorted x done) xs

  unfoldable pub sort_stable : List A → List A
  unfolding sort_onto insert_sorted
  sort_stable xs = sort_onto [] xs

  -- No item is above one that stands before it.
  abbrev pub IsSorted : List A → Type ℓ
  IsSorted [] = Unit
  IsSorted (x ∷ xs) = All (λ y. gt y x ≡ false) xs × IsSorted xs

  insert_sorted-perm : (x : A) (ys : List A) → Perm (insert_sorted x ys) (x ∷ ys)
  unfolding insert_sorted
  insert_sorted-perm x [] = Perm.refl _
  insert_sorted-perm x (y ∷ ys) = elim (Bool-cases (gt x y)) [
    | inl h ↦ rw h (Perm.refl _)
    | inr h ↦ rw h (Perm.trans (Perm.cons y (insert_sorted-perm x ys)) (Perm.swap x y ys))
  ]

  sort_onto-perm : (done xs : List A) → Perm (sort_onto done xs) (done ++ xs)
  unfolding sort_onto
  sort_onto-perm done [] = rw append-nil (Perm.refl _)
  sort_onto-perm done (x ∷ xs) = Perm.trans (sort_onto-perm (insert_sorted x done) xs) (
      Perm.trans (Perm.append (insert_sorted-perm x done) (Perm.refl xs))
        (Perm.symm (perm_middle done xs)))

  -- Sorting keeps the items, each as often as it was there.
  pub sort_stable-perm : (xs : List A) → Perm (sort_stable xs) xs
  unfolding sort_stable
  sort_stable-perm xs = sort_onto-perm [] xs

  module _ {κ} (P : A → Type κ) where
    All-insert_sorted : (x : A) (ys : List A) → P x → All P ys → All P (insert_sorted x ys)
    unfolding insert_sorted
    All-insert_sorted x [] px h = (px, tt)
    All-insert_sorted x (y ∷ ys) px h = elim (Bool-cases (gt x y)) [
      | inl e ↦ rw e (px, h)
      | inr e ↦ rw e (h.0, All-insert_sorted x ys px h.1)
    ]

    All-sort_onto : (done xs : List A) → All P done → All P xs → All P (sort_onto done xs)
    unfolding sort_onto
    All-sort_onto done [] hd hx = hd
    All-sort_onto done (x ∷ xs) hd hx =
        All-sort_onto (insert_sorted x done) xs (All-insert_sorted x done hx.0 hd) hx.1

    pub All-sort_stable : (xs : List A) → All P xs → All P (sort_stable xs)
    unfolding sort_stable
    All-sort_stable xs h = All-sort_onto [] xs tt h

-- Sorting sorts, where `gt` is an order on the items that have the property `P`.
module _ {ℓ κ} {A : Type ℓ} (gt : A → A → Bool) (P : A → Type κ)
    (asym : (x y : A) → P x → P y → gt x y ≡ true → gt y x ≡ false)
    (trans : (x y z : A) → P x → P y → P z → gt y x ≡ false → gt z y ≡ false → gt z x ≡ false) where
  below_trans :
      (x y : A) (zs : List A)
      → P x
      → P y
      → All P zs
      → gt y x ≡ false
      → All (λ z. gt z y ≡ false) zs
      → All (λ z. gt z x ≡ false) zs
  below_trans x y [] px py pz h k = tt
  below_trans x y (z ∷ zs) px py pz h k =
      (trans x y z px py pz.0 h k.0, below_trans x y zs px py pz.1 h k.1)

  insert_sorted-IsSorted :
      (x : A) (ys : List A) → P x → All P ys → IsSorted gt ys → IsSorted gt (insert_sorted gt x ys)
  unfolding insert_sorted
  insert_sorted-IsSorted x [] px h s = (tt, tt)
  insert_sorted-IsSorted x (y ∷ ys) px h s = elim (Bool-cases (gt x y)) [
    | inl e ↦ let yx = asym x y px h.0 e in rw e ((yx, below_trans x y ys px h.0 h.1 yx s.0), s)
    | inr e ↦ rw e (
      All-insert_sorted gt (λ z. gt z y ≡ false) x ys e s.0,
      insert_sorted-IsSorted x ys px h.1 s.1,
    )
  ]

  sort_onto-IsSorted :
      (done xs : List A)
      → All P done
      → All P xs
      → IsSorted gt done
      → IsSorted gt (sort_onto gt done xs)
  unfolding sort_onto
  sort_onto-IsSorted done [] hd hx s = s
  sort_onto-IsSorted done (x ∷ xs) hd hx s =
      sort_onto-IsSorted (insert_sorted gt x done) xs (All-insert_sorted gt P x done hx.0 hd) hx.1
        (insert_sorted-IsSorted x done hx.0 hd s)

  pub sort_stable-IsSorted : (xs : List A) → All P xs → IsSorted gt (sort_stable gt xs)
  unfolding sort_stable
  sort_stable-IsSorted xs h = sort_onto-IsSorted [] xs tt h tt

-- Sorting by a key commutes with the map that pairs an item with it.
module _ {ℓ κ} {A : Type ℓ} {B : Type κ} (gt : A → A → Bool) (gt' : B → B → Bool) (f : A → B)
    (same : (x y : A) → gt' (f x) (f y) ≡ gt x y) where
  map-insert_sorted :
      (x : A) (ys : List A) → insert_sorted gt' (f x) (map f ys) ≡ map f (insert_sorted gt x ys)
  unfolding insert_sorted
  map-insert_sorted x [] = refl
  map-insert_sorted x (y ∷ ys) =
      rw (same x y)
        (elim (Bool-cases (gt x y)) [ inl e ↦ rw e | inr e ↦ rw (e, map-insert_sorted x ys) ])

  map-sort_onto :
      (done xs : List A) → sort_onto gt' (map f done) (map f xs) ≡ map f (sort_onto gt done xs)
  unfolding sort_onto
  map-sort_onto done [] = refl
  map-sort_onto done (x ∷ xs) =
      ap (λ d. sort_onto gt' d (map f xs)) (map-insert_sorted x done)
      ∙ map-sort_onto (insert_sorted gt x done) xs

  pub map-sort_stable : (xs : List A) → sort_stable gt' (map f xs) ≡ map f (sort_stable gt xs)
  unfolding sort_stable
  map-sort_stable xs = map-sort_onto [] xs
