-- ===== src/Prelude/Gather.antt =====
-- What the items of a list yield, put together in order.
use mathlib.Core.Logic.{∥∥₁_elim, ∥∥₁_prop}
use mathlib.Core.Path.{◌≡◌, refl, sym, ap, ◌∙◌}
use mathlib.Core.List.{
  List, [], ◌∷◌, ◌++◌, append-nil, append_assoc, Perm, Permᴰ, perm_append_comm, map,
}
use mathlib.Core.List.Perm

module _ {ℓ} {A : Type ℓ} where
  pub perm_front : (xs ys zs : List A) → Perm (xs ++ (ys ++ zs)) (ys ++ (xs ++ zs))
  perm_front xs ys zs =
      rw (← append_assoc xs ys zs, ← append_assoc ys xs zs)
        (Perm.append (perm_append_comm xs ys) (Perm.refl zs))

module _ {ℓ κ} {A : Type ℓ} {B : Type κ} where
  abbrev pub gather : (A → List B) → List A → List B
  gather f [] = []
  gather f (x ∷ xs) = f x ++ gather f xs

  pub gather-append :
      (f : A → List B) (xs ys : List A) → gather f (xs ++ ys) ≡ gather f xs ++ gather f ys
  gather-append f [] ys = refl
  gather-append f (x ∷ xs) ys =
      ap (λ l. f x ++ l) (gather-append f xs ys)
      ∙ sym (append_assoc (f x) (gather f xs) (gather f ys))

  pub gather-snoc :
      (f : A → List B) (xs : List A) (x : A) → gather f (xs ++ x ∷ []) ≡ gather f xs ++ f x
  gather-snoc f xs x = gather-append f xs (x ∷ []) ∙ ap (λ l. gather f xs ++ l) (append-nil (f x))

  -- The order of the items is that of what they yield.
  gather-permᴰ : (f : A → List B) {xs ys : List A} → Permᴰ xs ys → Perm (gather f xs) (gather f ys)
  gather-permᴰ f Permᴰ.nil = Perm.refl []
  gather-permᴰ f (Permᴰ.cons {b} {l₁} {l₂} e p) =
      rw e (Perm.append (Perm.refl (f b)) (gather-permᴰ f p))
  gather-permᴰ f (Permᴰ.swap {a'} {b'} {l} e k) = rw (e, k) (perm_front (f b') (f a') (gather f l))
  gather-permᴰ f (Permᴰ.trans p q) = Perm.trans (gather-permᴰ f p) (gather-permᴰ f q)

  pub gather-perm :
      (f : A → List B) {xs ys : List A} → Perm xs ys → Perm (gather f xs) (gather f ys)
  gather-perm f p = ∥∥₁_elim p ∥∥₁_prop (gather-permᴰ f)

module _ {ℓ κ} {A : Type ℓ} {B : Type κ} where
  -- What yields each item alone undoes a map.
  pub gather-map :
      (f : B → List A) (g : A → B)
      → ((x : A) → f (g x) ≡ x ∷ [])
      → (xs : List A) → gather f (map g xs) ≡ xs
  gather-map f g h [] = refl
  gather-map f g h (x ∷ xs) = rw (h x) (ap (λ l. x ∷ l) (gather-map f g h xs))
