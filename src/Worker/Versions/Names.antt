-- ===== src/Worker/Versions/Names.antt =====
-- Names of versioned queues, stack/backend/internal/workerlifecycle/version.go, written and read.
use truth_in_stream.Prelude.{
  Bool, true, false, ◌&&◌, [], ◌∷◌, ◌++◌, none, some, Runes, length, drop, starts_with, ◌==◌,
  if◌then◌else◌, arith, ◌≡◌, refl, sym, ◌∙◌, ap, &&_true,
}
use truth_in_stream.Worker.Versions.{
  versioned_queue_name, version_marker, queue_version, is_version_token,
}

starts_with-append : (p t : Runes) → starts_with (p ++ t) p ≡ true
starts_with-append [] t = elim t [ [] ↦ refl | _ ∷ _ ↦ refl ]
starts_with-append (c ∷ p) t = ground (arith, starts_with-append p t)

drop-append : (p t : Runes) → drop (length p) (p ++ t) ≡ t
drop-append [] t = refl
drop-append (c ∷ p) t = drop-append p t

append-drop : (s p : Runes) → starts_with s p ≡ true → p ++ drop (length p) s ≡ s
append-drop s [] h = refl
append-drop [] (c ∷ p) h = cc
append-drop (d ∷ s) (c ∷ p) h =
    let (same, more) = &&_true (d == c) (starts_with s p) h in
    let e : c ≡ d = ground (arith, same) in λ i. e i ∷ append-drop s p more i

chosen :
    (b : Bool) (token v : Runes)
    → (if b then some token else none) ≡ some v
    → (b ≡ true) × (token ≡ v)
chosen true token v h = (refl, cc)
chosen false token v h = cc

found :
    (name base v : Runes)
    → queue_version name base ≡ some v
    → (versioned_queue_name base v ≡ name) × (is_version_token v ≡ true)
unfolding queue_version versioned_queue_name
found name base v h =
    let prefix = base ++ version_marker in
    let token = drop (length prefix) name in
    let (passes, same) = chosen (starts_with name prefix && is_version_token token) token v h in
    let (starts, valid) = &&_true (starts_with name prefix) (is_version_token token) passes in
    (ap (λ t. prefix ++ t) (sym same) ∙ append-drop name prefix starts, rw same at valid)

-- A valid token is read back from the name that is made of it; and whatever is read from a name is
-- a valid token that makes that name.
pub queue_version-versioned_queue_name :
    (name base v : Runes)
    → (is_version_token v ≡ true → queue_version (versioned_queue_name base v) base ≡ some v)
      × (queue_version name base ≡ some v
          → (versioned_queue_name base v ≡ name) × (is_version_token v ≡ true))
unfolding queue_version versioned_queue_name
queue_version-versioned_queue_name name base v = (back, found name base v)
  where
    back : is_version_token v ≡ true → queue_version (versioned_queue_name base v) base ≡ some v
    back h =
        rw
          (starts_with-append (base ++ version_marker) v, drop-append (base ++ version_marker) v, h)
          refl
