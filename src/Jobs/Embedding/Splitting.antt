-- ===== src/Jobs/Embedding/Splitting.antt =====
-- What the loops of stack/backend/internal/embedjob that sort the items of a batch keep, and what they
-- settle at once.
use mathlib.Core.List.{Perm, perm_middle}
use mathlib.Core.List.Perm
use truth_in_stream.Prelude.{List, [], ◌∷◌, ◌++◌, map, Option-cases, ◌≡◌, Bool-cases, inl, inr}
use truth_in_stream.Jobs.Broker.{Delivery, Env, State, knows_version, ack}
use truth_in_stream.Jobs.Broker.Settling.{done_with, Settles}
use truth_in_stream.Jobs.Embedding.{
  WorkerConfig, Json, Pending, decode, is_vector, admit, admit_all, Sorted, add_good, sort_vectors,
}

module _ {Body : Type 0} where
  abbrev pub handles : List (Pending Body) → List (Delivery Body)
  handles = map (λ p. p.d)

module _ {Value Body World : Type 0} where
  -- The items that a step keeps, with what it settles, are the deliveries that it was given.
  abbrev pub Splits :
      List (Delivery Body)
      → List (Pending Body)
      → State Value Body World
      → State Value Body World
      → Type 0
  Splits ds kept s s' = Perm (handles kept ++ done_with s') (ds ++ done_with s)

  pub Splits-Settles :
      (ds : List (Delivery Body)) (kept : List (Pending Body)) (s s' s'' : State Value Body World)
      → Splits ds kept s s'
      → Settles (handles kept) s' s''
      → Settles ds s s''
  Splits-Settles ds kept s s' s'' h k = Perm.trans k h

module _ {Value Body World : Type 0} (env : Env Value Body World) (json : Json Body)
    (w : WorkerConfig) where
  Splits-dropped :
      (d : Delivery Body) (ds : List (Delivery Body)) (kept : List (Pending Body))
      (s s' : State Value Body World)
      → Splits ds kept (ack env d s) s'
      → Splits (d ∷ ds) kept s s'
  unfolding ack
  Splits-dropped d ds kept s s' h = Perm.trans h (perm_middle ds (done_with s))

  pub admit_all-Splits :
      (ds : List (Delivery Body)) (s : State Value Body World)
      → let r = admit_all env json w ds s in Splits ds r.0 s r.1
  unfolding admit_all admit
  admit_all-Splits [] s = Perm.refl _
  admit_all-Splits (d ∷ ds) s = elim (Bool-cases (knows_version w.known_versions d.version)) [
    | inr e ↦ rw e (
        let a = admit_all env json w ds (ack env d s) in
        Splits-dropped d ds a.0 s a.1 (admit_all-Splits ds (ack env d s)))
    | inl e ↦ rw e (elim (Option-cases (decode json d.body)) [
      | inl f ↦
          rw (f, admit)
            (let a = admit_all env json w ds (ack env d s) in
              Splits-dropped d ds a.0 s a.1 (admit_all-Splits ds (ack env d s)))
      | inr (job, f) ↦ rw (f, admit) (Perm.cons d (admit_all-Splits ds s))
    ])
  ]

  pub add_good-good :
      (p : Pending Body) (vec : List Value) (rest : Sorted env json w)
      → (add_good env json w p vec rest).good ≡ p ∷ rest.good
  add_good-good p vec rest = elim (Bool-cases p.job.staging) [ inl e ↦ rw e | inr e ↦ rw e ]

  pub sort_vectors-Splits :
      (ps : List (Pending Body)) (vectors : List (List Value)) (s : State Value Body World)
      → let r = sort_vectors env json w ps vectors s in Splits (handles ps) r.0.good s r.1
  unfolding sort_vectors
  sort_vectors-Splits [] vectors s = Perm.refl _
  sort_vectors-Splits (p ∷ ps) [] s =
      let a = sort_vectors env json w ps [] (ack env p.d s) in
      Splits-dropped p.d (handles ps) a.0.good s a.1 (sort_vectors-Splits ps [] (ack env p.d s))
  sort_vectors-Splits (p ∷ ps) (vec ∷ vectors) s = elim (Bool-cases (is_vector vec)) [
    | inr e ↦ rw e (
        let a = sort_vectors env json w ps vectors (ack env p.d s) in
        Splits-dropped p.d (handles ps) a.0.good s a.1
          (sort_vectors-Splits ps vectors (ack env p.d s)))
    | inl e ↦ rw e (
        rw (add_good-good p vec (sort_vectors env json w ps vectors s).0)
          (Perm.cons p.d (sort_vectors-Splits ps vectors s)))
  ]
