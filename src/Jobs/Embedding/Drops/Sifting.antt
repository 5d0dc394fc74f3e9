-- ===== src/Jobs/Embedding/Drops/Sifting.antt =====
-- Dropped deliveries of stack/backend/internal/embedjob: the items of a batch that have their vectors.
use truth_in_stream.Prelude.{
  String, true, List, [], ◌∷◌, All, All-map, Some, Option-cases, if◌then◌else◌, ◌≡◌, refl,
  Bool-cases, inl, inr,
}
use truth_in_stream.Jobs.Broker.{Delivery, Env, Effect, State, knows_version, ack}
use truth_in_stream.Jobs.Embedding.Splitting.{add_good-good}
use truth_in_stream.Jobs.Embedding.{
  WorkerConfig, Json, Pending, decode, is_vector, admit, admit_all, Sorted, add_good, sort_vectors,
  texts_of,
}
use truth_in_stream.Jobs.Embedding.Faults.{
  knows_version-IsUnknown, decode-IsUnreadable, good_length, bad_length,
}
use truth_in_stream.Jobs.Embedding.Drops.{
  Proper, IsChunkOf, Asked, Lacks, Misshapes, Sound, IsSound, misshapen, unknown_version,
  unreadable,
}

module _ {Value Body World : Type 0} (json : Json Body) (w : WorkerConfig)
    (env : Env Value Body World) where
  pub admit_all-Sound :
      (ds : List (Delivery Body)) (s : State Value Body World)
      → IsSound json w env s
      → let r = admit_all env json w ds s in All (Proper json) r.0 × Sound json w r.1.trace
  unfolding admit_all admit ack
  admit_all-Sound [] s sound = (tt, sound)
  admit_all-Sound (d ∷ ds) s sound = elim (Bool-cases (knows_version w.known_versions d.version)) [
    | inr e ↦ rw e (
        admit_all-Sound ds (ack env d s)
          (unknown_version (knows_version-IsUnknown w.known_versions d.version e), sound))
    | inl e ↦ rw e (elim (Option-cases (decode json d.body)) [
      | inl f ↦
          rw (f, admit)
            (admit_all-Sound ds (ack env d s)
              (unreadable (decode-IsUnreadable json d.body f), sound))
      | inr (job, f) ↦
          rw (f, admit) (let rest = admit_all-Sound ds s sound in ((f, rest.0), rest.1))
    ])
  ]

  -- The chunk of the item is in the half that its job is for.
  abbrev pub Has : Sorted env json w → Pending Body → Type 0
  Has sorted p =
      Some (IsChunkOf json w p.job) (if p.job.staging then sorted.staging else sorted.live)

  pub Has-add_good :
      (p q : Pending Body) (vec : List Value) (rest : Sorted env json w)
      → Has rest q
      → Has (add_good env json w p vec rest) q
  Has-add_good p q vec rest h = elim (Bool-cases p.job.staging) [
    | inl e ↦ rw e (elim (Bool-cases q.job.staging) [
      | inl f ↦ rw f (inr (rw f at h))
      | inr f ↦ rw f (rw f at h)
    ])
    | inr e ↦ rw e (elim (Bool-cases q.job.staging) [
      | inl f ↦ rw f (rw f at h)
      | inr f ↦ rw f (inr (rw f at h))
    ])
  ]

  add_good-Has :
      (p : Pending Body) (vec : List Value) (rest : Sorted env json w)
      → is_vector vec ≡ true
      → Has (add_good env json w p vec rest) p
  add_good-Has p vec rest good = elim (Bool-cases p.job.staging) [
    | inl e ↦ rw e (inl (vec, good_length vec good, refl))
    | inr e ↦ rw e (inl (vec, good_length vec good, refl))
  ]

  -- What the trace has to say of the vectors that are still to be looked at.
  abbrev pub Tells : List String → List (List Value) → List (Effect Value Body) → Type 0
  Tells texts vectors t = (c : String) → Lacks json w c texts vectors → Some (Misshapes json w c) t

  pub record Sifted (r : Sorted env json w × State Value Body World) : Type 0 where
    pub proper : All (Proper json) r.0.good
    pub held : All (Has r.0) r.0.good
    pub asked : All (λ p. Asked json w p.job.content r.1.trace) r.0.good
    pub sound : Sound json w r.1.trace

  keep_vector :
      (p : Pending Body) (vec : List Value) (r : Sorted env json w × State Value Body World)
      → Proper json p
      → is_vector vec ≡ true
      → Asked json w p.job.content r.1.trace
      → Sifted r
      → Sifted (add_good env json w p vec r.0, r.1)
  keep_vector p vec r h good asked k = record {
    proper = rw (add_good-good env json w p vec r.0) (h, k.proper);
    held = rw (add_good-good env json w p vec r.0) (
      add_good-Has p vec r.0 good,
      All-map (Has r.0) (Has (add_good env json w p vec r.0)) r.0.good
          (λ q. Has-add_good p q vec r.0) k.held,
    );
    asked = rw (add_good-good env json w p vec r.0) (asked, k.asked);
    sound = k.sound;
  }

  -- The acknowledgements of items without a vector leave the latest answer as it is.
  sort_vectors-Asked :
      (ps : List (Pending Body)) (vectors : List (List Value)) (s : State Value Body World)
      (content : String)
      → Asked json w content s.trace
      → Asked json w content (sort_vectors env json w ps vectors s).1.trace
  unfolding sort_vectors ack
  sort_vectors-Asked [] vectors s content h = h
  sort_vectors-Asked (p ∷ ps) [] s content h = sort_vectors-Asked ps [] (ack env p.d s) content h
  sort_vectors-Asked (p ∷ ps) (vec ∷ vectors) s content h = elim (Bool-cases (is_vector vec)) [
    | inl e ↦ rw e (sort_vectors-Asked ps vectors s content h)
    | inr e ↦ rw e (sort_vectors-Asked ps vectors (ack env p.d s) content h)
  ]

  -- The client was asked for each of these texts.
  abbrev pub AskedFor : List String → List (Effect Value Body) → Type 0
  AskedFor texts t = (c : String) → Some (λ text. text ≡ c) texts → Asked json w c t

  pub sort_vectors-Sifted :
      (ps : List (Pending Body)) (vectors : List (List Value)) (s : State Value Body World)
      → All (Proper json) ps
      → Tells (texts_of env json w ps) vectors s.trace
      → AskedFor (texts_of env json w ps) s.trace
      → IsSound json w env s
      → Sifted (sort_vectors env json w ps vectors s)
  unfolding sort_vectors ack
  sort_vectors-Sifted [] vectors s h tells asked sound = record {
    proper = tt;
    held = tt;
    asked = tt;
    sound = sound;
  }
  sort_vectors-Sifted (p ∷ ps) [] s h tells asked sound =
      sort_vectors-Sifted ps [] (ack env p.d s) h.1 (λ c k. inr (tells c (inr k)))
        (λ c k. asked c (inr k)) (misshapen p.job h.0 (tells p.job.content (inl refl)), sound)
  sort_vectors-Sifted (p ∷ ps) (vec ∷ vectors) s h tells asked sound =
      elim (Bool-cases (is_vector vec)) [
        | inl e ↦ rw e (
            keep_vector p vec (sort_vectors env json w ps vectors s) h.0 e
              (sort_vectors-Asked ps vectors s p.job.content (asked p.job.content (inl refl)))
              (sort_vectors-Sifted ps vectors s h.1 (λ c k. tells c (inr k))
                (λ c k. asked c (inr k)) sound))
        | inr e ↦ rw e (
            sort_vectors-Sifted ps vectors (ack env p.d s) h.1 (λ c k. inr (tells c (inr k)))
              (λ c k. asked c (inr k))
              (misshapen p.job h.0 (tells p.job.content (inl (refl, bad_length vec e))), sound))
      ]
