-- ===== src/Jobs/Broker/Settling.antt =====
-- The traces of the queue consumers below stack/backend/internal: which deliveries they settle.
use mathlib.Core.List.{Perm, perm_append_comm}
use mathlib.Core.List.Perm
use truth_in_stream.Prelude.{
  ℕ, String, Bool, true, false, List, [], ◌∷◌, ◌++◌, append_assoc, none, some, Option-cases, ◌≡◌,
  refl, Bool-cases, inl, inr, ◌⊎◌,
}
use truth_in_stream.Corpus.{EvidenceChunk}
use truth_in_stream.Jobs.Broker.{
  Delivery, Fate, ack_it, republish_it, requeue_it, Env, Effect, answered, unanswered, stored,
  unstored, upserted, unupserted, republished, acked, nacked, State, ack, nack, embed,
  set_embeddings, upsert, enqueue, apply_fate,
}

module _ {Value Body : Type 0} where
  -- The deliveries that were acknowledged or given back, the latest first.
  abbrev pub settled : List (Effect Value Body) → List (Delivery Body)
  settled [] = []
  settled (acked d done ∷ t) = d ∷ settled t
  settled (nacked d ∷ t) = d ∷ settled t
  settled (answered texts vectors ∷ t) = settled t
  settled (unanswered texts ∷ t) = settled t
  settled (stored staging chunks ∷ t) = settled t
  settled (unstored staging chunks ∷ t) = settled t
  settled (upserted chunk ∷ t) = settled t
  settled (unupserted chunk ∷ t) = settled t
  settled (republished body priority ∷ t) = settled t

  module _ {World : Type 0} where
    abbrev pub done_with : State Value Body World → List (Delivery Body)
    done_with s = settled s.trace

    -- Between two states, exactly these deliveries are settled, each as often as it is listed.
    abbrev pub Settles :
        List (Delivery Body) → State Value Body World → State Value Body World → Type 0
    Settles ds s s' = Perm (done_with s') (ds ++ done_with s)

    pub Settles-none :
        (s s' : State Value Body World) → done_with s' ≡ done_with s → Settles [] s s'
    Settles-none s s' e = rw e (Perm.refl _)

    pub Settles-trans :
        (ds es : List (Delivery Body)) (s s' s'' : State Value Body World)
        → Settles ds s s'
        → Settles es s' s''
        → Settles (ds ++ es) s s''
    Settles-trans ds es s s' s'' h k = Perm.trans k (
        Perm.trans (Perm.append (Perm.refl es) h) (
          rw (← append_assoc es ds (done_with s))
            (Perm.append (perm_append_comm es ds) (Perm.refl (done_with s)))))

module _ {Value Body World : Type 0} (env : Env Value Body World) where
  pub embed-settled :
      (texts : List String) (s : State Value Body World)
      → done_with (embed env texts s).1 ≡ done_with s
  unfolding embed
  embed-settled texts s = elim (Option-cases (env.embed_documents texts s.world).0) [
    | inl e ↦ rw (e, embed)
    | inr (vectors, e) ↦ rw (e, embed)
  ]

  pub set_embeddings-settled :
      (staging : Bool) (chunks : List (EvidenceChunk String Value)) (s : State Value Body World)
      → done_with (set_embeddings env staging chunks s).1 ≡ done_with s
  unfolding set_embeddings
  set_embeddings-settled staging chunks s =
      elim (Option-cases (env.set_embeddings staging chunks s.world).0) [
        | inl e ↦ rw (e, set_embeddings)
        | inr (n, e) ↦ rw (e, set_embeddings)
      ]

  enqueue-settled :
      (body : Body) (priority : ℕ) (s : State Value Body World)
      → done_with (enqueue env body priority s).1 ≡ done_with s
  unfolding enqueue
  enqueue-settled body priority s = elim (Bool-cases (env.enqueue body priority s.world).0) [
    | inl e ↦ rw e
    | inr e ↦ rw e
  ]

  pub ack-Settles :
      (d : Delivery Body) (s : State Value Body World) → Settles (d ∷ []) s (ack env d s)
  unfolding ack
  ack-Settles d s = Perm.refl _

  pub nack-Settles :
      (d : Delivery Body) (s : State Value Body World) → Settles (d ∷ []) s (nack env d s)
  unfolding nack
  nack-Settles d s = Perm.refl _

  pub apply_fate-Settles :
      (d : Delivery Body) (f : Fate Body) (s : State Value Body World)
      → Settles (d ∷ []) s (apply_fate env d f s)
  unfolding apply_fate
  apply_fate-Settles d ack_it s = ack-Settles d s
  apply_fate-Settles d requeue_it s = nack-Settles d s
  apply_fate-Settles d (republish_it body priority) s =
      let r = enqueue env body priority s in
      let quiet = Settles-none s r.1 (enqueue-settled body priority s) in
      elim (Bool-cases r.0) [
        | inl e ↦ rw e (Settles-trans [] (d ∷ []) s r.1 (ack env d r.1) quiet (ack-Settles d r.1))
        | inr e ↦ rw e (Settles-trans [] (d ∷ []) s r.1 (nack env d r.1) quiet (nack-Settles d r.1))
      ]

  -- A call adds to the trace what it did, or that it failed.
  pub embed-trace :
      (texts : List String) (s : State Value Body World)
      → let r = embed env texts s in
        ((r.0 ≡ none) × (r.1.trace ≡ unanswered texts ∷ s.trace))
        ⊎ ((vectors : List (List Value)) × (r.0 ≡ some vectors)
            × (r.1.trace ≡ answered texts vectors ∷ s.trace))
  unfolding embed
  embed-trace texts s = elim (Option-cases (env.embed_documents texts s.world).0) [
    | inl e ↦ rw (e, embed) (inl (refl, refl))
    | inr (vectors, e) ↦ rw (e, embed) (inr (vectors, refl, refl))
  ]

  pub set_embeddings-trace :
      (staging : Bool) (chunks : List (EvidenceChunk String Value)) (s : State Value Body World)
      → let r = set_embeddings env staging chunks s in
        ((r.0 ≡ none) × (r.1.trace ≡ unstored staging chunks ∷ s.trace))
        ⊎ ((n : ℕ) × (r.0 ≡ some n) × (r.1.trace ≡ stored staging chunks ∷ s.trace))
  unfolding set_embeddings
  set_embeddings-trace staging chunks s =
      elim (Option-cases (env.set_embeddings staging chunks s.world).0) [
        | inl e ↦ rw (e, set_embeddings) (inl (refl, refl))
        | inr (n, e) ↦ rw (e, set_embeddings) (inr (n, refl, refl))
      ]

  pub upsert-trace :
      (chunk : EvidenceChunk String Value) (s : State Value Body World)
      → let r = upsert env chunk s in
        ((r.0 ≡ false) × (r.1.trace ≡ unupserted chunk ∷ s.trace))
        ⊎ ((r.0 ≡ true) × (r.1.trace ≡ upserted chunk ∷ s.trace))
  unfolding upsert
  upsert-trace chunk s = elim (Bool-cases (env.upsert_chunk chunk s.world).0) [
    | inl e ↦ rw e (inr (refl, refl))
    | inr e ↦ rw e (inl (refl, refl))
  ]
