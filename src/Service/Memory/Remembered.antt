-- ===== src/Service/Memory/Remembered.antt =====
-- What holds of all the statements that the memory of stack/backend/internal/service/consistency.go keeps.
use truth_in_stream.Prelude.{
  ℕ, zero, suc, String, List, [], ◌∷◌, ◌++◌, map, if◌then◌else◌, take, length, ltb, ◌&&◌, ◌=?◌,
  lookup-insert, eq_iff, All, All-append, ◌≡◌, refl, ap, ◌∙◌, Bool-cases, inl, inr, Option, none,
  some,
}
use truth_in_stream.Prelude.Floats.{Floats}
use truth_in_stream.Prelude.Sorting.{sort_stable, All-sort_stable}
use truth_in_stream.Service.Memory.{
  PriorStatement, SpeakerMemory, prior, remember, cosine_similarity, candidates, closer,
  rank_by_similarity,
}

All-take : {A : Type 0} (P : A → Type 0) (n : ℕ) (xs : List A) → All P xs → All P (take n xs)
All-take P zero xs h = tt
All-take P (suc n) [] h = tt
All-take P (suc n) (x ∷ xs) (p, h) = (p, All-take P n xs h)

All-map_fst :
    {A B : Type 0} (P : A → Type 0) (xs : List (A × B))
    → All (λ c. P c.0) xs
    → All P (map (λ c. c.0) xs)
All-map_fst P [] h = tt
All-map_fst P (x ∷ xs) (p, h) = (p, All-map_fst P xs h)

module _ (F : Floats) where
  open F use {Float, le}

  All-candidates :
      (P : PriorStatement F → Type 0) (emb : List Float) (floor : Float)
      (ps : List (PriorStatement F))
      → All P ps
      → All (λ c. P c.0) (candidates F emb floor ps)
  unfolding candidates
  All-candidates P emb floor [] h = tt
  All-candidates P emb floor (p ∷ ps) (hp, h) =
      elim (Bool-cases (le floor (cosine_similarity F emb p.embedding))) [
        | inl e ↦ rw e (hp, All-candidates P emb floor ps h)
        | inr e ↦ rw e (All-candidates P emb floor ps h)
      ]

  -- The ranking is made of the given statements.
  pub All-rank_by_similarity :
      (P : PriorStatement F → Type 0) (emb : List Float) (ps : List (PriorStatement F))
      (floor : Float) (k : ℕ)
      → All P ps
      → All P (rank_by_similarity F emb ps floor k)
  unfolding rank_by_similarity
  All-rank_by_similarity P emb ps floor k h =
      let sorted = sort_stable (closer F) (candidates F emb floor ps) in
      let kept =
        All-sort_stable (closer F) (λ c. P c.0) (candidates F emb floor ps)
          (All-candidates P emb floor ps h) in
      elim (Bool-cases (ltb 0 k && ltb k (length sorted))) [
        | inl e ↦ rw e (All-map_fst P (take k sorted) (All-take (λ c. P c.0) k sorted kept))
        | inr e ↦ rw e (All-map_fst P sorted kept)
      ]

  prior-remember :
      (speaker other : String) (s : PriorStatement F) (m : SpeakerMemory F)
      → prior F other (remember F speaker s m)
        ≡ (if speaker =? other then prior F speaker m ++ s ∷ [] else prior F other m)
  unfolding remember prior
  prior-remember speaker other s m =
      ap (λ (o : Option (List (PriorStatement F))). elim o [ none ↦ [] | some stored ↦ stored ])
        (lookup-insert speaker other (prior F speaker m ++ s ∷ []) m.by_speaker)
      ∙ (elim (Bool-cases (speaker =? other)) [ inl e ↦ rw e refl | inr e ↦ rw e refl ])

  -- A memory all of whose statements have a property that depends on the speaker.
  abbrev pub AllPrior : (String → PriorStatement F → Type 0) → SpeakerMemory F → Type 0
  AllPrior P m = (speaker : String) → All (P speaker) (prior F speaker m)

  pub AllPrior-remember :
      (P : String → PriorStatement F → Type 0) (speaker : String) (s : PriorStatement F)
      (m : SpeakerMemory F)
      → P speaker s
      → AllPrior P m
      → AllPrior P (remember F speaker s m)
  AllPrior-remember P speaker s m new old other = elim (Bool-cases (speaker =? other)) [
    | inl e ↦
        let same = (eq_iff speaker other).0 e in
        rw (prior-remember speaker other s m, e)
          (All-append (P other) (prior F speaker m) (s ∷ []) (rw (← same) (old speaker))
            (rw (← same) (new, tt)))
    | inr e ↦ rw (prior-remember speaker other s m, e) (old other)
  ]
