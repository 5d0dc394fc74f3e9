-- ===== src/Service/Memory/Ranking.antt =====
-- `rankBySimilarity` of stack/backend/internal/service/consistency.go against its specification.
use truth_in_stream.Prelude.{
  ℕ, zero, suc, ◌≤◌, ◌<◌, Bool, true, false, List, [], ◌∷◌, ◌++◌, map, if◌then◌else◌, keep, length,
  take, drop, ltb, ◌&&◌, take-append-drop, length-take-le, length-take_all, append-nil, arith, ◌≡◌,
  refl, ◌∙◌, ap, Bool-cases, inl, inr, ◌⊎◌, All-keep,
}
use mathlib.Core.List.{Perm}
use truth_in_stream.Prelude.Floats.{Floats}
use truth_in_stream.Prelude.Floats.Order.{not_nan_of_le, lt_asym, not_lt_trans}
use truth_in_stream.Prelude.Sorting.{
  sort_stable, IsSorted, sort_stable-perm, sort_stable-IsSorted, map-sort_stable,
}
use truth_in_stream.Service.Memory.{
  PriorStatement, cosine_similarity, candidates, closer, rank_by_similarity,
}

take-map : {A B : Type 0} (f : A → B) (n : ℕ) (xs : List A) → take n (map f xs) ≡ map f (take n xs)
take-map f zero xs = refl
take-map f (suc n) [] = refl
take-map f (suc n) (x ∷ xs) = λ i. f x ∷ take-map f n xs i

map_fst :
    {A B : Type 0} (f : A → A × B)
    → ((a : A) → (f a).0 ≡ a)
    → (xs : List A) → map (λ c. c.0) (map f xs) ≡ xs
map_fst f h [] = refl
map_fst f h (x ∷ xs) = λ i. h x i ∷ map_fst f h xs i

length-map : {A B : Type 0} (f : A → B) (xs : List A) → length (map f xs) ≡ length xs
length-map f [] = refl
length-map f (x ∷ xs) = ap suc (length-map f xs)

-- The cap of the ranking, which 0 switches off.
abbrev capped : {A : Type 0} → ℕ → List A → List A
capped k xs = if ltb 0 k && ltb k (length xs) then take k xs else xs

capped-map :
    {A B : Type 0} (f : A → A × B) (h : (a : A) → (f a).0 ≡ a) (k : ℕ) (xs : List A)
    → map (λ c. c.0) (capped k (map f xs)) ≡ capped k xs
capped-map f h k xs = elim (Bool-cases (ltb 0 k && ltb k (length xs))) [
  | inl e ↦ rw (length-map f xs, e, take-map f k xs) (map_fst f h (take k xs))
  | inr e ↦ rw (length-map f xs, e) (map_fst f h xs)
]

-- What the cap leaves out.
abbrev left_out : {A : Type 0} → ℕ → List A → List A
left_out k xs = if ltb 0 k && ltb k (length xs) then drop k xs else []

capped-left_out : {A : Type 0} (k : ℕ) (xs : List A) → capped k xs ++ left_out k xs ≡ xs
capped-left_out k xs = elim (Bool-cases (ltb 0 k && ltb k (length xs))) [
  | inl e ↦ rw e (take-append-drop k xs)
  | inr e ↦ rw e (append-nil xs)
]

length-capped : {A : Type 0} (k : ℕ) (xs : List A) → 0 < k → length (capped k xs) ≤ k
length-capped k xs h = ground (arith, length-take-le k xs)

left_out-nil :
    {A : Type 0} (k : ℕ) (xs : List A) → (k ≡ 0) ⊎ (length (capped k xs) < k) → left_out k xs ≡ []
left_out-nil k xs h = ground (arith, length-take_all k xs)

module _ (F : Floats) (emb : List F.Float) where
  open F use {Float, is_nan, lt, le}

  abbrev pub similarity : PriorStatement F → Float
  similarity p = cosine_similarity F emb p.embedding

  abbrev pub nearer : PriorStatement F → PriorStatement F → Bool
  nearer a b = lt (similarity b) (similarity a)

  abbrev pub above : Float → PriorStatement F → Bool
  above floor p = le floor (similarity p)

  candidates-map :
      (floor : Float) (ps : List (PriorStatement F))
      → candidates F emb floor ps ≡ map (λ p. (p, similarity p)) (keep (above floor) ps)
  unfolding candidates
  candidates-map floor [] = refl
  candidates-map floor (p ∷ ps) = elim (Bool-cases (above floor p)) [
    | inl h ↦ rw (h, candidates-map floor ps)
    | inr h ↦ rw (h, candidates-map floor ps)
  ]

  number :
      (floor : Float) (p : PriorStatement F) → above floor p ≡ true → is_nan (similarity p) ≡ false
  number floor p h = (not_nan_of_le F floor (similarity p) h).1

  ranked-IsSorted :
      (floor : Float) (ps : List (PriorStatement F))
      → IsSorted nearer (sort_stable nearer (keep (above floor) ps))
  ranked-IsSorted floor ps =
      sort_stable-IsSorted nearer (λ p. above floor p ≡ true)
        (λ x y hx hy h. lt_asym F _ _ (number floor x hx) (number floor y hy) h)
        (λ x y z hx hy hz h k.
          not_lt_trans F (similarity x) (similarity y) (similarity z) (number floor x hx)
            (number floor y hy) (number floor z hz) h k)
        _ (All-keep (above floor) ps)

  rank-capped :
      (floor : Float) (k : ℕ) (ps : List (PriorStatement F))
      → rank_by_similarity F emb ps floor k ≡ capped k (sort_stable nearer (keep (above floor) ps))
  unfolding rank_by_similarity
  rank-capped floor k ps =
      ap (λ c. map (λ x. x.0) (capped k (sort_stable (closer F) c))) (candidates-map floor ps)
      ∙ ap (λ c. map (λ x. x.0) (capped k c))
          (map-sort_stable nearer (closer F) (λ p. (p, similarity p)) (λ x y. refl)
            (keep (above floor) ps))
      ∙ capped-map (λ p. (p, similarity p)) (λ p. refl) k
          (sort_stable nearer (keep (above floor) ps))

  -- The ranking and what it leaves out are together the earlier statements at or above the floor,
  -- most similar first: so the ranking has the most similar ones, in order. It has at most `k`
  -- statements if `k` is positive, and leaves out none if `k` is 0 or it has fewer than `k`.
  pub rank_by_similarity_top :
      (floor : Float) (k : ℕ) (ps : List (PriorStatement F))
      → let ranked = rank_by_similarity F emb ps floor k in
        (rest : List (PriorStatement F)) × Perm (ranked ++ rest) (keep (above floor) ps)
        × IsSorted nearer (ranked ++ rest)
        × (0 < k → length ranked ≤ k)
        × ((k ≡ 0) ⊎ (length ranked < k) → rest ≡ [])
  rank_by_similarity_top floor k ps =
      let sorted = sort_stable nearer (keep (above floor) ps) in
      rw (rank-capped floor k ps) (
        left_out k sorted,
        rw (capped-left_out k sorted) (sort_stable-perm nearer (keep (above floor) ps)),
        rw (capped-left_out k sorted) (ranked-IsSorted floor ps),
        length-capped k sorted,
        left_out-nil k sorted,
      )
