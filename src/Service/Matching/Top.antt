-- ===== src/Service/Matching/Top.antt =====
-- The matches of `MatchSegment`, stack/backend/internal/service/match.go, against what is asked of
-- them.
use truth_in_stream.Prelude.{
  ◌≤◌, ◌<◌, Bool, true, false, List, [], ◌∷◌, ◌++◌, map, keep, length, take, drop, take-append-drop,
  length-take-le, length-take_all, append-nil, All, All-append, some, Runes, is_blank, ltb,
  if◌then◌else◌, arith, ◌≡◌, refl, sym, ap, Bool-cases, inl, inr,
}
use mathlib.Core.List.{Perm}
use truth_in_stream.Prelude.Floats.{Floats}
use truth_in_stream.Prelude.Floats.Order.{lt_asym, not_lt_trans}
use truth_in_stream.Prelude.Sorting.{sort_stable, IsSorted, sort_stable-perm, sort_stable-IsSorted}
use truth_in_stream.Service.Matching.{
  ClaimHit, EvidenceHit, Match, MatcherConfig, Lookups, matched, score_of, claim_match,
  claim_matches, evidence_match, evidence_matches, evidence_hits, embed_segment, higher,
  best_matches, match_segment,
}

module _ (F : Floats) where
  open F use {Float, is_nan, lt, le, lt_not_le, le_refl, le_trans}

  -- The hits of a search: their scores are numbers, and none is above one that stands before it.
  abbrev pub IsNearestFirst : {A : Type 0} → (A → Float) → List A → Type 0
  IsNearestFirst score hits =
      All (λ h. is_nan (score h) ≡ false) hits × IsSorted (λ a b. lt (score b) (score a)) hits

  abbrev pub above : {A : Type 0} → (A → Float) → Float → A → Bool
  above score floor h = le floor (score h)

  above_floor :
      (x floor : Float)
      → is_nan x ≡ false
      → is_nan floor ≡ false
      → lt x floor ≡ false
      → le floor x ≡ true
  above_floor x floor nx nf h = ground (arith, lt_not_le x floor, nx, nf, h)

  below_floor :
      (x z floor : Float)
      → is_nan x ≡ false
      → is_nan z ≡ false
      → is_nan floor ≡ false
      → lt x floor ≡ true
      → lt x z ≡ false
      → le floor z ≡ false
  below_floor x z floor nx nz nf low after =
      ground (arith, lt_not_le x floor, lt_not_le x z, le_trans floor z x, nx, nz, nf, low, after)

  irreflexive : (x : Float) → is_nan x ≡ false → lt x x ≡ false
  irreflexive x nx = ground (arith, lt_not_le x x, le_refl x, nx)

  -- Behind a hit below the floor there is none above it.
  none_above :
      {A : Type 0} (score : A → Float) (floor x : Float) (hits : List A)
      → is_nan x ≡ false
      → is_nan floor ≡ false
      → lt x floor ≡ true
      → All (λ h. is_nan (score h) ≡ false) hits
      → All (λ h. lt x (score h) ≡ false) hits
      → keep (above score floor) hits ≡ []
  none_above score floor x [] nx nf low numbers after = refl
  none_above score floor x (h ∷ hits) nx nf low numbers after =
      rw (below_floor x (score h) floor nx numbers.0 nf low after.0)
        (none_above score floor x hits nx nf low numbers.1 after.1)

  abbrev pub claim_score : ClaimHit F → Float
  claim_score h = score_of F h.distance

  abbrev pub passage_score : EvidenceHit F → Float
  passage_score h = score_of F h.distance

  claim_matches-keep :
      (floor : Float) (hits : List (ClaimHit F))
      → is_nan floor ≡ false
      → IsNearestFirst claim_score hits
      → claim_matches F floor hits ≡ map (claim_match F) (keep (above claim_score floor) hits)
  unfolding claim_matches
  claim_matches-keep floor [] nf near = refl
  claim_matches-keep floor (h ∷ hits) nf (numbers, sorted) =
      let x = claim_score h in
      elim (Bool-cases (lt x floor)) [
        | inl low ↦
            rw (low, below_floor x x floor numbers.0 numbers.0 nf low (irreflexive x numbers.0))
              (sym (
                ap (map (claim_match F))
                  (none_above claim_score floor x hits numbers.0 nf low numbers.1 sorted.0)))
        | inr high ↦
            rw (high, above_floor x floor numbers.0 nf high)
              (ap (λ l. claim_match F h ∷ l)
                (claim_matches-keep floor hits nf (numbers.1, sorted.1)))
      ]

  evidence_matches-keep :
      (floor : Float) (hits : List (EvidenceHit F))
      → is_nan floor ≡ false
      → IsNearestFirst passage_score hits
      → evidence_matches F floor hits
        ≡ map (evidence_match F) (keep (above passage_score floor) hits)
  unfolding evidence_matches
  evidence_matches-keep floor [] nf near = refl
  evidence_matches-keep floor (h ∷ hits) nf (numbers, sorted) =
      let x = passage_score h in
      elim (Bool-cases (lt x floor)) [
        | inl low ↦
            rw (low, below_floor x x floor numbers.0 numbers.0 nf low (irreflexive x numbers.0))
              (sym (
                ap (map (evidence_match F))
                  (none_above passage_score floor x hits numbers.0 nf low numbers.1 sorted.0)))
        | inr high ↦
            rw (high, above_floor x floor numbers.0 nf high)
              (ap (λ l. evidence_match F h ∷ l)
                (evidence_matches-keep floor hits nf (numbers.1, sorted.1)))
      ]

  -- Every hit of both searches at or above its floor, claims first.
  abbrev pub found : MatcherConfig F → List (ClaimHit F) → List (EvidenceHit F) → List (Match F)
  found cfg claims passages =
      map (claim_match F) (keep (above claim_score cfg.score_threshold) claims)
      ++ map (evidence_match F) (keep (above passage_score cfg.evidence_threshold) passages)

  abbrev IsNumber : Match F → Type 0
  IsNumber m = is_nan m.score ≡ false

  claims-IsNumber :
      (p : ClaimHit F → Bool) (hits : List (ClaimHit F))
      → All (λ h. is_nan (claim_score h) ≡ false) hits
      → All IsNumber (map (claim_match F) (keep p hits))
  claims-IsNumber p [] h = tt
  claims-IsNumber p (x ∷ hits) h = elim (Bool-cases (p x)) [
    | inl e ↦ rw e (h.0, claims-IsNumber p hits h.1)
    | inr e ↦ rw e (claims-IsNumber p hits h.1)
  ]

  passages-IsNumber :
      (p : EvidenceHit F → Bool) (hits : List (EvidenceHit F))
      → All (λ h. is_nan (passage_score h) ≡ false) hits
      → All IsNumber (map (evidence_match F) (keep p hits))
  passages-IsNumber p [] h = tt
  passages-IsNumber p (x ∷ hits) h = elim (Bool-cases (p x)) [
    | inl e ↦ rw e (h.0, passages-IsNumber p hits h.1)
    | inr e ↦ rw e (passages-IsNumber p hits h.1)
  ]

  higher-IsSorted :
      (ms : List (Match F)) → All IsNumber ms → IsSorted (higher F) (sort_stable (higher F) ms)
  higher-IsSorted ms numbers =
      sort_stable-IsSorted (higher F) IsNumber (λ x y hx hy h. lt_asym F x.score y.score hx hy h)
        (λ x y z hx hy hz h k. not_lt_trans F x.score y.score z.score hx hy hz h k) ms numbers

  -- The first ones of a list, up to the limit.
  abbrev pub IsTop : MatcherConfig F → List (Match F) → List (Match F) → Type 0
  IsTop cfg all ms =
      (rest : List (Match F)) × Perm (ms ++ rest) all
      × IsSorted (higher F) (ms ++ rest)
      × (length ms ≤ cfg.max_results)
      × (length ms < cfg.max_results → rest ≡ [])

  capped-IsTop :
      (cfg : MatcherConfig F) (all sorted : List (Match F))
      → Perm sorted all
      → IsSorted (higher F) sorted
      → IsTop cfg all
          (if ltb cfg.max_results (length sorted) then take cfg.max_results sorted else sorted)
  capped-IsTop cfg all sorted perm order = elim (Bool-cases (ltb cfg.max_results (length sorted))) [
    | inr e ↦ rw e (
      [],
      rw (append-nil sorted) perm,
      rw (append-nil sorted) order,
      ground (arith, e),
      λ h. refl,
    )
    | inl e ↦ rw e (
      drop cfg.max_results sorted,
      rw (take-append-drop cfg.max_results sorted) perm,
      rw (take-append-drop cfg.max_results sorted) order,
      length-take-le cfg.max_results sorted,
      λ h.
          let n = cfg.max_results in
          let short : length (take n sorted) < n = h in
          let long : n ≤ length sorted = ground (arith, e) in
          absurd (omega (arith, short, length-take_all n sorted long)),
    )
  ]

  -- Where both floors are numbers, and both searches answer nearest first with distances that are
  -- numbers: the matches of a segment that is not blank are, out of all hits at or above their floor,
  -- the ones with the highest scores, in order: at most `max_results`, and fewer only if there are no
  -- more. No hit above its floor is lost behind one below it.
  pub match_segment-IsTop :
      (calls : Lookups F) (cfg : MatcherConfig F) (segment : Runes) (query : List Float)
      (claims : List (ClaimHit F)) (passages : List (EvidenceHit F))
      → is_blank segment ≡ false
      → embed_segment F calls segment ≡ some query
      → calls.search query cfg.top_k ≡ some claims
      → evidence_hits F calls cfg query ≡ some passages
      → is_nan cfg.score_threshold ≡ false
      → is_nan cfg.evidence_threshold ≡ false
      → IsNearestFirst claim_score claims
      → IsNearestFirst passage_score passages
      → (ms : List (Match F)) × (match_segment F calls cfg segment ≡ matched ms query)
        × IsTop cfg (found cfg claims passages) ms
  unfolding match_segment best_matches
  match_segment-IsTop calls cfg segment query claims passages filled embedded searched more nc ne
        near_c near_p =
      let all = found cfg claims passages in
      let numbers =
        All-append IsNumber _ _
          (claims-IsNumber (above claim_score cfg.score_threshold) claims near_c.0)
          (passages-IsNumber (above passage_score cfg.evidence_threshold) passages near_p.0) in
      let same : claim_matches F cfg.score_threshold claims
            ++ evidence_matches F cfg.evidence_threshold passages
          ≡ all =
        λ i.
          claim_matches-keep cfg.score_threshold claims nc near_c i
          ++ evidence_matches-keep cfg.evidence_threshold passages ne near_p i in
      (
        best_matches F cfg claims passages,
        rw (filled, embedded, searched, more) refl,
        rw same (
            capped-IsTop cfg all (sort_stable (higher F) all) (sort_stable-perm (higher F) all)
              (higher-IsSorted all numbers)),
      )
