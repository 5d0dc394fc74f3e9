-- ===== src/Service/Router/Described.antt =====
-- What `Retrieve` of stack/backend/internal/service/route.go is to answer.
use truth_in_stream.Prelude.{
  ℕ, ◌≤◌, String, Bool, true, false, ◌&&◌, List, [], ◌∷◌, ◌++◌, get_or, any, length, Option, none,
  some, Option-cases, lookup, ltb, leb, ◌==◌, ◌=?◌, if◌then◌else◌, arith, ◌≡◌, refl, sym, ap,
  Bool-cases, inl, inr,
}
use truth_in_stream.Service.Router.{
  ClaimType, statistic, voting_record, attribution, causal, comparative, kind_stats,
  kind_web_search, kind_voting_record, kind_attribution, Evidence, Query, Retriever, Router,
  preferred_kinds, index_by_kind, new_router,
}
use truth_in_stream.Service.Router.Firsts.{firsts}

-- The passages that the sources gave, and whether a source failed.
abbrev pub given : List (Option (List Evidence)) → List Evidence
given [] = []
given (none ∷ answers) = given answers
given (some es ∷ answers) = es ++ given answers

abbrev pub is_failure : Option (List Evidence) → Bool
is_failure none = true
is_failure (some es) = false

-- What the answers of the sources come to: the first passage of every id, or an error when there is
-- none and a source failed.
abbrev pub merged : List (Option (List Evidence)) → Option (List Evidence)
merged answers =
    let got = firsts (given answers) in
    if length got == 0 && any is_failure answers then none else some got

-- The kind of the source of its own that a type of claims has.
abbrev pub own_kind : ClaimType → Option String
own_kind ct =
    if statistic =? ct
    then some kind_stats
    else if voting_record =? ct
    then some kind_voting_record
    else if attribution =? ct
    then some kind_attribution
    else none

unfoldable pub IsOther : Option String → Type 0
IsOther none = Unit
IsOther (some k) = (k =? kind_web_search) ≡ false

pub own_kind-IsOther : (ct : ClaimType) → IsOther (own_kind ct)
unfolding IsOther
own_kind-IsOther ct = elim (Bool-cases (statistic =? ct)) [
  | inl e ↦ rw e refl
  | inr e ↦ elim (Bool-cases (voting_record =? ct)) [
    | inl v ↦ rw (e, v) refl
    | inr v ↦ elim (Bool-cases (attribution =? ct)) [
      | inl a ↦ rw (e, v, a) refl
      | inr a ↦ rw (e, v, a) tt
    ]
  ]
]

-- There is one preferred kind: the own one, or the web.
pub preferred_kinds_lem :
    (ct : ClaimType) → preferred_kinds ct ≡ get_or (own_kind ct) kind_web_search ∷ []
unfolding preferred_kinds lookup
preferred_kinds_lem ct = elim (Bool-cases (statistic =? ct)) [
  | inl e ↦ rw e refl
  | inr e ↦ elim (Bool-cases (voting_record =? ct)) [
    | inl v ↦ rw (e, v) refl
    | inr v ↦ elim (Bool-cases (attribution =? ct)) [
      | inl a ↦ rw (e, v, a) refl
      | inr a ↦ elim (Bool-cases (causal =? ct)) [
        | inl c ↦ rw (e, v, a, c) refl
        | inr c ↦ elim (Bool-cases (comparative =? ct)) [
          | inl m ↦ rw (e, v, a, c, m) refl
          | inr m ↦ rw (e, v, a, c, m) refl
        ]
      ]
    ]
  ]
]

module _ {World : Type 0} where
  abbrev pub source_of : Option String → Router World → Option (Retriever World)
  source_of none r = none
  source_of (some k) r = lookup k r.retrievers

  -- The web, after the sources that answered.
  abbrev pub ask_web :
      List (Option (List Evidence)) → Router World → Query → World → Option (List Evidence) × World
  ask_web answers r q w = let b = r.web.retrieve q w in (merged (answers ++ b.0 ∷ []), b.1)

  -- The own source is asked, and then the web unless the own source gave enough.
  abbrev pub ask_sources :
      Option (Retriever World) → Router World → Query → World → Option (List Evidence) × World
  ask_sources none r q w = ask_web [] r q w
  ask_sources (some own) r q w =
      let a = own.retrieve q w in
      if leb r.min_results (length (firsts (given (a.0 ∷ []))))
      then (merged (a.0 ∷ []), a.1)
      else ask_web (a.0 ∷ []) r q a.1

  -- What `NewRouter` provides.
  pub record IsBuilt (r : Router World) : Type 0 where
    pub enough : 1 ≤ r.min_results
    pub web : lookup kind_web_search r.retrievers ≡ some r.web

  pub new_router-IsBuilt :
      (retrievers : List (Option (Retriever World))) (min_results : ℕ) (lang : String)
      (r : Router World)
      → new_router retrievers min_results lang ≡ some r
      → IsBuilt r
  unfolding new_router
  new_router-IsBuilt retrievers min_results lang r h = elim (Bool-cases (ltb min_results 1)) [
    | inl e ↦ absurd (grind (arith, rw e at h))
    | inr e ↦
        let h1 = rw e at h in
        elim (Option-cases (index_by_kind retrievers [])) [
          | inl n ↦ absurd (grind (arith, rw n at h1))
          | inr (by_kind, n) ↦
              let h2 = rw n at h1 in
              elim (Option-cases (lookup kind_web_search by_kind)) [
                | inl m ↦ absurd (grind (arith, rw m at h2))
                | inr (web, m) ↦
                    let same : Path (Router World)
                        (record {
                          retrievers = by_kind;
                          web = web;
                          min_results = min_results;
                          lang = lang;
                        })
                        r =
                      ap (λ o. get_or o r) (rw m at h2) in
                    let positive : 1 ≤ min_results = ground (arith, e) in
                    rw (sym same) (record { enough = positive; web = m })
              ]
        ]
  ]
