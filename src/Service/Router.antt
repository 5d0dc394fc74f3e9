-- ===== src/Service/Router.antt =====
-- The evidence router of stack/backend/internal/service/route.go, with the claim types of
-- claimtype/claimtype.go and the evidence of source/source.go. Retrievers are calls on a state of
-- the outside world, `none` where they fail. A set of ids is the list of their texts.
pub mod Firsts
pub mod Described
pub mod Taken
pub mod Answers
use truth_in_stream.Prelude.{
  ℕ, zero, suc, String, Bool, true, false, not, ◌&&◌, ◌||◌, List, [], ◌∷◌, ◌++◌, any, length,
  Option, none, some, get_or, Dict, lookup, insert, Runes, is_blank, ltb, leb, ◌==◌, ◌=?◌,
  if◌then◌else◌,
}
use truth_in_stream.EvidenceIds.{EvidenceId, id_string}

-- `claimtype.Type`
abbrev pub ClaimType : Type 0
ClaimType = String

abbrev pub statistic : ClaimType
statistic = "statistic"

abbrev pub voting_record : ClaimType
voting_record = "voting-record"

abbrev pub attribution : ClaimType
attribution = "attribution"

abbrev pub causal : ClaimType
causal = "causal"

abbrev pub comparative : ClaimType
comparative = "comparative"

abbrev pub promise : ClaimType
promise = "promise"

abbrev pub opinion : ClaimType
opinion = "opinion"

-- `Type.Verifiable`
abbrev pub is_verifiable : ClaimType → Bool
is_verifiable t = not (t =? promise) && not (t =? opinion)

-- `source.Kind`
abbrev pub kind_stats : String
kind_stats = "stats"

abbrev pub kind_web_search : String
kind_web_search = "websearch"

abbrev pub kind_voting_record : String
kind_voting_record = "voting"

abbrev pub kind_attribution : String
kind_attribution = "attribution"

-- `source.Source`
pub record Source : Type 0 where
  pub name : String
  pub url : String
  pub date : String

-- `source.Evidence`
pub record Evidence : Type 0 where
  pub id : EvidenceId
  pub passage : Runes
  pub source : Source

-- `source.Query`
pub record Query : Type 0 where
  pub text : Runes
  pub lang : String
  pub hints : Dict String

module _ (World : Type 0) where
  pub record Retriever : Type 0 where
    pub kind : String
    pub retrieve : Query → World → Option (List Evidence) × World

  pub record Router : Type 0 where
    pub retrievers : Dict Retriever
    pub web : Retriever
    pub min_results : ℕ
    pub lang : String

  -- The variables of `Retrieve`: `out` with `seen`, whether `lastErr` is set, `webRan`.
  pub record Progress : Type 0 where
    pub found : List Evidence × List Runes
    pub failed : Bool
    pub web_ran : Bool
    pub world : World

-- `defaultRoutes`
abbrev pub default_routes : Dict (List String)
default_routes =
    (statistic, kind_stats ∷ [])
    ∷ (voting_record, kind_voting_record ∷ [])
    ∷ (attribution, kind_attribution ∷ [])
    ∷ (causal, kind_web_search ∷ [])
    ∷ (comparative, kind_web_search ∷ [])
    ∷ []

unfoldable pub preferred_kinds : ClaimType → List String
unfolding lookup
preferred_kinds ct = get_or (lookup ct default_routes) (kind_web_search ∷ [])

abbrev pub same_runes : Runes → Runes → Bool
same_runes [] [] = true
same_runes [] (d ∷ t) = false
same_runes (c ∷ s) [] = false
same_runes (c ∷ s) (d ∷ t) = c == d && same_runes s t

abbrev pub no_kind : Evidence → Bool
no_kind e = same_runes e.id.kind []

abbrev pub is_among : List Runes → Evidence → Bool
is_among seen e = any (same_runes (id_string e.id)) seen

-- One round of `appendUnique`: the evidence and the ids seen.
unfoldable pub append_new : Evidence → List Evidence × List Runes → List Evidence × List Runes
append_new e (out, seen) =
    if no_kind e || is_among seen e then (out, seen) else (out ++ e ∷ [], id_string e.id ∷ seen)

-- `appendUnique`
unfoldable pub append_unique :
    List Evidence × List Runes → List Evidence → List Evidence × List Runes
unfolding append_new
append_unique found [] = found
append_unique found (e ∷ evidence) = append_unique (append_new e found) evidence

module _ {World : Type 0} where
  -- The loop of `NewRouter`: none for a nil retriever and for the second one of a kind.
  unfoldable pub index_by_kind :
      List (Option (Retriever World)) → Dict (Retriever World) → Option (Dict (Retriever World))
  unfolding lookup insert
  index_by_kind [] by_kind = some by_kind
  index_by_kind (none ∷ retrievers) by_kind = none
  index_by_kind (some r ∷ retrievers) by_kind =
      let rest = index_by_kind retrievers (insert r.kind r by_kind) in
      elim (lookup r.kind by_kind) [ some other ↦ none | none ↦ rest ]

  -- `NewRouter`, with the fields of `RouterConfig`; none for an error.
  unfoldable pub new_router : List (Option (Retriever World)) → ℕ → String → Option (Router World)
  unfolding index_by_kind lookup
  new_router retrievers min_results lang =
      if ltb min_results 1 then none else elim (index_by_kind retrievers []) [
        | none ↦ none
        | some by_kind ↦ elim (lookup kind_web_search by_kind) [
          | none ↦ none
          | some web ↦
              some
                (record { retrievers = by_kind; web = web; min_results = min_results; lang = lang })
        ]
      ]

  -- The answer of a source.
  unfoldable pub take_answer : Option (List Evidence) × World → Progress World → Progress World
  unfolding append_unique
  take_answer (none, w) p = record p { failed = true; world = w }
  take_answer (some evidence, w) p = record p { found = append_unique p.found evidence; world = w }

  -- The loop over the preferred kinds.
  unfoldable pub ask_preferred :
      Router World → Query → List String → Progress World → Progress World
  unfolding lookup take_answer
  ask_preferred r q [] p = p
  ask_preferred r q (kind ∷ kinds) p = elim (lookup kind r.retrievers) [
    | none ↦ ask_preferred r q kinds p
    | some retriever ↦
        let ran : Progress World = record p { web_ran = p.web_ran || kind =? kind_web_search } in
        ask_preferred r q kinds (take_answer (retriever.retrieve q ran.world) ran)
  ]

  -- The end of `Retrieve`: none when nothing was found and a source failed.
  unfoldable pub conclude : Progress World → Option (List Evidence) × World
  conclude p = (if length p.found.0 == 0 && p.failed then none else some p.found.0, p.world)

  unfoldable pub broaden : Router World → Query → Progress World → Option (List Evidence) × World
  unfolding take_answer conclude
  broaden r q p =
      if leb r.min_results (length p.found.0)
      then (some p.found.0, p.world)
      else if p.web_ran
      then conclude p
      else conclude (take_answer (r.web.retrieve q p.world) p)

  -- `Router.Retrieve`
  unfoldable pub retrieve :
      Router World → Runes → ClaimType → Dict String → World → Option (List Evidence) × World
  unfolding preferred_kinds ask_preferred broaden
  retrieve r claim ct hints w =
      if is_blank claim || not (is_verifiable ct)
      then (some [], w)
      else (let q : Query = record { text = claim; lang = r.lang; hints = hints } in
          let start : Progress World = record {
            found = ([], []);
            failed = false;
            web_ran = false;
            world = w;
          } in
          broaden r q (ask_preferred r q (preferred_kinds ct) start))
