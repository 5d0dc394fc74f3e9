-- ===== src/Examples/Routes.antt =====
-- The evidence router at concrete inputs: the world is the list of the kinds that were asked.
use truth_in_stream.Prelude.{
  ℕ, String, not, ◌||◌, List, [], ◌∷◌, Option, none, some, codes, is_blank, if◌then◌else◌, ◌≡◌,
  refl, pos,
}
use truth_in_stream.EvidenceIds.{new_evidence_id, id_string}
use truth_in_stream.Service.Router.{
  statistic, promise, causal, is_verifiable, Evidence, Retriever, Router, kind_stats,
  kind_web_search, new_router, retrieve,
}
use truth_in_stream.Service.Router.Described.{
  own_kind, source_of, ask_sources, IsBuilt, new_router-IsBuilt,
}
use truth_in_stream.Service.Router.Answers.{retrieve_answers}

abbrev World : Type 0
World = List String

abbrev passage : String → ℕ → Evidence
passage kind i = record {
  id = new_evidence_id (codes kind) (codes "a:b") (pos i);
  passage = codes "text";
  source = record { name = ""; url = ""; date = "" };
}

abbrev answering : String → Option (List Evidence) → Retriever World
answering kind answer = record { kind = kind; retrieve = λ q w. (answer, kind ∷ w) }

abbrev stats : Retriever World
stats = answering kind_stats (some (passage "insee" 0 ∷ passage "insee" 0 ∷ []))

abbrev web : Retriever World
web =
    answering kind_web_search (some (passage "insee" 0 ∷ passage "websearch" 1 ∷ passage "" 2 ∷ []))

abbrev offline : Retriever World
offline = answering kind_web_search none

abbrev router : Router World
router = record {
  retrievers = (kind_web_search, web) ∷ (kind_stats, stats) ∷ [];
  web = web;
  min_results = 2;
  lang = "fr";
}

builds : new_router (some stats ∷ some web ∷ []) 2 "fr" ≡ some router
unfolding new_router
builds = refl

builds_no_twin : new_router (some web ∷ some stats ∷ some offline ∷ []) 2 "fr" ≡ none
unfolding new_router
builds_no_twin = refl

router-IsBuilt : IsBuilt router
router-IsBuilt = new_router-IsBuilt (some stats ∷ some web ∷ []) 2 "fr" router builds

-- Two passages with one id are one, so the web is asked too.
broadens :
    retrieve router (codes "claim") statistic [] []
    ≡ (some (passage "insee" 0 ∷ passage "websearch" 1 ∷ []), kind_web_search ∷ kind_stats ∷ [])
unfolding retrieve new_evidence_id id_string
broadens = refl

fails :
    (retrieve
      (record router { retrievers = (kind_web_search, offline) ∷ []; web = offline })
      (codes "claim")
      causal
      []
      [])
    ≡ (none, kind_web_search ∷ [])
unfolding retrieve
fails = refl

holds_promises : retrieve router (codes "claim") promise [] [] ≡ (some [], [])
unfolding retrieve
holds_promises = refl

retrieve_answers_example : retrieve router (codes "claim") statistic [] [] ≡ (
    if is_blank (codes "claim") || not (is_verifiable statistic)
    then (some [], [])
    else ask_sources
        (source_of (own_kind statistic) router)
        router
        (record { text = codes "claim"; lang = router.lang; hints = [] })
        [])
retrieve_answers_example = retrieve_answers router (codes "claim") statistic [] [] router-IsBuilt
