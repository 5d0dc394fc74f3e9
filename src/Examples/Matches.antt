-- ===== src/Examples/Matches.antt =====
-- The matcher at concrete hits, with tenths for scores.
use truth_in_stream.Prelude.{
  ℕ, zero, suc, true, String, List, [], ◌∷◌, map, Option, none, some, codes, spelled, ◌≡◌, refl,
}
use truth_in_stream.Corpus.{embedding_dim}
use truth_in_stream.Service.Matching.{
  ClaimHit, EvidenceHit, Match, MatcherConfig, Lookups, matched, empty_segment, compose_evidence_id,
  embed_segment, evidence_hits, best_matches, match_segment,
}
use truth_in_stream.Service.Verdicts.{claim}
use truth_in_stream.Service.Gate.{MatchResult, match_result, match_text}
use truth_in_stream.Service.Matching.Top.{found, IsTop, match_segment-IsTop}
use truth_in_stream.Examples.Numbers.{tenths}

evidence_id : compose_evidence_id claim (codes "c1") 12 ≡ codes "claim:c1:12"
unfolding compose_evidence_id
evidence_id = refl

abbrev zeros : ℕ → List (Option ℕ)
zeros zero = []
zeros (suc n) = some 0 ∷ zeros n

abbrev query : List (Option ℕ)
query = zeros embedding_dim

abbrev claim_at : String → ℕ → ClaimHit tenths
claim_at id distance = record {
  id = codes id;
  text = codes "Water is wet.";
  verdict = "corroborates";
  sources = [];
  distance = some distance;
}

abbrev passage_at : ℕ → ℕ → EvidenceHit tenths
passage_at i distance = record {
  source = codes "wiki";
  external_id = codes "7";
  chunk_index = i;
  title = codes "Water";
  url = codes "u";
  content = codes "Water wets.";
  kind = "lead";
  distance = some distance;
}

abbrev claims : List (ClaimHit tenths)
claims = claim_at "near" 1 ∷ claim_at "tied" 3 ∷ claim_at "far" 6 ∷ []

abbrev passages : List (EvidenceHit tenths)
passages = passage_at 0 2 ∷ passage_at 1 3 ∷ passage_at 2 9 ∷ []

abbrev cfg : MatcherConfig tenths
cfg = record {
  top_k = 5;
  score_threshold = some 5;
  evidence_top_k = 5;
  evidence_threshold = some 4;
  max_results = 3;
  embed_concurrency = 2;
  timeout = 1000;
  confidence_cluster_size = 3;
  confidence_lead_weight = some 10;
  confidence_body_weight = some 5;
}

abbrev calls : Lookups tenths
calls = record {
  slot = true;
  embed_queries = λ texts. some (query ∷ []);
  search = λ v k. some claims;
  search_evidence = λ v k. some passages;
}

-- The claim wins the tie with the second passage.
best :
    map (λ (m : Match tenths). m.evidence_id) (best_matches tenths cfg claims passages)
    ≡ codes "claim:near:0" ∷ codes "evidence:wiki/7:0" ∷ codes "claim:tied:0" ∷ []
unfolding best_matches compose_evidence_id
best = refl

abbrev shown : Option (MatchResult tenths) → List (String × String × Option ℕ)
shown none = []
shown (some r) = map (λ m. (m.evidence_id, m.verdict, m.contribution)) r.matches

-- What the live path is given of them.
adapted :
    shown (match_result tenths cfg (matched (best_matches tenths cfg claims passages) query))
    ≡ ("claim:near:0", "corroborates", some 9)
      ∷ ("evidence:wiki/7:0", "", some 8)
      ∷ ("claim:tied:0", "corroborates", some 7)
      ∷ []
unfolding best_matches compose_evidence_id match_result spelled
adapted = refl

nothing : shown (match_text tenths calls cfg (codes " ")) ≡ []
unfolding match_text
nothing = refl

blank : match_segment tenths calls cfg (codes " ") ≡ empty_segment
unfolding match_segment
blank = refl

embeds : embed_segment tenths calls (codes "Water is wet.") ≡ some query
unfolding embed_segment
embeds = refl

asks : evidence_hits tenths calls cfg query ≡ some passages
unfolding evidence_hits
asks = refl

match_segment-IsTop_example :
    (ms : List (Match tenths)) × (match_segment tenths calls cfg (codes "Water is wet.")
      ≡ matched ms query)
    × IsTop tenths cfg (found tenths cfg claims passages) ms
match_segment-IsTop_example =
    match_segment-IsTop tenths calls cfg (codes "Water is wet.") query claims passages refl embeds
      refl asks refl refl ((refl, (refl, (refl, tt))), ((refl, (refl, tt)), ((refl, tt), (tt, tt))))
      ((refl, (refl, (refl, tt))), ((refl, (refl, tt)), ((refl, tt), (tt, tt))))
