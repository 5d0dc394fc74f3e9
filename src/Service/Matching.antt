-- ===== src/Service/Matching.antt =====
-- The matcher of stack/backend/internal/service/match.go. The embedding client and the two searches
-- are answers, none where they fail; a distance stands for its float64. Texts that are put together
-- are lists of code points.
pub mod Top
pub mod Confidence
pub mod Setup
use truth_in_stream.Prelude.{
  ℕ, zero, suc, String, Bool, true, false, List, [], ◌∷◌, ◌++◌, map, length, take, Option, none,
  some, Runes, codes, itoa, is_blank, ltb, ◌==◌, ◌=?◌, if◌then◌else◌,
}
use truth_in_stream.Prelude.Floats.{Floats}
use truth_in_stream.Prelude.Sorting.{sort_stable}
use truth_in_stream.Corpus.{embedding_dim}
use truth_in_stream.Service.Verdicts.{MatchKind, claim, evidence, Source}

unfoldable pub kind_text : MatchKind → Runes
kind_text claim = codes "claim"
kind_text evidence = codes "evidence"

-- `domain.ComposeEvidenceID`
unfoldable pub compose_evidence_id : MatchKind → Runes → ℕ → Runes
unfolding kind_text itoa
compose_evidence_id kind source_id chunk_index =
    kind_text kind ++ (58 ∷ (source_id ++ (58 ∷ codes (itoa chunk_index))))

-- `domain.Article`
pub record Article : Type 0 where
  pub title : Runes
  pub url : Runes

abbrev pub no_article : Article
no_article = record { title = []; url = [] }

module _ (F : Floats) where
  open F use {Float, lt, le, sub, f1}

  -- `domain.ClaimMatch`
  pub record ClaimHit : Type 0 where
    pub id : Runes
    pub text : Runes
    pub verdict : String
    pub sources : List Source
    pub distance : Float

  -- `domain.EvidenceHit`, with the fields that the matcher reads
  pub record EvidenceHit : Type 0 where
    pub source : Runes
    pub external_id : Runes
    pub chunk_index : ℕ
    pub title : Runes
    pub url : Runes
    pub content : Runes
    pub kind : String
    pub distance : Float

  pub record Match : Type 0 where
    pub kind : MatchKind
    pub claim_id : Runes
    pub text : Runes
    pub verdict : String
    pub sources : List Source
    pub article : Article
    pub wiki_kind : String
    pub evidence_id : Runes
    pub score : Float

  -- `MatcherConfig`, with its counts and its timeout from 0 up.
  pub record MatcherConfig : Type 0 where
    pub top_k : ℕ
    pub score_threshold : Float
    pub evidence_top_k : ℕ
    pub evidence_threshold : Float
    pub max_results : ℕ
    pub embed_concurrency : ℕ
    pub timeout : ℕ
    pub confidence_cluster_size : ℕ
    pub confidence_lead_weight : Float
    pub confidence_body_weight : Float

  -- What the embedding client and the searches answer, and whether a slot of `embedSem` was free
  -- before the context was done.
  pub record Lookups : Type 0 where
    pub slot : Bool
    pub embed_queries : List Runes → Option (List (List Float))
    pub search : List Float → ℕ → Option (List ClaimHit)
    pub search_evidence : List Float → ℕ → Option (List EvidenceHit)

  -- How `MatchSegment` ends.
  pub data Matched : Type 0 where
    empty_segment failed : Matched
    matched : List Match → List Float → Matched

module _ (F : Floats) where
  open F use {Float, lt, le, sub, f1}

  abbrev pub score_of : Float → Float
  score_of distance = sub f1 distance

  abbrev pub claim_match : ClaimHit F → Match F
  claim_match h = record {
    kind = claim;
    claim_id = h.id;
    text = h.text;
    verdict = h.verdict;
    sources = h.sources;
    article = no_article;
    wiki_kind = "";
    evidence_id = compose_evidence_id claim h.id 0;
    score = score_of h.distance;
  }

  -- The loop of `claimMatches`, which stops at the first hit below the floor.
  unfoldable pub claim_matches : Float → List (ClaimHit F) → List (Match F)
  claim_matches floor [] = []
  claim_matches floor (h ∷ hits) =
      let rest = claim_matches floor hits in
      if lt (score_of h.distance) floor then [] else claim_match h ∷ rest

  abbrev pub evidence_match : EvidenceHit F → Match F
  evidence_match h = record {
    kind = evidence;
    claim_id = [];
    text = h.content;
    verdict = "";
    sources = [];
    article = record { title = h.title; url = h.url };
    wiki_kind = h.kind;
    evidence_id = compose_evidence_id evidence (h.source ++ (47 ∷ h.external_id)) h.chunk_index;
    score = score_of h.distance;
  }

  -- The loop of `evidenceMatches`
  unfoldable pub evidence_matches : Float → List (EvidenceHit F) → List (Match F)
  evidence_matches floor [] = []
  evidence_matches floor (h ∷ hits) =
      let rest = evidence_matches floor hits in
      if lt (score_of h.distance) floor then [] else evidence_match h ∷ rest

  -- The hits of `evidenceMatches`; the corpus is not asked where `EvidenceTopK` is 0.
  unfoldable pub evidence_hits :
      Lookups F → MatcherConfig F → List Float → Option (List (EvidenceHit F))
  evidence_hits calls cfg query =
      if cfg.evidence_top_k == 0 then some [] else calls.search_evidence query cfg.evidence_top_k

  unfoldable pub one_vector : Option (List (List Float)) → Option (List Float)
  one_vector none = none
  one_vector (some []) = none
  one_vector (some (v ∷ [])) = if length v == embedding_dim then some v else none
  one_vector (some (v ∷ w ∷ vs)) = none

  -- `embedSegment` with `embedQuery`
  unfoldable pub embed_segment : Lookups F → Runes → Option (List Float)
  unfolding one_vector
  embed_segment calls segment =
      if calls.slot then one_vector (calls.embed_queries (segment ∷ [])) else none

  abbrev pub higher : Match F → Match F → Bool
  higher a b = lt b.score a.score

  -- The end of `MatchSegment`: the matches by score, claims first on a tie, up to the limit.
  unfoldable pub best_matches :
      MatcherConfig F → List (ClaimHit F) → List (EvidenceHit F) → List (Match F)
  unfolding claim_matches evidence_matches sort_stable
  best_matches cfg claims passages =
      let found =
        claim_matches cfg.score_threshold claims
        ++ evidence_matches cfg.evidence_threshold passages in
      let sorted = sort_stable higher found in
      if ltb cfg.max_results (length sorted) then take cfg.max_results sorted else sorted

  -- `MatchSegment`
  unfoldable pub match_segment : Lookups F → MatcherConfig F → Runes → Matched F
  unfolding embed_segment evidence_hits best_matches
  match_segment calls cfg segment =
      if is_blank segment then empty_segment else elim (embed_segment calls segment) [
        | none ↦ failed
        | some query ↦ elim (calls.search query cfg.top_k) [
          | none ↦ failed
          | some claims ↦ elim (evidence_hits calls cfg query) [
            | none ↦ failed
            | some passages ↦ matched (best_matches cfg claims passages) query
          ]
        ]
      ]
