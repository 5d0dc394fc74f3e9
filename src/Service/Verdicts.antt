-- ===== src/Service/Verdicts.antt =====
-- The verdicts of stack/backend/internal/service: credibility.go, and the conversions of
-- verify_path.go, second_pass.go and political_path.go. The number type is a parameter.
mod Shapes
unfoldable pub use Shapes.*
use truth_in_stream.Prelude.{
  String, Bool, true, false, ◌&&◌, ◌||◌, not, List, [], ◌∷◌, Option, none, some, ◌=?◌,
  if◌then◌else◌, Dict, lookup, insert, length, ℕ, ◌==◌,
}
use truth_in_stream.Prelude.Floats.{Floats}

module _ (F : Floats) where
  open F use {Float, is_nan, lt, le, f0, f0_6, f1, sub}

  -- `fastMatch`: the first claim match at or above the floor
  unfoldable pub fast_match : Float → List (SegmentMatch F) → Option (SegmentMatch F)
  fast_match tau [] = none
  fast_match tau (m ∷ ms) =
      if is_claim m.kind && le tau m.similarity then some m else fast_match tau ms

  -- matches without an evidence id are not passages
  unfoldable pub passages_from_matches : List (SegmentMatch F) → List EvidencePassage
  passages_from_matches [] = []
  passages_from_matches (m ∷ ms) =
      let rest = passages_from_matches ms in
      if m.evidence_id =? "" then rest else record { id = m.evidence_id; text = m.claim } ∷ rest

  -- the index of `verdictFromResult`: a later match overwrites an earlier one of the same id
  pub by_id_from : Dict (SegmentMatch F) → List (SegmentMatch F) → Dict (SegmentMatch F)
  by_id_from index [] = index
  by_id_from index (m ∷ ms) =
      by_id_from (if m.evidence_id =? "" then index else insert m.evidence_id m index) ms

  pub resolve : Dict (SegmentMatch F) → List EvidenceCitation → List (SegmentMatch F)
  resolve index [] = []
  resolve index (c ∷ cs) =
      let rest = resolve index cs in
      elim (lookup c.evidence_id index) [ none ↦ rest | some m ↦ m ∷ rest ]

  unfoldable pub verdict_from_result : ClaimVerdict F → List (SegmentMatch F) → VerifiedVerdict F
  unfolding by_id_from resolve
  verdict_from_result res matches = record {
    verdict = res.verdict;
    basis = res.basis;
    confidence = res.confidence;
    citations = resolve (by_id_from [] matches) res.citations;
    rationale = res.rationale;
    literal = "";
    flags = [];
  }

  -- the verdict for a claim with no match at all
  unfoldable pub no_match_verdict : VerifiedVerdict F
  no_match_verdict = record {
    verdict = "unverifiable";
    basis = "knowledge";
    confidence = f0;
    citations = [];
    rationale = "";
    literal = "";
    flags = [];
  }

  unfoldable pub curated_verdict : SegmentMatch F → VerifiedVerdict F
  unfolding credibility_from_curated
  curated_verdict fast =
      let (state, basis) = credibility_from_curated fast.verdict in
      record {
        verdict = state;
        basis = basis;
        confidence = fast.similarity;
        citations = if state =? "unverifiable" then [] else fast ∷ [];
        rationale = "";
        literal = "";
        flags = [];
      }

  unfoldable pub match_from_evidence : Evidence → SegmentMatch F
  match_from_evidence e = record {
    kind = evidence;
    claim = e.passage;
    verdict = "";
    sources = e.source ∷ [];
    similarity = f1;
    evidence_id = e.id;
    article = none;
    contribution = f0;
  }

  pub evidence_by_id_from : Dict Evidence → List Evidence → Dict Evidence
  evidence_by_id_from index [] = index
  evidence_by_id_from index (e ∷ es) = evidence_by_id_from (insert e.id e index) es

  pub resolve_evidence : Dict Evidence → List EvidenceCitation → List (SegmentMatch F)
  unfolding match_from_evidence
  resolve_evidence index [] = []
  resolve_evidence index (c ∷ cs) =
      let rest = resolve_evidence index cs in
      elim (lookup c.evidence_id index) [ none ↦ rest | some e ↦ match_from_evidence e ∷ rest ]

  unfoldable pub political_verdict_from_result :
      PoliticalVerdict F → List Evidence → VerifiedVerdict F
  unfolding credibility_from_literal evidence_by_id_from resolve_evidence
  political_verdict_from_result res routed = record {
    verdict = credibility_from_literal res.literal;
    basis = res.basis;
    confidence = res.confidence;
    citations = resolve_evidence (evidence_by_id_from [] routed) res.citations;
    rationale = res.rationale;
    literal = res.literal;
    flags = res.flags;
  }

  unfoldable pub political_no_evidence_verdict : VerifiedVerdict F
  political_no_evidence_verdict = record {
    verdict = "unverifiable";
    basis = "knowledge";
    confidence = f0;
    citations = [];
    rationale = "";
    literal = "unverifiable";
    flags = [];
  }

  unfoldable pub political_curated_match : PoliticalClaimMatch F → SegmentMatch F
  political_curated_match m = record {
    kind = claim;
    claim = m.text;
    verdict = "";
    sources = record { title = m.source_name; url = m.source_url } ∷ [];
    similarity = sub f1 m.distance;
    evidence_id = m.id;
    article = none;
    contribution = f0;
  }

  unfoldable pub political_curated_verdict : PoliticalClaimMatch F → VerifiedVerdict F
  unfolding credibility_from_literal political_curated_match
  political_curated_verdict m =
      let state = credibility_from_literal m.literal_verdict in
      record {
        verdict = state;
        basis = "evidence";
        confidence = sub f1 m.distance;
        citations = if state =? "unverifiable" then [] else political_curated_match m ∷ [];
        rationale = m.quoted_span;
        literal = m.literal_verdict;
        flags = m.flags;
      }

  -- The second pass: `qualifies` on the fast verdict, and `upgrade`, where `none` keeps it.
  unfoldable pub qualifies : Float → Float → VerifiedVerdict F → ℕ → Bool
  qualifies lo hi v passage_count =
      if passage_count == 0
      then false
      else if v.basis =? "evidence"
      then le lo v.confidence && le v.confidence hi
      else false

  -- `capKnowledgeConfidence` of the service: no test for NaN
  unfoldable pub cap_confidence : Float → Float
  cap_confidence c = if lt c f0 then f0 else if is_nan c then c else if lt f0_6 c then f0_6 else c

  unfoldable pub upgrade : ClaimVerdict F → List (SegmentMatch F) → Option (VerifiedVerdict F)
  unfolding verdict_from_result cap_confidence
  upgrade reasoned matches =
      let upgraded = verdict_from_result reasoned matches in
      if not (reasoned.basis =? "evidence") || length reasoned.citations == 0
      then none
      else if length upgraded.citations == 0
      then some
          (record upgraded { basis = "knowledge"; confidence = cap_confidence upgraded.confidence })
      else some upgraded
