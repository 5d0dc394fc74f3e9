-- ===== src/Service/Gate.antt =====
-- The gate in front of the matcher and what it lets through: precheck.go, gate.go and
-- segment_match_adapter.go of stack/backend/internal/service. A classifier, a coverage decider and a
-- matcher are functions of the text, none where they fail.
use truth_in_stream.Prelude.{
  Bool, true, false, List, [], ◌∷◌, Option, none, some, Runes, spelled, if◌then◌else◌,
}
use truth_in_stream.Prelude.Floats.{Floats}
use truth_in_stream.Service.Verdicts.{claim, evidence, SegmentMatch}
use truth_in_stream.Service.Matching.{
  Match, MatcherConfig, Lookups, Matched, empty_segment, failed, matched, match_segment,
}
use truth_in_stream.Service.Matching.Confidence.{Confidence}
use truth_in_stream.Service.Matching.Setup.{confidence, contributions}
use truth_in_stream.Service.Events.{Decision, no_skip, not_a_claim, not_covered}

-- `domain.Checkable` and `domain.Skipped`
abbrev pub is_checkable : Decision
is_checkable = record { checkable = true; reason = no_skip }

-- `Gate`, whose coverage is none for a `ClaimGate`; `open_gate` is the `allowAllPrechecker`.
pub data Prechecker : Type 0 where
  open_gate : Prechecker
  two_stages : (Runes → Option Bool) → Option (Runes → Option Bool) → Prechecker

unfoldable pub decide_covered : Option Bool → Option Decision
decide_covered none = none
decide_covered (some false) = some (record { checkable = false; reason = not_covered })
decide_covered (some true) = some is_checkable

unfoldable pub decide_claim : Option (Runes → Option Bool) → Runes → Option Bool → Option Decision
unfolding decide_covered
decide_claim coverage text none = none
decide_claim coverage text (some false) = some (record { checkable = false; reason = not_a_claim })
decide_claim none text (some true) = some is_checkable
decide_claim (some covered) text (some true) = decide_covered (covered text)

-- `Evaluate`, of each of the three gates
unfoldable pub evaluate : Prechecker → Runes → Option Decision
unfolding decide_claim
evaluate open_gate text = some is_checkable
evaluate (two_stages classify coverage) text = decide_claim coverage text (classify text)

module _ (F : Floats) where
  open F use {Float, f0}

  pub record MatchResult : Type 0 where
    pub matches : List (SegmentMatch F)
    pub confidence : Confidence F
    pub query_embedding : List Float

  -- The zero `MatchResult`
  abbrev pub no_result : MatchResult
  no_result = record {
    matches = [];
    confidence = record { score = f0; supporting = f0; contradicting = f0; evidence_items = 0 };
    query_embedding = [];
  }

  -- The body of the loop of `SegmentMatchAdapter.Match`
  unfoldable pub convert : Match F → Float → SegmentMatch F
  convert h contribution = elim h.kind [
    | evidence ↦ record {
      kind = evidence;
      claim = spelled h.text;
      verdict = "";
      sources = [];
      similarity = h.score;
      evidence_id = spelled h.evidence_id;
      article = some (record { title = spelled h.article.title; url = spelled h.article.url });
      contribution = contribution;
    }
    | claim ↦ record {
      kind = claim;
      claim = spelled h.text;
      verdict = h.verdict;
      sources = h.sources;
      similarity = h.score;
      evidence_id = spelled h.evidence_id;
      article = none;
      contribution = contribution;
    }
  ]

  -- The loop: a contribution that is missing is 0.
  unfoldable pub convert_all : List (Match F) → List Float → List (SegmentMatch F)
  unfolding convert
  convert_all [] weights = []
  convert_all (h ∷ hits) [] = convert h f0 ∷ convert_all hits []
  convert_all (h ∷ hits) (weight ∷ weights) = convert h weight ∷ convert_all hits weights

  unfoldable pub match_result : MatcherConfig F → Matched F → Option (MatchResult)
  unfolding convert_all confidence contributions
  match_result cfg empty_segment = some no_result
  match_result cfg failed = none
  match_result cfg (matched hits query) = some (record {
    matches = convert_all hits (contributions F cfg hits);
    confidence = confidence F cfg hits;
    query_embedding = query;
  })

  -- `SegmentMatchAdapter.Match`
  unfoldable pub match_text : Lookups F → MatcherConfig F → Runes → Option MatchResult
  unfolding match_result match_segment
  match_text calls cfg text = match_result cfg (match_segment F calls cfg text)

  unfoldable pub match_decided :
      (Runes → Option MatchResult) → Runes → Option Decision → Option (MatchResult × Decision)
  match_decided match text none = none
  match_decided match text (some d) =
      if d.checkable
      then elim (match text) [ none ↦ none | some r ↦ some (r, d) ]
      else some (no_result, d)

  -- `gateAndMatch`
  unfoldable pub gate_and_match :
      Prechecker → (Runes → Option MatchResult) → Runes → Option (MatchResult × Decision)
  unfolding match_decided evaluate
  gate_and_match gate match text = match_decided match text (evaluate gate text)
