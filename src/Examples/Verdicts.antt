-- ===== src/Examples/Verdicts.antt =====
-- Examples for the verifiers' guard and for the path of a claim.
use truth_in_stream.Prelude.{
  true, List, [], ◌∷◌, none, some, keep, codes, ◌≡◌, refl, lookup, insert,
}
use truth_in_stream.Verify.{
  Passage, Citation, Judgement, PoliticalJudgement, clamp_confidence, validate_citations,
  basis_evidence, basis_knowledge,
}
use truth_in_stream.Verify.Citations.{quotes}
use truth_in_stream.Verify.Grounding.{
  Within, validate_citations_grounds, validate_citations_confidence,
}
use truth_in_stream.Examples.Numbers.{tenths}

abbrev passages : List Passage
passages =
    record { id = "a"; text = codes "GDP grew by 2% in 2023" }
    ∷ record { id = "b"; text = codes "no data" }
    ∷ []

abbrev good : Citation
good = record { evidence_id = "a"; quoted_span = codes "grew by 2%" }

abbrev made_up : Citation
made_up = record { evidence_id = "b"; quoted_span = codes "grew by 2%" }

abbrev sent : Judgement tenths
sent = record {
  verdict = "credible";
  basis = "evidence";
  confidence = some 12;
  citations = made_up ∷ good ∷ [];
  rationale = "";
}

abbrev sent_political : PoliticalJudgement tenths
sent_political = record {
  literal = "accurate";
  basis = "evidence";
  flags = "outdated" ∷ "rude" ∷ "outdated" ∷ [];
  confidence = none;
  citations = made_up ∷ [];
  rationale = "";
}

guarded :
    validate_citations tenths sent passages
    ≡ record sent { confidence = some 10; citations = good ∷ [] }
unfolding validate_citations lookup clamp_confidence insert
guarded = refl

validate_citations_grounds_example :
    let r = validate_citations tenths sent passages in
    (r.basis ≡ basis_evidence) × (r.citations ≡ keep (quotes passages) (made_up ∷ good ∷ []))
validate_citations_grounds_example = validate_citations_grounds tenths sent passages

validate_citations_confidence_example :
    let r = validate_citations tenths sent passages in
    Within tenths (some 0) (some 10) r.confidence
    × ((r.basis ≡ basis_knowledge) → tenths.le r.confidence (some 6) ≡ true)
validate_citations_confidence_example = validate_citations_confidence tenths sent passages
