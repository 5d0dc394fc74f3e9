-- ===== src/Verify.antt =====
-- The evidence verifiers of stack/backend/internal/verify: verify.go and political.go behind the
-- model call, which is a parameter. A citation is an evidence id and a quoted span.
pub mod Citations
pub mod Grounding
pub mod Flags
use truth_in_stream.Prelude.{
  String, Bool, true, false, not, ◌&&◌, ◌||◌, List, [], ◌∷◌, ◌++◌, Option, none, some, ◌=?◌,
  if◌then◌else◌, any, Dict, lookup, insert, Runes, is_blank, contains, length, ltb, leb,
}
use truth_in_stream.Prelude.Floats.{Floats}

pub record Passage : Type 0 where
  pub id : String
  pub text : Runes

pub record Citation : Type 0 where
  pub evidence_id : String
  pub quoted_span : Runes

-- The labels of a verdict, of its basis and of the literal axis, and the manipulation flags.
abbrev pub verdict_credible : String
verdict_credible = "credible"

abbrev pub verdict_disputed : String
verdict_disputed = "disputed"

abbrev pub verdict_unverifiable : String
verdict_unverifiable = "unverifiable"

abbrev pub basis_evidence : String
basis_evidence = "evidence"

abbrev pub basis_knowledge : String
basis_knowledge = "knowledge"

abbrev pub literal_unverifiable : String
literal_unverifiable = "unverifiable"

abbrev pub known_political_flags : List String
known_political_flags =
    "missing-context" ∷ "cherry-picked" ∷ "outdated" ∷ "misattributed" ∷ "misleading-causation" ∷ []

-- `byID[id]`, where a missing key reads as the nil slice
abbrev pub texts_of : String → Dict (List Runes) → List Runes
texts_of id m = elim (lookup id m) [ none ↦ [] | some texts ↦ texts ]

-- the first loop of `validCitations`
unfoldable pub index_from : Dict (List Runes) → List Passage → Dict (List Runes)
index_from m [] = m
index_from m (p ∷ ps) = index_from (insert p.id (texts_of p.id m ++ p.text ∷ []) m) ps

-- the second loop of `validCitations`: a citation is dropped when its span is blank, its id is
-- not in the index, or no text under that id has the span
unfoldable pub collect : Dict (List Runes) → List Citation → List Citation
collect m [] = []
collect m (c ∷ cs) =
    let rest = collect m cs in
    if is_blank c.quoted_span then rest else elim (lookup c.evidence_id m) [
      | none ↦ rest
      | some texts ↦ if any (λ t. contains t c.quoted_span) texts then c ∷ rest else rest
    ]

unfoldable pub valid_citations : List Citation → List Passage → List Citation
unfolding index_from collect
valid_citations cits passages = collect (index_from [] passages) cits

-- `knownPoliticalFlags[f]`
unfoldable pub is_known : String → Bool
is_known f = any (λ g. g =? f) known_political_flags

-- `flags` outside the vocabulary, or seen before, are dropped
unfoldable pub sanitize_from : List String → List String → List String
sanitize_from seen [] = []
sanitize_from seen (f ∷ fs) =
    let fresh = f ∷ sanitize_from (f ∷ seen) fs in
    let rest = sanitize_from seen fs in
    if not (is_known f) then rest else if any (λ g. g =? f) seen then rest else fresh

unfoldable pub sanitize_flags : List String → List String
unfolding sanitize_from is_known
sanitize_flags flags = sanitize_from [] flags

module _ (F : Floats) where
  open F use {Float, is_nan, lt, le, f0, f0_6, f1}

  -- Go's `min` on float64: NaN if an operand is
  unfoldable pub fmin : Float → Float → Float
  fmin a b = if is_nan a then a else if is_nan b then b else if lt b a then b else a

  unfoldable pub clamp_confidence : Float → Float
  clamp_confidence c = if is_nan c || lt c f0 then f0 else if lt f1 c then f1 else c

  unfoldable pub cap_knowledge_confidence : Float → Float
  unfolding fmin clamp_confidence
  cap_knowledge_confidence c = fmin (clamp_confidence c) f0_6

  unfoldable pub ground_verdict :
      Bool → String → List Citation → Float → String × List Citation × Float
  ground_verdict unverifiable basis valid_cits confidence =
      if unverifiable
      then (basis_knowledge, [], cap_knowledge_confidence confidence)
      else if (basis =? basis_evidence) && ltb 0 (length valid_cits)
      then (basis_evidence, valid_cits, clamp_confidence confidence)
      else (basis_knowledge, valid_cits, cap_knowledge_confidence confidence)

  pub record Judgement : Type 0 where
    pub verdict : String
    pub basis : String
    pub confidence : Float
    pub citations : List Citation
    pub rationale : String

  unfoldable pub validate_citations : Judgement → List Passage → Judgement
  unfolding ground_verdict valid_citations
  validate_citations res passages =
      let cits = valid_citations res.citations passages in
      let (basis, citations, confidence) =
        ground_verdict (res.verdict =? verdict_unverifiable) res.basis cits res.confidence in
      record res { basis = basis; citations = citations; confidence = confidence }

  pub record PoliticalJudgement : Type 0 where
    pub literal : String
    pub basis : String
    pub flags : List String
    pub confidence : Float
    pub citations : List Citation
    pub rationale : String

  unfoldable pub validate_political_citations :
      PoliticalJudgement → List Passage → PoliticalJudgement
  unfolding ground_verdict valid_citations sanitize_flags
  validate_political_citations res passages =
      let cits = valid_citations res.citations passages in
      let (basis, citations, confidence) =
        ground_verdict (res.literal =? literal_unverifiable) res.basis cits res.confidence in
      record res {
        flags = sanitize_flags res.flags;
        basis = basis;
        citations = citations;
        confidence = confidence;
      }

  -- `Verify` and `Reverify`: no passages is an error, as is a failed model call (`none`)
  unfoldable pub verify :
      (String → List Passage → Option Judgement) → String → List Passage → Option Judgement
  unfolding validate_citations
  verify classify claim [] = none
  verify classify claim (p ∷ ps) = elim (classify claim (p ∷ ps)) [
    | none ↦ none
    | some res ↦ some (validate_citations res (p ∷ ps))
  ]
