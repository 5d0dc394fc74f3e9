-- ===== src/Service/Verdicts/Shapes.antt =====
-- The claims, matches and verdicts of stack/backend/internal/service, and the words for a verdict
-- (credibility.go, political_path.go).
use truth_in_stream.Prelude.{String, Bool, true, false, List, [], ◌∷◌, Option, ◌=?◌, if◌then◌else◌}
use truth_in_stream.Prelude.Floats.{Floats}

pub data MatchKind : Type 0 where
  claim evidence : MatchKind

pub data ClaimStatus : Type 0 where
  pending checking verified unchecked error : ClaimStatus

pub data VerdictSource : Type 0 where
  curated verified_source : VerdictSource

pub record Source : Type 0 where
  pub title : String
  pub url : String

pub record AtomicClaim : Type 0 where
  pub claim_id : String
  pub text : String

pub record EvidencePassage : Type 0 where
  pub id : String
  pub text : String

pub record EvidenceCitation : Type 0 where
  pub evidence_id : String
  pub quoted_span : String

-- A passage of a routed source; `id` is the encoded evidence id.
pub record Evidence : Type 0 where
  pub id : String
  pub passage : String
  pub source : Source

abbrev pub is_claim : MatchKind → Bool
is_claim claim = true
is_claim evidence = false

-- `credibilityFromCurated`
unfoldable pub credibility_from_curated : String → String × String
credibility_from_curated v =
    if v =? "corroborates"
    then ("credible", "evidence")
    else if v =? "contradicts"
    then ("disputed", "evidence")
    else ("unverifiable", "knowledge")

unfoldable pub literal_from_credibility : String → String
literal_from_credibility v =
    if v =? "credible" then "accurate" else if v =? "disputed" then "inaccurate" else "unverifiable"

unfoldable pub credibility_from_literal : String → String
credibility_from_literal l =
    if l =? "accurate" then "credible" else if l =? "inaccurate" then "disputed" else "unverifiable"

unfoldable pub evidence_passages_from : List Evidence → List EvidencePassage
evidence_passages_from [] = []
evidence_passages_from (e ∷ es) = record { id = e.id; text = e.passage } ∷ evidence_passages_from es

module _ (F : Floats) where
  open F use {Float, is_nan, lt, le, f0, f0_6, f1, sub}

  pub record SegmentMatch : Type 0 where
    pub kind : MatchKind
    pub claim : String
    pub verdict : String
    pub sources : List Source
    pub similarity : Float
    pub evidence_id : String
    pub article : Option Source
    pub contribution : Float

  pub record VerifiedVerdict : Type 0 where
    pub verdict : String
    pub basis : String
    pub confidence : Float
    pub citations : List SegmentMatch
    pub rationale : String
    pub literal : String
    pub flags : List String

  pub record ClaimVerdict : Type 0 where
    pub verdict : String
    pub basis : String
    pub confidence : Float
    pub citations : List EvidenceCitation
    pub rationale : String

  pub record PoliticalVerdict : Type 0 where
    pub literal : String
    pub basis : String
    pub flags : List String
    pub confidence : Float
    pub citations : List EvidenceCitation
    pub rationale : String

  pub record PoliticalClaimMatch : Type 0 where
    pub id : String
    pub text : String
    pub literal_verdict : String
    pub flags : List String
    pub source_name : String
    pub source_url : String
    pub quoted_span : String
    pub distance : Float
