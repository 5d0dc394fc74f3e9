-- ===== src/Service/Path/Given.antt =====
-- What `scoreClaim` of stack/backend/internal/service/verify_path.go works on: the claim, the
-- configuration, and what its calls return. An error is `none`.
use truth_in_stream.Prelude.{ℕ, String, Bool, true, false, List, Option, none, some}
use truth_in_stream.Prelude.Floats.{Floats}
use truth_in_stream.Service.Verdicts.{
  AtomicClaim, EvidencePassage, Evidence, SegmentMatch, ClaimVerdict, PoliticalVerdict,
  PoliticalClaimMatch,
}
use truth_in_stream.Service.Events.{Segment}

-- How an attempt at a slot of the verify pool ends.
pub data Slot : Type 0 where
  acquired saturated canceled : Slot

-- The claim, and the unit that it came from: the id and the segment of its first member.
pub record Job : Type 0 where
  pub unit_id : String
  pub segment : Segment
  pub speaker : String
  pub claim : AtomicClaim

module _ (F : Floats) where
  open F use {Float, lt, f1, sub}

  pub record Retrieved : Type 0 where
    pub matches : List (SegmentMatch F)
    pub embedding : List Float

  -- `VerifyPath` and the consistency settings of `LiveAnalyzer`; a switched-off part is `none`.
  pub record Config : Type 0 where
    pub fast_tau : Float
    -- the political path, and in it the curated store's floor
    pub political : Option (Option Float)
    -- the band of the second pass
    pub second_pass : Option (Float × Float)
    -- the floor and the cap of the consistency check
    pub stance : Option (Float × ℕ)

  pub record Calls : Type 0 where
    pub get_time : ℕ
    pub put_time : ℕ
    pub reput_time : ℕ
    pub retrieve : Option Retrieved
    pub search_political : Option (List (PoliticalClaimMatch F))
    pub route : Option (List Evidence)
    pub slot : Slot
    pub verify : List EvidencePassage → Option (ClaimVerdict F)
    pub verify_political : List EvidencePassage → Option (PoliticalVerdict F)
    pub reverify : List EvidencePassage → Option (ClaimVerdict F)
    -- the earlier text against the claim's
    pub contradicts : String → Option (Bool × String)

  abbrev pub is_political : Config → Bool
  is_political c = elim c.political [ none ↦ false | some _ ↦ true ]
