-- ===== src/Service/Events.antt =====
-- The live events of stack/backend/internal/service/live.go and the channel that they are sent on.
-- Each `sendEvent` asks the environment whether the reader took the event (true) or the context
-- was canceled first (false): `sends` holds the answers, by the number of sends so far.
use truth_in_stream.Prelude.{
  ℕ, suc, String, Bool, true, false, List, [], ◌∷◌, ◌++◌, Option, if◌then◌else◌,
}
use truth_in_stream.Prelude.Floats.{Floats}
use truth_in_stream.Service.Verdicts.{AtomicClaim, VerdictSource, VerifiedVerdict, SegmentMatch}
use truth_in_stream.Service.Matching.Confidence.{Confidence}
use truth_in_stream.Service.Memory.{SpeakerTally, SpeakerMemory}
use truth_in_stream.Service.ClaimCache.{ClaimCache}

-- `domain.Segment`: milliseconds, the text as a list of code points
pub record Segment : Type 0 where
  pub start : ℕ
  pub end : ℕ
  pub text : List ℕ
  pub speaker : String

pub record ConsistencyFlag : Type 0 where
  pub earlier_id : String
  pub earlier_text : String
  pub speaker : String
  pub rationale : String

-- `SkipReason`, a closed vocabulary
pub data SkipReason : Type 0 where
  no_skip not_a_claim not_covered not_checked : SkipReason

-- What the gate decides: `Checkable` and `Reason`.
pub record Decision : Type 0 where
  pub checkable : Bool
  pub reason : SkipReason

module _ (F : Floats) where
  -- The result of one claim: its status, and the fields that the status sets.
  pub data ClaimOutcome : Type 0 where
    checking : ClaimOutcome
    verified : VerdictSource → VerifiedVerdict F → ClaimOutcome
    unchecked : ClaimOutcome
    failed : ClaimOutcome

  -- A `LiveEvent` with the fields that its kind sets: the id it is keyed on comes first.
  pub data LiveEvent : Type 0 where
    interim : Segment → LiveEvent
    subtitle : String → Segment → LiveEvent
    claims : String → Segment → List AtomicClaim → LiveEvent
    skipped : String → Segment → SkipReason → LiveEvent
    unit_failed : String → Segment → LiveEvent
    matched : String → Segment → SkipReason → List (SegmentMatch F) → Confidence F → LiveEvent
    claim_result : String → Segment → String → ClaimOutcome → LiveEvent
    consistency : String → Segment → ConsistencyFlag → LiveEvent
    speaker_tally : SpeakerTally → LiveEvent

  -- What the scoring of a claim reads and writes.
  pub record World : Type 0 where
    pub out : List LiveEvent
    pub sends : ℕ → Bool
    pub asked : ℕ
    pub cache : Option (ClaimCache F)
    pub memory : SpeakerMemory F

  unfoldable pub send_event : LiveEvent → World → Bool × World
  send_event e w =
      if w.sends w.asked
      then (true, record w { out = w.out ++ e ∷ []; asked = suc w.asked })
      else (false, record w { asked = suc w.asked })
