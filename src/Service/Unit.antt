-- ===== src/Service/Unit.antt =====
-- One unit of the verify path, stack/backend/internal/service/verify_path.go: `scoreUnit` of the live
-- session and `AnalyzeText` of a document. What the gate and the decomposer answer is an argument,
-- as are the calls of each claim, by its number. The goroutines of the claims run one after the
-- other here. The code reads the first member of a unit, and no unit without members is dispatched.
pub mod Ids
pub mod Uncached
pub mod Caches
pub mod Sends
pub mod Parity
use truth_in_stream.Prelude.{
  ℕ, suc, String, Bool, true, false, List, [], ◌∷◌, Option, none, some, Runes, itoa, if◌then◌else◌,
}
use Prim.Native.String.{◌++◌}
use truth_in_stream.Prelude.Floats.{Floats}
use truth_in_stream.Service.Verdicts.{AtomicClaim}
use truth_in_stream.Service.ClaimCache.{ClaimCache}
use truth_in_stream.Service.Events.{
  Segment, SkipReason, Decision, not_a_claim, ClaimOutcome, LiveEvent, claims, skipped, unit_failed,
  World, send_event,
}
use truth_in_stream.Service.Path.{Config, Calls, Job, score_claim}
use truth_in_stream.Service.Batch.{resolve_claim_batch}
use truth_in_stream.Service.Live.{UnitMember, PendingUnit, combined_text}

-- The loop of `decomposeText`: an atomic claim for each text, numbered from `i` on.
unfoldable pub claims_from : String → ℕ → List String → List AtomicClaim
unfolding itoa
claims_from anchor i [] = []
claims_from anchor i (t ∷ texts) =
    record { claim_id = anchor ++ ("-" ++ itoa i); text = t } ∷ claims_from anchor (suc i) texts

module _ (F : Floats) where
  -- The gate, none where it fails; the decomposer, on a text and a speaker; and each claim's calls.
  pub record UnitCalls : Type 0 where
    pub gate : Runes → Option Decision
    pub decompose : Runes → String → List String
    pub of_claim : ℕ → Calls F

  -- `BatchUnitResult`: not checkable, for a reason; checkable, but without a claim, whose reason is
  -- `not_a_claim`; or each claim with its outcome.
  pub data BatchUnit : Type 0 where
    unit_skipped : SkipReason → BatchUnit
    without_claims : BatchUnit
    resolved : List (AtomicClaim × ClaimOutcome F) → BatchUnit

module _ (F : Floats) (normalize : String → String) where
  abbrev W : Type 0
  W = World F

  -- A loop over the members that sends an event for each, until one is not taken.
  unfoldable pub send_each : (UnitMember → LiveEvent F) → List UnitMember → W → W
  unfolding send_event
  send_each event [] w = w
  send_each event (m ∷ members) w =
      let sent = send_event F (event m) w in
      let rest = send_each event members sent.1 in if sent.0 then rest else sent.1

  abbrev pub skip_for : SkipReason → UnitMember → LiveEvent F
  skip_for reason m = skipped m.id m.seg reason

  abbrev pub failure_for : UnitMember → LiveEvent F
  failure_for m = unit_failed m.id m.seg

  abbrev pub job_of : UnitMember → String → AtomicClaim → Job
  job_of m speaker claim = record {
    unit_id = m.id;
    segment = m.seg;
    speaker = speaker;
    claim = claim;
  }

  -- The claims of the unit, by their number.
  unfoldable pub score_claims :
      Config F → (ℕ → Calls F) → UnitMember → String → ℕ → List AtomicClaim → W → W
  unfolding score_claim
  score_claims cfg calls m speaker i [] w = w
  score_claims cfg calls m speaker i (c ∷ cs) w =
      score_claims cfg calls m speaker (suc i) cs
        (score_claim F normalize cfg (calls i) (job_of m speaker c) w)

  -- `scoreUnit` from the claims on.
  unfoldable pub announce_claims :
      Config F → (ℕ → Calls F) → UnitMember → PendingUnit → List AtomicClaim → W → W
  unfolding send_each score_claims
  announce_claims cfg calls m pu [] w = send_each (skip_for not_a_claim) pu.members w
  announce_claims cfg calls m pu (c ∷ cs) w =
      let sent = send_event F (claims m.id m.seg (c ∷ cs)) w in
      if sent.0 then score_claims cfg calls m pu.speaker 0 (c ∷ cs) sent.1 else sent.1

  unfoldable pub score_decided :
      Config F → UnitCalls F → UnitMember → PendingUnit → Option Decision → W → W
  unfolding send_each announce_claims claims_from
  score_decided cfg calls m pu none w = send_each failure_for pu.members w
  score_decided cfg calls m pu (some d) w =
      if d.checkable
      then (let texts = calls.decompose (combined_text pu.members) pu.speaker in
          announce_claims cfg calls.of_claim m pu (claims_from m.id 0 texts) w)
      else send_each (skip_for d.reason) pu.members w

  -- `scoreUnit`
  unfoldable pub score_unit : Config F → UnitCalls F → PendingUnit → W → W
  unfolding score_decided combined_text
  score_unit cfg calls pu w = elim pu.members [
    | [] ↦ w
    | m ∷ ms ↦ score_decided cfg calls m pu (calls.gate (combined_text pu.members)) w
  ]

  -- The claims of a document's sentence, by their number.
  unfoldable pub resolve_claims :
      Config F
      → (ℕ → Calls F)
      → ℕ
      → List AtomicClaim
      → Option (ClaimCache F)
      → List (AtomicClaim × ClaimOutcome F) × Option (ClaimCache F)
  unfolding resolve_claim_batch
  resolve_claims cfg calls i [] cache = ([], cache)
  resolve_claims cfg calls i (c ∷ cs) cache =
      let r = resolve_claim_batch F normalize cfg (calls i) c cache in
      let rest = resolve_claims cfg calls (suc i) cs r.1 in ((c, r.0) ∷ rest.0, rest.1)

  unfoldable pub resolve_decomposed :
      Config F
      → (ℕ → Calls F)
      → List AtomicClaim
      → Option (ClaimCache F)
      → BatchUnit F × Option (ClaimCache F)
  unfolding resolve_claims
  resolve_decomposed cfg calls [] cache = (without_claims, cache)
  resolve_decomposed cfg calls (c ∷ cs) cache =
      let r = resolve_claims cfg calls 0 (c ∷ cs) cache in (resolved r.0, r.1)

  -- `AnalyzeText`, given what the gate decided; none where it fails.
  unfoldable pub analyze_decided :
      Config F
      → UnitCalls F
      → Runes
      → String
      → Option (ClaimCache F)
      → Option Decision
      → Option (BatchUnit F) × Option (ClaimCache F)
  unfolding resolve_decomposed claims_from
  analyze_decided cfg calls text anchor cache none = (none, cache)
  analyze_decided cfg calls text anchor cache (some d) =
      let claims_of = claims_from anchor 0 (calls.decompose text "") in
      let r = resolve_decomposed cfg calls.of_claim claims_of cache in
      if d.checkable then (some r.0, r.1) else (some (unit_skipped d.reason), cache)

  -- `AnalyzeText`
  unfoldable pub analyze_text :
      Config F
      → UnitCalls F
      → Runes
      → String
      → Option (ClaimCache F)
      → Option (BatchUnit F) × Option (ClaimCache F)
  unfolding analyze_decided
  analyze_text cfg calls text anchor cache =
      analyze_decided cfg calls text anchor cache (calls.gate text)
