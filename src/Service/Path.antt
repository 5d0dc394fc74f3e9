-- ===== src/Service/Path.antt =====
-- The retrieve-then-verify path of one atomic claim: `scoreClaim` of
-- stack/backend/internal/service/verify_path.go, `scorePoliticalClaim` of political_path.go,
-- `maybeReverify` of second_pass.go and `detectClaimConsistency` of live.go. What the claim's calls
-- return (matcher, verifiers, router, curated store, stance check, verify pool, clock) is the
-- record `Calls`; an error is `none`. Logging is left out.
mod Given
mod Publishing
mod Checks
unfoldable pub use Given.*
unfoldable pub use Publishing.*
unfoldable pub use Checks.*
use truth_in_stream.Prelude.{
  ℕ, String, Bool, true, false, not, ◌||◌, List, [], ◌∷◌, Option, none, some, ◌=?◌, ◌==◌,
  if◌then◌else◌, ltb, length,
}
use truth_in_stream.Prelude.Floats.{Floats}
use truth_in_stream.Service.Verdicts.{
  AtomicClaim, curated, verified_source, VerdictSource, EvidencePassage, Evidence, SegmentMatch,
  VerifiedVerdict, ClaimVerdict, PoliticalVerdict, PoliticalClaimMatch, fast_match,
  passages_from_matches, verdict_from_result, no_match_verdict, curated_verdict,
  evidence_passages_from, political_verdict_from_result, political_no_evidence_verdict,
  political_curated_verdict, literal_from_credibility, qualifies, upgrade,
}
use truth_in_stream.Service.Memory.{
  PriorStatement, observe_verdict, prior, remember, rank_by_similarity,
}
use truth_in_stream.Service.ClaimCache.{CacheEntry, cache_get, cache_put}
use truth_in_stream.Service.Events.{
  Segment, ClaimOutcome, LiveEvent, checking, verified, unchecked, failed, claim_result,
  consistency, speaker_tally, World, send_event,
}

module _ (F : Floats) (normalize : String → String) where
  abbrev W : Type 0
  W = World F

  unfoldable pub replace_with : Calls F → Job → Retrieved F → W → Option (VerifiedVerdict F) → W
  unfolding put_verdict
  replace_with calls j ret w none = w
  replace_with calls j ret w (some v) =
      emit F normalize (result_of F normalize j (verified verified_source v))
        (put_verdict F normalize calls.reput_time j verified_source v ret.embedding w)

  -- `maybeReverify`: it replaces the cached and the shown verdict, and counts nothing again
  unfoldable pub maybe_reverify : Config F → Calls F → Job → VerifiedVerdict F → Retrieved F → W → W
  unfolding second_look replace_with
  maybe_reverify cfg calls j fast ret w =
      replace_with calls j ret w (second_look F cfg.second_pass calls fast ret)

  -- what follows the checking event
  unfoldable pub conclude : Config F → Calls F → Job → Retrieved F → Bool → Check F → W → W
  unfolding settle maybe_reverify
  conclude cfg calls j ret second (judged v) w =
      let w' = settle F normalize cfg calls j verified_source v ret.embedding w in
      if second then maybe_reverify cfg calls j v ret w' else w'
  conclude cfg calls j ret second shed w = emit F normalize (result_of F normalize j unchecked) w
  conclude cfg calls j ret second broken w = emit F normalize (result_of F normalize j failed) w

  -- the checking event, then the check, unless the context was canceled
  unfoldable pub check_with : Config F → Calls F → Job → Retrieved F → Bool → Check F → W → W
  unfolding conclude
  check_with cfg calls j ret second check w =
      let (alive, w') = send_event F (result_of F normalize j checking) w in
      if alive then conclude cfg calls j ret second check w' else w'

  -- `scorePoliticalClaim`, given what the router returned
  unfoldable pub score_routed :
      Config F → Calls F → Job → Retrieved F → W → Option (List Evidence) → W
  unfolding check_with verify_political
  score_routed cfg calls j ret w none = emit F normalize (result_of F normalize j failed) w
  score_routed cfg calls j ret w (some []) =
      check_with cfg calls j ret false (judged (political_no_evidence_verdict F)) w
  score_routed cfg calls j ret w (some (e ∷ es)) =
      check_with cfg calls j ret false (verify_political F calls (e ∷ es)) w

  unfoldable pub score_political_claim : Config F → Calls F → Job → Retrieved F → W → W
  unfolding score_routed
  score_political_claim cfg calls j ret w = score_routed cfg calls j ret w calls.route

  -- `scoreClaim` once the claim's evidence is there, given the borrowed verdict
  unfoldable pub score_unless :
      Config F → Calls F → Job → Retrieved F → W → Option (VerifiedVerdict F) → W
  unfolding settle score_political_claim check_with verify_claim
  score_unless cfg calls j ret w (some v) = settle F normalize cfg calls j curated v ret.embedding w
  score_unless cfg calls j ret w none =
      if is_political F cfg
      then score_political_claim cfg calls j ret w
      else check_with cfg calls j ret true (verify_claim F calls ret.matches) w

  unfoldable pub score_retrieved : Config F → Calls F → Job → W → Option (Retrieved F) → W
  unfolding score_unless borrowed
  score_retrieved cfg calls j w none = emit F normalize (result_of F normalize j failed) w
  score_retrieved cfg calls j w (some ret) =
      score_unless cfg calls j ret w (borrowed F cfg calls ret)

  unfoldable pub score_found : Config F → Calls F → Job → W → Option (CacheEntry F) → W
  unfolding score_retrieved publish
  score_found cfg calls j w none = score_retrieved cfg calls j w calls.retrieve
  score_found cfg calls j w (some e) =
      publish F normalize cfg calls j e.source e.verdict e.embedding w

  unfoldable pub score_claim : Config F → Calls F → Job → W → W
  unfolding score_found
  score_claim cfg calls j w =
      let (hit, cache) = cache_get F normalize calls.get_time j.claim.text w.cache in
      score_found cfg calls j (record w { cache = cache }) hit
