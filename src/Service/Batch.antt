-- ===== src/Service/Batch.antt =====
-- The batch path of one claim, which a document's analysis uses: `resolveClaimBatch` of
-- stack/backend/internal/service/verify_path.go, its political variant of political_path.go and
-- `applyReverifyBatch` of second_pass.go. It takes the calls that the live path takes; the wait for
-- a verify slot blocks, so a slot is missed only if the context is canceled.
use truth_in_stream.Prelude.{ℕ, String, List, [], ◌∷◌, Option, none, some, if◌then◌else◌, get_or}
use truth_in_stream.Prelude.Floats.{Floats}
use truth_in_stream.Service.Verdicts.{
  AtomicClaim, curated, verified_source, VerdictSource, Evidence, SegmentMatch, VerifiedVerdict,
  no_match_verdict, political_no_evidence_verdict,
}
use truth_in_stream.Service.ClaimCache.{CacheEntry, ClaimCache, cache_get, cache_put}
use truth_in_stream.Service.Events.{ClaimOutcome, verified, failed}
use truth_in_stream.Service.Path.{
  Slot, acquired, saturated, canceled, Retrieved, Config, Calls, is_political, borrowed,
  second_look, run_verifier, run_political_verifier,
}

module _ (F : Floats) (normalize : String → String) where
  abbrev Cache : Type 0
  Cache = Option (ClaimCache F)

  -- `BatchClaimResult`: the outcome of the claim, beside the cache that the call leaves
  abbrev pub Resolved : Type 0
  Resolved = ClaimOutcome F × Cache

  unfoldable pub keep_verdict :
      ℕ → String → VerdictSource → VerifiedVerdict F → List F.Float → Cache → Resolved
  keep_verdict now claim source v embedding cache = (
    verified source v,
    cache_put F normalize now claim
        (record { source = source; verdict = v; embedding = embedding; expires = 0 }) cache,
  )

  -- `acquireVerifySlotBlocking`
  abbrev pub blocking : {A : Type 0} → Slot → Option A → Option A
  blocking canceled v = none
  blocking acquired v = v
  blocking saturated v = v

  unfoldable pub verify_claim_blocking :
      Calls F → List (SegmentMatch F) → Option (VerifiedVerdict F)
  unfolding run_verifier
  verify_claim_blocking calls [] = some (no_match_verdict F)
  verify_claim_blocking calls (m ∷ ms) = blocking calls.slot (run_verifier F calls (m ∷ ms))

  unfoldable pub verify_political_blocking : Calls F → List Evidence → Option (VerifiedVerdict F)
  unfolding run_political_verifier
  verify_political_blocking calls routed =
      blocking calls.slot (run_political_verifier F calls routed)

  unfoldable pub apply_reverify_batch :
      Config F → Calls F → VerifiedVerdict F → Retrieved F → VerifiedVerdict F
  unfolding second_look
  apply_reverify_batch cfg calls fast ret =
      get_or (second_look F cfg.second_pass calls fast ret) fast

  -- a verdict to keep, or an error
  unfoldable pub keep_or_fail :
      Calls F → String → Retrieved F → Cache → Option (VerifiedVerdict F) → Resolved
  unfolding keep_verdict
  keep_or_fail calls claim ret cache none = (failed, cache)
  keep_or_fail calls claim ret cache (some v) =
      keep_verdict calls.put_time claim verified_source v ret.embedding cache

  -- `resolvePoliticalClaimBatch`, given what the router returned
  unfoldable pub resolve_routed_batch :
      Calls F → String → Retrieved F → Cache → Option (List Evidence) → Resolved
  unfolding keep_or_fail verify_political_blocking
  resolve_routed_batch calls claim ret cache none = (failed, cache)
  resolve_routed_batch calls claim ret cache (some []) =
      keep_or_fail calls claim ret cache (some (political_no_evidence_verdict F))
  resolve_routed_batch calls claim ret cache (some (e ∷ es)) =
      keep_or_fail calls claim ret cache (verify_political_blocking calls (e ∷ es))

  unfoldable pub resolve_political_claim_batch : Calls F → String → Retrieved F → Cache → Resolved
  unfolding resolve_routed_batch
  resolve_political_claim_batch calls claim ret cache =
      resolve_routed_batch calls claim ret cache calls.route

  -- the verdict of the verifier after the second pass
  unfoldable pub reverified :
      Config F → Calls F → Retrieved F → Option (VerifiedVerdict F) → Option (VerifiedVerdict F)
  unfolding apply_reverify_batch
  reverified cfg calls ret none = none
  reverified cfg calls ret (some v) = some (apply_reverify_batch cfg calls v ret)

  unfoldable pub resolve_unless :
      Config F → Calls F → String → Retrieved F → Cache → Option (VerifiedVerdict F) → Resolved
  unfolding keep_verdict keep_or_fail resolve_political_claim_batch verify_claim_blocking reverified
  resolve_unless cfg calls claim ret cache (some v) =
      keep_verdict calls.put_time claim curated v ret.embedding cache
  resolve_unless cfg calls claim ret cache none =
      if is_political F cfg
      then resolve_political_claim_batch calls claim ret cache
      else keep_or_fail calls claim ret cache
          (reverified cfg calls ret (verify_claim_blocking calls ret.matches))

  unfoldable pub resolve_retrieved_batch :
      Config F → Calls F → String → Cache → Option (Retrieved F) → Resolved
  unfolding resolve_unless borrowed
  resolve_retrieved_batch cfg calls claim cache none = (failed, cache)
  resolve_retrieved_batch cfg calls claim cache (some ret) =
      resolve_unless cfg calls claim ret cache (borrowed F cfg calls ret)

  unfoldable pub resolve_found_batch :
      Config F → Calls F → String → Cache → Option (CacheEntry F) → Resolved
  unfolding resolve_retrieved_batch
  resolve_found_batch cfg calls claim cache none =
      resolve_retrieved_batch cfg calls claim cache calls.retrieve
  resolve_found_batch cfg calls claim cache (some e) = (verified e.source e.verdict, cache)

  unfoldable pub resolve_claim_batch : Config F → Calls F → AtomicClaim → Cache → Resolved
  unfolding resolve_found_batch
  resolve_claim_batch cfg calls claim cache =
      let (hit, cache') = cache_get F normalize calls.get_time claim.text cache in
      resolve_found_batch cfg calls claim.text cache' hit
