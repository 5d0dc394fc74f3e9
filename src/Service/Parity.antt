-- ===== src/Service/Parity.antt =====
-- The live path and the batch path of stack/backend/internal/service agree on a claim.
use truth_in_stream.Prelude.{
  String, Bool, true, false, List, [], ◌∷◌, Option, none, some, if◌then◌else◌, ◌≡◌, ◌≢◌, refl, ◌∙◌,
  ap, Bool-cases, inl, inr,
}
use truth_in_stream.Prelude.Floats.{Floats}
use truth_in_stream.Service.Verdicts.{
  curated, VerifiedVerdict, SegmentMatch, Evidence, political_no_evidence_verdict, no_match_verdict,
}
use truth_in_stream.Service.ClaimCache.{ClaimCache, CacheEntry, cache_get}
use truth_in_stream.Service.Events.{failed}
use truth_in_stream.Service.Path.{
  Slot, acquired, saturated, canceled, Retrieved, Config, Calls, Job, is_political, score_routed,
  borrowed, score_unless, score_found, in_slot, run_verifier, run_political_verifier, judged,
  verify_claim, verify_political, score_political_claim, score_retrieved, score_claim,
}
use truth_in_stream.Service.Batch.{
  verify_claim_blocking, verify_political_blocking, apply_reverify_batch,
  resolve_political_claim_batch, resolve_routed_batch, resolve_unless, resolve_retrieved_batch,
  resolve_found_batch, resolve_claim_batch, keep_verdict, keep_or_fail, reverified, blocking,
}
use truth_in_stream.Service.Shown.{W, shown, IsLive}
use truth_in_stream.Service.Shown.Ends.{
  publish-shown, settle-shown, emit-shown, ends_in, check_with-shown,
}

module _ (F : Floats) (normalize : String → String) where
  -- What the batch call returns for a checked claim.
  batch_check :
      (cfg : Config F) (calls : Calls F) (claim : String) (ret : Retrieved F) (second : Bool)
      (slot : Slot) (o : Option (VerifiedVerdict F)) (cache : Option (ClaimCache F))
      → slot ≢ saturated
      → ends_in F normalize cfg calls ret second (in_slot F slot o)
        ≡ (keep_or_fail F normalize calls claim ret cache (
            if second
            then reverified F normalize cfg calls ret (blocking F normalize slot o)
            else blocking F normalize slot o)).0
  unfolding keep_or_fail keep_verdict reverified apply_reverify_batch
  batch_check cfg calls claim ret second saturated o cache h = absurd (h refl)
  batch_check cfg calls claim ret true acquired none cache h = refl
  batch_check cfg calls claim ret false acquired none cache h = refl
  batch_check cfg calls claim ret true acquired (some v) cache h = refl
  batch_check cfg calls claim ret false acquired (some v) cache h = refl
  batch_check cfg calls claim ret true canceled o cache h = refl
  batch_check cfg calls claim ret false canceled o cache h = refl

  routed-agrees :
      (cfg : Config F) (calls : Calls F) (j : Job) (ret : Retrieved F) (w : W F normalize)
      (o : Option (List Evidence))
      → IsLive F normalize w
      → calls.slot ≢ saturated
      → shown F normalize j.claim.claim_id (score_routed F normalize cfg calls j ret w o)
        ≡ some (resolve_routed_batch F normalize calls j.claim.text ret w.cache o).0
  unfolding score_routed resolve_routed_batch
  routed-agrees cfg calls j ret w none live h = emit-shown F normalize j failed w live
  routed-agrees cfg calls j ret w (some []) live h =
      check_with-shown F normalize cfg calls j ret false (judged (political_no_evidence_verdict F))
        w live
      ∙ ap some (
          batch_check cfg calls j.claim.text ret false acquired
            (some (political_no_evidence_verdict F)) w.cache (λ e. cc))
  routed-agrees cfg calls j ret w (some (e ∷ es)) live h =
      check_with-shown F normalize cfg calls j ret false (verify_political F calls (e ∷ es)) w live
      ∙ ap some (
          unfold verify_political verify_political_blocking in
          batch_check cfg calls j.claim.text ret false calls.slot
            (run_political_verifier F calls (e ∷ es)) w.cache h)

  verify-agrees :
      (cfg : Config F) (calls : Calls F) (claim : String) (ret : Retrieved F)
      (ms : List (SegmentMatch F)) (cache : Option (ClaimCache F))
      → calls.slot ≢ saturated
      → ends_in F normalize cfg calls ret true (verify_claim F calls ms)
        ≡ (keep_or_fail F normalize calls claim ret cache
            (reverified F normalize cfg calls ret (verify_claim_blocking F normalize calls ms))).0
  unfolding verify_claim verify_claim_blocking
  verify-agrees cfg calls claim ret [] cache h =
      batch_check cfg calls claim ret true acquired (some (no_match_verdict F)) cache (λ e. cc)
  verify-agrees cfg calls claim ret (m ∷ ms) cache h =
      batch_check cfg calls claim ret true calls.slot (run_verifier F calls (m ∷ ms)) cache h

  unless-agrees :
      (cfg : Config F) (calls : Calls F) (j : Job) (ret : Retrieved F) (w : W F normalize)
      (o : Option (VerifiedVerdict F))
      → IsLive F normalize w
      → calls.slot ≢ saturated
      → shown F normalize j.claim.claim_id (score_unless F normalize cfg calls j ret w o)
        ≡ some (resolve_unless F normalize cfg calls j.claim.text ret w.cache o).0
  unfolding score_unless resolve_unless score_political_claim resolve_political_claim_batch
  unless-agrees cfg calls j ret w (some v) live h =
      (settle-shown F normalize cfg calls j curated v ret.embedding w live).0
      ∙ unfold keep_verdict in refl
  unless-agrees cfg calls j ret w none live h = elim (Bool-cases (is_political F cfg)) [
    | inl p ↦ rw p (routed-agrees cfg calls j ret w calls.route live h)
    | inr p ↦ rw p (
        check_with-shown F normalize cfg calls j ret true (verify_claim F calls ret.matches) w live
        ∙ ap some (verify-agrees cfg calls j.claim.text ret ret.matches w.cache h))
  ]

  retrieved-agrees :
      (cfg : Config F) (calls : Calls F) (j : Job) (w : W F normalize) (o : Option (Retrieved F))
      → IsLive F normalize w
      → calls.slot ≢ saturated
      → shown F normalize j.claim.claim_id (score_retrieved F normalize cfg calls j w o)
        ≡ some (resolve_retrieved_batch F normalize cfg calls j.claim.text w.cache o).0
  unfolding score_retrieved resolve_retrieved_batch
  retrieved-agrees cfg calls j w none live h = emit-shown F normalize j failed w live
  retrieved-agrees cfg calls j w (some ret) live h =
      unless-agrees cfg calls j ret w (borrowed F cfg calls ret) live h

  found-agrees :
      (cfg : Config F) (calls : Calls F) (j : Job) (w : W F normalize) (o : Option (CacheEntry F))
      → IsLive F normalize w
      → calls.slot ≢ saturated
      → shown F normalize j.claim.claim_id (score_found F normalize cfg calls j w o)
        ≡ some (resolve_found_batch F normalize cfg calls j.claim.text w.cache o).0
  unfolding score_found resolve_found_batch
  found-agrees cfg calls j w none live h = retrieved-agrees cfg calls j w calls.retrieve live h
  found-agrees cfg calls j w (some e) live h =
      (publish-shown F normalize cfg calls j e.source e.verdict e.embedding w live).0

  -- On a live connection, and where the verify pool does not shed the claim, the last result that
  -- the live path sends for a claim is what the batch path returns for it on the same calls and
  -- the same cache: the same verdict from the same source, second pass included, or a failure.
  pub score_claim-resolve_claim_batch :
      (cfg : Config F) (calls : Calls F) (j : Job) (w : W F normalize)
      → IsLive F normalize w
      → calls.slot ≢ saturated
      → shown F normalize j.claim.claim_id (score_claim F normalize cfg calls j w)
        ≡ some (resolve_claim_batch F normalize cfg calls j.claim w.cache).0
  unfolding score_claim resolve_claim_batch
  score_claim-resolve_claim_batch cfg calls j w live h =
      let (hit, cache) = cache_get F normalize calls.get_time j.claim.text w.cache in
      found-agrees cfg calls j (record w { cache = cache }) hit live h
