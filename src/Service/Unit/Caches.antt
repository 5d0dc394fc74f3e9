-- ===== src/Service/Unit/Caches.antt =====
-- Without the second pass, the live path and the batch path of
-- stack/backend/internal/service/verify_path.go leave the same claim cache.
use truth_in_stream.Prelude.{
  String, Bool, true, false, List, [], ◌∷◌, Option, none, some, ◌=?◌, ◌≡◌, ◌≢◌, refl, sym, ap, ◌∙◌,
  Bool-cases, inl, inr,
}
use truth_in_stream.Prelude.Floats.{Floats}
use truth_in_stream.Service.Verdicts.{
  VerdictSource, curated, verified_source, SegmentMatch, VerifiedVerdict, Evidence,
  political_no_evidence_verdict,
}
use truth_in_stream.Service.ClaimCache.{ClaimCache, CacheEntry, cache_get}
use truth_in_stream.Service.Events.{LiveEvent, World, send_event, verified}
use truth_in_stream.Service.Path.{
  Slot, acquired, saturated, canceled, Retrieved, Config, Calls, Job, Check, judged, shed, broken,
  result_of, emit, put_verdict, record_speaker_tally, is_political, detect_claim_consistency,
  publish, settle, second_look, replace_with, maybe_reverify, in_slot, run_verifier,
  run_political_verifier, verify_claim, verify_political, conclude, check_with, score_routed,
  score_political_claim, borrowed, score_unless, score_retrieved, score_found, score_claim,
}
use truth_in_stream.Service.Batch.{
  keep_verdict, keep_or_fail, reverified, apply_reverify_batch, blocking, verify_claim_blocking,
  verify_political_blocking, resolve_routed_batch, resolve_political_claim_batch, resolve_unless,
  resolve_retrieved_batch, resolve_found_batch, resolve_claim_batch,
}
use truth_in_stream.Service.Shown.{IsLive}
use truth_in_stream.Service.Steps.{QuietLaws, consistency_at-Quiet}

module _ (F : Floats) (normalize : String → String) where
  abbrev W : Type 0
  W = World F

  abbrev Cache : Type 0
  Cache = Option (ClaimCache F)

  pub cache-send : (e : LiveEvent F) (w : W) → (send_event F e w).1.cache ≡ w.cache
  unfolding send_event
  cache-send e w = elim (Bool-cases (w.sends w.asked)) [ inl t ↦ rw t refl | inr t ↦ rw t refl ]

  cache-tally :
      (j : Job) (v : VerifiedVerdict F) (w : W)
      → (record_speaker_tally F normalize j v w).cache ≡ w.cache
  unfolding record_speaker_tally
  cache-tally j v w = elim (Bool-cases (j.speaker =? "")) [
    | inl t ↦ rw t refl
    | inr t ↦ rw t (cache-send _ _)
  ]

  quiet : (j : Job) → QuietLaws F normalize j
  quiet j = record {
    Quiet = λ u v. v.cache ≡ u.cache;
    same = λ w. refl;
    then_quiet = λ u v w p q. q ∙ p;
    notes = λ flag w. cache-send _ w;
    learns = λ p w. refl;
  }

  cache-publish :
      (cfg : Config F) (calls : Calls F) (j : Job) (source : VerdictSource) (v : VerifiedVerdict F)
      (embedding : List F.Float) (w : W)
      → (publish F normalize cfg calls j source v embedding w).cache ≡ w.cache
  unfolding publish detect_claim_consistency quiet
  cache-publish cfg calls j source v embedding w =
      let shown = emit F normalize (result_of F normalize j (verified source v)) w in
      let counted = record_speaker_tally F normalize j v shown in
      consistency_at-Quiet F normalize j (quiet j) cfg.stance calls.contradicts embedding counted
      ∙ cache-tally j v shown
      ∙ cache-send _ w

  cache-settle :
      (cfg : Config F) (calls : Calls F) (j : Job) (source : VerdictSource) (v : VerifiedVerdict F)
      (embedding : List F.Float) (w : W)
      → (settle F normalize cfg calls j source v embedding w).cache
        ≡ (keep_verdict F normalize calls.put_time j.claim.text source v embedding w.cache).1
  unfolding settle put_verdict keep_verdict
  cache-settle cfg calls j source v embedding w =
      cache-publish cfg calls j source v embedding
        (put_verdict F normalize calls.put_time j source v embedding w)

  -- The cache that a check leaves without the second pass.
  abbrev checked : Calls F → String → Retrieved F → Cache → Check F → Cache
  checked calls claim ret cache (judged v) =
      (keep_verdict F normalize calls.put_time claim verified_source v ret.embedding cache).1
  checked calls claim ret cache shed = cache
  checked calls claim ret cache broken = cache

  module _ (cfg : Config F) (once : cfg.second_pass ≡ none) where
    cache-conclude :
        (calls : Calls F) (j : Job) (ret : Retrieved F) (second : Bool) (c : Check F) (w : W)
        → (conclude F normalize cfg calls j ret second c w).cache
          ≡ checked calls j.claim.text ret w.cache c
    unfolding conclude maybe_reverify replace_with second_look
    cache-conclude calls j ret true (judged v) w =
        rw once (cache-settle cfg calls j verified_source v ret.embedding w)
    cache-conclude calls j ret false (judged v) w =
        cache-settle cfg calls j verified_source v ret.embedding w
    cache-conclude calls j ret second shed w = cache-send _ w
    cache-conclude calls j ret second broken w = cache-send _ w

    cache-check_with :
        (calls : Calls F) (j : Job) (ret : Retrieved F) (second : Bool) (c : Check F) (w : W)
        → IsLive F normalize w
        → (check_with F normalize cfg calls j ret second c w).cache
          ≡ checked calls j.claim.text ret w.cache c
    unfolding check_with send_event
    cache-check_with calls j ret second c w live =
        rw (live w.asked) (cache-conclude calls j ret second c _)

    once_only :
        (calls : Calls F) (ret : Retrieved F) (o : Option (VerifiedVerdict F))
        → reverified F normalize cfg calls ret o ≡ o
    unfolding reverified apply_reverify_batch second_look
    once_only calls ret none = refl
    once_only calls ret (some v) = rw once refl

    checked-in_slot :
        (calls : Calls F) (claim : String) (ret : Retrieved F) (slot : Slot)
        (o : Option (VerifiedVerdict F)) (cache : Cache)
        → slot ≢ saturated
        → checked calls claim ret cache (in_slot F slot o)
          ≡ (keep_or_fail F normalize calls claim ret cache (blocking F normalize slot o)).1
    unfolding keep_or_fail
    checked-in_slot calls claim ret saturated o cache h = absurd (h refl)
    checked-in_slot calls claim ret acquired none cache h = refl
    checked-in_slot calls claim ret acquired (some v) cache h = refl
    checked-in_slot calls claim ret canceled o cache h = refl

    cache-routed :
        (calls : Calls F) (j : Job) (ret : Retrieved F) (w : W) (o : Option (List Evidence))
        → IsLive F normalize w
        → calls.slot ≢ saturated
        → (score_routed F normalize cfg calls j ret w o).cache
          ≡ (resolve_routed_batch F normalize calls j.claim.text ret w.cache o).1
    unfolding score_routed resolve_routed_batch
    cache-routed calls j ret w none live h = cache-send _ w
    cache-routed calls j ret w (some []) live h =
        cache-check_with calls j ret false (judged (political_no_evidence_verdict F)) w live
        ∙ unfold keep_or_fail in refl
    cache-routed calls j ret w (some (e ∷ es)) live h =
        cache-check_with calls j ret false (verify_political F calls (e ∷ es)) w live
        ∙ unfold verify_political verify_political_blocking in
          checked-in_slot calls j.claim.text ret calls.slot
            (run_political_verifier F calls (e ∷ es)) w.cache h

    checked-verify :
        (calls : Calls F) (claim : String) (ret : Retrieved F) (ms : List (SegmentMatch F))
        (cache : Cache)
        → calls.slot ≢ saturated
        → checked calls claim ret cache (verify_claim F calls ms)
          ≡ (keep_or_fail F normalize calls claim ret cache
              (verify_claim_blocking F normalize calls ms)).1
    unfolding verify_claim verify_claim_blocking
    checked-verify calls claim ret [] cache h = unfold keep_or_fail in refl
    checked-verify calls claim ret (m ∷ ms) cache h =
        checked-in_slot calls claim ret calls.slot (run_verifier F calls (m ∷ ms)) cache h

    cache-unless :
        (calls : Calls F) (j : Job) (ret : Retrieved F) (w : W) (o : Option (VerifiedVerdict F))
        → IsLive F normalize w
        → calls.slot ≢ saturated
        → (score_unless F normalize cfg calls j ret w o).cache
          ≡ (resolve_unless F normalize cfg calls j.claim.text ret w.cache o).1
    unfolding score_unless resolve_unless score_political_claim resolve_political_claim_batch
    cache-unless calls j ret w (some v) live h = cache-settle cfg calls j curated v ret.embedding w
    cache-unless calls j ret w none live h = elim (Bool-cases (is_political F cfg)) [
      | inl p ↦ rw p (cache-routed calls j ret w calls.route live h)
      | inr p ↦ rw p (
          cache-check_with calls j ret true (verify_claim F calls ret.matches) w live
          ∙ checked-verify calls j.claim.text ret ret.matches w.cache h
          ∙ ap (λ o. (keep_or_fail F normalize calls j.claim.text ret w.cache o).1)
              (sym (once_only calls ret (verify_claim_blocking F normalize calls ret.matches))))
    ]

    cache-retrieved :
        (calls : Calls F) (j : Job) (w : W) (o : Option (Retrieved F))
        → IsLive F normalize w
        → calls.slot ≢ saturated
        → (score_retrieved F normalize cfg calls j w o).cache
          ≡ (resolve_retrieved_batch F normalize cfg calls j.claim.text w.cache o).1
    unfolding score_retrieved resolve_retrieved_batch
    cache-retrieved calls j w none live h = cache-send _ w
    cache-retrieved calls j w (some ret) live h =
        cache-unless calls j ret w (borrowed F cfg calls ret) live h

    cache-found :
        (calls : Calls F) (j : Job) (w : W) (o : Option (CacheEntry F))
        → IsLive F normalize w
        → calls.slot ≢ saturated
        → (score_found F normalize cfg calls j w o).cache
          ≡ (resolve_found_batch F normalize cfg calls j.claim.text w.cache o).1
    unfolding score_found resolve_found_batch
    cache-found calls j w none live h = cache-retrieved calls j w calls.retrieve live h
    cache-found calls j w (some e) live h =
        cache-publish cfg calls j e.source e.verdict e.embedding w

    pub cache-score_claim :
        (calls : Calls F) (j : Job) (w : W)
        → IsLive F normalize w
        → calls.slot ≢ saturated
        → (score_claim F normalize cfg calls j w).cache
          ≡ (resolve_claim_batch F normalize cfg calls j.claim w.cache).1
    unfolding score_claim resolve_claim_batch
    cache-score_claim calls j w live h =
        let (hit, cache) = cache_get F normalize calls.get_time j.claim.text w.cache in
        cache-found calls j (record w { cache = cache }) hit live h
