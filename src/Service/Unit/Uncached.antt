-- ===== src/Service/Unit/Uncached.antt =====
-- With the claim cache of stack/backend/internal/service/verify_path.go switched off, none is made.
use truth_in_stream.Prelude.{
  String, List, [], ◌∷◌, Option, none, some, ◌=?◌, ◌≡◌, refl, ◌∙◌, Bool-cases, inl, inr,
}
use truth_in_stream.Prelude.Floats.{Floats}
use truth_in_stream.Service.Verdicts.{
  AtomicClaim, VerifiedVerdict, Evidence, political_no_evidence_verdict,
}
use truth_in_stream.Service.ClaimCache.{cache_get, cache_put}
use truth_in_stream.Service.Events.{LiveEvent, World, send_event}
use truth_in_stream.Service.Path.{
  Retrieved, Config, Calls, Job, is_political, borrowed, record_speaker_tally, score_claim,
}
use truth_in_stream.Service.Batch.{
  keep_verdict, keep_or_fail, reverified, verify_claim_blocking, verify_political_blocking,
  resolve_routed_batch, resolve_political_claim_batch, resolve_unless, resolve_retrieved_batch,
  resolve_found_batch, resolve_claim_batch,
}
use truth_in_stream.Service.Steps.{Laws, score_claim-Counted}

module _ (F : Floats) (normalize : String → String) where
  abbrev W : Type 0
  W = World F

  -- No cache comes of none, and the reader goes on as before.
  abbrev pub Uncached : W → W → Type 0
  Uncached w w' = (w.cache ≡ none → w'.cache ≡ none) × (w'.sends ≡ w.sends)

  pub send-Uncached : (e : LiveEvent F) (w : W) → Uncached w (send_event F e w).1
  unfolding send_event
  send-Uncached e w = elim (Bool-cases (w.sends w.asked)) [
    | inl t ↦ rw t (λ h. h, refl)
    | inr t ↦ rw t (λ h. h, refl)
  ]

  record_speaker_tally-Uncached :
      (j : Job) (v : VerifiedVerdict F) (w : W)
      → Uncached w (record_speaker_tally F normalize j v w)
  unfolding record_speaker_tally
  record_speaker_tally-Uncached j v w = elim (Bool-cases (j.speaker =? "")) [
    | inl t ↦ rw t (λ h. h, refl)
    | inr t ↦ rw t (send-Uncached _ _)
  ]

  Uncached-trans : (u v w : W) → Uncached u v → Uncached v w → Uncached u w
  Uncached-trans u v w p q = (λ h. q.0 (p.0 h), q.1 ∙ p.1)

  uncached : (j : Job) → Laws F normalize j
  unfolding cache_get cache_put
  uncached j = record {
    quiet = record {
      Quiet = Uncached;
      same = λ w. (λ h. h, refl);
      then_quiet = Uncached-trans;
      notes = λ flag w. send-Uncached _ w;
      learns = λ p w. (λ h. h, refl);
    };
    Counted = Uncached;
    weaken = λ u v q. q;
    before = Uncached-trans;
    after = Uncached-trans;
    results = λ o w. send-Uncached _ w;
    gets = λ now w. (λ h. rw h refl, refl);
    puts = λ now e w. (λ h. rw h refl, refl);
    counts = record_speaker_tally-Uncached j;
  }

  pub score_claim-Uncached :
      (cfg : Config F) (calls : Calls F) (j : Job) (w : W)
      → Uncached w (score_claim F normalize cfg calls j w)
  unfolding uncached
  score_claim-Uncached cfg calls j w = score_claim-Counted F normalize j (uncached j) cfg calls w

  -- Nor does the batch path make a cache.
  keep_or_fail-none :
      (calls : Calls F) (claim : String) (ret : Retrieved F) (o : Option (VerifiedVerdict F))
      → (keep_or_fail F normalize calls claim ret none o).1 ≡ none
  unfolding keep_or_fail keep_verdict cache_put
  keep_or_fail-none calls claim ret none = refl
  keep_or_fail-none calls claim ret (some v) = refl

  resolve_routed_batch-none :
      (calls : Calls F) (claim : String) (ret : Retrieved F) (o : Option (List Evidence))
      → (resolve_routed_batch F normalize calls claim ret none o).1 ≡ none
  unfolding resolve_routed_batch
  resolve_routed_batch-none calls claim ret none = refl
  resolve_routed_batch-none calls claim ret (some []) =
      keep_or_fail-none calls claim ret (some (political_no_evidence_verdict F))
  resolve_routed_batch-none calls claim ret (some (e ∷ es)) =
      keep_or_fail-none calls claim ret (verify_political_blocking F normalize calls (e ∷ es))

  resolve_unless-none :
      (cfg : Config F) (calls : Calls F) (claim : String) (ret : Retrieved F)
      (o : Option (VerifiedVerdict F))
      → (resolve_unless F normalize cfg calls claim ret none o).1 ≡ none
  unfolding resolve_unless keep_verdict cache_put resolve_political_claim_batch
  resolve_unless-none cfg calls claim ret (some v) = refl
  resolve_unless-none cfg calls claim ret none = elim (Bool-cases (is_political F cfg)) [
    | inl p ↦ rw p (resolve_routed_batch-none calls claim ret calls.route)
    | inr p ↦ rw p (
        keep_or_fail-none calls claim ret (
          reverified F normalize cfg calls ret
            (verify_claim_blocking F normalize calls ret.matches)))
  ]

  resolve_retrieved_batch-none :
      (cfg : Config F) (calls : Calls F) (claim : String) (o : Option (Retrieved F))
      → (resolve_retrieved_batch F normalize cfg calls claim none o).1 ≡ none
  unfolding resolve_retrieved_batch
  resolve_retrieved_batch-none cfg calls claim none = refl
  resolve_retrieved_batch-none cfg calls claim (some ret) =
      resolve_unless-none cfg calls claim ret (borrowed F cfg calls ret)

  pub resolve_claim_batch-none :
      (cfg : Config F) (calls : Calls F) (claim : AtomicClaim)
      → (resolve_claim_batch F normalize cfg calls claim none).1 ≡ none
  unfolding resolve_claim_batch resolve_found_batch cache_get
  resolve_claim_batch-none cfg calls claim =
      resolve_retrieved_batch-none cfg calls claim.text calls.retrieve
