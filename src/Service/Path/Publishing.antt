-- ===== src/Service/Path/Publishing.antt =====
-- How a verdict leaves the verify path of stack/backend/internal/service: the cache entry, the event,
-- the tally and the consistency check (verify_path.go and `detectClaimConsistency` of live.go).
use truth_in_stream.Prelude.{
  ℕ, String, Bool, true, false, ◌||◌, List, [], ◌∷◌, Option, none, some, ◌=?◌, ◌==◌, if◌then◌else◌,
  ltb, length,
}
use truth_in_stream.Prelude.Floats.{Floats}
use truth_in_stream.Service.Verdicts.{VerdictSource, VerifiedVerdict}
use truth_in_stream.Service.Memory.{
  PriorStatement, observe_verdict, prior, remember, rank_by_similarity,
}
use truth_in_stream.Service.ClaimCache.{cache_put}
use truth_in_stream.Service.Events.{
  ClaimOutcome, LiveEvent, verified, claim_result, consistency, speaker_tally, World, send_event,
}
use truth_in_stream.Service.Path.Given.{Job, Config, Calls}

module _ (F : Floats) (normalize : String → String) where
  open F use {Float, lt, f1, sub}

  abbrev W : Type 0
  W = World F

  abbrev pub result_of : Job → ClaimOutcome F → LiveEvent F
  result_of j o = claim_result j.unit_id j.segment j.claim.claim_id o

  -- `sendEvent` where the caller ignores the answer
  abbrev pub emit : LiveEvent F → W → W
  emit e w = (send_event F e w).1

  unfoldable pub put_verdict : ℕ → Job → VerdictSource → VerifiedVerdict F → List Float → W → W
  put_verdict now j source v embedding w = record w {
    cache =
        cache_put F normalize now j.claim.text
          (record { source = source; verdict = v; embedding = embedding; expires = 0 }) w.cache;
  }

  unfoldable pub record_speaker_tally : Job → VerifiedVerdict F → W → W
  record_speaker_tally j v w =
      if j.speaker =? ""
      then w
      else let (tally, memory) =
          observe_verdict F j.speaker v.verdict (ltb 0 (length v.flags)) w.memory in
        emit (speaker_tally tally) (record w { memory = memory })

  -- one round of the loop of `detectClaimConsistency`, given the stance check's answer and what
  -- the later rounds do; the flag says whether the claim is to be remembered
  unfoldable pub stance_round :
      Job → PriorStatement F → Bool × W → W → Option (Bool × String) → Bool × W
  stance_round j p rest w none = rest
  stance_round j p rest w (some (false, why)) = rest
  stance_round j p rest w (some (true, why)) =
      send_event F
        (consistency j.claim.claim_id j.segment (record {
          earlier_id = p.id;
          earlier_text = p.text;
          speaker = j.speaker;
          rationale = why;
        }))
        w

  -- the loop over the ranked statements
  unfoldable pub detect :
      (String → Option (Bool × String)) → Job → List (PriorStatement F) → W → Bool × W
  unfolding stance_round
  detect contradicts j [] w = (true, w)
  detect contradicts j (p ∷ ps) w =
      stance_round j p (detect contradicts j ps w) w (contradicts p.text)

  unfoldable pub remember_if : Job → List Float → Bool × W → W
  remember_if j embedding (false, w) = w
  remember_if j embedding (true, w) = record w {
    memory =
        remember F j.speaker
          (record { id = j.claim.claim_id; text = j.claim.text; embedding = embedding }) w.memory;
  }

  unfoldable pub consistency_at :
      Option (Float × ℕ) → (String → Option (Bool × String)) → Job → List Float → W → W
  unfolding detect remember_if
  consistency_at none contradicts j embedding w = w
  consistency_at (some (floor, top_k)) contradicts j embedding w =
      if (j.speaker =? "") || length embedding == 0
      then w
      else let ranked = rank_by_similarity F embedding (prior F j.speaker w.memory) floor top_k in
        remember_if j embedding (detect contradicts j ranked w)

  unfoldable pub detect_claim_consistency : Config F → Calls F → Job → List Float → W → W
  unfolding consistency_at
  detect_claim_consistency cfg calls j embedding w =
      consistency_at cfg.stance calls.contradicts j embedding w

  -- the tail that every verdict shares: emit it, count it, check it against the speaker's past
  unfoldable pub publish :
      Config F → Calls F → Job → VerdictSource → VerifiedVerdict F → List Float → W → W
  unfolding record_speaker_tally detect_claim_consistency
  publish cfg calls j source v embedding w =
      detect_claim_consistency cfg calls j embedding
        (record_speaker_tally j v (emit (result_of j (verified source v)) w))

  unfoldable pub settle :
      Config F → Calls F → Job → VerdictSource → VerifiedVerdict F → List Float → W → W
  unfolding put_verdict publish
  settle cfg calls j source v embedding w =
      publish cfg calls j source v embedding (put_verdict calls.put_time j source v embedding w)
