-- ===== src/Service/Shown.antt =====
-- What the live path of stack/backend/internal/service shows for a claim: its last result event,
-- statement by statement.
pub mod Ends
use truth_in_stream.Prelude.{
  ℕ, String, Bool, true, false, List, [], ◌∷◌, ◌++◌, Option, none, some, if◌then◌else◌, ◌=?◌,
  length, =?_refl, ◌≡◌, refl, ◌∙◌, ap, get_or, Bool-cases, inl, inr, ltb,
}
use truth_in_stream.Prelude.Floats.{Floats}
use truth_in_stream.Service.Verdicts.{verified_source, VerdictSource, VerifiedVerdict}
use truth_in_stream.Service.Memory.{observe_verdict}
use truth_in_stream.Service.Events.{
  ClaimOutcome, LiveEvent, checking, verified, unchecked, failed, interim, subtitle, claims,
  skipped, unit_failed, matched, claim_result, consistency, speaker_tally, World, send_event,
}
use truth_in_stream.Service.Path.{
  Retrieved, Config, Calls, Job, result_of, emit, put_verdict, record_speaker_tally, consistency_at,
  second_look, replace_with, detect_claim_consistency, publish, settle, Check, judged, shed, broken,
  maybe_reverify, conclude, check_with, score_claim,
}
use truth_in_stream.Service.Steps.{QuietLaws, Laws, consistency_at-Quiet, score_claim-Counted}

module _ (F : Floats) where
  -- The outcome that the last result event of the channel shows for a claim, by its id.
  abbrev last_from : String → Option (ClaimOutcome F) → List (LiveEvent F) → Option (ClaimOutcome F)
  last_from id o [] = o
  last_from id o (claim_result _ _ claim_id r ∷ es) =
      last_from id (if claim_id =? id then some r else o) es
  last_from id o (_ ∷ es) = last_from id o es

  last_from-append :
      (id : String) (o : Option (ClaimOutcome F)) (es fs : List (LiveEvent F))
      → last_from id o (es ++ fs) ≡ last_from id (last_from id o es) fs
  last_from-append id o [] fs = refl
  last_from-append id o (claim_result _ _ claim_id r ∷ es) fs =
      last_from-append id (if claim_id =? id then some r else o) es fs
  last_from-append id o (_ ∷ es) fs = last_from-append id o es fs

module _ (F : Floats) (normalize : String → String) where
  abbrev pub W : Type 0
  W = World F

  abbrev pub shown : String → W → Option (ClaimOutcome F)
  shown id w = last_from F id none w.out

  -- The context is never canceled.
  abbrev pub IsLive : W → Type 0
  IsLive w = (n : ℕ) → w.sends n ≡ true

  -- What is shown for a claim is the same, and so is what the reader takes.
  abbrev pub Same : String → W → W → Type 0
  Same id w w' = (shown id w' ≡ shown id w) × (w'.sends ≡ w.sends)

  -- An event that is no result of this claim.
  abbrev pub IsOther : String → LiveEvent F → Type 0
  IsOther id (claim_result _ _ claim_id r) = (claim_id =? id) ≡ false
  IsOther id _ = Unit

  last_from-other :
      (id : String) (o : Option (ClaimOutcome F)) (e : LiveEvent F)
      → IsOther id e
      → last_from F id o (e ∷ []) ≡ o
  last_from-other id o (interim _) h = refl
  last_from-other id o (subtitle _ _) h = refl
  last_from-other id o (claims _ _ _) h = refl
  last_from-other id o (skipped _ _ _) h = refl
  last_from-other id o (unit_failed _ _) h = refl
  last_from-other id o (matched _ _ _ _ _) h = refl
  last_from-other id o (claim_result _ _ claim_id r) h = rw h refl
  last_from-other id o (consistency _ _ _) h = refl
  last_from-other id o (speaker_tally _) h = refl

  pub send-Same :
      (id : String) (e : LiveEvent F) (w : W) → IsOther id e → Same id w (send_event F e w).1
  unfolding send_event
  send-Same id e w other = elim (Bool-cases (w.sends w.asked)) [
    | inl h ↦
        rw h (
          last_from-append F id none w.out (e ∷ []) ∙ last_from-other id (shown id w) e other,
          refl,
        )
    | inr h ↦ rw h (refl, refl)
  ]

  pub send-shown :
      (j : Job) (o : ClaimOutcome F) (w : W)
      → IsLive w
      → ((send_event F (result_of F normalize j o) w).0 ≡ true)
        × (shown j.claim.claim_id (send_event F (result_of F normalize j o) w).1 ≡ some o)
        × ((send_event F (result_of F normalize j o) w).1.sends ≡ w.sends)
  unfolding send_event
  send-shown j o w live = rw (live w.asked) (
    refl,
    last_from-append F j.claim.claim_id none w.out _
        ∙ ap (λ b. if b then some o else shown j.claim.claim_id w) (=?_refl j.claim.claim_id),
    refl,
  )

  pub Same-trans : (id : String) (u v w : W) → Same id u v → Same id v w → Same id u w
  Same-trans id u v w p q = (q.0 ∙ p.0, q.1 ∙ p.1)

  pub record_speaker_tally-Same :
      (id : String) (j : Job) (v : VerifiedVerdict F) (w : W)
      → Same id w (record_speaker_tally F normalize j v w)
  unfolding record_speaker_tally
  record_speaker_tally-Same id j v w = elim (Bool-cases (j.speaker =? "")) [
    | inl h ↦ rw h (refl, refl)
    | inr h ↦
        let (t, m) = observe_verdict F j.speaker v.verdict (ltb 0 (length v.flags)) w.memory in
        rw h (send-Same id (speaker_tally t) (record w { memory = m }) tt)
  ]

  -- The steps that send no result leave what is shown of every claim.
  pub unresulted : (id : String) (j : Job) → QuietLaws F normalize j
  unresulted id j = record {
    Quiet = Same id;
    same = λ w. (refl, refl);
    then_quiet = Same-trans id;
    notes = λ flag w. send-Same id _ w tt;
    learns = λ p w. (refl, refl);
  }

  -- The scoring of a claim leaves what is shown of another one.
  elsewhere : (id : String) (j : Job) → (j.claim.claim_id =? id) ≡ false → Laws F normalize j
  unfolding unresulted
  elsewhere id j other = record {
    quiet = unresulted id j;
    Counted = Same id;
    weaken = λ u v q. q;
    before = Same-trans id;
    after = Same-trans id;
    results = λ o w. send-Same id (result_of F normalize j o) w other;
    gets = λ now w. (refl, refl);
    puts = λ now e w. (refl, refl);
    counts = λ v w. record_speaker_tally-Same id j v w;
  }

  pub score_claim-Same :
      (id : String) (cfg : Config F) (calls : Calls F) (j : Job) (w : W)
      → (j.claim.claim_id =? id) ≡ false
      → Same id w (score_claim F normalize cfg calls j w)
  unfolding elsewhere
  score_claim-Same id cfg calls j w other =
      score_claim-Counted F normalize j (elsewhere id j other) cfg calls w
