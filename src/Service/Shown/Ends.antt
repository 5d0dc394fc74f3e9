-- ===== src/Service/Shown/Ends.antt =====
-- What the verify path of stack/backend/internal/service shows of a claim once its verdict is out.
use truth_in_stream.Prelude.{
  ℕ, String, Bool, true, false, List, Option, none, some, if◌then◌else◌, ◌≡◌, ◌∙◌, ap, get_or,
}
use truth_in_stream.Prelude.Floats.{Floats}
use truth_in_stream.Service.Verdicts.{verified_source, VerdictSource, VerifiedVerdict}
use truth_in_stream.Service.Events.{ClaimOutcome, checking, verified, unchecked, failed, World}
use truth_in_stream.Service.Path.{
  Retrieved, Config, Calls, Job, result_of, emit, put_verdict, record_speaker_tally, consistency_at,
  second_look, replace_with, detect_claim_consistency, publish, settle, Check, judged, shed, broken,
  maybe_reverify, conclude, check_with,
}
use truth_in_stream.Service.Steps.{consistency_at-Quiet}
use truth_in_stream.Service.Shown.{
  shown, IsLive, send-shown, Same-trans, record_speaker_tally-Same, unresulted,
}

module _ (F : Floats) (normalize : String → String) where
  abbrev W : Type 0
  W = World F

  -- A published verdict is what is shown.
  pub publish-shown :
      (cfg : Config F) (calls : Calls F) (j : Job) (source : VerdictSource) (v : VerifiedVerdict F)
      (embedding : List F.Float) (w : W)
      → IsLive F normalize w
      → let w' = publish F normalize cfg calls j source v embedding w in
        (shown F normalize j.claim.claim_id w' ≡ some (verified source v)) × (w'.sends ≡ w.sends)
  unfolding publish detect_claim_consistency unresulted
  publish-shown cfg calls j source v embedding w live =
      let (_, there, kept) = send-shown F normalize j (verified source v) w live in
      let w₁ = emit F normalize (result_of F normalize j (verified source v)) w in
      let w₂ = record_speaker_tally F normalize j v w₁ in
      let (same, sends) =
        Same-trans F normalize j.claim.claim_id w₁ w₂
          (consistency_at F normalize cfg.stance calls.contradicts j embedding w₂)
          (record_speaker_tally-Same F normalize j.claim.claim_id j v w₁)
          (consistency_at-Quiet F normalize j (unresulted F normalize j.claim.claim_id j) cfg.stance
            calls.contradicts embedding w₂) in
      (same ∙ there, sends ∙ kept)

  pub settle-shown :
      (cfg : Config F) (calls : Calls F) (j : Job) (source : VerdictSource) (v : VerifiedVerdict F)
      (embedding : List F.Float) (w : W)
      → IsLive F normalize w
      → let w' = settle F normalize cfg calls j source v embedding w in
        (shown F normalize j.claim.claim_id w' ≡ some (verified source v)) × (w'.sends ≡ w.sends)
  unfolding settle put_verdict
  settle-shown cfg calls j source v embedding w live =
      publish-shown cfg calls j source v embedding
        (put_verdict F normalize calls.put_time j source v embedding w) live

  replace_with-shown :
      (calls : Calls F) (j : Job) (ret : Retrieved F) (w : W) (v : VerifiedVerdict F)
      (o : Option (VerifiedVerdict F))
      → IsLive F normalize w
      → shown F normalize j.claim.claim_id w ≡ some (verified verified_source v)
      → shown F normalize j.claim.claim_id (replace_with F normalize calls j ret w o)
        ≡ some (verified verified_source (get_or o v))
  unfolding replace_with put_verdict
  replace_with-shown calls j ret w v none live h = h
  replace_with-shown calls j ret w v (some u) live h =
      (send-shown F normalize j (verified verified_source u)
        (put_verdict F normalize calls.reput_time j verified_source u ret.embedding w) live).1

  pub emit-shown :
      (j : Job) (o : ClaimOutcome F) (w : W)
      → IsLive F normalize w
      → shown F normalize j.claim.claim_id (emit F normalize (result_of F normalize j o) w) ≡ some o
  emit-shown j o w live = (send-shown F normalize j o w live).1

  -- The outcome of a check, after the second pass where there is one.
  abbrev pub ends_in : Config F → Calls F → Retrieved F → Bool → Check F → ClaimOutcome F
  ends_in cfg calls ret second (judged v) =
      verified verified_source
        (if second then get_or (second_look F cfg.second_pass calls v ret) v else v)
  ends_in cfg calls ret second shed = unchecked
  ends_in cfg calls ret second broken = failed

  conclude-shown :
      (cfg : Config F) (calls : Calls F) (j : Job) (ret : Retrieved F) (second : Bool) (c : Check F)
      (w : W)
      → IsLive F normalize w
      → shown F normalize j.claim.claim_id (conclude F normalize cfg calls j ret second c w)
        ≡ some (ends_in cfg calls ret second c)
  unfolding conclude maybe_reverify
  conclude-shown cfg calls j ret second shed w live = emit-shown j unchecked w live
  conclude-shown cfg calls j ret second broken w live = emit-shown j failed w live
  conclude-shown cfg calls j ret false (judged v) w live =
      (settle-shown cfg calls j verified_source v ret.embedding w live).0
  conclude-shown cfg calls j ret true (judged v) w live =
      let (there, kept) = settle-shown cfg calls j verified_source v ret.embedding w live in
      replace_with-shown calls j ret
        (settle F normalize cfg calls j verified_source v ret.embedding w) v
        (second_look F cfg.second_pass calls v ret) (λ n. ap (λ (f : ℕ → Bool). f n) kept ∙ live n)
        there

  pub check_with-shown :
      (cfg : Config F) (calls : Calls F) (j : Job) (ret : Retrieved F) (second : Bool) (c : Check F)
      (w : W)
      → IsLive F normalize w
      → shown F normalize j.claim.claim_id (check_with F normalize cfg calls j ret second c w)
        ≡ some (ends_in cfg calls ret second c)
  unfolding check_with
  check_with-shown cfg calls j ret second c w live =
      let (sent, _, kept) = send-shown F normalize j checking w live in
      let w' = emit F normalize (result_of F normalize j checking) w in
      rw sent
        (conclude-shown cfg calls j ret second c w' (λ n. ap (λ (f : ℕ → Bool). f n) kept ∙ live n))
