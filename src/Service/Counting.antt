-- ===== src/Service/Counting.antt =====
-- What scoring a claim, stack/backend/internal/service/verify_path.go, does to the running tallies.
use truth_in_stream.Prelude.{
  String, Bool, false, Dict, ◌=?◌, length, ltb, ◌≡◌, refl, ◌∙◌, ap, Bool-cases, inl, inr, ◌⊎◌,
}
use truth_in_stream.Prelude.Floats.{Floats}
use truth_in_stream.Service.Verdicts.{VerifiedVerdict}
use truth_in_stream.Service.Memory.{Counts, SpeakerMemory, observe_verdict, counts_of, remember}
use truth_in_stream.Service.Events.{LiveEvent, World, send_event}
use truth_in_stream.Service.Path.{Config, Calls, Job, record_speaker_tally, score_claim}
use truth_in_stream.Service.Steps.{Laws, score_claim-Counted}

module _ (F : Floats) (normalize : String → String) where
  abbrev W : Type 0
  W = World F

  abbrev tallies : W → Dict Counts
  tallies w = w.memory.credibility

  -- The tallies are as before, or one verdict was counted for the claim's speaker, who is known.
  abbrev pub CountsOnce : Job → W → W → Type 0
  CountsOnce j w w' =
      (w'.memory.credibility ≡ w.memory.credibility)
      ⊎ ((v : VerifiedVerdict F) × ((j.speaker =? "") ≡ false)
          × (w'.memory.credibility
              ≡ (observe_verdict F j.speaker v.verdict (ltb 0 (length v.flags))
                  w.memory).1.credibility))

  send-memory : (e : LiveEvent F) (w : W) → (send_event F e w).1.memory ≡ w.memory
  unfolding send_event
  send-memory e w = elim (Bool-cases (w.sends w.asked)) [ inl t ↦ rw t refl | inr t ↦ rw t refl ]

  record_speaker_tally-once :
      (j : Job) (v : VerifiedVerdict F) (w : W)
      → CountsOnce j w (record_speaker_tally F normalize j v w)
  unfolding record_speaker_tally
  record_speaker_tally-once j v w = elim (Bool-cases (j.speaker =? "")) [
    | inl t ↦ rw t (inl refl)
    | inr t ↦ rw t (inr (v, refl, ap (λ (m : SpeakerMemory F). m.credibility) (send-memory _ _)))
  ]

  once_after :
      (j : Job) (w w1 w2 : W) → CountsOnce j w w1 → tallies w2 ≡ tallies w1 → CountsOnce j w w2
  once_after j w w1 w2 (inl same) e = inl (e ∙ same)
  once_after j w w1 w2 (inr (v, known, counted)) e = inr (v, known, e ∙ counted)

  -- What a verdict does to the tallies depends on the tallies alone.
  observe_verdict-tallies :
      (speaker verdict : String) (flagged : Bool) (m n : SpeakerMemory F)
      → m.credibility ≡ n.credibility
      → (observe_verdict F speaker verdict flagged m).1.credibility
        ≡ (observe_verdict F speaker verdict flagged n).1.credibility
  unfolding observe_verdict counts_of
  observe_verdict-tallies speaker verdict flagged m n e =
      ap
        (λ c.
          (observe_verdict F speaker verdict flagged (record m { credibility = c })).1.credibility)
        e

  once_before :
      (j : Job) (w w0 w1 : W) → tallies w0 ≡ tallies w → CountsOnce j w0 w1 → CountsOnce j w w1
  once_before j w w0 w1 e (inl same) = inl (same ∙ e)
  once_before j w w0 w1 e (inr (v, known, counted)) = inr (
    v,
    known,
    counted
        ∙ observe_verdict-tallies j.speaker v.verdict (ltb 0 (length v.flags)) w0.memory w.memory e,
  )

  only_sent : (e : LiveEvent F) (w : W) → tallies (send_event F e w).1 ≡ tallies w
  only_sent e w = ap (λ (m : SpeakerMemory F). m.credibility) (send-memory e w)

  counting : (j : Job) → Laws F normalize j
  unfolding remember
  counting j = record {
    quiet = record {
      Quiet = λ w w'. tallies w' ≡ tallies w;
      same = λ w. refl;
      then_quiet = λ u v w p q. q ∙ p;
      notes = λ flag w. only_sent _ w;
      learns = λ p w. refl;
    };
    Counted = CountsOnce j;
    weaken = λ u v q. inl q;
    before = λ u v w q c. once_before j u v w q c;
    after = λ u v w c q. once_after j u v w c q;
    results = λ o w. only_sent _ w;
    gets = λ now w. refl;
    puts = λ now e w. refl;
    counts = λ v w. record_speaker_tally-once j v w;
  }

  -- Whatever the calls return and whether the connection lives: scoring a claim leaves the tallies
  -- of all speakers as they were, or counts one verdict for the claim's speaker, and only if that
  -- speaker is known. A second pass, which replaces the verdict, counts nothing again.
  pub score_claim-CountsOnce :
      (cfg : Config F) (calls : Calls F) (j : Job) (w : W)
      → CountsOnce j w (score_claim F normalize cfg calls j w)
  unfolding counting
  score_claim-CountsOnce cfg calls j w = score_claim-Counted F normalize j (counting j) cfg calls w
