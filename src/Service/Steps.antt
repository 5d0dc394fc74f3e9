-- ===== src/Service/Steps.antt =====
-- What the scoring of a claim, stack/backend/internal/service/verify_path.go, is made of: sends, the
-- claim's cache entry, the speaker's memory, and one count at most. A relation that these steps
-- respect holds of the whole.
use truth_in_stream.Prelude.{
  ℕ, String, Bool, true, false, List, [], ◌∷◌, Option, none, some, ◌=?◌, ◌==◌, ◌||◌, length,
  Bool-cases, inl, inr,
}
use truth_in_stream.Prelude.Floats.{Floats}
use truth_in_stream.Service.Verdicts.{
  VerdictSource, verified_source, curated, VerifiedVerdict, Evidence, political_no_evidence_verdict,
}
use truth_in_stream.Service.Memory.{PriorStatement, remember, prior, rank_by_similarity}
use truth_in_stream.Service.ClaimCache.{CacheEntry, cache_get, cache_put}
use truth_in_stream.Service.Events.{
  ClaimOutcome, ConsistencyFlag, World, send_event, verified, failed, unchecked, checking,
  consistency,
}
use truth_in_stream.Service.Path.{
  Retrieved, Config, Calls, Job, Check, judged, shed, broken, result_of, emit, put_verdict,
  record_speaker_tally, stance_round, detect, remember_if, consistency_at, detect_claim_consistency,
  publish, settle, second_look, replace_with, maybe_reverify, conclude, check_with, score_routed,
  score_political_claim, verify_political, verify_claim, is_political, borrowed, score_unless,
  score_retrieved, score_found, score_claim,
}

module _ (F : Floats) (normalize : String → String) (j : Job) where
  abbrev W : Type 0
  W = World F

  -- The steps that count nothing.
  pub record QuietLaws : Type 1 where
    pub Quiet : W → W → Type 0
    pub same : (w : W) → Quiet w w
    pub then_quiet : (u v w : W) → Quiet u v → Quiet v w → Quiet u w
    pub notes :
        (flag : ConsistencyFlag) (w : W)
        → Quiet w (emit F normalize (consistency j.claim.claim_id j.segment flag) w)
    pub learns :
        (p : PriorStatement F) (w : W)
        → Quiet w (record w { memory = remember F j.speaker p w.memory })

  module _ (laws : QuietLaws) where
    open laws use {Quiet, same, then_quiet, notes, learns}

    stance_round-Quiet :
        (p : PriorStatement F) (rest : Bool × W) (w : W) (o : Option (Bool × String))
        → Quiet w rest.1
        → Quiet w (stance_round F normalize j p rest w o).1
    unfolding stance_round
    stance_round-Quiet p rest w none h = h
    stance_round-Quiet p rest w (some (false, why)) h = h
    stance_round-Quiet p rest w (some (true, why)) h = notes _ w

    detect-Quiet :
        (contradicts : String → Option (Bool × String)) (ps : List (PriorStatement F)) (w : W)
        → Quiet w (detect F normalize contradicts j ps w).1
    unfolding detect
    detect-Quiet contradicts [] w = same w
    detect-Quiet contradicts (p ∷ ps) w =
        stance_round-Quiet p (detect F normalize contradicts j ps w) w (contradicts p.text)
          (detect-Quiet contradicts ps w)

    remember_if-Quiet :
        (embedding : List F.Float) (r : Bool × W)
        → Quiet r.1 (remember_if F normalize j embedding r)
    unfolding remember_if
    remember_if-Quiet embedding (false, w) = same w
    remember_if-Quiet embedding (true, w) = learns _ w

    pub consistency_at-Quiet :
        (s : Option (F.Float × ℕ)) (contradicts : String → Option (Bool × String))
        (embedding : List F.Float) (w : W)
        → Quiet w (consistency_at F normalize s contradicts j embedding w)
    unfolding consistency_at
    consistency_at-Quiet none contradicts embedding w = same w
    consistency_at-Quiet (some (floor, top_k)) contradicts embedding w =
        elim (Bool-cases ((j.speaker =? "") || length embedding == 0)) [
          | inl off ↦ rw off (same w)
          | inr on ↦
              let ranked =
                rank_by_similarity F embedding (prior F j.speaker w.memory) floor top_k in
              let r = detect F normalize contradicts j ranked w in
              rw on (
                then_quiet w r.1 (remember_if F normalize j embedding r)
                  (detect-Quiet contradicts ranked w) (remember_if-Quiet embedding r))
        ]

  -- With results and cache entries, which are quiet too; `Counted` is for a run with one count at most.
  pub record Laws : Type 1 where
    pub quiet : QuietLaws
    pub Counted : W → W → Type 0
    pub weaken : (u v : W) → quiet.Quiet u v → Counted u v
    pub before : (u v w : W) → quiet.Quiet u v → Counted v w → Counted u w
    pub after : (u v w : W) → Counted u v → quiet.Quiet v w → Counted u w
    pub results :
        (o : ClaimOutcome F) (w : W)
        → quiet.Quiet w (emit F normalize (result_of F normalize j o) w)
    pub gets :
        (now : ℕ) (w : W)
        → quiet.Quiet w (record w { cache = (cache_get F normalize now j.claim.text w.cache).1 })
    pub puts :
        (now : ℕ) (e : CacheEntry F) (w : W)
        → quiet.Quiet w (record w { cache = cache_put F normalize now j.claim.text e w.cache })
    pub counts :
        (v : VerifiedVerdict F) (w : W) → Counted w (record_speaker_tally F normalize j v w)

  module _ (laws : Laws) where
    open laws use {quiet, Counted, weaken, before, after, results, gets, puts, counts}
    open laws.quiet use {Quiet, same, then_quiet}

    publish-Counted :
        (cfg : Config F) (calls : Calls F) (source : VerdictSource) (v : VerifiedVerdict F)
        (embedding : List F.Float) (w : W)
        → Counted w (publish F normalize cfg calls j source v embedding w)
    unfolding publish detect_claim_consistency
    publish-Counted cfg calls source v embedding w =
        let shown = emit F normalize (result_of F normalize j (verified source v)) w in
        let counted = record_speaker_tally F normalize j v shown in
        after w counted
          (consistency_at F normalize cfg.stance calls.contradicts j embedding counted)
          (before w shown counted (results (verified source v) w) (counts v shown))
          (consistency_at-Quiet quiet cfg.stance calls.contradicts embedding counted)

    settle-Counted :
        (cfg : Config F) (calls : Calls F) (source : VerdictSource) (v : VerifiedVerdict F)
        (embedding : List F.Float) (w : W)
        → Counted w (settle F normalize cfg calls j source v embedding w)
    unfolding settle put_verdict
    settle-Counted cfg calls source v embedding w =
        let stored = put_verdict F normalize calls.put_time j source v embedding w in
        before w stored (publish F normalize cfg calls j source v embedding stored) (puts _ _ w)
          (publish-Counted cfg calls source v embedding stored)

    replace_with-Quiet :
        (calls : Calls F) (ret : Retrieved F) (w : W) (o : Option (VerifiedVerdict F))
        → Quiet w (replace_with F normalize calls j ret w o)
    unfolding replace_with put_verdict
    replace_with-Quiet calls ret w none = same w
    replace_with-Quiet calls ret w (some v) =
        let stored = put_verdict F normalize calls.reput_time j verified_source v ret.embedding w in
        then_quiet w stored
          (emit F normalize (result_of F normalize j (verified verified_source v)) stored)
          (puts _ _ w) (results (verified verified_source v) stored)

    conclude-Counted :
        (cfg : Config F) (calls : Calls F) (ret : Retrieved F) (second : Bool) (c : Check F) (w : W)
        → Counted w (conclude F normalize cfg calls j ret second c w)
    unfolding conclude maybe_reverify
    conclude-Counted cfg calls ret true (judged v) w =
        let settled = settle F normalize cfg calls j verified_source v ret.embedding w in
        after w settled (maybe_reverify F normalize cfg calls j v ret settled)
          (settle-Counted cfg calls verified_source v ret.embedding w)
          (replace_with-Quiet calls ret settled (second_look F cfg.second_pass calls v ret))
    conclude-Counted cfg calls ret false (judged v) w =
        settle-Counted cfg calls verified_source v ret.embedding w
    conclude-Counted cfg calls ret second shed w = weaken w _ (results unchecked w)
    conclude-Counted cfg calls ret second broken w = weaken w _ (results failed w)

    check_with-Counted :
        (cfg : Config F) (calls : Calls F) (ret : Retrieved F) (second : Bool) (c : Check F) (w : W)
        → Counted w (check_with F normalize cfg calls j ret second c w)
    unfolding check_with
    check_with-Counted cfg calls ret second c w =
        let (alive, w') = send_event F (result_of F normalize j checking) w in
        elim (Bool-cases (send_event F (result_of F normalize j checking) w).0) [
          | inl t ↦ rw t (
              before w w' (conclude F normalize cfg calls j ret second c w') (results checking w)
                (conclude-Counted cfg calls ret second c w'))
          | inr t ↦ rw t (weaken w w' (results checking w))
        ]

    score_routed-Counted :
        (cfg : Config F) (calls : Calls F) (ret : Retrieved F) (w : W) (o : Option (List Evidence))
        → Counted w (score_routed F normalize cfg calls j ret w o)
    unfolding score_routed
    score_routed-Counted cfg calls ret w none = weaken w _ (results failed w)
    score_routed-Counted cfg calls ret w (some []) =
        check_with-Counted cfg calls ret false (judged (political_no_evidence_verdict F)) w
    score_routed-Counted cfg calls ret w (some (e ∷ es)) =
        check_with-Counted cfg calls ret false (verify_political F calls (e ∷ es)) w

    score_unless-Counted :
        (cfg : Config F) (calls : Calls F) (ret : Retrieved F) (w : W)
        (o : Option (VerifiedVerdict F))
        → Counted w (score_unless F normalize cfg calls j ret w o)
    unfolding score_unless score_political_claim
    score_unless-Counted cfg calls ret w (some v) =
        settle-Counted cfg calls curated v ret.embedding w
    score_unless-Counted cfg calls ret w none = elim (Bool-cases (is_political F cfg)) [
      | inl t ↦ rw t (score_routed-Counted cfg calls ret w calls.route)
      | inr t ↦ rw t (check_with-Counted cfg calls ret true (verify_claim F calls ret.matches) w)
    ]

    score_retrieved-Counted :
        (cfg : Config F) (calls : Calls F) (w : W) (o : Option (Retrieved F))
        → Counted w (score_retrieved F normalize cfg calls j w o)
    unfolding score_retrieved
    score_retrieved-Counted cfg calls w none = weaken w _ (results failed w)
    score_retrieved-Counted cfg calls w (some ret) =
        score_unless-Counted cfg calls ret w (borrowed F cfg calls ret)

    score_found-Counted :
        (cfg : Config F) (calls : Calls F) (w : W) (o : Option (CacheEntry F))
        → Counted w (score_found F normalize cfg calls j w o)
    unfolding score_found
    score_found-Counted cfg calls w none = score_retrieved-Counted cfg calls w calls.retrieve
    score_found-Counted cfg calls w (some e) =
        publish-Counted cfg calls e.source e.verdict e.embedding w

    pub score_claim-Counted :
        (cfg : Config F) (calls : Calls F) (w : W)
        → Counted w (score_claim F normalize cfg calls j w)
    unfolding score_claim
    score_claim-Counted cfg calls w =
        let (hit, cache) = cache_get F normalize calls.get_time j.claim.text w.cache in
        let looked = record w { cache = cache } in
        before w looked (score_found F normalize cfg calls j looked hit) (gets calls.get_time w)
          (score_found-Counted cfg calls looked hit)
