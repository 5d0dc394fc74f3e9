-- ===== src/Verify/Grounding.antt =====
-- The verdict after the guard of stack/backend/internal/verify: its basis, its citations, and the
-- bounds on its confidence.
use truth_in_stream.Prelude.{
  String, Bool, true, false, not, ◌&&◌, List, [], ◌=?◌, if◌then◌else◌, any, keep, keep-keep, ltb,
  length, arith, ◌≡◌, refl, ap, Bool-cases, inl, inr, ltb-length-keep, &&_true,
}
use truth_in_stream.Prelude.Floats.{Floats}
use truth_in_stream.Verify.{
  Passage, Citation, Judgement, PoliticalJudgement, verdict_unverifiable, literal_unverifiable,
  basis_evidence, basis_knowledge, valid_citations, ground_verdict, validate_citations, fmin,
  clamp_confidence, cap_knowledge_confidence, validate_political_citations, sanitize_flags,
}
use truth_in_stream.Verify.Citations.{quotes, valid_citations-keep}

module _ (F : Floats) where
  open F use {
    Float, is_nan, lt, le, f0, f0_6, f1, lt_nan, le_nan, lt_not_le, le_refl, le_total, le_trans,
    literals, literal_order,
  }

  -- A number from `lo` to `hi`, not NaN.
  abbrev pub Within : Float → Float → Float → Type 0
  Within lo hi c = (is_nan c ≡ false) × (le lo c ≡ true) × (le c hi ≡ true)

  clamp_Within : (c : Float) → Within f0 f1 (clamp_confidence F c)
  unfolding clamp_confidence
  clamp_Within c = ground (
    arith,
    literals,
    literal_order,
    le_trans f0 f0_6 f1,
    le_refl f0,
    le_refl f1,
    lt_not_le c f0,
    lt_not_le f1 c,
    le_total c f1,
    le_total f0 c,
    le_total f1 c,
    le_total c f0,
  )

  clamp_fix : (c : Float) → Within f0 f1 c → clamp_confidence F c ≡ c
  unfolding clamp_confidence
  clamp_fix c h = ground (arith, literals, lt_not_le c f0, lt_not_le f1 c)

  cap_Within : (c : Float) → Within f0 f0_6 (cap_knowledge_confidence F c)
  unfolding cap_knowledge_confidence fmin
  cap_Within c = ground (
    arith,
    literals,
    literal_order,
    clamp_Within c,
    le_refl f0_6,
    lt_not_le f0_6 (clamp_confidence F c),
    le_total f0_6 (clamp_confidence F c),
  )

  cap_fix : (c : Float) → Within f0 f0_6 c → cap_knowledge_confidence F c ≡ c
  unfolding cap_knowledge_confidence fmin
  cap_fix c h =
      ground (arith, literals, literal_order, clamp_fix c, le_trans c f0_6 f1, lt_not_le f0_6 c)

  capped : (c : Float) → Within f0 f1 (cap_knowledge_confidence F c)
  capped c =
      let (number, low, high) = cap_Within c in
      (number, low, le_trans _ f0_6 f1 high literal_order.1)

  -- The basis and the citations that a guarded verdict ends with.
  abbrev Grounded : List Passage → Bool → String → List Citation → String → List Citation → Type 0
  Grounded ps unverifiable basis cits basis' cits' =
      (basis' ≡ (
        if not unverifiable && ((basis =? basis_evidence) && any (quotes ps) cits)
        then basis_evidence
        else basis_knowledge))
      × (cits' ≡ (if unverifiable then [] else keep (quotes ps) cits))

  ground_verdict-Grounded :
      (ps : List Passage) (u : Bool) (basis : String) (cits : List Citation) (c : Float)
      → let (b, cs, _) = ground_verdict F u basis (keep (quotes ps) cits) c in
        Grounded ps u basis cits b cs
  unfolding ground_verdict
  ground_verdict-Grounded ps true basis cits c = (refl, refl)
  ground_verdict-Grounded ps false basis cits c =
      rw (ltb-length-keep (quotes ps) cits) (ground arith)

  -- The confidence of a verdict on evidence lies in [0, 1], that of any other in [0, 0.6].
  abbrev Calibrated : String → Float → Type 0
  Calibrated basis c = Within f0 f1 c × ((basis ≡ basis_knowledge) → le c f0_6 ≡ true)

  ground_verdict-Calibrated :
      (u : Bool) (basis : String) (cits : List Citation) (c : Float)
      → let (b, _, c') = ground_verdict F u basis cits c in Calibrated b c'
  unfolding ground_verdict
  ground_verdict-Calibrated true basis cits c = (capped c, λ _. (cap_Within c).2)
  ground_verdict-Calibrated false basis cits c =
      elim (Bool-cases ((basis =? basis_evidence) && ltb 0 (length cits))) [
        | inl h ↦ rw h (clamp_Within c, λ e. cc)
        | inr h ↦ rw h (capped c, λ _. (cap_Within c).2)
      ]

  -- Guarding a verdict twice is guarding it once.
  ground_verdict_twice :
      (ps : List Passage) (u : Bool) (basis : String) (cits : List Citation) (c : Float)
      → let (b, cs, c') = ground_verdict F u basis (keep (quotes ps) cits) c in
        ground_verdict F u b (keep (quotes ps) cs) c' ≡ (b, cs, c')
  unfolding ground_verdict
  ground_verdict_twice ps true basis cits c =
      ap (λ x. (basis_knowledge, [], x)) (cap_fix _ (cap_Within c))
  ground_verdict_twice ps false basis cits c =
      let t = (basis =? basis_evidence) && ltb 0 (length (keep (quotes ps) cits)) in
      elim (Bool-cases t) [
        | inl h ↦
            let more =
              (&&_true (basis =? basis_evidence) (ltb 0 (length (keep (quotes ps) cits))) h).1 in
            rw (h, keep-keep (quotes ps) cits, more)
              (ap (λ x. (basis_evidence, keep (quotes ps) cits, x)) (clamp_fix _ (clamp_Within c)))
        | inr h ↦
            rw (h, keep-keep (quotes ps) cits)
              (ap (λ x. (basis_knowledge, keep (quotes ps) cits, x)) (cap_fix _ (cap_Within c)))
      ]

  -- The guarded verdict keeps just the citations that quote a supplied passage, none if the
  -- verdict is unverifiable. It rests on evidence exactly when the model said so of a verdict other
  -- than unverifiable and one such citation is left; else it rests on knowledge.
  pub validate_citations_grounds :
      (res : Judgement F) (ps : List Passage)
      → let r = validate_citations F res ps in
        let unverifiable = res.verdict =? verdict_unverifiable in
        (r.basis ≡ (
          if not unverifiable && ((res.basis =? basis_evidence) && any (quotes ps) res.citations)
          then basis_evidence
          else basis_knowledge))
        × (r.citations ≡ (if unverifiable then [] else keep (quotes ps) res.citations))
  unfolding validate_citations
  validate_citations_grounds res ps = rw (valid_citations-keep res.citations ps) (
      ground_verdict-Grounded ps (res.verdict =? verdict_unverifiable) res.basis res.citations
        res.confidence)

  -- The confidence of a guarded verdict is a number in [0, 1], and at most 0.6 if the verdict
  -- rests on knowledge, whatever the model sent, NaN included.
  pub validate_citations_confidence :
      (res : Judgement F) (ps : List Passage)
      → let r = validate_citations F res ps in
        Within f0 f1 r.confidence × ((r.basis ≡ basis_knowledge) → le r.confidence f0_6 ≡ true)
  unfolding validate_citations
  validate_citations_confidence res ps =
      ground_verdict-Calibrated (res.verdict =? verdict_unverifiable) res.basis
        (valid_citations res.citations ps) res.confidence

  -- The guard is idempotent.
  pub validate_citations_twice :
      (res : Judgement F) (ps : List Passage)
      → validate_citations F (validate_citations F res ps) ps ≡ validate_citations F res ps
  unfolding validate_citations
  validate_citations_twice res ps = rw (valid_citations-keep res.citations ps) (
      rw (valid_citations-keep _ ps) (
        ap (λ t. record res { basis = t.0; citations = t.1; confidence = t.2 })
          (ground_verdict_twice ps (res.verdict =? verdict_unverifiable) res.basis res.citations
            res.confidence)))

  -- The two-axis guard grounds the literal verdict as the other guard does and bounds its
  -- confidence alike, and the flags it keeps do not depend on the verdict.
  validate_political_grounds :
      (res : PoliticalJudgement F) (ps : List Passage)
      → let r = validate_political_citations F res ps in
        let unverifiable = res.literal =? literal_unverifiable in
        (r.basis ≡ (
          if not unverifiable && ((res.basis =? basis_evidence) && any (quotes ps) res.citations)
          then basis_evidence
          else basis_knowledge))
        × (r.citations ≡ (if unverifiable then [] else keep (quotes ps) res.citations))
        × Within f0 f1 r.confidence
        × ((r.basis ≡ basis_knowledge) → le r.confidence f0_6 ≡ true)
        × (r.flags ≡ sanitize_flags res.flags)
  unfolding validate_political_citations
  validate_political_grounds res ps =
      let u = res.literal =? literal_unverifiable in
      rw (valid_citations-keep res.citations ps) (
        let (b, cs) = ground_verdict-Grounded ps u res.basis res.citations res.confidence in
        let (w, k) =
          ground_verdict-Calibrated u res.basis (keep (quotes ps) res.citations) res.confidence in
        (b, cs, w, k, refl))
