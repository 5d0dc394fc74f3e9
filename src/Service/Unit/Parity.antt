-- ===== src/Service/Unit/Parity.antt =====
-- The live path and the batch path of stack/backend/internal/service agree on a unit.
use mathlib.Core.Path.{subst}
use truth_in_stream.Prelude.{
  ℕ, suc, String, false, List, [], ◌∷◌, ◌++◌, map, All, Option, none, some, ◌=?◌, ◌⊎◌, ◌≡◌, ◌≢◌,
  refl, sym, ap, ◌∙◌, arith, Bool-cases, inl, inr,
}
use truth_in_stream.Prelude.Floats.{Floats}
use truth_in_stream.Service.Verdicts.{AtomicClaim}
use truth_in_stream.Service.Events.{ClaimOutcome, LiveEvent, Decision, not_a_claim, claims, World}
use truth_in_stream.Service.Path.{Job, saturated, Config, Calls, score_claim}
use truth_in_stream.Service.Batch.{resolve_claim_batch}
use truth_in_stream.Service.Shown.{shown, IsLive, score_claim-Same}
use truth_in_stream.Service.Parity.{score_claim-resolve_claim_batch}
use truth_in_stream.Service.Live.{UnitMember, PendingUnit, combined_text}
use truth_in_stream.Service.Unit.{
  claims_from, UnitCalls, BatchUnit, unit_skipped, without_claims, resolved, send_each, skip_for,
  failure_for, job_of, score_claims, announce_claims, score_decided, score_unit, resolve_claims,
  resolve_decomposed, analyze_decided, analyze_text,
}
use truth_in_stream.Service.Unit.Ids.{claim_id_at, claims_from-other}
use truth_in_stream.Service.ClaimCache.{ClaimCache}
use truth_in_stream.Service.Unit.Caches.{cache-score_claim}
use truth_in_stream.Service.Unit.Uncached.{score_claim-Uncached, resolve_claim_batch-none}
use truth_in_stream.Service.Unit.Sends.{send-live, send_each-live, cache-send_each, IsLive-after}

module _ (F : Floats) (normalize : String → String) where
  abbrev W : Type 0
  W = World F

  -- What the reader has of a unit is what the batch result says.
  abbrev pub Agrees : PendingUnit → Option (BatchUnit F) → W → W → Type 0
  Agrees pu none w w' = w'.out ≡ w.out ++ map (failure_for F normalize) pu.members
  Agrees pu (some (unit_skipped reason)) w w' =
      w'.out ≡ w.out ++ map (skip_for F normalize reason) pu.members
  Agrees pu (some without_claims) w w' =
      w'.out ≡ w.out ++ map (skip_for F normalize not_a_claim) pu.members
  Agrees pu (some (resolved results)) w w' =
      All (λ r. shown F normalize r.0.claim_id w' ≡ some r.1) results

  -- The later claims leave what is shown of an earlier one.
  score_claims-kept :
      (cfg : Config F) (calls : ℕ → Calls F) (m : UnitMember) (speaker id : String) (i : ℕ)
      (cs : List AtomicClaim) (w : W)
      → All (λ c. (c.claim_id =? id) ≡ false) cs
      → shown F normalize id (score_claims F normalize cfg calls m speaker i cs w)
        ≡ shown F normalize id w
  unfolding score_claims
  score_claims-kept cfg calls m speaker id i [] w others = refl
  score_claims-kept cfg calls m speaker id i (c ∷ cs) w others =
      let j = job_of F normalize m speaker c in
      score_claims-kept cfg calls m speaker id (suc i) cs
        (score_claim F normalize cfg (calls i) j w) others.1
      ∙ (score_claim-Same F normalize id cfg (calls i) j w others.0).0

  -- The claims of one verdict are checked once, or no cache is kept.
  abbrev pub Steady : Config F → W → Type 0
  Steady cfg w = (cfg.second_pass ≡ none) ⊎ (w.cache ≡ none)

  Steady-score_claim :
      (cfg : Config F) (calls : Calls F) (j : Job) (w : W)
      → Steady cfg w
      → Steady cfg (score_claim F normalize cfg calls j w)
  Steady-score_claim cfg calls j w (inl once) = inl once
  Steady-score_claim cfg calls j w (inr off) =
      inr ((score_claim-Uncached F normalize cfg calls j w).0 off)

  cache-score_claim-Steady :
      (cfg : Config F) (calls : Calls F) (j : Job) (w : W)
      → IsLive F normalize w
      → Steady cfg w
      → calls.slot ≢ saturated
      → (score_claim F normalize cfg calls j w).cache
        ≡ (resolve_claim_batch F normalize cfg calls j.claim w.cache).1
  cache-score_claim-Steady cfg calls j w live (inl once) free =
      cache-score_claim F normalize cfg once calls j w live free
  cache-score_claim-Steady cfg calls j w live (inr off) free =
      (score_claim-Uncached F normalize cfg calls j w).0 off
      ∙ sym (
          ap (λ cache. (resolve_claim_batch F normalize cfg calls j.claim cache).1) off
          ∙ resolve_claim_batch-none F normalize cfg calls j.claim)

  -- What the reader has of each claim is its result, and the caches are one.
  abbrev ClaimsAgree : List (AtomicClaim × ClaimOutcome F) × Option (ClaimCache F) → W → Type 0
  ClaimsAgree r w = All (λ c. shown F normalize c.0.claim_id w ≡ some c.1) r.0 × (w.cache ≡ r.1)

  score_claims-resolve_claims :
      (cfg : Config F) (calls : ℕ → Calls F) (m : UnitMember) (speaker : String) (i : ℕ)
      (texts : List String) (w : W)
      → IsLive F normalize w
      → Steady cfg w
      → ((k : ℕ) → (calls k).slot ≢ saturated)
      → ClaimsAgree
          (resolve_claims F normalize cfg calls i (claims_from m.id i texts) w.cache)
          (score_claims F normalize cfg calls m speaker i (claims_from m.id i texts) w)
  unfolding score_claims resolve_claims claims_from
  score_claims-resolve_claims cfg calls m speaker i [] w live steady free = (tt, refl)
  score_claims-resolve_claims cfg calls m speaker i (t ∷ texts) w live steady free =
      let c : AtomicClaim = record { claim_id = claim_id_at m.id i; text = t } in
      let j = job_of F normalize m speaker c in
      let w1 = score_claim F normalize cfg (calls i) j w in
      let step = score_claim-Uncached F normalize cfg (calls i) j w in
      let rest = claims_from m.id (suc i) texts in
      let later =
        subst
          (λ cache.
            ClaimsAgree (resolve_claims F normalize cfg calls (suc i) rest cache)
              (score_claims F normalize cfg calls m speaker (suc i) rest w1))
          (cache-score_claim-Steady cfg (calls i) j w live steady (free i))
          (score_claims-resolve_claims cfg calls m speaker (suc i) texts w1
            (IsLive-after F normalize w w1 step live) (Steady-score_claim cfg (calls i) j w steady)
            free) in
      let kept =
        score_claims-kept cfg calls m speaker c.claim_id (suc i) rest w1
          (claims_from-other m.id i (suc i) texts (omega arith))
        ∙ score_claim-resolve_claim_batch F normalize cfg (calls i) j w live (free i) in
      ((kept, later.0), later.1)

  announce_claims-live :
      (cfg : Config F) (calls : ℕ → Calls F) (m : UnitMember) (pu : PendingUnit) (c : AtomicClaim)
      (cs : List AtomicClaim) (w : W)
      → IsLive F normalize w
      → announce_claims F normalize cfg calls m pu (c ∷ cs) w
        ≡ score_claims F normalize cfg calls m pu.speaker 0
            (c ∷ cs)
            (record w { out = w.out ++ claims m.id m.seg (c ∷ cs) ∷ []; asked = suc w.asked })
  unfolding announce_claims
  announce_claims-live cfg calls m pu c cs w live =
      rw (send-live F normalize (claims m.id m.seg (c ∷ cs)) w live) refl

  send_each-Told :
      (event : UnitMember → LiveEvent F) (members : List UnitMember) (w : W)
      → IsLive F normalize w
      → ((send_each F normalize event members w).out ≡ w.out ++ map event members)
        × ((send_each F normalize event members w).cache ≡ w.cache)
  send_each-Told event members w live =
      (send_each-live F normalize event members w live, cache-send_each F normalize event members w)

  announce_claims-Agrees :
      (cfg : Config F) (calls : ℕ → Calls F) (m : UnitMember) (pu : PendingUnit)
      (texts : List String) (w : W)
      → IsLive F normalize w
      → Steady cfg w
      → ((k : ℕ) → (calls k).slot ≢ saturated)
      → let r = resolve_decomposed F normalize cfg calls (claims_from m.id 0 texts) w.cache in
        let w' = announce_claims F normalize cfg calls m pu (claims_from m.id 0 texts) w in
        Agrees pu (some r.0) w w' × (w'.cache ≡ r.1)
  unfolding resolve_decomposed claims_from
  announce_claims-Agrees cfg calls m pu [] w live steady free =
      unfold announce_claims in send_each-Told (skip_for F normalize not_a_claim) pu.members w live
  announce_claims-Agrees cfg calls m pu (t ∷ texts) w live steady free =
      let c : AtomicClaim = record { claim_id = claim_id_at m.id 0; text = t } in
      let cs = claims_from m.id 1 texts in
      let w1 : W = record w {
        out = w.out ++ claims m.id m.seg (c ∷ cs) ∷ [];
        asked = suc w.asked;
      } in
      subst (ClaimsAgree (resolve_claims F normalize cfg calls 0 (c ∷ cs) w.cache))
        (sym (announce_claims-live cfg calls m pu c cs w live))
        (score_claims-resolve_claims cfg calls m pu.speaker 0 (t ∷ texts) w1 live steady free)

  score_decided-Agrees :
      (cfg : Config F) (calls : UnitCalls F) (m : UnitMember) (pu : PendingUnit) (w : W)
      (o : Option Decision)
      → IsLive F normalize w
      → Steady cfg w
      → ((k : ℕ) → (calls.of_claim k).slot ≢ saturated)
      → calls.decompose (combined_text pu.members) pu.speaker
        ≡ calls.decompose (combined_text pu.members) ""
      → let r = analyze_decided F normalize cfg calls (combined_text pu.members) m.id w.cache o in
        let w' = score_decided F normalize cfg calls m pu o w in
        Agrees pu r.0 w w' × (w'.cache ≡ r.1)
  unfolding score_decided analyze_decided
  score_decided-Agrees cfg calls m pu w none live steady free heedless =
      send_each-Told (failure_for F normalize) pu.members w live
  score_decided-Agrees cfg calls m pu w (some d) live steady free heedless =
      elim (Bool-cases d.checkable) [
        | inr skip ↦ rw skip (send_each-Told (skip_for F normalize d.reason) pu.members w live)
        | inl check ↦
            let texts = calls.decompose (combined_text pu.members) pu.speaker in
            rw (check, sym heedless)
              (announce_claims-Agrees cfg calls.of_claim m pu texts w live steady free)
      ]

  -- On a live connection, where the decomposer does not heed the speaker, the verify pool sheds no
  -- claim, and either the second pass or the cache is off: what the live path sends for a unit is
  -- what the document analysis returns for its text on the same calls and the same cache, and the
  -- caches that they leave are equal. Each member is reported as failed where the gate fails, and as
  -- skipped, for the same reason, where the unit is skipped; else the last result of each claim, by
  -- its id, is the claim's outcome.
  pub score_unit-analyze_text :
      (cfg : Config F) (calls : UnitCalls F) (speaker : String) (m : UnitMember)
      (ms : List UnitMember) (w : W)
      → IsLive F normalize w
      → Steady cfg w
      → ((k : ℕ) → (calls.of_claim k).slot ≢ saturated)
      → calls.decompose (combined_text (m ∷ ms)) speaker
        ≡ calls.decompose (combined_text (m ∷ ms)) ""
      → let r = analyze_text F normalize cfg calls (combined_text (m ∷ ms)) m.id w.cache in
        let w' =
          score_unit F normalize cfg calls (record { speaker = speaker; members = m ∷ ms }) w in
        Agrees (record { speaker = speaker; members = m ∷ ms }) r.0 w w' × (w'.cache ≡ r.1)
  unfolding score_unit analyze_text
  score_unit-analyze_text cfg calls speaker m ms w live steady free heedless =
      score_decided-Agrees cfg calls m (record { speaker = speaker; members = m ∷ ms }) w
        (calls.gate (combined_text (m ∷ ms))) live steady free heedless
