-- ===== src/Service/Unit/Ids.antt =====
-- The ids of the claims of a unit, `decomposeText` of
-- stack/backend/internal/service/verify_path.go, are different.
use Prim.Native.String.{◌++◌}
use text.Mathlib.TextLemmas.{append_cancel_left}
use truth_in_stream.Prelude.{
  ℕ, suc, ◌<◌, String, false, List, [], ◌∷◌, All, get_or, codes, itoa, ◌=?◌, =?→≡, arith, ◌≡◌, sym,
  ap, ◌∙◌, Bool-cases, inl, inr,
}
use truth_in_stream.EvidenceIds.{digits_value}
use truth_in_stream.EvidenceIds.Numerals.{digits_value-itoa}
use truth_in_stream.Service.Verdicts.{AtomicClaim}
use truth_in_stream.Service.Unit.{claims_from}

same_number : (i k : ℕ) → itoa i ≡ itoa k → i ≡ k
same_number i k h =
    ap (λ o. get_or o 0)
      (sym (digits_value-itoa i) ∙ ap (λ s. digits_value 0 (codes s)) h ∙ digits_value-itoa k)

abbrev pub claim_id_at : String → ℕ → String
claim_id_at anchor i = anchor ++ ("-" ++ itoa i)

id_other :
    (anchor : String) (i k : ℕ) → i < k → (claim_id_at anchor k =? claim_id_at anchor i) ≡ false
id_other anchor i k less = elim (Bool-cases (claim_id_at anchor k =? claim_id_at anchor i)) [
  | inr e ↦ e
  | inl e ↦
      let tails =
        append_cancel_left anchor ("-" ++ itoa k) ("-" ++ itoa i)
          (=?→≡ (claim_id_at anchor k) (claim_id_at anchor i) e) in
      let same = same_number k i (append_cancel_left "-" (itoa k) (itoa i) tails) in
      absurd (omega (arith, same, less))
]

-- Later claims have other ids.
pub claims_from-other :
    (anchor : String) (i k : ℕ) (texts : List String)
    → i < k
    → All
        (λ (c : AtomicClaim). (c.claim_id =? claim_id_at anchor i) ≡ false)
        (claims_from anchor k texts)
unfolding claims_from
claims_from-other anchor i k [] less = tt
claims_from-other anchor i k (t ∷ texts) less =
    (id_other anchor i k less, claims_from-other anchor i (suc k) texts (omega (arith, less)))
