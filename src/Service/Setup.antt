-- ===== src/Service/Setup.antt =====
-- The construction of a verify path, `NewVerifyPath` of
-- stack/backend/internal/service/verify_path.go with `newSecondPass` of second_pass.go. A flag tells
-- whether a collaborator is there. The program's counts and durations are signed; those below 0,
-- which are refused, have no place here.
pub mod Serving
use truth_in_stream.Prelude.{
  ℕ, ◌<◌, Bool, true, false, not, ◌||◌, ◌&&◌, Option, none, some, if◌then◌else◌, ltb, ◌==◌,
  Bool-cases, Option-cases, sym, ap, inl, inr, ◌≡◌, refl, arith,
}
use truth_in_stream.Prelude.Floats.{Floats}
use truth_in_stream.Service.ClaimCache.{ClaimCache, new_claim_cache}
use truth_in_stream.Service.Path.{Config}
use truth_in_stream.Service.Matching.Setup.{valid_cosine_threshold}

module _ (F : Floats) where
  open F use {Float, lt, f0, f1}

  pub record SecondPassConfig : Type 0 where
    pub has_reverifier : Bool
    pub mid_band_lo : Float
    pub mid_band_hi : Float
    pub deadline : ℕ

  pub record PoliticalConfig : Type 0 where
    pub has_classifier : Bool
    pub has_retriever : Bool
    pub has_verifier : Bool
    pub has_curated_store : Bool
    pub curated_tau : Float

  pub record VerifyPathConfig : Type 0 where
    pub has_decomposer : Bool
    pub has_matcher : Bool
    pub has_verifier : Bool
    pub fast_tau : Float
    pub verify_concurrency : ℕ
    pub verify_queue_depth : ℕ
    pub fast_deadline : ℕ
    pub verify_deadline : ℕ
    pub cache_ttl : ℕ
    pub political : Option PoliticalConfig
    pub second_pass : Option SecondPassConfig

  -- What the scoring of a claim reads of a `VerifyPath`, the slots of its pool, and its cache.
  pub record VerifyPath : Type 0 where
    pub config : Config F
    pub capacity : ℕ
    pub queue_depth : ℕ
    pub cache : Option (ClaimCache F)

  abbrev pub outside : Float → Bool
  outside v = lt v f0 || lt f1 v

  -- `newSecondPass`: the band
  unfoldable pub new_second_pass : SecondPassConfig → Option (Float × Float)
  new_second_pass c =
      if not c.has_reverifier
        || (outside c.mid_band_lo
            || (outside c.mid_band_hi || (lt c.mid_band_hi c.mid_band_lo || c.deadline == 0)))
      then none
      else some (c.mid_band_lo, c.mid_band_hi)

  -- the checks of the first `switch`
  unfoldable pub accepts : VerifyPathConfig → Bool
  unfolding valid_cosine_threshold
  accepts c =
      (c.has_decomposer && (c.has_matcher && c.has_verifier))
      && (ltb 0 c.verify_concurrency
          && (valid_cosine_threshold F c.fast_tau
              && (ltb 0 c.fast_deadline && ltb 0 c.verify_deadline)))

  abbrev pub accepts_political : Option PoliticalConfig → Bool
  accepts_political none = true
  accepts_political (some p) = p.has_classifier && (p.has_retriever && p.has_verifier)

  abbrev pub floor_of : PoliticalConfig → Option Float
  floor_of p = if p.has_curated_store then some p.curated_tau else none

  abbrev pub political_of : Option PoliticalConfig → Option (Option Float)
  political_of none = none
  political_of (some p) = some (floor_of p)

  -- The path, with a second pass or without one.
  unfoldable pub verify_path_of :
      VerifyPathConfig → Option (Float × ℕ) → Option (Float × Float) → VerifyPath
  unfolding new_claim_cache
  verify_path_of c stance band = record {
    config = record {
      fast_tau = c.fast_tau;
      political = political_of c.political;
      second_pass = band;
      stance = stance;
    };
    capacity = c.verify_concurrency;
    queue_depth = c.verify_queue_depth;
    cache = if ltb 0 c.cache_ttl then some (new_claim_cache F c.cache_ttl) else none;
  }

  abbrev pub with_second_pass :
      VerifyPathConfig → Option (Float × ℕ) → Option SecondPassConfig → Option VerifyPath
  with_second_pass c stance none = some (verify_path_of c stance none)
  with_second_pass c stance (some sp) = elim (new_second_pass sp) [
    | none ↦ none
    | some band ↦ some (verify_path_of c stance (some band))
  ]

  -- `NewVerifyPath`, beside the consistency settings of the analyzer that uses it
  unfoldable pub new_verify_path : VerifyPathConfig → Option (Float × ℕ) → Option VerifyPath
  unfolding accepts new_second_pass verify_path_of
  new_verify_path c stance =
      if accepts c && accepts_political c.political
      then with_second_pass c stance c.second_pass
      else none
