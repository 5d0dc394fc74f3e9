-- ===== src/Service/Memory.antt =====
-- The per-session memory of each speaker: stack/backend/internal/service/consistency.go and the
-- tallies of credibility.go. A method of `speakerMemory` runs under the memory's mutex, so it is
-- one step on the record; the per-speaker lock makes a speaker's detections one after another.
pub mod Tallies
pub mod Ranking
pub mod Remembered
use truth_in_stream.Prelude.{
  ℕ, suc, ◌+◌, String, Bool, true, false, ◌&&◌, ◌||◌, not, List, [], ◌∷◌, ◌++◌, Option, none, some,
  ◌=?◌, if◌then◌else◌, Dict, lookup, insert, map, ltb, length, take, ◌==◌,
}
use truth_in_stream.Prelude.Floats.{Floats}
use truth_in_stream.Prelude.Sorting.{sort_stable}

-- `speakerCredibility`
pub record Counts : Type 0 where
  pub credible : ℕ
  pub disputed : ℕ
  pub unverifiable : ℕ
  pub misleading_framing : ℕ

-- `SpeakerTally`
pub record SpeakerTally : Type 0 where
  pub speaker : String
  pub counts : Counts

abbrev pub no_counts : Counts
no_counts = record { credible = 0; disputed = 0; unverifiable = 0; misleading_framing = 0 }

-- `observe`: an unknown state moves no count
unfoldable pub observe : String → Counts → Counts
observe state s =
    if state =? "credible"
    then record s { credible = s.credible + 1 }
    else if state =? "disputed"
    then record s { disputed = s.disputed + 1 }
    else if state =? "unverifiable"
    then record s { unverifiable = s.unverifiable + 1 }
    else s

unfoldable pub observe_framing : Counts → Counts
observe_framing s = record s { misleading_framing = s.misleading_framing + 1 }

-- a speaker's counts, none at first
abbrev pub or_none : Option Counts → Counts
or_none none = no_counts
or_none (some c) = c

module _ (F : Floats) where
  open F use {Float, lt, le, f0, add, mul, div, sqrt}

  pub record PriorStatement : Type 0 where
    pub id : String
    pub text : String
    pub embedding : List Float

  pub record SpeakerMemory : Type 0 where
    pub by_speaker : Dict (List PriorStatement)
    pub credibility : Dict Counts

  unfoldable pub new_speaker_memory : SpeakerMemory
  new_speaker_memory = record { by_speaker = []; credibility = [] }

  unfoldable pub counts_of : SpeakerMemory → String → Counts
  counts_of m speaker = or_none (lookup speaker m.credibility)

  unfoldable pub observe_verdict :
      String → String → Bool → SpeakerMemory → SpeakerTally × SpeakerMemory
  unfolding observe observe_framing counts_of
  observe_verdict speaker state flagged m =
      let seen = observe state (counts_of m speaker) in
      let counts = if flagged then observe_framing seen else seen in
      (
        record { speaker = speaker; counts = counts },
        record m { credibility = insert speaker counts m.credibility },
      )

  unfoldable pub prior : String → SpeakerMemory → List PriorStatement
  prior speaker m = elim (lookup speaker m.by_speaker) [ none ↦ [] | some stored ↦ stored ]

  unfoldable pub remember : String → PriorStatement → SpeakerMemory → SpeakerMemory
  unfolding prior
  remember speaker s m = record m {
    by_speaker = insert speaker (prior speaker m ++ s ∷ []) m.by_speaker;
  }

  -- the loop of `cosineSimilarity` over both vectors
  pub cosine_sums : List Float → List Float → Float × Float × Float → Float × Float × Float
  cosine_sums (x ∷ xs) (y ∷ ys) (dot, norm_a, norm_b) =
      cosine_sums xs ys (add dot (mul x y), add norm_a (mul x x), add norm_b (mul y y))
  cosine_sums _ _ sums = sums

  abbrev is_zero : Float → Bool
  is_zero x = le x f0 && le f0 x

  unfoldable pub cosine_similarity : List Float → List Float → Float
  unfolding cosine_sums
  cosine_similarity a b =
      if length a == 0 || not (length a == length b)
      then f0
      else let (dot, norm_a, norm_b) = cosine_sums a b (f0, f0, f0) in
        if is_zero norm_a || is_zero norm_b then f0 else div dot (mul (sqrt norm_a) (sqrt norm_b))

  -- the candidates at or above the floor, with their similarity
  pub candidates : List Float → Float → List PriorStatement → List (PriorStatement × Float)
  candidates emb floor [] = []
  candidates emb floor (p ∷ ps) =
      let rest = candidates emb floor ps in
      let sim = cosine_similarity emb p.embedding in if le floor sim then (p, sim) ∷ rest else rest

  abbrev pub closer : PriorStatement × Float → PriorStatement × Float → Bool
  closer a b = lt b.1 a.1

  unfoldable pub rank_by_similarity :
      List Float → List PriorStatement → Float → ℕ → List PriorStatement
  unfolding candidates sort_stable
  rank_by_similarity emb priors floor top_k =
      let sorted = sort_stable closer (candidates emb floor priors) in
      map (λ c. c.0)
        (if ltb 0 top_k && ltb top_k (length sorted) then take top_k sorted else sorted)
