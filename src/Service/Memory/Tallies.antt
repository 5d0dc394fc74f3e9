-- ===== src/Service/Memory/Tallies.antt =====
-- The running tallies of stack/backend/internal/service/credibility.go and `observeVerdict` against
-- plain counting.
use truth_in_stream.Prelude.{
  ℕ, ◌+◌, String, Bool, true, false, ◌&&◌, List, [], ◌∷◌, Option, some, ◌=?◌, if◌then◌else◌,
  lookup-insert, arith, ◌≡◌, refl, ◌∙◌, ap, sym, Bool-cases, inl, inr, =?→≡, =?_refl,
}
use truth_in_stream.Prelude.Floats.{Floats}
use truth_in_stream.Service.Memory.{
  Counts, observe, observe_framing, SpeakerMemory, counts_of, observe_verdict, or_none,
}

-- One counted claim: who said it, its verdict, and whether it carried a flag.
pub record Counted : Type 0 where
  pub speaker : String
  pub state : String
  pub flagged : Bool

-- How many of the claims pass a test.
abbrev pub tally : (Counted → Bool) → List Counted → ℕ
tally p [] = 0
tally p (v ∷ vs) = (if p v then 1 else 0) + tally p vs

abbrev pub of_state : String → String → Counted → Bool
of_state speaker state v = (v.speaker =? speaker) && (v.state =? state)

-- The counts that a speaker should have, by counting over the claims.
abbrev pub expected : String → List Counted → Counts
expected s vs = record {
  credible = tally (of_state s "credible") vs;
  disputed = tally (of_state s "disputed") vs;
  unverifiable = tally (of_state s "unverifiable") vs;
  misleading_framing = tally (λ v. (v.speaker =? s) && v.flagged) vs;
}

abbrev pub plus : Counts → Counts → Counts
plus a b = record {
  credible = a.credible + b.credible;
  disputed = a.disputed + b.disputed;
  unverifiable = a.unverifiable + b.unverifiable;
  misleading_framing = a.misleading_framing + b.misleading_framing;
}

abbrev bump : String → Bool → Counts → Counts
bump state flagged c = if flagged then observe_framing (observe state c) else observe state c

-- What one claim adds to the counts of its speaker.
abbrev one : String → Bool → Counts
one state flagged = record {
  credible = if state =? "credible" then 1 else 0;
  disputed = if state =? "disputed" then 1 else 0;
  unverifiable = if state =? "unverifiable" then 1 else 0;
  misleading_framing = if flagged then 1 else 0;
}

apart :
    (state : String) (a b : String) → (a =? b) ≡ false → (state =? a) ≡ true → (state =? b) ≡ false
apart state a b h e = ap (λ t. t =? b) (=?→≡ state a e) ∙ h

bump-plus :
    (state : String) (flagged : Bool) (c : Counts)
    → bump state flagged c ≡ plus c (one state flagged)
unfolding observe observe_framing
bump-plus state flagged c = ground (
  arith,
  apart state "credible" "disputed" refl,
  apart state "credible" "unverifiable" refl,
  apart state "disputed" "unverifiable" refl,
)

or_none_if :
    (b : Bool) (x : Counts) (o : Option Counts)
    → or_none (if b then some x else o) ≡ (if b then x else or_none o)
or_none_if true x o = refl
or_none_if false x o = refl

module _ (F : Floats) where
  abbrev pub after : Counted → SpeakerMemory F → SpeakerMemory F
  after v m = (observe_verdict F v.speaker v.state v.flagged m).1

  abbrev pub replay : List Counted → SpeakerMemory F → SpeakerMemory F
  replay [] m = m
  replay (v ∷ vs) m = replay vs (after v m)

  counts_of-after :
      (s : String) (v : Counted) (m : SpeakerMemory F)
      → counts_of F (after v m) s ≡ (
          if v.speaker =? s
          then bump v.state v.flagged (counts_of F m v.speaker)
          else counts_of F m s)
  unfolding observe_verdict
  counts_of-after s v m =
      ap or_none
        (lookup-insert v.speaker s (bump v.state v.flagged (counts_of F m v.speaker)) m.credibility)
      ∙ or_none_if (v.speaker =? s) _ _

  plus-counts_of :
      (s : String) (v : Counted) (m : SpeakerMemory F) (vs : List Counted)
      → plus (counts_of F (after v m) s) (expected s vs)
        ≡ plus (counts_of F m s) (expected s (v ∷ vs))
  plus-counts_of s v m vs = elim (Bool-cases (v.speaker =? s)) [
    | inl h ↦
        rw
          (
            counts_of-after s v m,
            h,
            bump-plus v.state v.flagged (counts_of F m v.speaker),
            =?→≡ v.speaker s h,
          )
          (ground arith)
    | inr h ↦ rw (counts_of-after s v m, h) (ground arith)
  ]

  -- After any sequence of counted claims, in whatever order the workers made them, a speaker's
  -- tally is the tally before plus the number of that speaker's claims of each verdict, and the
  -- number that carried a flag.
  pub counts_of-replay :
      (s : String) (vs : List Counted) (m : SpeakerMemory F)
      → counts_of F (replay vs m) s ≡ plus (counts_of F m s) (expected s vs)
  counts_of-replay s [] m = ground arith
  counts_of-replay s (v ∷ vs) m = counts_of-replay s vs (after v m) ∙ plus-counts_of s v m vs

  -- The tally that is sent with a verdict is the speaker's new tally, and the statements that
  -- are remembered do not change.
  pub observe_verdict_reports :
      (speaker state : String) (flagged : Bool) (m : SpeakerMemory F)
      → let (sent, m') = observe_verdict F speaker state flagged m in
        (sent.speaker ≡ speaker)
        × (sent.counts ≡ counts_of F m' speaker)
        × (m'.by_speaker ≡ m.by_speaker)
  unfolding observe_verdict
  observe_verdict_reports speaker state flagged m = (
    refl,
    sym (
        ap or_none
          (lookup-insert speaker speaker (bump state flagged (counts_of F m speaker)) m.credibility)
        ∙ or_none_if (speaker =? speaker) _ _
        ∙ ap (λ b. if b then bump state flagged (counts_of F m speaker) else counts_of F m speaker)
            (=?_refl speaker)),
    refl,
  )
