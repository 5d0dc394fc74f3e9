-- ===== src/Service/Analyzer/Flags.antt =====
-- The contradictions that the live analyzer of stack/backend/internal/service/live.go flags.
pub mod Detected
pub mod Scored
use mathlib.Core.List.{Mem, mem-append_left, mem-append_right, mem-cons_self}
use truth_in_stream.Prelude.{
  ℕ, suc, String, Bool, true, false, not, ◌||◌, ◌&&◌, List, [], ◌∷◌, ◌++◌, append_assoc, All,
  All-append, All-map, Option, none, some, Runes, spelled, ◌=?◌, ◌==◌, length, if◌then◌else◌,
  Option-cases, Bool-cases, inl, inr, arith, ◌≡◌, refl, sym, ap, ◌∙◌,
}
use truth_in_stream.Prelude.Floats.{Floats}
use truth_in_stream.Service.Memory.{
  PriorStatement, SpeakerMemory, prior, remember, rank_by_similarity, new_speaker_memory,
}
use truth_in_stream.Service.Memory.Remembered.{All-rank_by_similarity, AllPrior, AllPrior-remember}
use truth_in_stream.Service.Events.{
  Segment, ConsistencyFlag, Decision, LiveEvent, consistency, interim, subtitle, claims, skipped,
  unit_failed, matched, claim_result, speaker_tally, World, send_event,
}
use truth_in_stream.Service.Path.{Job, stance_round, detect, remember_if, consistency_at}
use truth_in_stream.Service.Live.{UnitMember, PendingUnit, combined_text}
use truth_in_stream.Service.Gate.{MatchResult, gate_and_match}
use truth_in_stream.Service.Unit.{failure_for}
use truth_in_stream.Service.Analyzer.{
  Stance, LiveAnalyzer, report_each, result_for, statement_of, detect_consistency, report_matched,
  score_by_match, score_unit, score_units,
}

module _ (F : Floats) (normalize : String → String) (a : LiveAnalyzer F) where
  abbrev W : Type 0
  W = World F

  -- A unit of a speaker whose combined text is a statement that the gate let through and the matcher
  -- answered, under the id of its first member.
  pub record Statement (pu : PendingUnit) (speaker id text : String) : Type 0 where
    pub first : UnitMember
    pub others : List UnitMember
    pub members : pu.members ≡ first ∷ others
    pub spoken_by : pu.speaker ≡ speaker
    pub named : first.id ≡ id
    pub read : spelled (combined_text pu.members) ≡ text
    pub result : MatchResult F
    pub decision : Decision
    pub answer :
        gate_and_match F a.prechecker a.matcher (combined_text pu.members) ≡ some (result, decision)
    pub let_through : decision.checkable ≡ true

  -- What the memory keeps is the statement of a unit that was scored.
  abbrev pub Backed : List PendingUnit → String → PriorStatement F → Type 0
  Backed pus speaker p = (pu : PendingUnit) × Mem pu pus × Statement pu speaker p.id p.text

  -- Why a flag is raised, where the units are scored in this order.
  pub record Flagged (pus : List PendingUnit) (id : String) (seg : Segment) (f : ConsistencyFlag)
      : Type 0 where
    pub before : List PendingUnit
    pub unit : PendingUnit
    pub after : List PendingUnit
    pub order : pus ≡ before ++ unit ∷ after
    pub earlier : PendingUnit
    pub scored_before : Mem earlier before
    pub text : String
    pub later_statement : Statement unit f.speaker id text
    pub earlier_statement : Statement earlier f.speaker f.earlier_id f.earlier_text
    pub shown_on : later_statement.first.seg ≡ seg
    pub known : (f.speaker =? "") ≡ false
    pub classify : Stance F
    pub configured : a.stance ≡ some classify
    pub contradicts : classify f.earlier_text text ≡ some (true, f.rationale)

  abbrev pub IsJustified : List PendingUnit → LiveEvent F → Type 0
  IsJustified pus (consistency id seg f) = Flagged pus id seg f
  IsJustified pus _ = Unit

  -- Nothing is remembered or flagged without reason.
  abbrev pub Sound : List PendingUnit → W → Type 0
  Sound pus w = AllPrior F (Backed pus) w.memory × All (IsJustified pus) w.out

  grow-Backed :
      (pus : List PendingUnit) (pu : PendingUnit) (speaker : String) (p : PriorStatement F)
      → Backed pus speaker p
      → Backed (pus ++ pu ∷ []) speaker p
  grow-Backed pus pu speaker p (earlier, there, s) = (earlier, mem-append_left (pu ∷ []) there, s)

  grow-IsJustified :
      (pus : List PendingUnit) (pu : PendingUnit) (e : LiveEvent F)
      → IsJustified pus e
      → IsJustified (pus ++ pu ∷ []) e
  grow-IsJustified pus pu (consistency id seg f) h = record {
    before = h.before;
    after = h.after ++ pu ∷ [];
    order = ap (λ l. l ++ pu ∷ []) h.order ∙ append_assoc h.before (h.unit ∷ h.after) (pu ∷ []);
    unit = h.unit;
    earlier = h.earlier;
    scored_before = h.scored_before;
    text = h.text;
    later_statement = h.later_statement;
    earlier_statement = h.earlier_statement;
    shown_on = h.shown_on;
    known = h.known;
    classify = h.classify;
    configured = h.configured;
    contradicts = h.contradicts;
  }
  grow-IsJustified pus pu (interim _) h = tt
  grow-IsJustified pus pu (subtitle _ _) h = tt
  grow-IsJustified pus pu (claims _ _ _) h = tt
  grow-IsJustified pus pu (skipped _ _ _) h = tt
  grow-IsJustified pus pu (unit_failed _ _) h = tt
  grow-IsJustified pus pu (matched _ _ _ _ _) h = tt
  grow-IsJustified pus pu (claim_result _ _ _ _) h = tt
  grow-IsJustified pus pu (speaker_tally _) h = tt

  pub grow-Sound :
      (pus : List PendingUnit) (pu : PendingUnit) (w : W) → Sound pus w → Sound (pus ++ pu ∷ []) w
  grow-Sound pus pu w (kept, out) = (
    λ speaker.
        All-map (Backed pus speaker) (Backed (pus ++ pu ∷ []) speaker) (prior F speaker w.memory)
          (grow-Backed pus pu speaker) (kept speaker),
    All-map (IsJustified pus) (IsJustified (pus ++ pu ∷ [])) w.out (grow-IsJustified pus pu) out,
  )

  pub send-Sound :
      (pus : List PendingUnit) (e : LiveEvent F) (w : W)
      → IsJustified pus e
      → Sound pus w
      → Sound pus (send_event F e w).1
  unfolding send_event
  send-Sound pus e w fine (kept, out) = elim (Bool-cases (w.sends w.asked)) [
    | inl t ↦ rw t (kept, All-append (IsJustified pus) w.out (e ∷ []) out (fine, tt))
    | inr t ↦ rw t (kept, out)
  ]

  -- Results flag nothing.
  pub report_each-Sound :
      (pus : List PendingUnit) (event : UnitMember → LiveEvent F) (ms : List UnitMember) (w : W)
      → ((m : UnitMember) → IsJustified pus (event m))
      → Sound pus w
      → Sound pus (report_each F normalize event ms w).1
  unfolding report_each
  report_each-Sound pus event [] w fine h = h
  report_each-Sound pus event (m ∷ ms) w fine h =
      let sent = send_event F (event m) w in
      let first = send-Sound pus (event m) w (fine m) h in
      elim (Bool-cases sent.0) [
        | inl t ↦ rw t (report_each-Sound pus event ms sent.1 fine first)
        | inr t ↦ rw t first
      ]

  pub result_for-IsJustified :
      (pus : List PendingUnit) (r : MatchResult F) (d : Decision) (m : UnitMember)
      → IsJustified pus (result_for F normalize r d m)
  result_for-IsJustified pus r d m = elim (Bool-cases d.checkable) [
    | inl t ↦ rw t tt
    | inr t ↦ rw t tt
  ]
