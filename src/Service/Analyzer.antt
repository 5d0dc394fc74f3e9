-- ===== src/Service/Analyzer.antt =====
-- The live analyzer of stack/backend/internal/service/live.go around its loop: `NewLiveAnalyzer`, and
-- the `scoreUnit` that its workers run, by a verify path where there is one and else by the gate and
-- the matcher, with `detectConsistency`. Logging is left out. The code reads the first member of a
-- unit, and no unit without members is dispatched.
pub mod Results
pub mod Reports
pub mod Session
pub mod Flags
use truth_in_stream.Prelude.{
  ℕ, zero, suc, ◌*◌, String, Bool, true, false, not, ◌||◌, ◌&&◌, List, [], ◌∷◌, Option, none, some,
  Runes, spelled, ℤ, pos, negsuc, if◌then◌else◌,
}
use truth_in_stream.Prelude.Floats.{Floats}
use truth_in_stream.Service.Events.{
  Segment, Decision, LiveEvent, skipped, unit_failed, matched, World, send_event,
}
use truth_in_stream.Service.Path.{Config, Job, consistency_at}
use truth_in_stream.Service.Live.{UnitMember, PendingUnit, Settings, combined_text}
use truth_in_stream.Service.Gate.{Prechecker, open_gate, MatchResult, gate_and_match}
use truth_in_stream.Service.Unit.{UnitCalls, job_of, failure_for, score_unit as score_by_claims}

-- A count that is not positive takes its default.
abbrev pub count_or : ℕ → ℤ → ℕ
count_or default (pos zero) = default
count_or default (pos (suc n)) = suc n
count_or default (negsuc n) = default

-- `MaxHold`: 0 takes the default, less than 0 holds nothing.
abbrev pub hold_or : ℕ → ℤ → ℕ
hold_or default (pos zero) = default
hold_or default (pos (suc n)) = suc n
hold_or default (negsuc n) = 0

-- `time.Second`, in nanoseconds
abbrev pub second : ℕ
second = 1_000_000_000

module _ (F : Floats) where
  open F use {Float, lt, le, f0, f0_6}

  -- The matcher and the stance classifier: an answer, none where they fail. A stance check reads
  -- an earlier text and a later one.
  abbrev pub Matcher : Type 0
  Matcher = Runes → Option (MatchResult F)

  abbrev pub Stance : Type 0
  Stance = String → String → Option (Bool × String)

  -- A verify path that is made, with what its calls answer for each unit.
  pub record Verifying : Type 0 where
    pub config : Config F
    pub calls : PendingUnit → UnitCalls F

  -- `LiveAnalyzerConfig`; the stream is read by the loop, so a flag tells whether it is there.
  pub record LiveAnalyzerConfig : Type 0 where
    pub has_stream : Bool
    pub matcher : Option Matcher
    pub prechecker : Option Prechecker
    pub concurrency : ℤ
    pub queue_depth : ℤ
    pub max_sentences : ℤ
    pub idle_flush : ℤ
    pub max_hold : ℤ
    pub stance : Option Stance
    pub consistency_top_k : ℤ
    pub consistency_floor : Float
    pub verify : Option Verifying

  pub record LiveAnalyzer : Type 0 where
    pub matcher : Matcher
    pub prechecker : Prechecker
    pub concurrency : ℕ
    pub queue_depth : ℕ
    pub settings : Settings
    pub stance : Option Stance
    pub consistency_top_k : ℕ
    pub consistency_floor : Float
    pub stance_slots : Option ℕ
    pub verify : Option Verifying

  abbrev is_zero : Float → Bool
  is_zero x = le x f0 && le f0 x

  abbrev pub gate_or_open : Option Prechecker → Prechecker
  gate_or_open none = open_gate
  gate_or_open (some gate) = gate

  -- The fields after the checks; times are in nanoseconds.
  unfoldable pub analyzer_of : LiveAnalyzerConfig → Matcher → LiveAnalyzer
  analyzer_of c matcher = record {
    matcher = matcher;
    prechecker = gate_or_open c.prechecker;
    concurrency = count_or 4 c.concurrency;
    queue_depth = count_or 32 c.queue_depth;
    settings = record {
      max_sentences = count_or 3 c.max_sentences;
      idle_flush = count_or (2 * second) c.idle_flush;
      max_hold = hold_or (6 * second) c.max_hold;
    };
    stance = c.stance;
    consistency_top_k = count_or 3 c.consistency_top_k;
    consistency_floor = if is_zero c.consistency_floor then f0_6 else c.consistency_floor;
    stance_slots = elim c.stance [ none ↦ none | some _ ↦ some (count_or 4 c.concurrency) ];
    verify = c.verify;
  }

  -- `NewLiveAnalyzer`
  unfoldable pub new_live_analyzer : LiveAnalyzerConfig → Option LiveAnalyzer
  unfolding analyzer_of
  new_live_analyzer c = elim c.matcher [
    | none ↦ none
    | some matcher ↦ if c.has_stream then some (analyzer_of c matcher) else none
  ]

module _ (F : Floats) (normalize : String → String) where
  abbrev W : Type 0
  W = World F

  -- The loop over the members of a unit, which ends the function where an event is not taken.
  unfoldable pub report_each : (UnitMember → LiveEvent F) → List UnitMember → W → Bool × W
  unfolding send_event
  report_each event [] w = (true, w)
  report_each event (m ∷ members) w =
      let sent = send_event F (event m) w in
      let rest = report_each event members sent.1 in if sent.0 then rest else (false, sent.1)

  -- The result of a member: the matches with their confidence, or why the unit is not checked.
  abbrev pub result_for : MatchResult F → Decision → UnitMember → LiveEvent F
  result_for r d m =
      if d.checkable
      then matched m.id m.seg d.reason r.matches r.confidence
      else skipped m.id m.seg d.reason

  -- `detectConsistency`: its loop, what it remembers and what it needs for that are those of
  -- `detectClaimConsistency`, on the statement of the whole unit under its first member.
  abbrev pub statement_of : UnitMember → PendingUnit → Runes → Job
  statement_of m pu text =
      job_of F normalize m pu.speaker (record { claim_id = m.id; text = spelled text })

  unfoldable pub detect_consistency :
      LiveAnalyzer F → UnitMember → PendingUnit → Runes → List F.Float → W → W
  unfolding consistency_at
  detect_consistency a m pu text embedding w = elim a.stance [
    | none ↦ w
    | some contradicts ↦
        consistency_at F normalize (some (a.consistency_floor, a.consistency_top_k))
          (λ earlier. contradicts earlier (spelled text)) (statement_of m pu text) embedding w
  ]

  -- `scoreUnit` after the gate and the matcher
  unfoldable pub report_matched :
      LiveAnalyzer F → UnitMember → PendingUnit → Option (MatchResult F × Decision) → W → W
  unfolding report_each detect_consistency combined_text
  report_matched a m pu none w = (report_each (failure_for F normalize) pu.members w).1
  report_matched a m pu (some (r, d)) w =
      let reported = report_each (result_for r d) pu.members w in
      if reported.0 && d.checkable
      then detect_consistency a m pu (combined_text pu.members) r.query_embedding reported.1
      else reported.1

  unfoldable pub score_by_match : LiveAnalyzer F → PendingUnit → W → W
  unfolding report_matched gate_and_match combined_text
  score_by_match a pu w = elim pu.members [
    | [] ↦ w
    | m ∷ ms ↦
        report_matched a m pu (gate_and_match F a.prechecker a.matcher (combined_text pu.members)) w
  ]

  -- The consistency settings of the analyzer, which the verify path reads.
  abbrev pub stance_of : LiveAnalyzer F → Option (F.Float × ℕ)
  stance_of a = elim a.stance [
    | none ↦ none
    | some _ ↦ some (a.consistency_floor, a.consistency_top_k)
  ]

  -- `scoreUnit`
  unfoldable pub score_unit : LiveAnalyzer F → PendingUnit → W → W
  unfolding score_by_match score_by_claims
  score_unit a pu w = elim a.verify [
    | none ↦ score_by_match a pu w
    | some v ↦
        score_by_claims F normalize (record v.config { stance = stance_of a }) (v.calls pu) pu w
  ]

  -- The workers, on the units in the order in which they are done.
  unfoldable pub score_units : LiveAnalyzer F → List PendingUnit → W → W
  unfolding score_unit
  score_units a [] w = w
  score_units a (pu ∷ pus) w = score_units a pus (score_unit a pu w)
