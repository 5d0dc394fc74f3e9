-- ===== src/Service/Analyzer/Flags/Detected.antt =====
-- One consistency check of stack/backend/internal/service/live.go, on the units scored before it.
use mathlib.Core.List.{mem-append_right, mem-cons_self}
use truth_in_stream.Prelude.{
  String, Bool, true, false, List, [], ◌∷◌, ◌++◌, All, Option, none, some, spelled, ◌=?◌, ◌≡◌, refl,
}
use truth_in_stream.Prelude.Floats.{Floats}
use truth_in_stream.Service.Memory.{PriorStatement, prior, rank_by_similarity}
use truth_in_stream.Service.Memory.Remembered.{All-rank_by_similarity, AllPrior, AllPrior-remember}
use truth_in_stream.Service.Events.{Decision, consistency, World}
use truth_in_stream.Service.Path.{Job, stance_round, detect, remember_if}
use truth_in_stream.Service.Live.{UnitMember, PendingUnit, combined_text}
use truth_in_stream.Service.Gate.{MatchResult, gate_and_match}
use truth_in_stream.Service.Analyzer.{Stance, LiveAnalyzer, statement_of}
use truth_in_stream.Service.Analyzer.Flags.{Statement, Backed, Sound, send-Sound}

module _ (F : Floats) (normalize : String → String) (a : LiveAnalyzer F) (pus : List PendingUnit)
    (speaker : String) (m : UnitMember) (ms : List UnitMember) (classify : Stance F)
    (configured : a.stance ≡ some classify) (known : (speaker =? "") ≡ false) (r : MatchResult F)
    (d : Decision)
    (answer : gate_and_match F a.prechecker a.matcher (combined_text (m ∷ ms)) ≡ some (r, d))
    (let_through : d.checkable ≡ true) where
  abbrev W : Type 0
  W = World F

  abbrev pu : PendingUnit
  pu = record { speaker = speaker; members = m ∷ ms }

  abbrev pub now : List PendingUnit
  now = pus ++ pu ∷ []

  abbrev text : String
  text = spelled (combined_text (m ∷ ms))

  this_statement : Statement F normalize a pu speaker m.id text
  this_statement = record {
    first = m;
    others = ms;
    members = refl;
    spoken_by = refl;
    named = refl;
    read = refl;
    result = r;
    decision = d;
    answer = answer;
    let_through = let_through;
  }

  abbrev job : Job
  job = statement_of F normalize m pu (combined_text (m ∷ ms))

  stance_round-Sound :
      (p : PriorStatement F) (rest : Bool × W) (w : W) (o : Option (Bool × String))
      → classify p.text text ≡ o
      → Backed F normalize a pus speaker p
      → Sound F normalize a now rest.1
      → Sound F normalize a now w
      → Sound F normalize a now (stance_round F normalize job p rest w o).1
  unfolding stance_round this_statement
  stance_round-Sound p rest w none e backed hr hw = hr
  stance_round-Sound p rest w (some (false, why)) e backed hr hw = hr
  stance_round-Sound p rest w (some (true, why)) e (earlier, there, s) hr hw =
      send-Sound F normalize a now
        (consistency m.id m.seg
          (record { earlier_id = p.id; earlier_text = p.text; speaker = speaker; rationale = why }))
        w
        (record {
          before = pus;
          unit = pu;
          after = [];
          order = refl;
          earlier = earlier;
          scored_before = there;
          text = text;
          later_statement = this_statement;
          earlier_statement = s;
          shown_on = refl;
          known = known;
          classify = classify;
          configured = configured;
          contradicts = e;
        })
        hw

  -- The first of the earlier statements that the new one contradicts is flagged.
  detect-Sound :
      (ps : List (PriorStatement F)) (w : W)
      → All (Backed F normalize a pus speaker) ps
      → Sound F normalize a now w
      → Sound F normalize a now (detect F normalize (λ earlier. classify earlier text) job ps w).1
  unfolding detect
  detect-Sound [] w backed h = h
  detect-Sound (p ∷ ps) w (one, backed) h =
      stance_round-Sound p (detect F normalize (λ earlier. classify earlier text) job ps w) w
        (classify p.text text) refl one (detect-Sound ps w backed h) h

  remember_if-Sound :
      (embedding : List F.Float) (found : Bool × W)
      → Sound F normalize a now found.1
      → Sound F normalize a now (remember_if F normalize job embedding found)
  unfolding remember_if
  remember_if-Sound embedding (false, w) h = h
  remember_if-Sound embedding (true, w) (kept, out) = (
    AllPrior-remember F (Backed F normalize a now) speaker
        (record { id = m.id; text = text; embedding = embedding }) w.memory
        (pu, mem-append_right pus mem-cons_self, this_statement) kept,
    out,
  )

  pub detected-Sound :
      (embedding : List F.Float) (w : W)
      → AllPrior F (Backed F normalize a pus) w.memory
      → Sound F normalize a now w
      → Sound F normalize a now (
          let ranked =
            rank_by_similarity F embedding
              (prior F speaker w.memory)
              a.consistency_floor
              a.consistency_top_k in
          remember_if F normalize job embedding
            (detect F normalize (λ earlier. classify earlier text) job ranked w))
  detected-Sound embedding w before h =
      let ranked =
        rank_by_similarity F embedding (prior F speaker w.memory) a.consistency_floor
          a.consistency_top_k in
      remember_if-Sound embedding
        (detect F normalize (λ earlier. classify earlier text) job ranked w)
        (detect-Sound ranked w
          (All-rank_by_similarity F (Backed F normalize a pus speaker) embedding
            (prior F speaker w.memory) a.consistency_floor a.consistency_top_k (before speaker))
          h)
