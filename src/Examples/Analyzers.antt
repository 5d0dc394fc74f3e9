-- ===== src/Examples/Analyzers.antt =====
-- Live analyzers at concrete inputs.
use mathlib.Core.List.{Perm}
use mathlib.Core.List.Perm
use truth_in_stream.Prelude.{
  ◌<◌, String, Bool, true, false, List, [], ◌∷◌, ◌++◌, map, All, gather, Option, none, some, Runes,
  codes, spelled, ◌=?◌, pos, negsuc, lookup, insert, ◌≡◌, refl,
}
use truth_in_stream.Service.Memory.{
  prior, remember, new_speaker_memory, rank_by_similarity, cosine_similarity,
}
use truth_in_stream.Service.Events.{
  LiveEvent, consistency, matched, no_skip, not_covered, not_a_claim,
}
use truth_in_stream.Service.Live.{PendingUnit, Effect, start, analyze_loop, closed}
use truth_in_stream.Service.Live.Ledger.{numbered, finals, captioned}
use truth_in_stream.Service.Gate.{MatchResult, open_gate, two_stages, evaluate}
use truth_in_stream.Service.Analyzer.{
  Stance, LiveAnalyzerConfig, LiveAnalyzer, new_live_analyzer, score_units,
}
use truth_in_stream.Service.Analyzer.Results.{answers_of, results_of, verdicts}
use truth_in_stream.Service.Analyzer.Session.{events_of, units_of, score_units_answers}
use truth_in_stream.Service.Analyzer.Flags.{IsJustified}
use truth_in_stream.Service.Analyzer.Flags.Scored.{score_units-IsJustified}
use truth_in_stream.Examples.Numbers.{tenths}
use truth_in_stream.Examples.Claims.{plain, world, near}
use truth_in_stream.Examples.Sessions.{says, inputs, sends, offers, never_canceled}

abbrev found : MatchResult tenths
found = record {
  matches = near ∷ [];
  confidence = record {
    score = some 10;
    supporting = some 10;
    contradicting = some 0;
    evidence_items = 1;
  };
  query_embedding = some 10 ∷ [];
}

abbrev disagree : Stance tenths
disagree earlier later = some (true, "it was blue")

abbrev configured : LiveAnalyzerConfig tenths
configured = record {
  has_stream = true;
  matcher = some (λ _. some found);
  prechecker = none;
  concurrency = pos 0;
  queue_depth = negsuc 0;
  max_sentences = pos 2;
  idle_flush = pos 0;
  max_hold = negsuc 4;
  stance = some disagree;
  consistency_top_k = pos 0;
  consistency_floor = some 0;
  verify = none;
}

abbrev analyzer : LiveAnalyzer tenths
analyzer = record {
  matcher = λ _. some found;
  prechecker = open_gate;
  concurrency = 4;
  queue_depth = 32;
  settings = record { max_sentences = 2; idle_flush = 2_000_000_000; max_hold = 0 };
  stance = some disagree;
  consistency_top_k = 3;
  consistency_floor = some 6;
  stance_slots = some 4;
  verify = none;
}

made : new_live_analyzer tenths configured ≡ some analyzer
unfolding new_live_analyzer
made = refl

abbrev effects : List (Effect tenths)
effects =
    (analyze_loop tenths sends offers analyzer.settings (inputs ++ closed ∷ [])
      (start tenths)).1.effects

abbrev channel : List (LiveEvent tenths)
channel =
    events_of tenths effects
    ++ (score_units tenths plain analyzer (units_of tenths effects) world).out

score_units_answers_example :
    (gather (captioned tenths) effects ≡ numbered 0 (finals inputs))
    × Perm (answers_of tenths channel) (numbered 0 (finals inputs))
    × Perm (results_of tenths channel) (
        results_of tenths (events_of tenths effects)
        ++ gather (verdicts tenths plain analyzer) (units_of tenths effects))
    × (0 < analyzer.settings.idle_flush)
score_units_answers_example =
    score_units_answers tenths plain sends offers (λ _. refl) never_canceled configured analyzer
      inputs (units_of tenths effects) world channel made refl
      (refl, (refl, (refl, (refl, (refl, tt))))) (Perm.refl _) (λ _. refl) refl (Perm.refl _)

abbrev says_twice : List PendingUnit
says_twice =
    record { speaker = "A"; members = record { id = "0"; seg = says "A" "The sky is blue." } ∷ [] }
    ∷ record { speaker = "A"; members = record { id = "1"; seg = says "A" "It never is." } ∷ [] }
    ∷ []

score_units-IsJustified_example :
    All
      (IsJustified tenths plain analyzer says_twice)
      (score_units tenths plain analyzer says_twice world).out
score_units-IsJustified_example =
    score_units-IsJustified tenths plain analyzer says_twice world refl
      (unfold new_speaker_memory in refl) refl

-- The second statement is flagged against the first.
abbrev told : String → String → LiveEvent tenths
told id text = matched id (says "A" text) no_skip (near ∷ []) found.confidence

flagged :
    (score_units tenths plain analyzer says_twice world).out
    ≡ told "0" "The sky is blue."
      ∷ told "1" "It never is."
      ∷ consistency "1" (says "A" "It never is.") (record {
        earlier_id = "0";
        earlier_text = "The sky is blue.";
        speaker = "A";
        rationale = "it was blue";
      })
      ∷ []
unfolding score_units prior remember lookup insert rank_by_similarity cosine_similarity spelled
flagged = refl

-- The gates: nothing is asked of the corpora about what is no claim.
abbrev claims_only : Runes → Option Bool
claims_only text = some (spelled text =? "Snow is white.")

gates :
    map
      (λ text. evaluate (two_stages claims_only (some (λ _. some false))) text)
      (codes "Snow is white." ∷ codes "Hello." ∷ [])
    ≡ some (record { checkable = false; reason = not_covered })
      ∷ some (record { checkable = false; reason = not_a_claim })
      ∷ []
unfolding evaluate spelled
gates = refl
