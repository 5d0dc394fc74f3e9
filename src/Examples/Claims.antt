-- ===== src/Examples/Claims.antt =====
-- Examples for the scoring of a claim, the speaker memory and the verdict cache.
use truth_in_stream.Prelude.{
  ℕ, ◌≤◌, ◌<◌, arith, String, true, false, List, [], ◌∷◌, ◌++◌, Option, none, some, keep, length,
  lookup, insert, ◌≡◌, refl, ◌⊎◌,
}
use mathlib.Core.List.{Perm}
use truth_in_stream.Prelude.Sorting.{IsSorted}
use truth_in_stream.Service.Verdicts.{
  claim, curated, SegmentMatch, no_match_verdict, curated_verdict, fast_match,
}
use truth_in_stream.Service.Memory.{
  PriorStatement, new_speaker_memory, counts_of, observe_verdict, rank_by_similarity, prior,
}
use truth_in_stream.Service.Memory.Tallies.{Counted, expected, plus, replay, counts_of-replay}
use truth_in_stream.Service.Memory.Ranking.{nearer, above, rank_by_similarity_top}
use truth_in_stream.Service.ClaimCache.{
  ClaimCache, new_claim_cache, CacheEntry, get, put, cache_get, cache_put,
}
use truth_in_stream.Service.ClaimCache.History.{
  CacheUse, getting, putting, run_uses, recalled, InOrder, run_uses-recalled,
}
use truth_in_stream.Service.Events.{World, verified, send_event}
use truth_in_stream.Service.Path.{Config, Calls, Job, acquired, score_claim}
use truth_in_stream.Service.Batch.{resolve_claim_batch}
use truth_in_stream.Service.Shown.{shown}
use truth_in_stream.Service.Counting.{CountsOnce, score_claim-CountsOnce}
use truth_in_stream.Service.Parity.{score_claim-resolve_claim_batch}
use truth_in_stream.Examples.Numbers.{tenths}

abbrev said : List Counted
said =
    record { speaker = "A"; state = "credible"; flagged = false }
    ∷ record { speaker = "B"; state = "disputed"; flagged = true }
    ∷ record { speaker = "A"; state = "disputed"; flagged = true }
    ∷ []

counts_of-replay_example :
    counts_of tenths (replay tenths said (new_speaker_memory tenths)) "A"
    ≡ plus (counts_of tenths (new_speaker_memory tenths) "A") (expected "A" said)
counts_of-replay_example = counts_of-replay tenths "A" said (new_speaker_memory tenths)

abbrev embedding : List (Option ℕ)
embedding = some 10 ∷ []

abbrev earlier : List (PriorStatement tenths)
earlier =
    record { id = "0"; text = "near"; embedding = some 8 ∷ [] }
    ∷ record { id = "1"; text = "other"; embedding = some 10 ∷ some 1 ∷ [] }
    ∷ record { id = "2"; text = "same"; embedding = some 10 ∷ [] }
    ∷ []

rank_by_similarity_top_example :
    let ranked = rank_by_similarity tenths embedding earlier (some 6) 1 in
    (rest : List (PriorStatement tenths)) × Perm
      (ranked ++ rest)
      (keep (above tenths embedding (some 6)) earlier)
    × IsSorted (nearer tenths embedding) (ranked ++ rest)
    × (0 < 1 → length ranked ≤ 1)
    × ((◌≡◌ {A = ℕ} 1 0) ⊎ (length ranked < 1) → rest ≡ [])
rank_by_similarity_top_example = rank_by_similarity_top tenths embedding (some 6) 1 earlier

abbrev entry : CacheEntry tenths
entry = record { source = curated; verdict = no_match_verdict tenths; embedding = []; expires = 0 }

abbrev empty : ClaimCache tenths
empty = record { ttl = 60; entries = [] }

abbrev pub plain : String → String
plain s = s

-- "x" is stored twice; the second entry ends at 67
abbrev uses : List (CacheUse tenths)
uses =
    putting 5 "x" entry ∷ getting 6 "x" ∷ putting 7 "x" entry ∷ getting 67 "x" ∷ getting 68 "x" ∷ []

uses_found :
    run_uses tenths plain uses (new_claim_cache tenths 60)
    ≡ some (record entry { expires = 65 }) ∷ some (record entry { expires = 67 }) ∷ none ∷ []
unfolding run_uses new_claim_cache get put lookup insert
uses_found = refl

run_uses-recalled_example :
    run_uses tenths plain uses (new_claim_cache tenths 60) ≡ recalled tenths plain 60 [] uses
run_uses-recalled_example = run_uses-recalled tenths plain 60 uses (
    unfold InOrder in (omega arith, (omega arith, (omega arith, (omega arith, (omega arith, tt))))))

abbrev pub config : Config tenths
config = record {
  fast_tau = some 9;
  political = none;
  second_pass = none;
  stance = some (some 6, 3);
}

abbrev pub near : SegmentMatch tenths
near = record {
  kind = claim;
  claim = "the sky is blue";
  verdict = "corroborates";
  sources = [];
  similarity = some 10;
  evidence_id = "c1";
  article = none;
  contribution = some 0;
}

abbrev pub calls : Calls tenths
calls = record {
  get_time = 1;
  put_time = 2;
  reput_time = 3;
  retrieve = some (record { matches = near ∷ []; embedding = embedding });
  search_political = none;
  route = none;
  slot = acquired;
  verify = λ _. none;
  verify_political = λ _. none;
  reverify = λ _. none;
  contradicts = λ _. none;
}

abbrev job : Job
job = record {
  unit_id = "0";
  segment = record { start = 0; end = 900; text = []; speaker = "A" };
  speaker = "A";
  claim = record { claim_id = "0-0"; text = "the sky is blue" };
}

abbrev pub world : World tenths
world = record {
  out = [];
  sends = λ _. true;
  asked = 0;
  cache = some empty;
  memory = record { by_speaker = []; credibility = [] };
}

borrowed_shown :
    shown tenths plain "0-0" (score_claim tenths plain config calls job world)
    ≡ some (verified curated (curated_verdict tenths near))
unfolding score_claim curated_verdict lookup cache_get cache_put insert fast_match send_event
    observe_verdict prior rank_by_similarity
borrowed_shown = refl

score_claim-resolve_claim_batch_example :
    shown tenths plain "0-0" (score_claim tenths plain config calls job world)
    ≡ some (resolve_claim_batch tenths plain config calls job.claim world.cache).0
score_claim-resolve_claim_batch_example =
    score_claim-resolve_claim_batch tenths plain config calls job world (λ n. refl) (λ e. cc)

score_claim-CountsOnce_example :
    CountsOnce tenths plain job world (score_claim tenths plain config calls job world)
score_claim-CountsOnce_example = score_claim-CountsOnce tenths plain config calls job world
