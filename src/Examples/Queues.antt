-- ===== src/Examples/Queues.antt =====
-- The queue consumers at concrete inputs.
use mathlib.Core.List.{Perm}
use truth_in_stream.Prelude.{
  ℕ, zero, suc, ◌+◌, ◌<◌, String, Bool, true, false, List, [], ◌∷◌, ◌++◌, map, All, Option, none,
  some, pos, negsuc, ◌≡◌, refl, arith, ◌⊎◌,
}
use truth_in_stream.Jobs.Broker.{Delivery, republish_it, Env, State}
use truth_in_stream.Jobs.Broker.Settling.{done_with}
use truth_in_stream.Jobs.Embedding.{
  Job, bad_index, validate, decode, WorkerConfig, Json, after_failure,
}
use truth_in_stream.Jobs.Embedding.Retries.{Retries, fresh, again, Retries-bounded}
use truth_in_stream.Jobs.Embedding.Drops.{Sound}
use truth_in_stream.Jobs.Batching.{Event, arrives, fires, run_loop, run}
use truth_in_stream.Jobs.Batching.Kept.{joined, arrivals, Sized}
use truth_in_stream.Jobs.Batching.Delivered.{run_loop_delivers}
use truth_in_stream.Jobs.Batching.Whole.{run_settles, run-Sound}
use truth_in_stream.Jobs.Crawl.{CrawlJob, CrawlJson, CrawlConfig, run_from}
use truth_in_stream.Jobs.Crawl.Drops.{run_from_settles}
use truth_in_stream.Jobs.Crawl.Reasons as Reasons

zeros : ℕ → List ℕ
zeros zero = []
zeros (suc n) = 0 ∷ zeros n

-- The clock counts the calls; the store fails once, at its first call.
env : {Body : Type 0} → Env ℕ Body ℕ
unfolding zeros
env = record {
  done = λ t. false;
  embed_documents = λ texts t. (some (map (λ text. zeros 1024) texts), suc t);
  set_embeddings = λ staging chunks t. (elim t [ suc zero ↦ none | _ ↦ some 1 ], suc t);
  upsert_chunk = λ chunk t. (elim t [ suc zero ↦ false | _ ↦ true ], suc t);
  enqueue = λ body priority t. (true, suc t);
  acknowledge = λ d t. suc t;
  reject = λ d t. suc t;
}

abbrev job : Job
job = record {
  source = "enwiki";
  external_id = "12";
  chunk_index = pos 0;
  content = "Snow is white.";
  attempt = pos 0;
  staging = false;
}

validate_negative : validate (record job { chunk_index = negsuc 0 }) ≡ some bad_index
unfolding validate
validate_negative = refl

-- A body is a job, or nothing that can be read.
abbrev json : Json (Option Job)
json = record { unmarshal = λ body. body; marshal = λ j. some (some j) }

abbrev worker : WorkerConfig
worker = record {
  concurrency = 1;
  batch_size = 2;
  batch_wait = 200000000;
  max_attempts = 3;
  known_versions = "v2" ∷ [];
}

abbrev delivery : Option Job → String → Delivery (Option Job)
delivery body version = record { body = body; priority = 5; version = version }

abbrev events : List (Event (Option Job))
events =
    arrives (delivery (some job) "v2")
    ∷ arrives (delivery none "v2")
    ∷ fires
    ∷ arrives (delivery (some job) "v1")
    ∷ []

abbrev slots : ℕ → Bool
slots n = true

run_loop_delivers_example :
    let r = run_loop worker slots false events in
    (joined r.0.dispatched ++ r.0.requeued ++ arrivals r.1 ≡ arrivals events)
    × (r.0.batch ≡ [])
    × All (Sized worker slots) r.0.dispatched
run_loop_delivers_example = run_loop_delivers worker slots (omega arith) false events

run_settles_example :
    Perm
      (done_with (run env json worker slots false events (record { world = 0; trace = [] }))
        ++ arrivals (run_loop worker slots false events).1)
      (arrivals events)
run_settles_example = run_settles env json worker (omega arith) slots false events 0

run-Sound_example :
    Sound json worker
      (run env json worker slots false events (record { world = 0; trace = [] })).trace
run-Sound_example = run-Sound env json worker slots false events 0

abbrev failing : State ℕ (Option Job) ℕ
failing = record { world = 0; trace = [] }

one_retry : Retries env json worker job 1 (record job { attempt = pos 1 })
unfolding after_failure decode env
one_retry = again fresh (record {
  priority = 5;
  state = failing;
  body = some (record job { attempt = pos 1 });
  sent = refl;
  read = refl;
})

Retries-bounded_example :
    (record job { attempt = pos 1 } ≡ record job { attempt = pos (0 + 1) })
    × (◌≡◌ {A = ℕ} 1 0 ⊎ (0 + 1 < 3))
    × (after_failure env json worker (record job { attempt = pos 1 }) 5 failing
        ≡ republish_it (some (record job { attempt = pos 2 })) 5)
unfolding env
Retries-bounded_example =
    Retries-bounded env json worker (λ j body h. cc) job (record job { attempt = pos 1 }) 0 1 5
      failing refl one_retry

abbrev crawl_job : CrawlJob
crawl_job = record {
  page_id = pos 12;
  chunk_index = pos 0;
  title = "Snow";
  url = "https://en.wikipedia.org/wiki/Snow";
  revision_id = pos 7;
  corpus = "enwiki";
  content = "Snow is white.";
  section = "";
  kind = "lead";
  attempt = pos 0;
}

abbrev crawl_json : CrawlJson (Option CrawlJob)
crawl_json = record { unmarshal = λ body. body; marshal = λ j. some (some j) }

abbrev crawler : CrawlConfig
crawler = record { concurrency = 1; max_attempts = 2; known_versions = [] }

abbrev crawls : List (Delivery (Option CrawlJob))
crawls =
    record { body = some crawl_job; priority = 1; version = "v1" }
    ∷ record { body = none; priority = 1; version = "v1" }
    ∷ []

run_from_settles_example :
    let r = run_from env crawl_json crawler 0 slots crawls (record { world = 0; trace = [] }) in
    Perm (r.1 ++ done_with r.0) crawls × Reasons.Sound crawl_json crawler r.0.trace
run_from_settles_example = run_from_settles crawl_json crawler env slots crawls 0
