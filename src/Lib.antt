-- ===== src/Lib.antt =====
-- Verification of the Go backend of truth-in-stream, which transcribes live speech, cuts it into
-- statements, and fact-checks each claim in them against curated fact checks and evidence.
--
-- The parts and how they interact. A live session sends transcripts to the analyzer loop, which
-- captions them and cuts them into units of one speaker, which workers score. A gate lets a unit
-- through or not. Without a verify path the matcher then answers for the whole unit, and its
-- statement is compared with the speaker's earlier ones. With one, the unit is split into claims,
-- and each is scored: a cached verdict, a near match among curated fact checks, or a verdict of
-- the language model on retrieved passages, which a router asks of the sources for the type of the
-- claim, guarded before it is used and doubted by a second pass. Verdicts go out as events, into
-- the claim cache, and into the running tallies of the speaker. The batch path scores the claims
-- of a finished text the same way without events. Around this, an embedding client retries
-- throttled calls and a cache answers the texts it knows; Wikipedia articles are kept up to date
-- and cut into chunks; queue workers embed the chunks of the corpus in batches, and a lambda
-- scales and cleans up these workers; a scheduler starts the runs of the ingestion fleet; TV
-- channels are captured under supervision; and a rate limiter stands before the login.
--
-- The files, and the code that each models, below stack/backend/internal:
--   Prelude       Boolean tests, lists and what their items yield (Gather), maps, texts as code
--                 points and strings of them (Spelling), stable sorting, powers of two, and
--                 `Floats`: float64 as a parameter with the order laws of IEEE 754, NaN included
--   Verify        verify/verify.go and verify/political.go: `validCitations`, `groundVerdict`,
--                 `clampConfidence`, `ValidateCitations`, `Verify`, `sanitizeFlags`,
--                 `ValidatePoliticalCitations`
--   Service.Verdicts    service/verify_path.go, political_path.go, second_pass.go: the verdict types
--                 and the conversions between curated, literal and credibility verdicts
--   Service.Memory      service/consistency.go and credibility.go: `speakerMemory` and its ranking
--   Service.ClaimCache  `claimCache` of service/verify_path.go, its clock an argument
--   Service.Events      `LiveEvent`, `sendEvent` and what the scoring of a claim reads and writes
--   Service.Path        `scoreClaim`, `scorePoliticalClaim`, `maybeReverify`,
--                 `detectClaimConsistency`: what the calls return (Given), how a verdict goes out
--                 (Publishing), how it is found (Checks)
--   Service.Steps       the steps that the scoring of a claim is made of, as an interface of laws
--                 that a relation on the state has to meet to hold of the whole
--   Service.Batch       `resolveClaimBatch`, `resolvePoliticalClaimBatch`, `applyReverifyBatch`
--   Service.Unit        `scoreUnit`, `AnalyzeText` and `decomposeText` of service/verify_path.go
--   Service.Pool        `verifySem` of service/verify_path.go: `acquireVerifySlot`, its blocking variant
--                 and the return of a slot, as steps of the claims' goroutines in any order
--   Service.Setup       `NewVerifyPath` and `newSecondPass`
--   Service.Matching    service/match.go: `NewMatcher` and `validate` (Setup), `MatchSegment` with
--                 its two searches and `embedQuery`; service/confidence.go (Confidence)
--   Service.Router      service/route.go: `NewRouter`, `Retrieve` and `appendUnique`, with the claim
--                 types of claimtype/claimtype.go
--   Service.Sentences   `sentenceCount` and `incompleteTrailingFragment` of service/live.go
--   Service.Live        `liveUnit`, `analyzeLoop` and `dispatch` of service/live.go
--   Service.Gate        `Evaluate` of the gates of service/precheck.go, `gateAndMatch` of
--                 service/gate.go, and `Match` of service/segment_match_adapter.go
--   Service.Analyzer    `NewLiveAnalyzer`, `scoreUnit` and `detectConsistency` of service/live.go, and the
--                 workers of `analyzeLoop`
--   Corpus        domain/evidence_chunk.go and the records of the evidence store that the workers
--                 and the import write: chunks, their kind and metadata, cursors, sync states
--   EvidenceIds   `EvidenceID` of source/source.go, its text and `ParseEvidenceID`
--   Embed.Retry   embed/retry.go: `WithRetry`, `EmbedDocuments`, `delayFor`, `backoff`
--   Embed.Cached  embed/cache.go: the keys, `Get` and `Set`, and the embedder over the cache
--   Jobs.Broker   what the queue consumers share: deliveries, a trace of the calls, retries
--   Jobs.Embedding  embedjob/embedjob.go: a batch of jobs, from decoding to the acknowledgements
--   Jobs.Batching   embedjob/embedjob.go: `Run`, which collects deliveries into batches
--   Jobs.Crawl    crawljob/crawljob.go: `Run`, `handle` and the processing of a chunk
--   Wiki          wiki/chunk.go (Bytes and Chunk: `Chunk` and its packer), wiki/delta.go (Changes:
--                 `planChanges`; Delta: `RunDelta`) and `embedChunks` of wiki/embedrun.go (Delta)
--   Schedule      schedule/registry.go and scheduler.go: the registry, `runSource` and `Run`
--   Capture       tvcapture/supervisor.go: `sendFeed` (Feed), `run` and `computeBackoff` (Restarts)
--   Web.RateLimit  middleware/ratelimit.go: `Allow`, `sweep` and `evictRefilled`
--   Worker        workerlifecycle: scale.go, version.go, cleanup.go
--   Examples      the results below that have hypotheses, at concrete inputs, and tests by evaluation
-- The modules below each of these hold its proofs and are named for what they are about.
--
-- How code becomes a model. A Go function is a function by clauses. State that a function changes
-- is a record that goes in and comes out; the receiver's mutex makes a method one step. An error is
-- `none` or a constructor of a result type. What other code answers (language model, searches,
-- retrievers, embedding client, for the scoring of a claim also the matcher and the router, random
-- numbers, clock, whether a context is done, whether a channel takes a value) is an argument: a
-- record of answers, or a function of the number of the call. The goroutines of a session meet only
-- at these answers: a `select` takes what the environment offers, in any order, so a list of inputs
-- is one interleaving. The scheduler's loops and runs are a relation of steps. Queue workers and
-- the import call a broker, a store and an embedding client: these are a record of calls over one
-- state of the outside world, each of which may fail; batches, handlers and requests that run in
-- parallel are taken one after the other. A trace keeps the writes and the answers of the client,
-- for the queue workers also their failed calls and whether the context was done at an
-- acknowledgement. The sends of a session's workers are kept apart from those of its loop, on the
-- same channel, and a worker is done with a unit before the next unit is scored: the lock of a
-- speaker orders the consistency checks of that speaker so in the program. Slices are lists, maps
-- association lists, texts that are read character by character lists of code points, or of bytes
-- where the code counts bytes. Log lines are left out.
--
-- Bounds and fuel. Counts, sizes and durations are natural numbers; where the source allows
-- negative ones it treats them as 0, as each file says, or the count is an integer. Durations are
-- taken to be small enough that doubling one stays below 2^63. Loops are recursions on their list
-- of inputs, or on the rounds that a constant bound leaves, which the bound itself provides. Fuel
-- is used by `itoa` (one more than its number), by the trimming of white space (the length of the
-- text), and by `addSentence` of the chunker: two rounds for each byte of the sentence and one
-- more, `none` when they do not suffice; and by `RunDelta`: the pages of pending chunks that it
-- embeds, `diverges` when they do not suffice.
--
-- Not modelled: transports, SQL, prompts and their decoding, processes and files (the file of the
-- embedding cache too), the reading of metadata from JSON, configuration and wiring, the user
-- interface; the clustering of embeddings, whose rounding matters and of which `Floats` says too
-- little; the stripping of wiki markup, the classifier and the coverage decider of the gate, the
-- watchdogs of a capture; and of the packages above, what their files do not name.
pub mod Prelude
pub mod Verify
pub mod Service
pub mod Capture
pub mod Corpus
pub mod Embed
pub mod Wiki
pub mod Worker
pub mod Examples
pub mod Jobs
pub mod EvidenceIds
pub mod Web
pub mod Schedule
