-- ===== src/Wiki/Delta/Run.antt =====
-- The calls of `RunDelta` of stack/backend/internal/wiki/delta.go in their order.
use truth_in_stream.Prelude.{
  ℕ, zero, suc, ◌+◌, ◌-◌, ◌*◌, String, not, ◌&&◌, ◌||◌, List, [], ◌∷◌, ◌++◌, map, length, Option,
  none, some, Dict, lookup, itoa, ltb, ◌==◌, if◌then◌else◌, pos,
}
use truth_in_stream.Corpus.{EvidenceCursor, EvidenceSyncState}
use truth_in_stream.Wiki.Bytes.{Bytes}
use truth_in_stream.Wiki.Chunk.{chunk}
use truth_in_stream.Wiki.Changes.{Change, ChangePlan, plan_changes, dedupe_titles}
use truth_in_stream.Wiki.Delta.{
  DeltaConfig, DeltaStats, Extract, Call, bad_config, no_baseline, window_exceeds_retention,
  bulk_embed_in_progress, wrong_count, Outcome, ok, failed, diverges, ContentChunk, trimmed,
  upserted, deleted, embedded, checkpointed, DeltaEnv, asked_pages, unchanged_filtered, grouped,
  with_vectors, cursor_of, first_cursor, day, no_stats, Built,
}
use truth_in_stream.Wiki.Delta.{Call}
use truth_in_stream.Wiki.Delta.Actions.{Action, ◌>>=◌, ◌>>◌, return, give, refuse_if, ask, tell}

module _ {Value World : Type 0} (env : DeltaEnv Value World) (cfg : DeltaConfig) where
  -- `edits[title].RevisionID`, where the extract reports none
  unfoldable pub revision_for : Dict Change → Extract → ℕ
  revision_for edits ex =
      if ex.revision_id == 0
      then elim (lookup ex.title edits) [ none ↦ 0 | some ch ↦ ch.revision_id ]
      else ex.revision_id

  unfoldable pub chunks_of : ℕ → Extract → ℕ → List Bytes → List (ContentChunk Value)
  chunks_of revision ex index [] = []
  chunks_of revision ex index (content ∷ pieces) =
      record {
        source = cfg.corpus;
        external_id = itoa ex.page_id;
        chunk_index = pos index;
        title = ex.title;
        url = env.page_url cfg.corpus ex.title;
        content = content;
        kind = "lead";
        metadata = some (record { revision_id = pos revision; section = "" });
        embedding = [];
      }
      ∷ chunks_of revision ex (suc index) pieces

  abbrev pub add_extract :
      Dict Change → Extract → Option (List Bytes) → Outcome (Built Value) → Outcome (Built Value)
  add_extract edits ex none rest = diverges
  add_extract edits ex (some pieces) (ok built) = ok (record {
    chunks = chunks_of (revision_for edits ex) ex 0 pieces ++ built.chunks;
    trims =
        record { source = cfg.corpus; external_id = itoa ex.page_id; from_index = length pieces }
        ∷ built.trims;
    missing = built.missing;
  })
  add_extract edits ex (some pieces) (failed e) = failed e
  add_extract edits ex (some pieces) diverges = diverges

  abbrev pub add_missing : String → Outcome (Built Value) → Outcome (Built Value)
  add_missing title (ok built) = ok (record built { missing = title ∷ built.missing })
  add_missing title (failed e) = failed e
  add_missing title diverges = diverges

  -- `buildDeltaChunks`; it does not return where `Chunk` does not.
  unfoldable pub build_delta_chunks : Dict Change → List Extract → Outcome (Built Value)
  unfolding chunks_of revision_for chunk
  build_delta_chunks edits [] = ok (record { chunks = []; trims = []; missing = [] })
  build_delta_chunks edits (ex ∷ extracts) =
      let rest = build_delta_chunks edits extracts in
      if ex.missing
      then add_missing ex.title rest
      else add_extract edits ex (chunk (env.utf8 ex.title) ex.text) rest

  -- The requests of `embedChunks`, one for each group.
  unfoldable pub embed_groups :
      List (List (ContentChunk Value)) → Action Value World (List (ContentChunk Value))
  unfolding with_vectors
  embed_groups [] = return []
  embed_groups (group ∷ groups) = do
    vectors ← ask Call.embed_documents (env.embed_documents (map (λ c. c.content) group))
    refuse_if (not (length vectors == length group)) wrong_count
    rest ← embed_groups groups
    return (with_vectors group vectors ++ rest)

  unfoldable pub embed_chunks :
      List (ContentChunk Value) → Action Value World (List (ContentChunk Value))
  unfolding embed_groups grouped
  embed_chunks chunks = embed_groups (grouped cfg.batch_size [] chunks)

  -- One round of `embedPending` on the pending chunks, given the later ones.
  unfoldable pub embed_page :
      (EvidenceCursor → ℕ → Action Value World ℕ)
      → ℕ
      → List (ContentChunk Value)
      → Action Value World ℕ
  unfolding embed_chunks cursor_of
  embed_page later count [] = return count
  embed_page later count (c ∷ chunks) = do
    done ← embed_chunks (c ∷ chunks)
    tell Call.set_chunk_embeddings (env.set_chunk_embeddings done) (embedded done)
    later (cursor_of c chunks) (count + length done)

  -- `embedPending`: as many rounds as there is fuel, and no return without.
  unfoldable pub embed_pending : ℕ → EvidenceCursor → ℕ → Action Value World ℕ
  unfolding embed_page
  embed_pending zero cur count = give diverges
  embed_pending (suc fuel) cur count = do
    chunks ←
        ask Call.unembedded_chunks (env.unembedded_chunks cur (cfg.batch_size * cfg.concurrency))
    embed_page (embed_pending fuel) count chunks

  -- The writes of a run, in their order.
  unfoldable pub write_all :
      ℕ → EvidenceSyncState → ChangePlan → DeltaStats → Built Value → Action Value World DeltaStats
  unfolding embed_pending dedupe_titles
  write_all fuel state plan stats built = do
    tell Call.trim_documents (env.trim_documents built.trims) (trimmed built.trims)
    tell Call.upsert_chunks (env.upsert_chunks built.chunks) (upserted built.chunks)
    let deletes = dedupe_titles (plan.deletes ∷ built.missing ∷ [])
    tell Call.delete_by_title (env.delete_by_title cfg.corpus deletes) (deleted deletes)
    count ← embed_pending fuel first_cursor 0
    let next = record state { last_change_ts = plan.max_ts }
    tell Call.set_sync_state (env.set_sync_state next) (checkpointed next)
    return
        (record stats { changed = length built.trims; deleted = length deletes; embedded = count })

  -- What `overBulkThreshold` and `unchangedFiltered` report.
  abbrev pub counted : List (ℕ × ℕ) → ChangePlan → ℕ → DeltaStats
  counted stored plan total = record no_stats {
    skipped = (unchanged_filtered stored plan.edits).1;
    recommend_bulk = ltb 0 total && env.over_share (length plan.edits + length plan.deletes) total;
  }

  -- What follows a plan that is not empty.
  unfoldable pub apply_plan : ℕ → EvidenceSyncState → ChangePlan → Action Value World DeltaStats
  unfolding asked_pages unchanged_filtered build_delta_chunks write_all
  apply_plan fuel state plan = do
    total ← ask Call.count_documents env.count_documents
    stored ← ask Call.stored_revisions (env.stored_revisions cfg.corpus (asked_pages plan.edits))
    let kept = unchanged_filtered stored plan.edits
    extracts ← ask Call.extracts (env.extracts kept.0)
    built ← give (build_delta_chunks plan.edits extracts)
    write_all fuel state plan (counted stored plan total) built

  unfoldable pub sync_changes : ℕ → EvidenceSyncState → List Change → Action Value World DeltaStats
  unfolding apply_plan plan_changes
  sync_changes fuel state [] = return no_stats
  sync_changes fuel state (ch ∷ changes) = apply_plan fuel state (plan_changes (ch ∷ changes))

  -- From the checkpoint on.
  unfoldable pub sync_from : ℕ → ℕ → EvidenceSyncState → Action Value World DeltaStats
  unfolding sync_changes
  sync_from fuel now state = do
    refuse_if (ltb (cfg.retention_days * day) (now - state.last_change_ts)) window_exceeds_retention
    busy ← ask Call.embed_in_progress env.embed_in_progress
    refuse_if busy bulk_embed_in_progress
    changes ← ask Call.recent_changes (env.recent_changes state.last_change_ts)
    sync_changes fuel state changes

  unfoldable pub with_baseline : ℕ → ℕ → Option EvidenceSyncState → Action Value World DeltaStats
  unfolding sync_from
  with_baseline fuel now none = give (failed no_baseline)
  with_baseline fuel now (some state) = do
    refuse_if (state.last_change_ts == 0) no_baseline
    sync_from fuel now state

  -- `RunDelta`
  unfoldable pub run_delta : ℕ → ℕ → Action Value World DeltaStats
  unfolding with_baseline
  run_delta fuel now = do
    refuse_if (ltb cfg.batch_size 1 || ltb cfg.concurrency 1) bad_config
    found ← ask Call.get_sync_state (env.get_sync_state cfg.corpus)
    with_baseline fuel now found
