-- ===== src/Wiki/Delta/Courses.antt =====
-- The courses that `RunDelta` of stack/backend/internal/wiki/delta.go can take, with its writes.
use truth_in_stream.Prelude.{
  ℕ, String, ◌+◌, List, [], ◌∷◌, ◌++◌, map, length, some, arith, ◌≡◌, refl,
}
use truth_in_stream.Corpus.{EvidenceSyncState}
use truth_in_stream.Wiki.Changes.{Change, ChangePlan, plan_changes, dedupe_titles}
use truth_in_stream.Wiki.Changes.Net.{IsNewest}
use truth_in_stream.Wiki.Delta.{
  DeltaConfig, DeltaStats, Extract, DeltaError, Outcome, ok, failed, diverges, ContentChunk, Write,
  trimmed, upserted, deleted, embedded, checkpointed, DeltaEnv, asked_pages, unchanged_filtered,
  no_stats, Built,
}
use truth_in_stream.Wiki.Delta.Run.{build_delta_chunks}

module _ {Value : Type 0} where
  -- The checkpoints among some writes.
  abbrev pub checkpoints : List (Write Value) → List EvidenceSyncState
  checkpoints [] = []
  checkpoints (checkpointed st ∷ ws) = st ∷ checkpoints ws
  checkpoints (trimmed ts ∷ ws) = checkpoints ws
  checkpoints (upserted cs ∷ ws) = checkpoints ws
  checkpoints (deleted ds ∷ ws) = checkpoints ws
  checkpoints (embedded cs ∷ ws) = checkpoints ws

  -- The writes of embeddings, for these lists of chunks.
  abbrev pub embeds : List (List (ContentChunk Value)) → List (Write Value)
  embeds = map embedded

  pub checkpoints-embeds :
      (css : List (List (ContentChunk Value))) (ws : List (Write Value))
      → checkpoints (embeds css ++ ws) ≡ checkpoints ws
  checkpoints-embeds [] ws = refl
  checkpoints-embeds (cs ∷ css) ws = checkpoints-embeds css ws

  -- The number of chunks in these lists.
  abbrev pub chunk_count : List (List (ContentChunk Value)) → ℕ
  chunk_count [] = 0
  chunk_count (cs ∷ css) = length cs + chunk_count css

  pub chunk_count-append :
      (css : List (List (ContentChunk Value))) (cs : List (ContentChunk Value))
      → chunk_count (css ++ cs ∷ []) ≡ length cs + chunk_count css
  chunk_count-append [] cs = refl
  chunk_count-append (ds ∷ css) cs = omega (arith, chunk_count-append css cs)

  -- The pages that a window removes: those whose last change is a deletion, and those that are gone.
  abbrev pub deletes_of : ChangePlan → Built Value → List String
  deletes_of plan built = dedupe_titles (plan.deletes ∷ built.missing ∷ [])

module _ {Value World : Type 0} (env : DeltaEnv Value World) (cfg : DeltaConfig) where
  -- The worlds in which a run that started in `w` makes its calls.
  abbrev pub at_changes : World → World
  at_changes w = (env.embed_in_progress (env.get_sync_state cfg.corpus w).1).1

  abbrev pub at_plan : World → EvidenceSyncState → World
  at_plan w state = (env.recent_changes state.last_change_ts (at_changes w)).1

  abbrev pub at_stored : World → World
  at_stored w = (env.count_documents w).1

  abbrev pub at_extracts : World → List Change → World
  at_extracts w changes =
      (env.stored_revisions cfg.corpus (asked_pages (plan_changes changes).edits) (at_stored w)).1

  -- The store has this checkpoint, and the API reports these changes since then.
  pub record IsReported (w : World) (state : EvidenceSyncState) (changes : List Change)
      : Type 0 where
    pub read : (env.get_sync_state cfg.corpus w).0 ≡ some (some state)
    pub reported : (env.recent_changes state.last_change_ts (at_changes w)).0 ≡ some changes

  -- The store has these revisions of the changed pages, and this is built from what the API sends
  -- for the pages of which it has not the reported revision.
  pub record IsBuilt (w : World) (changes : List Change) (stored : List (ℕ × ℕ))
      (built : Built Value) : Type 0 where
    pub found : List Extract
    pub revisions :
        (env.stored_revisions cfg.corpus (asked_pages (plan_changes changes).edits) (at_stored w)).0
        ≡ some stored
    pub fetched :
        (env.extracts
          (unchanged_filtered stored (plan_changes changes).edits).0
          (at_extracts w changes)).0
        ≡ some found
    pub assembled : build_delta_chunks env cfg (plan_changes changes).edits found ≡ ok built

  -- How a run from the world `w` ends, with its writes, the latest first.
  pub data Course (w : World) : Outcome DeltaStats → List (Write Value) → Type 0 where
    -- An error, or no return: there is no checkpoint.
    stopped :
        {e : DeltaError} {ws : List (Write Value)} → checkpoints ws ≡ [] → Course w (failed e) ws
    endless : {ws : List (Write Value)} → checkpoints ws ≡ [] → Course w diverges ws
    -- The API reports no change: there is no write at all.
    unchanged : {state : EvidenceSyncState} → IsReported w state [] → Course w (ok no_stats) []
    -- The stale tails are trimmed, the chunks written, the pages deleted and the pending chunks
    -- embedded before the checkpoint moves to the newest change of the window.
    synced :
        (state : EvidenceSyncState) (changes : List Change) (stored : List (ℕ × ℕ))
        (built : Built Value) (newest : ℕ) (css : List (List (ContentChunk Value)))
        {stats : DeltaStats}
        → IsReported w state changes
        → IsBuilt (at_plan w state) changes stored built
        → IsNewest newest changes
        → stats.changed ≡ length built.trims
        → stats.skipped ≡ (unchanged_filtered stored (plan_changes changes).edits).1
        → stats.deleted ≡ length (deletes_of (plan_changes changes) built)
        → stats.embedded ≡ chunk_count css
        → Course w (ok stats) (
            checkpointed (record state { last_change_ts = newest })
            ∷ (embeds css
                ++ (deleted (deletes_of (plan_changes changes) built)
                    ∷ upserted built.chunks
                    ∷ trimmed built.trims
                    ∷ [])))
