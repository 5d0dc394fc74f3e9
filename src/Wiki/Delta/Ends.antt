-- ===== src/Wiki/Delta/Ends.antt =====
-- That `RunDelta` of stack/backend/internal/wiki/delta.go returns.
use truth_in_stream.Prelude.{
  ℕ, String, zero, suc, ◌+◌, ◌<◌, List, [], ◌∷◌, ◌++◌, length, All, Dict, Option, none, some, arith,
  ◌≡◌, ◌≢◌, refl, ap, ◌∙◌, Bool-cases, inl, inr,
}
use truth_in_stream.Corpus.{EvidenceCursor, EvidenceSyncState}
use truth_in_stream.Wiki.Chunk.{tokens_for_len, paragraph_sep, min_chunk_tokens}
use truth_in_stream.Wiki.Chunk.Bounds.{chunk-Limited}
use truth_in_stream.Wiki.Changes.{Change, ChangePlan, plan_changes}
use truth_in_stream.Wiki.Delta.{
  DeltaConfig, DeltaStats, Extract, Call, Outcome, ok, failed, diverges, ContentChunk, DeltaEnv,
  Session, grouped, cursor_of, first_cursor, Built,
}
use truth_in_stream.Wiki.Delta.Actions.{Action, give, bind_rule, ask_rule, tell_rule, refuse_rule}
use truth_in_stream.Wiki.Delta.Run.{
  add_extract, add_missing, build_delta_chunks, embed_groups, embed_chunks, embed_page,
  embed_pending, write_all, counted, apply_plan, sync_changes, sync_from, with_baseline, run_delta,
}

module _ {Value World : Type 0} (env : DeltaEnv Value World) (cfg : DeltaConfig) where
  abbrev Returns : {A : Type 0} → Outcome A × Session Value World → Type 0
  Returns r = r.0 ≢ diverges

  embed_groups-Returns :
      (groups : List (List (ContentChunk Value))) (s : Session Value World)
      → Returns (embed_groups env cfg groups s)
  unfolding embed_groups
  embed_groups-Returns [] s = λ h. cc
  embed_groups-Returns (group ∷ groups) s =
      ask_rule Returns _ Call.embed_documents _ s (λ w h. cc)
        (λ vectors w e.
          refuse_rule Returns _ _ _ (record s { world = w }) (λ h. cc)
            (bind_rule Returns _ (embed_groups env cfg groups) (record s { world = w })
              (λ e h k. cc) (λ h k. embed_groups-Returns groups (record s { world = w }) h)
              (λ rest h k. cc)))

  embed_chunks-Returns :
      (chunks : List (ContentChunk Value)) (s : Session Value World)
      → Returns (embed_chunks env cfg chunks s)
  unfolding embed_chunks
  embed_chunks-Returns chunks s = embed_groups-Returns (grouped cfg.batch_size [] chunks) s

  abbrev pub HasShortTitle : Extract → Type 0
  HasShortTitle ex = tokens_for_len (length (env.utf8 ex.title ++ paragraph_sep)) < min_chunk_tokens

  add_missing-Returns :
      (title : String) (rest : Outcome (Built Value))
      → rest ≢ diverges
      → add_missing env cfg title rest ≢ diverges
  add_missing-Returns title (ok built) h = λ k. cc
  add_missing-Returns title (failed e) h = λ k. cc
  add_missing-Returns title diverges h = h

  add_extract-Returns :
      (edits : Dict Change) (ex : Extract) (pieces : List (List ℕ)) (rest : Outcome (Built Value))
      → rest ≢ diverges
      → add_extract env cfg edits ex (some pieces) rest ≢ diverges
  add_extract-Returns edits ex pieces (ok built) h = λ k. cc
  add_extract-Returns edits ex pieces (failed e) h = λ k. cc
  add_extract-Returns edits ex pieces diverges h = h

  build_delta_chunks-Returns :
      (edits : Dict Change) (extracts : List Extract)
      → All HasShortTitle extracts
      → build_delta_chunks env cfg edits extracts ≢ diverges
  unfolding build_delta_chunks
  build_delta_chunks-Returns edits [] short = λ h. cc
  build_delta_chunks-Returns edits (ex ∷ extracts) short =
      let rest = build_delta_chunks-Returns edits extracts short.1 in
      let packed = chunk-Limited (env.utf8 ex.title) ex.text short.0 in
      elim (Bool-cases ex.missing) [
        | inl e ↦ rw e (add_missing-Returns ex.title _ rest)
        | inr e ↦ rw e (rw packed.1 (add_extract-Returns edits ex packed.0 _ rest))
      ]

  module _ (left : EvidenceCursor → ℕ)
      (pages : (cur : EvidenceCursor) (n : ℕ) (w : World) (c : ContentChunk Value)
          (chunks : List (ContentChunk Value))
        → (env.unembedded_chunks cur n w).0 ≡ some (c ∷ chunks)
        → left (cursor_of c chunks) < left cur)
      (short : (titles : List String) (w : World) (found : List Extract)
        → (env.extracts titles w).0 ≡ some found
        → All HasShortTitle found) where
    embed_page-Returns :
        (later : EvidenceCursor → ℕ → Action Value World ℕ) (count : ℕ)
        (chunks : List (ContentChunk Value)) (s : Session Value World)
        → ((c : ContentChunk Value) (cs : List (ContentChunk Value)) (n : ℕ)
              (t : Session Value World)
            → chunks ≡ c ∷ cs
            → Returns (later (cursor_of c cs) n t))
        → Returns (embed_page env cfg later count chunks s)
    unfolding embed_page
    embed_page-Returns later count [] s ih = λ h. cc
    embed_page-Returns later count (c ∷ chunks) s ih =
        bind_rule Returns _ (embed_chunks env cfg (c ∷ chunks)) s (λ e h k. cc)
          (λ h k. embed_chunks-Returns (c ∷ chunks) s h)
          (λ done h.
            tell_rule Returns _ Call.set_chunk_embeddings _ _ _ (λ w k. cc)
              (λ w. ih c chunks (count + length done) _ refl))

    embed_pending-Returns :
        (fuel : ℕ) (cur : EvidenceCursor) (count : ℕ) (s : Session Value World)
        → left cur < fuel
        → Returns (embed_pending env cfg fuel cur count s)
    unfolding embed_pending
    embed_pending-Returns zero cur count s h = absurd (omega arith)
    embed_pending-Returns (suc fuel) cur count s h =
        ask_rule Returns _ Call.unembedded_chunks _ s (λ w k. cc)
          (λ chunks w e.
            embed_page-Returns (embed_pending env cfg fuel) count chunks (record s { world = w })
              (λ c cs n t same.
                let fewer = pages cur _ s.world c cs (e ∙ ap some same) in
                embed_pending-Returns fuel (cursor_of c cs) n t (omega arith)))

    write_all-Returns :
        (fuel : ℕ) (state : EvidenceSyncState) (plan : ChangePlan) (stats : DeltaStats)
        (built : Built Value) (s : Session Value World)
        → left first_cursor < fuel
        → Returns (write_all env cfg fuel state plan stats built s)
    unfolding write_all
    write_all-Returns fuel state plan stats built s enough =
        tell_rule Returns _ Call.trim_documents _ _ s (λ w k. cc)
          (λ w1.
            tell_rule Returns _ Call.upsert_chunks _ _ _ (λ w k. cc)
              (λ w2.
                tell_rule Returns _ Call.delete_by_title _ _ _ (λ w k. cc)
                  (λ w3.
                    bind_rule Returns _ (embed_pending env cfg fuel first_cursor 0) _ (λ e h k. cc)
                      (λ h k. embed_pending-Returns fuel first_cursor 0 _ enough h)
                      (λ count h.
                        tell_rule Returns _ Call.set_sync_state _ _ _ (λ w k. cc) (λ w k. cc)))))

    apply_plan-Returns :
        (fuel : ℕ) (state : EvidenceSyncState) (plan : ChangePlan) (s : Session Value World)
        → left first_cursor < fuel
        → Returns (apply_plan env cfg fuel state plan s)
    unfolding apply_plan give
    apply_plan-Returns fuel state plan s enough =
        ask_rule Returns _ Call.count_documents _ s (λ w k. cc)
          (λ total w1 e1.
            ask_rule Returns _ Call.stored_revisions _ _ (λ w k. cc)
              (λ stored w2 e2.
                ask_rule Returns _ Call.extracts _ _ (λ w k. cc)
                  (λ found w3 e3.
                    bind_rule Returns _ (give (build_delta_chunks env cfg plan.edits found))
                      (record s { world = w3 }) (λ e h k. cc)
                      (λ h k. build_delta_chunks-Returns plan.edits found (short _ _ found e3) h)
                      (λ built h.
                        write_all-Returns fuel state plan (counted env cfg stored plan total) built
                          _ enough))))

    sync_changes-Returns :
        (fuel : ℕ) (state : EvidenceSyncState) (changes : List Change) (s : Session Value World)
        → left first_cursor < fuel
        → Returns (sync_changes env cfg fuel state changes s)
    unfolding sync_changes
    sync_changes-Returns fuel state [] s enough = λ k. cc
    sync_changes-Returns fuel state (ch ∷ changes) s enough =
        apply_plan-Returns fuel state (plan_changes (ch ∷ changes)) s enough

    sync_from-Returns :
        (fuel now : ℕ) (state : EvidenceSyncState) (s : Session Value World)
        → left first_cursor < fuel
        → Returns (sync_from env cfg fuel now state s)
    unfolding sync_from
    sync_from-Returns fuel now state s enough =
        refuse_rule Returns _ _ _ s (λ k. cc)
          (ask_rule Returns _ Call.embed_in_progress _ s (λ w k. cc)
            (λ busy w1 e1.
              refuse_rule Returns _ _ _ _ (λ k. cc)
                (ask_rule Returns _ Call.recent_changes _ _ (λ w k. cc)
                  (λ changes w2 e2. sync_changes-Returns fuel state changes _ enough))))

    with_baseline-Returns :
        (fuel now : ℕ) (found : Option EvidenceSyncState) (s : Session Value World)
        → left first_cursor < fuel
        → Returns (with_baseline env cfg fuel now found s)
    unfolding with_baseline give
    with_baseline-Returns fuel now none s enough = λ k. cc
    with_baseline-Returns fuel now (some state) s enough =
        refuse_rule Returns _ _ _ s (λ k. cc) (sync_from-Returns fuel now state s enough)

    -- Where a page of pending chunks leaves fewer chunks behind the cursor than there were, where
    -- every fetched title, with its separator, is estimated at less than 256 tokens, and where the
    -- rounds are more than the chunks behind the first cursor: a run returns, with an error or with
    -- its statistics.
    pub run_delta_returns :
        (fuel now : ℕ) (s : Session Value World)
        → left first_cursor < fuel
        → (run_delta env cfg fuel now s).0 ≢ diverges
    unfolding run_delta
    run_delta_returns fuel now s enough =
        refuse_rule Returns _ _ _ s (λ k. cc)
          (ask_rule Returns _ Call.get_sync_state _ s (λ w k. cc)
            (λ found w e. with_baseline-Returns fuel now found _ enough))
