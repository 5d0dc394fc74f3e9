-- ===== src/Wiki/Delta/Checkpoint.antt =====
-- When `RunDelta` of stack/backend/internal/wiki/delta.go advances its checkpoint.
use truth_in_stream.Prelude.{
  ℕ, zero, suc, ◌+◌, List, [], ◌∷◌, ◌++◌, length, Option, none, some, arith, ◌≡◌, refl, ap, ◌∙◌,
}
use truth_in_stream.Corpus.{EvidenceCursor, EvidenceSyncState}
use truth_in_stream.Wiki.Changes.{Change, plan_changes}
use truth_in_stream.Wiki.Changes.Net.{plan_changes-IsNewest}
use truth_in_stream.Wiki.Delta.{
  DeltaConfig, DeltaStats, Call, Outcome, ok, ContentChunk, Write, trimmed, upserted, deleted,
  embedded, DeltaEnv, Session, grouped, cursor_of, first_cursor, Built,
}
use truth_in_stream.Wiki.Delta.Actions.{
  Action, give, bind_rule, ask_rule, ask_exact, tell_rule, refuse_rule,
}
use truth_in_stream.Wiki.Delta.Courses.{
  checkpoints, embeds, checkpoints-embeds, chunk_count, chunk_count-append, deletes_of, at_changes,
  at_plan, at_stored, at_extracts, IsReported, IsBuilt, Course, stopped, endless, unchanged, synced,
}
use truth_in_stream.Wiki.Delta.Run.{
  build_delta_chunks, embed_groups, embed_chunks, embed_page, embed_pending, write_all, counted,
  apply_plan, sync_changes, sync_from, with_baseline, run_delta,
}

module _ {Value World : Type 0} (env : DeltaEnv Value World) (cfg : DeltaConfig) where
  abbrev EndsWell : World → Outcome DeltaStats × Session Value World → Type 0
  EndsWell w r = Course env cfg w r.0 r.1.writes

  embed_groups-writes :
      (groups : List (List (ContentChunk Value))) (s : Session Value World)
      → (embed_groups env cfg groups s).1.writes ≡ s.writes
  unfolding embed_groups
  embed_groups-writes [] s = refl
  embed_groups-writes (group ∷ groups) s =
      ask_rule (λ r. r.1.writes ≡ s.writes) _ Call.embed_documents _ s (λ w. refl)
        (λ vectors w e.
          refuse_rule (λ r. r.1.writes ≡ s.writes) _ _ _ (record s { world = w }) refl
            (let same = embed_groups-writes groups (record s { world = w }) in
              bind_rule (λ r. r.1.writes ≡ s.writes) _ (embed_groups env cfg groups)
                (record s { world = w }) (λ e h. same) (λ h. same) (λ rest h. same)))

  -- The pending chunks are embedded by writes of embeddings alone, and counted.
  abbrev Embeds : ℕ → List (Write Value) → Outcome ℕ × Session Value World → Type 0
  Embeds count ws r =
      (css : List (List (ContentChunk Value))) × (r.1.writes ≡ embeds css ++ ws)
      × ((n : ℕ) → r.0 ≡ ok n → n ≡ count + chunk_count css)

  embed_chunks-writes :
      (chunks : List (ContentChunk Value)) (s : Session Value World)
      → (embed_chunks env cfg chunks s).1.writes ≡ s.writes
  unfolding embed_chunks
  embed_chunks-writes chunks s = embed_groups-writes (grouped cfg.batch_size [] chunks) s

  one_more :
      (css : List (List (ContentChunk Value))) (cs : List (ContentChunk Value))
      (ws : List (Write Value))
      → embeds css ++ (embedded cs ∷ ws) ≡ embeds (css ++ cs ∷ []) ++ ws
  one_more [] cs ws = refl
  one_more (ds ∷ css) cs ws = ap (λ l. embedded ds ∷ l) (one_more css cs ws)

  embed_page-Embeds :
      (later : EvidenceCursor → ℕ → Action Value World ℕ)
      → ((cur : EvidenceCursor) (count : ℕ) (s : Session Value World)
          → Embeds count s.writes (later cur count s))
      → (count : ℕ) (chunks : List (ContentChunk Value)) (s : Session Value World)
      → Embeds count s.writes (embed_page env cfg later count chunks s)
  unfolding embed_page
  embed_page-Embeds later ih count [] s =
      ([], refl, λ n h. let same : n ≡ count = cc in omega arith)
  embed_page-Embeds later ih count (c ∷ chunks) s =
      let End = Embeds count s.writes in
      let same = embed_chunks-writes (c ∷ chunks) s in
      let t = (embed_chunks env cfg (c ∷ chunks) s).1 in
      bind_rule End _ (embed_chunks env cfg (c ∷ chunks)) s (λ e h. ([], same, λ n k. cc))
        (λ h. ([], same, λ n k. cc))
        (λ done h.
          tell_rule End _ Call.set_chunk_embeddings _ _ t (λ w. ([], same, λ n k. cc))
            (λ w.
              let (css, e, counts) =
                ih (cursor_of c chunks) (count + length done)
                  (record { world = w; writes = embedded done ∷ t.writes }) in
              (
                css ++ done ∷ [],
                e ∙ one_more css done t.writes ∙ ap (λ l. embeds (css ++ done ∷ []) ++ l) same,
                λ n k. omega (arith, counts n k, chunk_count-append css done),
              )))

  embed_pending-Embeds :
      (fuel : ℕ) (cur : EvidenceCursor) (count : ℕ) (s : Session Value World)
      → Embeds count s.writes (embed_pending env cfg fuel cur count s)
  unfolding embed_pending give
  embed_pending-Embeds zero cur count s = ([], refl, λ n k. cc)
  embed_pending-Embeds (suc fuel) cur count s =
      ask_rule (Embeds count s.writes) _ Call.unembedded_chunks _ s (λ w. ([], refl, λ n k. cc))
        (λ chunks w e.
          embed_page-Embeds (embed_pending env cfg fuel) (embed_pending-Embeds fuel) count chunks
            (record s { world = w }))

  abbrev pub fresh : World → Session Value World
  fresh w = record { world = w; writes = [] }

  write_all-Course :
      (start : World) (fuel : ℕ) (state : EvidenceSyncState) (changes : List Change)
      (stored : List (ℕ × ℕ)) (total : ℕ) (built : Built Value) (w : World)
      → IsReported env cfg start state changes
      → IsBuilt env cfg (at_plan env cfg start state) changes stored built
      → EndsWell start (
          write_all env cfg fuel state
            (plan_changes changes)
            (counted env cfg stored (plan_changes changes) total)
            built
            (fresh w))
  unfolding write_all
  write_all-Course start fuel state changes stored total built w report build =
      let End = EndsWell start in
      let gone = deletes_of (plan_changes changes) built in
      let newest = plan_changes-IsNewest changes in
      let ws : List (Write Value) =
        deleted gone ∷ upserted built.chunks ∷ trimmed built.trims ∷ [] in
      tell_rule End _ Call.trim_documents _ _ (fresh w) (λ w1. stopped refl)
        (λ w1.
          tell_rule End _ Call.upsert_chunks _ _ _ (λ w2. stopped refl)
            (λ w2.
              tell_rule End _ Call.delete_by_title _ _ _ (λ w3. stopped refl)
                (λ w3.
                  let t : Session Value World = record { world = w3; writes = ws } in
                  let (css, e, counts) = embed_pending-Embeds fuel first_cursor 0 t in
                  let none_yet = ap checkpoints e ∙ checkpoints-embeds css ws in
                  bind_rule End _ (embed_pending env cfg fuel first_cursor 0) t
                    (λ err h. stopped none_yet) (λ h. endless none_yet)
                    (λ count h.
                      tell_rule End _ Call.set_sync_state _ _ _ (λ w4. stopped none_yet)
                        (λ w4. rw e (
                          synced state changes stored built (plan_changes changes).max_ts css report
                            build newest refl refl refl (omega (arith, counts count h))))))))

  apply_plan-Course :
      (start : World) (fuel : ℕ) (state : EvidenceSyncState) (changes : List Change)
      → IsReported env cfg start state changes
      → EndsWell start (
          apply_plan env cfg fuel state
            (plan_changes changes)
            (fresh (at_plan env cfg start state)))
  unfolding apply_plan give
  apply_plan-Course start fuel state changes report =
      let End = EndsWell start in
      let w = at_plan env cfg start state in
      ask_exact End _ Call.count_documents _ (fresh w) (λ w1. stopped refl)
        (λ total e1.
          ask_exact End _ Call.stored_revisions _ (fresh (at_stored env cfg w)) (λ w2. stopped refl)
            (λ stored e2.
              ask_exact End _ Call.extracts _ (fresh (at_extracts env cfg w changes))
                (λ w3. stopped refl)
                (λ found e3.
                  bind_rule End _
                    (give (build_delta_chunks env cfg (plan_changes changes).edits found)) _
                    (λ err h. stopped refl) (λ h. endless refl)
                    (λ built h.
                      write_all-Course start fuel state changes stored total built _ report
                        (record { found = found; revisions = e2; fetched = e3; assembled = h })))))

  sync_changes-Course :
      (start : World) (fuel : ℕ) (state : EvidenceSyncState) (changes : List Change)
      → IsReported env cfg start state changes
      → EndsWell start
          (sync_changes env cfg fuel state changes (fresh (at_plan env cfg start state)))
  unfolding sync_changes
  sync_changes-Course start fuel state [] report = unchanged report
  sync_changes-Course start fuel state (ch ∷ changes) report =
      apply_plan-Course start fuel state (ch ∷ changes) report

  sync_from-Course :
      (start : World) (fuel now : ℕ) (state : EvidenceSyncState)
      → (env.get_sync_state cfg.corpus start).0 ≡ some (some state)
      → EndsWell start
          (sync_from env cfg fuel now state (fresh (env.get_sync_state cfg.corpus start).1))
  unfolding sync_from
  sync_from-Course start fuel now state read =
      let End = EndsWell start in
      refuse_rule End _ _ _ _ (stopped refl) (
        ask_exact End _ Call.embed_in_progress _ _ (λ w1. stopped refl)
          (λ busy e1. refuse_rule End _ _ _ _ (stopped refl) (
            ask_exact End _ Call.recent_changes _ (fresh (at_changes env cfg start))
              (λ w2. stopped refl)
              (λ changes e2.
                sync_changes-Course start fuel state changes
                  (record { read = read; reported = e2 })))))

  with_baseline-Course :
      (start : World) (fuel now : ℕ) (found : Option EvidenceSyncState)
      → (env.get_sync_state cfg.corpus start).0 ≡ some found
      → EndsWell start
          (with_baseline env cfg fuel now found (fresh (env.get_sync_state cfg.corpus start).1))
  unfolding with_baseline give
  with_baseline-Course start fuel now none read = stopped refl
  with_baseline-Course start fuel now (some state) read =
      refuse_rule (EndsWell start) _ _ _ _ (stopped refl)
        (sync_from-Course start fuel now state read)

  -- Whatever the store, the API and the embedding client answer, a run takes one of four courses. It
  -- ends with an error, or never returns, and then it has written no checkpoint. The API has
  -- reported no change since the checkpoint in the store, and the run has written nothing. Or it
  -- returns its statistics, and then it has trimmed the stale tails, written the chunks, deleted the
  -- pages that the plan of the changes deletes and those that are missing, and written embeddings,
  -- in this order, and after all of these, once, the checkpoint with the newest time of the changes
  -- that the API reported since the checkpoint in the store: no change is later, and a time other
  -- than zero is that of a change. The tails, the chunks and the missing pages are what
  -- `buildDeltaChunks` makes, for the plan of these changes, of what the API sent for the titles
  -- that `unchangedFiltered` keeps. The statistics hold the numbers of the trimmed tails, of the
  -- titles that are skipped, of the deleted pages and of the chunks in the writes of embeddings.
  pub run_delta-Course :
      (fuel now : ℕ) (w : World)
      → let r = run_delta env cfg fuel now (fresh w) in Course env cfg w r.0 r.1.writes
  unfolding run_delta
  run_delta-Course fuel now w = refuse_rule (EndsWell w) _ _ _ _ (stopped refl) (
      ask_exact (EndsWell w) _ Call.get_sync_state _ (fresh w) (λ w1. stopped refl)
        (λ found e1. with_baseline-Course w fuel now found e1))
