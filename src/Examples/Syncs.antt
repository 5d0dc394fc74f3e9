-- ===== src/Examples/Syncs.antt =====
-- Delta runs of the Wikipedia import at concrete inputs.
use truth_in_stream.Prelude.{
  ℕ, ◌<◌, String, Bool, true, false, List, [], ◌∷◌, none, some, codes, ◌=?◌, if◌then◌else◌, pos,
  All, arith, ◌≡◌, ◌≢◌, Bool-cases, inl, inr,
}
use truth_in_stream.Corpus.{EvidenceCursor}
use truth_in_stream.Wiki.Chunk.{tokens_for_len}
use truth_in_stream.Wiki.Changes.{Change}
use truth_in_stream.Wiki.Delta.{DeltaConfig, Extract, diverges, ContentChunk, DeltaEnv, cursor_of}
use truth_in_stream.Wiki.Delta.Run.{run_delta}
use truth_in_stream.Wiki.Delta.Courses.{Course}
use truth_in_stream.Wiki.Delta.Checkpoint.{fresh, run_delta-Course}
use truth_in_stream.Wiki.Delta.Ends.{HasShortTitle, run_delta_returns}

abbrev pending : ContentChunk ℕ
pending = record {
  source = "enwiki";
  external_id = "12";
  chunk_index = pos 0;
  title = "Snow";
  url = "";
  content = codes "Snow is white.";
  kind = "lead";
  metadata = none;
  embedding = [];
}

abbrev page : Extract
page = record {
  page_id = 12;
  title = "Snow";
  revision_id = 7;
  text = codes "Snow is white.";
  missing = false;
}

abbrev changes : List Change
changes =
    record { title = "Snow"; page_id = 12; revision_id = 7; timestamp = 50; deleted = false }
    ∷ record { title = "Ice"; page_id = 13; revision_id = 0; timestamp = 60; deleted = true }
    ∷ []

abbrev at_start : EvidenceCursor → Bool
at_start cur = cur.source =? ""

-- The world is not looked at; one chunk is pending.
abbrev env : DeltaEnv ℕ ℕ
env = record {
  utf8 = codes;
  page_url = λ corpus title. title;
  over_share = λ changed total. false;
  get_sync_state = λ corpus w.
      (some (some (record { source = corpus; last_change_ts = 40; dump_version = "1" })), w);
  embed_in_progress = λ w. (some false, w);
  recent_changes = λ since w. (some changes, w);
  count_documents = λ w. (some 100, w);
  stored_revisions = λ source pages w. (some [], w);
  extracts = λ titles w. (some (page ∷ []), w);
  unembedded_chunks = λ cur n w. ((if at_start cur then some (pending ∷ []) else some []), w);
  embed_documents = λ texts w. (some ((1 ∷ []) ∷ []), w);
  trim_documents = λ trims w. (true, w);
  upsert_chunks = λ chunks w. (true, w);
  delete_by_title = λ source titles w. (true, w);
  set_chunk_embeddings = λ chunks w. (true, w);
  set_sync_state = λ state w. (true, w);
}

abbrev cfg : DeltaConfig
cfg = record { corpus = "enwiki"; retention_days = 30; batch_size = 2; concurrency = 1 }

run_delta-Course_example :
    let r = run_delta env cfg 3 70 (fresh env cfg 0) in Course env cfg 0 r.0 r.1.writes
run_delta-Course_example = run_delta-Course env cfg 3 70 0

abbrev left : EvidenceCursor → ℕ
left cur = if at_start cur then 1 else 0

pages :
    (cur : EvidenceCursor) (n w : ℕ) (c : ContentChunk ℕ) (chunks : List (ContentChunk ℕ))
    → (env.unembedded_chunks cur n w).0 ≡ some (c ∷ chunks)
    → left (cursor_of c chunks) < left cur
unfolding cursor_of
pages cur n w c chunks h = elim (Bool-cases (at_start cur)) [
  | inl e ↦
      let only = rw e at h in
      let same : c ≡ pending = cc in let last : chunks ≡ [] = cc in rw (e, last, same) (omega arith)
  | inr e ↦ let never = rw e at h in cc
]

short :
    (titles : List String) (w : ℕ) (found : List Extract)
    → (env.extracts titles w).0 ≡ some found
    → All (HasShortTitle env cfg) found
unfolding tokens_for_len
short titles w found h = let same : found ≡ page ∷ [] = cc in rw same (omega arith, tt)

run_delta_returns_example : (run_delta env cfg 3 70 (fresh env cfg 0)).0 ≢ diverges
run_delta_returns_example =
    run_delta_returns env cfg left pages short 3 70 (fresh env cfg 0) (omega arith)
