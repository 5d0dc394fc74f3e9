-- ===== src/Examples/Articles.antt =====
-- Wikipedia articles at concrete inputs.
use truth_in_stream.Prelude.{
  String, Bool, true, false, lookup, any, ◌=?◌, ℕ, ◌≤◌, List, [], ◌∷◌, ◌++◌, some, codes, length,
  All, arith, ◌≡◌, refl,
}
use truth_in_stream.Wiki.Bytes.{last_index, trim_blanks, rune_start}
use truth_in_stream.Wiki.Chunk.{
  tokens_for_len, Packer, paragraph_sep, sentence_round, add_sentence, chunk,
}
use truth_in_stream.Wiki.Changes.{Change, plan_changes}
use truth_in_stream.Wiki.Changes.Latest.{latest_of}
use truth_in_stream.Wiki.Changes.Net.{unless_deleted, is_deleted, plan_changes_net}
use truth_in_stream.Wiki.Chunk.Bounds.{chunk-Limited}

chunk-Limited_example :
    (chunks : List (List ℕ)) × (chunk (codes "Snow") (codes "Snow is white. It is cold.")
      ≡ some chunks)
    × All (λ c. tokens_for_len (length c) ≤ 512) chunks
unfolding tokens_for_len
chunk-Limited_example =
    chunk-Limited (codes "Snow") (codes "Snow is white. It is cold.") (omega arith)

one_chunk :
    chunk (codes "T") (codes " A b. ") ≡ some ((codes "T" ++ paragraph_sep ++ codes "A b.") ∷ [])
unfolding chunk
one_chunk = refl

abbrev no_groups : Packer
no_groups = record { groups = []; cur = [] }

-- A sentence is cut at words, and a word that is too long inside.
cut_sentence :
    add_sentence 1 1 paragraph_sep (codes "ab cd efghij") no_groups
    ≡ some (record { groups = codes "ab" ∷ codes "cd" ∷ codes "efgh" ∷ []; cur = codes "ij" })
unfolding add_sentence last_index trim_blanks rune_start
cut_sentence = refl

-- With a floor of 0, a sentence over the budget is never cut: the round changes nothing.
stuck_round :
    sentence_round 0 1 [] (codes "abcdefgh") no_groups
    ≡ (no_groups, record { sep = []; left = codes "abcdefgh" })
unfolding sentence_round
stuck_round = refl

abbrev change : String → ℕ → Bool → Change
change title timestamp deleted = record {
  title = title;
  page_id = 1;
  revision_id = timestamp;
  timestamp = timestamp;
  deleted = deleted;
}

abbrev window : List Change
window =
    change "Snow" 3 false ∷ change "Ice" 4 false ∷ change "Snow" 7 true ∷ change "Ice" 2 true ∷ []

plan_changes_net_example :
    let plan = plan_changes window in
    (lookup "Snow" plan.edits ≡ unless_deleted (latest_of "Snow" window))
    × (any (λ t. t =? "Snow") plan.deletes ≡ is_deleted (latest_of "Snow" window))
    × All (λ ch. ch.timestamp ≤ plan.max_ts) window
plan_changes_net_example = plan_changes_net "Snow" window

planned :
    plan_changes window
    ≡ record { edits = ("Ice", change "Ice" 4 false) ∷ []; deletes = "Snow" ∷ []; max_ts = 7 }
unfolding plan_changes
planned = refl
