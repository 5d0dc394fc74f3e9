-- ===== src/Wiki/Changes.antt =====
-- `planChanges` and `dedupeTitles` of stack/backend/internal/wiki/delta.go. Timestamps are natural
-- numbers, with Go's zero time for 0.
pub mod Latest
pub mod Net
use truth_in_stream.Prelude.{
  ℕ, max, String, Bool, true, false, not, ◌||◌, List, [], ◌∷◌, ◌++◌, Option, none, some, Dict,
  lookup, insert, ◌=?◌, any, ltb, if◌then◌else◌,
}

pub record Change : Type 0 where
  pub title : String
  pub page_id : ℕ
  pub revision_id : ℕ
  pub timestamp : ℕ
  pub deleted : Bool

pub record ChangePlan : Type 0 where
  pub edits : Dict Change
  pub deletes : List String
  pub max_ts : ℕ

-- Whether a change takes the place of the one that the map holds.
unfoldable pub takes_place : Change → Option Change → Bool
takes_place ch none = true
takes_place ch (some cur) = ltb cur.timestamp ch.timestamp

unfoldable pub latest_changes : Dict Change → List Change → Dict Change
unfolding takes_place lookup insert
latest_changes latest [] = latest
latest_changes latest (ch ∷ changes) =
    latest_changes
      (if takes_place ch (lookup ch.title latest) then insert ch.title ch latest else latest)
      changes

unfoldable pub newest_timestamp : ℕ → List Change → ℕ
newest_timestamp newest [] = newest
newest_timestamp newest (ch ∷ changes) =
    newest_timestamp (if ltb newest ch.timestamp then ch.timestamp else newest) changes

-- The two halves of the range over the map.
unfoldable pub edited : Dict Change → Dict Change
unfolding insert
edited [] = []
edited (e ∷ latest) =
    let others = edited latest in if e.1.deleted then others else insert e.0 e.1 others

unfoldable pub removed : Dict Change → List String
removed [] = []
removed (e ∷ latest) = let others = removed latest in if e.1.deleted then e.0 ∷ others else others

unfoldable pub plan_changes : List Change → ChangePlan
unfolding latest_changes newest_timestamp edited removed
plan_changes changes =
    let latest = latest_changes [] changes in
    record { edits = edited latest; deletes = removed latest; max_ts = newest_timestamp 0 changes }

-- One slice behind another: the titles that were not seen before.
unfoldable pub dedupe_onto : List String → List String → List String
dedupe_onto seen [] = seen
dedupe_onto seen (t ∷ titles) =
    dedupe_onto (if any (λ s. s =? t) seen then seen else seen ++ t ∷ []) titles

unfoldable pub dedupe_titles : List (List String) → List String
unfolding dedupe_onto
dedupe_titles groups = onto [] groups
  where
    onto : List String → List (List String) → List String
    onto seen [] = seen
    onto seen (g ∷ groups) = onto (dedupe_onto seen g) groups
