-- ===== src/Wiki/Changes/Net.antt =====
-- The net effect of a window of changes, stack/backend/internal/wiki/delta.go.
use truth_in_stream.Prelude.{
  ℕ, ◌≤◌, String, Bool, true, false, ◌||◌, List, [], ◌∷◌, Option, none, some, Dict, lookup, insert,
  IsDistinct, lookup-insert, ◌=?◌, =?→≡, any, ltb, if◌then◌else◌, All, arith, ◌≡◌, refl, sym, ap,
  ◌∙◌, Some, ◌⊎◌, inl, inr,
}
use truth_in_stream.Wiki.Changes.{
  Change, latest_changes, newest_timestamp, edited, removed, plan_changes,
}
use truth_in_stream.Wiki.Changes.Latest.{
  latest_of, lookup-latest_changes, latest_changes-IsDistinct,
}

abbrev pub unless_deleted : Option Change → Option Change
unless_deleted none = none
unless_deleted (some c) = if c.deleted then none else some c

abbrev pub is_deleted : Option Change → Bool
is_deleted none = false
is_deleted (some c) = c.deleted

-- One entry of the map, before the entries of other titles.
edited_entry :
    (gone same : Bool) (key title : String) (c : Change) (others : Dict Change)
    (below : Option Change)
    → (key =? title) ≡ same
    → c.deleted ≡ gone
    → (same ≡ true → below ≡ none)
    → lookup title others ≡ unless_deleted below
    → lookup title (if gone then others else insert key c others)
      ≡ unless_deleted (if same then some c else below)
edited_entry true true key title c others below e d fresh ih =
    ih ∙ ap unless_deleted (fresh refl) ∙ ap (λ x. if x then none else some c) (sym d)
edited_entry true false key title c others below e d fresh ih = ih
edited_entry false true key title c others below e d fresh ih =
    lookup-insert key title c others
    ∙ ap (λ b. if b then some c else lookup title others) e
    ∙ ap (λ x. if x then none else some c) (sym d)
edited_entry false false key title c others below e d fresh ih =
    lookup-insert key title c others ∙ ap (λ b. if b then some c else lookup title others) e ∙ ih

removed_entry :
    (gone same : Bool) (key title : String) (c : Change) (others : List String)
    (below : Option Change)
    → (key =? title) ≡ same
    → c.deleted ≡ gone
    → (same ≡ true → below ≡ none)
    → any (λ t. t =? title) others ≡ is_deleted below
    → any (λ t. t =? title) (if gone then key ∷ others else others)
      ≡ is_deleted (if same then some c else below)
removed_entry true true key title c others below e d fresh ih =
    ap (λ b. b || any (λ t. t =? title) others) e ∙ sym d
removed_entry true false key title c others below e d fresh ih =
    ap (λ b. b || any (λ t. t =? title) others) e ∙ ih
removed_entry false true key title c others below e d fresh ih =
    ih ∙ ap is_deleted (fresh refl) ∙ sym d
removed_entry false false key title c others below e d fresh ih = ih

absent_below :
    (e : String × Change) (rest : Dict Change) (title : String)
    → lookup e.0 rest ≡ none
    → (e.0 =? title) ≡ true
    → lookup title rest ≡ none
absent_below e rest title fresh t = ap (λ k. lookup k rest) (sym (=?→≡ e.0 title t)) ∙ fresh

lookup-edited :
    (title : String) (m : Dict Change)
    → IsDistinct m
    → lookup title (edited m) ≡ unless_deleted (lookup title m)
unfolding edited lookup
lookup-edited title [] h = refl
lookup-edited title (e ∷ rest) (fresh, h) =
    edited_entry e.1.deleted (e.0 =? title) e.0 title e.1 (edited rest) (lookup title rest) refl
      refl (absent_below e rest title fresh) (lookup-edited title rest h)

any-removed :
    (title : String) (m : Dict Change)
    → IsDistinct m
    → any (λ t. t =? title) (removed m) ≡ is_deleted (lookup title m)
unfolding removed lookup
any-removed title [] h = refl
any-removed title (e ∷ rest) (fresh, h) =
    removed_entry e.1.deleted (e.0 =? title) e.0 title e.1 (removed rest) (lookup title rest) refl
      refl (absent_below e rest title fresh) (any-removed title rest h)

advanced : (a b : ℕ) → (a ≤ (if ltb a b then b else a)) × (b ≤ (if ltb a b then b else a))
advanced a b = (ground arith, ground arith)

newest_timestamp-bounds :
    (newest : ℕ) (changes : List Change)
    → (newest ≤ newest_timestamp newest changes)
      × All (λ ch. ch.timestamp ≤ newest_timestamp newest changes) changes
unfolding newest_timestamp
newest_timestamp-bounds newest [] = (omega arith, tt)
newest_timestamp-bounds newest (ch ∷ changes) =
    let (old, new) = advanced newest ch.timestamp in
    let (least, others) =
      newest_timestamp-bounds (if ltb newest ch.timestamp then ch.timestamp else newest) changes in
    (omega (arith, old, least), (omega (arith, new, least), others))

one_of : (test : Bool) (a b : ℕ) → ((if test then b else a) ≡ a) ⊎ ((if test then b else a) ≡ b)
one_of true a b = inr refl
one_of false a b = inl refl

newest_timestamp-found :
    (newest : ℕ) (changes : List Change)
    → (newest_timestamp newest changes ≡ newest)
      ⊎ Some (λ ch. ch.timestamp ≡ newest_timestamp newest changes) changes
unfolding newest_timestamp
newest_timestamp-found newest [] = inl refl
newest_timestamp-found newest (ch ∷ changes) =
    let next = if ltb newest ch.timestamp then ch.timestamp else newest in
    elim (newest_timestamp-found next changes) [
      | inr later ↦ inr (inr later)
      | inl same ↦ elim (one_of (ltb newest ch.timestamp) newest ch.timestamp) [
        | inl e ↦ inl (same ∙ e)
        | inr e ↦ inr (inl (sym (same ∙ e)))
      ]
    ]

-- No change is later than this time, which is that of a change if it is not zero.
abbrev pub IsNewest : ℕ → List Change → Type 0
IsNewest t changes =
    All (λ ch. ch.timestamp ≤ t) changes × ((t ≡ 0) ⊎ Some (λ ch. ch.timestamp ≡ t) changes)

pub plan_changes-IsNewest : (changes : List Change) → IsNewest (plan_changes changes).max_ts changes
unfolding plan_changes
plan_changes-IsNewest changes =
    ((newest_timestamp-bounds 0 changes).1, newest_timestamp-found 0 changes)

-- For every title, what the plan does is decided by the latest change of the window, the first of
-- those with its timestamp: the title is refetched with that change if it is no deletion, and it is
-- deleted if it is one; a title without a change is neither. The next checkpoint is not before any
-- of the changes.
pub plan_changes_net :
    (title : String) (changes : List Change)
    → let plan = plan_changes changes in
      (lookup title plan.edits ≡ unless_deleted (latest_of title changes))
      × (any (λ t. t =? title) plan.deletes ≡ is_deleted (latest_of title changes))
      × All (λ ch. ch.timestamp ≤ plan.max_ts) changes
unfolding plan_changes lookup
plan_changes_net title changes =
    let latest = latest_changes [] changes in
    let distinct = latest_changes-IsDistinct [] changes tt in
    let found = lookup-latest_changes title [] changes in
    (
      lookup-edited title latest distinct ∙ ap unless_deleted found,
      any-removed title latest distinct ∙ ap is_deleted found,
      (newest_timestamp-bounds 0 changes).1,
    )
