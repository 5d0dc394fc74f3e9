-- ===== src/Wiki/Changes/Latest.antt =====
-- The latest changes of a window, stack/backend/internal/wiki/delta.go.
use truth_in_stream.Prelude.{
  String, Bool, true, false, List, [], ◌∷◌, Option, none, some, Dict, lookup, insert, IsDistinct,
  insert-IsDistinct, lookup-insert, ◌=?◌, =?_refl, =?→≡, ltb, if◌then◌else◌, arith, ◌≡◌, refl, sym,
  ap, ◌∙◌, Bool-cases, inl, inr,
}
use truth_in_stream.Wiki.Changes.{Change, takes_place, latest_changes}

-- The later of two changes, the first on a tie.
abbrev pub later : Option Change → Option Change → Option Change
later none d = d
later (some c) none = some c
later (some c) (some d) = if ltb c.timestamp d.timestamp then some d else some c

-- The latest change of a title, the first of those with its timestamp.
abbrev pub latest_of : String → List Change → Option Change
latest_of title [] = none
latest_of title (ch ∷ changes) =
    let rest = latest_of title changes in if ch.title =? title then later (some ch) rest else rest

later_assoc : (a b c : Option Change) → later (later a b) c ≡ later a (later b c)
later_assoc none b c = refl
later_assoc (some a) none c = refl
later_assoc (some a) (some b) none = ground arith
later_assoc (some a) (some b) (some c) = ground arith

later-none : (a : Option Change) → later a none ≡ a
later-none none = refl
later-none (some a) = refl

lookup-insert_same :
    (ch : Change) (latest : Dict Change) → lookup ch.title (insert ch.title ch latest) ≡ some ch
lookup-insert_same ch latest =
    lookup-insert ch.title ch.title ch latest
    ∙ ap (λ b. if b then some ch else lookup ch.title latest) (=?_refl ch.title)

lookup-step_same :
    (ch : Change) (latest : Dict Change) (held : Option Change)
    → lookup ch.title latest ≡ held
    → lookup ch.title (if takes_place ch held then insert ch.title ch latest else latest)
      ≡ later held (some ch)
unfolding takes_place
lookup-step_same ch latest none e = lookup-insert_same ch latest
lookup-step_same ch latest (some cur) e = elim (Bool-cases (ltb cur.timestamp ch.timestamp)) [
  | inl t ↦ rw t (lookup-insert_same ch latest)
  | inr t ↦ rw t e
]

lookup-step_other :
    (b : Bool) (title : String) (ch : Change) (latest : Dict Change)
    → (ch.title =? title) ≡ false
    → lookup title (if b then insert ch.title ch latest else latest) ≡ lookup title latest
lookup-step_other true title ch latest h =
    lookup-insert ch.title title ch latest ∙ ap (λ b. if b then some ch else lookup title latest) h
lookup-step_other false title ch latest h = refl

lookup-step :
    (title : String) (ch : Change) (latest : Dict Change)
    → lookup title
        (if takes_place ch (lookup ch.title latest) then insert ch.title ch latest else latest)
      ≡ later (lookup title latest) (if ch.title =? title then some ch else none)
lookup-step title ch latest = elim (Bool-cases (ch.title =? title)) [
  | inl t ↦
      rw (t, ← =?→≡ ch.title title t) (lookup-step_same ch latest (lookup ch.title latest) refl)
  | inr t ↦
      rw (t, later-none (lookup title latest))
        (lookup-step_other (takes_place ch (lookup ch.title latest)) title ch latest t)
]

later_rest :
    (b : Bool) (a rest : Option Change) (ch : Change)
    → later (later a (if b then some ch else none)) rest
      ≡ later a (if b then later (some ch) rest else rest)
later_rest true a rest ch = later_assoc a (some ch) rest
later_rest false a rest ch = ap (λ x. later x rest) (later-none a)

pub lookup-latest_changes :
    (title : String) (latest : Dict Change) (changes : List Change)
    → lookup title (latest_changes latest changes)
      ≡ later (lookup title latest) (latest_of title changes)
unfolding latest_changes
lookup-latest_changes title latest [] = sym (later-none (lookup title latest))
lookup-latest_changes title latest (ch ∷ changes) =
    lookup-latest_changes title
      (if takes_place ch (lookup ch.title latest) then insert ch.title ch latest else latest)
      changes
    ∙ ap (λ x. later x (latest_of title changes)) (lookup-step title ch latest)
    ∙ later_rest (ch.title =? title) (lookup title latest) (latest_of title changes) ch

pub latest_changes-IsDistinct :
    (latest : Dict Change) (changes : List Change)
    → IsDistinct latest
    → IsDistinct (latest_changes latest changes)
unfolding latest_changes
latest_changes-IsDistinct latest [] h = h
latest_changes-IsDistinct latest (ch ∷ changes) h =
    elim (Bool-cases (takes_place ch (lookup ch.title latest))) [
      | inl t ↦ rw t (
          latest_changes-IsDistinct (insert ch.title ch latest) changes
            (insert-IsDistinct ch.title ch latest h))
      | inr t ↦ rw t (latest_changes-IsDistinct latest changes h)
    ]
