-- ===== src/Worker/Cleanup.antt =====
-- The rollout cleanup of stack/backend/internal/workerlifecycle/cleanup.go. A time is a natural
-- number, and `none` is Go's zero time; an age test `now.Sub(t) >= d` is `t + d <= now`.
pub mod Safety
use truth_in_stream.Prelude.{
  ℕ, ◌+◌, Bool, true, false, not, ◌&&◌, List, [], ◌∷◌, Option, none, some, Runes, length, any, keep,
  map, ltb, leb, ◌==◌, if◌then◌else◌,
}
use truth_in_stream.Prelude.Sorting.{sort_stable}
use truth_in_stream.Worker.Versions.{
  Depths, same_text, text_less, newest_version, versioned_depths, names,
}

abbrev pub text_greater : Runes → Runes → Bool
text_greater a b = text_less b a

-- The drained versions, when the newest one is known.
unfoldable pub drained : Runes → Depths → Depths
unfolding same_text
drained current = keep (λ e. not (same_text e.0 current) && e.1 == 0)

unfoldable pub retirable_of : Depths → List Runes
unfolding drained newest_version
retirable_of [] = []
retirable_of (entry ∷ rest) =
    if ltb (length (entry ∷ rest)) 2
    then []
    else sort_stable text_greater
        (names (drained (newest_version entry.0 (names rest)) (entry ∷ rest)))

unfoldable pub retirable_versions : Depths → Runes → List Runes
unfolding retirable_of versioned_depths
retirable_versions depths base = retirable_of (versioned_depths depths base)

pub record TaskSet : Type 0 where
  pub id : Runes
  pub version : Runes
  pub created_at : Option ℕ
  pub running_count : ℕ

pub record PrimaryTaskSet : Type 0 where
  pub version : Runes
  pub created_at : Option ℕ
  pub running_count : ℕ

pub record RetirePolicy : Type 0 where
  pub max_age : ℕ
  pub same_version_min_age : ℕ
  pub zombie_min_age : ℕ

-- The four reasons, for the texts that the source builds.
pub data Reason : Type 0 where
  orphan : Reason
  superseded : Runes → Reason
  drained_version : Runes → ℕ → Reason
  zombie : ℕ → Reason

unfoldable pub safe_to_retire : ℕ → ℕ → Bool
safe_to_retire primary_running desired_count =
    if desired_count == 0 then true else leb desired_count primary_running

-- `!t.IsZero() && now.Sub(t) >= age`
unfoldable pub old_enough : Option ℕ → ℕ → ℕ → Bool
old_enough none age now = false
old_enough (some t) age now = leb (t + age) now

unfoldable pub retire_reason :
    TaskSet → PrimaryTaskSet → (Runes → Bool) → RetirePolicy → ℕ → Option Reason
unfolding old_enough same_text
retire_reason ts primary retirable policy now =
    if same_text ts.version []
    then some orphan
    else if same_text ts.version primary.version
        && old_enough ts.created_at policy.same_version_min_age now
    then some (superseded ts.version)
    else if not (same_text ts.version primary.version)
        && retirable ts.version
        && old_enough primary.created_at policy.max_age now
    then some (drained_version ts.version policy.max_age)
    else if ts.running_count == 0 && old_enough ts.created_at policy.zombie_min_age now
    then some (zombie policy.zombie_min_age)
    else none
