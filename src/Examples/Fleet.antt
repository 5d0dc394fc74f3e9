-- ===== src/Examples/Fleet.antt =====
-- Worker fleets at concrete inputs.
use truth_in_stream.Prelude.{
  ℕ, ◌≤◌, true, [], ◌∷◌, none, some, codes, any, get_elem?, All, arith, ◌≡◌, refl, inr, ◌⊎◌,
}
use truth_in_stream.Worker.Scale.{ServiceScaling, compute_desired_count, clamped, raw_count}
use truth_in_stream.Worker.Scale.Convergence.{after_ticks, after_ticks_settles}
use truth_in_stream.Worker.Versions.{
  Depths, is_digit, all_digits, same_text, newest_version, queue_version, versioned_queue_name,
  is_version_token,
}
use truth_in_stream.Worker.Versions.Newest.{value, newest_version_greatest}
use truth_in_stream.Worker.Versions.Names.{queue_version-versioned_queue_name}
use truth_in_stream.Worker.Cleanup.{
  TaskSet, PrimaryTaskSet, RetirePolicy, retire_reason, retirable_versions,
}
use truth_in_stream.Worker.Cleanup.Safety.{retire_reason_keeps}

abbrev scaling : ServiceScaling
scaling = record {
  queue_base = codes "embedding.jobs";
  ratio = 10;
  least = 1;
  most = 8;
  cooldown = 60;
}

after_ticks_settles_example : after_ticks scaling 55 10 2 ≡ clamped scaling (raw_count 10 55)
after_ticks_settles_example =
    after_ticks_settles scaling 55 (omega arith) (omega arith) 10 2 (omega arith) (omega arith)

doubles : compute_desired_count scaling 2 55 ≡ 4
unfolding compute_desired_count
doubles = refl

newest_version_greatest_example :
    let newest = newest_version (codes "9") (codes "10" ∷ codes "2" ∷ []) in
    (value (codes "9") ≤ value newest)
    × All (λ v. value v ≤ value newest) (codes "10" ∷ codes "2" ∷ [])
    × ((newest ≡ codes "9") ⊎ ((i : ℕ) × (get_elem? (codes "10" ∷ codes "2" ∷ []) i ≡ some newest)))
unfolding is_digit all_digits
newest_version_greatest_example =
    newest_version_greatest (codes "9") (codes "10" ∷ codes "2" ∷ []) refl (refl, (refl, tt))

queue_version-versioned_queue_name_example :
    (is_version_token (codes "3") ≡ true
      → queue_version (versioned_queue_name (codes "jobs") (codes "3")) (codes "jobs")
        ≡ some (codes "3"))
    × (queue_version (codes "jobs.v3") (codes "jobs") ≡ some (codes "3")
        → (versioned_queue_name (codes "jobs") (codes "3") ≡ codes "jobs.v3")
          × (is_version_token (codes "3") ≡ true))
queue_version-versioned_queue_name_example =
    queue_version-versioned_queue_name (codes "jobs.v3") (codes "jobs") (codes "3")

abbrev depths : Depths
depths = (codes "jobs.v1", 4) ∷ (codes "jobs.v2", 0) ∷ (codes "other.v1", 0) ∷ []

abbrev old_set : TaskSet
old_set = record { id = codes "a"; version = codes "1"; created_at = some 0; running_count = 2 }

abbrev primary : PrimaryTaskSet
primary = record { version = codes "2"; created_at = some 100; running_count = 3 }

abbrev policy : RetirePolicy
policy = record { max_age = 60; same_version_min_age = 30; zombie_min_age = 90 }

jobs_v1 : queue_version (codes "jobs.v1") (codes "jobs") ≡ some (codes "1")
unfolding queue_version
jobs_v1 = refl

retire_reason_keeps_example :
    retire_reason old_set primary
      (λ v. any (same_text v) (retirable_versions depths (codes "jobs")))
      policy
      1000
    ≡ none
unfolding same_text queue_version
retire_reason_keeps_example =
    retire_reason_keeps depths (codes "jobs") old_set primary policy 1000 refl refl (omega arith)
      (inr ((λ _. omega arith), ((λ h. cc), ((λ h. cc), tt))))
