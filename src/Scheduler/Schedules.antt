-- ===== src/Scheduler/Schedules.antt =====
-- services/worker_scheduler.py: what a whole schedule comes to.
use mathlib.Core.List.Permᴰ as Perm
use mathlib.Core.List.{Permᴰ}
use hungerloop.Prelude.{
  ℕ, ◌+◌, String, true, false, List, [], string_eq, contains, nodup, length, ◌≡◌, Floats, AllOf,
}
use hungerloop.Models.Planning.{Assignment}
use hungerloop.Repository.{Repo}
use hungerloop.Scheduler.{contains_cycle, ids_of}
use hungerloop.Scheduler.Execution.{Runtime, Progress, Schedule}
use hungerloop.Scheduler.Stopping.{AtCeiling}
use hungerloop.Scheduler.Skipping.{SkipRule}

-- Every assignment that is in order looks back.
module _ (ids : List String) where
  -- The ids stand in two parts, without repetition.
  abbrev Parts : List String → List Assignment → Type 0
  Parts before xs =
      ((x : String) → contains before x ≡ true → contains (ids_of xs) x ≡ false)
      × ((x : String) → contains (ids_of xs) x ≡ true → contains ids x ≡ true)
      × (nodup (ids_of xs) ≡ true)

module _ {R : Type 0} ⦃fl : Floats R⦄ (runtime : Runtime R) (task_id : String) (loop_id : ℕ) where
  -- What a schedule promises, with the repository that it leaves. A completed one had no cycle,
  -- skipped exactly the assignments with a failed or skipped dependency, and has a handoff of each
  -- other one. A stopped one had no cycle, and is at a ceiling of the task.
  abbrev pub IsSchedule : List Assignment → Schedule × Repo R → Type 0
  IsSchedule assignments (Schedule.completed p, repo) =
      (contains_cycle assignments ≡ false)
      × AllOf (SkipRule p) assignments
      × (length p.handoffs + length p.skipped_ids ≡ length assignments)
  IsSchedule assignments (Schedule.cycle_detected skipped_ids, repo) =
      (contains_cycle assignments ≡ true) × (skipped_ids ≡ ids_of assignments)
  IsSchedule assignments (Schedule.stopped skipped_ids, repo) =
      (contains_cycle assignments ≡ false)
      × AtCeiling runtime task_id loop_id (ids_of assignments) repo
  IsSchedule assignments (Schedule.stuck, repo) = ⊥

  abbrev start : Progress
  start = record { failed_ids = []; skipped_ids = []; handoffs = [] }
