-- ===== src/Scheduler/Execution.antt =====
-- services/worker_scheduler.py: the assignments of a loop run one after the other, with retries.
-- The worker runtime, with the context and the agent's specification that it is given, is a
-- parameter, since it calls models and tools. The audit files of the handoffs and the report of write
-- collisions are left out.
use Prim.Native.String
use hungerloop.Prelude.{
  ℕ, zero, suc, ◌+◌, ◌-◌, String, Bool, true, false, Option, none, some, List, [], ◌∷◌, ◌++◌, ◌==◌,
  string_eq, nat_eq, if◌then◌else◌, ◌&&◌, ◌||◌, contains, insert, ltb, is_truthy, truthy_or_default,
  Floats,
}
use hungerloop.CheckKey.{print_index}
use hungerloop.Models.Planning.{Assignment}
use hungerloop.Models.Worker.{WorkerHandoff}
use hungerloop.Repository.{Repo, EventBody, append_event}
use hungerloop.Budgets.{is_over_budget}
use hungerloop.Scheduler.{contains_cycle, topologically_order_assignments, ids_of}

-- What a run of a worker comes to: a result, or the ceiling of the task is hit.
pub data RunOutcome : Type 0 where
  handed : (handoff : WorkerHandoff) → RunOutcome
  hit_ceiling : RunOutcome

abbrev pub Runtime : Type 0 → Type 0
Runtime R = Assignment → Repo R → RunOutcome × Repo R

-- `_SchedulerSafetyStop` with its flag, or the last handoff; or more rounds than the fuel.
pub data Attempted : Type 0 where
  ran : (handoff : WorkerHandoff) → Attempted
  safety_stop : (current_completed : Bool) → Attempted
  out_of_fuel : Attempted

unfoldable pub handoff_failed : WorkerHandoff → Bool
handoff_failed handoff = is_truthy handoff.error || is_truthy handoff.error_type

unfoldable pub coerce_handoff : WorkerHandoff → Assignment → WorkerHandoff
coerce_handoff handoff a = record handoff {
  assignment_id = some a.assignment_id;
  retry_count = a.retry_count;
}

unfoldable pub handoff_id_of : String → ℕ → String → WorkerHandoff → String
handoff_id_of task_id loop_id assignment_id handoff =
    let suffix =
      if handoff.retry_count == 0 then "" else String.◌++◌ "-r" (print_index handoff.retry_count) in
    let fresh = String.◌++◌ "WH-" (
      String.◌++◌ task_id (
        String.◌++◌ "-" (
          String.◌++◌ (print_index loop_id)
            (String.◌++◌ "-" (String.◌++◌ assignment_id suffix))))) in
    truthy_or_default handoff.handoff_id fresh

module _ {R : Type 0} where
  unfoldable pub save_worker_handoff : String → WorkerHandoff → Repo R → Repo R
  save_worker_handoff handoff_id handoff repo = record repo {
    worker_handoffs = insert handoff_id handoff repo.worker_handoffs;
    worker_handoff_order = repo.worker_handoff_order ++ handoff_id ∷ [];
  }

  -- The persisted handoff of one attempt, and the event of its outcome.
  unfoldable pub persist_attempt :
      String → ℕ → Assignment → WorkerHandoff → Repo R → WorkerHandoff × Repo R
  persist_attempt task_id loop_id a handoff repo =
      let coerced = coerce_handoff handoff a in
      let handoff_id = handoff_id_of task_id loop_id a.assignment_id coerced in
      let kept = record coerced { handoff_id = some handoff_id } in
      let body =
        if handoff_failed kept
        then EventBody.worker_assignment_failed a.assignment_id
            (truthy_or_default kept.error_type "unknown") handoff_id
        else EventBody.worker_assignment_completed a.assignment_id handoff_id in
      (kept, append_event body task_id (some loop_id) (save_worker_handoff handoff_id kept repo))

abbrev pub may_retry : Assignment → WorkerHandoff → Bool
may_retry a handoff = handoff_failed handoff && handoff.retryable && ltb a.retry_count a.max_retries

abbrev pub next_try : Assignment → Assignment
next_try a = record a { retry_count = a.retry_count + 1 }

-- The rounds that the retries of an assignment can take.
abbrev pub rounds_of : Assignment → ℕ
rounds_of a = suc (a.max_retries - a.retry_count)

module _ {R : Type 0} ⦃fl : Floats R⦄ (runtime : Runtime R) (task_id : String) (loop_id : ℕ) where
  -- What follows the run of the worker.
  unfoldable pub after_run :
      (Assignment → Repo R → Attempted × Repo R)
      → Assignment
      → RunOutcome
      → Repo R
      → Attempted × Repo R
  after_run again a RunOutcome.hit_ceiling repo = (Attempted.safety_stop false, repo)
  after_run again a (RunOutcome.handed result) repo =
      let (handoff, persisted) = persist_attempt task_id loop_id a result repo in
      let retried =
        append_event
          (EventBody.worker_assignment_retried a.assignment_id ((next_try a).retry_count + 1))
          task_id (some loop_id) persisted in
      if is_over_budget persisted task_id
      then (Attempted.safety_stop true, persisted)
      else if may_retry a handoff
      then again (next_try a) retried
      else (Attempted.ran handoff, persisted)

  unfoldable pub run_assignment_with_retries : ℕ → Assignment → Repo R → Attempted × Repo R
  run_assignment_with_retries zero a repo = (Attempted.out_of_fuel, repo)
  run_assignment_with_retries (suc fuel) a repo =
      let started =
        append_event (EventBody.worker_assignment_started a.assignment_id (a.retry_count + 1))
          task_id (some loop_id) repo in
      let (outcome, worked) = runtime a started in
      if is_over_budget repo task_id
      then (Attempted.safety_stop false, repo)
      else after_run (run_assignment_with_retries fuel) a outcome worked

-- `_blocked_by`: the first dependency that failed or was skipped
unfoldable pub blocked_by : List String → List String → List String → Option String
blocked_by failed_ids skipped_ids [] = none
blocked_by failed_ids skipped_ids (dependency_id ∷ dependencies) =
    let rest = blocked_by failed_ids skipped_ids dependencies in
    if contains failed_ids dependency_id || contains skipped_ids dependency_id
    then some dependency_id
    else rest

-- `if blocked_by is not None`
abbrev pub unless_blocked : {A : Type 0} → Option String → (String → A) → A → A
unless_blocked none skip run = run
unless_blocked (some blocker) skip run = skip blocker

-- What the loop over the assignments keeps; the ids and handoffs are in order.
pub record Progress : Type 0 where
  pub failed_ids : List String
  pub skipped_ids : List String
  pub handoffs : List WorkerHandoff

pub data Schedule : Type 0 where
  completed : (progress : Progress) → Schedule
  cycle_detected : (skipped_ids : List String) → Schedule
  stopped : (skipped_ids : List String) → Schedule
  stuck : Schedule

module _ {R : Type 0} (task_id : String) (loop_id : ℕ) where
  unfoldable pub emit_assignment_skipped : String → Assignment → Repo R → Repo R
  emit_assignment_skipped blocker a repo =
      append_event (EventBody.worker_assignment_skipped a.assignment_id blocker) task_id
        (some loop_id) repo

  -- Every assignment is skipped for one reason.
  unfoldable pub skip_all : String → List Assignment → Repo R → Repo R
  skip_all blocker [] repo = repo
  skip_all blocker (a ∷ assignments) repo =
      skip_all blocker assignments (emit_assignment_skipped blocker a repo)

  -- The loop over what remains at a safety stop; what was skipped already is passed over.
  unfoldable pub skip_remaining : List Assignment → List String → Repo R → List String × Repo R
  skip_remaining [] skipped_ids repo = (skipped_ids, repo)
  skip_remaining (a ∷ assignments) skipped_ids repo =
      let passed = skip_remaining assignments skipped_ids repo in
      let skipped =
        skip_remaining assignments (skipped_ids ++ a.assignment_id ∷ [])
          (emit_assignment_skipped "safety_stop" a repo) in
      if contains skipped_ids a.assignment_id then passed else skipped

abbrev pub skip_one : Assignment → Progress → Progress
skip_one a p = record p { skipped_ids = p.skipped_ids ++ a.assignment_id ∷ [] }

abbrev pub finish_one : Assignment → WorkerHandoff → Progress → Progress
finish_one a handoff p = record p {
  failed_ids = if handoff_failed handoff then a.assignment_id ∷ p.failed_ids else p.failed_ids;
  handoffs = p.handoffs ++ handoff ∷ [];
}

module _ {R : Type 0} ⦃fl : Floats R⦄ (runtime : Runtime R) (task_id : String) (loop_id : ℕ) where
  -- `remaining[start:]` of a safety stop
  abbrev pub stop_at : Bool → Assignment → List Assignment → Progress → Repo R → Schedule × Repo R
  stop_at current_completed a rest p repo =
      let remaining = if current_completed then rest else a ∷ rest in
      let (skipped_ids, repo') = skip_remaining task_id loop_id remaining p.skipped_ids repo in
      (Schedule.stopped skipped_ids, repo')

  -- What follows an attempt of an assignment.
  abbrev pub go_on :
      (Progress → Repo R → Schedule × Repo R)
      → Assignment
      → List Assignment
      → Progress
      → Attempted
      → Repo R
      → Schedule × Repo R
  go_on next a rest p Attempted.out_of_fuel repo = (Schedule.stuck, repo)
  go_on next a rest p (Attempted.safety_stop current_completed) repo =
      stop_at current_completed a rest p repo
  go_on next a rest p (Attempted.ran handoff) repo = next (finish_one a handoff p) repo

  unfoldable pub execute_ordered : List Assignment → Progress → Repo R → Schedule × Repo R
  execute_ordered [] p repo = (Schedule.completed p, repo)
  execute_ordered (a ∷ rest) p repo =
      let (attempted, repo') =
        run_assignment_with_retries runtime task_id loop_id (rounds_of a) a repo in
      unless_blocked (blocked_by p.failed_ids p.skipped_ids a.depends_on)
        (λ blocker.
          execute_ordered rest (skip_one a p)
            (emit_assignment_skipped task_id loop_id blocker a repo))
        (go_on (execute_ordered rest) a rest p attempted repo')

  unfoldable pub execute_assignments : List Assignment → Repo R → Schedule × Repo R
  execute_assignments assignments repo =
      let start : Progress = record { failed_ids = []; skipped_ids = []; handoffs = [] } in
      if contains_cycle assignments
      then (
        Schedule.cycle_detected (ids_of assignments),
        skip_all task_id loop_id "cycle" assignments repo,
      )
      else elim (topologically_order_assignments assignments) [
        | none ↦ (Schedule.stuck, repo)
        | some ordered ↦ execute_ordered ordered start repo
      ]
