-- ===== src/Orchestrator.antt =====
-- services/loop_orchestrator.py: from the validated candidate of a loop to the verdict on stagnation,
-- where the commit manager, the hunger update and the stagnation detector meet, and the loop with an
-- empty plan. `sha256` is the hexadecimal digest of a text.
pub mod Features
pub mod Attempts
pub mod Progress
pub mod Loops
use hungerloop.Prelude.{
  ℕ, String, Bool, true, false, Option, none, some, List, [], ◌∷◌, ◌++◌, ◌==◌, ◌||◌, not, string_eq,
  if◌then◌else◌, contains, any, leb, Floats,
}
use hungerloop.Models.Enums.{ValidationVerdict}
use hungerloop.Models.Hunger.{HungerPolicy}
use hungerloop.Models.Mission.{Mission}
use hungerloop.Models.Planning.{Assignment}
use hungerloop.Models.Validation.{ValidationReport, CandidateState}
use hungerloop.Repository.{
  Repo, Result, return, raise, reset_no_progress_streak, increment_no_progress_streak, EventBody,
  append_event,
}
use hungerloop.CommitManager.{CommitDecision, Environment, Outcome, World}
use hungerloop.CommitManager.Applying.{apply}
use hungerloop.RefactorTransactions.Settlement.{get_active_transaction}
use hungerloop.Stagnation.{
  StagnationDetector, StagnationResult, Attempted, update, exempted_check_keys,
}
use hungerloop.Conflicts.{ConflictResolutionResult, resolve_conflicts}
use hungerloop.HungerUpdate.{apply_validation}
use hungerloop.Workspace.{reject_candidate}
use hungerloop.Orchestrator.Features.{announce, attempted_hunger_item_ids, completed_feature_ids}

-- `commit_verdict != validation.verdict`
abbrev pub same_verdict : ValidationVerdict → ValidationVerdict → Bool
same_verdict ValidationVerdict.pass ValidationVerdict.pass = true
same_verdict ValidationVerdict.partial ValidationVerdict.partial = true
same_verdict ValidationVerdict.fail ValidationVerdict.fail = true
same_verdict _ _ = false

-- The report that the later services see: a rejected one has no progress.
unfoldable pub effective_validation : ValidationReport → CommitDecision → ValidationReport
effective_validation report decision =
    if not decision.committed || not (same_verdict decision.verdict report.verdict)
    then record report {
      verdict = decision.verdict;
      newly_passed_check_keys = [];
      satisfied_hunger_item_ids = [];
      has_real_progress = false;
    }
    else report

pub record LoopResult : Type 0 where
  pub decision : CommitDecision
  pub effective : ValidationReport
  pub conflicts : List ConflictResolutionResult
  pub stagnation : StagnationResult

-- What a loop brings to its decision: the candidate, its report, the mission of the task, the
-- assignments of the plan, and those that the scheduler skipped.
pub record LoopInput (R : Type 0) : Type 0 where
  pub candidate : CandidateState
  pub report : ValidationReport
  pub mission : Option (Mission R)
  pub assignments : List Assignment
  pub skipped_ids : List String

module _ {R : Type 0} ⦃fl : Floats R⦄ (detector : StagnationDetector) (policy : HungerPolicy R)
    (sha256 : String → String) where
  -- The keyword arguments that the orchestrator calls `update` with.
  abbrev pub update_args : Repo R → LoopInput R → CommitDecision → Attempted
  update_args before input decision = record {
    candidate_committed = decision.committed;
    attempted_hunger_item_ids =
        some (attempted_hunger_item_ids input.assignments input.skipped_ids);
    respect_stagnation = policy.respect_stagnation;
    open_transaction = get_active_transaction before input.candidate.task_id;
  }

  -- What follows a decision of the commit manager. `before` is the repository before it.
  unfoldable pub conclude : Repo R → LoopInput R → CommitDecision → World R → LoopResult × World R
  conclude before input decision w =
      let task_id = input.candidate.task_id in
      let loop_id = input.candidate.loop_id in
      let effective = effective_validation input.report decision in
      let announced =
        announce input.candidate input.report input.mission input.assignments decision w.repo in
      let (conflicts, resolved) =
        resolve_conflicts sha256 task_id loop_id input.report
          (attempted_hunger_item_ids input.assignments input.skipped_ids) decision.committed
          (exempted_check_keys announced task_id (get_active_transaction before task_id))
          policy.synthesis_conflict_threshold announced in
      let updated = apply_validation task_id effective resolved in
      let (stagnation, counted) =
        update detector task_id loop_id effective (update_args before input decision) updated in
      if any (λ r. r.quarantined) conflicts
      then (
        record {
          decision = decision;
          effective = effective;
          conflicts = conflicts;
          stagnation = record stagnation { global_blocked = false };
        },
        record w { repo = reset_no_progress_streak task_id counted },
      )
      else (
        record {
          decision = decision;
          effective = effective;
          conflicts = conflicts;
          stagnation = stagnation;
        },
        record w { repo = counted },
      )

  -- What follows the outcome of the commit manager, which may have raised.
  unfoldable pub after_decision :
      Repo R → LoopInput R → Result CommitDecision → World R → Outcome R LoopResult
  after_decision before input (raise e) w = (raise e, w)
  after_decision before input (return decision) w =
      let (result, w') = conclude before input decision w in (return result, w')

  -- The part of a loop from the validated candidate to the verdict on stagnation.
  unfoldable pub decide_loop : Environment R → LoopInput R → World R → Outcome R LoopResult
  decide_loop env input w =
      let (decided, w') =
        apply env input.candidate input.report
          (completed_feature_ids input.mission input.assignments input.report)
          (get_active_transaction w.repo input.candidate.task_id) w in
      after_decision w.repo input decided w'

module _ {R : Type 0} (detector : StagnationDetector) where
  -- The loop with an empty plan and no phase to validate: whether it stops the task.
  unfoldable pub handle_empty_plan : String → ℕ → World R → Bool × World R
  handle_empty_plan task_id loop_id w =
      let (streak, counted) = increment_no_progress_streak task_id w.repo in
      let told =
        append_event (EventBody.empty_plan_rejected streak) task_id (some loop_id) counted in
      let stopped =
        append_event (EventBody.global_stagnation_blocked streak detector.max_global_no_progress)
          task_id (some loop_id) told in
      let workspace = reject_candidate task_id loop_id w.workspace in
      if leb detector.max_global_no_progress streak
      then (true, record { repo = stopped; workspace = workspace })
      else (false, record { repo = told; workspace = workspace })
