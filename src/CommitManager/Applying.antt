-- ===== src/CommitManager/Applying.antt =====
-- `apply` of services/commit_manager.py.
use hungerloop.Prelude.{
  String, true, false, Option, none, some, List, ◌++◌, insert, dedupe, string_eq, nat_eq, pair_eq,
  if◌then◌else◌, Floats,
}
use hungerloop.Models.Validation.{ValidationReport, CandidateState}
use hungerloop.Models.Refactor.{RefactorTransaction}
use hungerloop.Repository.{
  Repo, return, raise, regeneration_failed, os_error, EventBody, accepted_check_keys_of,
  save_best_state, mark_candidate_committed, mark_candidate_rejected, append_event,
  add_failure_from_validation,
}
use hungerloop.Repository.Missions.{get_mission}
use hungerloop.Workspace.{
  Workspace, promote_candidate_to_best, reject_candidate, write_best_manifest, candidate_source,
}
use hungerloop.CommitManager.{
  CommitDecision, Environment, Outcome, World, committed_best, complete_features,
  emit_discovery_credits, failed_regeneration, files_of_best, next, on_repo, save_accepted_checks,
  transaction,
}
use hungerloop.CommitManager.Decision.{can_commit, reject_reason}

module _ {R : Type 0} where
  -- The artifacts of a mission, rewritten among the files of best, and then the manifest.
  unfoldable pub regenerate_artifacts :
      Environment R → CandidateState → World R → Outcome R (Unit {0})
  regenerate_artifacts env candidate w = elim (get_mission w.repo candidate.task_id) [
    | none ↦ (return tt, w)
    | some mission ↦
        let (raised, events, files) =
          env.regenerate w.repo candidate.task_id (files_of_best w.workspace candidate.task_id) in
        let repo : Repo R = record w.repo { events = w.repo.events ++ events } in
        let workspace : Workspace = record w.workspace {
          best = insert candidate.task_id files w.workspace.best;
        } in
        if raised
        then (raise regeneration_failed, record { repo = repo; workspace = workspace })
        else if env.final_manifest
        then (raise os_error, record { repo = repo; workspace = workspace })
        else (
          return tt,
          record {
            repo = repo;
            workspace =
                write_best_manifest candidate.task_id (candidate_source candidate.loop_id) files
                  workspace;
          },
        )
  ]

  -- The body of the commit's transaction
  unfoldable pub commit_body :
      Environment R
      → CandidateState
      → ValidationReport
      → List String
      → List String
      → World R
      → Outcome R (Unit {0})
  commit_body env candidate report completed_feature_ids pre_accepted w =
      let (promoted, workspace) =
        promote_candidate_to_best env.faults candidate.task_id candidate.loop_id w.workspace in
      next (promoted, record w { workspace = workspace })
        (λ w.
          let repo =
            mark_candidate_committed candidate.id
              (save_best_state (committed_best candidate report) w.repo) in
          next
            (on_repo (save_accepted_checks candidate report report.newly_passed_check_keys repo)
              w.workspace)
            (λ w.
              let credited =
                emit_discovery_credits candidate.task_id candidate.loop_id
                  report.newly_passed_check_keys pre_accepted w.repo in
              next (on_repo (complete_features (dedupe completed_feature_ids) credited) w.workspace)
                (λ w. regenerate_artifacts env candidate w)))

  -- What `apply` does when its transaction is over.
  unfoldable pub after_commit :
      CandidateState → ValidationReport → Outcome R (Unit {0}) → Outcome R CommitDecision
  after_commit candidate report (return _, w) = (
    return (record {
      committed = true;
      reason = "validation_passed_with_check_progress";
      verdict = report.verdict;
    }),
    w,
  )
  after_commit candidate report (raise regeneration_failed, w) = (
    return failed_regeneration,
    record {
      repo =
          append_event (EventBody.mission_state_regeneration_failed candidate.id report.id)
            candidate.task_id (some candidate.loop_id)
            (mark_candidate_rejected candidate.id w.repo);
      workspace = reject_candidate candidate.task_id candidate.loop_id w.workspace;
    },
  )
  after_commit candidate report (raise e, w) = (raise e, w)

module _ {R : Type 0} ⦃fl : Floats R⦄ where
  unfoldable pub apply :
      Environment R
      → CandidateState
      → ValidationReport
      → List String
      → Option RefactorTransaction
      → World R
      → Outcome R CommitDecision
  apply env candidate report completed_feature_ids open_transaction w =
      let pre_accepted = accepted_check_keys_of candidate.task_id w.repo.accepted_checks in
      if can_commit w.repo report candidate open_transaction
      then after_commit candidate report
          (transaction w (commit_body env candidate report completed_feature_ids pre_accepted w))
      else (
        return (record {
          committed = false;
          reason = reject_reason w.repo report candidate open_transaction;
          verdict = report.verdict;
        }),
        record {
          repo = add_failure_from_validation report (mark_candidate_rejected candidate.id w.repo);
          workspace = reject_candidate candidate.task_id candidate.loop_id w.workspace;
        },
      )
