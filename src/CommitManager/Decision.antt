-- ===== src/CommitManager/Decision.antt =====
-- `_can_commit` and `_reject_reason` of services/commit_manager.py.
use hungerloop.Prelude.{
  String, Bool, false, Option, none, some, is_empty, subset, string_eq, nat_eq, pair_eq,
  if◌then◌else◌, ◌&&◌, ◌||◌, not, ◌==◌, Floats,
}
use hungerloop.Models.Enums.{is_passing, is_fail, is_open}
use hungerloop.Models.Validation.{ValidationReport, CandidateState}
use hungerloop.Models.Refactor.{RefactorTransaction}
use hungerloop.Repository.{Repo, get_hunger_policy}

module _ {R : Type 0} ⦃fl : Floats R⦄ where
  unfoldable pub is_active_matching_transaction :
      Repo R → Option RefactorTransaction → String → Bool
  unfolding get_hunger_policy
  is_active_matching_transaction repo none task_id = false
  is_active_matching_transaction repo (some txn) task_id =
      is_open txn.status
      && txn.task_id == task_id
      && (get_hunger_policy repo task_id).refactor_transactions_enabled

  -- Whether a regression is left that no active transaction declares.
  unfoldable pub has_blocking_regression :
      Repo R → ValidationReport → CandidateState → Option RefactorTransaction → Bool
  unfolding is_active_matching_transaction subset
  has_blocking_regression repo report candidate none = not (is_empty report.regressed_check_keys)
  has_blocking_regression repo report candidate (some txn) =
      not (is_empty report.regressed_check_keys)
      && (not (is_active_matching_transaction repo (some txn) candidate.task_id)
          || not (subset report.regressed_check_keys txn.declared_regression_keys))

  unfoldable pub can_commit :
      Repo R → ValidationReport → CandidateState → Option RefactorTransaction → Bool
  unfolding has_blocking_regression
  can_commit repo report candidate open_transaction =
      if not (is_passing report.verdict)
      then false
      else if is_empty report.newly_passed_check_keys
      then false
      else if not (is_empty report.missing_evidence)
      then false
      else not (has_blocking_regression repo report candidate open_transaction)

  unfoldable pub reject_reason :
      Repo R → ValidationReport → CandidateState → Option RefactorTransaction → String
  unfolding has_blocking_regression
  reject_reason repo report candidate open_transaction =
      if is_fail report.verdict
      then "verdict_fail"
      else if is_empty report.newly_passed_check_keys
      then "no_new_check_progress"
      else if has_blocking_regression repo report candidate open_transaction
      then "regressed_checks_detected"
      else if not (is_empty report.missing_evidence)
      then "missing_evidence"
      else "unknown"
