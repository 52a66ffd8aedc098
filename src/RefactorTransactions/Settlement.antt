-- ===== src/RefactorTransactions/Settlement.antt =====
-- Closing, rolling back and settling of services/refactor_transaction_manager.py.
use hungerloop.Prelude.{
  ℕ, String, Bool, true, false, Option, none, some, List, [], ◌∷◌, lookup, insert, remove, subset,
  string_eq, nat_eq, pair_eq, if◌then◌else◌, ◌&&◌, not, ltb, Floats,
}
use hungerloop.Models.Enums.{RefactorTransactionStatus, is_open}
use hungerloop.Models.Validation.{BestState}
use hungerloop.Models.Refactor.{RefactorTransaction}
use hungerloop.Repository.{
  Repo, EventBody, append_event, get_hunger_policy, get_best_state, save_best_state,
}
use hungerloop.Repository.Transactions.{
  get_open_refactor_transaction, list_refactor_transactions, update_refactor_transaction_status,
}
use hungerloop.Workspace.{Workspace, write_best_manifest}
use hungerloop.CommitManager.{World}
use hungerloop.RefactorTransactions.{RefactorTxnResult, CopyFaults, failed, emit_settle_failed}

-- `f"already_{status.value}"`
abbrev already : RefactorTransactionStatus → String
already RefactorTransactionStatus.opened = "already_open"
already RefactorTransactionStatus.closed_success = "already_closed_success"
already RefactorTransactionStatus.rolled_back = "already_rolled_back"

abbrev last? {ℓ} : {A : Type ℓ} → List A → Option A
last? [] = none
last? (x ∷ xs) = elim (last? xs) [ none ↦ some x | some y ↦ some y ]

-- `_restore_best_from_snapshot`: whether it raised, and the workspace that it leaves. The best
-- directory is emptied before the files are copied back.
unfoldable pub restore_best_from_snapshot :
    CopyFaults → RefactorTransaction → Workspace → Bool × Workspace
restore_best_from_snapshot faults txn w =
    elim (lookup (txn.task_id, txn.snapshot_path) w.snapshots) [
      | none ↦ (true, w)
      | some files ↦
          let restored : Workspace = record w { best = insert txn.task_id files w.best } in
          if faults.restore
          then (true, record w { best = insert txn.task_id [] w.best })
          else if faults.manifest
          then (true, restored)
          else (false, write_best_manifest txn.task_id txn.snapshot_path files restored)
    ]

remove_snapshot : RefactorTransaction → Workspace → Workspace
remove_snapshot txn w = record w { snapshots = remove (txn.task_id, txn.snapshot_path) w.snapshots }

-- `declared.issubset(current)`
abbrev pub declared_recovered : RefactorTransaction → BestState → Bool
declared_recovered txn best = subset txn.declared_regression_keys best.accepted_check_keys

-- `baseline.issubset(current) and current > baseline`
abbrev pub is_strict_superset : RefactorTransaction → BestState → Bool
is_strict_superset txn best =
    subset txn.baseline_accepted_check_keys best.accepted_check_keys
    && (subset txn.baseline_accepted_check_keys best.accepted_check_keys
        && not (subset best.accepted_check_keys txn.baseline_accepted_check_keys))

-- Without an open transaction, the latest one tells whether there is something closed already.
unfoldable pub close_again : Option RefactorTransaction → RefactorTxnResult
close_again none = failed "no_open_transaction" none
close_again (some latest) =
    if is_open latest.status then failed "no_open_transaction" none else record {
      success = true;
      reason = already latest.status;
      status = latest.status;
      transaction = some latest;
    }

module _ {R : Type 0} where
  unfoldable pub close_success : RefactorTransaction → ℕ → World R → RefactorTxnResult × World R
  unfolding remove_snapshot
  close_success txn loop_id w =
      elim (update_refactor_transaction_status txn.transaction_id
        RefactorTransactionStatus.closed_success loop_id "all_declared_recovered_with_net_progress"
        w.repo) [
          | none ↦ (
            failed "close_success_persistence_failed" (some txn),
            record w {
              repo = emit_settle_failed txn loop_id "close_success_persistence_failed" w.repo;
            },
          )
          | some (updated, repo) ↦ (
            record {
              success = true;
              reason = "closed_success";
              status = RefactorTransactionStatus.closed_success;
              transaction = some updated;
            },
            record {
              repo =
                  append_event
                    (EventBody.refactor_txn_closed_success txn.transaction_id
                      txn.declared_regression_keys)
                    txn.task_id (some loop_id) repo;
              workspace = remove_snapshot txn w.workspace;
            },
          )
        ]

  -- The repository's part of `_rollback`: without the row, only a transaction that rolls back takes
  -- the best state back.
  unfoldable pub persist_rollback :
      RefactorTransaction → ℕ → String → World R → RefactorTxnResult × World R
  unfolding remove_snapshot
  persist_rollback txn loop_id reason w =
      let saved = save_best_state txn.baseline_best_state w.repo in
      elim (update_refactor_transaction_status txn.transaction_id
        RefactorTransactionStatus.rolled_back loop_id reason saved) [
          | none ↦ (
            failed "rollback_persistence_failed" (some txn),
            record w {
              repo =
                  emit_settle_failed txn loop_id "rollback_persistence_failed"
                    (if w.repo.rolls_back then w.repo else saved);
            },
          )
          | some (updated, repo) ↦ (
            record {
              success = false;
              reason = reason;
              status = RefactorTransactionStatus.rolled_back;
              transaction = some updated;
            },
            record {
              repo =
                  append_event
                    (EventBody.refactor_txn_rolled_back txn.transaction_id
                      txn.declared_regression_keys reason)
                    txn.task_id (some loop_id) repo;
              workspace = remove_snapshot txn w.workspace;
            },
          )
        ]

  unfoldable pub rollback :
      CopyFaults → RefactorTransaction → ℕ → String → World R → RefactorTxnResult × World R
  rollback faults txn loop_id reason w =
      let (raised, workspace) = restore_best_from_snapshot faults txn w.workspace in
      let restored : World R = record w { workspace = workspace } in
      if raised
      then (
        failed "rollback_restoration_failed" (some txn),
        record restored {
          repo = emit_settle_failed txn loop_id "rollback_restoration_failed" w.repo;
        },
      )
      else persist_rollback txn loop_id reason restored

  -- The open transaction is closed by the keys of the best state, if there is one.
  unfoldable pub close_open :
      CopyFaults
      → RefactorTransaction
      → ℕ
      → Option BestState
      → World R
      → RefactorTxnResult × World R
  close_open faults txn loop_id none w = rollback faults txn loop_id "no_best_state_at_close" w
  close_open faults txn loop_id (some best) w =
      if declared_recovered txn best && is_strict_superset txn best
      then close_success txn loop_id w
      else if not (declared_recovered txn best)
      then rollback faults txn loop_id "declared_keys_not_recovered" w
      else rollback faults txn loop_id "not_strict_superset" w

module _ {R : Type 0} ⦃fl : Floats R⦄ where
  unfoldable pub close : CopyFaults → String → ℕ → World R → RefactorTxnResult × World R
  close faults task_id loop_id w =
      if not (get_hunger_policy w.repo task_id).refactor_transactions_enabled
      then (failed "refactor_transactions_disabled" none, w)
      else elim (get_open_refactor_transaction w.repo task_id) [
        | none ↦ (close_again (last? (list_refactor_transactions w.repo task_id)), w)
        | some txn ↦
            if not (is_open txn.status)
            then (close_again (some txn), w)
            else close_open faults txn loop_id (get_best_state w.repo task_id) w
      ]

  unfoldable pub settle_if_due :
      CopyFaults → String → ℕ → World R → Option RefactorTxnResult × World R
  settle_if_due faults task_id current_loop w =
      if not (get_hunger_policy w.repo task_id).refactor_transactions_enabled
      then (none, w)
      else elim (get_open_refactor_transaction w.repo task_id) [
        | none ↦ (none, w)
        | some txn ↦
            let (result, closed) = close faults task_id current_loop w in
            if not (is_open txn.status)
            then (none, w)
            else if ltb current_loop txn.deadline_loop
            then (none, w)
            else (some result, closed)
      ]

  unfoldable pub get_active_transaction : Repo R → String → Option RefactorTransaction
  get_active_transaction repo task_id =
      if not (get_hunger_policy repo task_id).refactor_transactions_enabled
      then none
      else get_open_refactor_transaction repo task_id
