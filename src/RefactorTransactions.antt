-- ===== src/RefactorTransactions.antt =====
-- services/refactor_transaction_manager.py: the opening of a bounded refactor transaction, and what
-- closing it (Settlement) shares. A snapshot is a dict of files; a copy that the file system refuses
-- has copied nothing yet.
pub mod Settlement
pub mod Opening
pub mod Closing
pub mod Rollback
pub mod Settling
pub mod Single
use Prim.Native.String
use Prim.Native.Char.{code}
use hungerloop.Prelude.{
  ℕ, ◌+◌, String, Bool, true, false, Option, none, some, List, [], ◌∷◌, Dict, lookup, insert,
  remove, filter, contains, dedupe, length, is_empty, all, subset, string_eq, nat_eq, pair_eq,
  if◌then◌else◌, ◌&&◌, ◌||◌, not, ltb, leb, ◌==◌, Floats,
}
use hungerloop.CheckKey.{print_index}
use hungerloop.Models.Enums.{RefactorTransactionStatus, is_open}
use hungerloop.Models.Hunger.{HungerPolicy}
use hungerloop.Models.Validation.{BestState}
use hungerloop.Models.Refactor.{RefactorTransaction, is_valid_transaction}
use hungerloop.Repository.{
  Repo, Result, return, raise, value_error, EventBody, append_event, get_hunger_policy,
  get_best_state, save_best_state,
}
use hungerloop.Repository.Transactions.{
  save_refactor_transaction, get_open_refactor_transaction, list_refactor_transactions,
  update_refactor_transaction_status,
}
use hungerloop.Workspace.{Files, Workspace, ensure_task_workspace, write_best_manifest}
use hungerloop.CommitManager.{World, after_prefix}

pub record RefactorTxnResult : Type 0 where
  pub success : Bool
  pub reason : String
  pub status : RefactorTransactionStatus
  pub transaction : Option RefactorTransaction

-- Which copies the file system refuses: into the snapshot, and back from it.
pub record CopyFaults : Type 0 where
  pub snapshot : Bool
  pub restore : Bool
  pub manifest : Bool

abbrev starts_with : String → String → Bool
starts_with prefix s = elim (after_prefix prefix s) [ none ↦ false | some _ ↦ true ]

-- Whether a part of the path starts with ".txn_"; `at_part` says that `s` starts a part.
unfoldable pub has_txn_part : Bool → String → Bool
has_txn_part at_part String.[] = false
has_txn_part at_part (String.◌∷◌ c s) =
    let rest = has_txn_part (code c == b'/') s in
    if at_part && starts_with ".txn_" (String.◌∷◌ c s) then true else rest

unfoldable pub snapshot_of_best : Files → Files
snapshot_of_best files = filter (λ file. not (has_txn_part true file.0)) files

abbrev pub failed : String → Option RefactorTransaction → RefactorTxnResult
failed reason txn = record {
  success = false;
  reason = reason;
  status = RefactorTransactionStatus.opened;
  transaction = txn;
}

-- `f"RTXN-{task_id}-{loop_id}-{token}"`, with the token that uuid4 drew
unfoldable pub transaction_id_of : String → ℕ → String → String
transaction_id_of task_id loop_id token = String.◌++◌ "RTXN-" (
    String.◌++◌ task_id
      (String.◌++◌ "-" (String.◌++◌ (print_index loop_id) (String.◌++◌ "-" token))))

-- The transaction that `open` builds.
unfoldable pub new_transaction :
    String → ℕ → ℕ → List String → BestState → String → RefactorTransaction
new_transaction task_id loop_id deadline_loops declared best token =
    let transaction_id = transaction_id_of task_id loop_id token in
    record {
      transaction_id = transaction_id;
      task_id = task_id;
      opening_loop = loop_id;
      deadline_loop = loop_id + deadline_loops;
      declared_regression_keys = declared;
      baseline_accepted_check_keys = best.accepted_check_keys;
      baseline_accepted_check_count = length best.accepted_check_keys;
      baseline_best_state = best;
      snapshot_path = String.◌++◌ ".txn_" transaction_id;
      status = RefactorTransactionStatus.opened;
      closed_loop = none;
      close_reason = none;
    }

module _ {R : Type 0} where
  emit_rejected_open : String → ℕ → List String → String → Repo R → Repo R
  emit_rejected_open task_id loop_id declared reason repo =
      append_event (EventBody.refactor_txn_open_rejected declared reason) task_id (some loop_id)
        repo

  unfoldable pub rejected_open :
      String → ℕ → List String → String → World R → Result RefactorTxnResult × World R
  unfolding emit_rejected_open
  rejected_open task_id loop_id declared reason w = (
    return (failed reason none),
    record w { repo = emit_rejected_open task_id loop_id declared reason w.repo },
  )

  unfoldable pub emit_settle_failed : RefactorTransaction → ℕ → String → Repo R → Repo R
  emit_settle_failed txn loop_id reason repo =
      append_event (EventBody.refactor_txn_settle_failed txn.transaction_id reason) txn.task_id
        (some loop_id) repo

  -- The transaction is built and saved, with its event; the snapshot goes if saving it fails.
  unfoldable pub persist_open :
      RefactorTransaction → ℕ → World R → Result RefactorTxnResult × World R
  persist_open txn loop_id w =
      if not (is_valid_transaction txn)
      then (raise value_error, w)
      else elim (save_refactor_transaction txn w.repo) [
        | raise e ↦
            rejected_open txn.task_id loop_id txn.declared_regression_keys "persistence_failed"
              (record w {
                workspace = record w.workspace {
                  snapshots = remove (txn.task_id, txn.snapshot_path) w.workspace.snapshots;
                };
              })
        | return repo ↦ (
          return (record {
            success = true;
            reason = "transaction_opened";
            status = RefactorTransactionStatus.opened;
            transaction = some txn;
          }),
          record w {
            repo =
                append_event
                  (EventBody.refactor_txn_opened txn.transaction_id txn.deadline_loop
                    txn.declared_regression_keys)
                  txn.task_id (some loop_id) repo;
          },
        )
      ]

  -- From the snapshot on, with the best state found.
  unfoldable pub open_with_best :
      CopyFaults
      → String
      → ℕ
      → ℕ
      → List String
      → String
      → BestState
      → World R
      → Result RefactorTxnResult × World R
  open_with_best faults task_id loop_id deadline_loops declared token best w =
      elim (lookup task_id w.workspace.best) [
        | none ↦ rejected_open task_id loop_id declared "no_best_files" w
        | some files ↦
            let txn = new_transaction task_id loop_id deadline_loops declared best token in
            if faults.snapshot
            then rejected_open task_id loop_id declared "snapshot_copy_failed" w
            else persist_open txn loop_id (record w {
              workspace = record w.workspace {
                snapshots =
                    insert (task_id, txn.snapshot_path) (snapshot_of_best files)
                      w.workspace.snapshots;
              };
            })
      ]

  unfoldable pub check_best :
      CopyFaults
      → String
      → ℕ
      → ℕ
      → List String
      → String
      → Option BestState
      → World R
      → Result RefactorTxnResult × World R
  check_best faults task_id loop_id deadline_loops declared token none w =
      rejected_open task_id loop_id declared "no_best_state" w
  check_best faults task_id loop_id deadline_loops declared token (some best) w =
      if not (subset declared best.accepted_check_keys)
      then rejected_open task_id loop_id declared "declared_keys_not_accepted" w
      else open_with_best faults task_id loop_id deadline_loops declared token best
          (record w { workspace = ensure_task_workspace task_id w.workspace })

abbrev pub is_some_txn : Option RefactorTransaction → Bool
is_some_txn none = false
is_some_txn (some _) = true

module _ {R : Type 0} ⦃fl : Floats R⦄ where
  unfoldable pub open_transaction :
      CopyFaults → String → ℕ → List String → String → World R → Result RefactorTxnResult × World R
  open_transaction faults task_id loop_id declared token w =
      let policy = get_hunger_policy w.repo task_id in
      if not policy.refactor_transactions_enabled
      then rejected_open task_id loop_id declared "refactor_transactions_disabled" w
      else if policy.refactor_deadline_loops == 0
      then rejected_open task_id loop_id declared "non_positive_deadline_window" w
      else if is_some_txn (get_open_refactor_transaction w.repo task_id)
      then rejected_open task_id loop_id declared "transaction_already_open" w
      else if is_empty declared
      then rejected_open task_id loop_id declared "empty_declared_keys" w
      else if not (length declared == length (dedupe declared))
      then rejected_open task_id loop_id declared "duplicate_declared_keys" w
      else if ltb policy.max_declared_regressions (length declared)
      then rejected_open task_id loop_id declared "declared_keys_exceed_limit" w
      else check_best faults task_id loop_id policy.refactor_deadline_loops declared token
          (get_best_state w.repo task_id) w
