-- ===== src/Samples/Refactors.antt =====
-- Examples of refactor transactions.
use hungerloop.Prelude.{
  ℕ, String, Bool, true, false, Option, none, some, List, [], ◌∷◌, lookup, ◌≡◌, ◌↔◌, refl, milli,
  string_eq, nat_eq, pair_eq,
}
use hungerloop.Models.Enums.{RefactorTransactionStatus}
use hungerloop.Models.Validation.{BestState}
use hungerloop.Models.Refactor.{RefactorTransaction}
use hungerloop.Repository.{
  Repo, Result, return, raise, get_best_state, save_best_state, get_hunger_policy,
}
use hungerloop.RefactorTransactions.Single.{IsSingle, save-IsSingle}
use native.Mathlib.Omega.{arith}
use hungerloop.Prelude.{◌≢◌}
use hungerloop.Repository.Transactions.{
  save_refactor_transaction, update_refactor_transaction_status, get_open_refactor_transaction,
}
use hungerloop.CommitManager.{World}
use hungerloop.RefactorTransactions.{
  RefactorTxnResult, CopyFaults, open_transaction, new_transaction, snapshot_of_best,
}
use hungerloop.RefactorTransactions.Settlement.{rollback, close, settle_if_due}
use hungerloop.RefactorTransactions.Opening.{Opened, open_transaction_lem}
use hungerloop.RefactorTransactions.Closing.{Recovered, close_success_iff}
use hungerloop.RefactorTransactions.Rollback.{open_rollback_roundtrip}
use hungerloop.Samples.{world, best, old_files}

abbrev no_faults : CopyFaults
no_faults = record { snapshot = false; restore = false; manifest = false }

abbrev txn : RefactorTransaction
txn = new_transaction "t" 3 3 ("A:0" ∷ []) best "0"

abbrev opened : RefactorTxnResult
opened = record {
  success = true;
  reason = "transaction_opened";
  status = RefactorTransactionStatus.opened;
  transaction = some txn;
}

abbrev after_open : World ℕ
after_open = (open_transaction no_faults "t" 3 ("A:0" ∷ []) "0" world).1

open-returns : open_transaction no_faults "t" 3 ("A:0" ∷ []) "0" world ≡ (return opened, after_open)
unfolding open_transaction get_hunger_policy get_open_refactor_transaction hungerloop.Prelude.dedupe
    hungerloop.RefactorTransactions.check_best get_best_state hungerloop.Prelude.subset
    hungerloop.RefactorTransactions.open_with_best hungerloop.Workspace.ensure_task_workspace
    hungerloop.RefactorTransactions.persist_open hungerloop.Models.Refactor.is_valid_transaction
    new_transaction hungerloop.Repository.Transactions.save_refactor_transaction
open-returns = refl

open_transaction_example :
    (t : RefactorTransaction) × (opened.transaction ≡ some t)
    × Opened "t" 3 ("A:0" ∷ []) world after_open t
open_transaction_example =
    open_transaction_lem no_faults "t" 3 ("A:0" ∷ []) "0" world after_open opened open-returns refl

-- A best state of the time after, with a check more.
abbrev better : BestState
better = record best { state_id = "S9"; accepted_check_keys = "A:0" ∷ "A:1" ∷ [] }

abbrev later : World ℕ
later = record after_open { repo = save_best_state better after_open.repo }

abbrev closing : RefactorTxnResult
closing = (rollback no_faults txn 6 "not_strict_superset" later).0

abbrev after_rollback : World ℕ
after_rollback = (rollback no_faults txn 6 "not_strict_superset" later).1

closing-rolled_back : closing.status ≡ RefactorTransactionStatus.rolled_back
unfolding rollback hungerloop.RefactorTransactions.Settlement.restore_best_from_snapshot lookup
    open_transaction get_hunger_policy get_open_refactor_transaction hungerloop.Prelude.dedupe
    hungerloop.RefactorTransactions.check_best get_best_state hungerloop.Prelude.subset
    hungerloop.RefactorTransactions.open_with_best hungerloop.Workspace.ensure_task_workspace
    hungerloop.RefactorTransactions.persist_open hungerloop.Models.Refactor.is_valid_transaction
    new_transaction hungerloop.Repository.Transactions.save_refactor_transaction
    hungerloop.RefactorTransactions.transaction_id_of hungerloop.CheckKey.print_index
    hungerloop.CommitManager.after_prefix hungerloop.Prelude.insert hungerloop.Prelude.lookup_or
    hungerloop.Prelude.remove hungerloop.Prelude.all hungerloop.Prelude.contains
    hungerloop.Prelude.any hungerloop.Prelude.filter hungerloop.Prelude.nodup
    hungerloop.RefactorTransactions.Settlement.persist_rollback
    hungerloop.RefactorTransactions.emit_settle_failed hungerloop.RefactorTransactions.has_txn_part
    hungerloop.RefactorTransactions.rejected_open snapshot_of_best
    hungerloop.Repository.Transactions.update_refactor_transaction_status
    hungerloop.Workspace.write_best_manifest save_best_state hungerloop.Repository.append_event
closing-rolled_back = refl

best-found : lookup "t" world.workspace.best ≡ some old_files
unfolding lookup
best-found = refl

open_rollback_example :
    (get_best_state after_rollback.repo "t" ≡ get_best_state world.repo "t")
    × (lookup "t" after_rollback.workspace.best ≡ some (snapshot_of_best old_files))
open_rollback_example =
    open_rollback_roundtrip no_faults no_faults "t" 3 6 ("A:0" ∷ []) "0" "not_strict_superset" world
      after_open later after_rollback opened closing txn old_files open-returns refl refl best-found
      refl refl closing-rolled_back

enabled : (get_hunger_policy later.repo "t").refactor_transactions_enabled ≡ true
unfolding get_hunger_policy save_best_state open_transaction get_open_refactor_transaction
    hungerloop.Prelude.dedupe hungerloop.RefactorTransactions.check_best get_best_state
    hungerloop.Prelude.subset hungerloop.RefactorTransactions.open_with_best
    hungerloop.Workspace.ensure_task_workspace hungerloop.RefactorTransactions.persist_open
    hungerloop.Models.Refactor.is_valid_transaction new_transaction
    hungerloop.Repository.Transactions.save_refactor_transaction hungerloop.Repository.append_event
enabled = refl

open-found : get_open_refactor_transaction later.repo "t" ≡ some txn
unfolding get_open_refactor_transaction save_best_state open_transaction get_hunger_policy
    hungerloop.Prelude.dedupe hungerloop.RefactorTransactions.check_best get_best_state
    hungerloop.Prelude.subset hungerloop.RefactorTransactions.open_with_best
    hungerloop.Workspace.ensure_task_workspace hungerloop.RefactorTransactions.persist_open
    hungerloop.Models.Refactor.is_valid_transaction new_transaction
    hungerloop.Repository.Transactions.save_refactor_transaction hungerloop.Repository.append_event
open-found = refl

row-found : lookup txn.transaction_id later.repo.refactor_transactions ≡ some txn
unfolding lookup save_best_state open_transaction get_hunger_policy get_open_refactor_transaction
    hungerloop.Prelude.dedupe hungerloop.RefactorTransactions.check_best get_best_state
    hungerloop.Prelude.subset hungerloop.RefactorTransactions.open_with_best
    hungerloop.Workspace.ensure_task_workspace hungerloop.RefactorTransactions.persist_open
    hungerloop.Models.Refactor.is_valid_transaction new_transaction
    hungerloop.Repository.Transactions.save_refactor_transaction hungerloop.Repository.append_event
    hungerloop.RefactorTransactions.transaction_id_of hungerloop.CheckKey.print_index
row-found = refl

better-found : get_best_state later.repo "t" ≡ some better
unfolding get_best_state save_best_state open_transaction get_hunger_policy
    get_open_refactor_transaction hungerloop.Prelude.dedupe
    hungerloop.RefactorTransactions.check_best hungerloop.Prelude.subset
    hungerloop.RefactorTransactions.open_with_best hungerloop.Workspace.ensure_task_workspace
    hungerloop.RefactorTransactions.persist_open hungerloop.Models.Refactor.is_valid_transaction
    new_transaction hungerloop.Repository.Transactions.save_refactor_transaction
    hungerloop.Repository.append_event
better-found = refl

close_success_example : ((close no_faults "t" 6 later).0.success ≡ true) ↔ Recovered txn better
close_success_example =
    close_success_iff no_faults "t" 6 later txn txn better enabled open-found row-found better-found

abbrev rejected : RefactorTxnResult
rejected = record {
  success = false;
  reason = "empty_declared_keys";
  status = RefactorTransactionStatus.opened;
  transaction = none;
}

abbrev after_rejection : World ℕ
after_rejection = (open_transaction no_faults "t" 3 [] "0" world).1

rejects : open_transaction no_faults "t" 3 [] "0" world ≡ (return rejected, after_rejection)
unfolding open_transaction get_hunger_policy get_open_refactor_transaction
    hungerloop.RefactorTransactions.rejected_open
rejects = refl

-- At the deadline of the transaction.
abbrev settled : Option RefactorTxnResult × World ℕ
settled = settle_if_due no_faults "t" 6 later

abbrev saved_repo : Repo ℕ
saved_repo = record world.repo { refactor_transactions = (txn.transaction_id, txn) ∷ [] }

saves : save_refactor_transaction txn world.repo ≡ return saved_repo
unfolding save_refactor_transaction new_transaction
saves = refl

empty-IsSingle : IsSingle []
unfolding lookup
empty-IsSingle = record {
  keyed = λ k t e. ground arith;
  single = λ task_id k j s t e f o p. ground arith;
}

saved-IsSingle : IsSingle saved_repo.refactor_transactions
saved-IsSingle = save-IsSingle txn world.repo saved_repo empty-IsSingle saves

abbrev closed_txn : RefactorTransaction
closed_txn = record txn {
  status = RefactorTransactionStatus.closed_success;
  closed_loop = some 6;
  close_reason = some "closed";
}

abbrev closed_repo : Repo ℕ
closed_repo = record saved_repo { refactor_transactions = (txn.transaction_id, closed_txn) ∷ [] }

updates :
    update_refactor_transaction_status txn.transaction_id RefactorTransactionStatus.closed_success 6
      "closed" saved_repo
    ≡ some (closed_txn, closed_repo)
unfolding update_refactor_transaction_status new_transaction
    hungerloop.RefactorTransactions.transaction_id_of hungerloop.CheckKey.print_index
updates = refl
