-- ===== src/Repository/Transactions.antt =====
-- The refactor transactions of repository/in_memory_repo.py.
use hungerloop.Prelude.{
  ℕ, String, Bool, Option, none, some, List, lookup, insert, values, filter, any, ◌&&◌, not, ◌==◌,
  string_eq, if◌then◌else◌, leb,
}
use hungerloop.Prelude.Sorting.{head?, sort_by}
use hungerloop.Models.Enums.{RefactorTransactionStatus, is_open}
use hungerloop.Models.Refactor.{RefactorTransaction}
use hungerloop.Repository.{Repo, Result, return, raise, value_error}

abbrev pub is_open_for : String → RefactorTransaction → Bool
is_open_for task_id txn = txn.task_id == task_id && is_open txn.status

module _ {R : Type 0} where
  unfoldable pub save_refactor_transaction : RefactorTransaction → Repo R → Result (Repo R)
  unfolding any insert
  save_refactor_transaction txn repo =
      if is_open txn.status
        && any
            (λ existing.
              is_open_for txn.task_id existing
              && not (existing.transaction_id == txn.transaction_id))
            (values repo.refactor_transactions)
      then raise value_error
      else return (record repo {
        refactor_transactions = insert txn.transaction_id txn repo.refactor_transactions;
      })

  -- The first open transaction of the task.
  unfoldable pub get_open_refactor_transaction : Repo R → String → Option RefactorTransaction
  unfolding filter
  get_open_refactor_transaction repo task_id =
      head? (filter (is_open_for task_id) (values repo.refactor_transactions))

  unfoldable pub list_refactor_transactions : Repo R → String → List RefactorTransaction
  unfolding filter sort_by
  list_refactor_transactions repo task_id =
      sort_by (λ s t. leb s.opening_loop t.opening_loop)
        (filter (λ txn. txn.task_id == task_id) (values repo.refactor_transactions))

  unfoldable pub update_refactor_transaction_status :
      String
      → RefactorTransactionStatus
      → ℕ
      → String
      → Repo R
      → Option (RefactorTransaction × Repo R)
  unfolding lookup insert
  update_refactor_transaction_status transaction_id status closed_loop close_reason repo =
      elim (lookup transaction_id repo.refactor_transactions) [
        | none ↦ none
        | some txn ↦
            let updated : RefactorTransaction = record txn {
              status = status;
              closed_loop = some closed_loop;
              close_reason = some close_reason;
            } in
            some (
              updated,
              record repo {
                refactor_transactions = insert transaction_id updated repo.refactor_transactions;
              },
            )
      ]
