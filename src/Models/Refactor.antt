-- ===== src/Models/Refactor.antt =====
-- models/refactor.py: the bounded refactor transaction and the validators of its fields.
use hungerloop.Prelude.{
  ℕ, String, Bool, Option, List, length, contains, nodup, is_empty, ltb, not, ◌&&◌, ◌==◌, string_eq,
  nat_eq,
}
use hungerloop.Models.Enums.{RefactorTransactionStatus}
use hungerloop.Models.Validation.{BestState}

pub record RefactorTransaction : Type 0 where
  pub transaction_id : String
  pub task_id : String
  pub opening_loop : ℕ
  pub deadline_loop : ℕ
  pub declared_regression_keys : List String
  pub baseline_accepted_check_keys : List String
  pub baseline_accepted_check_count : ℕ
  pub baseline_best_state : BestState
  pub snapshot_path : String
  pub status : RefactorTransactionStatus
  pub closed_loop : Option ℕ
  pub close_reason : Option String

-- The validators of the lists and numbers: what pydantic accepts. The rejection of unsafe texts
-- (a blank id, an unsafe snapshot path) is not modelled.
unfoldable pub is_valid_transaction : RefactorTransaction → Bool
unfolding nodup contains
is_valid_transaction txn =
    not (is_empty txn.declared_regression_keys)
    && nodup txn.declared_regression_keys
    && not (is_empty txn.baseline_accepted_check_keys)
    && ltb txn.opening_loop txn.deadline_loop
    && txn.baseline_accepted_check_count == length txn.baseline_accepted_check_keys
    && txn.baseline_best_state.task_id == txn.task_id
