-- ===== src/RefactorTransactions/Settling.antt =====
-- When services/refactor_transaction_manager.py settles a transaction, and what an open that fails
-- leaves.
use hungerloop.Prelude.{
  ℕ, lookup, String, true, false, Option, none, some, List, length, dedupe, is_empty, subset, ltb,
  not, ◌==◌, nat_eq, ◌≡◌, refl, arith, string_eq, Floats, Bool-cases, inl, inr, if_intro, subst, ap,
}
use hungerloop.Models.Validation.{BestState}
use hungerloop.Models.Enums.{is_open}
use hungerloop.Models.Refactor.{RefactorTransaction}
use hungerloop.Repository.{Repo, Result, return, append_event, get_hunger_policy, get_best_state}
use hungerloop.Repository.Transactions.{get_open_refactor_transaction}
use hungerloop.Workspace.{ensure_task_workspace}
use hungerloop.CommitManager.{World}
use hungerloop.RefactorTransactions.{
  RefactorTxnResult, CopyFaults, open_transaction, open_with_best, check_best, persist_open,
  rejected_open, is_some_txn,
}

-- What a transaction could change in the repository is as it was.
pub record Unopened {R : Type 0} (before repo : Repo R) : Type 0 where
  pub transactions : repo.refactor_transactions ≡ before.refactor_transactions
  pub best_states : repo.best_states ≡ before.best_states
  pub accepted_checks : repo.accepted_checks ≡ before.accepted_checks

-- A call that returned, without success, left the repository's transactions alone.
pub record KeepsUnopened {R : Type 0} (w : World R) (o : Result RefactorTxnResult × World R)
    : Type 0 where
  pub keeps :
      (result : RefactorTxnResult) (w' : World R)
      → o ≡ (return result, w')
      → result.success ≡ false
      → Unopened w.repo w'.repo

module _ {R : Type 0} where
  rejected_open-Unopened :
      (task_id : String) (loop_id : ℕ) (declared : List String) (reason : String) (w : World R)
      → Unopened w.repo (rejected_open task_id loop_id declared reason w).1.repo
  unfolding rejected_open append_event
  rejected_open-Unopened task_id loop_id declared reason w = record {
    transactions = refl;
    best_states = refl;
    accepted_checks = refl;
  }

  persist_open-Unopened :
      (txn : RefactorTransaction) (loop_id : ℕ) (w w' : World R) (result : RefactorTxnResult)
      → persist_open txn loop_id w ≡ (return result, w')
      → result.success ≡ false
      → Unopened w.repo w'.repo
  unfolding persist_open rejected_open append_event
  persist_open-Unopened txn loop_id w w' result h s = record {
    transactions = ground arith;
    best_states = ground arith;
    accepted_checks = ground arith;
  }

  open_with_best-Unopened :
      (faults : CopyFaults) (task_id : String) (loop_id deadline_loops : ℕ) (declared : List String)
      (token : String) (best : BestState) (w w' : World R) (result : RefactorTxnResult)
      → open_with_best faults task_id loop_id deadline_loops declared token best w
        ≡ (return result, w')
      → result.success ≡ false
      → Unopened w.repo w'.repo
  unfolding open_with_best persist_open rejected_open append_event
  open_with_best-Unopened faults task_id loop_id deadline_loops declared token best w w' result h
        s =
      record {
        transactions = ground arith;
        best_states = ground arith;
        accepted_checks = ground arith;
      }

  check_best-Unopened :
      (faults : CopyFaults) (task_id : String) (loop_id deadline_loops : ℕ) (declared : List String)
      (token : String) (found : Option BestState) (w w' : World R) (result : RefactorTxnResult)
      → check_best faults task_id loop_id deadline_loops declared token found w
        ≡ (return result, w')
      → result.success ≡ false
      → Unopened w.repo w'.repo
  unfolding check_best rejected_open append_event
  check_best-Unopened faults task_id loop_id deadline_loops declared token none w w' result h s =
      record {
        transactions = ground arith;
        best_states = ground arith;
        accepted_checks = ground arith;
      }
  check_best-Unopened faults task_id loop_id deadline_loops declared token (some best) w w' result h
        s =
      elim (Bool-cases (subset declared best.accepted_check_keys)) [
        | inl e ↦
            open_with_best-Unopened faults task_id loop_id deadline_loops declared token best
              (record w { workspace = ensure_task_workspace task_id w.workspace }) w' result
              (ground arith) s
        | inr e ↦ record {
          transactions = ground arith;
          best_states = ground arith;
          accepted_checks = ground arith;
        }
      ]

module _ {R : Type 0} ⦃fl : Floats R⦄ where
  rejected_open-KeepsUnopened :
      (task_id : String) (loop_id : ℕ) (declared : List String) (reason : String) (w : World R)
      → KeepsUnopened w (rejected_open task_id loop_id declared reason w)
  rejected_open-KeepsUnopened task_id loop_id declared reason w = record {
    keeps = λ result w' h s.
        subst (λ (v : World R). Unopened w.repo v.repo) (ap (λ o. o.1) h)
          (rejected_open-Unopened task_id loop_id declared reason w);
  }

  check_best-KeepsUnopened :
      (faults : CopyFaults) (task_id : String) (loop_id deadline_loops : ℕ) (declared : List String)
      (token : String) (w : World R)
      → KeepsUnopened w (
          check_best faults task_id loop_id deadline_loops declared token
            (get_best_state w.repo task_id)
            w)
  check_best-KeepsUnopened faults task_id loop_id deadline_loops declared token w = record {
    keeps = λ result w' h s.
        check_best-Unopened faults task_id loop_id deadline_loops declared token
          (get_best_state w.repo task_id) w w' result h s;
  }

  open_transaction-KeepsUnopened :
      (faults : CopyFaults) (task_id : String) (loop_id : ℕ) (declared : List String)
      (token : String) (w : World R)
      → KeepsUnopened w (open_transaction faults task_id loop_id declared token w)
  unfolding open_transaction
  open_transaction-KeepsUnopened faults task_id loop_id declared token w =
      let policy = get_hunger_policy w.repo task_id in
      let P = KeepsUnopened w in
      let rejected =
        λ (reason : String). rejected_open-KeepsUnopened task_id loop_id declared reason w in
      if_intro P (not policy.refactor_transactions_enabled)
        (λ _. rejected "refactor_transactions_disabled")
        (λ _.
          if_intro P (policy.refactor_deadline_loops == 0)
            (λ _. rejected "non_positive_deadline_window")
            (λ _.
              if_intro P (is_some_txn (get_open_refactor_transaction w.repo task_id))
                (λ _. rejected "transaction_already_open")
                (λ _.
                  if_intro P (is_empty declared) (λ _. rejected "empty_declared_keys")
                    (λ _.
                      if_intro P (not (length declared == length (dedupe declared)))
                        (λ _. rejected "duplicate_declared_keys")
                        (λ _.
                          if_intro P (ltb policy.max_declared_regressions (length declared))
                            (λ _. rejected "declared_keys_exceed_limit")
                            (λ _.
                              check_best-KeepsUnopened faults task_id loop_id
                                policy.refactor_deadline_loops declared token w))))))

  -- An open that does not succeed leaves every transaction, best state and accepted check as it was.
  pub failed_open :
      (faults : CopyFaults) (task_id : String) (loop_id : ℕ) (declared : List String)
      (token : String) (w w' : World R) (result : RefactorTxnResult)
      → open_transaction faults task_id loop_id declared token w ≡ (return result, w')
      → result.success ≡ false
      → Unopened w.repo w'.repo
  failed_open faults task_id loop_id declared token w w' result h s =
      (open_transaction-KeepsUnopened faults task_id loop_id declared token w).keeps result w' h s

  -- The stored row of a transaction has the status of the result, which closed it, or is as it was.
  pub record IsDecided (txn : RefactorTransaction) (before : Repo R)
      (outcome : RefactorTxnResult × World R) : Type 0 where
    pub decided :
        is_open outcome.0.status ≡ false
        → (row : RefactorTransaction) × (lookup txn.transaction_id
              outcome.1.repo.refactor_transactions
            ≡ some row)
          × (row.status ≡ outcome.0.status)
    pub undecided :
        is_open outcome.0.status ≡ true
        → outcome.1.repo.refactor_transactions ≡ before.refactor_transactions
