-- ===== src/RefactorTransactions/Closing.antt =====
-- What closing a refactor transaction promises (services/refactor_transaction_manager.py).
use hungerloop.Prelude.{
  ℕ, String, Bool, true, false, some, List, [], ◌∷◌, lookup, contains, subset_iff, subset-contains,
  subset-missing, ◌≡◌, ◌↔◌, arith, string_eq, nat_eq, pair_eq, eq_iff, Floats, ◌&&◌, filter, values,
}
use hungerloop.Prelude.Sorting.{head?}
use hungerloop.Models.Enums.{is_open}
use hungerloop.Models.Validation.{BestState}
use hungerloop.Models.Refactor.{RefactorTransaction}
use hungerloop.Repository.{Repo, get_hunger_policy, get_best_state}
use hungerloop.Repository.Transactions.{
  get_open_refactor_transaction, is_open_for, update_refactor_transaction_status,
}
use hungerloop.CommitManager.{World}
use hungerloop.RefactorTransactions.{CopyFaults}
use hungerloop.RefactorTransactions.Settlement.{
  persist_rollback, rollback, close_success, close_open, close, declared_recovered,
  is_strict_superset,
}

-- The condition on which a transaction closes with success.
abbrev pub Recovered : RefactorTransaction → BestState → Type 0
Recovered txn best =
    ((key : String)
      → contains txn.declared_regression_keys key ≡ true
      → contains best.accepted_check_keys key ≡ true)
    × ((key : String)
        → contains txn.baseline_accepted_check_keys key ≡ true
        → contains best.accepted_check_keys key ≡ true)
    × ((key : String) × (contains best.accepted_check_keys key ≡ true)
        × (contains txn.baseline_accepted_check_keys key ≡ false))

Recovered-iff :
    (txn : RefactorTransaction) (best : BestState)
    → ((declared_recovered txn best && is_strict_superset txn best) ≡ true) ↔ Recovered txn best
Recovered-iff txn best =
    let now = best.accepted_check_keys in
    let baseline = txn.baseline_accepted_check_keys in
    let declared = txn.declared_regression_keys in
    (
      λ h. (
        λ key m. subset-contains declared now key (ground arith) m,
        λ key m. subset-contains baseline now key (ground arith) m,
        subset-missing now baseline (ground arith),
      ),
      λ (d, b, (key, m, n)). ground (
        arith,
        (subset_iff declared now).1 d,
        (subset_iff baseline now).1 b,
        subset-contains now baseline key,
      ),
    )

module _ {R : Type 0} where
  rollback-fails :
      (faults : CopyFaults) (txn : RefactorTransaction) (loop_id : ℕ) (reason : String)
      (w : World R)
      → (rollback faults txn loop_id reason w).0.success ≡ false
  unfolding rollback persist_rollback update_refactor_transaction_status
  rollback-fails faults txn loop_id reason w = ground arith

head-filter :
    (p : RefactorTransaction → Bool) (xs : List RefactorTransaction) (txn : RefactorTransaction)
    → head? (filter p xs) ≡ some txn
    → p txn ≡ true
unfolding filter
head-filter p [] txn h = absurd (ground arith)
head-filter p (x ∷ xs) txn h = ground (arith, head-filter p xs txn)

module _ {R : Type 0} where
  pub open-is_open :
      (repo : Repo R) (task_id : String) (txn : RefactorTransaction)
      → get_open_refactor_transaction repo task_id ≡ some txn
      → (is_open txn.status ≡ true) × (txn.task_id ≡ task_id)
  unfolding get_open_refactor_transaction
  open-is_open repo task_id txn h =
      let p = head-filter (is_open_for task_id) (values repo.refactor_transactions) txn h in
      (ground (arith, p), ground (arith, p, eq_iff txn.task_id task_id))

  close_open-success :
      (faults : CopyFaults) (txn row : RefactorTransaction) (loop_id : ℕ) (best : BestState)
      (w : World R)
      → lookup txn.transaction_id w.repo.refactor_transactions ≡ some row
      → (close_open faults txn loop_id (some best) w).0.success
        ≡ (declared_recovered txn best && is_strict_superset txn best)
  unfolding close_open close_success update_refactor_transaction_status
  close_open-success faults txn row loop_id best w h = ground (
    arith,
    rollback-fails faults txn loop_id "declared_keys_not_recovered" w,
    rollback-fails faults txn loop_id "not_strict_superset" w,
  )

module _ {R : Type 0} ⦃fl : Floats R⦄ where
  close-close_open :
      (faults : CopyFaults) (task_id : String) (loop_id : ℕ) (w : World R)
      (txn : RefactorTransaction)
      → (get_hunger_policy w.repo task_id).refactor_transactions_enabled ≡ true
      → get_open_refactor_transaction w.repo task_id ≡ some txn
      → close faults task_id loop_id w
        ≡ close_open faults txn loop_id (get_best_state w.repo task_id) w
  unfolding close
  close-close_open faults task_id loop_id w txn p g =
      ground (arith, open-is_open w.repo task_id txn)

  -- An open transaction whose row is stored closes with success exactly when the best state accepts
  -- every declared key and every key of the baseline, and at least one key more.
  pub close_success_iff :
      (faults : CopyFaults) (task_id : String) (loop_id : ℕ) (w : World R)
      (txn row : RefactorTransaction) (best : BestState)
      → (get_hunger_policy w.repo task_id).refactor_transactions_enabled ≡ true
      → get_open_refactor_transaction w.repo task_id ≡ some txn
      → lookup txn.transaction_id w.repo.refactor_transactions ≡ some row
      → get_best_state w.repo task_id ≡ some best
      → ((close faults task_id loop_id w).0.success ≡ true) ↔ Recovered txn best
  close_success_iff faults task_id loop_id w txn row best p g h b =
      let c = close-close_open faults task_id loop_id w txn p g in
      let s = close_open-success faults txn row loop_id best w h in
      (
        λ e. (Recovered-iff txn best).0 (ground (arith, c, s, b)),
        λ r. ground (arith, c, s, b, (Recovered-iff txn best).1 r),
      )
