-- ===== src/RefactorTransactions/Single.antt =====
-- At most one refactor transaction of a task is open in the repository
-- (repository/in_memory_repo.py).
use hungerloop.Prelude.{
  ℕ, String, Bool, true, false, some, [], ◌∷◌, Dict, lookup, insert, lookup-insert, values, any,
  not, ◌&&◌, ◌==◌, ◌≡◌, arith, string_eq, eq_iff, Option-cases, inl, inr, subst,
}
use hungerloop.Models.Enums.{RefactorTransactionStatus, is_open}
use hungerloop.Models.Refactor.{RefactorTransaction}
use hungerloop.Repository.{Repo, return}
use hungerloop.Repository.Transactions.{
  is_open_for, save_refactor_transaction, update_refactor_transaction_status,
}

-- Each transaction stands under its id, and no two open ones have one task.
pub record IsSingle (d : Dict String RefactorTransaction) : Type 0 where
  pub keyed : (k : String) (t : RefactorTransaction) → lookup k d ≡ some t → t.transaction_id ≡ k
  pub single :
      (task_id k j : String) (s t : RefactorTransaction)
      → lookup k d ≡ some s
      → lookup j d ≡ some t
      → is_open_for task_id s ≡ true
      → is_open_for task_id t ≡ true
      → k ≡ j

any-values :
    (p : RefactorTransaction → Bool) (d : Dict String RefactorTransaction) (k : String)
    (t : RefactorTransaction)
    → any p (values d) ≡ false
    → lookup k d ≡ some t
    → p t ≡ false
unfolding any lookup
any-values p [] k t h e = absurd (ground arith)
any-values p ((j, v) ∷ d) k t h e = ground (arith, any-values p d k t)

-- An insertion under its id of a transaction that is closed, or is the only open one of its task.
insert-IsSingle :
    (txn : RefactorTransaction) (d : Dict String RefactorTransaction)
    → IsSingle d
    → ((k : String) (t : RefactorTransaction)
        → lookup k d ≡ some t
        → is_open txn.status ≡ true
        → is_open_for txn.task_id t ≡ true
        → k ≡ txn.transaction_id)
    → IsSingle (insert txn.transaction_id txn d)
insert-IsSingle txn d h only = record {
  keyed = λ k t e.
      ground
        (arith, lookup-insert txn.transaction_id k txn d, h.keyed k t, eq_iff txn.transaction_id k);
  single = λ task_id k j s t e f o p. ground (
    arith,
    lookup-insert txn.transaction_id k txn d,
    lookup-insert txn.transaction_id j txn d,
    h.single task_id k j s t,
    only k s,
    only j t,
    eq_iff txn.transaction_id k,
    eq_iff txn.transaction_id j,
    eq_iff txn.task_id task_id,
    eq_iff s.task_id task_id,
    eq_iff t.task_id task_id,
  );
}

module _ {R : Type 0} where
  -- Saving a transaction keeps at most one of a task open.
  pub save-IsSingle :
      (txn : RefactorTransaction) (repo repo' : Repo R)
      → IsSingle repo.refactor_transactions
      → save_refactor_transaction txn repo ≡ return repo'
      → IsSingle repo'.refactor_transactions
  unfolding save_refactor_transaction
  save-IsSingle txn repo repo' h e =
      let d = repo.refactor_transactions in
      let other = λ (existing : RefactorTransaction).
        is_open_for txn.task_id existing && not (existing.transaction_id == txn.transaction_id) in
      let saved : insert txn.transaction_id txn d ≡ repo'.refactor_transactions = ground arith in
      subst IsSingle saved (
        insert-IsSingle txn d h (λ k t f o p. ground (
          arith,
          any-values other d k t,
          h.keyed k t f,
          eq_iff t.transaction_id txn.transaction_id,
        )))

  -- So does closing one or rolling it back.
  pub update-IsSingle :
      (transaction_id reason : String) (status : RefactorTransactionStatus) (loop_id : ℕ)
      (repo repo' : Repo R) (updated : RefactorTransaction)
      → IsSingle repo.refactor_transactions
      → is_open status ≡ false
      → update_refactor_transaction_status transaction_id status loop_id reason repo
        ≡ some (updated, repo')
      → IsSingle repo'.refactor_transactions
  unfolding update_refactor_transaction_status
  update-IsSingle transaction_id reason status loop_id repo repo' updated h c e =
      elim (Option-cases (lookup transaction_id repo.refactor_transactions)) [
        | inl n ↦ absurd (ground arith)
        | inr (txn, f) ↦
            let closed : RefactorTransaction = record txn {
              status = status;
              closed_loop = some loop_id;
              close_reason = some reason;
            } in
            let id = h.keyed transaction_id txn f in
            let saved : insert txn.transaction_id closed repo.refactor_transactions
                ≡ repo'.refactor_transactions =
              ground (arith, id) in
            subst IsSingle saved (
              insert-IsSingle closed repo.refactor_transactions h
                (λ k t g o p. absurd (ground arith)))
      ]
