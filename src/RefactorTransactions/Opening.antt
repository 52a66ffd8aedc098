-- ===== src/RefactorTransactions/Opening.antt =====
-- What opening a refactor transaction promises (services/refactor_transaction_manager.py).
use hungerloop.Prelude.{
  ℕ, ◌+◌, ◌≤◌, String, Bool, true, false, Option, none, some, List, [], ◌∷◌, Dict, lookup, insert,
  lookup-insert, values, filter, contains, dedupe_from, nodup, length, subset, subset-contains, ◌≡◌,
  refl, arith, string_eq, nat_eq, pair_eq, eq_iff, Floats, Bool-cases, Option-cases, inl, inr, Eq,
}
use hungerloop.Prelude.Sorting.{head?}
use hungerloop.Models.Enums.{is_open}
use hungerloop.Models.Validation.{BestState}
use hungerloop.Models.Refactor.{RefactorTransaction, is_valid_transaction}
use hungerloop.Repository.{return, append_event, get_hunger_policy, get_best_state}
use hungerloop.Repository.Transactions.{
  save_refactor_transaction, get_open_refactor_transaction, is_open_for,
}
use hungerloop.Workspace.{Files, Workspace, ensure_task_workspace}
use hungerloop.CommitManager.{World}
use hungerloop.RefactorTransactions.{
  RefactorTxnResult, CopyFaults, open_transaction, open_with_best, check_best, persist_open,
  rejected_open, new_transaction, snapshot_of_best,
}

module _ {ℓ} {A : Type ℓ} ⦃e : Eq A⦄ where
  length-dedupe_from-le : (seen xs : List A) → length (dedupe_from seen xs) ≤ length xs
  unfolding dedupe_from
  length-dedupe_from-le seen [] = omega arith
  length-dedupe_from-le seen (x ∷ xs) =
      ground (arith, length-dedupe_from-le seen xs, length-dedupe_from-le (x ∷ seen) xs)

  -- A list as long as its set has no duplicates, and nothing that was seen.
  nodup_of_length :
      (seen xs : List A)
      → length (dedupe_from seen xs) ≡ length xs
      → (nodup xs ≡ true) × ((a : A) → contains seen a ≡ true → contains xs a ≡ false)
  unfolding dedupe_from nodup contains
  nodup_of_length seen [] h = (refl, λ a m. refl)
  nodup_of_length seen (x ∷ xs) h = elim (Bool-cases (contains seen x)) [
    | inl s ↦ absurd (ground (arith, length-dedupe_from-le seen xs))
    | inr n ↦
        let (d, f) = nodup_of_length (x ∷ seen) xs (ground arith) in
        (ground (arith, d, f x, e.eqb_iff x x), λ a m. ground (arith, f a, e.eqb_iff x a))
  ]

-- The first open transaction after an insertion, where none was open before.
head-insert :
    (p : RefactorTransaction → Bool) (k : String) (txn : RefactorTransaction)
    (d : Dict String RefactorTransaction)
    → head? (filter p (values d)) ≡ none
    → p txn ≡ true
    → head? (filter p (values (insert k txn d))) ≡ some txn
unfolding filter insert
head-insert p k txn [] h t = ground arith
head-insert p k txn ((j, v) ∷ d) h t = ground (arith, head-insert p k txn d)

-- What an open that succeeded found and left.
pub record Opened {R : Type 0} ⦃fl : Floats R⦄ (task_id : String) (loop_id : ℕ)
    (declared : List String) (w w' : World R) (txn : RefactorTransaction) : Type 0 where
  pub enabled : (get_hunger_policy w.repo task_id).refactor_transactions_enabled ≡ true
  pub none_open : get_open_refactor_transaction w.repo task_id ≡ none
  pub open_now : get_open_refactor_transaction w'.repo task_id ≡ some txn
  pub valid : is_valid_transaction txn ≡ true
  pub declares : txn.declared_regression_keys ≡ declared
  pub deadline :
      txn.deadline_loop ≡ loop_id + (get_hunger_policy w.repo task_id).refactor_deadline_loops
  pub bounded : length declared ≤ (get_hunger_policy w.repo task_id).max_declared_regressions
  pub baseline : get_best_state w.repo task_id ≡ some txn.baseline_best_state
  pub accepted :
      (key : String)
      → contains declared key ≡ true
      → contains txn.baseline_best_state.accepted_check_keys key ≡ true
  pub snapshot :
      (files : Files)
      → lookup task_id w.workspace.best ≡ some files
      → lookup (task_id, txn.snapshot_path) w'.workspace.snapshots ≡ some (snapshot_of_best files)
  pub best_states : w'.repo.best_states ≡ w.repo.best_states

module _ {R : Type 0} where
  -- What saving the transaction does, when it succeeds.
  persist_open-success :
      (txn : RefactorTransaction) (loop_id : ℕ) (w w' : World R) (result : RefactorTxnResult)
      → persist_open txn loop_id w ≡ (return result, w')
      → result.success ≡ true
      → is_open txn.status ≡ true
      → get_open_refactor_transaction w.repo txn.task_id ≡ none
      → (result.transaction ≡ some txn)
        × (is_valid_transaction txn ≡ true)
        × (get_open_refactor_transaction w'.repo txn.task_id ≡ some txn)
        × (w'.repo.best_states ≡ w.repo.best_states)
        × (w'.workspace ≡ w.workspace)
  unfolding persist_open rejected_open save_refactor_transaction get_open_refactor_transaction
      append_event
  persist_open-success txn loop_id w w' result h s o n = (
    ground arith,
    ground arith,
    ground (
      arith,
      head-insert (is_open_for txn.task_id) txn.transaction_id txn w.repo.refactor_transactions,
      eq_iff txn.task_id txn.task_id,
    ),
    ground arith,
    ground arith,
  )

  -- The same from the copy of the snapshot on.
  open_with_best-success :
      (faults : CopyFaults) (task_id : String) (loop_id deadline_loops : ℕ) (declared : List String)
      (token : String) (best : BestState) (w w' : World R) (result : RefactorTxnResult)
      → let txn = new_transaction task_id loop_id deadline_loops declared best token in
        open_with_best faults task_id loop_id deadline_loops declared token best w
          ≡ (return result, w')
        → result.success ≡ true
        → get_open_refactor_transaction w.repo task_id ≡ none
        → (result.transaction ≡ some txn)
          × (is_valid_transaction txn ≡ true)
          × (get_open_refactor_transaction w'.repo task_id ≡ some txn)
          × (w'.repo.best_states ≡ w.repo.best_states)
          × ((files : Files)
              → lookup task_id w.workspace.best ≡ some files
              → lookup (task_id, txn.snapshot_path) w'.workspace.snapshots
                ≡ some (snapshot_of_best files))
  unfolding open_with_best rejected_open new_transaction
  open_with_best-success faults task_id loop_id deadline_loops declared token best w w' result h s
        n =
      elim (Option-cases (lookup task_id w.workspace.best)) [
        | inl e ↦ absurd (ground arith)
        | inr (files, e) ↦
            let txn = new_transaction task_id loop_id deadline_loops declared best token in
            let before : World R = record w {
              workspace = record w.workspace {
                snapshots =
                    insert (task_id, txn.snapshot_path) (snapshot_of_best files)
                      w.workspace.snapshots;
              };
            } in
            let (t, v, o, b, k) =
              persist_open-success txn loop_id before w' result (ground arith) s refl n in
            (
              t,
              v,
              o,
              b,
              λ fs f. ground (
                arith,
                k,
                lookup-insert (task_id, txn.snapshot_path) (task_id, txn.snapshot_path)
                    (snapshot_of_best files) w.workspace.snapshots,
                eq_iff task_id task_id,
                eq_iff txn.snapshot_path txn.snapshot_path,
              ),
            )
      ]

  check_best-success :
      (faults : CopyFaults) (task_id : String) (loop_id deadline_loops : ℕ) (declared : List String)
      (token : String) (found : Option BestState) (w w' : World R) (result : RefactorTxnResult)
      → check_best faults task_id loop_id deadline_loops declared token found w
        ≡ (return result, w')
      → result.success ≡ true
      → (best : BestState) × (found ≡ some best)
        × (subset declared best.accepted_check_keys ≡ true)
        × (open_with_best faults task_id loop_id deadline_loops declared token best
              (record w { workspace = ensure_task_workspace task_id w.workspace })
            ≡ (return result, w'))
  unfolding check_best rejected_open
  check_best-success faults task_id loop_id deadline_loops declared token none w w' result h s =
      absurd (ground arith)
  check_best-success faults task_id loop_id deadline_loops declared token (some best) w w' result h
        s =
      (best, refl, ground arith, ground arith)

best-ensure_task_workspace :
    (task_id : String) (w : Workspace) (files : Files)
    → lookup task_id w.best ≡ some files
    → lookup task_id (ensure_task_workspace task_id w).best ≡ some files
unfolding ensure_task_workspace
best-ensure_task_workspace task_id w files h = ground arith

module _ {R : Type 0} ⦃fl : Floats R⦄ where
  open_transaction-success :
      (faults : CopyFaults) (task_id : String) (loop_id : ℕ) (declared : List String)
      (token : String) (w w' : World R) (result : RefactorTxnResult)
      → open_transaction faults task_id loop_id declared token w ≡ (return result, w')
      → result.success ≡ true
      → let policy = get_hunger_policy w.repo task_id in
        (policy.refactor_transactions_enabled ≡ true)
        × (get_open_refactor_transaction w.repo task_id ≡ none)
        × (length declared ≤ policy.max_declared_regressions)
        × (check_best faults task_id loop_id policy.refactor_deadline_loops declared token
              (get_best_state w.repo task_id)
              w
            ≡ (return result, w'))
  unfolding open_transaction rejected_open
  open_transaction-success faults task_id loop_id declared token w w' result h s =
      (ground arith, ground arith, ground arith, ground arith)

  -- An open that succeeds had the policy, no open transaction, and declared keys that are distinct,
  -- within the limit and accepted by the best state; it leaves a valid transaction, with the
  -- deadline of the policy, that is the open one, and the snapshot of the best files, and keeps the
  -- best state.
  pub open_transaction_lem :
      (faults : CopyFaults) (task_id : String) (loop_id : ℕ) (declared : List String)
      (token : String) (w w' : World R) (result : RefactorTxnResult)
      → open_transaction faults task_id loop_id declared token w ≡ (return result, w')
      → result.success ≡ true
      → (txn : RefactorTransaction) × (result.transaction ≡ some txn)
        × Opened task_id loop_id declared w w' txn
  unfolding new_transaction
  open_transaction_lem faults task_id loop_id declared token w w' result h s =
      let policy = get_hunger_policy w.repo task_id in
      let (en, n, le, c) =
        open_transaction-success faults task_id loop_id declared token w w' result h s in
      let (best, e, m, k) =
        check_best-success faults task_id loop_id policy.refactor_deadline_loops declared token
          (get_best_state w.repo task_id) w w' result c s in
      let (t, v, o, b, snap) =
        open_with_best-success faults task_id loop_id policy.refactor_deadline_loops declared token
          best (record w { workspace = ensure_task_workspace task_id w.workspace }) w' result k s
          n in
      (
        _,
        t,
        record {
          enabled = en;
          none_open = n;
          open_now = o;
          valid = v;
          declares = refl;
          deadline = refl;
          bounded = le;
          baseline = e;
          accepted = λ key d. subset-contains declared best.accepted_check_keys key m d;
          snapshot = λ files f. snap files (best-ensure_task_workspace task_id w.workspace files f);
          best_states = b;
        },
      )
