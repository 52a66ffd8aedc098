-- ===== src/RefactorTransactions/Rollback.antt =====
-- What rolling a refactor transaction back restores (services/refactor_transaction_manager.py).
use hungerloop.Prelude.{
  ℕ, String, true, false, none, some, List, lookup, remove, lookup-insert, lookup-remove, ◌≡◌, refl,
  arith, string_eq, nat_eq, pair_eq, eq_iff, Floats, Option-cases, inl, inr, ◌∙◌, sym, ap, subst,
}
use hungerloop.Models.Enums.{RefactorTransactionStatus}
use hungerloop.Models.Refactor.{RefactorTransaction, is_valid_transaction}
use hungerloop.Repository.{Repo, return, append_event, get_best_state, save_best_state}
use hungerloop.Repository.Transactions.{update_refactor_transaction_status}
use hungerloop.Workspace.{Files, Workspace, write_best_manifest}
use hungerloop.CommitManager.{World}
use hungerloop.RefactorTransactions.{
  RefactorTxnResult, CopyFaults, open_transaction, snapshot_of_best,
}
use hungerloop.RefactorTransactions.Settlement.{
  restore_best_from_snapshot, persist_rollback, rollback,
}
use hungerloop.RefactorTransactions.Opening.{Opened, open_transaction_lem}
use hungerloop.RefactorTransactions.Closing.{open-is_open}

restore-returns :
    (faults : CopyFaults) (txn : RefactorTransaction) (w w' : Workspace)
    → restore_best_from_snapshot faults txn w ≡ (false, w')
    → (lookup txn.task_id w'.best ≡ lookup (txn.task_id, txn.snapshot_path) w.snapshots)
      × (w'.snapshots ≡ w.snapshots)
unfolding restore_best_from_snapshot write_best_manifest
restore-returns faults txn w w' h =
    elim (Option-cases (lookup (txn.task_id, txn.snapshot_path) w.snapshots)) [
      | inl n ↦ absurd (ground arith)
      | inr (files, e) ↦ (
        ground (
          arith,
          lookup-insert txn.task_id txn.task_id files w.best,
          eq_iff txn.task_id txn.task_id,
        ),
        ground arith,
      )
    ]

-- The repository after a completed rollback
abbrev pub RolledBack : {R : Type 0} → RefactorTransaction → Repo R → Type 0
RolledBack txn repo =
    (get_best_state repo txn.baseline_best_state.task_id ≡ some txn.baseline_best_state)
    × ((row : RefactorTransaction) × (lookup txn.transaction_id repo.refactor_transactions
          ≡ some row)
        × (row.status ≡ RefactorTransactionStatus.rolled_back))

module _ {R : Type 0} where
  persist_rollback-returns :
      (txn : RefactorTransaction) (loop_id : ℕ) (reason : String) (w w' : World R)
      (result : RefactorTxnResult)
      → persist_rollback txn loop_id reason w ≡ (result, w')
      → result.status ≡ RefactorTransactionStatus.rolled_back
      → RolledBack txn w'.repo
        × (w'.workspace.best ≡ w.workspace.best)
        × (w'.workspace.snapshots ≡ remove (txn.task_id, txn.snapshot_path) w.workspace.snapshots)
  unfolding persist_rollback update_refactor_transaction_status append_event save_best_state
      get_best_state
  persist_rollback-returns txn loop_id reason w w' result h s =
      elim (Option-cases (lookup txn.transaction_id w.repo.refactor_transactions)) [
        | inl n ↦ absurd (ground arith)
        | inr (row, e) ↦
            let updated : RefactorTransaction = record row {
              status = RefactorTransactionStatus.rolled_back;
              closed_loop = some loop_id;
              close_reason = some reason;
            } in
            let t = txn.baseline_best_state.task_id in
            let id = txn.transaction_id in
            (
              (
                ground (
                  arith,
                  lookup-insert t t txn.baseline_best_state w.repo.best_states,
                  eq_iff t t,
                ),
                (
                  updated,
                  ground (
                    arith,
                    lookup-insert id id updated w.repo.refactor_transactions,
                    eq_iff id id,
                  ),
                  refl,
                ),
              ),
              ground arith,
              ground arith,
            )
      ]

  rollback-returns :
      (faults : CopyFaults) (txn : RefactorTransaction) (loop_id : ℕ) (reason : String)
      (w w' : World R) (result : RefactorTxnResult)
      → rollback faults txn loop_id reason w ≡ (result, w')
      → result.status ≡ RefactorTransactionStatus.rolled_back
      → (v : Workspace) × (restore_best_from_snapshot faults txn w.workspace ≡ (false, v))
        × (persist_rollback txn loop_id reason (record w { workspace = v }) ≡ (result, w'))
  unfolding rollback
  rollback-returns faults txn loop_id reason w w' result h s =
      ((restore_best_from_snapshot faults txn w.workspace).1, ground arith, ground arith)

  -- A rollback that is completed restores the best state and the files of the snapshot, closes the
  -- stored transaction as rolled back, and removes the snapshot.
  pub rollback_restores :
      (faults : CopyFaults) (txn : RefactorTransaction) (loop_id : ℕ) (reason : String)
      (w w' : World R) (result : RefactorTxnResult)
      → rollback faults txn loop_id reason w ≡ (result, w')
      → result.status ≡ RefactorTransactionStatus.rolled_back
      → RolledBack txn w'.repo
        × (lookup txn.task_id w'.workspace.best
            ≡ lookup (txn.task_id, txn.snapshot_path) w.workspace.snapshots)
        × (lookup (txn.task_id, txn.snapshot_path) w'.workspace.snapshots ≡ none)
  rollback_restores faults txn loop_id reason w w' result h s =
      let (v, r, p) = rollback-returns faults txn loop_id reason w w' result h s in
      let (b, n) = restore-returns faults txn w.workspace v r in
      let (done, files, gone) =
        persist_rollback-returns txn loop_id reason (record w { workspace = v }) w' result p s in
      (
        done,
        ap (lookup txn.task_id) files ∙ b,
        ground (
          arith,
          gone,
          lookup-remove (txn.task_id, txn.snapshot_path) (txn.task_id, txn.snapshot_path)
              v.snapshots,
          eq_iff txn.task_id txn.task_id,
          eq_iff txn.snapshot_path txn.snapshot_path,
        ),
      )

baseline-task :
    (txn : RefactorTransaction)
    → is_valid_transaction txn ≡ true
    → txn.baseline_best_state.task_id ≡ txn.task_id
unfolding is_valid_transaction
baseline-task txn h = ground (arith, eq_iff txn.baseline_best_state.task_id txn.task_id)

module _ {R : Type 0} ⦃fl : Floats R⦄ where
  -- Whatever happens between the opening of a transaction and a completed rollback of it, as long as
  -- its snapshot stays, the best state and the best files are again what they were at the opening;
  -- the files without those below a `.txn_` directory.
  pub open_rollback_roundtrip :
      (faults faults' : CopyFaults) (task_id : String) (loop_id closing_loop : ℕ)
      (declared : List String) (token reason : String) (w w1 w2 w3 : World R)
      (opening closing : RefactorTxnResult) (txn : RefactorTransaction) (files : Files)
      → open_transaction faults task_id loop_id declared token w ≡ (return opening, w1)
      → opening.success ≡ true
      → opening.transaction ≡ some txn
      → lookup task_id w.workspace.best ≡ some files
      → lookup (task_id, txn.snapshot_path) w2.workspace.snapshots
        ≡ lookup (task_id, txn.snapshot_path) w1.workspace.snapshots
      → rollback faults' txn closing_loop reason w2 ≡ (closing, w3)
      → closing.status ≡ RefactorTransactionStatus.rolled_back
      → (get_best_state w3.repo task_id ≡ get_best_state w.repo task_id)
        × (lookup task_id w3.workspace.best ≡ some (snapshot_of_best files))
  open_rollback_roundtrip faults faults' task_id loop_id closing_loop declared token reason w w1 w2
        w3 opening closing txn files h s t f same r c =
      let (txn', t', o) =
        open_transaction_lem faults task_id loop_id declared token w w1 opening h s in
      let (done, b, _) = rollback_restores faults' txn closing_loop reason w2 w3 closing r c in
      let e : txn' ≡ txn = ground (arith, t, t') in
      let o' = subst (Opened task_id loop_id declared w w1) e o in
      let (_, mine) = open-is_open w1.repo task_id txn o'.open_now in
      let theirs = baseline-task txn o'.valid in
      (
        ap (get_best_state w3.repo) (sym (theirs ∙ mine)) ∙ done.0 ∙ sym o'.baseline,
        ap (λ task. lookup task w3.workspace.best) (sym mine)
            ∙ b
            ∙ ap (λ task. lookup (task, txn.snapshot_path) w2.workspace.snapshots) mine
            ∙ same
            ∙ o'.snapshot files f,
      )
