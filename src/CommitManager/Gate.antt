-- ===== src/CommitManager/Gate.antt =====
-- The commit gate of services/commit_manager.py against the rule (I-3) that it implements.
use hungerloop.Prelude.{
  String, true, false, Option, none, some, List, [], ◌∷◌, contains, subset_iff, subset-contains,
  contains-is_empty, is_empty_of_contains, is_empty, ◌≡◌, ◌↔◌, refl, arith, string_eq, Floats,
  Bool-cases, inl, inr, eq_iff, is_empty-contains,
}
use hungerloop.Models.Enums.{is_passing, is_open}
use hungerloop.Models.Validation.{ValidationReport, CandidateState}
use hungerloop.Models.Refactor.{RefactorTransaction}
use hungerloop.Repository.{Repo, get_hunger_policy}
use hungerloop.CommitManager.Decision.{
  can_commit, reject_reason, has_blocking_regression, is_active_matching_transaction,
}

no_key : (keys : List String) → is_empty keys ≡ true → keys ≡ []
no_key [] h = refl
no_key (key ∷ keys) h = absurd (cc)

module _ {R : Type 0} ⦃fl : Floats R⦄ where
  -- An open transaction of the candidate's task, of a task whose policy allows transactions,
  -- declares the key.
  abbrev pub Tolerates : Repo R → CandidateState → Option RefactorTransaction → String → Type 0
  Tolerates repo candidate none key = ⊥
  Tolerates repo candidate (some txn) key =
      (is_open txn.status ≡ true)
      × (txn.task_id ≡ candidate.task_id)
      × ((get_hunger_policy repo candidate.task_id).refactor_transactions_enabled ≡ true)
      × (contains txn.declared_regression_keys key ≡ true)

  -- I-3: a passing verdict, progress, no missing evidence, and every regression tolerated.
  pub record Committable (repo : Repo R) (report : ValidationReport) (candidate : CandidateState)
      (open_transaction : Option RefactorTransaction) : Type 0 where
    pub passing : is_passing report.verdict ≡ true
    pub progress : (key : String) × (contains report.newly_passed_check_keys key ≡ true)
    pub evidence : report.missing_evidence ≡ []
    pub regressions :
        (key : String)
        → contains report.regressed_check_keys key ≡ true
        → Tolerates repo candidate open_transaction key

  blocking_iff :
      (repo : Repo R) (report : ValidationReport) (candidate : CandidateState)
      (open_transaction : Option RefactorTransaction)
      → (has_blocking_regression repo report candidate open_transaction ≡ false) ↔ (
          (key : String)
          → contains report.regressed_check_keys key ≡ true
          → Tolerates repo candidate open_transaction key)
  unfolding has_blocking_regression is_active_matching_transaction
  blocking_iff repo report candidate none = (
    λ h key m. ground (arith, contains-is_empty report.regressed_check_keys key),
    λ h. ground (arith, is_empty_of_contains report.regressed_check_keys h),
  )
  blocking_iff repo report candidate (some txn) =
      let keys = report.regressed_check_keys in
      let declared = txn.declared_regression_keys in
      (
        λ h key m. (
          ground (arith, contains-is_empty keys key),
          ground (arith, contains-is_empty keys key, eq_iff txn.task_id candidate.task_id),
          ground (arith, contains-is_empty keys key),
          ground (arith, contains-is_empty keys key, subset-contains keys declared key),
        ),
        λ h. elim (Bool-cases (is_empty keys)) [
          | inl e ↦ ground arith
          | inr e ↦
              let (key, m) = is_empty-contains keys e in
              let (o, t, p, _) = h key m in
              ground (
                arith,
                eq_iff txn.task_id candidate.task_id,
                (subset_iff keys declared).1 (λ k n. (h k n).3),
              )
        ],
      )

  -- A report can be committed exactly when its verdict passes, it has a newly passed key, it misses no
  -- evidence, and an active transaction of the task declares each of its regressed keys.
  pub can_commit_iff :
      (repo : Repo R) (report : ValidationReport) (candidate : CandidateState)
      (open_transaction : Option RefactorTransaction)
      → (can_commit repo report candidate open_transaction ≡ true)
        ↔ Committable repo report candidate open_transaction
  unfolding can_commit
  can_commit_iff repo report candidate open_transaction =
      let (to, from) = blocking_iff repo report candidate open_transaction in
      (
        λ h. record {
          passing = ground arith;
          progress = is_empty-contains report.newly_passed_check_keys (ground arith);
          evidence = no_key report.missing_evidence (ground arith);
          regressions = to (ground arith);
        },
        λ c.
            let (key, m) = c.progress in
            ground (
              arith,
              c.passing,
              c.evidence,
              contains-is_empty report.newly_passed_check_keys key,
              from c.regressions,
            ),
      )

  -- A rejection has a reason: the reason is "unknown" exactly when the report can be committed.
  pub reject_reason_unknown_iff :
      (repo : Repo R) (report : ValidationReport) (candidate : CandidateState)
      (open_transaction : Option RefactorTransaction)
      → (reject_reason repo report candidate open_transaction ≡ "unknown")
        ↔ (can_commit repo report candidate open_transaction ≡ true)
  unfolding reject_reason can_commit
  reject_reason_unknown_iff repo report candidate open_transaction = (
    λ h. ground (
      arith,
      eq_iff "verdict_fail" "unknown",
      eq_iff "no_new_check_progress" "unknown",
      eq_iff "regressed_checks_detected" "unknown",
      eq_iff "missing_evidence" "unknown",
    ),
    λ h. ground arith,
  )
