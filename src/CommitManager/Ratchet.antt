-- ===== src/CommitManager/Ratchet.antt =====
-- What a commit of services/commit_manager.py leaves in the repository, also after the validation
-- gate that produced its report.
use hungerloop.ValidationGate.Results.{RunRaises}
use hungerloop.Prelude.{
  Answers, ℕ, String, Bool, true, false, Option, none, some, List, contains, lookup-insert, ◌≡◌,
  arith, string_eq, eq_iff, Floats, Bool-cases, ◌||◌, inl, inr, pair_eq, is_empty_of_contains,
  contains-is_empty, subst,
}
use hungerloop.Models.Validation.{ValidationReport, CandidateState}
use hungerloop.Models.Refactor.{RefactorTransaction}
use hungerloop.Repository.{Repo, return, accepted_check_keys_of, get_best_state}
use hungerloop.ValidationGate.{Runner}
use hungerloop.ValidationGate.Validation.{validate, accepted_keys}
use hungerloop.ValidationGate.Report.{Accounts, validate-Accounts}
use hungerloop.CommitManager.{World, Environment, CommitDecision, committed_best}
use hungerloop.CommitManager.Applying.{apply}
use hungerloop.CommitManager.Decision.{can_commit}
use hungerloop.CommitManager.Gate.{can_commit_iff, Committable}
use hungerloop.CommitManager.Recording.{after_commit-committed, commit_body-Recorded}

module _ {R : Type 0} ⦃fl : Floats R⦄ where
  -- A commit happens only on a committable report (I-3), and then records it: the best state of the
  -- task is the candidate with the keys the report counts as passed, and the accepted keys are
  -- exactly those accepted before and the newly passed ones.
  pub apply_committed :
      (env : Environment R) (candidate : CandidateState) (report : ValidationReport)
      (features : List String) (open_transaction : Option RefactorTransaction) (w w' : World R)
      (decision : CommitDecision)
      → apply env candidate report features open_transaction w ≡ (return decision, w')
      → decision.committed ≡ true
      → Committable w.repo report candidate open_transaction
        × (get_best_state w'.repo candidate.task_id ≡ some (committed_best candidate report))
        × ((key : String)
            → contains (accepted_check_keys_of candidate.task_id w'.repo.accepted_checks) key ≡ (
                contains report.newly_passed_check_keys key
                || contains (accepted_check_keys_of candidate.task_id w.repo.accepted_checks) key))
  unfolding apply get_best_state
  apply_committed env candidate report features open_transaction w w' decision h c =
      elim (Bool-cases (can_commit w.repo report candidate open_transaction)) [
        | inr f ↦ absurd (ground arith)
        | inl t ↦
            let (b, a) =
              commit_body-Recorded env candidate report features
                (accepted_check_keys_of candidate.task_id w.repo.accepted_checks) w w'
                (after_commit-committed candidate report w w' _ decision (ground arith) c) in
            (
              (can_commit_iff w.repo report candidate open_transaction).0 t,
              ground (
                arith,
                b,
                lookup-insert candidate.task_id candidate.task_id (committed_best candidate report)
                    w.repo.best_states,
                eq_iff candidate.task_id candidate.task_id,
              ),
              a,
            )
      ]

  Answers-Accounts :
      (baseline : List String) (E : Type 0) (report : ValidationReport) (repo' : Repo R)
      (o : Option (ValidationReport × Repo R))
      → o ≡ some (report, repo')
      → Answers E (λ outcome. (key : String) → Accounts baseline outcome.0 key) o
      → (key : String) → Accounts baseline report key
  Answers-Accounts baseline E report repo' none v h key = absurd (ground (arith, v))
  Answers-Accounts baseline E report repo' (some outcome) v h key =
      subst (λ r. Accounts baseline r key) (ground (arith, v)) (h key)

  outcome-Accounts :
      (repo repo' : Repo R) (runner : Runner) (runs : ℕ) (task_id : String) (loop_id : ℕ)
      (candidate : CandidateState) (target_ids : List String) (require_evidence : Bool)
      (report_id : Option String) (report : ValidationReport)
      → validate repo runner runs task_id loop_id candidate target_ids require_evidence report_id
        ≡ some (report, repo')
      → (key : String) → Accounts (accepted_keys (get_best_state repo task_id)) report key
  outcome-Accounts repo repo' runner runs task_id loop_id candidate target_ids require_evidence
        report_id report v key =
      Answers-Accounts (accepted_keys (get_best_state repo task_id)) (RunRaises runner) report repo'
        (validate repo runner runs task_id loop_id candidate target_ids require_evidence report_id)
        v
        (validate-Accounts repo runner runs task_id loop_id candidate target_ids require_evidence
          report_id)
        key

  -- The ratchet: a commit without a refactor transaction, on the report that `validate` made of the
  -- candidate, keeps in the new best state every check key that the best state had when it was
  -- validated, and adds at least one.
  pub commit_ratchet :
      (repo : Repo R) (runner : Runner) (runs : ℕ) (loop_id : ℕ) (candidate : CandidateState)
      (target_ids : List String) (require_evidence : Bool) (report_id : Option String)
      (report : ValidationReport) (repo' : Repo R) (env : Environment R) (features : List String)
      (w w' : World R) (decision : CommitDecision)
      → validate repo runner runs candidate.task_id loop_id candidate target_ids require_evidence
          report_id
        ≡ some (report, repo')
      → apply env candidate report features none w ≡ (return decision, w')
      → decision.committed ≡ true
      → let old = accepted_keys (get_best_state repo candidate.task_id) in
        let new = accepted_keys (get_best_state w'.repo candidate.task_id) in
        ((key : String) → contains old key ≡ true → contains new key ≡ true)
        × ((key : String) × (contains new key ≡ true) × (contains old key ≡ false))
  unfolding committed_best
  commit_ratchet repo runner runs loop_id candidate target_ids require_evidence report_id report
        repo' env features w w' decision v h c =
      let (committable, best, _) =
        apply_committed env candidate report features none w w' decision h c in
      let accounts =
        outcome-Accounts repo repo' runner runs candidate.task_id loop_id candidate target_ids
          require_evidence report_id report v in
      let (key, m) = committable.progress in
      let (current, fresh) = (accounts key).newly m in
      let strict =
        is_empty_of_contains report.regressed_check_keys (λ k r. committable.regressions k r) in
      (
        λ k o. ground (
          arith,
          best,
          (accounts k).kept o,
          contains-is_empty report.regressed_check_keys k,
          strict,
        ),
        (key, ground (arith, best, current), fresh),
      )
