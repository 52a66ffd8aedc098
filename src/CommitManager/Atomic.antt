-- ===== src/CommitManager/Atomic.antt =====
-- What `apply` of services/commit_manager.py leaves when it does not commit.
use hungerloop.Prelude.{
  String, true, false, Option, List, ◌≡◌, arith, string_eq, Floats, Bool-cases, inl, inr, pair_eq,
  nat_eq,
}
use hungerloop.Models.Validation.{ValidationReport, CandidateState}
use hungerloop.Models.Refactor.{RefactorTransaction}
use hungerloop.Repository.{
  Repo, Result, return, raise, regeneration_failed, accepted_check_keys_of, mark_candidate_rejected,
  add_failure_from_validation, append_event,
}
use hungerloop.CommitManager.{World, Environment, Outcome, CommitDecision, transaction}
use hungerloop.CommitManager.Applying.{apply, commit_body, after_commit}
use hungerloop.CommitManager.Decision.{can_commit}

-- The call did not commit: it raised, or returned a decision that is no commit.
abbrev pub Uncommitted : Result CommitDecision → Type 0
Uncommitted (raise e) = Unit
Uncommitted (return decision) = decision.committed ≡ false

-- What a commit writes is as it was.
pub record Unwritten {R : Type 0} (before repo : Repo R) : Type 0 where
  pub best_states : repo.best_states ≡ before.best_states
  pub accepted_checks : repo.accepted_checks ≡ before.accepted_checks
  pub mission_features : repo.mission_features ≡ before.mission_features
  pub committed : repo.committed ≡ before.committed
  pub ledgers : repo.ledgers ≡ before.ledgers
  pub streaks : repo.no_progress_streaks ≡ before.no_progress_streaks

module _ {R : Type 0} where
  after_commit-Unwritten :
      (candidate : CandidateState) (report : ValidationReport) (w w' : World R)
      (o : Outcome R (Unit {0})) (result : Result CommitDecision)
      → w.repo.rolls_back ≡ true
      → after_commit candidate report (transaction w o) ≡ (result, w')
      → Uncommitted result
      → Unwritten w.repo w'.repo
  unfolding after_commit transaction append_event mark_candidate_rejected
  after_commit-Unwritten candidate report w w' (return _, v) (return d) rb h u =
      absurd (ground arith)
  after_commit-Unwritten candidate report w w' (return _, v) (raise e) rb h u =
      absurd (ground arith)
  after_commit-Unwritten candidate report w w' (raise regeneration_failed, v) result rb h u =
      record {
        best_states = ground arith;
        accepted_checks = ground arith;
        mission_features = ground arith;
        committed = ground arith;
        ledgers = ground arith;
        streaks = ground arith;
      }
  after_commit-Unwritten candidate report w w' (raise e, v) result rb h u = record {
    best_states = ground arith;
    accepted_checks = ground arith;
    mission_features = ground arith;
    committed = ground arith;
    ledgers = ground arith;
    streaks = ground arith;
  }

module _ {R : Type 0} ⦃fl : Floats R⦄ where
  -- With a repository whose transactions roll back, a call of `apply` that does not commit, whether
  -- it rejects, raises or fails to regenerate the artifacts, writes no best state, no accepted
  -- check, no feature, no commit mark, no hunger ledger and no streak.
  pub apply_not_committed :
      (env : Environment R) (candidate : CandidateState) (report : ValidationReport)
      (features : List String) (open_transaction : Option RefactorTransaction) (w w' : World R)
      (result : Result CommitDecision)
      → w.repo.rolls_back ≡ true
      → apply env candidate report features open_transaction w ≡ (result, w')
      → Uncommitted result
      → Unwritten w.repo w'.repo
  unfolding apply mark_candidate_rejected add_failure_from_validation
  apply_not_committed env candidate report features open_transaction w w' result rb h u =
      elim (Bool-cases (can_commit w.repo report candidate open_transaction)) [
        | inl t ↦
            after_commit-Unwritten candidate report w w'
              (commit_body env candidate report features
                (accepted_check_keys_of candidate.task_id w.repo.accepted_checks) w)
              result rb (ground arith) u
        | inr f ↦ record {
          best_states = ground arith;
          accepted_checks = ground arith;
          mission_features = ground arith;
          committed = ground arith;
          ledgers = ground arith;
          streaks = ground arith;
        }
      ]
