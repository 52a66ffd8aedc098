-- ===== src/CommitManager/Mirror.antt =====
-- The best directory after a commit of services/commit_manager.py that failed to regenerate the
-- artifacts of its mission.
use hungerloop.Prelude.{
  ℕ, String, true, false, Option, some, List, [], ◌∷◌, lookup, lookup-insert, dedupe, ◌≡◌, ◌≢◌,
  refl, arith, string_eq, eq_iff, Floats, ◌⊎◌, Option-cases, inl, inr, pair_eq, nat_eq, subst,
}
use hungerloop.CheckKey.{index_of_key}
use hungerloop.Models.Enums.{MissionFeatureStatus}
use hungerloop.Models.Validation.{ValidationReport, CandidateState}
use hungerloop.Models.Refactor.{RefactorTransaction}
use hungerloop.Repository.{
  Repo, Result-cases, return, raise, RepoError, regeneration_failed, accepted_check_keys_of,
  save_accepted_check, mark_candidate_committed, save_best_state,
}
use hungerloop.Repository.Missions.{update_feature_status}
use hungerloop.Workspace.{Files, Workspace, Faults, promote_candidate_to_best, reject_candidate}
use hungerloop.Workspace.Promotion.{Promoted, promote_replaces_best, promote-needs_candidate}
use hungerloop.CommitManager.{
  World, Environment, Outcome, CommitDecision, committed_best, next, on_repo, transaction,
  save_accepted_checks, complete_features, emit_discovery_credits, accepted_row,
}
use hungerloop.CommitManager.Applying.{apply, commit_body, after_commit, regenerate_artifacts}
use hungerloop.CommitManager.Decision.{can_commit}

promote-error :
    (faults : Faults) (task_id : String) (loop_id : ℕ) (w : Workspace)
    → (promote_candidate_to_best faults task_id loop_id w).0 ≢ raise regeneration_failed
unfolding promote_candidate_to_best
promote-error faults task_id loop_id w h = ground arith

module _ {R : Type 0} where
  -- A raise comes from the first statement, or from the rest after it returned.
  next-raises :
      (o : Outcome R (Unit {0})) (f : World R → Outcome R (Unit {0})) (e : RepoError) (w' : World R)
      → next o f ≡ (raise e, w')
      → (o ≡ (raise e, w')) ⊎ ((w : World R) × (o ≡ (return tt, w)) × (f w ≡ (raise e, w')))
  unfolding next
  next-raises (raise d, w) f e w' h = inl (ground arith)
  next-raises (return tt, w) f e w' h = inr (w, refl, h)

  save_accepted_checks-error :
      (candidate : CandidateState) (report : ValidationReport) (keys : List String) (repo : Repo R)
      → (save_accepted_checks candidate report keys repo).0 ≢ raise regeneration_failed
  unfolding save_accepted_checks
  save_accepted_checks-error candidate report [] repo h = ground arith
  save_accepted_checks-error candidate report (key ∷ keys) repo h =
      elim (Option-cases (index_of_key key)) [
        | inl n ↦ ground arith
        | inr (i, e) ↦
            save_accepted_checks-error candidate report keys
              (save_accepted_check candidate.task_id key (accepted_row candidate report key i) repo)
              (ground arith)
      ]

  update_feature_status-error :
      (feature_id : String) (status : MissionFeatureStatus) (repo : Repo R)
      → update_feature_status feature_id status repo ≢ raise regeneration_failed
  unfolding update_feature_status
  update_feature_status-error feature_id status repo h = ground arith

  complete_features-error :
      (feature_ids : List String) (repo : Repo R)
      → (complete_features feature_ids repo).0 ≢ raise regeneration_failed
  unfolding complete_features
  complete_features-error [] repo h = ground arith
  complete_features-error (f ∷ fs) repo h =
      elim (Result-cases (update_feature_status f MissionFeatureStatus.done repo)) [
        | inl (e, k) ↦ ground (arith, update_feature_status-error f MissionFeatureStatus.done repo)
        | inr (repo', k) ↦ complete_features-error fs repo' (ground arith)
      ]

  -- The files of best are what the regeneration left of the candidate's files.
  abbrev pub Replaced : Environment R → CandidateState → Workspace → Workspace → Type 0
  Replaced env candidate before after =
      (repo : Repo R) × (files : Files) × (lookup (candidate.task_id, candidate.loop_id)
          before.candidates
        ≡ some files)
      × (lookup candidate.task_id after.best ≡ some (env.regenerate repo candidate.task_id files).2)

  regenerate-raises :
      (env : Environment R) (candidate : CandidateState) (before : Workspace) (w w' : World R)
      → Promoted candidate.task_id candidate.loop_id before w.workspace
      → (files : Files)
      → lookup (candidate.task_id, candidate.loop_id) before.candidates ≡ some files
      → regenerate_artifacts env candidate w ≡ (raise regeneration_failed, w')
      → Replaced env candidate before w'.workspace
  unfolding regenerate_artifacts
  regenerate-raises env candidate before w w' p files c h = (
    w.repo,
    files,
    c,
    ground (
      arith,
      p.files,
      lookup-insert candidate.task_id candidate.task_id
          (env.regenerate w.repo candidate.task_id files).2 w.workspace.best,
      eq_iff candidate.task_id candidate.task_id,
    ),
  )

  commit_body-raises :
      (env : Environment R) (candidate : CandidateState) (report : ValidationReport)
      (features pre_accepted : List String) (w w' : World R)
      → commit_body env candidate report features pre_accepted w ≡ (raise regeneration_failed, w')
      → Replaced env candidate w.workspace w'.workspace
  unfolding commit_body on_repo
  commit_body-raises env candidate report features pre_accepted w w' h =
      elim (next-raises _ _ regeneration_failed w' h) [
        | inl e ↦ absurd (
            promote-error env.faults candidate.task_id candidate.loop_id w.workspace (ground arith))
        | inr (v, e, k) ↦ elim (next-raises _ _ regeneration_failed w' k) [
          | inl n ↦ absurd (
              save_accepted_checks-error candidate report report.newly_passed_check_keys
                (mark_candidate_committed candidate.id
                  (save_best_state (committed_best candidate report) v.repo))
                (ground arith))
          | inr (u, n, l) ↦ elim (next-raises _ _ regeneration_failed w' l) [
            | inl m ↦ absurd (
                complete_features-error (dedupe features)
                  (emit_discovery_credits candidate.task_id candidate.loop_id
                    report.newly_passed_check_keys pre_accepted u.repo)
                  (ground arith))
            | inr (x, m, r) ↦
                let p =
                  promote_replaces_best env.faults candidate.task_id candidate.loop_id w.workspace
                    v.workspace (ground arith) in
                let (files, c) =
                  promote-needs_candidate env.faults candidate.task_id candidate.loop_id w.workspace
                    v.workspace (ground arith) in
                regenerate-raises env candidate w.workspace x w'
                  (subst
                    (λ (t : Workspace). Promoted candidate.task_id candidate.loop_id w.workspace t)
                    (ground arith) p)
                  files c r
          ]
        ]
      ]

  -- A decision that is no commit is made after a failed regeneration only.
  after_commit-raised :
      (candidate : CandidateState) (report : ValidationReport) (w w' : World R)
      (o : Outcome R (Unit {0})) (decision : CommitDecision)
      → after_commit candidate report (transaction w o) ≡ (return decision, w')
      → decision.committed ≡ false
      → (v : World R) × (o ≡ (raise regeneration_failed, v))
        × (w'.workspace.best ≡ v.workspace.best)
  unfolding after_commit transaction reject_candidate
  after_commit-raised candidate report w w' (return _, v) decision h c = absurd (ground arith)
  after_commit-raised candidate report w w' (raise regeneration_failed, v) decision h c =
      (v, refl, ground arith)
  after_commit-raised candidate report w w' (raise e, v) decision h c = absurd (ground arith)

module _ {R : Type 0} ⦃fl : Floats R⦄ where
  -- When `apply` returns a decision that is no commit on a report that can be committed, the best
  -- directory of the task holds what the regeneration left of the candidate's files.
  pub failed_regeneration_replaces_best :
      (env : Environment R) (candidate : CandidateState) (report : ValidationReport)
      (features : List String) (open_transaction : Option RefactorTransaction) (w w' : World R)
      (decision : CommitDecision)
      → can_commit w.repo report candidate open_transaction ≡ true
      → apply env candidate report features open_transaction w ≡ (return decision, w')
      → decision.committed ≡ false
      → Replaced env candidate w.workspace w'.workspace
  unfolding apply
  failed_regeneration_replaces_best env candidate report features open_transaction w w' decision t h
        c =
      let (v, e, b) =
        after_commit-raised candidate report w w'
          (commit_body env candidate report features
            (accepted_check_keys_of candidate.task_id w.repo.accepted_checks) w)
          decision (ground arith) c in
      let (repo, files, found, left) = commit_body-raises env candidate report features _ w v e in
      (repo, files, found, ground (arith, left, b))
