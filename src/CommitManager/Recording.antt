-- ===== src/CommitManager/Recording.antt =====
-- What the body of the commit's transaction (services/commit_manager.py) writes in the repository.
use hungerloop.Prelude.{
  String, true, false, none, some, List, [], ◌∷◌, contains, lookup, insert, Dict, lookup-insert,
  dedupe, ◌≡◌, refl, arith, string_eq, eq_iff, ◌||◌, Option-cases, inl, inr, pair_eq, ◌∙◌,
}
use hungerloop.CheckKey.{index_of_key}
use hungerloop.Models.Enums.{MissionFeatureStatus}
use hungerloop.Models.Validation.{ValidationReport, CandidateState}
use hungerloop.Repository.{
  Repo, Result-cases, return, raise, AcceptedCheck, accepted_check_keys_of, save_accepted_check,
  mark_candidate_committed, save_best_state,
}
use hungerloop.Repository.Missions.{update_feature_status}
use hungerloop.CommitManager.{
  World, Environment, Outcome, CommitDecision, committed_best, next, on_repo, transaction,
  save_accepted_checks, complete_features, emit_discovery_credits, accepted_row,
}
use hungerloop.CommitManager.Applying.{commit_body, after_commit, regenerate_artifacts}
use hungerloop.CommitManager.Credits.{emit_discovery_credits_lem}

module _ {R : Type 0} where
  pub next-returns :
      (o : Outcome R (Unit {0})) (f : World R → Outcome R (Unit {0})) (w' : World R)
      → next o f ≡ (return tt, w')
      → (w : World R) × (o ≡ (return tt, w)) × (f w ≡ (return tt, w'))
  unfolding next
  next-returns (raise e, w) f w' h = absurd (ground arith)
  next-returns (return tt, w) f w' h = (w, refl, h)

  best_states-save_accepted_checks :
      (candidate : CandidateState) (report : ValidationReport) (keys : List String) (repo : Repo R)
      → (save_accepted_checks candidate report keys repo).1.best_states ≡ repo.best_states
  unfolding save_accepted_checks save_accepted_check
  best_states-save_accepted_checks candidate report [] repo = refl
  best_states-save_accepted_checks candidate report (key ∷ keys) repo =
      elim (Option-cases (index_of_key key)) [
        | inl n ↦ ground arith
        | inr (i, e) ↦ ground (
          arith,
          best_states-save_accepted_checks candidate report keys (
              save_accepted_check candidate.task_id key (accepted_row candidate report key i) repo),
        )
      ]

  best_states-update_feature_status :
      (feature_id : String) (status : MissionFeatureStatus) (repo repo' : Repo R)
      → update_feature_status feature_id status repo ≡ return repo'
      → (repo'.best_states ≡ repo.best_states) × (repo'.accepted_checks ≡ repo.accepted_checks)
  unfolding update_feature_status
  best_states-update_feature_status feature_id status repo repo' h = (ground arith, ground arith)

  best_states-complete_features :
      (feature_ids : List String) (repo : Repo R)
      → let repo' = (complete_features feature_ids repo).1 in
        (repo'.best_states ≡ repo.best_states) × (repo'.accepted_checks ≡ repo.accepted_checks)
  unfolding complete_features
  best_states-complete_features [] repo = (refl, refl)
  best_states-complete_features (f ∷ fs) repo =
      elim (Result-cases (update_feature_status f MissionFeatureStatus.done repo)) [
        | inl (e, h) ↦ ground arith
        | inr (repo', h) ↦ ground (
          arith,
          best_states-update_feature_status f MissionFeatureStatus.done repo repo',
          best_states-complete_features fs repo',
        )
      ]

-- A key is read back as accepted exactly when it has a row.
pub contains-accepted_check_keys_of :
    (task_id key : String) (rows : Dict (String × String) AcceptedCheck)
    → contains (accepted_check_keys_of task_id rows) key
      ≡ (elim (lookup (task_id, key) rows) [ none ↦ false | some _ ↦ true ])
unfolding contains accepted_check_keys_of lookup
contains-accepted_check_keys_of task_id key [] = refl
contains-accepted_check_keys_of task_id key (((t, k), row) ∷ rows) =
    ground (arith, contains-accepted_check_keys_of task_id key rows, eq_iff t task_id, eq_iff k key)

module _ {R : Type 0} where
  contains-save_accepted_checks :
      (candidate : CandidateState) (report : ValidationReport) (keys : List String)
      (repo repo' : Repo R) (key : String)
      → save_accepted_checks candidate report keys repo ≡ (return tt, repo')
      → contains (accepted_check_keys_of candidate.task_id repo'.accepted_checks) key ≡ (
          contains keys key
          || contains (accepted_check_keys_of candidate.task_id repo.accepted_checks) key)
  unfolding save_accepted_checks save_accepted_check contains
  contains-save_accepted_checks candidate report [] repo repo' key h = ground arith
  contains-save_accepted_checks candidate report (k ∷ keys) repo repo' key h =
      elim (Option-cases (index_of_key k)) [
        | inl n ↦ absurd (ground arith)
        | inr (i, e) ↦
            let row = accepted_row candidate report k i in
            let saved = save_accepted_check candidate.task_id k row repo in
            let t = candidate.task_id in
            ground (
              arith,
              contains-save_accepted_checks candidate report keys saved repo' key,
              contains-accepted_check_keys_of t key saved.accepted_checks,
              contains-accepted_check_keys_of t key repo.accepted_checks,
              lookup-insert (t, k) (t, key) row repo.accepted_checks,
              eq_iff t t,
              eq_iff k key,
            )
      ]

  regenerate_artifacts-keeps :
      (env : Environment R) (candidate : CandidateState) (w w' : World R)
      → regenerate_artifacts env candidate w ≡ (return tt, w')
      → (w'.repo.best_states ≡ w.repo.best_states)
        × (w'.repo.accepted_checks ≡ w.repo.accepted_checks)
  unfolding regenerate_artifacts
  regenerate_artifacts-keeps env candidate w w' h = (ground arith, ground arith)

  -- What a commit records, against the repository before.
  abbrev pub Recorded : CandidateState → ValidationReport → Repo R → Repo R → Type 0
  Recorded candidate report before repo =
      (repo.best_states
        ≡ insert candidate.task_id (committed_best candidate report) before.best_states)
      × ((key : String)
          → contains (accepted_check_keys_of candidate.task_id repo.accepted_checks) key ≡ (
              contains report.newly_passed_check_keys key
              || contains (accepted_check_keys_of candidate.task_id before.accepted_checks) key))

  Recorded-same :
      (candidate : CandidateState) (report : ValidationReport) (before repo repo' : Repo R)
      → repo'.best_states ≡ repo.best_states
      → repo'.accepted_checks ≡ repo.accepted_checks
      → Recorded candidate report before repo
      → Recorded candidate report before repo'
  Recorded-same candidate report before repo repo' b a (rb, ra) = (b ∙ rb, λ key. rw (a) (ra key))

  pub next_intro :
      (P Q : World R → Type 0) (o : Outcome R (Unit {0})) (f : World R → Outcome R (Unit {0}))
      → ((w : World R) → o ≡ (return tt, w) → P w)
      → ((w : World R) → P w → (w' : World R) → f w ≡ (return tt, w') → Q w')
      → (w' : World R) → next o f ≡ (return tt, w')
      → Q w'
  next_intro P Q o f p q w' h = let (w, e, k) = next-returns o f w' h in q w (p w e) w' k

  save-Recorded :
      (candidate : CandidateState) (report : ValidationReport) (before : Repo R) (w w' : World R)
      → w.repo ≡ before
      → on_repo
          (save_accepted_checks candidate report report.newly_passed_check_keys (
            mark_candidate_committed candidate.id
              (save_best_state (committed_best candidate report) w.repo)))
          w.workspace
        ≡ (return tt, w')
      → Recorded candidate report before w'.repo
  unfolding on_repo mark_candidate_committed save_best_state committed_best
  save-Recorded candidate report before w w' e h =
      let repo =
        mark_candidate_committed candidate.id
          (save_best_state (committed_best candidate report) before) in
      let keys = report.newly_passed_check_keys in
      (
        ground (arith, best_states-save_accepted_checks candidate report keys repo),
        λ key. contains-save_accepted_checks candidate report keys repo w'.repo key (ground arith),
      )

  complete-Recorded :
      (candidate : CandidateState) (report : ValidationReport) (before : Repo R)
      (features pre_accepted : List String) (w w' : World R)
      → Recorded candidate report before w.repo
      → on_repo
          (complete_features features (
            emit_discovery_credits candidate.task_id candidate.loop_id
              report.newly_passed_check_keys pre_accepted w.repo))
          w.workspace
        ≡ (return tt, w')
      → Recorded candidate report before w'.repo
  unfolding on_repo
  complete-Recorded candidate report before features pre_accepted w w' r h =
      let credited =
        emit_discovery_credits candidate.task_id candidate.loop_id report.newly_passed_check_keys
          pre_accepted w.repo in
      let lem =
        emit_discovery_credits_lem candidate.task_id candidate.loop_id
          report.newly_passed_check_keys pre_accepted w.repo in
      let (b, a) = best_states-complete_features features credited in
      Recorded-same candidate report before w.repo w'.repo (ground (arith, lem, b))
        (ground (arith, lem, a)) r

  pub commit_body-Recorded :
      (env : Environment R) (candidate : CandidateState) (report : ValidationReport)
      (features pre_accepted : List String) (w w' : World R)
      → commit_body env candidate report features pre_accepted w ≡ (return tt, w')
      → Recorded candidate report w.repo w'.repo
  unfolding commit_body
  commit_body-Recorded env candidate report features pre_accepted w w' h =
      let P = λ (v : World R). Recorded candidate report w.repo v.repo in
      next_intro (λ v. v.repo ≡ w.repo) P _ _ (λ v e. ground arith)
        (λ v p.
          next_intro P P _ _ (λ u e. save-Recorded candidate report w.repo v u p e)
            (λ u q.
              next_intro P P _ _
                (λ x e.
                  complete-Recorded candidate report w.repo (dedupe features) pre_accepted u x q e)
                (λ x r y e.
                  let (b, a) = regenerate_artifacts-keeps env candidate x y e in
                  Recorded-same candidate report w.repo x.repo y.repo b a r)))
        w' h

  pub after_commit-committed :
      (candidate : CandidateState) (report : ValidationReport) (w w' : World R)
      (o : Outcome R (Unit {0})) (decision : CommitDecision)
      → after_commit candidate report (transaction w o) ≡ (return decision, w')
      → decision.committed ≡ true
      → o ≡ (return tt, w')
  unfolding after_commit transaction
  after_commit-committed candidate report w w' (return _, v) decision h c = ground arith
  after_commit-committed candidate report w w' (raise e, v) decision h c = absurd (ground arith)
