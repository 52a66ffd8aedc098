-- ===== src/Samples/Commits.antt =====
-- Examples of the commit manager and of the workspace.
use hungerloop.Prelude.{
  ℕ, String, Bool, true, false, Option, none, some, List, [], ◌∷◌, ◌++◌, contains, lookup, filter,
  not, dedupe, ◌≡◌, ◌≢◌, ◌↔◌, refl, milli, string_eq, nat_eq, pair_eq, ◌||◌, insert, remove,
}
use hungerloop.Models.Enums.{ValidationVerdict}
use hungerloop.Models.Validation.{ValidationReport}
use hungerloop.Repository.{
  Repo, Result, return, raise, RepoError, get_best_state, accepted_check_keys_of, get_hunger_ledger,
  os_error, get_hunger_policy, mark_candidate_committed, save_best_state, save_accepted_check,
}
use hungerloop.Repository.Missions.{get_mission}
use hungerloop.CheckKey.{index_of_key}
use hungerloop.Workspace.{Faults, Workspace, promote_candidate_to_best, reject_candidate}
use hungerloop.Workspace.Promotion.{promote_keeps_best}
use hungerloop.ValidationGate.Validation.{validate, accepted_keys}
use hungerloop.CommitManager.{
  World, Outcome, CommitDecision, committed_best, items_by_id, emit_discovery_credits,
  save_accepted_checks, transaction, next, on_repo, complete_features, emit_credits,
}
use hungerloop.CommitManager.Applying.{apply, commit_body, after_commit, regenerate_artifacts}
use hungerloop.CommitManager.Decision.{
  can_commit, has_blocking_regression, is_active_matching_transaction,
}
use hungerloop.CommitManager.Gate.{Committable, can_commit_iff}
use hungerloop.CommitManager.Ratchet.{apply_committed, commit_ratchet}
use hungerloop.CommitManager.Atomic.{Unwritten, apply_not_committed}
use hungerloop.CommitManager.Mirror.{Replaced, failed_regeneration_replaces_best}
use hungerloop.CommitManager.Credits.{credits_for, emit_discovery_credits_lem}
use hungerloop.Samples.{
  repo, world, mission_world, workspace, candidate, good_report, environment, no_faults, all_pass,
}

abbrev committed : CommitDecision
committed = record {
  committed = true;
  reason = "validation_passed_with_check_progress";
  verdict = ValidationVerdict.pass;
}

abbrev after_apply : World ℕ
after_apply = (apply (environment false) candidate good_report [] none world).1

apply-returns :
    apply (environment false) candidate good_report [] none world ≡ (return committed, after_apply)
unfolding apply can_commit has_blocking_regression after_commit transaction commit_body next
    promote_candidate_to_best on_repo save_accepted_checks index_of_key complete_features dedupe
    regenerate_artifacts get_mission emit_discovery_credits accepted_check_keys_of emit_credits
    is_active_matching_transaction get_hunger_policy contains mark_candidate_committed
    save_best_state committed_best save_accepted_check lookup hungerloop.CommitManager.proposer_of
    items_by_id get_hunger_ledger hungerloop.CheckKey.item_of_key
    hungerloop.CommitManager.after_prefix hungerloop.Repository.append_event
apply-returns = refl

apply_committed_example :
    Committable repo good_report candidate none
    × (get_best_state after_apply.repo "t" ≡ some (committed_best candidate good_report))
    × ((key : String)
        → contains (accepted_check_keys_of "t" after_apply.repo.accepted_checks) key
          ≡ (contains ("A:1" ∷ []) key || contains (accepted_check_keys_of "t" []) key))
apply_committed_example =
    apply_committed (environment false) candidate good_report [] none world after_apply committed
      apply-returns refl

abbrev validated : Option (ValidationReport × Repo ℕ)
validated = validate repo all_pass 0 "t" 2 candidate ("A" ∷ []) true none

abbrev validated_report : ValidationReport
validated_report = elim validated [ none ↦ good_report | some (r, _) ↦ r ]

abbrev validated_repo : Repo ℕ
validated_repo = elim validated [ none ↦ repo | some (_, r) ↦ r ]

validate-returns :
    validate repo all_pass 0 "t" 2 candidate ("A" ∷ []) true none
    ≡ some (validated_report, validated_repo)
unfolding validate hungerloop.CheckKey.make_check_key
validate-returns = refl

abbrev after_ratchet : World ℕ
after_ratchet = (apply (environment false) candidate validated_report [] none world).1

apply_validated-returns :
    apply (environment false) candidate validated_report [] none world
    ≡ (return committed, after_ratchet)
unfolding apply can_commit validate hungerloop.CheckKey.make_check_key after_commit transaction
    commit_body next promote_candidate_to_best on_repo save_accepted_checks index_of_key
    complete_features regenerate_artifacts get_mission emit_discovery_credits accepted_check_keys_of
    hungerloop.CommitManager.proposer_of items_by_id get_hunger_ledger save_accepted_check
    mark_candidate_committed save_best_state hungerloop.CommitManager.after_prefix
apply_validated-returns = refl

commit_ratchet_example :
    let new = accepted_keys (get_best_state after_ratchet.repo "t") in
    ((key : String)
      → contains (accepted_keys (get_best_state repo "t")) key ≡ true
      → contains new key ≡ true)
    × ((key : String) × (contains new key ≡ true)
        × (contains (accepted_keys (get_best_state repo "t")) key ≡ false))
commit_ratchet_example =
    commit_ratchet repo all_pass 0 2 candidate ("A" ∷ []) true none validated_report validated_repo
      (environment false) [] world after_ratchet committed validate-returns apply_validated-returns
      refl

can_commit_iff_example :
    (can_commit repo good_report candidate none ≡ true)
    ↔ Committable repo good_report candidate none
can_commit_iff_example = can_commit_iff repo good_report candidate none

abbrev not_regenerated : CommitDecision
not_regenerated = record {
  committed = false;
  reason = "mission_state_regeneration_failed";
  verdict = ValidationVerdict.fail;
}

abbrev after_failure : World ℕ
after_failure = (apply (environment true) candidate good_report [] none mission_world).1

failed_apply-returns :
    apply (environment true) candidate good_report [] none mission_world
    ≡ (return not_regenerated, after_failure)
unfolding apply can_commit has_blocking_regression after_commit transaction commit_body next
    promote_candidate_to_best on_repo save_accepted_checks index_of_key complete_features dedupe
    regenerate_artifacts get_mission emit_discovery_credits accepted_check_keys_of emit_credits
    is_active_matching_transaction get_hunger_policy contains mark_candidate_committed
    save_best_state committed_best save_accepted_check lookup hungerloop.CommitManager.proposer_of
    items_by_id get_hunger_ledger hungerloop.CheckKey.item_of_key
    hungerloop.CommitManager.after_prefix hungerloop.Repository.append_event
    hungerloop.Repository.Missions.list_mission_phases hungerloop.Prelude.insert reject_candidate
failed_apply-returns = refl

apply_not_committed_example : Unwritten mission_world.repo after_failure.repo
apply_not_committed_example =
    apply_not_committed (environment true) candidate good_report [] none mission_world after_failure
      (return not_regenerated) refl failed_apply-returns refl

can_commit-good : can_commit mission_world.repo good_report candidate none ≡ true
unfolding can_commit
can_commit-good = refl

failed_regeneration_example :
    Replaced (environment true) candidate workspace after_failure.workspace
failed_regeneration_example =
    failed_regeneration_replaces_best (environment true) candidate good_report [] none mission_world
      after_failure not_regenerated can_commit-good failed_apply-returns refl

credits_example :
    emit_discovery_credits "t" 2 ("A:1" ∷ "A:1" ∷ []) ("A:0" ∷ []) repo ≡ record repo {
      events =
          repo.events
          ++ credits_for "t" 2
              (items_by_id (get_hunger_ledger repo "t"))
              (filter (λ key. not (contains ("A:0" ∷ []) key)) (dedupe ("A:1" ∷ "A:1" ∷ [])));
    }
credits_example = emit_discovery_credits_lem "t" 2 ("A:1" ∷ "A:1" ∷ []) ("A:0" ∷ []) repo

abbrev swap_fails : Faults
swap_fails = record no_faults { rename_staging = true }

abbrev after_swap_failed : Workspace
after_swap_failed = (promote_candidate_to_best swap_fails "t" 2 workspace).1

swap_fails-raises :
    promote_candidate_to_best swap_fails "t" 2 workspace ≡ (raise os_error, after_swap_failed)
unfolding promote_candidate_to_best
swap_fails-raises = refl

promote_keeps_best_example :
    (after_swap_failed.best ≡ workspace.best)
    × (after_swap_failed.best_manifest ≡ workspace.best_manifest)
    × (after_swap_failed.candidates ≡ workspace.candidates)
    × (after_swap_failed.old ≡ workspace.old)
promote_keeps_best_example =
    promote_keeps_best swap_fails "t" 2 workspace after_swap_failed os_error swap_fails-raises refl
      refl

abbrev after_promotion : Workspace
after_promotion = (promote_candidate_to_best no_faults "t" 2 workspace).1

promote-returns : promote_candidate_to_best no_faults "t" 2 workspace ≡ (return tt, after_promotion)
unfolding promote_candidate_to_best
promote-returns = refl
