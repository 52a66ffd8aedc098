-- ===== src/CommitManager.antt =====
-- services/commit_manager.py: what the manager works on, and the steps of its transaction; the
-- gate is in Decision, `apply` in Applying. The regeneration of mission artifacts, which the manager is
-- given behind a protocol, is a parameter. A pipeline result counts by its deterministic report.
pub mod Decision
pub mod Applying
pub mod Gate
pub mod Atomic
pub mod Credits
pub mod Recording
pub mod Ratchet
pub mod Mirror
use Prim.Native.String
use Prim.Native.Char.{code}
use hungerloop.Prelude.{
  ℕ, String, Bool, true, false, Option, none, some, List, [], ◌∷◌, ◌++◌, Dict, lookup, insert,
  contains, dedupe, is_empty, all, subset, string_eq, nat_eq, pair_eq, if◌then◌else◌, ◌&&◌, ◌||◌,
  not, ◌==◌, Floats,
}
use hungerloop.CheckKey.{make_check_key, item_of_key, index_of_key}
use hungerloop.Models.Enums.{ValidationVerdict, MissionFeatureStatus, is_passing, is_fail, is_open}
use hungerloop.Models.Hunger.{HungerItem, HungerLedger}
use hungerloop.Models.Validation.{CheckResult, ValidationReport, BestState, CandidateState}
use hungerloop.Models.Refactor.{RefactorTransaction}
use hungerloop.Repository.{
  Repo, Result, return, raise, RepoError, regeneration_failed, value_error, os_error, EventBody,
  Event, AcceptedCheck, accepted_check_keys_of, get_hunger_policy, get_hunger_ledger,
  save_best_state, mark_candidate_committed, mark_candidate_rejected, save_accepted_check,
  append_event, add_failure_from_validation,
}
use hungerloop.Repository.Missions.{get_mission, update_feature_status}
use hungerloop.Workspace.{
  Files, Workspace, Faults, promote_candidate_to_best, reject_candidate, write_best_manifest,
  candidate_source,
}

-- What the manager works on: its repository and its workspace manager.
pub record World (R : Type 0) : Type 0 where
  pub repo : Repo R
  pub workspace : Workspace

pub record CommitDecision : Type 0 where
  pub committed : Bool
  pub reason : String
  pub verdict : ValidationVerdict

-- The outcome of a call, and what it left.
abbrev pub Outcome : Type 0 → Type 0 → Type 0
Outcome R A = Result A × World R

-- What `apply` meets outside: the file system, and `regenerate`, which is given the repository, the
-- task and the files of best, and, whether it raises or not, appends events and leaves files.
pub record Environment (R : Type 0) : Type 0 where
  pub faults : Faults
  pub final_manifest : Bool
  pub regenerate : Repo R → String → Files → Bool × List Event × Files

-- `s[len(prefix):]` where `s.startswith(prefix)`
unfoldable pub after_prefix : String → String → Option String
after_prefix String.[] s = some s
after_prefix (String.◌∷◌ c p) String.[] = none
after_prefix (String.◌∷◌ c p) (String.◌∷◌ d s) =
    let rest = after_prefix p s in if code c == code d then rest else none

-- A dict comprehension: of two results with one key, the later one's evidence stays.
evidence_from : List CheckResult → Dict String (Option String) → Dict String (Option String)
unfolding insert make_check_key
evidence_from [] d = d
evidence_from (r ∷ results) d =
    evidence_from results (insert (make_check_key r.hunger_item_id r.check_index) r.evidence_id d)

unfoldable pub evidence_by_check_key : ValidationReport → Dict String (Option String)
unfolding evidence_from
evidence_by_check_key report = evidence_from report.check_results []

-- What the commit saves of a newly passed check
unfoldable pub accepted_row : CandidateState → ValidationReport → String → ℕ → AcceptedCheck
accepted_row candidate report check_key check_index = record {
  hunger_item_id = item_of_key check_key;
  check_index = check_index;
  accepted_at_loop = candidate.loop_id;
  validation_id = report.id;
  evidence_id = elim (lookup check_key (evidence_by_check_key report)) [
    | none ↦ none
    | some evidence_id ↦ evidence_id
  ];
}

module _ {R : Type 0} where
  items_from : List (HungerItem R) → Dict String (HungerItem R) → Dict String (HungerItem R)
  unfolding insert
  items_from [] d = d
  items_from (item ∷ items) d = items_from items (insert item.id item d)

  unfoldable pub items_by_id : HungerLedger R → Dict String (HungerItem R)
  unfolding items_from
  items_by_id ledger = items_from ledger.items []

  -- The proposer of the check with the key, where a worker generated its item.
  unfoldable pub proposer_of : Dict String (HungerItem R) → String → Option String
  proposer_of items check_key = elim (lookup (item_of_key check_key) items) [
    | none ↦ none
    | some item ↦ elim item.generated_by [
      | none ↦ none
      | some generated_by ↦ after_prefix "worker:" generated_by
    ]
  ]

  -- The loop of `_emit_discovery_credits`, with the keys seen so far.
  unfoldable pub emit_credits :
      String
      → ℕ
      → Dict String (HungerItem R)
      → List String
      → List String
      → List String
      → Repo R
      → Repo R
  emit_credits task_id loop_id items pre_accepted seen [] repo = repo
  emit_credits task_id loop_id items pre_accepted seen (check_key ∷ newly_passed) repo =
      let again = emit_credits task_id loop_id items pre_accepted seen newly_passed repo in
      let skipped =
        emit_credits task_id loop_id items pre_accepted (check_key ∷ seen) newly_passed repo in
      if contains seen check_key
      then again
      else if contains pre_accepted check_key
      then skipped
      else elim (proposer_of items check_key) [
        | none ↦ skipped
        | some proposer ↦
            emit_credits task_id loop_id items pre_accepted (check_key ∷ seen) newly_passed (
              append_event (EventBody.discovery_credit proposer check_key loop_id) task_id
                (some loop_id) repo)
      ]

  unfoldable pub emit_discovery_credits : String → ℕ → List String → List String → Repo R → Repo R
  unfolding emit_credits
  emit_discovery_credits task_id loop_id newly_passed pre_accepted repo =
      emit_credits task_id loop_id (items_by_id (get_hunger_ledger repo task_id)) pre_accepted []
        newly_passed repo

  -- The loop that saves the newly passed checks: a key without an index is a ValueError.
  unfoldable pub save_accepted_checks :
      CandidateState → ValidationReport → List String → Repo R → Result (Unit {0}) × Repo R
  save_accepted_checks candidate report [] repo = (return tt, repo)
  save_accepted_checks candidate report (check_key ∷ keys) repo = elim (index_of_key check_key) [
    | none ↦ (raise value_error, repo)
    | some check_index ↦ save_accepted_checks candidate report keys (
        save_accepted_check candidate.task_id check_key
          (accepted_row candidate report check_key check_index) repo)
  ]

  -- The loop over `dict.fromkeys(completed_feature_ids)`
  unfoldable pub complete_features : List String → Repo R → Result (Unit {0}) × Repo R
  complete_features [] repo = (return tt, repo)
  complete_features (feature_id ∷ feature_ids) repo =
      elim (update_feature_status feature_id MissionFeatureStatus.done repo) [
        | raise e ↦ (raise e, repo)
        | return repo' ↦ complete_features feature_ids repo'
      ]

  -- The next statement runs only after a statement that returned.
  unfoldable pub next :
      Outcome R (Unit {0}) → (World R → Outcome R (Unit {0})) → Outcome R (Unit {0})
  next (raise e, w) f = (raise e, w)
  next (return _, w) f = f w

  unfoldable pub on_repo : Result (Unit {0}) × Repo R → Workspace → Outcome R (Unit {0})
  on_repo (outcome, repo) workspace = (outcome, record { repo = repo; workspace = workspace })

  -- `with repo.transaction(): body`: SQLite's restores the repository when the body raises.
  unfoldable pub transaction : World R → Outcome R (Unit {0}) → Outcome R (Unit {0})
  transaction before (return u, w) = (return u, w)
  transaction before (raise e, w) =
      (raise e, if before.repo.rolls_back then record w { repo = before.repo } else w)

-- The best state that the commit saves
unfoldable pub committed_best : CandidateState → ValidationReport → BestState
committed_best candidate report = record {
  task_id = candidate.task_id;
  state_id = candidate.id;
  summary = candidate.summary;
  artifact_ids = candidate.artifact_ids;
  evidence_ids = report.evidence_ids;
  validation_id = some report.id;
  updated_at_loop = candidate.loop_id;
  accepted_check_keys = report.currently_passed_check_keys;
  workspace_ref = "best";
}

abbrev failed_regeneration : CommitDecision
failed_regeneration = record {
  committed = false;
  reason = "mission_state_regeneration_failed";
  verdict = ValidationVerdict.fail;
}

-- The files below `best/`, if there is the directory.
abbrev pub files_of_best : Workspace → String → Files
files_of_best w task_id = elim (lookup task_id w.best) [ none ↦ [] | some files ↦ files ]
