-- ===== src/Repository.antt =====
-- repository/in_memory_repo.py and the `transaction` of repository/sqlite_repo.py: the store that
-- the services share, with the operations that the modelled services call. A dict is an
-- association list in insertion order. Objects are values: the services save what they change.

pub mod Missions
pub mod Transactions
use hungerloop.Prelude.{
  ℕ, suc, String, Bool, true, false, Option, none, some, List, [], ◌∷◌, ◌++◌, Dict, Floats, lookup,
  lookup_or, insert, values, filter, any, map, dedupe, contains, ◌&&◌, ◌||◌, not, ◌==◌, nat_eq,
  string_eq, pair_eq, if◌then◌else◌, float_zero, leb, ◌+◌, ◌≡◌, refl, ◌⊎◌, inl, inr,
}
use hungerloop.Prelude.Sorting.{sort_by}
use hungerloop.CheckKey.{item_of_key}
use hungerloop.Models.Enums.{
  DecayType, CompletionMode, MissionPhaseStatus, MissionFeatureStatus, RefactorTransactionStatus,
  is_open, is_done_phase, is_done_feature,
}
use hungerloop.Models.Hunger.{HungerItem, HungerLedger, HungerPolicy, HungerClockState}
use hungerloop.Models.Validation.{BestState, CandidateState, ValidationReport}
use hungerloop.Models.Refactor.{RefactorTransaction}
use hungerloop.Models.Mission.{MissionPhase, MissionFeature, Mission}
use hungerloop.Models.Worker.{WorkerHandoff}

-- The events of models/events.py that the modelled services append, with their payloads.
pub data EventBody : Type 0 where
  check_regression_disconfirmed : (check_key : String) (max_reruns : ℕ) → EventBody
  discovery_credit : (proposer check_key : String) (loop_id : ℕ) → EventBody
  mission_state_regeneration_failed : (candidate_state_id validation_report_id : String) → EventBody
  mission_phase : (phase_id : String) (previous_status new_status : MissionPhaseStatus) → EventBody
  mission_phase_completed : (phase_id : String) → EventBody
  refactor_txn_opened :
      (transaction_id : String) (deadline_loop : ℕ) (declared : List String) → EventBody
  refactor_txn_open_rejected : (declared : List String) (reason : String) → EventBody
  refactor_txn_closed_success : (transaction_id : String) (declared : List String) → EventBody
  refactor_txn_rolled_back :
      (transaction_id : String) (declared : List String) (reason : String) → EventBody
  refactor_txn_settle_failed : (transaction_id reason : String) → EventBody
  candidate_committed : (candidate_state_id validation_report_id : String) → EventBody
  candidate_rejected : (candidate_state_id validation_report_id reason : String) → EventBody
  mission_feature_completed :
      (mission_id phase_id feature_id assignment_id agent_id : String)
      → (target_hunger_item_ids target_feature_ids : List String) → EventBody
  empty_plan_rejected : (streak : ℕ) → EventBody
  global_stagnation_blocked : (no_progress_streak threshold : ℕ) → EventBody
  synth_check_conflict_ambiguous :
      (item_id : String) (attempted conflicting_check_keys : List String) → EventBody
  synth_check_conflict_detected :
      (item_id signature : String) (occurrence_count : ℕ) (conflicting_check_keys : List String)
      (quarantined : Bool)
      → EventBody
  synth_check_quarantined :
      (item_id signature : String) (conflicting_check_keys : List String) → EventBody
  lock_stolen : (prev_owner new_owner : String) → EventBody
  worker_assignment_started : (assignment_id : String) (attempt : ℕ) → EventBody
  worker_assignment_completed : (assignment_id handoff_id : String) → EventBody
  worker_assignment_failed : (assignment_id error_type handoff_id : String) → EventBody
  worker_assignment_retried : (assignment_id : String) (attempt : ℕ) → EventBody
  worker_assignment_skipped : (assignment_id blocked_by : String) → EventBody

pub record Event : Type 0 where
  pub body : EventBody
  pub task_id : String
  pub loop_id : Option ℕ

pub record AcceptedCheck : Type 0 where
  pub hunger_item_id : String
  pub check_index : ℕ
  pub accepted_at_loop : ℕ
  pub validation_id : String
  pub evidence_id : Option String

pub record TaskLock (R : Type 0) : Type 0 where
  pub owner : String
  pub locked_at : R

pub record Repo (R : Type 0) : Type 0 where
  pub policies : Dict String (HungerPolicy R)
  pub clocks : Dict String (HungerClockState R)
  pub ledgers : Dict String (HungerLedger R)
  pub hunger_items : Dict String (HungerItem R)
  pub best_states : Dict String BestState
  pub committed_refs : Dict String ℕ
  pub committed : List String
  pub rejected : List String
  pub failures : List ValidationReport
  pub accepted_checks : Dict (String × String) AcceptedCheck
  pub missions : Dict String (Mission R)
  pub mission_ids_by_task : Dict String String
  pub mission_phases : Dict String (MissionPhase R)
  pub phase_mission_ids : Dict String String
  pub mission_features : Dict String MissionFeature
  pub no_progress_streaks : Dict String ℕ
  pub task_locks : Dict String (TaskLock R)
  pub worker_handoffs : Dict String WorkerHandoff
  pub worker_handoff_order : List String
  pub events : List Event
  pub refactor_transactions : Dict String RefactorTransaction
  -- Whether `transaction` rolls back, as SQLite's does, or does nothing, as the in-memory one.
  pub rolls_back : Bool

-- What the repository raises.
pub data RepoError : Type 0 where
  key_error illegal_phase_transition value_error os_error file_not_found runtime_error : RepoError
  regeneration_failed : RepoError

-- The keys of `iter_accepted_checks`, in the order of insertion: the caller makes a set of them.
unfoldable pub accepted_check_keys_of : String → Dict (String × String) AcceptedCheck → List String
accepted_check_keys_of task_id [] = []
accepted_check_keys_of task_id (((rec_task, check_key), row) ∷ rows) =
    let rest = accepted_check_keys_of task_id rows in
    if rec_task == task_id then check_key ∷ rest else rest

module _ {R : Type 0} ⦃fl : Floats R⦄ where
  abbrev pub default_policy : HungerPolicy R
  default_policy = record {
    initial_hunger = fl.literal 100 1;
    h_max = fl.literal 100 1;
    decay_type = DecayType.loop_count;
    decay_duration_seconds = fl.literal 10 1;
    started_at = none;
    max_total_cost_usd = fl.literal 10 1;
    max_total_tokens = 1_000_000;
    completion_mode = CompletionMode.stop_on_done;
    max_refinement_tier = 0;
    respect_stagnation = true;
    regression_confirm_reruns = 2;
    rejected_candidate_continuation_enabled = false;
    refactor_transactions_enabled = false;
    max_declared_regressions = 5;
    refactor_deadline_loops = 3;
    max_global_no_progress_loops = 5;
    draft_sampling_k = 1;
    synthesis_conflict_threshold = 2;
  }

  abbrev pub default_clock : HungerClockState R
  default_clock = record {
    loop_count = 0;
    frozen = false;
    consumed_by_cost_usd = float_zero;
    consumed_tokens = 0;
    manually_cleared = false;
  }

  unfoldable pub get_hunger_policy : Repo R → String → HungerPolicy R
  unfolding lookup_or
  get_hunger_policy repo task_id = lookup_or default_policy task_id repo.policies

pub data Result {ℓ} (A : Type ℓ) : Type ℓ where
  return : A → Result A
  raise : RepoError → Result A

pub Result-cases {ℓ} :
    {A : Type ℓ} (r : Result A) → ((e : RepoError) × (r ≡ raise e)) ⊎ ((a : A) × (r ≡ return a))
Result-cases (return a) = inr (a, refl)
Result-cases (raise e) = inl (e, refl)

module _ {R : Type 0} where
  unfoldable pub get_hunger_ledger : Repo R → String → HungerLedger R
  unfolding lookup_or
  get_hunger_ledger repo task_id =
      lookup_or (record { task_id = task_id; items = [] }) task_id repo.ledgers

  save_items : List (HungerItem R) → Dict String (HungerItem R) → Dict String (HungerItem R)
  unfolding insert
  save_items [] d = d
  save_items (item ∷ items) d = save_items items (insert item.id item d)

  unfoldable pub save_hunger_ledger : String → HungerLedger R → Repo R → Repo R
  unfolding save_items insert
  save_hunger_ledger task_id ledger repo = record repo {
    ledgers = insert task_id ledger repo.ledgers;
    hunger_items = save_items ledger.items repo.hunger_items;
  }

  unfoldable pub get_hunger_items : Repo R → List String → List (HungerItem R)
  unfolding lookup
  get_hunger_items repo [] = []
  get_hunger_items repo (iid ∷ item_ids) = elim (lookup iid repo.hunger_items) [
    | none ↦ get_hunger_items repo item_ids
    | some item ↦ item ∷ get_hunger_items repo item_ids
  ]

  -- The set of item ids is read in the order of first occurrence.
  unfoldable pub get_items_for_check_keys : Repo R → List String → List (HungerItem R)
  unfolding get_hunger_items dedupe item_of_key
  get_items_for_check_keys repo check_keys =
      get_hunger_items repo (dedupe (map item_of_key check_keys))

  unfoldable pub get_best_state : Repo R → String → Option BestState
  unfolding lookup
  get_best_state repo task_id = lookup task_id repo.best_states

  unfoldable pub save_best_state : BestState → Repo R → Repo R
  save_best_state best repo = record repo {
    best_states = insert best.task_id best repo.best_states;
    committed_refs =
        insert best.state_id (lookup_or 0 best.state_id repo.committed_refs + 1)
          repo.committed_refs;
  }

  -- `set.add`
  unfoldable pub mark_candidate_committed : String → Repo R → Repo R
  mark_candidate_committed candidate_id repo = record repo {
    committed =
        if contains repo.committed candidate_id
        then repo.committed
        else candidate_id ∷ repo.committed;
  }

  unfoldable pub mark_candidate_rejected : String → Repo R → Repo R
  mark_candidate_rejected candidate_id repo = record repo {
    rejected =
        if contains repo.rejected candidate_id then repo.rejected else candidate_id ∷ repo.rejected;
  }

  unfoldable pub add_failure_from_validation : ValidationReport → Repo R → Repo R
  add_failure_from_validation report repo = record repo { failures = repo.failures ++ report ∷ [] }

  unfoldable pub save_accepted_check : String → String → AcceptedCheck → Repo R → Repo R
  unfolding insert
  save_accepted_check task_id check_key row repo = record repo {
    accepted_checks = insert (task_id, check_key) row repo.accepted_checks;
  }

  unfoldable pub append_event : EventBody → String → Option ℕ → Repo R → Repo R
  append_event body task_id loop_id repo = record repo {
    events = repo.events ++ record { body = body; task_id = task_id; loop_id = loop_id } ∷ [];
  }

  unfoldable pub reset_no_progress_streak : String → Repo R → Repo R
  unfolding insert
  reset_no_progress_streak task_id repo = record repo {
    no_progress_streaks = insert task_id 0 repo.no_progress_streaks;
  }

  unfoldable pub increment_no_progress_streak : String → Repo R → ℕ × Repo R
  unfolding insert lookup_or
  increment_no_progress_streak task_id repo =
      let current = lookup_or 0 task_id repo.no_progress_streaks in
      (
        current + 1,
        record repo { no_progress_streaks = insert task_id (current + 1) repo.no_progress_streaks },
      )
