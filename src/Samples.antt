-- ===== src/Samples.antt =====
-- The data of the examples: a small task "t" with one item, two of its checks, and a candidate.
pub mod Commits
pub mod Gates
pub mod Refactors
pub mod Engines
pub mod Choices
pub mod Keys
pub mod Proposals
pub mod Schedules
pub mod Loops
pub mod Ledgers
pub mod Limits
use hungerloop.Prelude.{
  ℕ, String, Bool, true, false, Option, none, some, List, [], ◌∷◌, milli, nat_eq, string_eq, Dict,
}
use hungerloop.Models.Enums.{
  AcceptanceCheckType, HungerItemType, HungerItemStatus, AcceptanceMode, MissionPhaseStatus,
  MissionFeatureStatus, ValidationVerdict,
}
use hungerloop.Models.Hunger.{AcceptanceCheck, HungerItem, HungerLedger, HungerPolicy}
use hungerloop.Models.Validation.{BestState, CandidateState, ValidationReport}
use hungerloop.Models.Mission.{MissionPhase, Mission}
use hungerloop.Repository.{Repo, default_policy, Event}
use hungerloop.ValidationGate.{Runner}
use hungerloop.Workspace.{Files, Workspace, Faults}
use hungerloop.CommitManager.{Environment, World}

abbrev pub a_check : AcceptanceCheck
a_check = record {
  check_type = AcceptanceCheckType.file_exists;
  params = [];
  description = "the file is there";
}

abbrev pub item : HungerItem ℕ
item = record {
  id = "A";
  title = "first";
  item_type = HungerItemType.goal_gap;
  priority = 1000;
  gap_score = 1000;
  status = HungerItemStatus.opened;
  acceptance_checks = a_check ∷ a_check ∷ [];
  acceptance_mode = AcceptanceMode.every;
  consecutive_failure_count = 0;
  last_progress_loop_id = none;
  evidence_ids = [];
  updated_at_loop = 0;
  refinement_tier = 0;
  refinement_kind = "core";
  generated_by = some "worker:w1";
  source_check_keys = [];
  synthesis_baseline_pending = false;
  synthesis_conflict_signatures = [];
  synthesis_resolution_kind = none;
  synthesis_resolution_reason = none;
}

abbrev pub ledger : HungerLedger ℕ
ledger = record { task_id = "t"; items = item ∷ [] }

abbrev pub policy : HungerPolicy ℕ
policy = record default_policy { refactor_transactions_enabled = true }

abbrev pub best : BestState
best = record {
  task_id = "t";
  state_id = "S1";
  summary = "";
  artifact_ids = [];
  evidence_ids = [];
  validation_id = none;
  updated_at_loop = 1;
  accepted_check_keys = "A:0" ∷ [];
  workspace_ref = "best";
}

abbrev pub candidate : CandidateState
candidate = record {
  id = "S2";
  task_id = "t";
  loop_id = 2;
  summary = "";
  artifact_ids = [];
  claim_ids = [];
  evidence_ids = "E1" ∷ [];
  workspace_ref = "candidates/loop_002";
}

abbrev pub repo : Repo ℕ
repo = record {
  policies = ("t", policy) ∷ [];
  clocks = [];
  ledgers = ("t", ledger) ∷ [];
  hunger_items = ("A", item) ∷ [];
  best_states = ("t", best) ∷ [];
  committed_refs = [];
  committed = [];
  rejected = [];
  failures = [];
  accepted_checks = [];
  missions = [];
  mission_ids_by_task = [];
  mission_phases = [];
  phase_mission_ids = [];
  mission_features = [];
  no_progress_streaks = [];
  task_locks = [];
  worker_handoffs = [];
  worker_handoff_order = [];
  events = [];
  refactor_transactions = [];
  rolls_back = true;
}

abbrev pub phase : MissionPhase ℕ
phase = record {
  phase_id = "P1";
  title = "";
  description = "";
  feature_ids = [];
  validation_contract_ids = [];
  status = MissionPhaseStatus.done;
  completed_at = some 7;
}

abbrev pub mission : Mission ℕ
mission = record {
  mission_id = "M";
  task_id = "t";
  title = "";
  description = "";
  phases = phase ∷ [];
  features = [];
  max_parallel_features = none;
}

-- The task with a mission of one phase.
abbrev pub mission_repo : Repo ℕ
mission_repo = record repo {
  missions = ("M", mission) ∷ [];
  mission_ids_by_task = ("t", "M") ∷ [];
  mission_phases = ("P1", phase) ∷ [];
  phase_mission_ids = ("P1", "M") ∷ [];
}

abbrev pub old_files : Files
old_files = ("a.txt", "old") ∷ []

abbrev pub new_files : Files
new_files = ("a.txt", "new") ∷ []

abbrev pub workspace : Workspace
workspace = record {
  best = ("t", old_files) ∷ [];
  best_manifest = [];
  candidates = (("t", 2), new_files) ∷ [];
  rejected = [];
  staging = [];
  old = [];
  snapshots = [];
}

abbrev pub no_faults : Faults
no_faults = record {
  copytree = false;
  rename_best = false;
  rename_staging = false;
  rename_back = false;
  manifest = false;
}

-- A regeneration that adds a file, and one that fails after it added the file.
abbrev pub environment : Bool → Environment ℕ
environment fails = record {
  faults = no_faults;
  final_manifest = false;
  regenerate = λ repo task_id files. (fails, [], ("MISSION.md", "") ∷ files);
}

abbrev pub world : World ℕ
world = record { repo = repo; workspace = workspace }

abbrev pub mission_world : World ℕ
mission_world = record { repo = mission_repo; workspace = workspace }

-- Every check passes, with evidence.
abbrev pub all_pass : Runner
all_pass check n = record { raised = false; passed = true; detail = ""; evidence_id = some "E2" }

-- A report that passes the second check.
abbrev pub good_report : ValidationReport
good_report = record {
  id = "V";
  task_id = "t";
  loop_id = 2;
  candidate_state_id = "S2";
  baseline_state_id = some "S1";
  verdict = ValidationVerdict.pass;
  attempted_hunger_item_ids = "A" ∷ [];
  check_results = [];
  currently_passed_check_keys = "A:0" ∷ "A:1" ∷ [];
  newly_passed_check_keys = "A:1" ∷ [];
  regressed_check_keys = [];
  attempted_check_keys = "A:1" ∷ [];
  satisfied_hunger_item_ids = "A" ∷ [];
  unsatisfied_hunger_item_ids = [];
  evidence_ids = "E1" ∷ [];
  missing_evidence = [];
  has_real_progress = true;
}
