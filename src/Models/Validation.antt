-- ===== src/Models/Validation.antt =====
-- models/validation.py and models/blackboard.py. The score fields and the prose of `regressions` and
-- `recommended_next_actions`, which nothing modelled here reads, are
-- left out, except `CandidateEvaluation`'s (services/commit_selection.py).
use hungerloop.Prelude.{ℕ, String, Bool, Option, List}
use hungerloop.Models.Enums.{AcceptanceCheckType, ValidationVerdict}

pub record CheckResult : Type 0 where
  pub hunger_item_id : String
  pub check_index : ℕ
  pub check_key : String
  pub check_type : AcceptanceCheckType
  pub passed : Bool
  pub previously_passed : Bool
  pub newly_passed : Bool
  pub regressed : Bool
  pub detail : String
  pub evidence_id : Option String
  pub workspace_ref : Option String

pub record ValidationReport : Type 0 where
  pub id : String
  pub task_id : String
  pub loop_id : ℕ
  pub candidate_state_id : String
  pub baseline_state_id : Option String
  pub verdict : ValidationVerdict
  pub attempted_hunger_item_ids : List String
  pub check_results : List CheckResult
  pub currently_passed_check_keys : List String
  pub newly_passed_check_keys : List String
  pub regressed_check_keys : List String
  pub attempted_check_keys : List String
  pub satisfied_hunger_item_ids : List String
  pub unsatisfied_hunger_item_ids : List String
  pub evidence_ids : List String
  pub missing_evidence : List String
  pub has_real_progress : Bool

pub record BestState : Type 0 where
  pub task_id : String
  pub state_id : String
  pub summary : String
  pub artifact_ids : List String
  pub evidence_ids : List String
  pub validation_id : Option String
  pub updated_at_loop : ℕ
  pub accepted_check_keys : List String
  pub workspace_ref : String

pub record CandidateState : Type 0 where
  pub id : String
  pub task_id : String
  pub loop_id : ℕ
  pub summary : String
  pub artifact_ids : List String
  pub claim_ids : List String
  pub evidence_ids : List String
  pub workspace_ref : String
