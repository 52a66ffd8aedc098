-- ===== src/Models/Planning.antt =====
-- models/planning.py, models/usage.py and the budget of models/context.py. The prose of a mission
-- and of a rationale is left out.
use hungerloop.Prelude.{ℕ, String, Bool, List}
use hungerloop.Models.Enums.{LoopPhase}

pub record BudgetAllocation (R : Type 0) : Type 0 where
  pub phase : LoopPhase
  pub max_tokens : ℕ
  pub max_tool_calls : ℕ
  pub max_wall_clock_seconds : ℕ
  pub max_workers_per_loop : ℕ
  pub max_model_retries : ℕ
  pub retry_base_delay_seconds : R
  pub retry_max_delay_seconds : R
  pub allow_shell : Bool
  pub allow_file_write : Bool
  pub allow_network : Bool

pub record Assignment : Type 0 where
  pub assignment_id : String
  pub agent_id : String
  pub target_hunger_item_ids : List String
  pub target_feature_ids : List String
  pub allowed_tools : List String
  pub depends_on : List String
  pub max_retries : ℕ
  pub retry_count : ℕ

pub record LoopPlan : Type 0 where
  pub task_id : String
  pub loop_id : ℕ
  pub selected_hunger_item_ids : List String
  pub assignments : List Assignment
  pub phase : LoopPhase

pub record ModelUsage (R : Type 0) : Type 0 where
  pub input_tokens : ℕ
  pub output_tokens : ℕ
  pub cost_usd : R

-- What the guard of a worker's budget reads of a context pack.
pub record ContextPack (R : Type 0) : Type 0 where
  pub task_id : String
  pub loop_id : ℕ
  pub agent_id : String
  pub budget : BudgetAllocation R
