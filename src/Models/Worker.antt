-- ===== src/Models/Worker.antt =====
-- models/worker.py, without the prose fields of a handoff and its items.
use hungerloop.Prelude.{ℕ, String, Bool, Option, List}

pub record WorkerHandoff : Type 0 where
  pub agent_id : String
  pub task_id : String
  pub loop_id : ℕ
  pub summary : String
  pub artifact_ids : List String
  pub evidence_ids : List String
  pub claim_ids : List String
  pub error : Option String
  pub error_type : Option String
  pub requires_human : Bool
  pub retryable : Bool
  pub handoff_id : Option String
  pub assignment_id : Option String
  pub retry_count : ℕ
