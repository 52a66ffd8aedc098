-- ===== src/Samples/Loops.antt =====
-- Examples of loops whose candidates are rejected.
use hungerloop.Prelude.{
  ℕ, String, Bool, true, false, none, some, List, [], ◌∷◌, milli, milli-IsOrdered, nat_eq,
  string_eq, pair_eq,
}
use hungerloop.Models.Enums.{ValidationVerdict}
use hungerloop.Models.Planning.{Assignment}
use hungerloop.Models.Validation.{ValidationReport}
use hungerloop.Repository.{Repo}
use hungerloop.CommitManager.{World}
use hungerloop.Stagnation.{StagnationDetector, default_detector}
use hungerloop.Orchestrator.{LoopInput, LoopResult, decide_loop, handle_empty_plan}
use hungerloop.Samples.{policy, candidate, good_report, world, environment}

abbrev failed_report : ValidationReport
failed_report = record good_report { verdict = ValidationVerdict.fail }

abbrev sha256 : String → String
sha256 s = s

abbrev detector : StagnationDetector
detector = record { max_item_failures = 10; max_global_no_progress = 2 }

-- After a loop with an empty plan.
abbrev idle_world : World ℕ
idle_world = (handle_empty_plan detector "t" 1 world).1

abbrev assignment : Assignment
assignment = record {
  assignment_id = "a";
  agent_id = "w";
  target_hunger_item_ids = "A" ∷ [];
  target_feature_ids = [];
  allowed_tools = [];
  depends_on = [];
  max_retries = 1;
  retry_count = 0;
}

abbrev input : LoopInput ℕ
input = record {
  candidate = candidate;
  report = failed_report;
  mission = none;
  assignments = assignment ∷ [];
  skipped_ids = [];
}

-- The decision of the loop, and what it leaves.
abbrev concluded : LoopResult
concluded = record {
  decision = record {
    committed = false;
    reason = "verdict_fail";
    verdict = ValidationVerdict.fail;
  };
  effective = record failed_report {
    newly_passed_check_keys = [];
    satisfied_hunger_item_ids = [];
    has_real_progress = false;
  };
  conflicts = [];
  stagnation = record { blocked_items = []; global_blocked = true; no_progress_streak = some 2 };
}

abbrev after_loop : World ℕ
after_loop = (decide_loop detector policy sha256 (environment false) input idle_world).1
