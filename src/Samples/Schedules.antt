-- ===== src/Samples/Schedules.antt =====
-- Examples of the scheduler: "b" depends on "a", and comes first.
use hungerloop.Prelude.{
  ℕ, String, true, false, none, some, List, [], ◌∷◌, ◌≡◌, ◌↔◌, arith, milli, nodup, string_eq,
  Returns,
}
use hungerloop.Models.Planning.{Assignment}
use hungerloop.Scheduler.{contains_cycle, topologically_order_assignments, ids_of}
use hungerloop.Scheduler.Cycle.{IsRanking, contains_cycle_iff}
use hungerloop.Scheduler.Order.{IsOrder, topologically_order_assignments_lem}
use hungerloop.Scheduler.Execution.{RunOutcome, Runtime, run_assignment_with_retries}
use hungerloop.Scheduler.Retries.{IsLast, run_assignment_with_retries_lem}
use hungerloop.Samples.{repo}

abbrev assignment : String → List String → Assignment
assignment assignment_id depends_on = record {
  assignment_id = assignment_id;
  agent_id = "w1";
  target_hunger_item_ids = "A" ∷ [];
  target_feature_ids = [];
  allowed_tools = [];
  depends_on = depends_on;
  max_retries = 1;
  retry_count = 0;
}

abbrev two : List Assignment
two = assignment "b" ("a" ∷ []) ∷ assignment "a" [] ∷ []

-- A worker that always fails, and says that it may be retried.
abbrev failing : Runtime ℕ
failing a r = (
  RunOutcome.handed (record {
    agent_id = "w1";
    task_id = "t";
    loop_id = 1;
    summary = "";
    artifact_ids = [];
    evidence_ids = [];
    claim_ids = [];
    error = some "no";
    error_type = none;
    requires_human = false;
    retryable = true;
    handoff_id = none;
    assignment_id = none;
    retry_count = 0;
  }),
  r,
)

topological_example : Returns (IsOrder two) (topologically_order_assignments two)
topological_example = topologically_order_assignments_lem two

cycle_example :
    (contains_cycle two ≡ false)
    ↔ ((nodup (ids_of two) ≡ true) × ((rank : String → ℕ) × IsRanking two rank))
cycle_example = contains_cycle_iff two

retries_example :
    IsLast
      (assignment "a" [])
      (run_assignment_with_retries failing "t" 1 2 (assignment "a" []) repo).0
retries_example =
    run_assignment_with_retries_lem failing "t" 1 2 (assignment "a" []) repo (ground arith)
