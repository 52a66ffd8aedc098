-- ===== src/Planner.antt =====
-- services/rule_based_planner.py, with the agent of services/agent_registry.py.
pub mod Selection
use Prim.Native.String
use hungerloop.Prelude.{
  ℕ, zero, suc, min, String, Bool, Option, none, some, List, [], ◌∷◌, filter, ◌==◌, nat_eq, Floats,
  leb, if◌then◌else◌,
}
use hungerloop.Prelude.Sorting.{sort_by, head?}
use hungerloop.CheckKey.{print_index}
use hungerloop.Models.Hunger.{HungerItem, HungerLedger, HungerSnapshot, active_items}
use hungerloop.Models.Planning.{BudgetAllocation, Assignment, LoopPlan}
use hungerloop.Repository.{Repo, get_hunger_ledger}

abbrev pub execution_worker_v1_id : String
execution_worker_v1_id = "execution_worker_v1"

abbrev pub execution_worker_v1_tools : List String
execution_worker_v1_tools = "read_file" ∷ "write_file" ∷ "patch_file" ∷ "run_shell" ∷ []

-- `items[:n]`
unfoldable pub take : {A : Type 0} → ℕ → List A → List A
take n [] = []
take zero (x ∷ xs) = []
take (suc n) (x ∷ xs) = x ∷ take n xs

module _ {R : Type 0} ⦃fl : Floats R⦄ where
  unfoldable pub pressure_of : HungerItem R → R
  pressure_of item = fl.mul item.priority item.gap_score

  -- The order of `sorted(…, key=…, reverse=True)`, which keeps the order of equal keys.
  unfoldable pub presses_more : HungerItem R → HungerItem R → Bool
  presses_more a b = fl.le (pressure_of b) (pressure_of a)

  -- `min((item.refinement_tier for item in items), default=0)`
  unfoldable pub lowest_tier : List (HungerItem R) → ℕ
  lowest_tier [] = 0
  lowest_tier (item ∷ []) = item.refinement_tier
  lowest_tier (item ∷ next ∷ items) = min item.refinement_tier (lowest_tier (next ∷ items))

  unfoldable pub ranked_items : HungerLedger R → List (HungerItem R)
  ranked_items ledger =
      let active = active_items ledger in
      sort_by presses_more (filter (λ item. item.refinement_tier == lowest_tier active) active)

  -- The plan for the first of the selected items.
  unfoldable pub plan_for : String → ℕ → BudgetAllocation R → Option (HungerItem R) → LoopPlan
  plan_for task_id loop_id budget none = record {
    task_id = task_id;
    loop_id = loop_id;
    selected_hunger_item_ids = [];
    assignments = [];
    phase = budget.phase;
  }
  plan_for task_id loop_id budget (some item) = record {
    task_id = task_id;
    loop_id = loop_id;
    selected_hunger_item_ids = item.id ∷ [];
    assignments =
        record {
          assignment_id =
              String.◌++◌ "ASGN-"
                (String.◌++◌ task_id (String.◌++◌ "-" (String.◌++◌ (print_index loop_id) "-0")));
          agent_id = execution_worker_v1_id;
          target_hunger_item_ids = item.id ∷ [];
          target_feature_ids = [];
          allowed_tools = execution_worker_v1_tools;
          depends_on = [];
          max_retries = 0;
          retry_count = 0;
        }
        ∷ [];
    phase = budget.phase;
  }

  unfoldable pub plan : Repo R → String → ℕ → BudgetAllocation R → LoopPlan
  plan repo task_id loop_id budget = plan_for task_id loop_id budget (
      head?
        (take (min 1 budget.max_workers_per_loop) (ranked_items (get_hunger_ledger repo task_id))))
