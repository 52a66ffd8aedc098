-- ===== src/Budgets.antt =====
-- services/budget_guard.py, services/cost_guard.py and services/budget_allocator.py: what a worker
-- may spend in one loop, what a task may spend at all, and the caps of each phase.
pub mod Guard
pub mod Cost
use hungerloop.Prelude.{
  ℕ, ◌+◌, String, Bool, true, false, Option, none, some, ◌==◌, string_eq, nat_eq, pair_eq,
  if◌then◌else◌, ltb, leb, Dict, lookup, lookup_or, insert, remove, Floats, float_zero, not,
}
use hungerloop.Models.Enums.{LoopPhase}
use hungerloop.Models.Hunger.{HungerPolicy, HungerClockState, HungerSnapshot}
use hungerloop.Models.Planning.{BudgetAllocation, ModelUsage, ContextPack}
use hungerloop.Repository.{Repo, get_hunger_policy, default_clock}

pub record BudgetUsage (R : Type 0) : Type 0 where
  pub tokens : ℕ
  pub tool_calls : ℕ
  pub llm_calls : ℕ
  pub elapsed_seconds : R

-- The `_usage` of the guard, by task, loop and agent.
abbrev pub Usages : Type 0 → Type 0
Usages R = Dict ((String × ℕ) × String) (BudgetUsage R)

-- The axis on which an assertion fails.
pub data Exceeded : Type 0 where
  over_tokens over_tool_calls over_llm_calls : Exceeded

abbrev pub llm_call_ceiling : ℕ
llm_call_ceiling = 999_999

abbrev pub key_of : {R : Type 0} → ContextPack R → (String × ℕ) × String
key_of context = ((context.task_id, context.loop_id), context.agent_id)

module _ {R : Type 0} where
  unfoldable pub reset : (String × ℕ) × String → Usages R → Usages R
  reset key usages = remove key usages

module _ {R : Type 0} ⦃fl : Floats R⦄ where
  abbrev pub no_usage : BudgetUsage R
  no_usage = record { tokens = 0; tool_calls = 0; llm_calls = 0; elapsed_seconds = float_zero }

  unfoldable pub usage_for : (String × ℕ) × String → Usages R → BudgetUsage R
  usage_for key usages = lookup_or no_usage key usages

  unfoldable pub record_usage : (String × ℕ) × String → BudgetUsage R → Usages R → Usages R
  record_usage key delta usages =
      let cur = usage_for key usages in
      insert key
        (record {
          tokens = cur.tokens + delta.tokens;
          tool_calls = cur.tool_calls + delta.tool_calls;
          llm_calls = cur.llm_calls + delta.llm_calls;
          elapsed_seconds = fl.add cur.elapsed_seconds delta.elapsed_seconds;
        })
        usages

  -- The axis of the exception, or none.
  unfoldable pub assert_can_spend : ContextPack R → ℕ → ℕ → ℕ → Usages R → Option Exceeded
  assert_can_spend context addl_tokens addl_tool_calls addl_llm_calls usages =
      let cur = usage_for (key_of context) usages in
      if ltb context.budget.max_tokens (cur.tokens + addl_tokens)
      then some Exceeded.over_tokens
      else if ltb context.budget.max_tool_calls (cur.tool_calls + addl_tool_calls)
      then some Exceeded.over_tool_calls
      else if ltb llm_call_ceiling (cur.llm_calls + addl_llm_calls)
      then some Exceeded.over_llm_calls
      else none

  -- Whether `assert_within_budget` raises a SafetyStopError.
  unfoldable pub is_over_budget : Repo R → String → Bool
  is_over_budget repo task_id =
      let policy = get_hunger_policy repo task_id in
      let clock = lookup_or default_clock task_id repo.clocks in
      if fl.le policy.max_total_cost_usd clock.consumed_by_cost_usd
      then true
      else if leb policy.max_total_tokens clock.consumed_tokens
      then true
      else false

  -- `get_hunger_clock`: a missing clock is made and stored.
  unfoldable pub get_hunger_clock : String → Repo R → HungerClockState R × Repo R
  get_hunger_clock task_id repo = elim (lookup task_id repo.clocks) [
    | none ↦ (default_clock, record repo { clocks = insert task_id default_clock repo.clocks })
    | some clock ↦ (clock, repo)
  ]

  -- The clock is changed in place and saved, and the ceilings are checked: whether it raises.
  unfoldable pub record_tool_cost : String → R → ℕ → Repo R → Bool × Repo R
  record_tool_cost task_id cost_usd tokens repo =
      let (clock, found) = get_hunger_clock task_id repo in
      let spent = record clock {
        consumed_tokens = clock.consumed_tokens + tokens;
        consumed_by_cost_usd = fl.add clock.consumed_by_cost_usd cost_usd;
      } in
      let saved = record found { clocks = insert task_id spent found.clocks } in
      (is_over_budget saved task_id, saved)

  unfoldable pub record_llm_usage : String → ModelUsage R → Repo R → Bool × Repo R
  record_llm_usage task_id usage repo =
      record_tool_cost task_id usage.cost_usd (usage.input_tokens + usage.output_tokens) repo

  -- The defaults of the constructor.
  unfoldable pub allocate : HungerSnapshot R → BudgetAllocation R
  allocate snapshot = record {
    phase = snapshot.phase;
    max_tokens = (elim snapshot.phase [ LoopPhase.cooldown ↦ 8000 | _ ↦ 60000 ]);
    max_tool_calls = (elim snapshot.phase [
      | LoopPhase.explore ↦ 80
      | LoopPhase.exploit ↦ 60
      | LoopPhase.cooldown ↦ 8
    ]);
    max_wall_clock_seconds = (elim snapshot.phase [
      | LoopPhase.explore ↦ 900
      | LoopPhase.exploit ↦ 600
      | LoopPhase.cooldown ↦ 180
    ]);
    max_workers_per_loop = 1;
    max_model_retries = 4;
    retry_base_delay_seconds = fl.literal 1 1;
    retry_max_delay_seconds = fl.literal 20 1;
    allow_shell = true;
    allow_file_write = true;
    allow_network = false;
  }
