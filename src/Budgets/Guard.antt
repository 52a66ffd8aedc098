-- ===== src/Budgets/Guard.antt =====
-- services/budget_guard.py: a worker that asks before each call stays within its budget.
use hungerloop.Prelude.{
  ℕ, zero, suc, max, float_zero, Option, ◌+◌, ◌≤◌, none, some, List, [], ◌∷◌, string_eq, nat_eq,
  pair_eq, Floats, ◌≡◌, ◌↔◌, arith,
}
use hungerloop.Models.Planning.{ContextPack}
use hungerloop.Budgets.{
  Exceeded, BudgetUsage, Usages, llm_call_ceiling, key_of, reset, usage_for, record_usage,
  assert_can_spend,
}

-- One turn of a worker: the tokens that its model call used, and the seconds of each tool call that
-- the answer asked for.
pub record Turn (R : Type 0) : Type 0 where
  pub tokens : ℕ
  pub tool_seconds : List R

-- `MAX_SELF_REPAIR_ITERATIONS + 1`
abbrev pub max_turns : ℕ
max_turns = 6

module _ {R : Type 0} ⦃fl : Floats R⦄ (context : ContextPack R) where
  -- The tool calls of a turn, each asked for and then recorded, up to the first refusal.
  unfoldable pub run_tools : List R → Usages R → Option Exceeded × Usages R
  run_tools [] usages = (none, usages)
  run_tools (seconds ∷ rest) usages =
      let recorded =
        record_usage (key_of context)
          (record { tokens = 0; tool_calls = 1; llm_calls = 0; elapsed_seconds = seconds })
          usages in
      let later = run_tools rest recorded in
      elim (assert_can_spend context 0 1 0 usages) [
        | some axis ↦ (some axis, usages)
        | none ↦ later
      ]

  abbrev model_call : Turn R → Usages R → Usages R
  model_call turn usages =
      record_usage (key_of context)
        (record {
          tokens = turn.tokens;
          tool_calls = 0;
          llm_calls = 1;
          elapsed_seconds = float_zero;
        })
        usages

  -- The turns of a worker: a model call is asked for without its tokens, which are recorded after it.
  unfoldable pub run_turns : ℕ → List (Turn R) → Usages R → Option Exceeded × Usages R
  run_turns zero turns usages = (none, usages)
  run_turns (suc left) [] usages = (none, usages)
  run_turns (suc left) (turn ∷ turns) usages =
      let called = model_call turn usages in
      let (refused, used) = run_tools turn.tool_seconds called in
      let later = run_turns left turns used in
      elim (assert_can_spend context 0 0 1 usages) [
        | some axis ↦ (some axis, usages)
        | none ↦ elim (assert_can_spend context 0 0 0 called) [
          | some axis ↦ (some axis, called)
          | none ↦ elim refused [ some axis ↦ (some axis, used) | none ↦ later ]
        ]
      ]

  -- A worker's run, after the runtime has reset its usage.
  unfoldable pub run_worker : List (Turn R) → Usages R → Option Exceeded × Usages R
  run_worker turns usages = run_turns max_turns turns (reset (key_of context) usages)

  abbrev pub largest : List (Turn R) → ℕ
  largest [] = 0
  largest (turn ∷ turns) = max turn.tokens (largest turns)

  -- The guard accepts exactly what stays within every limit.
  pub assert_can_spend_iff :
      (tokens tool_calls llm_calls : ℕ) (usages : Usages R)
      → (assert_can_spend context tokens tool_calls llm_calls usages ≡ none) ↔ (
          ((usage_for (key_of context) usages).tokens + tokens ≤ context.budget.max_tokens)
          × ((usage_for (key_of context) usages).tool_calls + tool_calls
              ≤ context.budget.max_tool_calls)
          × ((usage_for (key_of context) usages).llm_calls + llm_calls ≤ llm_call_ceiling))
  unfolding assert_can_spend
  assert_can_spend_iff tokens tool_calls llm_calls usages = ground arith

  abbrev pub used_by : Usages R → BudgetUsage R
  used_by usages = usage_for (key_of context) usages

  -- Within the limits of tokens and tools.
  record IsWithin (usages : Usages R) : Type 0 where
    pub tokens : (used_by usages).tokens ≤ context.budget.max_tokens
    pub tool_calls : (used_by usages).tool_calls ≤ context.budget.max_tool_calls

  -- Tool calls keep the limits, the tokens and the model calls.
  record AreTools (before after : Usages R) : Type 0 where
    pub tokens : (used_by after).tokens ≡ (used_by before).tokens
    pub llm_calls : (used_by after).llm_calls ≡ (used_by before).llm_calls
    pub tool_calls : (used_by after).tool_calls ≤ context.budget.max_tool_calls

  -- What so many turns leave.
  pub record IsBounded (left : ℕ) (turns : List (Turn R)) (before : Usages R)
      (outcome : Option Exceeded × Usages R) : Type 0 where
    pub tool_calls : (used_by outcome.1).tool_calls ≤ context.budget.max_tool_calls
    pub llm_calls : (used_by outcome.1).llm_calls ≤ (used_by before).llm_calls + left
    pub tokens : (used_by outcome.1).tokens ≤ context.budget.max_tokens + largest turns
    pub unrefused : outcome.0 ≡ none → (used_by outcome.1).tokens ≤ context.budget.max_tokens
