-- ===== src/Samples/Limits.antt =====
-- Examples of the budgets, the planner and the locks.
use hungerloop.Prelude.{
  ℕ, String, Bool, true, false, none, some, List, [], ◌∷◌, nat_eq, string_eq, pair_eq, ◌≡◌, ◌↔◌,
  refl, arith, milli, milli-IsOrdered, AllOf, lookup_or,
}
use hungerloop.Models.Enums.{LoopPhase, StopReason}
use hungerloop.Models.Hunger.{HungerSnapshot}
use hungerloop.Models.Planning.{BudgetAllocation, ContextPack, ModelUsage}
use hungerloop.Repository.{
  Repo, Result, return, raise, TaskLock, get_hunger_ledger, get_hunger_policy,
}
use hungerloop.PhaseMachine.{advance_mission_phases, is_validating}
use hungerloop.HungerEngine.{tick, tick_mission}
use hungerloop.Budgets.{
  Exceeded, BudgetUsage, Usages, no_usage, reset, usage_for, allocate, record_llm_usage,
}
use hungerloop.Budgets.Guard.{Turn, run_worker}
use hungerloop.Budgets.Cost.{clock_of, guard_agrees_with_tick}
use hungerloop.Planner.{plan}
use hungerloop.Planner.Selection.{IsPlan, plan-IsPlan}
use hungerloop.TaskLocks.{get_task_lock, same_host_pid, acquire_task_lock}
use hungerloop.TaskLocks.Exclusion.{LockOp, run_ops, may_run, lock_exclusive}
use hungerloop.Samples.{repo, ledger}

abbrev budget : BudgetAllocation ℕ
budget = record {
  phase = LoopPhase.cooldown;
  max_tokens = 8000;
  max_tool_calls = 8;
  max_wall_clock_seconds = 180;
  max_workers_per_loop = 1;
  max_model_retries = 4;
  retry_base_delay_seconds = 1000;
  retry_max_delay_seconds = 20000;
  allow_shell = true;
  allow_file_write = true;
  allow_network = false;
}

abbrev context : ContextPack ℕ
context = record { task_id = "t"; loop_id = 2; agent_id = "w1"; budget = budget }

-- The second model call passes the budget of tokens.
abbrev turns : List (Turn ℕ)
turns =
    record { tokens = 7000; tool_seconds = 40 ∷ 9 ∷ [] }
    ∷ record { tokens = 6500; tool_seconds = 5 ∷ [] }
    ∷ []

run_worker-refuses : (run_worker context turns []).0 ≡ some Exceeded.over_tokens
unfolding run_worker hungerloop.Budgets.Guard.run_turns hungerloop.Budgets.assert_can_spend
    usage_for lookup_or reset hungerloop.Prelude.remove hungerloop.Budgets.record_usage
    hungerloop.Prelude.insert hungerloop.Budgets.Guard.run_tools
run_worker-refuses = refl

abbrev usage : ModelUsage ℕ
usage = record { input_tokens = 900_000; output_tokens = 200_000; cost_usd = 0 }

-- The repository after the call.
abbrev charged : Repo ℕ
charged = (record_llm_usage "t" usage repo).1

not_frozen : (clock_of charged "t").frozen ≡ false
unfolding lookup_or record_llm_usage hungerloop.Budgets.record_tool_cost hungerloop.Prelude.insert
    hungerloop.Budgets.get_hunger_clock
not_frozen = refl

abbrev next_tick : Result (HungerSnapshot ℕ × Repo ℕ)
next_tick =
    tick_mission charged (get_hunger_policy charged "t") (clock_of charged "t") ledger none 0 "t"
      none none

abbrev next_snapshot : HungerSnapshot ℕ
next_snapshot = elim next_tick [
  | raise _ ↦ tick (get_hunger_policy charged "t") (clock_of charged "t") ledger none 0
  | return (s, _) ↦ s
]

next_tick-advance : advance_mission_phases charged "t" none none 0 ≡ return (none, charged)
unfolding advance_mission_phases record_llm_usage hungerloop.Budgets.record_tool_cost
    hungerloop.Budgets.get_hunger_clock
next_tick-advance = refl

next_tick-returns :
    tick_mission charged
      (get_hunger_policy charged "t")
      (clock_of charged "t")
      ledger
      none
      0
      "t"
      none
      none
    ≡ return (next_snapshot, charged)
unfolding advance_mission_phases tick_mission record_llm_usage hungerloop.Budgets.record_tool_cost
    hungerloop.Budgets.get_hunger_clock
next_tick-returns = refl

guard_agrees_example :
    ((next_snapshot.stop_reason ≡ some StopReason.safety_stop)
      ↔ (((record_llm_usage "t" usage repo).0 ≡ true) × (is_validating none ≡ false)))
    × (is_validating none ≡ true → next_snapshot.should_stop ≡ false)
guard_agrees_example =
    guard_agrees_with_tick "t" usage repo charged charged ledger none 0 none none next_snapshot none
      not_frozen next_tick-advance next_tick-returns

plan_example : IsPlan milli-IsOrdered (get_hunger_ledger repo "t") (plan repo "t" 3 budget)
plan_example = plan-IsPlan milli-IsOrdered repo "t" 3 budget (ground arith)

abbrev lock : TaskLock ℕ
lock = record { owner = "host:1:x"; locked_at = 0 }

abbrev locked_repo : Repo ℕ
locked_repo = record repo { task_locks = ("t", lock) ∷ [] }

-- Another process tries, even on a stale lock, and releases what it does not hold.
abbrev ops : List (LockOp ℕ)
ops =
    LockOp.acquire "host:2:y" 10 false 5
    ∷ LockOp.acquire "host:2:z" 10 false 50
    ∷ LockOp.release "host:2:z"
    ∷ []

held : get_task_lock locked_repo "t" ≡ some lock
unfolding get_task_lock hungerloop.Prelude.lookup
held = refl

lock_exclusive_example :
    (get_task_lock (run_ops "t" ops locked_repo) "t" ≡ some lock)
    × ((owner : String) (stale_threshold now : ℕ)
        → same_host_pid lock.owner owner ≡ false
        → may_run
            (acquire_task_lock "t" owner stale_threshold false now (run_ops "t" ops locked_repo)).0
          ≡ false)
lock_exclusive_example = lock_exclusive "t" lock ops locked_repo held (refl, (refl, (refl, tt)))
