-- ===== src/Budgets/Cost.antt =====
-- services/cost_guard.py: the ceilings of a task, and how they agree with the engine's safety stop.
use hungerloop.Prelude.{
  ℕ, ◌+◌, ◌<◌, sym, String, true, false, Option, some, List, [], ◌∷◌, ◌||◌, ◌==◌, string_eq,
  if◌then◌else◌, leb, lookup_or, insert, lookup-insert, Floats, ◌≡◌, refl, ◌↔◌, arith, eq_iff, ◌∙◌,
  Dict,
}
use hungerloop.Models.Enums.{StopReason, LoopPhase, MissionPhaseStatus}
use hungerloop.Models.Hunger.{HungerClockState, HungerLedger, HungerPolicy, HungerSnapshot}
use hungerloop.Models.Planning.{ModelUsage}
use hungerloop.Repository.{Repo, return, get_hunger_policy, default_clock}
use hungerloop.PhaseMachine.{PipelineResult, advance_mission_phases, is_validating}
use hungerloop.HungerEngine.{tick_mission, drive_budget_of}
use hungerloop.HungerEngine.Stops.{tick_priority, mission_only_clears, holds_for, rank}
use hungerloop.Budgets.{is_over_budget, get_hunger_clock, record_tool_cost, record_llm_usage}

module _ {R : Type 0} ⦃fl : Floats R⦄ where
  abbrev pub clock_of : Repo R → String → HungerClockState R
  clock_of repo task_id = lookup_or default_clock task_id repo.clocks

  -- The model calls of a task, one after the other; the last answer of the guard.
  unfoldable pub record_all : String → List (ModelUsage R) → Repo R → Repo R
  record_all task_id [] repo = repo
  record_all task_id (usage ∷ usages) repo =
      record_all task_id usages (record_llm_usage task_id usage repo).1

  unfoldable pub total_tokens : List (ModelUsage R) → ℕ
  total_tokens [] = 0
  total_tokens (usage ∷ usages) = usage.input_tokens + usage.output_tokens + total_tokens usages

  get_hunger_clock-value :
      (task_id : String) (repo : Repo R) → (get_hunger_clock task_id repo).0 ≡ clock_of repo task_id
  unfolding get_hunger_clock lookup_or
  get_hunger_clock-value task_id repo = ground arith

  get_hunger_clock-clocks :
      (task_id t : String) (repo : Repo R)
      → clock_of (get_hunger_clock task_id repo).1 t ≡ clock_of repo t
  unfolding get_hunger_clock lookup_or
  get_hunger_clock-clocks task_id t repo =
      ground (arith, lookup-insert task_id t default_clock repo.clocks, eq_iff task_id t)

  lookup_or-insert :
      (task_id t : String) (clock : HungerClockState R) (clocks : Dict String (HungerClockState R))
      → lookup_or default_clock t (insert task_id clock clocks)
        ≡ (if task_id == t then clock else lookup_or default_clock t clocks)
  unfolding lookup_or
  lookup_or-insert task_id t clock clocks = ground (arith, lookup-insert task_id t clock clocks)

  -- The clock after a call.
  abbrev pub spend : ModelUsage R → HungerClockState R → HungerClockState R
  spend usage clock = record clock {
    consumed_tokens = clock.consumed_tokens + (usage.input_tokens + usage.output_tokens);
    consumed_by_cost_usd = fl.add clock.consumed_by_cost_usd usage.cost_usd;
  }

  clock-record :
      (task_id t : String) (usage : ModelUsage R) (repo : Repo R)
      → clock_of (record_llm_usage task_id usage repo).1 t
        ≡ (if task_id == t then spend usage (clock_of repo task_id) else clock_of repo t)
  unfolding record_llm_usage record_tool_cost
  clock-record task_id t usage repo =
      lookup_or-insert task_id t (spend usage (get_hunger_clock task_id repo).0)
        (get_hunger_clock task_id repo).1.clocks
      ∙ rw (get_hunger_clock-value task_id repo, get_hunger_clock-clocks task_id t repo) refl

  is_over_budget_lem :
      (repo : Repo R) (task_id : String)
      → is_over_budget repo task_id ≡ (
          fl.le
            (get_hunger_policy repo task_id).max_total_cost_usd
            (clock_of repo task_id).consumed_by_cost_usd
          || leb
              (get_hunger_policy repo task_id).max_total_tokens
              (clock_of repo task_id).consumed_tokens)
  unfolding is_over_budget
  is_over_budget_lem repo task_id = ground arith

  raised-record :
      (task_id : String) (usage : ModelUsage R) (repo : Repo R)
      → (record_llm_usage task_id usage repo).0
        ≡ is_over_budget (record_llm_usage task_id usage repo).1 task_id
  unfolding record_llm_usage record_tool_cost
  raised-record task_id usage repo = refl

  -- Every call is charged to the clock of its task, whether the guard then raises or not: after any
  -- calls the consumed tokens are those before and the sum of the calls', and no other task's
  -- clock has changed.
  pub record_all-tokens :
      (task_id : String) (usages : List (ModelUsage R)) (repo : Repo R) (t : String)
      → ((clock_of (record_all task_id usages repo) task_id).consumed_tokens
          ≡ (clock_of repo task_id).consumed_tokens + total_tokens usages)
        × ((task_id == t) ≡ false → clock_of (record_all task_id usages repo) t ≡ clock_of repo t)
  unfolding record_all total_tokens
  record_all-tokens task_id [] repo t = (ground arith, λ n. refl)
  record_all-tokens task_id (usage ∷ usages) repo t =
      let next = (record_llm_usage task_id usage repo).1 in
      let rec = record_all-tokens task_id usages next t in
      (
        ground (arith, rec.0, clock-record task_id task_id usage repo, eq_iff task_id task_id),
        λ n. rec.1 n ∙ ground (arith, n, clock-record task_id t usage repo),
      )

  -- What the guard's test says in the engine's words.
  over_budget-holds_for :
      (task_id : String) (repo : Repo R) (ledger : HungerLedger R) (budget : R)
      → is_over_budget repo task_id
        ≡ holds_for
            (get_hunger_policy repo task_id)
            (clock_of repo task_id)
            ledger
            budget
            StopReason.safety_stop
  over_budget-holds_for task_id repo ledger budget = is_over_budget_lem repo task_id

  first_of_two :
      (policy : HungerPolicy R) (clock : HungerClockState R) (ledger : HungerLedger R) (budget : R)
      → clock.frozen ≡ false
      → (q : StopReason) → rank q < rank StopReason.safety_stop
      → holds_for policy clock ledger budget q ≡ false
  first_of_two policy clock ledger budget f q lt = ground (arith, f, lt)

  -- The next tick of the task after a model call, on the repository, the policy and the clock that the
  -- guard leaves, if the clock is not frozen and the phases of the mission can be advanced: it stops
  -- for safety exactly when the guard raised after the call and the last transition of the phases is
  -- not to validating. With a transition to validating it does not stop, also if the guard raised.
  pub guard_agrees_with_tick :
      (task_id : String) (usage : ModelUsage R) (repo repo' repo'' : Repo R)
      (ledger : HungerLedger R) (previous : Option LoopPhase) (now : R)
      (validation : Option PipelineResult) (phase_id : Option String) (snapshot : HungerSnapshot R)
      (last : Option MissionPhaseStatus)
      → let after = (record_llm_usage task_id usage repo).1 in
        (clock_of after task_id).frozen ≡ false
        → advance_mission_phases after task_id validation phase_id now ≡ return (last, repo')
        → tick_mission after
            (get_hunger_policy after task_id)
            (clock_of after task_id)
            ledger
            previous
            now
            task_id
            validation
            phase_id
          ≡ return (snapshot, repo'')
        → ((snapshot.stop_reason ≡ some StopReason.safety_stop)
            ↔ (((record_llm_usage task_id usage repo).0 ≡ true) × (is_validating last ≡ false)))
          × (is_validating last ≡ true → snapshot.should_stop ≡ false)
  guard_agrees_with_tick task_id usage repo repo' repo'' ledger previous now validation phase_id
        snapshot last f a h =
      let after = (record_llm_usage task_id usage repo).1 in
      let policy = get_hunger_policy after task_id in
      let clock = clock_of after task_id in
      let budget = drive_budget_of policy clock now in
      let (iff, stops, some_reason) =
        tick_priority after repo' repo'' policy clock ledger previous now task_id validation
          phase_id snapshot last StopReason.safety_stop a h in
      let raised =
        raised-record task_id usage repo ∙ over_budget-holds_for task_id after ledger budget in
      let clears =
        mission_only_clears after repo' repo'' policy clock ledger previous now task_id validation
          phase_id snapshot last a h in
      (
        (
          λ e. let (c, k, n) = iff.0 e in (raised ∙ k, ground (arith, c)),
          λ (k, v).
              iff.1 (ground (arith, v), sym raised ∙ k, first_of_two policy clock ledger budget f),
        ),
        clears.0,
      )
