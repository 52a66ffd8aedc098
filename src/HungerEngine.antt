-- ===== src/HungerEngine.antt =====
-- services/hunger_engine.py: the snapshot of one tick. `now` is a number of seconds.
pub mod Stops
use hungerloop.Prelude.{
  ℕ, zero, suc, ◌-◌, String, Bool, true, false, Option, none, some, List, [], ◌∷◌, Floats, float_lt,
  float_max, float_min, float_zero, ◌&&◌, ◌||◌, not, ltb, leb, ◌==◌, nat_eq, if◌then◌else◌, any,
  is_empty,
}
use hungerloop.Models.Enums.{StopReason, LoopPhase, DecayType, MissionPhaseStatus, is_done_phase}
use hungerloop.Models.Hunger.{
  HungerLedger, HungerPolicy, HungerClockState, HungerSnapshot, work_pressure, is_done,
  all_remaining_items_blocked,
}
use hungerloop.Models.Mission.{MissionPhase, Mission}
use hungerloop.Repository.{Repo, Result, return, raise}
use hungerloop.Repository.Missions.{get_mission}
use hungerloop.PhaseMachine.{PipelineResult, advance_mission_phases, is_validating}

-- `previous == LoopPhase.EXPLORE`
abbrev pub is_explore : Option LoopPhase → Bool
is_explore (some LoopPhase.explore) = true
is_explore _ = false

-- `stop_reason == StopReason.DONE`
abbrev pub is_done_reason : Option StopReason → Bool
is_done_reason (some StopReason.done) = true
is_done_reason _ = false

module _ {R : Type 0} ⦃fl : Floats R⦄ where
  compute_stage_budget : HungerPolicy R → R → R
  compute_stage_budget policy elapsed =
      let total = policy.decay_duration_seconds in
      if fl.le total elapsed
      then float_zero
      else fl.mul policy.initial_hunger (fl.sub (fl.literal 1 1) (fl.div elapsed total))

  -- The wall-clock decays, once `started_at` is known. A linear decay over zero seconds, which divides
  -- by zero, is left out.
  wall_clock_budget : HungerPolicy R → DecayType → R → R → R
  unfolding compute_stage_budget
  wall_clock_budget policy DecayType.linear started_at now =
      let elapsed = float_max float_zero (fl.sub now started_at) in
      let ratio = float_min (fl.literal 1 1) (fl.div elapsed policy.decay_duration_seconds) in
      fl.mul policy.initial_hunger (fl.sub (fl.literal 1 1) ratio)
  wall_clock_budget policy decay_type started_at now =
      compute_stage_budget policy (float_max float_zero (fl.sub now started_at))

  compute_loop_budget : HungerPolicy R → HungerClockState R → R
  compute_loop_budget policy clock =
      let max_loops = fl.floor policy.decay_duration_seconds in
      if leb max_loops 0
      then policy.initial_hunger
      else fl.mul policy.initial_hunger
          (fl.div (fl.literal (max_loops - clock.loop_count) 1) (fl.literal max_loops 1))

  compute_decay_budget : HungerPolicy R → HungerClockState R → DecayType → R → R
  unfolding compute_loop_budget wall_clock_budget
  compute_decay_budget policy clock DecayType.loop_count now = compute_loop_budget policy clock
  compute_decay_budget policy clock decay_type now = elim policy.started_at [
    | none ↦ policy.initial_hunger
    | some started_at ↦ wall_clock_budget policy decay_type started_at now
  ]

  unfoldable pub compute_drive_budget : HungerPolicy R → HungerClockState R → R → R
  unfolding compute_decay_budget
  compute_drive_budget policy clock now =
      if clock.manually_cleared
      then float_zero
      else compute_decay_budget policy clock policy.decay_type now

  -- `max(0.0, min(policy.h_max, drive_budget))`
  unfoldable pub drive_budget_of : HungerPolicy R → HungerClockState R → R → R
  unfolding compute_drive_budget
  drive_budget_of policy clock now =
      float_max float_zero (float_min policy.h_max (compute_drive_budget policy clock now))

  unfoldable pub phase_with_hysteresis : R → Option LoopPhase → LoopPhase
  phase_with_hysteresis drive_ratio previous =
      if float_lt (fl.literal 6 10) drive_ratio
      then LoopPhase.explore
      else if float_lt (fl.literal 3 10) drive_ratio
      then if is_explore previous then LoopPhase.explore else LoopPhase.exploit
      else LoopPhase.cooldown

  -- The `if`/`elif` chain of `tick`; `should_stop` is set exactly when there is a reason.
  unfoldable pub stop_reason_of :
      HungerPolicy R → HungerClockState R → HungerLedger R → R → Option StopReason
  unfolding all_remaining_items_blocked is_done
  stop_reason_of policy clock ledger drive_budget =
      if clock.frozen
      then some StopReason.human_paused
      else if fl.le policy.max_total_cost_usd clock.consumed_by_cost_usd
      then some StopReason.safety_stop
      else if leb policy.max_total_tokens clock.consumed_tokens
      then some StopReason.safety_stop
      else if all_remaining_items_blocked ledger
      then some StopReason.blocked
      else if fl.le drive_budget float_zero && not (is_done ledger)
      then some StopReason.hunger_expired
      else if is_done ledger
      then some StopReason.done
      else none

  unfoldable pub mission_blocks_done_stop : Repo R → String → Bool
  unfolding get_mission any
  mission_blocks_done_stop repo task_id = elim (get_mission repo task_id) [
    | none ↦ false
    | some mission ↦ any (λ phase. not (is_done_phase phase.status)) mission.phases
  ]

  -- What the mission leaves of the reason, after its phases were advanced.
  unfoldable pub mission_stop_reason :
      Repo R → String → Option MissionPhaseStatus → Option StopReason → Option StopReason
  unfolding mission_blocks_done_stop
  mission_stop_reason repo task_id transition reason =
      if is_validating transition
      then none
      else if is_done_reason reason && mission_blocks_done_stop repo task_id
      then none
      else reason

  snapshot_of :
      HungerPolicy R
      → HungerClockState R
      → HungerLedger R
      → Option LoopPhase
      → R
      → Option StopReason
      → HungerSnapshot R
  unfolding drive_budget_of work_pressure phase_with_hysteresis
  snapshot_of policy clock ledger previous_phase now reason =
      let drive_budget = drive_budget_of policy clock now in
      let pressure = fl.mul (work_pressure ledger) policy.h_max in
      let drive_ratio =
        if float_lt float_zero policy.h_max then fl.div drive_budget policy.h_max else float_zero in
      record {
        drive_budget = drive_budget;
        work_pressure = pressure;
        active_hunger = float_min drive_budget pressure;
        drive_ratio = drive_ratio;
        phase = phase_with_hysteresis drive_ratio previous_phase;
        should_stop = (elim reason [ none ↦ false | some _ ↦ true ]);
        stop_reason = reason;
      }

  -- `tick` without a task or a repository
  unfoldable pub tick :
      HungerPolicy R → HungerClockState R → HungerLedger R → Option LoopPhase → R → HungerSnapshot R
  unfolding snapshot_of stop_reason_of drive_budget_of
  tick policy clock ledger previous_phase now =
      snapshot_of policy clock ledger previous_phase now
        (stop_reason_of policy clock ledger (drive_budget_of policy clock now))

  -- `tick` with both: the phases of the mission are advanced too.
  unfoldable pub tick_mission :
      Repo R
      → HungerPolicy R
      → HungerClockState R
      → HungerLedger R
      → Option LoopPhase
      → R
      → String
      → Option PipelineResult
      → Option String
      → Result (HungerSnapshot R × Repo R)
  unfolding snapshot_of stop_reason_of drive_budget_of mission_stop_reason
  tick_mission repo policy clock ledger previous_phase now task_id validation phase_id =
      elim (advance_mission_phases repo task_id validation phase_id now) [
        | raise e ↦ raise e
        | return (transition, repo') ↦
            let reason = stop_reason_of policy clock ledger (drive_budget_of policy clock now) in
            return (
              snapshot_of policy clock ledger previous_phase now
                  (mission_stop_reason repo' task_id transition reason),
              repo',
            )
      ]
