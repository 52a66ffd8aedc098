-- ===== src/HungerEngine/Stops.antt =====
-- What the snapshot of services/hunger_engine.py promises: its stop reason, budget and phase.
use hungerloop.Prelude.{
  ℕ, ◌<◌, String, Bool, true, false, Option, none, some, List, [], ◌∷◌, Floats, IsOrdered,
  float_zero, ◌≡◌, ◌≢◌, ◌↔◌, sym, ◌∙◌, arith, leb, not, ◌&&◌, ◌||◌, any, all, any-not,
  is_empty-filter,
}
use hungerloop.Models.Enums.{StopReason, LoopPhase, is_done_phase, is_blocked, MissionPhaseStatus}
use hungerloop.Models.Hunger.{
  HungerItem, HungerLedger, HungerPolicy, HungerClockState, HungerSnapshot, is_done, is_unfinished,
  all_remaining_items_blocked, has_gap, unfinished_items, blocked_items, has_blocked_items,
}
use hungerloop.Models.Mission.{Mission, MissionPhase}
use hungerloop.Repository.{Repo, return}
use hungerloop.Repository.Missions.{get_mission}
use hungerloop.PhaseMachine.{PipelineResult, advance_mission_phases, is_validating}
use hungerloop.HungerEngine.{
  is_done_reason, drive_budget_of, compute_drive_budget, stop_reason_of, phase_with_hysteresis,
  tick, tick_mission, mission_stop_reason, mission_blocks_done_stop, snapshot_of,
}

-- The documented priority of the stop reasons: lower is first.
abbrev pub rank : StopReason → ℕ
rank StopReason.human_paused = 0
rank StopReason.safety_stop = 1
rank StopReason.blocked = 2
rank StopReason.hunger_expired = 3
rank StopReason.done = 4
rank _ = 5

module _ {R : Type 0} ⦃fl : Floats R⦄ where
  blocked-not-done :
      (ledger : HungerLedger R) → all_remaining_items_blocked ledger ≡ true → is_done ledger ≡ false
  unfolding all_remaining_items_blocked is_done
  blocked-not-done ledger h = ground arith

  any_blocked-not-done :
      (item : HungerItem R)
      → (is_blocked item.status && has_gap item) ≡ true
      → is_unfinished item ≡ true
  any_blocked-not-done item h = ground arith

  any_mono :
      (p q : HungerItem R → Bool) (xs : List (HungerItem R))
      → ((x : HungerItem R) → p x ≡ true → q x ≡ true)
      → any p xs ≡ true
      → any q xs ≡ true
  unfolding any
  any_mono p q [] h e = e
  any_mono p q (x ∷ xs) h e = ground (arith, h x, any_mono p q xs h)

  has_blocked-not-done :
      (ledger : HungerLedger R) → has_blocked_items ledger ≡ true → is_done ledger ≡ false
  unfolding has_blocked_items blocked_items is_done unfinished_items
  has_blocked-not-done ledger h = ground (
    arith,
    is_empty-filter is_unfinished ledger.items,
    is_empty-filter (λ item. is_blocked item.status && has_gap item) ledger.items,
    any_mono (λ item. is_blocked item.status && has_gap item) is_unfinished ledger.items
        any_blocked-not-done,
  )

  -- A ledger with a blocked item that has a gap is never reported DONE, whatever the budget.
  pub blocked_is_not_done :
      (policy : HungerPolicy R) (clock : HungerClockState R) (ledger : HungerLedger R)
      (previous : Option LoopPhase) (now : R)
      → has_blocked_items ledger ≡ true
      → (tick policy clock ledger previous now).stop_reason ≢ some StopReason.done
  unfolding tick stop_reason_of snapshot_of
  blocked_is_not_done policy clock ledger previous now h =
      ground (arith, has_blocked-not-done ledger h)

  -- The tick stops for safety exactly when the clock runs and a ceiling is reached.
  pub safety_stop_iff :
      (policy : HungerPolicy R) (clock : HungerClockState R) (ledger : HungerLedger R)
      (previous : Option LoopPhase) (now : R)
      → ((tick policy clock ledger previous now).stop_reason ≡ some StopReason.safety_stop) ↔ (
          (clock.frozen ≡ false)
          × ((fl.le policy.max_total_cost_usd clock.consumed_by_cost_usd
                || leb policy.max_total_tokens clock.consumed_tokens)
              ≡ true))
  unfolding tick stop_reason_of snapshot_of
  safety_stop_iff policy clock ledger previous now = ground arith

  -- The condition of each stop reason, as the module's documentation lists them.
  abbrev pub holds_for :
      HungerPolicy R → HungerClockState R → HungerLedger R → R → StopReason → Bool
  holds_for policy clock ledger budget StopReason.human_paused = clock.frozen
  holds_for policy clock ledger budget StopReason.safety_stop =
      fl.le policy.max_total_cost_usd clock.consumed_by_cost_usd
      || leb policy.max_total_tokens clock.consumed_tokens
  holds_for policy clock ledger budget StopReason.blocked = all_remaining_items_blocked ledger
  holds_for policy clock ledger budget StopReason.hunger_expired =
      fl.le budget float_zero && not (is_done ledger)
  holds_for policy clock ledger budget StopReason.done = is_done ledger
  holds_for policy clock ledger budget _ = false

  -- The drive budget of a snapshot lies between zero and `h_max`.
  pub drive_budget_bounds :
      (policy : HungerPolicy R) (clock : HungerClockState R) (ledger : HungerLedger R)
      (previous : Option LoopPhase) (now : R)
      → IsOrdered fl
      → fl.le float_zero policy.h_max ≡ true
      → let budget = (tick policy clock ledger previous now).drive_budget in
        (fl.le float_zero budget ≡ true) × (fl.le budget policy.h_max ≡ true)
  unfolding tick snapshot_of drive_budget_of
  drive_budget_bounds policy clock ledger previous now o h =
      let b = compute_drive_budget policy clock now in
      ground (
        arith,
        o.le_total b float_zero,
        o.le_total policy.h_max b,
        o.le_total policy.h_max float_zero,
        o.le_total policy.h_max policy.h_max,
        o.le_total float_zero float_zero,
        o.le_total float_zero policy.h_max,
      )

  -- The phase does not flap: decided twice at one drive ratio, it stays what it became.
  pub phase_stable :
      (ratio : R) (previous : Option LoopPhase)
      → phase_with_hysteresis ratio (some (phase_with_hysteresis ratio previous))
        ≡ phase_with_hysteresis ratio previous
  unfolding phase_with_hysteresis
  phase_stable ratio previous = ground arith

  -- The `if`/`elif` chain alone: the first reason in the documented order whose condition holds.
  pub stop_reason_of_iff :
      (policy : HungerPolicy R) (clock : HungerClockState R) (ledger : HungerLedger R) (budget : R)
      (r : StopReason)
      → let holds = holds_for policy clock ledger budget in
        (stop_reason_of policy clock ledger budget ≡ some r)
        ↔ ((holds r ≡ true) × ((q : StopReason) → rank q < rank r → holds q ≡ false))
  unfolding stop_reason_of
  stop_reason_of_iff policy clock ledger budget r =
      (λ e. (holds_r r e, λ q lt. lower r q e lt), λ (h, n). first r h n)
    where
      holds_r :
          (r : StopReason)
          → stop_reason_of policy clock ledger budget ≡ some r
          → holds_for policy clock ledger budget r ≡ true
      holds_r r e = ground arith

      lower :
          (r q : StopReason)
          → stop_reason_of policy clock ledger budget ≡ some r
          → rank q < rank r
          → holds_for policy clock ledger budget q ≡ false
      lower r q e lt = ground arith

      first :
          (r : StopReason)
          → holds_for policy clock ledger budget r ≡ true
          → ((q : StopReason) → rank q < rank r → holds_for policy clock ledger budget q ≡ false)
          → stop_reason_of policy clock ledger budget ≡ some r
      first r h n = ground (
        arith,
        h,
        n StopReason.human_paused,
        n StopReason.safety_stop,
        n StopReason.blocked,
        n StopReason.hunger_expired,
      )

  -- What the mission clears: every reason while its last transition is to validating, else DONE while
  -- one of its phases is unfinished.
  abbrev pub is_cleared : Repo R → String → Option MissionPhaseStatus → StopReason → Bool
  is_cleared repo task_id last r =
      is_validating last || (is_done_reason (some r) && mission_blocks_done_stop repo task_id)

  mission_stop_reason_iff :
      (repo : Repo R) (task_id : String) (last : Option MissionPhaseStatus)
      (reason : Option StopReason) (r : StopReason)
      → (mission_stop_reason repo task_id last reason ≡ some r)
        ↔ ((is_cleared repo task_id last r ≡ false) × (reason ≡ some r))
  unfolding mission_stop_reason
  mission_stop_reason_iff repo task_id last reason r = ground arith

  uncleared_stops :
      (repo : Repo R) (policy : HungerPolicy R) (clock : HungerClockState R)
      (ledger : HungerLedger R) (budget : R) (task_id : String) (last : Option MissionPhaseStatus)
      (r : StopReason)
      → holds_for policy clock ledger budget r ≡ true
      → is_cleared repo task_id last r ≡ false
      → mission_stop_reason repo task_id last (stop_reason_of policy clock ledger budget) ≢ none
  unfolding mission_stop_reason stop_reason_of
  uncleared_stops repo policy clock ledger budget task_id last r h c = λ e. ground (arith, h, c, e)

  snapshot_reason :
      (repo repo' repo'' : Repo R) (policy : HungerPolicy R) (clock : HungerClockState R)
      (ledger : HungerLedger R) (previous : Option LoopPhase) (now : R) (task_id : String)
      (validation : Option PipelineResult) (phase_id : Option String) (snapshot : HungerSnapshot R)
      (last : Option MissionPhaseStatus)
      → advance_mission_phases repo task_id validation phase_id now ≡ return (last, repo')
      → tick_mission repo policy clock ledger previous now task_id validation phase_id
        ≡ return (snapshot, repo'')
      → (snapshot.stop_reason
          ≡ mission_stop_reason repo' task_id last
              (stop_reason_of policy clock ledger (drive_budget_of policy clock now)))
        × ((snapshot.should_stop ≡ true) ↔ (snapshot.stop_reason ≢ none))
  unfolding tick_mission snapshot_of
  snapshot_reason repo repo' repo'' policy clock ledger previous now task_id validation phase_id
        snapshot last a h =
      ground (arith, a, h)

  -- The tick of a task with a repository, if the phases of its mission can be advanced. It stops for r
  -- exactly when the mission does not clear r, the condition of r holds, and no condition of higher
  -- priority does; `rank` is the documented order of priority. So it stops at all exactly when the
  -- condition of a reason holds that the mission does not clear.
  pub tick_priority :
      (repo repo' repo'' : Repo R) (policy : HungerPolicy R) (clock : HungerClockState R)
      (ledger : HungerLedger R) (previous : Option LoopPhase) (now : R) (task_id : String)
      (validation : Option PipelineResult) (phase_id : Option String) (snapshot : HungerSnapshot R)
      (last : Option MissionPhaseStatus) (r : StopReason)
      → advance_mission_phases repo task_id validation phase_id now ≡ return (last, repo')
      → tick_mission repo policy clock ledger previous now task_id validation phase_id
        ≡ return (snapshot, repo'')
      → let holds = holds_for policy clock ledger (drive_budget_of policy clock now) in
        ((snapshot.stop_reason ≡ some r) ↔ (
          (is_cleared repo' task_id last r ≡ false)
          × (holds r ≡ true)
          × ((q : StopReason) → rank q < rank r → holds q ≡ false)))
        × (holds r ≡ true → is_cleared repo' task_id last r ≡ false → snapshot.should_stop ≡ true)
        × ((snapshot.should_stop ≡ true) ↔ (snapshot.stop_reason ≢ none))
  tick_priority repo repo' repo'' policy clock ledger previous now task_id validation phase_id
        snapshot last r a h =
      let budget = drive_budget_of policy clock now in
      let (same, stops) =
        snapshot_reason repo repo' repo'' policy clock ledger previous now task_id validation
          phase_id snapshot last a h in
      let chain = stop_reason_of_iff policy clock ledger budget r in
      let mission =
        mission_stop_reason_iff repo' task_id last (stop_reason_of policy clock ledger budget) r in
      (
        (
          λ e. let (c, s) = mission.0 (sym same ∙ e) in let (k, n) = chain.0 s in (c, k, n),
          λ (c, k, n). same ∙ mission.1 (c, chain.1 (k, n)),
        ),
        λ k c. stops.1 (λ e.
            uncleared_stops repo' policy clock ledger budget task_id last r k c (sym same ∙ e)),
        stops,
      )

  -- With a mission, DONE is reported only if the ledger is done and every phase of the mission, as
  -- it is after the tick, is done.
  pub done_needs_phases :
      (repo repo' : Repo R) (policy : HungerPolicy R) (clock : HungerClockState R)
      (ledger : HungerLedger R) (previous : Option LoopPhase) (now : R) (task_id : String)
      (validation : Option PipelineResult) (phase_id : Option String) (snapshot : HungerSnapshot R)
      (mission : Mission R)
      → tick_mission repo policy clock ledger previous now task_id validation phase_id
        ≡ return (snapshot, repo')
      → snapshot.stop_reason ≡ some StopReason.done
      → get_mission repo' task_id ≡ some mission
      → (is_done ledger ≡ true) × (all (λ p. is_done_phase p.status) mission.phases ≡ true)
  unfolding tick_mission snapshot_of mission_stop_reason mission_blocks_done_stop stop_reason_of
  done_needs_phases repo repo' policy clock ledger previous now task_id validation phase_id snapshot
        mission e h m =
      ground (arith, any-not (λ (p : MissionPhase R). is_done_phase p.status) mission.phases)

  -- A mission adds no stop reason to that of the tick: while its last transition is to validating it
  -- clears every one, a pause and a safety stop included, and else at most DONE.
  pub mission_only_clears :
      (repo repo' repo'' : Repo R) (policy : HungerPolicy R) (clock : HungerClockState R)
      (ledger : HungerLedger R) (previous : Option LoopPhase) (now : R) (task_id : String)
      (validation : Option PipelineResult) (phase_id : Option String) (snapshot : HungerSnapshot R)
      (last : Option MissionPhaseStatus)
      → advance_mission_phases repo task_id validation phase_id now ≡ return (last, repo')
      → tick_mission repo policy clock ledger previous now task_id validation phase_id
        ≡ return (snapshot, repo'')
      → let reason = (tick policy clock ledger previous now).stop_reason in
        (is_validating last ≡ true → snapshot.should_stop ≡ false)
        × (is_validating last ≡ false
            → reason ≢ some StopReason.done
            → snapshot.stop_reason ≡ reason)
        × (snapshot.stop_reason ≢ none → snapshot.stop_reason ≡ reason)
  unfolding tick_mission snapshot_of mission_stop_reason tick
  mission_only_clears repo repo' repo'' policy clock ledger previous now task_id validation phase_id
        snapshot last a h =
      (λ v. ground arith, λ v n. ground arith, λ n. ground arith)
