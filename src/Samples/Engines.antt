-- ===== src/Samples/Engines.antt =====
-- Examples of the hunger engine and of the mission phase machine.
use hungerloop.Prelude.{
  ◌↔◌, ℕ, ◌<◌, String, true, false, Option, none, some, [], ◌∷◌, all, lookup, ◌≡◌, ◌≢◌, refl, milli,
  string_eq,
}
use hungerloop.Models.Enums.{
  StopReason, MissionPhaseStatus, HungerItemStatus, ValidationVerdict, is_done_phase,
}
use hungerloop.Models.Hunger.{
  HungerLedger, HungerClockState, HungerSnapshot, has_blocked_items, is_done,
}
use hungerloop.Models.Mission.{MissionPhase}
use hungerloop.Repository.{Repo, Result, return, raise, default_clock}
use hungerloop.Repository.Missions.{get_mission}
use hungerloop.PhaseMachine.{
  PipelineResult, PipelineVerdict, next_status, phase_validation_outcome, advance_mission_phases,
  is_validating,
}
use hungerloop.PhaseMachine.Edges.{after_pass, AreStored, advance_mission_phases_lem}
use hungerloop.HungerEngine.{tick, tick_mission, drive_budget_of}
use hungerloop.HungerEngine.Stops.{
  rank, holds_for, is_cleared, tick_priority, done_needs_phases, mission_only_clears,
}
use hungerloop.Samples.{policy, ledger, item, mission_repo, mission, phase, good_report}

abbrev clock : HungerClockState ℕ
clock = default_clock

abbrev blocked_ledger : HungerLedger ℕ
blocked_ledger = record {
  task_id = "t";
  items = record item { status = HungerItemStatus.blocked } ∷ [];
}

blocked : has_blocked_items blocked_ledger ≡ true
unfolding has_blocked_items
blocked = refl

abbrev done_ledger : HungerLedger ℕ
done_ledger = record {
  task_id = "t";
  items = record item { status = HungerItemStatus.closed } ∷ [];
}

abbrev done_tick : Result (HungerSnapshot ℕ × Repo ℕ)
done_tick = tick_mission mission_repo policy clock done_ledger none 0 "t" none none

abbrev done_snapshot : HungerSnapshot ℕ
done_snapshot = elim done_tick [
  | raise _ ↦ tick policy clock done_ledger none 0
  | return (s, _) ↦ s
]

abbrev done_repo : Repo ℕ
done_repo = elim done_tick [ raise _ ↦ mission_repo | return (_, r) ↦ r ]

done_tick-returns :
    tick_mission mission_repo policy clock done_ledger none 0 "t" none none
    ≡ return (done_snapshot, done_repo)
unfolding tick_mission advance_mission_phases
done_tick-returns = refl

done_snapshot-reason : done_snapshot.stop_reason ≡ some StopReason.done
unfolding tick_mission advance_mission_phases
done_snapshot-reason = refl

done_repo-mission : get_mission done_repo "t" ≡ some mission
unfolding tick_mission advance_mission_phases
done_repo-mission = refl

done_needs_phases_example :
    (is_done done_ledger ≡ true) × (all (λ p. is_done_phase p.status) mission.phases ≡ true)
done_needs_phases_example =
    done_needs_phases mission_repo done_repo policy clock done_ledger none 0 "t" none none
      done_snapshot mission done_tick-returns done_snapshot-reason done_repo-mission

done_tick-advance : advance_mission_phases mission_repo "t" none none 0 ≡ return (none, done_repo)
unfolding tick_mission advance_mission_phases
done_tick-advance = refl

tick_priority_example :
    let holds = holds_for policy clock done_ledger (drive_budget_of policy clock 0) in
    ((done_snapshot.stop_reason ≡ some StopReason.done) ↔ (
      (is_cleared done_repo "t" none StopReason.done ≡ false)
      × (holds StopReason.done ≡ true)
      × ((q : StopReason) → rank q < rank StopReason.done → holds q ≡ false)))
    × (holds StopReason.done ≡ true
        → is_cleared done_repo "t" none StopReason.done ≡ false
        → done_snapshot.should_stop ≡ true)
    × ((done_snapshot.should_stop ≡ true) ↔ (done_snapshot.stop_reason ≢ none))
tick_priority_example =
    tick_priority mission_repo done_repo done_repo policy clock done_ledger none 0 "t" none none
      done_snapshot none StopReason.done done_tick-advance done_tick-returns

abbrev validating : MissionPhase ℕ
validating = record phase { status = MissionPhaseStatus.validating; completed_at = none }

abbrev passing : PipelineResult
passing = record {
  pipeline_verdict = PipelineVerdict.pass;
  deterministic_report = good_report;
  scrutiny_verdict = some ValidationVerdict.pass;
  user_testing_verdict = some ValidationVerdict.pass;
}

becomes_done :
    next_status mission_repo
      (phase_validation_outcome (some passing) (some "P1") validating)
      validating
    ≡ some MissionPhaseStatus.done
unfolding next_status phase_validation_outcome
becomes_done = refl

found : get_mission mission_repo "t" ≡ some mission
unfolding get_mission
found = refl

stored : AreStored (phase ∷ []) mission_repo
unfolding lookup
stored = (refl, refl, tt)

advance_example :
    (last : Option MissionPhaseStatus) × (repo' : Repo ℕ) × (advance_mission_phases mission_repo "t"
        (some passing)
        (some "P1")
        9
      ≡ return (last, repo'))
    × ((j : String)
        → lookup j repo'.mission_phases
          ≡ after_pass mission_repo 9 (some passing) (some "P1") (phase ∷ []) j)
advance_example =
    advance_mission_phases_lem mission_repo "t" (some passing) (some "P1") 9 mission found stored

abbrev paused : HungerClockState ℕ
paused = record clock { frozen = true }

abbrev validating_repo : Repo ℕ
validating_repo = record mission_repo { mission_phases = ("P1", validating) ∷ [] }

abbrev paused_tick : Result (HungerSnapshot ℕ × Repo ℕ)
paused_tick = tick_mission validating_repo policy paused ledger none 0 "t" none none

abbrev paused_snapshot : HungerSnapshot ℕ
paused_snapshot = elim paused_tick [
  | raise _ ↦ tick policy paused ledger none 0
  | return (s, _) ↦ s
]

paused-advance :
    advance_mission_phases validating_repo "t" none none 0
    ≡ return (some MissionPhaseStatus.validating, validating_repo)
unfolding advance_mission_phases
paused-advance = refl

paused-returns :
    tick_mission validating_repo policy paused ledger none 0 "t" none none
    ≡ return (paused_snapshot, validating_repo)
unfolding tick_mission advance_mission_phases
paused-returns = refl

mission_only_clears_example :
    let reason = (tick policy paused ledger none 0).stop_reason in
    (is_validating (some MissionPhaseStatus.validating) ≡ true
      → paused_snapshot.should_stop ≡ false)
    × (is_validating (some MissionPhaseStatus.validating) ≡ false
        → reason ≢ some StopReason.done
        → paused_snapshot.stop_reason ≡ reason)
    × (paused_snapshot.stop_reason ≢ none → paused_snapshot.stop_reason ≡ reason)
mission_only_clears_example =
    mission_only_clears validating_repo validating_repo validating_repo policy paused ledger none 0
      "t" none none paused_snapshot (some MissionPhaseStatus.validating) paused-advance
      paused-returns
