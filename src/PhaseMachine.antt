-- ===== src/PhaseMachine.antt =====
-- The mission phase machine of services/hunger_engine.py, `_advance_mission_phases`.
pub mod Edges
use hungerloop.Prelude.{
  ℕ, String, Bool, true, false, Option, none, some, List, [], ◌∷◌, ◌&&◌, ◌||◌, not, ◌==◌, string_eq,
  if◌then◌else◌, any, all, is_empty,
}
use hungerloop.Models.Enums.{
  ValidationVerdict, MissionPhaseStatus, is_pass, is_done_phase, is_done_feature,
  is_in_progress_feature,
}
use hungerloop.Models.Validation.{ValidationReport}
use hungerloop.Models.Mission.{MissionPhase, MissionFeature, Mission}
use hungerloop.Repository.{
  Repo, Result, return, raise, EventBody, mission_phase, mission_phase_completed, append_event,
}
use hungerloop.Repository.Missions.{get_mission, list_features_for_phase, update_phase_status}

pub data PipelineVerdict : Type 0 where
  pass fail skipped : PipelineVerdict

-- `ValidationPipelineResult`, with the verdicts of its optional reports.
pub record PipelineResult : Type 0 where
  pub pipeline_verdict : PipelineVerdict
  pub deterministic_report : ValidationReport
  pub scrutiny_verdict : Option ValidationVerdict
  pub user_testing_verdict : Option ValidationVerdict

pub record PhaseValidationOutcome : Type 0 where
  pub pipeline_verdict : PipelineVerdict
  pub deterministic_regressed : Bool
  pub scrutiny_verdict : Option ValidationVerdict
  pub user_testing_verdict : Option ValidationVerdict

-- `status == "validating"`, of a phase and of the last transition
abbrev pub is_validating_phase : MissionPhaseStatus → Bool
is_validating_phase MissionPhaseStatus.validating = true
is_validating_phase _ = false

abbrev pub is_validating : Option MissionPhaseStatus → Bool
is_validating none = false
is_validating (some status) = is_validating_phase status

abbrev pub is_pending : MissionPhaseStatus → Bool
is_pending MissionPhaseStatus.pending = true
is_pending _ = false

abbrev pub is_in_progress : MissionPhaseStatus → Bool
is_in_progress MissionPhaseStatus.in_progress = true
is_in_progress _ = false

abbrev is_phase : Option String → String → Bool
is_phase none phase_id = false
is_phase (some validation_phase_id) phase_id = validation_phase_id == phase_id

abbrev pub is_pass_pipeline : PipelineVerdict → Bool
is_pass_pipeline PipelineVerdict.pass = true
is_pass_pipeline _ = false

abbrev pub is_fail_pipeline : PipelineVerdict → Bool
is_fail_pipeline PipelineVerdict.fail = true
is_fail_pipeline _ = false

abbrev pub is_pass_verdict : Option ValidationVerdict → Bool
is_pass_verdict none = false
is_pass_verdict (some verdict) = is_pass verdict

unfoldable pub validation_failed : Option PhaseValidationOutcome → Bool
validation_failed none = false
validation_failed (some outcome) = is_fail_pipeline outcome.pipeline_verdict

unfoldable pub validation_passed : Option PhaseValidationOutcome → Bool
validation_passed none = false
validation_passed (some outcome) =
    if not (is_pass_pipeline outcome.pipeline_verdict)
    then false
    else if outcome.deterministic_regressed
    then false
    else is_pass_verdict outcome.scrutiny_verdict && is_pass_verdict outcome.user_testing_verdict

module _ {R : Type 0} where
  unfoldable pub phase_validation_outcome :
      Option PipelineResult → Option String → MissionPhase R → Option PhaseValidationOutcome
  phase_validation_outcome none validation_phase_id phase = none
  phase_validation_outcome (some result) validation_phase_id phase =
      if not (is_phase validation_phase_id phase.phase_id)
      then none
      else some (record {
        pipeline_verdict = result.pipeline_verdict;
        deterministic_regressed = not (is_empty result.deterministic_report.regressed_check_keys);
        scrutiny_verdict = result.scrutiny_verdict;
        user_testing_verdict = result.user_testing_verdict;
      })

  unfoldable pub should_start_phase : Repo R → MissionPhase R → Bool
  unfolding any list_features_for_phase
  should_start_phase repo phase =
      if not (is_pending phase.status)
      then false
      else any (λ feature. is_in_progress_feature feature.status)
          (list_features_for_phase repo phase.phase_id)

  unfoldable pub should_start_validation : Repo R → MissionPhase R → Bool
  unfolding all list_features_for_phase
  should_start_validation repo phase =
      let features = list_features_for_phase repo phase.phase_id in
      if not (is_in_progress phase.status)
      then false
      else not (is_empty features) && all (λ feature. is_done_feature feature.status) features

  -- The events of a transition: `completed` is the extra one of a phase that is done.
  unfoldable pub transition_events : String → MissionPhase R → MissionPhaseStatus → Repo R → Repo R
  unfolding append_event
  transition_events task_id phase status repo =
      let repo' =
        append_event (mission_phase phase.phase_id phase.status status) task_id none repo in
      if is_done_phase status
      then append_event (mission_phase_completed phase.phase_id) task_id none repo'
      else repo'

  unfoldable pub transition_phase :
      String → MissionPhase R → MissionPhaseStatus → Option R → Repo R → Result (Repo R)
  unfolding update_phase_status transition_events
  transition_phase task_id phase status completed_at repo =
      elim (update_phase_status phase.phase_id status completed_at repo) [
        | raise e ↦ raise e
        | return repo' ↦ return (transition_events task_id phase status repo')
      ]

  -- What the body of the loop decides for a phase: the status to set, if any.
  unfoldable pub next_status :
      Repo R → Option PhaseValidationOutcome → MissionPhase R → Option MissionPhaseStatus
  unfolding validation_failed validation_passed should_start_phase should_start_validation
  next_status repo outcome phase =
      if is_done_phase phase.status
      then none
      else if is_validating_phase phase.status
      then if validation_failed outcome
        then some MissionPhaseStatus.in_progress
        else if validation_passed outcome
        then some MissionPhaseStatus.done
        else none
      else if should_start_phase repo phase
      then some MissionPhaseStatus.in_progress
      else if should_start_validation repo phase
      then some MissionPhaseStatus.validating
      else none

  -- `now` for a phase that is done, and None for the other transitions
  abbrev pub completed_at_of : R → MissionPhaseStatus → Option R
  completed_at_of now status = if is_done_phase status then some now else none

  -- `last_transition_status` after the phase, from what it was before
  abbrev pub last_status :
      MissionPhase R
      → Option MissionPhaseStatus
      → Option MissionPhaseStatus
      → Option MissionPhaseStatus
  last_status phase (some status) last = some status
  last_status phase none last =
      if is_validating_phase phase.status then some MissionPhaseStatus.validating else last

  unfoldable pub advance_phase :
      String → R → Option PhaseValidationOutcome → MissionPhase R → Repo R → Result (Repo R)
  unfolding next_status transition_phase
  advance_phase task_id now outcome phase repo = elim (next_status repo outcome phase) [
    | none ↦ return repo
    | some status ↦ transition_phase task_id phase status (completed_at_of now status) repo
  ]

  -- The loop, over the phases as they were when it began.
  unfoldable pub advance_phases :
      String
      → R
      → Option PipelineResult
      → Option String
      → List (MissionPhase R)
      → Option MissionPhaseStatus
      → Repo R
      → Result (Option MissionPhaseStatus × Repo R)
  unfolding advance_phase phase_validation_outcome next_status
  advance_phases task_id now validation phase_id [] last repo = return (last, repo)
  advance_phases task_id now validation phase_id (phase ∷ phases) last repo =
      let outcome = phase_validation_outcome validation phase_id phase in
      elim (advance_phase task_id now outcome phase repo) [
        | raise e ↦ raise e
        | return repo' ↦
            advance_phases task_id now validation phase_id phases
              (last_status phase (next_status repo outcome phase) last) repo'
      ]

  unfoldable pub advance_mission_phases :
      Repo R
      → String
      → Option PipelineResult
      → Option String
      → R
      → Result (Option MissionPhaseStatus × Repo R)
  unfolding get_mission advance_phases
  advance_mission_phases repo task_id validation phase_id now = elim (get_mission repo task_id) [
    | none ↦ return (none, repo)
    | some mission ↦ advance_phases task_id now validation phase_id mission.phases none repo
  ]
