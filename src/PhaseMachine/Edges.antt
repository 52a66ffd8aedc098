-- ===== src/PhaseMachine/Edges.antt =====
-- The edges of the mission phase machine, and what one pass over the phases does to the store.
use hungerloop.Prelude.{
  String, Bool, true, false, Option, none, some, List, [], ◌∷◌, lookup, insert, lookup-insert, ◌≡◌,
  refl, ◌∙◌, arith, ◌==◌, string_eq, eq_iff, if◌then◌else◌, is_empty, Option-cases, inl, inr,
}
use hungerloop.Models.Enums.{MissionPhaseStatus, is_done_phase}
use hungerloop.Models.Mission.{MissionPhase, Mission}
use hungerloop.Repository.{Repo, return}
use hungerloop.Repository.Missions.{
  get_mission, update_phase_status, set_phase_status, list_features_for_phase,
}
use hungerloop.PhaseMachine.{
  PipelineResult, PhaseValidationOutcome, next_status, transition_phase, transition_events,
  advance_phase, advance_phases, advance_mission_phases, phase_validation_outcome, completed_at_of,
  last_status, validation_passed, validation_failed, should_start_phase, should_start_validation,
  is_pass_pipeline, is_pass_verdict,
}

-- The edges of the phase machine.
abbrev pub is_edge : MissionPhaseStatus → MissionPhaseStatus → Bool
is_edge MissionPhaseStatus.pending MissionPhaseStatus.in_progress = true
is_edge MissionPhaseStatus.in_progress MissionPhaseStatus.validating = true
is_edge MissionPhaseStatus.validating MissionPhaseStatus.in_progress = true
is_edge MissionPhaseStatus.validating MissionPhaseStatus.done = true
is_edge _ _ = false

module _ {R : Type 0} where
  -- A transition of the phase machine is an edge: from pending to in progress, from there to
  -- validating, and from validating back to in progress or to done.
  pub next_status_edge :
      (repo : Repo R) (outcome : Option PhaseValidationOutcome) (phase : MissionPhase R)
      (status : MissionPhaseStatus)
      → next_status repo outcome phase ≡ some status
      → is_edge phase.status status ≡ true
  unfolding next_status should_start_phase should_start_validation
  next_status_edge repo outcome phase status h = ground arith

  -- A phase becomes done only from validating, and only if the outcome for that very phase is a
  -- pass of the pipeline with no regression and with both reports there and passing.
  pub done_needs_validation :
      (repo : Repo R) (validation : Option PipelineResult) (phase_id : Option String)
      (phase : MissionPhase R)
      → next_status repo (phase_validation_outcome validation phase_id phase) phase
        ≡ some MissionPhaseStatus.done
      → (phase.status ≡ MissionPhaseStatus.validating)
        × (phase_id ≡ some phase.phase_id)
        × (result : PipelineResult) × (validation ≡ some result)
        × (is_pass_pipeline result.pipeline_verdict ≡ true)
        × (is_empty result.deterministic_report.regressed_check_keys ≡ true)
        × (is_pass_verdict result.scrutiny_verdict ≡ true)
        × (is_pass_verdict result.user_testing_verdict ≡ true)
  unfolding next_status should_start_phase should_start_validation validation_failed
      validation_passed phase_validation_outcome
  done_needs_validation repo none phase_id phase h = absurd (ground arith)
  done_needs_validation repo (some result) none phase h = absurd (ground arith)
  done_needs_validation repo (some result) (some pid) phase h = (
    ground arith,
    ground (arith, eq_iff pid phase.phase_id),
    result,
    refl,
    ground arith,
    ground arith,
    ground arith,
    ground arith,
  )

  -- The record of a phase after its part of the loop.
  abbrev pub phase_after :
      Repo R → R → Option PhaseValidationOutcome → MissionPhase R → MissionPhase R
  phase_after repo now outcome phase = elim (next_status repo outcome phase) [
    | none ↦ phase
    | some status ↦ record phase { status = status; completed_at = completed_at_of now status }
  ]

  not_done_of_next :
      (repo : Repo R) (outcome : Option PhaseValidationOutcome) (phase : MissionPhase R)
      (status : MissionPhaseStatus)
      → next_status repo outcome phase ≡ some status
      → is_done_phase phase.status ≡ false
  unfolding next_status
  not_done_of_next repo outcome phase status h = ground arith

  -- What a pass over one phase leaves in the store.
  pub record Advanced (repo repo' : Repo R) (key : String) (after : MissionPhase R) : Type 0 where
    pub features : repo'.mission_features ≡ repo.mission_features
    pub missions : repo'.missions ≡ repo.missions
    pub tasks : repo'.mission_ids_by_task ≡ repo.mission_ids_by_task
    pub owners : repo'.phase_mission_ids ≡ repo.phase_mission_ids
    pub phases :
        (j : String)
        → lookup j repo'.mission_phases
          ≡ (if key == j then some after else lookup j repo.mission_phases)

  transition_phase_lem :
      (task_id : String) (phase : MissionPhase R) (status : MissionPhaseStatus)
      (completed_at : Option R) (repo : Repo R)
      → lookup phase.phase_id repo.mission_phases ≡ some phase
      → is_done_phase phase.status ≡ false
      → (repo' : Repo R) × (transition_phase task_id phase status completed_at repo ≡ return repo')
        × Advanced repo repo' phase.phase_id
            (record phase { status = status; completed_at = completed_at })
  unfolding transition_phase transition_events update_phase_status set_phase_status
  transition_phase_lem task_id phase status completed_at repo stored open_phase =
      let after : MissionPhase R = record phase { status = status; completed_at = completed_at } in
      let stored' : Repo R = record repo {
        mission_phases = insert phase.phase_id after repo.mission_phases;
      } in
      (
        transition_events task_id phase status stored',
        ground arith,
        record {
          features = ground arith;
          missions = ground arith;
          tasks = ground arith;
          owners = ground arith;
          phases = λ j. ground (arith, lookup-insert phase.phase_id j after repo.mission_phases);
        },
      )

  -- `advance_phase` succeeds on a stored phase, writes its record and leaves the rest.
  pub advance_phase_lem :
      (task_id : String) (now : R) (outcome : Option PhaseValidationOutcome)
      (phase : MissionPhase R) (repo : Repo R)
      → lookup phase.phase_id repo.mission_phases ≡ some phase
      → (repo' : Repo R) × (advance_phase task_id now outcome phase repo ≡ return repo')
        × Advanced repo repo' phase.phase_id (phase_after repo now outcome phase)
  unfolding advance_phase
  advance_phase_lem task_id now outcome phase repo stored =
      elim (Option-cases (next_status repo outcome phase)) [
        | inl e ↦ (
          repo,
          rw (e, advance_phase),
          record {
            features = refl;
            missions = refl;
            tasks = refl;
            owners = refl;
            phases = λ j. ground (arith, e, eq_iff phase.phase_id j);
          },
        )
        | inr (status, e) ↦
            rw (e, advance_phase, phase_after)
              (transition_phase_lem task_id phase status (completed_at_of now status) repo stored
                (not_done_of_next repo outcome phase status e))
      ]

  -- The transitions depend on the store through the features only.
  next_status-features :
      (repo repo' : Repo R) (outcome : Option PhaseValidationOutcome) (phase : MissionPhase R)
      → repo'.mission_features ≡ repo.mission_features
      → next_status repo' outcome phase ≡ next_status repo outcome phase
  unfolding next_status should_start_phase should_start_validation list_features_for_phase
  next_status-features repo repo' outcome phase h = rw h

  -- The phases of the list with their last record: the one that the list names for the key.
  abbrev pub lookup_phase : String → List (MissionPhase R) → Option (MissionPhase R)
  lookup_phase j [] = none
  lookup_phase j (phase ∷ phases) =
      if phase.phase_id == j then some phase else lookup_phase j phases

  -- Each phase of the list is in the store under its id, and no id stands twice.
  abbrev pub AreStored : List (MissionPhase R) → Repo R → Type 0
  AreStored [] repo = Unit
  AreStored (phase ∷ phases) repo =
      (lookup phase.phase_id repo.mission_phases ≡ some phase)
      × (lookup_phase phase.phase_id phases ≡ none)
      × AreStored phases repo

  -- The store after the pass, read at `j`.
  abbrev pub after_pass :
      Repo R
      → R
      → Option PipelineResult
      → Option String
      → List (MissionPhase R)
      → String
      → Option (MissionPhase R)
  after_pass repo now validation phase_id phases j = elim (lookup_phase j phases) [
    | none ↦ lookup j repo.mission_phases
    | some phase ↦
        some (phase_after repo now (phase_validation_outcome validation phase_id phase) phase)
  ]

  AreStored-Advanced :
      (repo repo' : Repo R) (key : String) (after : MissionPhase R) (phases : List (MissionPhase R))
      → Advanced repo repo' key after
      → lookup_phase key phases ≡ none
      → AreStored phases repo
      → AreStored phases repo'
  AreStored-Advanced repo repo' key after [] a n h = tt
  AreStored-Advanced repo repo' key after (phase ∷ phases) a n h = (
    ground (arith, a.phases phase.phase_id, eq_iff key phase.phase_id, eq_iff phase.phase_id key),
    h.1,
    AreStored-Advanced repo repo' key after phases a (ground (arith, eq_iff phase.phase_id key))
        h.2,
  )

  phase_after-features :
      (repo repo' : Repo R) (now : R) (outcome : Option PhaseValidationOutcome)
      (phase : MissionPhase R)
      → repo'.mission_features ≡ repo.mission_features
      → phase_after repo' now outcome phase ≡ phase_after repo now outcome phase
  phase_after-features repo repo' now outcome phase h =
      rw (next_status-features repo repo' outcome phase h, phase_after) refl

  after_pass-cons :
      (repo repo' : Repo R) (now : R) (validation : Option PipelineResult)
      (phase_id : Option String) (phase : MissionPhase R) (phases : List (MissionPhase R))
      (j : String)
      → Advanced repo repo' phase.phase_id
          (phase_after repo now (phase_validation_outcome validation phase_id phase) phase)
      → lookup_phase phase.phase_id phases ≡ none
      → after_pass repo' now validation phase_id phases j
        ≡ after_pass repo now validation phase_id (phase ∷ phases) j
  after_pass-cons repo repo' now validation phase_id phase phases j a n =
      elim (Option-cases (lookup_phase j phases)) [
        | inl e ↦ ground (arith, e, a.phases j, eq_iff phase.phase_id j)
        | inr (q, e) ↦ ground (
          arith,
          e,
          eq_iff phase.phase_id j,
          phase_after-features repo repo' now (phase_validation_outcome validation phase_id q) q
              a.features,
        )
      ]

  pub advance_phases_lem :
      (task_id : String) (now : R) (validation : Option PipelineResult) (phase_id : Option String)
      (phases : List (MissionPhase R)) (last : Option MissionPhaseStatus) (repo : Repo R)
      → AreStored phases repo
      → (last' : Option MissionPhaseStatus) × (repo' : Repo R) × (advance_phases task_id now
            validation phase_id phases last repo
          ≡ return (last', repo'))
        × ((j : String)
            → lookup j repo'.mission_phases ≡ after_pass repo now validation phase_id phases j)
  unfolding advance_phases
  advance_phases_lem task_id now validation phase_id [] last repo h = (last, repo, refl, λ j. refl)
  advance_phases_lem task_id now validation phase_id (phase ∷ phases) last repo h =
      let outcome = phase_validation_outcome validation phase_id phase in
      let (repo', e, a) = advance_phase_lem task_id now outcome phase repo h.0 in
      let stored = AreStored-Advanced repo repo' phase.phase_id _ phases a h.1 h.2 in
      let last' = last_status phase (next_status repo outcome phase) last in
      let (final, repo'', e', p) =
        advance_phases_lem task_id now validation phase_id phases last' repo' stored in
      (
        final,
        repo'',
        rw (e, advance_phases) e',
        λ j. p j ∙ after_pass-cons repo repo' now validation phase_id phase phases j a h.1,
      )

  -- On a store that holds the mission's phases under distinct ids, a pass of the phase machine raises
  -- nothing, and advances every phase at once: each phase of the mission becomes what its transition
  -- in the store before the pass makes of it, and every other phase stays as it was.
  pub advance_mission_phases_lem :
      (repo : Repo R) (task_id : String) (validation : Option PipelineResult)
      (phase_id : Option String) (now : R) (mission : Mission R)
      → get_mission repo task_id ≡ some mission
      → AreStored mission.phases repo
      → (last : Option MissionPhaseStatus) × (repo' : Repo R) × (advance_mission_phases repo task_id
            validation phase_id now
          ≡ return (last, repo'))
        × ((j : String)
            → lookup j repo'.mission_phases
              ≡ after_pass repo now validation phase_id mission.phases j)
  unfolding advance_mission_phases
  advance_mission_phases_lem repo task_id validation phase_id now mission m h =
      rw (m, advance_mission_phases)
        (advance_phases_lem task_id now validation phase_id mission.phases none repo h)

  -- A phase that is done keeps its record, its time of completion included, through every pass.
  pub done_absorbs :
      (repo : Repo R) (now : R) (outcome : Option PhaseValidationOutcome) (phase : MissionPhase R)
      → is_done_phase phase.status ≡ true
      → phase_after repo now outcome phase ≡ phase
  unfolding next_status
  done_absorbs repo now outcome phase h = rw (h, next_status, phase_after) refl
