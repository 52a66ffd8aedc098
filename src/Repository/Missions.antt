-- ===== src/Repository/Missions.antt =====
-- The mission operations of repository/in_memory_repo.py.
use hungerloop.Prelude.{
  String, true, false, Option, none, some, List, lookup, insert, values, filter, ◌&&◌, not, ◌==◌,
  string_eq, if◌then◌else◌,
}
use hungerloop.Models.Enums.{
  MissionPhaseStatus, MissionFeatureStatus, is_done_phase, is_done_feature,
}
use hungerloop.Models.Mission.{MissionPhase, MissionFeature, Mission}
use hungerloop.Repository.{Repo, Result, return, raise, key_error, illegal_phase_transition}

module _ {R : Type 0} where
  unfoldable pub list_mission_phases : Repo R → String → List (MissionPhase R)
  unfolding filter lookup
  list_mission_phases repo mission_id =
      filter
        (λ phase. elim (lookup phase.phase_id repo.phase_mission_ids) [
          | none ↦ false
          | some owner ↦ owner == mission_id
        ])
        (values repo.mission_phases)

  unfoldable pub list_features_for_phase : Repo R → String → List MissionFeature
  unfolding filter
  list_features_for_phase repo phase_id =
      filter (λ feature. feature.phase_id == phase_id) (values repo.mission_features)

  with_phases : Repo R → String → Option (Mission R) → Option (Mission R)
  unfolding list_mission_phases
  with_phases repo mission_id none = none
  with_phases repo mission_id (some mission) =
      some (record mission { phases = list_mission_phases repo mission_id })

  -- The features of the copy, which no modelled service reads, are those that were saved with it.
  unfoldable pub get_mission : Repo R → String → Option (Mission R)
  unfolding lookup with_phases
  get_mission repo task_id = elim (lookup task_id repo.mission_ids_by_task) [
    | none ↦ none
    | some mission_id ↦ with_phases repo mission_id (lookup mission_id repo.missions)
  ]

  unfoldable pub set_phase_status :
      String → MissionPhaseStatus → Option R → MissionPhase R → Repo R → Result (Repo R)
  unfolding insert
  set_phase_status phase_id status completed_at phase repo =
      if is_done_phase phase.status && not (is_done_phase status)
      then raise illegal_phase_transition
      else return (record repo {
        mission_phases =
            insert phase_id (record phase { status = status; completed_at = completed_at })
              repo.mission_phases;
      })

  unfoldable pub update_phase_status :
      String → MissionPhaseStatus → Option R → Repo R → Result (Repo R)
  unfolding lookup set_phase_status
  update_phase_status phase_id status completed_at repo =
      elim (lookup phase_id repo.mission_phases) [
        | none ↦ raise key_error
        | some phase ↦ set_phase_status phase_id status completed_at phase repo
      ]

  -- A blocked feature is not set to done.
  set_feature_status : String → MissionFeatureStatus → MissionFeature → Repo R → Result (Repo R)
  unfolding insert
  set_feature_status feature_id status feature repo =
      if (elim feature.status [ MissionFeatureStatus.blocked ↦ true | _ ↦ false ])
        && is_done_feature status
      then raise illegal_phase_transition
      else return (record repo {
        mission_features =
            insert feature_id (record feature { status = status }) repo.mission_features;
      })

  unfoldable pub update_feature_status : String → MissionFeatureStatus → Repo R → Result (Repo R)
  unfolding lookup set_feature_status
  update_feature_status feature_id status repo = elim (lookup feature_id repo.mission_features) [
    | none ↦ raise key_error
    | some feature ↦ set_feature_status feature_id status feature repo
  ]
