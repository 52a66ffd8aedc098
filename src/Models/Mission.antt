-- ===== src/Models/Mission.antt =====
-- models/mission.py
use hungerloop.Prelude.{ℕ, String, Option, List}
use hungerloop.Models.Enums.{MissionPhaseStatus, MissionFeatureStatus}

pub record MissionPhase (R : Type 0) : Type 0 where
  pub phase_id : String
  pub title : String
  pub description : String
  pub feature_ids : List String
  pub validation_contract_ids : List String
  pub status : MissionPhaseStatus
  pub completed_at : Option R

pub record MissionFeature : Type 0 where
  pub feature_id : String
  pub hunger_item_id : String
  pub phase_id : String
  pub title : String
  pub description : String
  pub preconditions : List String
  pub expected_behavior : List String
  pub verification_steps : List String
  pub fulfills : List String
  pub status : MissionFeatureStatus
  pub assigned_worker_ids : List String

pub record Mission (R : Type 0) : Type 0 where
  pub mission_id : String
  pub task_id : String
  pub title : String
  pub description : String
  pub phases : List (MissionPhase R)
  pub features : List MissionFeature
  pub max_parallel_features : Option ℕ
