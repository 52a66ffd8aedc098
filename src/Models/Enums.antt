-- ===== src/Models/Enums.antt =====
-- models/enums.py, and the status literals of models/mission.py and models/refactor.py. `OPEN` is
-- the constructor `opened`, since `open` is a reserved word.
use hungerloop.Prelude.{Bool, true, false}

pub data StopReason : Type 0 where
  done hunger_expired budget_exhausted blocked human_required human_paused : StopReason
  safety_stop error : StopReason

pub data ValidationVerdict : Type 0 where
  pass partial fail : ValidationVerdict

pub data AcceptanceCheckType : Type 0 where
  file_exists shell_exit_zero evidence_count_min artifact_type_exists : AcceptanceCheckType
  human_approval llm_judge : AcceptanceCheckType

pub data HungerItemStatus : Type 0 where
  opened working blocked paused closed validated_satisfied : HungerItemStatus

pub data HungerItemType : Type 0 where
  goal_gap memory_consolidation : HungerItemType

pub data DecayType : Type 0 where
  linear loop_count stage_based : DecayType

pub data CompletionMode : Type 0 where
  stop_on_done spend_budget : CompletionMode

pub data LoopPhase : Type 0 where
  explore exploit cooldown : LoopPhase

pub data AcceptanceMode : Type 0 where
  every any_one : AcceptanceMode

pub data MissionPhaseStatus : Type 0 where
  pending in_progress validating done : MissionPhaseStatus

pub data MissionFeatureStatus : Type 0 where
  pending in_progress done blocked : MissionFeatureStatus

pub data RefactorTransactionStatus : Type 0 where
  opened closed_success rolled_back : RefactorTransactionStatus

-- `status == HungerItemStatus.BLOCKED`
abbrev pub is_blocked : HungerItemStatus → Bool
is_blocked HungerItemStatus.blocked = true
is_blocked _ = false

-- `status in _INACTIVE_STATUSES`
abbrev pub is_inactive : HungerItemStatus → Bool
is_inactive HungerItemStatus.closed = true
is_inactive HungerItemStatus.paused = true
is_inactive HungerItemStatus.blocked = true
is_inactive _ = false

-- `status in _DONE_STATUSES`
abbrev pub is_done_status : HungerItemStatus → Bool
is_done_status HungerItemStatus.closed = true
is_done_status HungerItemStatus.validated_satisfied = true
is_done_status _ = false

-- `verdict in {PASS, PARTIAL}`
abbrev pub is_passing : ValidationVerdict → Bool
is_passing ValidationVerdict.fail = false
is_passing _ = true

-- `verdict == PASS`
abbrev pub is_pass : ValidationVerdict → Bool
is_pass ValidationVerdict.pass = true
is_pass _ = false

-- `verdict == FAIL`
abbrev pub is_fail : ValidationVerdict → Bool
is_fail ValidationVerdict.fail = true
is_fail _ = false

-- `status == RefactorTransactionStatus.OPEN`
abbrev pub is_open : RefactorTransactionStatus → Bool
is_open RefactorTransactionStatus.opened = true
is_open _ = false

-- `phase.status == "done"`
abbrev pub is_done_phase : MissionPhaseStatus → Bool
is_done_phase MissionPhaseStatus.done = true
is_done_phase _ = false

-- `feature.status == "done"`
abbrev pub is_done_feature : MissionFeatureStatus → Bool
is_done_feature MissionFeatureStatus.done = true
is_done_feature _ = false

-- `feature.status == "in_progress"`
abbrev pub is_in_progress_feature : MissionFeatureStatus → Bool
is_in_progress_feature MissionFeatureStatus.in_progress = true
is_in_progress_feature _ = false
