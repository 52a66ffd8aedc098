-- ===== src/Orchestrator/Features.antt =====
-- services/loop_orchestrator.py: the items and the mission features of a loop's assignments, and the
-- events of its outcome.
use Prim.Native.String
use hungerloop.Prelude.{
  ℕ, suc, String, Option, none, some, List, [], ◌∷◌, ◌++◌, ◌==◌, ◌||◌, not, string_eq,
  if◌then◌else◌, contains, all, dedupe, is_empty,
}
use hungerloop.CheckKey.{print_index}
use hungerloop.Models.Mission.{Mission, MissionFeature}
use hungerloop.Models.Planning.{Assignment}
use hungerloop.Models.Validation.{ValidationReport, CandidateState}
use hungerloop.Repository.{Repo, EventBody, append_event}
use hungerloop.CommitManager.{CommitDecision}

-- `if item_id not in attempted: attempted.append(item_id)`
unfoldable pub append_new : List String → List String → List String
append_new attempted [] = attempted
append_new attempted (item_id ∷ item_ids) =
    let more = append_new (attempted ++ item_id ∷ []) item_ids in
    let same = append_new attempted item_ids in if contains attempted item_id then same else more

unfoldable pub attempted_from : List String → List String → List Assignment → List String
attempted_from skipped attempted [] = attempted
attempted_from skipped attempted (a ∷ assignments) =
    let passed = attempted_from skipped attempted assignments in
    let taken =
      attempted_from skipped (append_new attempted a.target_hunger_item_ids) assignments in
    if contains skipped a.assignment_id then passed else taken

unfoldable pub attempted_hunger_item_ids : List Assignment → List String → List String
attempted_hunger_item_ids assignments skipped_ids = attempted_from skipped_ids [] assignments

-- The first feature that the assignment targets, itself or by its item.
unfoldable pub feature_of : List MissionFeature → Assignment → Option MissionFeature
feature_of [] a = none
feature_of (feature ∷ features) a =
    let rest = feature_of features a in
    if contains a.target_feature_ids feature.feature_id
      || contains a.target_hunger_item_ids feature.hunger_item_id
    then some feature
    else rest

unfoldable pub satisfied_features :
    List MissionFeature → List String → List Assignment → List String
satisfied_features features satisfied [] = []
satisfied_features features satisfied (a ∷ assignments) =
    let rest = satisfied_features features satisfied assignments in
    let found : List String = elim (feature_of features a) [
      | none ↦ rest
      | some feature ↦ feature.feature_id ∷ rest
    ] in
    if is_empty a.target_hunger_item_ids
    then rest
    else if not (all (contains satisfied) a.target_hunger_item_ids)
    then rest
    else found

-- `assignment_id`, or one made from the place of the assignment when it has none
unfoldable pub assignment_id_of : String → ℕ → ℕ → Assignment → String
assignment_id_of task_id loop_id index a =
    if a.assignment_id == ""
    then String.◌++◌ "ASGN-" (
        String.◌++◌ task_id (
          String.◌++◌ "-"
            (String.◌++◌ (print_index loop_id) (String.◌++◌ "-" (print_index index)))))
    else a.assignment_id

module _ {R : Type 0} where
  unfoldable pub completed_feature_ids :
      Option (Mission R) → List Assignment → ValidationReport → List String
  completed_feature_ids none assignments report = []
  completed_feature_ids (some mission) assignments report =
      dedupe (satisfied_features mission.features report.satisfied_hunger_item_ids assignments)

  -- The loop over the assignments, from an index on.
  unfoldable pub emit_features_from :
      String → ℕ → Mission R → List String → ℕ → List Assignment → Repo R → Repo R
  emit_features_from task_id loop_id mission completed index [] repo = repo
  emit_features_from task_id loop_id mission completed index (a ∷ assignments) repo =
      let rest = emit_features_from task_id loop_id mission completed (suc index) assignments in
      elim (feature_of mission.features a) [
        | none ↦ rest repo
        | some feature ↦
            let event =
              EventBody.mission_feature_completed mission.mission_id feature.phase_id
                feature.feature_id (assignment_id_of task_id loop_id index a) a.agent_id
                a.target_hunger_item_ids a.target_feature_ids in
            if not (contains completed feature.feature_id)
            then rest repo
            else rest (append_event event task_id (some loop_id) repo)
      ]

  unfoldable pub emit_feature_completed_events :
      String → ℕ → Option (Mission R) → List Assignment → List String → Repo R → Repo R
  emit_feature_completed_events task_id loop_id none assignments completed repo = repo
  emit_feature_completed_events task_id loop_id (some mission) assignments completed repo =
      if is_empty completed
      then repo
      else emit_features_from task_id loop_id mission completed 0 assignments repo

  -- The events of a decision
  unfoldable pub announce :
      CandidateState
      → ValidationReport
      → Option (Mission R)
      → List Assignment
      → CommitDecision
      → Repo R
      → Repo R
  announce candidate report mission assignments decision repo =
      if decision.committed
      then emit_feature_completed_events candidate.task_id candidate.loop_id mission assignments
          (completed_feature_ids mission assignments report)
          (append_event (EventBody.candidate_committed candidate.id report.id) candidate.task_id
            (some candidate.loop_id) repo)
      else append_event (EventBody.candidate_rejected candidate.id report.id decision.reason)
          candidate.task_id (some candidate.loop_id) repo
