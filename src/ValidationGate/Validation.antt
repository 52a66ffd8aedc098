-- ===== src/ValidationGate/Validation.antt =====
-- The verdict, the report and `validate` of services/validation_gate.py.
use hungerloop.Prelude.{
  ℕ, String, Bool, false, Option, none, some, List, [], ◌∷◌, ◌++◌, Floats, filter, any, all, map,
  dedupe, contains, is_empty, ◌&&◌, not, ◌==◌, string_eq, if◌then◌else◌, str_leb, and_then,
  truthy_or_default,
}
use hungerloop.Prelude.Sorting.{sort_by}
use hungerloop.CheckKey.{print_index}
use Prim.Native.String.{◌++◌ as ◌<>◌}
use hungerloop.Models.Enums.{ValidationVerdict, AcceptanceMode}
use hungerloop.Models.Hunger.{HungerItem}
use hungerloop.Models.Validation.{CheckResult, ValidationReport, BestState, CandidateState}
use hungerloop.Repository.{
  Repo, get_best_state, get_hunger_items, get_items_for_check_keys, get_hunger_policy, append_event,
  check_regression_disconfirmed,
}
use hungerloop.ValidationGate.{
  GateState, Runner, dedupe_items, dedupe_items_from, run_phases, slots,
}
use hungerloop.ValidationGate.Confirmation.{confirm_regressions}

module _ {R : Type 0} where
  -- The outcome of one target item, by its results and its mode.
  unfoldable pub item_ok : List CheckResult → HungerItem R → Bool
  unfolding filter any all
  item_ok check_results item =
      let results = filter (λ r. r.hunger_item_id == item.id) check_results in
      if is_empty results then false else elim item.acceptance_mode [
        | AcceptanceMode.every ↦ all (λ r. r.passed) results
        | AcceptanceMode.any_one ↦ any (λ r. r.passed) results
      ]

  -- `_aggregate_item_satisfaction`: the ids of the satisfied and of the other target items.
  unfoldable pub aggregate_item_satisfaction :
      List (HungerItem R) → List CheckResult → List String × List String
  unfolding filter item_ok
  aggregate_item_satisfaction target_items check_results = (
    map (λ item. item.id) (filter (item_ok check_results) target_items),
    map (λ item. item.id) (filter (λ item. not (item_ok check_results item)) target_items),
  )

unfoldable pub decide_verdict :
    List String → List String → List String → List String → List String → ValidationVerdict
decide_verdict newly_passed regressed missing_evidence satisfied unsatisfied =
    if not (is_empty regressed)
    then ValidationVerdict.fail
    else if not (is_empty missing_evidence)
    then ValidationVerdict.fail
    else if not (is_empty satisfied) && is_empty unsatisfied
    then ValidationVerdict.pass
    else if not (is_empty newly_passed)
    then ValidationVerdict.partial
    else ValidationVerdict.fail

-- The keys of the results that a test keeps.
abbrev pub keys_where : (CheckResult → Bool) → List CheckResult → List String
keys_where p results = map (λ r. r.check_key) (filter p results)

-- `currently_passed`: the keys that passed, and the earlier ones that were not run.
unfoldable pub currently_passed_keys : List String → List CheckResult → List String
unfolding filter contains
currently_passed_keys previously_passed results =
    keys_where (λ r. r.passed) results
    ++ filter (λ key. not (contains (map (λ r. r.check_key) results) key)) previously_passed

-- `sorted(set(keys))`, and `sorted(keys)` of a list
unfoldable pub sorted_set : List String → List String
unfolding sort_by dedupe str_leb
sorted_set keys = sort_by str_leb (dedupe keys)

unfoldable pub sorted : List String → List String
unfolding sort_by str_leb
sorted keys = sort_by str_leb keys

-- `list(best.accepted_check_keys if best else [])`
abbrev pub accepted_keys : Option BestState → List String
accepted_keys none = []
accepted_keys (some best) = best.accepted_check_keys

module _ {R : Type 0} where
  -- The report, from what was run.
  unfoldable pub make_report :
      String
      → ℕ
      → CandidateState
      → List String
      → List (HungerItem R)
      → Option BestState
      → List String
      → Bool
      → Option String
      → List CheckResult
      → List String
      → ValidationReport
  unfolding aggregate_item_satisfaction decide_verdict currently_passed_keys sorted sorted_set
      filter dedupe print_index
  make_report task_id loop_id candidate target_ids target_items best previously_passed
        require_evidence report_id results evidence =
      let newly_passed = keys_where (λ r. r.newly_passed) results in
      let regressed = keys_where (λ r. r.regressed) results in
      let missing =
        if require_evidence && is_empty evidence
        then "Candidate produced no evidence." ∷ []
        else [] in
      let (satisfied, unsatisfied) = aggregate_item_satisfaction target_items results in
      record {
        id = truthy_or_default report_id (("VAL-" <> task_id) <> ("-" <> print_index loop_id));
        task_id = task_id;
        loop_id = loop_id;
        candidate_state_id = candidate.id;
        baseline_state_id = (elim best [ none ↦ none | some b ↦ some b.state_id ]);
        verdict = decide_verdict newly_passed regressed missing satisfied unsatisfied;
        attempted_hunger_item_ids = target_ids;
        check_results = results;
        currently_passed_check_keys = sorted_set (currently_passed_keys previously_passed results);
        newly_passed_check_keys = sorted newly_passed;
        regressed_check_keys = sorted regressed;
        attempted_check_keys = [];
        satisfied_hunger_item_ids = satisfied;
        unsatisfied_hunger_item_ids = unsatisfied;
        evidence_ids = dedupe evidence;
        missing_evidence = missing;
        has_real_progress = not (is_empty newly_passed);
      }

  -- The events of the cleared regressions.
  unfoldable pub record_cleared : String → ℕ → ℕ → List String → Repo R → Repo R
  unfolding append_event
  record_cleared task_id loop_id max_reruns [] repo = repo
  record_cleared task_id loop_id max_reruns (key ∷ keys) repo =
      record_cleared task_id loop_id max_reruns keys
        (append_event (check_regression_disconfirmed key max_reruns) task_id (some loop_id) repo)

module _ {R : Type 0} ⦃fl : Floats R⦄ where
  -- What both phases leave for the task's baseline.
  unfoldable pub gate_state :
      Repo R → Runner → String → CandidateState → List String → ℕ → GateState
  unfolding get_best_state get_hunger_items get_items_for_check_keys get_hunger_policy slots
      run_phases dedupe_items_from dedupe
  gate_state repo runner task_id candidate target_ids runs =
      let previously_passed = dedupe (accepted_keys (get_best_state repo task_id)) in
      let target_items = get_hunger_items repo target_ids in
      let regression_items = get_items_for_check_keys repo previously_passed in
      run_phases runner previously_passed candidate.workspace_ref
        (get_hunger_policy repo task_id).rejected_candidate_continuation_enabled
        (slots target_items) (slots (dedupe_items (target_items ++ regression_items)))
        (record {
          raised = false;
          results = [];
          evidence_ids = candidate.evidence_ids;
          checks_by_key = [];
          runs = runs;
        })

  -- `validate`: the report and the repository after it; `none` is what a run raised,
  -- or a KeyError.
  unfoldable pub validate :
      Repo R
      → Runner
      → ℕ
      → String
      → ℕ
      → CandidateState
      → List String
      → Bool
      → Option String
      → Option (ValidationReport × Repo R)
  unfolding gate_state confirm_regressions make_report record_cleared get_best_state
      get_hunger_items get_hunger_policy dedupe
  validate repo runner runs task_id loop_id candidate target_ids require_evidence report_id =
      let state = gate_state repo runner task_id candidate target_ids runs in
      let max_reruns = (get_hunger_policy repo task_id).regression_confirm_reruns in
      let best = get_best_state repo task_id in
      let reported = and_then (confirm_regressions runner max_reruns state) (λ c. some (
        make_report task_id loop_id candidate target_ids (get_hunger_items repo target_ids) best
            (dedupe (accepted_keys best)) require_evidence report_id c.results
            (state.evidence_ids ++ c.evidence_ids),
        record_cleared task_id loop_id max_reruns c.cleared repo,
      )) in
      if state.raised then none else reported
