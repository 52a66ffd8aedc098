-- ===== src/ValidationGate.antt =====
-- services/validation_gate.py: the two phases that run the checks; the reruns are in Confirmation,
-- the report in Validation. The acceptance runner is an environment: what the `n`-th run of the
-- task answers for a check is an argument, so that two runs of one check may differ.
pub mod Confirmation
pub mod Validation
pub mod Results
pub mod Report
pub mod Confirm
use hungerloop.Prelude.{
  ℕ, zero, suc, ◌+◌, String, Bool, true, false, Option, none, some, List, [], ◌∷◌, ◌++◌, Dict,
  Floats, lookup, insert, filter, any, all, map, dedupe, contains, is_empty, ◌&&◌, ◌||◌, not, ◌==◌,
  string_eq, if◌then◌else◌, leb, str_leb, and_then, is_truthy, truthy_or_default,
}
use hungerloop.Prelude.Sorting.{sort_by}
use hungerloop.CheckKey.{make_check_key, print_index}
use Prim.Native.String.{◌++◌ as ◌<>◌}
use hungerloop.Models.Enums.{ValidationVerdict, AcceptanceMode}
use hungerloop.Models.Hunger.{AcceptanceCheck, HungerItem, HungerPolicy}
use hungerloop.Models.Validation.{CheckResult, ValidationReport, BestState, CandidateState}
use hungerloop.Repository.{
  Repo, get_best_state, get_hunger_items, get_items_for_check_keys, get_hunger_policy, append_event,
  check_regression_disconfirmed,
}

-- What a run of a check comes to; if it raised, nothing else of it is read.
pub record RunResult : Type 0 where
  pub raised : Bool
  pub passed : Bool
  pub detail : String
  pub evidence_id : Option String

-- `self.runner.run`: the answer of the run with this number.
abbrev pub Runner : Type 0
Runner = AcceptanceCheck → ℕ → RunResult

-- The run did not raise, and it passed.
abbrev pub passes : RunResult → Bool
passes run = not run.raised && run.passed

-- A check with its item and its index in the item.
pub record Slot (R : Type 0) : Type 0 where
  pub item : HungerItem R
  pub index : ℕ
  pub check : AcceptanceCheck

-- What the phases have collected, and whether a run raised: then no check is run any more.
pub record GateState : Type 0 where
  pub raised : Bool
  pub results : List CheckResult
  pub evidence_ids : List String
  pub checks_by_key : Dict String AcceptanceCheck
  pub runs : ℕ

-- `if ev_id: evidence_ids.append(ev_id)`
abbrev pub add_evidence : Option String → List String → List String
add_evidence none ids = ids
add_evidence (some ev_id) ids = if ev_id == "" then ids else ids ++ ev_id ∷ []

module _ {R : Type 0} where
  -- `enumerate(item.acceptance_checks)`, from an index on
  unfoldable pub slots_from : HungerItem R → ℕ → List AcceptanceCheck → List (Slot R)
  slots_from item idx [] = []
  slots_from item idx (check ∷ checks) =
      record { item = item; index = idx; check = check } ∷ slots_from item (suc idx) checks

  -- The nested loops over the items and their checks, in order.
  unfoldable pub slots : List (HungerItem R) → List (Slot R)
  unfolding slots_from
  slots [] = []
  slots (item ∷ items) = slots_from item 0 item.acceptance_checks ++ slots items

  abbrev pub slot_key : Slot R → String
  slot_key slot = make_check_key slot.item.id slot.index

  unfoldable pub dedupe_items_from : List String → List (HungerItem R) → List (HungerItem R)
  unfolding contains
  dedupe_items_from seen [] = []
  dedupe_items_from seen (item ∷ items) =
      let rest = dedupe_items_from (item.id ∷ seen) items in
      let same = dedupe_items_from seen items in if contains seen item.id then same else item ∷ rest

  abbrev pub dedupe_items : List (HungerItem R) → List (HungerItem R)
  dedupe_items items = dedupe_items_from [] items

  unfoldable pub check_result : Bool → String → Slot R → RunResult → CheckResult
  check_result previously workspace_ref slot run = record {
    hunger_item_id = slot.item.id;
    check_index = slot.index;
    check_key = slot_key slot;
    check_type = slot.check.check_type;
    passed = run.passed;
    previously_passed = previously;
    newly_passed = run.passed && not previously;
    regressed = previously && not run.passed;
    detail = run.detail;
    evidence_id = run.evidence_id;
    workspace_ref = some workspace_ref;
  }

  -- One call of the runner, and what both phases do with its answer.
  unfoldable pub run_slot : Runner → List String → String → Slot R → GateState → GateState
  unfolding check_result contains insert
  run_slot runner previously_passed workspace_ref slot state =
      let run = runner slot.check state.runs in
      let previously = contains previously_passed (slot_key slot) in
      if state.raised
      then state
      else if run.raised
      then record state { raised = true }
      else record {
        raised = false;
        results = state.results ++ check_result previously workspace_ref slot run ∷ [];
        evidence_ids = add_evidence run.evidence_id state.evidence_ids;
        checks_by_key = insert (slot_key slot) slot.check state.checks_by_key;
        runs = suc state.runs;
      }

  -- Phase 1: the checks of the target items that do not pass yet.
  unfoldable pub target_slot : Runner → List String → String → Slot R → GateState → GateState
  unfolding run_slot
  target_slot runner previously_passed workspace_ref slot state =
      if contains previously_passed (slot_key slot)
      then record state { checks_by_key = insert (slot_key slot) slot.check state.checks_by_key }
      else run_slot runner previously_passed workspace_ref slot state

  unfoldable pub target_phase :
      Runner → List String → String → List (Slot R) → GateState → GateState
  unfolding target_slot
  target_phase runner previously_passed workspace_ref [] state = state
  target_phase runner previously_passed workspace_ref (slot ∷ rest) state =
      target_phase runner previously_passed workspace_ref rest
        (target_slot runner previously_passed workspace_ref slot state)

  -- Phase 2: the checks that passed before, each once.
  unfoldable pub regression_slot : Runner → List String → String → Slot R → GateState → GateState
  unfolding run_slot any
  regression_slot runner previously_passed workspace_ref slot state =
      if not (contains previously_passed (slot_key slot))
      then state
      else if any (λ r. r.check_key == slot_key slot) state.results
      then state
      else run_slot runner previously_passed workspace_ref slot state

  unfoldable pub regression_phase :
      Runner → List String → String → List (Slot R) → GateState → GateState
  unfolding regression_slot
  regression_phase runner previously_passed workspace_ref [] state = state
  regression_phase runner previously_passed workspace_ref (slot ∷ rest) state =
      regression_phase runner previously_passed workspace_ref rest
        (regression_slot runner previously_passed workspace_ref slot state)

  -- Both phases; the second is run on progress, on an empty first phase, or for continuations.
  unfoldable pub run_phases :
      Runner → List String → String → Bool → List (Slot R) → List (Slot R) → GateState → GateState
  unfolding target_phase regression_phase any
  run_phases runner previously_passed workspace_ref continuation targets all_slots state =
      let state' = target_phase runner previously_passed workspace_ref targets state in
      if any (λ r. r.newly_passed) state'.results || is_empty state'.results || continuation
      then regression_phase runner previously_passed workspace_ref all_slots state'
      else state'
