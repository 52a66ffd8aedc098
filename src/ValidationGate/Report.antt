-- ===== src/ValidationGate/Report.antt =====
-- What the report of services/validation_gate.py says of the check keys, and its verdict.
use hungerloop.Prelude.{
  Answers, Answers-and_then, if_intro, false, ℕ, String, Bool, true, false, Option, List, [], ◌∷◌,
  ◌++◌, filter, any, map, contains, contains-append, contains-filter, contains-dedupe, dedupe,
  is_empty, ◌&&◌, ◌||◌, not, ◌==◌, string_eq, eq_iff, ◌≡◌, refl, arith, AllOf, Floats, str_leb,
}
use hungerloop.Prelude.Sorting.{contains-sort_by, is_empty-sort_by}
use hungerloop.Models.Enums.{ValidationVerdict, is_passing}
use hungerloop.Models.Hunger.{HungerItem}
use hungerloop.Models.Validation.{CheckResult, ValidationReport, BestState, CandidateState}
use hungerloop.Repository.{
  Repo, get_best_state, get_hunger_policy, get_hunger_items, get_items_for_check_keys,
}
use hungerloop.ValidationGate.{Runner, slots, dedupe_items}
use hungerloop.ValidationGate.Confirmation.{Confirmed}
use hungerloop.ValidationGate.Validation.{
  keys_where, currently_passed_keys, sorted_set, sorted, make_report, decide_verdict, accepted_keys,
  gate_state, validate,
}
use hungerloop.ValidationGate.Results.{
  RunRaises, Raises, run_phases-Raises, IsClassified, IsSound, run_phases-IsSound,
  confirm_regressions_lem,
}

contains-keys_where :
    (p : CheckResult → Bool) (results : List CheckResult) (key : String)
    → contains (keys_where p results) key ≡ any (λ r. p r && r.check_key == key) results
unfolding contains filter any
contains-keys_where p [] key = refl
contains-keys_where p (r ∷ results) key = ground (arith, contains-keys_where p results key)

module _ (previously_passed : List String) (key : String) where
  -- A key of the baseline that was run shows up as passed or as regressed.
  run_key_cases :
      (results : List CheckResult)
      → AllOf (IsClassified previously_passed) results
      → contains previously_passed key ≡ true
      → contains (map (λ r. r.check_key) results) key ≡ true
      → (any (λ r. r.passed && r.check_key == key) results
          || any (λ r. r.regressed && r.check_key == key) results)
        ≡ true
  unfolding contains any
  run_key_cases [] h p m = absurd (ground arith)
  run_key_cases (r ∷ results) h p m =
      ground (arith, run_key_cases results h.1, h.0.regress, eq_iff r.check_key key)

  newly_key_cases :
      (results : List CheckResult)
      → AllOf (IsClassified previously_passed) results
      → any (λ r. r.newly_passed && r.check_key == key) results ≡ true
      → (any (λ r. r.passed && r.check_key == key) results ≡ true)
        × (contains previously_passed key ≡ false)
  unfolding any
  newly_key_cases [] h m = absurd (ground arith)
  newly_key_cases (r ∷ results) h m =
      ground (arith, newly_key_cases results h.1, h.0.newly, eq_iff r.check_key key)

  regressed_key_cases :
      (results : List CheckResult)
      → AllOf (IsClassified previously_passed) results
      → any (λ r. r.regressed && r.check_key == key) results ≡ true
      → contains previously_passed key ≡ true
  unfolding any
  regressed_key_cases [] h m = absurd (ground arith)
  regressed_key_cases (r ∷ results) h m =
      ground (arith, regressed_key_cases results h.1, h.0.regress, eq_iff r.check_key key)

contains-sorted :
    (keys : List String) (key : String) → contains (sorted keys) key ≡ contains keys key
unfolding sorted
contains-sorted keys key = contains-sort_by str_leb keys key

contains-sorted_set :
    (keys : List String) (key : String) → contains (sorted_set keys) key ≡ contains keys key
unfolding sorted_set
contains-sorted_set keys key =
    ground (arith, contains-sort_by str_leb (dedupe keys) key, contains-dedupe keys key)

contains-currently :
    (previously_passed : List String) (results : List CheckResult) (key : String)
    → contains (sorted_set (currently_passed_keys previously_passed results)) key ≡ (
        any (λ r. r.passed && r.check_key == key) results
        || (contains previously_passed key && not (contains (map (λ r. r.check_key) results) key)))
unfolding currently_passed_keys
contains-currently previously_passed results key = ground (
  arith,
  contains-sorted_set (currently_passed_keys previously_passed results) key,
  contains-append (keys_where (λ r. r.passed) results)
      (filter (λ k. not (contains (map (λ r. r.check_key) results) k)) previously_passed) key,
  contains-filter (λ k. not (contains (map (λ r. r.check_key) results) k)) previously_passed key,
  contains-keys_where (λ r. r.passed) results key,
)

contains-sorted_where :
    (p : CheckResult → Bool) (results : List CheckResult) (key : String)
    → contains (sorted (keys_where p results)) key ≡ any (λ r. p r && r.check_key == key) results
contains-sorted_where p results key =
    ground (arith, contains-sorted (keys_where p results) key, contains-keys_where p results key)

-- How the report accounts for a key, against the keys that passed before.
pub record Accounts (previously_passed : List String) (report : ValidationReport) (key : String)
    : Type 0 where
  -- A key that passed is still counted as passed, or reported as regressed.
  pub kept :
      contains previously_passed key ≡ true
      → (contains report.currently_passed_check_keys key
          || contains report.regressed_check_keys key)
        ≡ true
  -- A newly passed key is counted as passed, and did not pass before.
  pub newly :
      contains report.newly_passed_check_keys key ≡ true
      → (contains report.currently_passed_check_keys key ≡ true)
        × (contains previously_passed key ≡ false)
  -- Only a key that passed before regresses.
  pub regressed :
      contains report.regressed_check_keys key ≡ true → contains previously_passed key ≡ true

module _ {R : Type 0} where
  make_report-Accounts :
      (task_id : String) (loop_id : ℕ) (candidate : CandidateState) (target_ids : List String)
      (target_items : List (HungerItem R)) (best : Option BestState)
      (previously_passed : List String) (require_evidence : Bool) (report_id : Option String)
      (results : List CheckResult) (evidence : List String) (key : String)
      → AllOf (IsClassified previously_passed) results
      → Accounts previously_passed
          (make_report task_id loop_id candidate target_ids target_items best previously_passed
            require_evidence report_id results evidence)
          key
  unfolding make_report currently_passed_keys
  make_report-Accounts task_id loop_id candidate target_ids target_items best previously_passed
        require_evidence report_id results evidence key h =
      record {
        kept = λ p. ground (
          arith,
          contains-currently previously_passed results key,
          contains-sorted_where (λ r. r.regressed) results key,
          run_key_cases previously_passed key results h,
        );
        newly = λ p. ground (
          arith,
          contains-currently previously_passed results key,
          contains-sorted_where (λ r. r.newly_passed) results key,
          newly_key_cases previously_passed key results h,
        );
        regressed = λ p. ground (
          arith,
          contains-sorted_where (λ r. r.regressed) results key,
          regressed_key_cases previously_passed key results h,
        );
      }

Accounts-same :
    (xs ys : List String) (report : ValidationReport) (key : String)
    → contains xs key ≡ contains ys key
    → Accounts xs report key
    → Accounts ys report key
Accounts-same xs ys report key e a = record {
  kept = λ p. ground (arith, e, a.kept);
  newly = λ p. ground (arith, e, a.newly);
  regressed = λ p. ground (arith, e, a.regressed);
}

module _ {R : Type 0} ⦃fl : Floats R⦄ where
  -- What both phases collect is sound.
  gate_state-IsSound :
      (repo : Repo R) (runner : Runner) (task_id : String) (candidate : CandidateState)
      (target_ids : List String) (runs : ℕ)
      → IsSound
          (dedupe (accepted_keys (get_best_state repo task_id)))
          (gate_state repo runner task_id candidate target_ids runs)
  unfolding gate_state
  gate_state-IsSound repo runner task_id candidate target_ids runs =
      let previously = dedupe (accepted_keys (get_best_state repo task_id)) in
      let target_items = get_hunger_items repo target_ids in
      let regression_items = get_items_for_check_keys repo previously in
      run_phases-IsSound runner previously candidate.workspace_ref
        (get_hunger_policy repo task_id).rejected_candidate_continuation_enabled
        (slots target_items) (slots (dedupe_items (target_items ++ regression_items)))
        (record {
          raised = false;
          results = [];
          evidence_ids = candidate.evidence_ids;
          checks_by_key = [];
          runs = runs;
        })
        (record { classified = tt; known = tt })

  gate_state-Raises :
      (repo : Repo R) (runner : Runner) (task_id : String) (candidate : CandidateState)
      (target_ids : List String) (runs : ℕ)
      → Raises runner (gate_state repo runner task_id candidate target_ids runs)
  unfolding gate_state
  gate_state-Raises repo runner task_id candidate target_ids runs =
      let previously = dedupe (accepted_keys (get_best_state repo task_id)) in
      let target_items = get_hunger_items repo target_ids in
      let regression_items = get_items_for_check_keys repo previously in
      run_phases-Raises runner previously candidate.workspace_ref
        (get_hunger_policy repo task_id).rejected_candidate_continuation_enabled
        (slots target_items) (slots (dedupe_items (target_items ++ regression_items)))
        (record {
          raised = false;
          results = [];
          evidence_ids = candidate.evidence_ids;
          checks_by_key = [];
          runs = runs;
        })
        (record { raised = λ e. absurd (ground (arith, e)) })

  -- `validate` raises only if a run of a check by the runner raises; its own look-ups of checks never
  -- fail. Else it returns a report that accounts for every check key: what passed in the baseline is
  -- still counted or reported as regressed, what is newly passed is counted and did not pass before,
  -- and only a key of the baseline regresses.
  pub validate-Accounts :
      (repo : Repo R) (runner : Runner) (runs : ℕ) (task_id : String) (loop_id : ℕ)
      (candidate : CandidateState) (target_ids : List String) (require_evidence : Bool)
      (report_id : Option String)
      → Answers
          (RunRaises runner)
          (λ outcome.
            (key : String) → Accounts (accepted_keys (get_best_state repo task_id)) outcome.0 key)
          (validate repo runner runs task_id loop_id candidate target_ids require_evidence
            report_id)
  unfolding validate
  validate-Accounts repo runner runs task_id loop_id candidate target_ids require_evidence
        report_id =
      let previously = dedupe (accepted_keys (get_best_state repo task_id)) in
      let state = gate_state repo runner task_id candidate target_ids runs in
      let E = RunRaises runner in
      let Q : ValidationReport × Repo R → Type 0 = λ outcome.
        (key : String) → Accounts (accepted_keys (get_best_state repo task_id)) outcome.0 key in
      if_intro (Answers E Q) state.raised
        (λ e. (gate_state-Raises repo runner task_id candidate target_ids runs).raised e)
        (λ _.
          Answers-and_then {A = Confirmed} E (λ c. AllOf (IsClassified previously) c.results) Q _ _
            (confirm_regressions_lem runner
              (get_hunger_policy repo task_id).regression_confirm_reruns previously state
              (gate_state-IsSound repo runner task_id candidate target_ids runs))
            (λ c q key.
              Accounts-same previously (accepted_keys (get_best_state repo task_id)) _ key
                (contains-dedupe (accepted_keys (get_best_state repo task_id)) key)
                (make_report-Accounts task_id loop_id candidate target_ids
                  (get_hunger_items repo target_ids) (get_best_state repo task_id) previously
                  require_evidence report_id c.results (state.evidence_ids ++ c.evidence_ids) key
                  q)))

is_empty-keys_where :
    (p : CheckResult → Bool) (results : List CheckResult)
    → is_empty (sorted (keys_where p results)) ≡ is_empty (keys_where p results)
unfolding sorted
is_empty-keys_where p results = is_empty-sort_by str_leb (keys_where p results)

module _ {R : Type 0} where
  -- The verdict of a report: PASS and PARTIAL only without a regression and without missing
  -- evidence, PARTIAL only on progress, PASS only if some target item is satisfied and none is
  -- not; and FAIL only for a regression, for missing evidence, or without progress.
  pub verdict_sound :
      (task_id : String) (loop_id : ℕ) (candidate : CandidateState) (target_ids : List String)
      (target_items : List (HungerItem R)) (best : Option BestState)
      (previously_passed : List String) (require_evidence : Bool) (report_id : Option String)
      (results : List CheckResult) (evidence : List String)
      → let report =
          make_report task_id loop_id candidate target_ids target_items best previously_passed
            require_evidence report_id results evidence in
        (is_passing report.verdict ≡ true
          → (is_empty report.regressed_check_keys ≡ true)
            × (is_empty report.missing_evidence ≡ true))
        × (report.verdict ≡ ValidationVerdict.partial → report.has_real_progress ≡ true)
        × (report.verdict ≡ ValidationVerdict.pass
            → (is_empty report.satisfied_hunger_item_ids ≡ false)
              × (is_empty report.unsatisfied_hunger_item_ids ≡ true))
        × (report.verdict ≡ ValidationVerdict.fail
            → (is_empty report.regressed_check_keys
                && is_empty report.missing_evidence
                && report.has_real_progress)
              ≡ false)
  unfolding make_report decide_verdict
  verdict_sound task_id loop_id candidate target_ids target_items best previously_passed
        require_evidence report_id results evidence =
      let e = is_empty-keys_where (λ r. r.regressed) results in
      (
        λ h. ground (arith, e),
        λ h. ground (arith, e),
        λ h. ground (arith, e),
        λ h. ground (arith, e),
      )
