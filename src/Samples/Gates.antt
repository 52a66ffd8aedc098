-- ===== src/Samples/Gates.antt =====
-- Examples of the validation gate.
use hungerloop.Prelude.{
  Answers, ℕ, zero, suc, String, true, false, none, some, [], ◌∷◌, length, is_empty, ◌≡◌, ◌↔◌,
  milli, ◌≤◌, ◌<◌, ◌&&◌,
}
use hungerloop.Models.Enums.{ValidationVerdict, is_passing}
use hungerloop.Models.Validation.{ValidationReport}
use hungerloop.Repository.{Repo, get_best_state}
use hungerloop.ValidationGate.{Runner, GateState, run_phases, slots}
use hungerloop.ValidationGate.Validation.{validate, accepted_keys, make_report}
use hungerloop.ValidationGate.Confirmation.{confirm_runs, is_disconfirmed}
use hungerloop.ValidationGate.Results.{RunRaises, IsSound, run_phases-IsSound}
use hungerloop.ValidationGate.Confirm.{AllPass, confirm_runs_lem}
use hungerloop.ValidationGate.Report.{Accounts, validate-Accounts, verdict_sound}
use hungerloop.Samples.{repo, candidate, a_check, item, best}

-- Only the first run fails.
abbrev flaky : Runner
flaky check zero = record { raised = false; passed = false; detail = ""; evidence_id = none }
flaky check (suc n) = record { raised = false; passed = true; detail = ""; evidence_id = none }

-- The check "A:0" of the baseline regresses in the first run, and is confirmed in the next.
validate-Accounts_example :
    Answers
      (RunRaises flaky)
      (λ (outcome : ValidationReport × Repo ℕ).
        (key : String) → Accounts (accepted_keys (get_best_state repo "t")) outcome.0 key)
      (validate repo flaky 0 "t" 2 candidate ("A" ∷ []) true none)
validate-Accounts_example = validate-Accounts repo flaky 0 "t" 2 candidate ("A" ∷ []) true none

confirm_runs_example :
    ((is_disconfirmed (confirm_runs flaky a_check 2 1) ≡ true)
      ↔ ((0 < 2) × AllPass flaky a_check 1 2))
    × (length (confirm_runs flaky a_check 2 1) ≤ 2)
confirm_runs_example = confirm_runs_lem flaky a_check 2 1

verdict_sound_example :
    let report =
      make_report "t" 2 candidate ("A" ∷ []) (item ∷ []) (some best) ("A:0" ∷ []) true none [] [] in
    (is_passing report.verdict ≡ true
      → (is_empty report.regressed_check_keys ≡ true) × (is_empty report.missing_evidence ≡ true))
    × (report.verdict ≡ ValidationVerdict.partial → report.has_real_progress ≡ true)
    × (report.verdict ≡ ValidationVerdict.pass
        → (is_empty report.satisfied_hunger_item_ids ≡ false)
          × (is_empty report.unsatisfied_hunger_item_ids ≡ true))
    × (report.verdict ≡ ValidationVerdict.fail
        → (is_empty report.regressed_check_keys
            && is_empty report.missing_evidence
            && report.has_real_progress)
          ≡ false)
verdict_sound_example =
    verdict_sound "t" 2 candidate ("A" ∷ []) (item ∷ []) (some best) ("A:0" ∷ []) true none [] []

abbrev start : GateState
start = record { raised = false; results = []; evidence_ids = []; checks_by_key = []; runs = 0 }

start-IsSound : IsSound ("A:0" ∷ []) start
start-IsSound = record { classified = tt; known = tt }

abbrev after_phases : GateState
after_phases = run_phases flaky ("A:0" ∷ []) "w" false (slots (item ∷ [])) (slots (item ∷ [])) start

phases-IsSound : IsSound ("A:0" ∷ []) after_phases
phases-IsSound =
    run_phases-IsSound flaky ("A:0" ∷ []) "w" false (slots (item ∷ [])) (slots (item ∷ [])) start
      start-IsSound

run_phases_example : IsSound ("A:0" ∷ []) after_phases
run_phases_example =
    run_phases-IsSound flaky ("A:0" ∷ []) "w" false (slots (item ∷ [])) (slots (item ∷ [])) start
      start-IsSound
