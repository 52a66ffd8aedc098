-- ===== src/ValidationGate/Results.antt =====
-- What holds of every result that the phases of services/validation_gate.py collect.
use hungerloop.Prelude.{
  ℕ, String, Bool, true, none, List, [], ◌∷◌, Dict, lookup, lookup-insert, insert, any, contains,
  ◌&&◌, not, ◌==◌, string_eq, eq_iff, leb, ◌≡◌, ◌≢◌, refl, arith, AllOf, AllOf-append, if_intro,
  Returns, Returns-ne-none, Answers, Answers-and_then, Returns-Answers, Bool-cases, inl, inr, zero,
  suc,
}
use hungerloop.Models.Hunger.{AcceptanceCheck}
use hungerloop.Models.Validation.{CheckResult}
use hungerloop.ValidationGate.{
  Runner, RunResult, Slot, GateState, slot_key, check_result, run_slot, target_slot, target_phase,
  regression_slot, regression_phase, run_phases,
}
use hungerloop.ValidationGate.Confirmation.{
  confirm_runs, confirm_each, confirm_regressions, Confirmed, disconfirm, settle_result,
  is_disconfirmed, count_runs,
}

-- The flags of a result follow from the baseline and from whether it passed.
pub record IsClassified (previously_passed : List String) (r : CheckResult) : Type 0 where
  pub newly : r.newly_passed ≡ (r.passed && not (contains previously_passed r.check_key))
  pub regress : r.regressed ≡ (contains previously_passed r.check_key && not r.passed)

-- The results of a state are classified, and their checks are known.
pub record IsSound (previously_passed : List String) (state : GateState) : Type 0 where
  pub classified : AllOf (IsClassified previously_passed) state.results
  pub known : AllOf (λ r. lookup r.check_key state.checks_by_key ≢ none) state.results

known-insert :
    (results : List CheckResult) (d : Dict String AcceptanceCheck) (key : String)
    (check : AcceptanceCheck)
    → AllOf (λ r. lookup r.check_key d ≢ none) results
    → AllOf (λ r. lookup r.check_key (insert key check d) ≢ none) results
known-insert [] d key check h = tt
known-insert (r ∷ results) d key check h = (
  λ e. ground (arith, lookup-insert key r.check_key check d, h.0),
  known-insert results d key check h.1,
)

-- Some run of a check raises.
abbrev pub RunRaises : Runner → Type 0
RunRaises runner = (check : AcceptanceCheck) × (n : ℕ) × ((runner check n).raised ≡ true)

-- The state has raised only if a run did.
pub record Raises (runner : Runner) (state : GateState) : Type 0 where
  pub raised : state.raised ≡ true → RunRaises runner

module _ {R : Type 0} (runner : Runner) (previously_passed : List String)
    (workspace_ref : String) where
  run_slot-IsSound :
      (slot : Slot R) (state : GateState)
      → IsSound previously_passed state
      → IsSound previously_passed (run_slot runner previously_passed workspace_ref slot state)
  unfolding run_slot check_result
  run_slot-IsSound slot state h =
      if_intro (IsSound previously_passed) state.raised (λ _. h)
        (λ _.
          if_intro (IsSound previously_passed) (runner slot.check state.runs).raised
            (λ _. record { classified = h.classified; known = h.known })
            (λ _. record {
              classified =
                  AllOf-append (IsClassified previously_passed) state.results _ h.classified
                    (record { newly = refl; regress = refl }, tt);
              known =
                  AllOf-append _ state.results _
                    (known-insert state.results state.checks_by_key (slot_key slot) slot.check
                      h.known)
                    (
                      λ e. ground (
                        arith,
                        lookup-insert (slot_key slot) (slot_key slot) slot.check
                            state.checks_by_key,
                        eq_iff (slot_key slot) (slot_key slot),
                      ),
                      tt,
                    );
            }))

  target_slot-IsSound :
      (slot : Slot R) (state : GateState)
      → IsSound previously_passed state
      → IsSound previously_passed (target_slot runner previously_passed workspace_ref slot state)
  unfolding target_slot
  target_slot-IsSound slot state h =
      if_intro (IsSound previously_passed) (contains previously_passed (slot_key slot))
        (λ e. record {
          classified = h.classified;
          known = known-insert state.results state.checks_by_key (slot_key slot) slot.check h.known;
        })
        (λ e. run_slot-IsSound slot state h)

  target_phase-IsSound :
      (todo : List (Slot R)) (state : GateState)
      → IsSound previously_passed state
      → IsSound previously_passed (target_phase runner previously_passed workspace_ref todo state)
  unfolding target_phase
  target_phase-IsSound [] state h = h
  target_phase-IsSound (slot ∷ todo) state h =
      target_phase-IsSound todo _ (target_slot-IsSound slot state h)

  regression_slot-IsSound :
      (slot : Slot R) (state : GateState)
      → IsSound previously_passed state
      → IsSound previously_passed
          (regression_slot runner previously_passed workspace_ref slot state)
  unfolding regression_slot
  regression_slot-IsSound slot state h =
      if_intro (IsSound previously_passed) (not (contains previously_passed (slot_key slot)))
        (λ _. h)
        (λ _.
          if_intro (IsSound previously_passed)
            (any (λ r. r.check_key == slot_key slot) state.results) (λ _. h)
            (λ _. run_slot-IsSound slot state h))

  regression_phase-IsSound :
      (todo : List (Slot R)) (state : GateState)
      → IsSound previously_passed state
      → IsSound previously_passed
          (regression_phase runner previously_passed workspace_ref todo state)
  unfolding regression_phase
  regression_phase-IsSound [] state h = h
  regression_phase-IsSound (slot ∷ todo) state h =
      regression_phase-IsSound todo _ (regression_slot-IsSound slot state h)

  -- Both phases keep the state sound: every result is newly passed exactly when it passed and the
  -- baseline has no such key, is regressed exactly when it failed and the baseline has the key, and
  -- its check is known to the confirmation.
  pub run_phases-IsSound :
      (continuation : Bool) (targets all_slots : List (Slot R)) (state : GateState)
      → IsSound previously_passed state
      → IsSound previously_passed
          (run_phases runner previously_passed workspace_ref continuation targets all_slots state)
  unfolding run_phases
  run_phases-IsSound continuation targets all_slots state h =
      let h' = target_phase-IsSound targets state h in
      if_intro (IsSound previously_passed) _ (λ _. regression_phase-IsSound all_slots _ h')
        (λ _. h')

module _ {R : Type 0} (runner : Runner) (previously_passed : List String)
    (workspace_ref : String) where
  run_slot-Raises :
      (slot : Slot R) (state : GateState)
      → Raises runner state
      → Raises runner (run_slot runner previously_passed workspace_ref slot state)
  unfolding run_slot
  run_slot-Raises slot state h =
      if_intro (Raises runner) state.raised (λ _. h)
        (λ _.
          if_intro (Raises runner) (runner slot.check state.runs).raised
            (λ e. record { raised = λ _. (slot.check, state.runs, e) })
            (λ _. record { raised = λ e. absurd (ground (arith, e)) }))

  target_phase-Raises :
      (todo : List (Slot R)) (state : GateState)
      → Raises runner state
      → Raises runner (target_phase runner previously_passed workspace_ref todo state)
  unfolding target_phase target_slot
  target_phase-Raises [] state h = h
  target_phase-Raises (slot ∷ todo) state h = target_phase-Raises todo _ (
      if_intro (Raises runner) (contains previously_passed (slot_key slot))
        (λ _. record { raised = h.raised }) (λ _. run_slot-Raises slot state h))

  regression_phase-Raises :
      (todo : List (Slot R)) (state : GateState)
      → Raises runner state
      → Raises runner (regression_phase runner previously_passed workspace_ref todo state)
  unfolding regression_phase regression_slot
  regression_phase-Raises [] state h = h
  regression_phase-Raises (slot ∷ todo) state h = regression_phase-Raises todo _ (
      if_intro (Raises runner) (not (contains previously_passed (slot_key slot))) (λ _. h)
        (λ _.
          if_intro (Raises runner) (any (λ r. r.check_key == slot_key slot) state.results) (λ _. h)
            (λ _. run_slot-Raises slot state h)))

  pub run_phases-Raises :
      (continuation : Bool) (targets all_slots : List (Slot R)) (state : GateState)
      → Raises runner state
      → Raises runner
          (run_phases runner previously_passed workspace_ref continuation targets all_slots state)
  unfolding run_phases
  run_phases-Raises continuation targets all_slots state h =
      let h' = target_phase-Raises targets state h in
      if_intro (Raises runner) _ (λ _. regression_phase-Raises all_slots _ h') (λ _. h')

module _ (runner : Runner) (max_reruns : ℕ) (checks : Dict String AcceptanceCheck)
    (previously_passed : List String) where
  disconfirm-IsClassified :
      (r : CheckResult) (runs : List RunResult)
      → IsClassified previously_passed r
      → r.regressed ≡ true
      → IsClassified previously_passed (disconfirm max_reruns r runs)
  unfolding disconfirm
  disconfirm-IsClassified r runs h e = record {
    newly = ground (arith, h.newly, h.regress);
    regress = ground (arith, h.newly, h.regress);
  }

  settle_result-IsClassified :
      (r : CheckResult) (runs : List RunResult) (c : Confirmed)
      → IsClassified previously_passed r
      → r.regressed ≡ true
      → AllOf (IsClassified previously_passed) c.results
      → Returns
          (λ d. AllOf (IsClassified previously_passed) d.results)
          (settle_result max_reruns r runs c)
  unfolding settle_result
  settle_result-IsClassified r runs c h e k = (
    if_intro (IsClassified previously_passed) (is_disconfirmed runs)
        (λ _. disconfirm-IsClassified r runs h e) (λ _. h),
    k,
  )

  confirm_runs-RunRaises :
      (check : AcceptanceCheck) (n runs : ℕ)
      → any (λ run. run.raised) (confirm_runs runner check n runs) ≡ true
      → RunRaises runner
  unfolding confirm_runs any
  confirm_runs-RunRaises check zero runs h = absurd (ground (arith, h))
  confirm_runs-RunRaises check (suc n) runs h = elim (Bool-cases (runner check runs).raised) [
    | inl e ↦ (check, runs, e)
    | inr e ↦ confirm_runs-RunRaises check n (suc runs) (ground (arith, h, e))
  ]

  -- The confirmation raises only what a run raises when the checks are known, and keeps the results
  -- classified.
  pub confirm_each_lem :
      (results : List CheckResult) (runs : ℕ)
      → AllOf (IsClassified previously_passed) results
      → AllOf (λ r. lookup r.check_key checks ≢ none) results
      → Answers
          (RunRaises runner)
          (λ c. AllOf (IsClassified previously_passed) c.results)
          (confirm_each runner max_reruns checks results runs)
  unfolding confirm_each
  confirm_each_lem [] runs h k = tt
  confirm_each_lem (r ∷ results) runs h k =
      let E = RunRaises runner in
      let Q : Confirmed → Type 0 = λ c. AllOf (IsClassified previously_passed) c.results in
      if_intro (Answers E Q) r.regressed
        (λ e.
          Answers-and_then E (λ _. Unit) Q (lookup r.check_key checks) _
            (Returns-Answers E (λ _. Unit) (lookup r.check_key checks)
              (Returns-ne-none (lookup r.check_key checks) k.0))
            (λ check _.
              let runs' = confirm_runs runner check max_reruns runs in
              if_intro (Answers E Q) (any (λ run. run.raised) runs')
                (λ raised. confirm_runs-RunRaises check max_reruns runs raised)
                (λ _.
                  Answers-and_then E Q Q _ _
                    (confirm_each_lem results (count_runs runs' runs) h.1 k.1)
                    (λ c q.
                      Returns-Answers E Q (settle_result max_reruns r runs' c)
                        (settle_result-IsClassified r runs' c h.0 e q)))))
        (λ _. Answers-and_then E Q Q _ _ (confirm_each_lem results runs h.1 k.1) (λ c q. (h.0, q)))

module _ (runner : Runner) (max_reruns : ℕ) (previously_passed : List String) where
  -- On a sound state, the confirmation of regressions raises no KeyError of its own, only what a run
  -- raises, and what it leaves of the results is classified: newly passed and regressed are as the result's outcome and the baseline
  -- say.
  pub confirm_regressions_lem :
      (state : GateState)
      → IsSound previously_passed state
      → Answers
          (RunRaises runner)
          (λ c. AllOf (IsClassified previously_passed) c.results)
          (confirm_regressions runner max_reruns state)
  unfolding confirm_regressions
  confirm_regressions_lem state h =
      let Q : Confirmed → Type 0 = λ c. AllOf (IsClassified previously_passed) c.results in
      if_intro (Answers (RunRaises runner) Q) (not (any (λ r. r.regressed) state.results))
        (λ _. h.classified)
        (λ _.
          if_intro (Answers (RunRaises runner) Q) (leb max_reruns 0) (λ _. h.classified)
            (λ _.
              confirm_each_lem runner max_reruns state.checks_by_key previously_passed state.results
                state.runs h.classified h.known))
