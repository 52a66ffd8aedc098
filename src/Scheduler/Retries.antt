-- ===== src/Scheduler/Retries.antt =====
-- services/worker_scheduler.py: the retries of an assignment end, and are bounded.
use hungerloop.Prelude.{
  ℕ, zero, suc, ◌+◌, ◌-◌, ◌≤◌, ◌<◌, String, true, false, some, ◌&&◌, Floats, ◌≡◌, refl, arith,
  if_intro,
}
use hungerloop.Models.Planning.{Assignment}
use hungerloop.Models.Worker.{WorkerHandoff}
use hungerloop.Repository.{Repo}
use hungerloop.Budgets.{is_over_budget}
use hungerloop.Scheduler.Execution.{
  RunOutcome, Runtime, Attempted, run_assignment_with_retries, after_run, persist_attempt,
  may_retry, next_try, rounds_of, handoff_failed, coerce_handoff,
}

-- The last handoff of an assignment, if its attempts come to one: its retries are used up, or it
-- did not fail, or it may not be retried; and its count of retries is in bounds.
abbrev pub IsLast : Assignment → Attempted → Type 0
IsLast a (Attempted.ran handoff) =
    (handoff.assignment_id ≡ some a.assignment_id)
    × (a.retry_count ≤ handoff.retry_count)
    × (handoff.retry_count ≤ a.retry_count + (a.max_retries - a.retry_count))
    × ((handoff_failed handoff && handoff.retryable) ≡ true → a.max_retries ≤ handoff.retry_count)
IsLast a (Attempted.safety_stop current_completed) = Unit
IsLast a Attempted.out_of_fuel = ⊥

module _ {R : Type 0} ⦃fl : Floats R⦄ (runtime : Runtime R) (task_id : String) (loop_id : ℕ) where
  IsLast-next :
      (a : Assignment) (attempted : Attempted)
      → a.retry_count < a.max_retries
      → IsLast (next_try a) attempted
      → IsLast a attempted
  IsLast-next a (Attempted.ran handoff) l (i, lo, hi, done) =
      (i, ground (arith, lo), ground (arith, l, hi), done)
  IsLast-next a (Attempted.safety_stop current_completed) l h = tt
  IsLast-next a Attempted.out_of_fuel l h = h

  of_attempt :
      (a : Assignment) (result : WorkerHandoff) (repo : Repo R)
      → may_retry a (persist_attempt task_id loop_id a result repo).0 ≡ false
      → IsLast a (Attempted.ran (persist_attempt task_id loop_id a result repo).0)
  unfolding persist_attempt coerce_handoff
  of_attempt a result repo n = (refl, ground arith, ground arith, λ m. ground (arith, n, m))

  after_run-IsLast :
      (again : Assignment → Repo R → Attempted × Repo R)
      → (a : Assignment)
      → ((repo : Repo R)
          → a.retry_count < a.max_retries
          → IsLast (next_try a) (again (next_try a) repo).0)
      → (outcome : RunOutcome) (repo : Repo R)
      → IsLast a (after_run runtime task_id loop_id again a outcome repo).0
  unfolding after_run
  after_run-IsLast again a h RunOutcome.hit_ceiling repo = tt
  after_run-IsLast again a h (RunOutcome.handed result) repo =
      let (handoff, persisted) = persist_attempt task_id loop_id a result repo in
      if_intro (λ (r : Attempted × Repo R). IsLast a r.0) (is_over_budget persisted task_id)
        (λ o. tt)
        (λ w.
          if_intro (λ (r : Attempted × Repo R). IsLast a r.0) (may_retry a handoff)
            (λ m. IsLast-next a _ (ground (arith, m)) (h _ (ground (arith, m))))
            (λ n. of_attempt a result repo n))

  -- The attempts of an assignment always come to an end, within one round more than the retries
  -- that it has left: at a safety stop, or with a handoff of this assignment whose number of retries
  -- is in bounds, and which is not a failure that could still be retried.
  pub run_assignment_with_retries_lem :
      (fuel : ℕ) (a : Assignment) (repo : Repo R)
      → rounds_of a ≤ fuel
      → IsLast a (run_assignment_with_retries runtime task_id loop_id fuel a repo).0
  unfolding run_assignment_with_retries
  run_assignment_with_retries_lem zero a repo f = absurd (ground (arith, f))
  run_assignment_with_retries_lem (suc fuel) a repo f =
      if_intro (λ (r : Attempted × Repo R). IsLast a r.0) (is_over_budget repo task_id) (λ o. tt)
        (λ w.
          after_run-IsLast (run_assignment_with_retries runtime task_id loop_id fuel) a
            (λ r l. run_assignment_with_retries_lem fuel (next_try a) r (ground (arith, f, l))) _ _)
