-- ===== src/Scheduler/Stopping.antt =====
-- services/worker_scheduler.py: a schedule stops early only at a ceiling of the task.
use hungerloop.Prelude.{
  ℕ, zero, suc, String, true, false, Option, none, some, List, [], ◌∷◌, ◌++◌, string_eq, contains,
  Floats, ◌≡◌, refl, sym, ap, ◌∙◌, arith, eq_iff, if_intro,
}
use hungerloop.Models.Planning.{Assignment}
use hungerloop.Repository.{Repo, append_event}
use hungerloop.Budgets.{is_over_budget}
use hungerloop.Scheduler.{ids_of}
use hungerloop.Scheduler.Execution.{
  RunOutcome, Runtime, Attempted, Progress, Schedule, run_assignment_with_retries, after_run,
  persist_attempt, may_retry, next_try, rounds_of, skip_remaining, emit_assignment_skipped,
  unless_blocked, blocked_by, execute_ordered, go_on,
}

pub unless_blocked_intro :
    {A : Type 0} (P : A → Type 0) (o : Option String) {skip : String → A} {run : A}
    → ((blocker : String) → o ≡ some blocker → P (skip blocker))
    → (o ≡ none → P run)
    → P (unless_blocked o skip run)
unless_blocked_intro P none s r = r refl
unless_blocked_intro P (some blocker) s r = s blocker refl

module _ {R : Type 0} ⦃fl : Floats R⦄ where
  -- Two repositories have the same clocks and policies.
  record SameFunds (before after : Repo R) : Type 0 where
    pub clocks : after.clocks ≡ before.clocks
    pub policies : after.policies ≡ before.policies

  is_over_budget-SameFunds :
      (task_id : String) (before after : Repo R)
      → SameFunds before after
      → is_over_budget after task_id ≡ is_over_budget before task_id
  unfolding is_over_budget hungerloop.Repository.get_hunger_policy
  is_over_budget-SameFunds task_id before after s = ground (arith, s.clocks, s.policies)

  skip_remaining-SameFunds :
      (task_id : String) (loop_id : ℕ) (xs : List Assignment) (skipped : List String)
      (repo : Repo R)
      → SameFunds repo (skip_remaining task_id loop_id xs skipped repo).1
  unfolding skip_remaining emit_assignment_skipped append_event
  skip_remaining-SameFunds task_id loop_id [] skipped repo = record {
    clocks = refl;
    policies = refl;
  }
  skip_remaining-SameFunds task_id loop_id (a ∷ xs) skipped repo =
      if_intro (λ (r : List String × Repo R). SameFunds repo r.1) (contains skipped a.assignment_id)
        (λ e. skip_remaining-SameFunds task_id loop_id xs skipped repo)
        (λ e.
          let s =
            skip_remaining-SameFunds task_id loop_id xs (skipped ++ a.assignment_id ∷ [])
              (emit_assignment_skipped task_id loop_id "safety_stop" a repo) in
          record { clocks = s.clocks; policies = s.policies })

  module _ (runtime : Runtime R) (task_id : String) (loop_id : ℕ) where
    -- A ceiling of the task was hit: the repository is over the budget of the task, or it has the
    -- clocks of a run of the worker, for one of the assignments, that came to the ceiling.
    pub data AtCeiling (ids : List String) (last : Repo R) : Type 0 where
      over_budget : is_over_budget last task_id ≡ true → AtCeiling ids last
      in_run :
          (a : Assignment) (repo : Repo R)
          → contains ids a.assignment_id ≡ true
          → (runtime a repo).0 ≡ RunOutcome.hit_ceiling
          → last.clocks ≡ (runtime a repo).1.clocks
          → AtCeiling ids last

    AtCeiling-SameFunds :
        (ids : List String) (repo last : Repo R)
        → SameFunds repo last
        → AtCeiling ids repo
        → AtCeiling ids last
    AtCeiling-SameFunds ids repo last s (AtCeiling.over_budget e) =
        AtCeiling.over_budget (is_over_budget-SameFunds task_id repo last s ∙ e)
    AtCeiling-SameFunds ids repo last s (AtCeiling.in_run a r m h e) =
        AtCeiling.in_run a r m h (s.clocks ∙ e)

    pub AtCeiling-ids :
        (ids more : List String) (last : Repo R)
        → ((x : String) → contains ids x ≡ true → contains more x ≡ true)
        → AtCeiling ids last
        → AtCeiling more last
    AtCeiling-ids ids more last f (AtCeiling.over_budget e) = AtCeiling.over_budget e
    AtCeiling-ids ids more last f (AtCeiling.in_run a r m h e) =
        AtCeiling.in_run a r (f a.assignment_id m) h e

    -- An attempt stops only at a ceiling.
    abbrev IsStop : List String → Attempted × Repo R → Type 0
    IsStop ids (Attempted.ran handoff, repo) = Unit
    IsStop ids (Attempted.safety_stop current_completed, repo) = AtCeiling ids repo
    IsStop ids (Attempted.out_of_fuel, repo) = Unit

    after_run-IsStop :
        (ids : List String) (again : Assignment → Repo R → Attempted × Repo R) (a : Assignment)
        → contains ids a.assignment_id ≡ true
        → ((repo : Repo R) → IsStop ids (again (next_try a) repo))
        → (started : Repo R) (outcome : RunOutcome) (worked : Repo R)
        → runtime a started ≡ (outcome, worked)
        → IsStop ids (after_run runtime task_id loop_id again a outcome worked)
    unfolding after_run
    after_run-IsStop ids again a m h started RunOutcome.hit_ceiling worked e =
        AtCeiling.in_run a started m (ap (λ (r : RunOutcome × Repo R). r.0) e)
          (sym (ap (λ (r : RunOutcome × Repo R). r.1.clocks) e))
    after_run-IsStop ids again a m h started (RunOutcome.handed result) worked e =
        let (handoff, persisted) = persist_attempt task_id loop_id a result worked in
        if_intro (IsStop ids) (is_over_budget persisted task_id) (λ o. AtCeiling.over_budget o)
          (λ w. if_intro (IsStop ids) (may_retry a handoff) (λ n. h _) (λ n. tt))

    run-IsStop :
        (ids : List String) (fuel : ℕ) (a : Assignment) (repo : Repo R)
        → contains ids a.assignment_id ≡ true
        → IsStop ids (run_assignment_with_retries runtime task_id loop_id fuel a repo)
    unfolding run_assignment_with_retries
    run-IsStop ids zero a repo m = tt
    run-IsStop ids (suc fuel) a repo m =
        if_intro (IsStop ids) (is_over_budget repo task_id) (λ o. AtCeiling.over_budget o)
          (λ w.
            after_run-IsStop ids (run_assignment_with_retries runtime task_id loop_id fuel) a m
              (λ r. run-IsStop ids fuel (next_try a) r m) _ _ _ refl)

    -- A schedule stops only at a ceiling.
    abbrev pub StopsAt : List String → Schedule × Repo R → Type 0
    StopsAt ids (Schedule.completed progress, repo) = Unit
    StopsAt ids (Schedule.cycle_detected skipped_ids, repo) = Unit
    StopsAt ids (Schedule.stopped skipped_ids, repo) = AtCeiling ids repo
    StopsAt ids (Schedule.stuck, repo) = Unit

    StopsAt-ids :
        (ids more : List String) (r : Schedule × Repo R)
        → ((x : String) → contains ids x ≡ true → contains more x ≡ true)
        → StopsAt ids r
        → StopsAt more r
    StopsAt-ids ids more (Schedule.completed progress, repo) f h = tt
    StopsAt-ids ids more (Schedule.cycle_detected skipped_ids, repo) f h = tt
    StopsAt-ids ids more (Schedule.stopped skipped_ids, repo) f h = AtCeiling-ids ids more repo f h
    StopsAt-ids ids more (Schedule.stuck, repo) f h = tt

    go_on-StopsAt :
        (ids : List String) (next : Progress → Repo R → Schedule × Repo R) (a : Assignment)
        (rest : List Assignment) (p : Progress) (attempted : Attempted) (repo : Repo R)
        → IsStop ids (attempted, repo)
        → ((q : Progress) (r : Repo R) → StopsAt ids (next q r))
        → StopsAt ids (go_on runtime task_id loop_id next a rest p attempted repo)
    go_on-StopsAt ids next a rest p Attempted.out_of_fuel repo s h = tt
    go_on-StopsAt ids next a rest p (Attempted.ran handoff) repo s h = h _ repo
    go_on-StopsAt ids next a rest p (Attempted.safety_stop true) repo s h =
        AtCeiling-SameFunds ids repo _
          (skip_remaining-SameFunds task_id loop_id rest p.skipped_ids repo) s
    go_on-StopsAt ids next a rest p (Attempted.safety_stop false) repo s h =
        AtCeiling-SameFunds ids repo _
          (skip_remaining-SameFunds task_id loop_id (a ∷ rest) p.skipped_ids repo) s

    pub execute_ordered-StopsAt :
        (xs : List Assignment) (p : Progress) (repo : Repo R)
        → StopsAt (ids_of xs) (execute_ordered runtime task_id loop_id xs p repo)
    unfolding execute_ordered contains
    execute_ordered-StopsAt [] p repo = tt
    execute_ordered-StopsAt (a ∷ rest) p repo =
        let ids = ids_of (a ∷ rest) in
        let wider = λ (q : Progress) (r : Repo R).
          StopsAt-ids (ids_of rest) ids (execute_ordered runtime task_id loop_id rest q r)
            (λ x m. ground (arith, m)) (execute_ordered-StopsAt rest q r) in
        let round = run_assignment_with_retries runtime task_id loop_id (rounds_of a) a repo in
        unless_blocked_intro (StopsAt ids) (blocked_by p.failed_ids p.skipped_ids a.depends_on)
          (λ blocker e. wider _ _)
          (λ n.
            go_on-StopsAt ids (execute_ordered runtime task_id loop_id rest) a rest p round.0
              round.1
              (run-IsStop ids (rounds_of a) a repo
                (ground (arith, eq_iff a.assignment_id a.assignment_id)))
              wider)
