-- ===== src/Stagnation/Streak.antt =====
-- services/stagnation_detector.py: the streak of updates without committed progress, over the loops
-- of a task.
use hungerloop.Prelude.{
  ℕ, suc, ◌+◌, ◌≤◌, String, Bool, true, false, ◌&&◌, ◌≡◌, ◌∙◌, arith, ◌↔◌, leb, not, lookup_or,
  lookup-insert, eq_iff, string_eq, Floats, ◌==◌, if◌then◌else◌,
}
use hungerloop.Models.Validation.{ValidationReport}
use hungerloop.Repository.{
  Repo, reset_no_progress_streak, increment_no_progress_streak, save_hunger_ledger,
}
use hungerloop.Stagnation.{StagnationDetector, Attempted, update, update_streak}

-- The streak of a task.
abbrev pub streak_of : {R : Type 0} → String → Repo R → ℕ
streak_of task_id repo = lookup_or 0 task_id repo.no_progress_streaks

-- The update counts as committed progress.
abbrev pub has_progress : ValidationReport → Attempted → Bool
has_progress report args = args.candidate_committed && report.has_real_progress

module _ {R : Type 0} ⦃fl : Floats R⦄ (detector : StagnationDetector) where
  -- An update sets the streak of its task to zero after progress, else adds one to it, and leaves
  -- the streaks of the other tasks.
  pub streak-update :
      (task_id : String) (loop_id : ℕ) (report : ValidationReport) (args : Attempted)
      (repo : Repo R) (t : String)
      → streak_of t (update detector task_id loop_id report args repo).1 ≡ (
          if task_id == t
          then if has_progress report args then 0 else streak_of task_id repo + 1
          else streak_of t repo)
  unfolding update update_streak reset_no_progress_streak increment_no_progress_streak lookup_or
      save_hunger_ledger
  streak-update task_id loop_id report args repo t = ground (
    arith,
    lookup-insert task_id t 0 repo.no_progress_streaks,
    eq_iff task_id t,
    lookup-insert task_id t (streak_of task_id repo + 1) repo.no_progress_streaks,
  )

  -- A run with so many updates of the task without progress, between which anything else may
  -- happen to the repository but a change of the task's streak.
  pub data StalledRun (task_id : String) : ℕ → Repo R → Repo R → Type 0 where
    start : {repo : Repo R} → StalledRun task_id 0 repo repo
    elsewhere :
        {n : ℕ} {first last : Repo R}
        → StalledRun task_id n first last
        → (next : Repo R) → streak_of task_id next ≡ streak_of task_id last
        → StalledRun task_id n first next
    stalled :
        {n : ℕ} {first last : Repo R}
        → StalledRun task_id n first last
        → (loop_id : ℕ) (report : ValidationReport) (args : Attempted)
        → has_progress report args ≡ false
        → StalledRun task_id (suc n) first (update detector task_id loop_id report args last).1

  streak-StalledRun :
      (task_id : String) (n : ℕ) (first last : Repo R)
      → StalledRun task_id n first last
      → streak_of task_id last ≡ streak_of task_id first + n
  streak-StalledRun task_id n first last StalledRun.start = ground arith
  streak-StalledRun task_id n first last (StalledRun.elsewhere {n = m} {last = before} run next e) =
      e ∙ streak-StalledRun task_id m first before run
  streak-StalledRun task_id n first last
        (StalledRun.stalled {n = m} {last = before} run loop_id report args h) =
      ground (
        arith,
        streak-StalledRun task_id m first before run,
        h,
        eq_iff task_id task_id,
        streak-update task_id loop_id report args before task_id,
      )

  pub global_blocked-update :
      (task_id : String) (loop_id : ℕ) (report : ValidationReport) (args : Attempted)
      (repo : Repo R)
      → (update detector task_id loop_id report args repo).0.global_blocked ≡ (
          not (has_progress report args)
          && args.respect_stagnation
          && leb detector.max_global_no_progress (streak_of task_id repo + 1))
  unfolding update update_streak increment_no_progress_streak save_hunger_ledger
  global_blocked-update task_id loop_id report args repo = ground arith

  -- From a streak of zero, and any run of updates without progress after it, the next update
  -- without progress reports the task as globally blocked exactly when it respects stagnation and
  -- makes the number of updates without progress reach the limit.
  pub stalled_run_blocks :
      (task_id : String) (n : ℕ) (first last : Repo R) (loop_id : ℕ) (report : ValidationReport)
      (args : Attempted)
      → streak_of task_id first ≡ 0
      → StalledRun task_id n first last
      → has_progress report args ≡ false
      → ((update detector task_id loop_id report args last).0.global_blocked ≡ true)
        ↔ ((args.respect_stagnation ≡ true) × (detector.max_global_no_progress ≤ n + 1))
  stalled_run_blocks task_id n first last loop_id report args z run h = ground (
    arith,
    z,
    h,
    streak-StalledRun task_id n first last run,
    global_blocked-update task_id loop_id report args last,
  )
