-- ===== src/Orchestrator/Loops.antt =====
-- services/loop_orchestrator.py: loops without a commit, one after the other.
use hungerloop.Prelude.{string_eq, ℕ, suc, String, false, ◌≡◌, Floats}
use hungerloop.Models.Hunger.{HungerPolicy}
use hungerloop.Repository.{Repo}
use hungerloop.CommitManager.{World}
use hungerloop.Stagnation.{StagnationDetector}
use hungerloop.Stagnation.Streak.{streak_of}
use hungerloop.Conflicts.Keeping.{has_quarantined}
use hungerloop.Orchestrator.{LoopResult, handle_empty_plan}
use hungerloop.Orchestrator.Progress.{IsRejected}

module _ {R : Type 0} ⦃fl : Floats R⦄ (detector : StagnationDetector) (policy : HungerPolicy R)
    (sha256 : String → String) where
  abbrev Rejects : String → Repo R → LoopResult → Repo R → Type 0
  Rejects = IsRejected detector policy sha256

  -- A run of so many loops of a task without a commit: with a rejected candidate, or with an empty
  -- plan. Between them anything else may happen to the repository but a change of the task's streak.
  pub data IdleRun (task_id : String) : ℕ → Repo R → Repo R → Type 0 where
    start : {repo : Repo R} → IdleRun task_id 0 repo repo
    elsewhere :
        {n : ℕ} {first last : Repo R}
        → IdleRun task_id n first last
        → (next : Repo R) → streak_of task_id next ≡ streak_of task_id last
        → IdleRun task_id n first next
    rejected :
        {n : ℕ} {first last : Repo R}
        → IdleRun task_id n first last
        → (next : Repo R) → (result : LoopResult) → has_quarantined result.conflicts ≡ false
        → Rejects task_id last result next
        → IdleRun task_id (suc n) first next
    empty_plan :
        {n : ℕ} {first : Repo R}
        → (w : World R) → IdleRun task_id n first w.repo
        → (loop_id : ℕ)
        → IdleRun task_id (suc n) first (handle_empty_plan detector task_id loop_id w).1.repo
