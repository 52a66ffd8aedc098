-- ===== src/Orchestrator/Progress.antt =====
-- services/loop_orchestrator.py: what a loop whose candidate is not committed leaves.
use mathlib.Core.Option.{map as option_map}
use hungerloop.Prelude.{
  not, ◌&&◌, inl, inr, Option-cases, lookup_or, lookup-insert_self, if◌then◌else◌, Option, none,
  List, ◌+◌, ◌≤◌, String, Bool, true, false, some, [], string_eq, contains, Floats, ◌≡◌, ◌↔◌, refl,
  ◌∙◌, ap, arith, eq_iff, filter,
}
use hungerloop.Models.Hunger.{HungerItem, HungerPolicy}
use hungerloop.Models.Validation.{ValidationReport}
use hungerloop.Ledgers.{find_item}
use hungerloop.Repository.{
  Repo, reset_no_progress_streak, get_hunger_ledger, save_hunger_ledger, append_event,
}
use hungerloop.RefactorTransactions.Settlement.{get_active_transaction}
use hungerloop.CommitManager.{CommitDecision, World}
use hungerloop.Stagnation.{
  StagnationDetector, StagnationResult, Attempts, update, attempts_of, attempted_of,
  exempted_check_keys, attempt_item, count_attempt, is_stagnant,
}
use hungerloop.Stagnation.Items.{update-items, after_attempt}
use hungerloop.Stagnation.Streak.{streak_of, streak-update, has_progress, global_blocked-update}
use hungerloop.Conflicts.{resolve_conflicts, ConflictResolutionResult}
use hungerloop.Conflicts.Keeping.{
  gap_of, has_quarantined, IsResolved, SameCounts, SameCounts-trans, SameCounts-ledgers,
  resolve_conflicts-IsResolved,
}
use hungerloop.HungerUpdate.{apply_validation}
use hungerloop.HungerUpdate.Progress.{apply_validation-items, progress_of}
use hungerloop.Orchestrator.Features.{attempted_hunger_item_ids, announce}
use hungerloop.Orchestrator.{effective_validation, LoopResult, LoopInput, conclude, update_args}

module _ {R : Type 0} ⦃fl : Floats R⦄ (detector : StagnationDetector) (policy : HungerPolicy R)
    (sha256 : String → String) where
  -- What a loop whose candidate is not committed leaves of the repository after the commit manager.
  -- A conflict that quarantines an item sets the streak to zero and clears the verdict; without one
  -- every gap is as it was, one is added to the streak, and the verdict is that of the streak.
  pub record IsRejected (task_id : String) (before : Repo R) (result : LoopResult) (after : Repo R)
      : Type 0 where
    pub gaps :
        has_quarantined result.conflicts ≡ false
        → (j : String)
        → gap_of j (get_hunger_ledger after task_id).items
          ≡ gap_of j (get_hunger_ledger before task_id).items
    pub streak :
        streak_of task_id after
        ≡ (if has_quarantined result.conflicts then 0 else streak_of task_id before + 1)
    pub blocked : (result.stagnation.global_blocked ≡ true) ↔ (
        (has_quarantined result.conflicts ≡ false)
        × (policy.respect_stagnation ≡ true)
        × (detector.max_global_no_progress ≤ streak_of task_id before + 1))

  after_attempt-gap :
      (a : Attempts) (attempted : Bool) (item : HungerItem R)
      → (after_attempt a attempted item).gap_score ≡ item.gap_score
  unfolding attempt_item count_attempt is_stagnant
  after_attempt-gap a attempted item = ground arith

  after_attempt-gaps :
      (a : Attempts) (attempted : Bool) (item : Option (HungerItem R))
      → option_map (λ i. i.gap_score) (option_map (after_attempt a attempted) item)
        ≡ option_map (λ i. i.gap_score) item
  after_attempt-gaps a attempted none = refl
  after_attempt-gaps a attempted (some item) = ap some (after_attempt-gap a attempted item)

  -- The repository with the events of the decision, after the conflicts, and after the update of
  -- the gaps.
  abbrev announced : LoopInput R → CommitDecision → Repo R → Repo R
  announced input decision repo =
      announce input.candidate input.report input.mission input.assignments decision repo

  abbrev resolution :
      Repo R → LoopInput R → CommitDecision → Repo R → List ConflictResolutionResult × Repo R
  resolution before input decision repo =
      let task_id = input.candidate.task_id in
      let told = announced input decision repo in
      resolve_conflicts sha256 task_id input.candidate.loop_id input.report
        (attempted_hunger_item_ids input.assignments input.skipped_ids) decision.committed
        (exempted_check_keys told task_id (get_active_transaction before task_id))
        policy.synthesis_conflict_threshold told

  abbrev updated : Repo R → LoopInput R → CommitDecision → Repo R → Repo R
  updated before input decision repo =
      apply_validation input.candidate.task_id (effective_validation input.report decision)
        (resolution before input decision repo).1

  -- A report without newly passed keys leaves every item as it was.
  idle_items :
      (task_id : String) (report : ValidationReport) (repo : Repo R) (j : String)
      → report.newly_passed_check_keys ≡ []
      → find_item j (get_hunger_ledger (apply_validation task_id report repo) task_id).items
        ≡ find_item j (get_hunger_ledger repo task_id).items
  unfolding progress_of filter
  idle_items task_id report repo j n =
      elim (Option-cases (find_item j (get_hunger_ledger repo task_id).items)) [
        | inl e ↦ ground (arith, n, e, apply_validation-items report task_id repo j)
        | inr (item, e) ↦ ground (arith, n, e, apply_validation-items report task_id repo j)
      ]

  idle_update :
      (task_id : String) (report : ValidationReport) (repo : Repo R)
      → report.newly_passed_check_keys ≡ []
      → SameCounts task_id repo (apply_validation task_id report repo)
  idle_update task_id report repo n = record {
    gaps = λ j. ap (option_map (λ i. i.gap_score)) (idle_items task_id report repo j n);
    streaks = unfold apply_validation in unfold save_hunger_ledger in ground arith;
  }

  announce-SameCounts :
      (input : LoopInput R) (decision : CommitDecision) (repo : Repo R)
      → decision.committed ≡ false
      → SameCounts input.candidate.task_id repo (announced input decision repo)
  announce-SameCounts input decision repo c =
      SameCounts-ledgers input.candidate.task_id repo (announced input decision repo)
        (unfold announce in unfold append_event in ground (arith, c))
        (unfold announce in unfold append_event in ground (arith, c))

  updated-IsResolved :
      (before : Repo R) (input : LoopInput R) (decision : CommitDecision) (repo : Repo R)
      → decision.committed ≡ false
      → IsResolved input.candidate.task_id
          (has_quarantined (resolution before input decision repo).0)
          repo
          (updated before input decision repo)
  updated-IsResolved before input decision repo c =
      let task = input.candidate.task_id in
      let told = announced input decision repo in
      let r = resolution before input decision repo in
      let a = announce-SameCounts input decision repo c in
      let b =
        resolve_conflicts-IsResolved sha256 task input.candidate.loop_id input.report
          (attempted_hunger_item_ids input.assignments input.skipped_ids) decision.committed
          (exempted_check_keys told task (get_active_transaction before task))
          policy.synthesis_conflict_threshold told in
      let quiet : (effective_validation input.report decision).newly_passed_check_keys ≡ [] =
        unfold effective_validation in ground (arith, c) in
      let d = idle_update task (effective_validation input.report decision) r.1 quiet in
      record {
        gaps = λ e.
            SameCounts-trans task repo r.1 (updated before input decision repo)
              (SameCounts-trans task repo told r.1 a (b.gaps e)) d;
        streaks = d.streaks ∙ b.streaks ∙ a.streaks;
      }

  -- The update of the stagnation.
  abbrev counted : Repo R → LoopInput R → CommitDecision → Repo R → StagnationResult × Repo R
  counted before input decision repo =
      update detector input.candidate.task_id input.candidate.loop_id
        (effective_validation input.report decision)
        (update_args detector policy sha256 before input decision)
        (updated before input decision repo)

  conclude_lem :
      (before : Repo R) (input : LoopInput R) (decision : CommitDecision) (w : World R)
      → let o = conclude detector policy sha256 before input decision w in
        let quarantined = has_quarantined (resolution before input decision w.repo).0 in
        let u = counted before input decision w.repo in
        (o.0.conflicts ≡ (resolution before input decision w.repo).0)
        × (o.1.repo.ledgers ≡ u.1.ledgers)
        × (streak_of input.candidate.task_id o.1.repo
            ≡ (if quarantined then 0 else streak_of input.candidate.task_id u.1))
        × (o.0.stagnation.global_blocked ≡ (not quarantined && u.0.global_blocked))
  unfolding conclude reset_no_progress_streak lookup_or
  conclude_lem before input decision w = ground (
    arith,
    eq_iff input.candidate.task_id input.candidate.task_id,
    lookup-insert_self input.candidate.task_id 0
        (counted before input decision w.repo).1.no_progress_streaks,
  )

  gaps_of_ledgers :
      (task_id : String) (repo repo' : Repo R) (j : String)
      → repo.ledgers ≡ repo'.ledgers
      → gap_of j (get_hunger_ledger repo task_id).items
        ≡ gap_of j (get_hunger_ledger repo' task_id).items
  unfolding get_hunger_ledger
  gaps_of_ledgers task_id repo repo' j e = ground (arith, e)

  -- The streak and the gaps after the update of the stagnation.
  counted-gaps :
      (before : Repo R) (input : LoopInput R) (decision : CommitDecision) (repo : Repo R)
      (j : String)
      → gap_of j
          (get_hunger_ledger (counted before input decision repo).1 input.candidate.task_id).items
        ≡ gap_of j
            (get_hunger_ledger (updated before input decision repo) input.candidate.task_id).items
  counted-gaps before input decision repo j =
      let task = input.candidate.task_id in
      let idle = updated before input decision repo in
      let effective = effective_validation input.report decision in
      let args = update_args detector policy sha256 before input decision in
      let a = attempts_of detector idle task input.candidate.loop_id effective args in
      let touched = contains (attempted_of args.attempted_hunger_item_ids effective) j in
      ap (option_map (λ i. i.gap_score))
        (update-items detector idle task input.candidate.loop_id effective args j)
      ∙ after_attempt-gaps a touched (find_item j (get_hunger_ledger idle task).items)

  pub conclude-IsRejected :
      (before : Repo R) (input : LoopInput R) (decision : CommitDecision) (w : World R)
      → decision.committed ≡ false
      → let o = conclude detector policy sha256 before input decision w in
        IsRejected input.candidate.task_id w.repo o.0 o.1.repo
  conclude-IsRejected before input decision w c =
      let task = input.candidate.task_id in
      let loop = input.candidate.loop_id in
      let effective = effective_validation input.report decision in
      let args = update_args detector policy sha256 before input decision in
      let idle = updated before input decision w.repo in
      let o = conclude detector policy sha256 before input decision w in
      let (conflicts, ledgers, streak, blocked) = conclude_lem before input decision w in
      let resolved = updated-IsResolved before input decision w.repo c in
      let stalls : has_progress effective args ≡ false = ground (arith, c) in
      let adds = streak-update detector task loop effective args idle task in
      let verdict = global_blocked-update detector task loop effective args idle in
      record {
        gaps = λ e j.
            gaps_of_ledgers task o.1.repo (counted before input decision w.repo).1 j ledgers
            ∙ counted-gaps before input decision w.repo j
            ∙ (resolved.gaps (ground (arith, e, conflicts))).gaps j;
        streak =
            ground (arith, conflicts, streak, stalls, eq_iff task task, adds, resolved.streaks);
        blocked = ground (arith, conflicts, blocked, stalls, verdict, resolved.streaks);
      }

  pub IsRejected-SameCounts :
      (task_id : String) (before repo : Repo R) (result : LoopResult) (after : Repo R)
      → SameCounts task_id before repo
      → IsRejected task_id repo result after
      → IsRejected task_id before result after
  IsRejected-SameCounts task_id before repo result after u r = record {
    gaps = λ e j. r.gaps e j ∙ u.gaps j;
    streak = ground (arith, r.streak, u.streaks);
    blocked = ground (arith, r.blocked, u.streaks);
  }
