-- ===== src/Stagnation.antt =====
-- services/stagnation_detector.py: the failure counts of the items, and the streak of loops without
-- progress. The set of the attempted items is read in the order of first occurrence.
pub mod Items
pub mod Exempted
pub mod Streak
use hungerloop.Prelude.{
  ℕ, ◌+◌, String, Bool, true, false, Option, none, some, List, [], ◌∷◌, ◌&&◌, not, ◌==◌, string_eq,
  if◌then◌else◌, leb, map, filter, contains, dedupe, subset, is_empty, Floats,
}
use hungerloop.CheckKey.{item_of_key}
use hungerloop.Models.Enums.{HungerItemStatus, is_done_status, is_open}
use hungerloop.Models.Hunger.{HungerItem, HungerLedger, HungerPolicy}
use hungerloop.Models.Validation.{ValidationReport}
use hungerloop.Models.Refactor.{RefactorTransaction}
use hungerloop.Ledgers.{find_item, change_item}
use hungerloop.Repository.{
  Repo, get_hunger_policy, get_hunger_ledger, save_hunger_ledger, reset_no_progress_streak,
  increment_no_progress_streak,
}

pub record StagnationResult : Type 0 where
  pub blocked_items : List String
  pub global_blocked : Bool
  pub no_progress_streak : Option ℕ

-- The limits that the detector is made with.
pub record StagnationDetector : Type 0 where
  pub max_item_failures : ℕ
  pub max_global_no_progress : ℕ

abbrev pub default_detector : StagnationDetector
default_detector = record { max_item_failures = 10; max_global_no_progress = 5 }

-- What the loop over the attempted items reads.
pub record Attempts : Type 0 where
  pub loop_id : ℕ
  pub newly_progressed : List String
  pub exempted : List String
  pub respect_stagnation : Bool
  pub max_failures : ℕ

-- The keyword arguments of `update`.
pub record Attempted : Type 0 where
  pub candidate_committed : Bool
  pub attempted_hunger_item_ids : Option (List String)
  pub respect_stagnation : Bool
  pub open_transaction : Option RefactorTransaction

unfoldable pub exempted_items : ValidationReport → List String → List String → List String
unfolding filter subset dedupe
exempted_items report exempted_check_keys attempted_item_ids =
    if is_empty exempted_check_keys
    then []
    else filter
        (λ iid.
          let item_regressed =
            filter (λ key. item_of_key key == iid) (dedupe report.regressed_check_keys) in
          not (is_empty item_regressed) && subset item_regressed exempted_check_keys)
        attempted_item_ids

unfoldable pub attempted_of : Option (List String) → ValidationReport → List String
unfolding dedupe
attempted_of (some item_ids) report = dedupe item_ids
attempted_of none report = dedupe report.attempted_hunger_item_ids

unfoldable pub newly_progressed_of : Bool → ValidationReport → List String
newly_progressed_of candidate_committed report =
    if candidate_committed then map item_of_key report.newly_passed_check_keys else []

module _ {R : Type 0} where
  unfoldable pub count_attempt : Attempts → HungerItem R → HungerItem R
  unfolding contains
  count_attempt a item =
      if contains a.newly_progressed item.id
      then record item { consecutive_failure_count = 0; last_progress_loop_id = some a.loop_id }
      else if contains a.exempted item.id
      then item
      else record item { consecutive_failure_count = item.consecutive_failure_count + 1 }

  unfoldable pub is_stagnant : Attempts → HungerItem R → Bool
  is_stagnant a item = a.respect_stagnation && leb a.max_failures item.consecutive_failure_count

  -- The body of the loop on an item that is not done.
  unfoldable pub attempt_item : Attempts → HungerItem R → HungerItem R
  attempt_item a item =
      let counted = count_attempt a item in
      if is_stagnant a counted
      then record counted { status = HungerItemStatus.blocked }
      else counted

  -- The loop: the items, the blocked ids, and `mutated`.
  unfoldable pub update_items :
      Attempts → List String → List (HungerItem R) → List (HungerItem R) × List String × Bool
  update_items a [] items = (items, [], false)
  update_items a (iid ∷ attempted) items = elim (find_item iid items) [
    | none ↦ update_items a attempted items
    | some item ↦
        let skipped = update_items a attempted items in
        let (items', blocked, _) =
          update_items a attempted (change_item iid (attempt_item a) items) in
        if is_done_status item.status
        then skipped
        else (items', if is_stagnant a (count_attempt a item) then iid ∷ blocked else blocked, true)
  ]

  unfoldable pub update_streak :
      StagnationDetector
      → String
      → ValidationReport
      → Attempted
      → List String
      → Repo R
      → StagnationResult × Repo R
  update_streak detector task_id report args blocked repo =
      let (streak, repo') = increment_no_progress_streak task_id repo in
      if args.candidate_committed && report.has_real_progress
      then (
        record { blocked_items = blocked; global_blocked = false; no_progress_streak = none },
        reset_no_progress_streak task_id repo,
      )
      else (
        record {
          blocked_items = blocked;
          global_blocked = args.respect_stagnation && leb detector.max_global_no_progress streak;
          no_progress_streak = some streak;
        },
        repo',
      )

module _ {R : Type 0} ⦃fl : Floats R⦄ where
  unfoldable pub exempted_check_keys : Repo R → String → Option RefactorTransaction → List String
  unfolding get_hunger_policy
  exempted_check_keys repo task_id none = []
  exempted_check_keys repo task_id (some txn) =
      if not (is_open txn.status)
      then []
      else if not (txn.task_id == task_id)
      then []
      else if not (get_hunger_policy repo task_id).refactor_transactions_enabled
      then []
      else txn.declared_regression_keys

  unfoldable pub attempts_of :
      StagnationDetector → Repo R → String → ℕ → ValidationReport → Attempted → Attempts
  attempts_of detector repo task_id loop_id report args = record {
    loop_id = loop_id;
    newly_progressed = newly_progressed_of args.candidate_committed report;
    exempted =
        exempted_items report (exempted_check_keys repo task_id args.open_transaction)
          (attempted_of args.attempted_hunger_item_ids report);
    respect_stagnation = args.respect_stagnation;
    max_failures = detector.max_item_failures;
  }

  unfoldable pub update :
      StagnationDetector
      → String
      → ℕ
      → ValidationReport
      → Attempted
      → Repo R
      → StagnationResult × Repo R
  update detector task_id loop_id report args repo =
      let (items, blocked, mutated) =
        update_items (attempts_of detector repo task_id loop_id report args)
          (attempted_of args.attempted_hunger_item_ids report)
          (get_hunger_ledger repo task_id).items in
      update_streak detector task_id report args blocked (
        if mutated
        then save_hunger_ledger task_id (record (get_hunger_ledger repo task_id) { items = items })
            repo
        else repo)
