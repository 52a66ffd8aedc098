-- ===== src/HungerUpdate.antt =====
-- services/hunger_update.py: newly passed checks lower the gaps of their items.
pub mod Progress
pub mod Gaps
use hungerloop.Prelude.{
  ℕ, ◌+◌, max, String, Bool, true, false, none, some, List, [], ◌∷◌, ◌++◌, ◌==◌, string_eq,
  if◌then◌else◌, Dict, lookup_or, insert, length, contains, Floats, float_max, float_zero, float_eq,
}
use hungerloop.CheckKey.{item_of_key, has_colon}
use hungerloop.Models.Enums.{HungerItemStatus, is_passing}
use hungerloop.Models.Hunger.{HungerItem, HungerLedger}
use hungerloop.Models.Validation.{ValidationReport}
use hungerloop.Ledgers.{find_item, change_item}
use hungerloop.Repository.{Repo, get_hunger_ledger, save_hunger_ledger}

-- The loop over the newly passed keys; a key without a colon is skipped.
unfoldable pub progress_from : Dict String ℕ → List String → Dict String ℕ
progress_from progress [] = progress
progress_from progress (key ∷ keys) =
    let iid = item_of_key key in
    let counted = progress_from (insert iid (lookup_or 0 iid progress + 1) progress) keys in
    let skipped = progress_from progress keys in if has_colon key then counted else skipped

unfoldable pub progress_by_item : List String → Dict String ℕ
progress_by_item keys = progress_from [] keys

module _ {R : Type 0} ⦃fl : Floats R⦄ where
  -- `EPSILON`
  abbrev pub epsilon : R
  epsilon = fl.literal 1 1_000_000_000

  -- `new_count / total_checks`
  unfoldable pub decrement_of : ℕ → HungerItem R → R
  decrement_of new_count item =
      fl.div (fl.literal new_count 1) (fl.literal (max 1 (length item.acceptance_checks)) 1)

  unfoldable pub gap_after : ValidationReport → ℕ → HungerItem R → R
  gap_after report new_count item =
      let gap = float_max float_zero (fl.sub item.gap_score (decrement_of new_count item)) in
      if contains report.satisfied_hunger_item_ids item.id
      then float_zero
      else if fl.le gap epsilon
      then float_zero
      else gap

  -- The body of the loop over the counts.
  unfoldable pub progress_item : ValidationReport → ℕ → HungerItem R → HungerItem R
  progress_item report new_count item =
      let gap = gap_after report new_count item in
      record item {
        gap_score = gap;
        evidence_ids = item.evidence_ids ++ report.evidence_ids;
        updated_at_loop = report.loop_id;
        status =
            if float_eq gap float_zero
            then HungerItemStatus.validated_satisfied
            else HungerItemStatus.working;
      }

  -- The loop: the items and `mutated`.
  unfoldable pub apply_progress :
      ValidationReport → Dict String ℕ → List (HungerItem R) → List (HungerItem R) × Bool
  apply_progress report [] items = (items, false)
  apply_progress report ((iid, new_count) ∷ progress) items = elim (find_item iid items) [
    | none ↦ apply_progress report progress items
    | some _ ↦
        let (items', _) =
          apply_progress report progress (change_item iid (progress_item report new_count) items) in
        (items', true)
  ]

  unfoldable pub apply_validation : String → ValidationReport → Repo R → Repo R
  apply_validation task_id report repo =
      let ledger = get_hunger_ledger repo task_id in
      let (items, mutated) =
        apply_progress report (progress_by_item report.newly_passed_check_keys) ledger.items in
      if is_passing report.verdict
      then if mutated
        then save_hunger_ledger task_id (record ledger { items = items }) repo
        else repo
      else repo
