-- ===== src/Samples/Ledgers.antt =====
-- Examples of the hunger update and of the stagnation detector.
use mathlib.Core.Option.{map as option_map}
use hungerloop.Prelude.{
  ℕ, ◌≤◌, String, true, false, none, some, [], ◌∷◌, ◌&&◌, not, ◌==◌, nat_eq, string_eq,
  if◌then◌else◌, ◌≡◌, ◌↔◌, refl, milli, milli-IsOrdered, contains,
}
use hungerloop.Models.Enums.{RefactorTransactionStatus, is_passing, is_done_status}
use hungerloop.Models.Hunger.{HungerItem}
use hungerloop.Models.Refactor.{RefactorTransaction}
use hungerloop.Models.Validation.{ValidationReport}
use hungerloop.Ledgers.{find_item}
use hungerloop.Repository.{get_hunger_ledger}
use hungerloop.HungerUpdate.{apply_validation}
use hungerloop.HungerUpdate.Progress.{progress_of, after_progress, counted, apply_validation-items}
use hungerloop.HungerUpdate.Gaps.{Shrinks, milli-Decreases, apply_validation-Shrinks}
use hungerloop.Stagnation.{
  StagnationDetector, Attempted, default_detector, update, attempts_of, attempted_of,
  exempted_items, exempted_check_keys,
}
use hungerloop.Stagnation.Items.{after_attempt, count_after, update-items, blocked_items_iff}
use hungerloop.Stagnation.Exempted.{IsExempted, IsInForce, exempted_items_and_keys_iff}
use hungerloop.Samples.{repo, item, good_report, best}

apply_validation_example :
    find_item "A" (get_hunger_ledger (apply_validation "t" good_report repo) "t").items
    ≡ option_map
        (after_progress good_report (
          if is_passing good_report.verdict
          then counted none (progress_of "A" good_report.newly_passed_check_keys)
          else none))
        (find_item "A" (get_hunger_ledger repo "t").items)
apply_validation_example = apply_validation-items good_report "t" repo "A"

found : find_item "A" (get_hunger_ledger repo "t").items ≡ some item
unfolding find_item get_hunger_ledger
found = refl

shrinks_example :
    (after : HungerItem ℕ) × (find_item "A"
        (get_hunger_ledger (apply_validation "t" good_report repo) "t").items
      ≡ some after)
    × (if is_passing good_report.verdict
          && not (progress_of "A" good_report.newly_passed_check_keys == 0)
        then Shrinks milli-IsOrdered milli-Decreases good_report item after
        else (after ≡ item))
shrinks_example =
    apply_validation-Shrinks milli-IsOrdered milli-Decreases good_report "t" repo "A" item found
      refl

-- An attempt whose candidate was rejected.
abbrev rejected : Attempted
rejected = record {
  candidate_committed = false;
  attempted_hunger_item_ids = none;
  respect_stagnation = true;
  open_transaction = none;
}

-- One failure is enough.
abbrev impatient : StagnationDetector
impatient = record default_detector { max_item_failures = 1 }

update_items_example :
    find_item "A" (get_hunger_ledger (update impatient "t" 2 good_report rejected repo).1 "t").items
    ≡ option_map
        (after_attempt
          (attempts_of impatient repo "t" 2 good_report rejected)
          (contains (attempted_of rejected.attempted_hunger_item_ids good_report) "A"))
        (find_item "A" (get_hunger_ledger repo "t").items)
update_items_example = update-items impatient repo "t" 2 good_report rejected "A"

blocked_items_example :
    (contains (update impatient "t" 2 good_report rejected repo).0.blocked_items "A" ≡ true) ↔ (
      (contains (attempted_of rejected.attempted_hunger_item_ids good_report) "A" ≡ true)
      × (is_done_status item.status ≡ false)
      × (rejected.respect_stagnation ≡ true)
      × (impatient.max_item_failures
          ≤ count_after (attempts_of impatient repo "t" 2 good_report rejected) item))
blocked_items_example = blocked_items_iff impatient repo "t" 2 good_report rejected "A" item found

-- A transaction that declares the regression of the first check, and a report with it.
abbrev declaring : RefactorTransaction
declaring = record {
  transaction_id = "T";
  task_id = "t";
  opening_loop = 1;
  deadline_loop = 4;
  declared_regression_keys = "A:0" ∷ [];
  baseline_accepted_check_keys = "A:0" ∷ [];
  baseline_accepted_check_count = 1;
  baseline_best_state = best;
  snapshot_path = "";
  status = RefactorTransactionStatus.opened;
  closed_loop = none;
  close_reason = none;
}

abbrev regressed_report : ValidationReport
regressed_report = record good_report { regressed_check_keys = "A:0" ∷ [] }

exempted_example :
    (contains
        (exempted_items regressed_report (exempted_check_keys repo "t" (some declaring)) ("A" ∷ []))
        "A"
      ≡ true)
    ↔ ((contains {A = String} ("A" ∷ []) "A" ≡ true)
        × IsInForce repo "t" declaring
        × IsExempted regressed_report "A" declaring.declared_regression_keys)
exempted_example = exempted_items_and_keys_iff repo "t" declaring regressed_report ("A" ∷ []) "A"
