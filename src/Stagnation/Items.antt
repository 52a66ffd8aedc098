-- ===== src/Stagnation/Items.antt =====
-- services/stagnation_detector.py: what an update does to each item of the ledger.
use mathlib.Core.Option.{map as option_map}
use hungerloop.Prelude.{
  ℕ, ◌+◌, String, Bool, true, false, none, some, List, [], ◌∷◌, ◌&&◌, not, string_eq, if◌then◌else◌,
  contains, nodup, ◌≡◌, refl, ap, ◌∙◌, ◌↔◌, ◌≤◌, arith, eq_iff, inl, inr, Option-cases,
  nodup-dedupe_from, Floats,
}
use hungerloop.Models.Enums.{is_done_status}
use hungerloop.Models.Hunger.{HungerItem}
use hungerloop.Models.Validation.{ValidationReport}
use hungerloop.Ledgers.{get-save_hunger_ledger, find_item, change_item, find_item-change_item}
use hungerloop.Stagnation.{
  Attempts, Attempted, StagnationDetector, attempt_item, count_attempt, is_stagnant, update_items,
  update, attempts_of, attempted_of, update_streak,
}
use hungerloop.Repository.{
  Repo, get_hunger_ledger, save_hunger_ledger, reset_no_progress_streak,
  increment_no_progress_streak,
}

module _ {R : Type 0} (a : Attempts) where
  -- Whether the loop counts the attempt on the item.
  abbrev pub counts : HungerItem R → Bool
  counts item = not (is_done_status item.status)

  abbrev pub is_blocked_by : HungerItem R → Bool
  is_blocked_by item = counts item && is_stagnant a (count_attempt a item)

  -- The item as the loop leaves it, when it was attempted or not.
  abbrev pub after_attempt : Bool → HungerItem R → HungerItem R
  after_attempt attempted item = if attempted && counts item then attempt_item a item else item

  attempt_item-id : (item : HungerItem R) → (attempt_item a item).id ≡ item.id
  unfolding attempt_item count_attempt
  attempt_item-id item = ground arith

  pub update_items-find :
      (attempted : List String) (items : List (HungerItem R)) (j : String)
      → nodup attempted ≡ true
      → find_item j (update_items a attempted items).0
        ≡ option_map (after_attempt (contains attempted j)) (find_item j items)
  unfolding update_items nodup contains
  update_items-find [] items j h = ground arith
  update_items-find (iid ∷ attempted) items j h = elim (Option-cases (find_item iid items)) [
    | inl n ↦ ground (arith, update_items-find attempted items j, eq_iff iid j)
    | inr (item, e) ↦ ground (
      arith,
      update_items-find attempted items j,
      eq_iff iid j,
      update_items-find attempted (change_item iid (attempt_item a) items) j,
      find_item-change_item (attempt_item a) attempt_item-id iid j items,
    )
  ]

  pub update_items-blocked :
      (attempted : List String) (items : List (HungerItem R)) (j : String)
      → nodup attempted ≡ true
      → contains (update_items a attempted items).1 j ≡ (
          contains attempted j
          && (elim (find_item j items) [ none ↦ false | some item ↦ is_blocked_by item ]))
  unfolding update_items nodup contains
  update_items-blocked [] items j h = refl
  update_items-blocked (iid ∷ attempted) items j h = elim (Option-cases (find_item iid items)) [
    | inl n ↦ ground (arith, update_items-blocked attempted items j, eq_iff iid j)
    | inr (item, e) ↦ ground (
      arith,
      update_items-blocked attempted items j,
      eq_iff iid j,
      update_items-blocked attempted (change_item iid (attempt_item a) items) j,
      find_item-change_item (attempt_item a) attempt_item-id iid j items,
    )
  ]

  update_items-unchanged :
      (attempted : List String) (items : List (HungerItem R))
      → (update_items a attempted items).2 ≡ false
      → (update_items a attempted items).0 ≡ items
  unfolding update_items
  update_items-unchanged [] items h = refl
  update_items-unchanged (iid ∷ attempted) items h = elim (Option-cases (find_item iid items)) [
    | inl n ↦ ground (arith, update_items-unchanged attempted items)
    | inr (item, e) ↦ ground (arith, update_items-unchanged attempted items)
  ]

  -- The failure count that an attempt leaves.
  abbrev pub count_after : HungerItem R → ℕ
  count_after item =
      if contains a.newly_progressed item.id
      then 0
      else if contains a.exempted item.id
      then item.consecutive_failure_count
      else item.consecutive_failure_count + 1

  is_blocked_by_iff :
      (item : HungerItem R)
      → (is_blocked_by item ≡ true) ↔ (
          (is_done_status item.status ≡ false)
          × (a.respect_stagnation ≡ true)
          × (a.max_failures ≤ count_after item))
  unfolding is_stagnant count_attempt
  is_blocked_by_iff item = ground arith

module _ {R : Type 0} where
  pub ledger-update_streak :
      (detector : StagnationDetector) (task_id : String) (report : ValidationReport)
      (args : Attempted) (blocked : List String) (repo : Repo R) (t : String)
      → get_hunger_ledger (update_streak detector task_id report args blocked repo).1 t
        ≡ get_hunger_ledger repo t
  unfolding update_streak get_hunger_ledger reset_no_progress_streak increment_no_progress_streak
  ledger-update_streak detector task_id report args blocked repo t = ground arith

module _ {R : Type 0} ⦃fl : Floats R⦄ (detector : StagnationDetector) (repo : Repo R)
    (task_id : String) (loop_id : ℕ) (report : ValidationReport) (args : Attempted) where
  abbrev attempted_ids : List String
  attempted_ids = attempted_of args.attempted_hunger_item_ids report

  nodup-attempted : nodup attempted_ids ≡ true
  unfolding attempted_of
  nodup-attempted = elim (Option-cases args.attempted_hunger_item_ids) [
    | inl n ↦ rw (n) (nodup-dedupe_from [] report.attempted_hunger_item_ids)
    | inr (ids, e) ↦ rw (e) (nodup-dedupe_from [] ids)
  ]

  -- The items of the task after the update are those that the loop leaves.
  pub ledger-update :
      (get_hunger_ledger (update detector task_id loop_id report args repo).1 task_id).items
      ≡ (update_items
          (attempts_of detector repo task_id loop_id report args)
          attempted_ids
          (get_hunger_ledger repo task_id).items).0
  unfolding update
  ledger-update =
      let a = attempts_of detector repo task_id loop_id report args in
      let (items, blocked, mutated) =
        update_items a attempted_ids (get_hunger_ledger repo task_id).items in
      let saved =
        save_hunger_ledger task_id (record (get_hunger_ledger repo task_id) { items = items })
          repo in
      ap (λ ledger. ledger.items)
        (ledger-update_streak detector task_id report args blocked (if mutated then saved else repo)
          task_id)
      ∙ ground (
        arith,
        update_items-unchanged a attempted_ids (get_hunger_ledger repo task_id).items,
        ap (λ ledger. ledger.items)
            (get-save_hunger_ledger task_id
              (record (get_hunger_ledger repo task_id) { items = items }) repo),
      )

  -- An update changes the items of the attempted ids that are not done, each by the body of the
  -- loop, and leaves every other item as it was.
  pub update-items :
      (j : String)
      → find_item j
          (get_hunger_ledger (update detector task_id loop_id report args repo).1 task_id).items
        ≡ option_map
            (after_attempt
              (attempts_of detector repo task_id loop_id report args)
              (contains attempted_ids j))
            (find_item j (get_hunger_ledger repo task_id).items)
  update-items j =
      let a = attempts_of detector repo task_id loop_id report args in
      ap (find_item j) ledger-update
      ∙ update_items-find a attempted_ids (get_hunger_ledger repo task_id).items j nodup-attempted

  -- An update reports an item as blocked exactly when the item is attempted and not done, the task
  -- respects stagnation, and its new failure count is at the limit: zero after committed progress,
  -- the old count if the item is exempted, and one more else.
  pub blocked_items_iff :
      (j : String) (item : HungerItem R)
      → find_item j (get_hunger_ledger repo task_id).items ≡ some item
      → (contains (update detector task_id loop_id report args repo).0.blocked_items j ≡ true) ↔ (
          (contains attempted_ids j ≡ true)
          × (is_done_status item.status ≡ false)
          × (args.respect_stagnation ≡ true)
          × (detector.max_item_failures
              ≤ count_after (attempts_of detector repo task_id loop_id report args) item))
  unfolding update update_streak attempts_of
  blocked_items_iff j item h =
      let a = attempts_of detector repo task_id loop_id report args in
      ground (
        arith,
        h,
        is_blocked_by_iff a item,
        update_items-blocked a attempted_ids (get_hunger_ledger repo task_id).items j
            nodup-attempted,
      )
