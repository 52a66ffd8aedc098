-- ===== src/HungerUpdate/Progress.antt =====
-- services/hunger_update.py: which items a report changes, and by how much progress.
use mathlib.Core.Option.{map as option_map}
use hungerloop.Prelude.{
  ℕ, zero, suc, ◌+◌, String, true, false, Option, none, some, List, [], ◌∷◌, ◌&&◌, ◌||◌, ◌==◌,
  string_eq, nat_eq, if◌then◌else◌, Dict, lookup, lookup_or, insert, map, nodup, contains, length,
  filter, Floats, ◌≡◌, refl, ap, ◌∙◌, sym, arith, eq_iff, inl, inr, Option-cases, Bool-cases,
  lookup-insert,
}
use hungerloop.CheckKey.{item_of_key, has_colon}
use hungerloop.Models.Enums.{is_passing}
use hungerloop.Models.Hunger.{HungerItem}
use hungerloop.Models.Validation.{ValidationReport}
use hungerloop.Ledgers.{find_item, change_item, find_item-change_item, get-save_hunger_ledger}
use hungerloop.Repository.{Repo, get_hunger_ledger}
use hungerloop.HungerUpdate.{
  progress_from, progress_by_item, progress_item, apply_progress, apply_validation,
}

-- The number of well-formed keys of an item among the keys.
unfoldable pub progress_of : String → List String → ℕ
unfolding filter
progress_of iid keys = length (filter (λ key. has_colon key && item_of_key key == iid) keys)

abbrev item_ids : Dict String ℕ → List String
item_ids progress = map (λ entry. entry.0) progress

contains-insert :
    (iid j : String) (n : ℕ) (progress : Dict String ℕ)
    → contains (item_ids (insert iid n progress)) j ≡ (iid == j || contains (item_ids progress) j)
unfolding contains insert
contains-insert iid j n [] = ground arith
contains-insert iid j n ((k, m) ∷ progress) =
    ground (arith, contains-insert iid j n progress, eq_iff k iid, eq_iff k j, eq_iff iid j)

nodup-insert :
    (iid : String) (n : ℕ) (progress : Dict String ℕ)
    → nodup (item_ids progress) ≡ true
    → nodup (item_ids (insert iid n progress)) ≡ true
unfolding nodup insert contains
nodup-insert iid n [] h = ground arith
nodup-insert iid n ((k, m) ∷ progress) h = ground (
  arith,
  nodup-insert iid n progress,
  contains-insert iid k n progress,
  eq_iff k iid,
  eq_iff iid k,
)

nodup-progress_from :
    (keys : List String) (progress : Dict String ℕ)
    → nodup (item_ids progress) ≡ true
    → nodup (item_ids (progress_from progress keys)) ≡ true
unfolding progress_from
nodup-progress_from [] progress h = h
nodup-progress_from (key ∷ keys) progress h =
    let iid = item_of_key key in
    let n = lookup_or 0 iid progress + 1 in
    ground (
      arith,
      h,
      nodup-progress_from keys progress,
      nodup-progress_from keys (insert iid n progress),
      nodup-insert iid n progress h,
    )

-- The count that an entry has after some keys: none without a key.
abbrev pub counted : Option ℕ → ℕ → Option ℕ
counted none zero = none
counted none (suc n) = some (suc n)
counted (some m) n = some (m + n)

counted-suc :
    (o : Option ℕ) (n : ℕ)
    → counted (some ((elim o as (λ _. ℕ) [ none ↦ 0 | some m ↦ m ]) + 1)) n ≡ counted o (suc n)
counted-suc none n = ground arith
counted-suc (some m) n = ground arith

lookup-progress_from :
    (keys : List String) (progress : Dict String ℕ) (j : String)
    → lookup j (progress_from progress keys) ≡ counted (lookup j progress) (progress_of j keys)
unfolding progress_from progress_of filter lookup_or
lookup-progress_from [] progress j = elim (lookup j progress) as (λ o. o ≡ counted o 0) [
  | none ↦ refl
  | some m ↦ ground arith
]
lookup-progress_from (key ∷ keys) progress j =
    let iid = item_of_key key in
    let n = lookup_or 0 iid progress + 1 in
    ground (
      arith,
      lookup-progress_from keys progress j,
      eq_iff iid j,
      lookup-progress_from keys (insert iid n progress) j,
      lookup-insert iid j n progress,
      counted-suc (lookup j progress) (progress_of j keys),
    )

-- The dict holds, for each item with a well-formed key, the number of these.
pub lookup-progress_by_item :
    (keys : List String) (j : String)
    → lookup j (progress_by_item keys) ≡ counted none (progress_of j keys)
unfolding progress_by_item lookup
lookup-progress_by_item keys j = lookup-progress_from keys [] j

pub nodup-progress_by_item : (keys : List String) → nodup (item_ids (progress_by_item keys)) ≡ true
unfolding progress_by_item nodup
nodup-progress_by_item keys = nodup-progress_from keys [] refl

lookup-missing :
    (progress : Dict String ℕ) (j : String)
    → contains (item_ids progress) j ≡ false
    → lookup j progress ≡ none
unfolding lookup contains
lookup-missing [] j h = refl
lookup-missing ((iid, n) ∷ progress) j h = ground (arith, lookup-missing progress j)

-- What the loop does to an item, by the entry of the item in the dict.
abbrev pub after_progress :
    {R : Type 0} ⦃fl : Floats R⦄ → ValidationReport → Option ℕ → HungerItem R → HungerItem R
after_progress report none item = item
after_progress report (some n) item = progress_item report n item

module _ {R : Type 0} ⦃fl : Floats R⦄ (report : ValidationReport) where
  progress_item-id : (n : ℕ) (item : HungerItem R) → (progress_item report n item).id ≡ item.id
  unfolding progress_item
  progress_item-id n item = refl

  map-same : (o : Option (HungerItem R)) → option_map (after_progress report none) o ≡ o
  map-same none = refl
  map-same (some item) = refl

  apply_progress-find :
      (progress : Dict String ℕ) (items : List (HungerItem R)) (j : String)
      → nodup (item_ids progress) ≡ true
      → find_item j (apply_progress report progress items).0
        ≡ option_map (after_progress report (lookup j progress)) (find_item j items)
  unfolding apply_progress nodup lookup
  apply_progress-find [] items j h = sym (map-same (find_item j items))
  apply_progress-find ((iid, n) ∷ progress) items j h = elim (Option-cases (find_item iid items)) [
    | inl e ↦ ground (arith, apply_progress-find progress items j, eq_iff iid j)
    | inr (item, e) ↦ ground (
      arith,
      eq_iff iid j,
      lookup-missing progress iid,
      apply_progress-find progress (change_item iid (progress_item report n) items) j,
      find_item-change_item (progress_item report n) (progress_item-id n) iid j items,
    )
  ]

  apply_progress-unchanged :
      (progress : Dict String ℕ) (items : List (HungerItem R))
      → (apply_progress report progress items).1 ≡ false
      → (apply_progress report progress items).0 ≡ items
  unfolding apply_progress
  apply_progress-unchanged [] items h = refl
  apply_progress-unchanged ((iid, n) ∷ progress) items h =
      elim (Option-cases (find_item iid items)) [
        | inl e ↦ ground (arith, apply_progress-unchanged progress items)
        | inr (item, e) ↦ absurd (ground arith)
      ]

  ledger-apply_validation :
      (task_id : String) (repo : Repo R)
      → is_passing report.verdict ≡ true
      → (get_hunger_ledger (apply_validation task_id report repo) task_id).items
        ≡ (apply_progress report
            (progress_by_item report.newly_passed_check_keys)
            (get_hunger_ledger repo task_id).items).0
  unfolding apply_validation
  ledger-apply_validation task_id repo p =
      let ledger = get_hunger_ledger repo task_id in
      let progress = progress_by_item report.newly_passed_check_keys in
      let items = (apply_progress report progress ledger.items).0 in
      ground (
        arith,
        p,
        apply_progress-unchanged progress ledger.items,
        ap (λ l. l.items) (get-save_hunger_ledger task_id (record ledger { items = items }) repo),
      )

  -- The update changes exactly the items of the task with a well-formed newly passed key, each
  -- by one step with the number of these keys, and nothing on a failing report.
  pub apply_validation-items :
      (task_id : String) (repo : Repo R) (j : String)
      → find_item j (get_hunger_ledger (apply_validation task_id report repo) task_id).items
        ≡ option_map
            (after_progress report (
              if is_passing report.verdict
              then counted none (progress_of j report.newly_passed_check_keys)
              else none))
            (find_item j (get_hunger_ledger repo task_id).items)
  apply_validation-items task_id repo j = elim (Bool-cases (is_passing report.verdict)) [
    | inl p ↦
        let keys = report.newly_passed_check_keys in
        let items = (get_hunger_ledger repo task_id).items in
        let progress = progress_by_item keys in
        ap (find_item j) (ledger-apply_validation task_id repo p)
        ∙ apply_progress-find progress items j (nodup-progress_by_item keys)
        ∙ rw (p, lookup-progress_by_item keys j) refl
    | inr n ↦ rw (n) (
        unfold apply_validation in
        rw (n) (sym (map-same (find_item j (get_hunger_ledger repo task_id).items))))
  ]
