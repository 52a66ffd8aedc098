-- ===== src/Ledgers.antt =====
-- models/hunger.py, `items_by_id = {item.id: item for item in ledger.items}`, and the change of an
-- item that was found by it: of several items with one id the last one is found and changed.
use mathlib.Core.Option.{map as option_map}
use hungerloop.Prelude.{
  String, Option, none, some, List, [], ◌∷◌, ◌≡◌, refl, map, ◌==◌, string_eq, if◌then◌else◌, arith,
  eq_iff, inl, inr, lookup_or, lookup-insert_self, Option-cases,
}
use hungerloop.Models.Hunger.{HungerItem, HungerLedger}
use hungerloop.Repository.{Repo, get_hunger_ledger, save_hunger_ledger}

module _ {R : Type 0} where
  -- `items_by_id.get(iid)`
  unfoldable pub find_item : String → List (HungerItem R) → Option (HungerItem R)
  find_item iid [] = none
  find_item iid (item ∷ items) = elim (find_item iid items) [
    | none ↦ if item.id == iid then some item else none
    | some found ↦ some found
  ]

  -- The fields of `items_by_id[iid]` are assigned.
  unfoldable pub change_item :
      String → (HungerItem R → HungerItem R) → List (HungerItem R) → List (HungerItem R)
  unfolding find_item
  change_item iid change [] = []
  change_item iid change (item ∷ items) = elim (find_item iid items) [
    | none ↦ (if item.id == iid then change item else item) ∷ items
    | some _ ↦ item ∷ change_item iid change items
  ]

  pub find_item-id :
      (iid : String) (items : List (HungerItem R)) (found : HungerItem R)
      → find_item iid items ≡ some found
      → found.id ≡ iid
  unfolding find_item
  find_item-id iid [] found h = ground arith
  find_item-id iid (item ∷ items) found h = elim (Option-cases (find_item iid items)) [
    | inl n ↦ ground (arith, eq_iff item.id iid)
    | inr (other, e) ↦ ground (arith, find_item-id iid items other e)
  ]

  pub get-save_hunger_ledger :
      (task_id : String) (ledger : HungerLedger R) (repo : Repo R)
      → get_hunger_ledger (save_hunger_ledger task_id ledger repo) task_id ≡ ledger
  unfolding get_hunger_ledger save_hunger_ledger lookup_or
  get-save_hunger_ledger task_id ledger repo =
      ground (arith, lookup-insert_self task_id ledger repo.ledgers)

  module _ (change : HungerItem R → HungerItem R)
      (keeps_id : (item : HungerItem R) → (change item).id ≡ item.id) where
    pub find_item-change_item :
        (iid j : String) (items : List (HungerItem R))
        → find_item j (change_item iid change items)
          ≡ (if iid == j then option_map change (find_item j items) else find_item j items)
    unfolding find_item change_item
    find_item-change_item iid j [] = ground arith
    find_item-change_item iid j (item ∷ items) = elim (Option-cases (find_item iid items)) [
      | inl n ↦ ground (
        arith,
        eq_iff item.id iid,
        eq_iff item.id j,
        eq_iff iid j,
        eq_iff (change item).id j,
        keeps_id item,
      )
      | inr (found, e) ↦ ground (
        arith,
        eq_iff item.id iid,
        eq_iff item.id j,
        eq_iff iid j,
        find_item-change_item iid j items,
      )
    ]

    pub ids-change_item :
        (iid : String) (items : List (HungerItem R))
        → map (λ item. item.id) (change_item iid change items) ≡ map (λ item. item.id) items
    unfolding change_item
    ids-change_item iid [] = refl
    ids-change_item iid (item ∷ items) = elim (Option-cases (find_item iid items)) [
      | inl n ↦ ground (arith, keeps_id item)
      | inr (found, e) ↦ ground (arith, ids-change_item iid items)
    ]
