-- ===== src/Stagnation/Exempted.antt =====
-- services/stagnation_detector.py: which items an open refactor transaction exempts.
use hungerloop.Prelude.{
  String, true, false, some, List, [], ◌∷◌, ◌&&◌, not, ◌==◌, string_eq, contains, dedupe, subset,
  is_empty, filter, ◌≡◌, refl, ◌↔◌, arith, eq_iff, contains-filter, contains-dedupe, subset_iff,
  contains-is_empty, is_empty-contains, Floats,
}
use hungerloop.CheckKey.{item_of_key}
use hungerloop.Models.Enums.{is_open}
use hungerloop.Models.Validation.{ValidationReport}
use hungerloop.Models.Refactor.{RefactorTransaction}
use hungerloop.Repository.{Repo, get_hunger_policy}
use hungerloop.Stagnation.{exempted_items, exempted_check_keys}

module _ (report : ValidationReport) (j : String) where
  -- The regressed keys of an item, as a set.
  abbrev regressed_of : List String
  regressed_of = filter (λ key. item_of_key key == j) (dedupe report.regressed_check_keys)

  contains-regressed :
      (key : String)
      → contains regressed_of key
        ≡ (contains report.regressed_check_keys key && item_of_key key == j)
  contains-regressed key = ground (
    arith,
    contains-filter (λ k. item_of_key k == j) (dedupe report.regressed_check_keys) key,
    contains-dedupe report.regressed_check_keys key,
  )

  -- An item is exempted: it has a regressed key, and each of its regressed keys is exempted.
  abbrev pub IsExempted : List String → Type 0
  IsExempted keys =
      ((key : String) × (contains report.regressed_check_keys key ≡ true) × (item_of_key key ≡ j))
      × ((key : String)
          → contains report.regressed_check_keys key ≡ true
          → item_of_key key ≡ j
          → contains keys key ≡ true)

  regressed_IsExempted :
      (keys : List String)
      → is_empty regressed_of ≡ false
      → subset regressed_of keys ≡ true
      → IsExempted keys
  regressed_IsExempted keys e s =
      let (key, m) = is_empty-contains regressed_of e in
      (
        (
          key,
          ground (arith, m, contains-regressed key),
          ground (arith, m, contains-regressed key, eq_iff (item_of_key key) j),
        ),
        λ k n p.
            (subset_iff regressed_of keys).0 s k
              (ground (arith, contains-regressed k, eq_iff (item_of_key k) j)),
      )

  IsExempted-regressed :
      (keys : List String)
      → IsExempted keys
      → (is_empty keys ≡ false)
        × (is_empty regressed_of ≡ false)
        × (subset regressed_of keys ≡ true)
  IsExempted-regressed keys ((key, m, p), every) = (
    contains-is_empty keys key (every key m p),
    contains-is_empty regressed_of key
        (ground (arith, contains-regressed key, eq_iff (item_of_key key) j)),
    (subset_iff regressed_of keys).1 (λ k n.
        every k (ground (arith, contains-regressed k))
          (ground (arith, contains-regressed k, eq_iff (item_of_key k) j))),
  )

  contains-exempted_items :
      (keys attempted : List String)
      → contains (exempted_items report keys attempted) j ≡ (
          not (is_empty keys)
          && contains attempted j
          && not (is_empty regressed_of)
          && subset regressed_of keys)
  unfolding exempted_items
  contains-exempted_items [] attempted = unfold contains in refl
  contains-exempted_items (k ∷ keys) attempted = ground (
    arith,
    contains-filter
        (λ iid.
          let regressed =
            filter (λ key. item_of_key key == iid) (dedupe report.regressed_check_keys) in
          not (is_empty regressed) && subset regressed (k ∷ keys))
        attempted j,
  )

  pub exempted_items_iff :
      (keys attempted : List String)
      → (contains (exempted_items report keys attempted) j ≡ true)
        ↔ ((contains attempted j ≡ true) × IsExempted keys)
  exempted_items_iff keys attempted = (
    λ h. (
      ground (arith, contains-exempted_items keys attempted),
      regressed_IsExempted keys (ground (arith, contains-exempted_items keys attempted))
          (ground (arith, contains-exempted_items keys attempted)),
    ),
    λ h.
        let (n, e, s) = IsExempted-regressed keys h.1 in
        ground (arith, n, e, s, h.0, contains-exempted_items keys attempted),
  )

module _ {R : Type 0} ⦃fl : Floats R⦄ (repo : Repo R) (task_id : String) where
  -- The transaction is open, belongs to the task, and the policy of the task allows it.
  abbrev pub IsInForce : RefactorTransaction → Type 0
  IsInForce txn =
      (is_open txn.status ≡ true)
      × (txn.task_id ≡ task_id)
      × ((get_hunger_policy repo task_id).refactor_transactions_enabled ≡ true)

  exempted_check_keys_iff :
      (txn : RefactorTransaction) (key : String)
      → (contains (exempted_check_keys repo task_id (some txn)) key ≡ true)
        ↔ (IsInForce txn × (contains txn.declared_regression_keys key ≡ true))
  unfolding exempted_check_keys contains
  exempted_check_keys_iff txn key = ground (arith, eq_iff txn.task_id task_id)

  -- An item is exempted by a transaction exactly when it was attempted, the transaction is open, of
  -- the task and allowed by its policy, the report has a regressed key of the item, and every
  -- regressed key of the item is one of the declared regression keys.
  pub exempted_items_and_keys_iff :
      (txn : RefactorTransaction) (report : ValidationReport) (attempted : List String) (j : String)
      → (contains (exempted_items report (exempted_check_keys repo task_id (some txn)) attempted) j
          ≡ true)
        ↔ ((contains attempted j ≡ true)
            × IsInForce txn
            × IsExempted report j txn.declared_regression_keys)
  exempted_items_and_keys_iff txn report attempted j =
      let keys = exempted_check_keys repo task_id (some txn) in
      (
        λ h.
            let (m, e) = (exempted_items_iff report j keys attempted).0 h in
            let ((key, r, p), every) = e in
            (
              m,
              ((exempted_check_keys_iff txn key).0 (every key r p)).0,
              ((key, r, p), λ k r' p'. ((exempted_check_keys_iff txn k).0 (every k r' p')).1),
            ),
        λ (m, force, (seen, every)).
            (exempted_items_iff report j keys attempted).1
              (m, (seen, λ k r p. (exempted_check_keys_iff txn k).1 (force, every k r p))),
      )
