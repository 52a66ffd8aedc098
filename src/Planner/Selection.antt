-- ===== src/Planner/Selection.antt =====
-- services/rule_based_planner.py: which item a plan selects.
use mathlib.Core.List.{Memᴰ}
use hungerloop.Prelude.{
  ℕ, ◌≤◌, min, String, Bool, true, false, Option, none, some, List, [], ◌∷◌, filter, any, ◌==◌,
  nat_eq, Floats, IsOrdered, leb, is_empty, ◌≡◌, ◌⊎◌, refl, sym, ◌∙◌, arith, inl, inr, Bool-cases,
  not, is_empty-filter,
}
use hungerloop.Prelude.Sorting.{
  head?, least, head-sort_by, least-mem, least-le, is_empty-sort_by, head?-is_empty,
}
use hungerloop.Prelude.Membership.{all-Memᴰ, Memᴰ-filter, filter-Memᴰ}
use hungerloop.Models.Hunger.{HungerItem, HungerLedger, active_items, is_active, has_active_items}
use hungerloop.Models.Planning.{BudgetAllocation, LoopPlan, Assignment}
use hungerloop.Repository.{Repo, get_hunger_ledger}
use hungerloop.Planner.{pressure_of, presses_more, lowest_tier, ranked_items, plan, plan_for, take}

module _ {R : Type 0} ⦃fl : Floats R⦄ where
  lowest_tier-le :
      (items : List (HungerItem R)) (x : HungerItem R)
      → Memᴰ x items
      → lowest_tier items ≤ x.refinement_tier
  unfolding lowest_tier
  lowest_tier-le [] x m = elim m [ ]
  lowest_tier-le (item ∷ []) x (Memᴰ.head e) = rw (e) (ground arith)
  lowest_tier-le (item ∷ []) x (Memᴰ.tail m) = elim m [ ]
  lowest_tier-le (item ∷ next ∷ items) x (Memᴰ.head e) = rw (e) (ground arith)
  lowest_tier-le (item ∷ next ∷ items) x (Memᴰ.tail m) =
      ground (arith, lowest_tier-le (next ∷ items) x m)

  lowest_tier-reached :
      (items : List (HungerItem R))
      → is_empty items ≡ false
      → any (λ item. item.refinement_tier == lowest_tier items) items ≡ true
  unfolding lowest_tier any
  lowest_tier-reached [] h = absurd (ground arith)
  lowest_tier-reached (item ∷ []) h = ground arith
  lowest_tier-reached (item ∷ next ∷ items) h =
      elim (Bool-cases (leb item.refinement_tier (lowest_tier (next ∷ items)))) [
        | inl t ↦ ground arith
        | inr f ↦
            let e : lowest_tier (item ∷ next ∷ items) ≡ lowest_tier (next ∷ items) = ground arith in
            ground (arith, e, lowest_tier-reached (next ∷ items) refl)
      ]

  any-nothing :
      (p : HungerItem R → Bool) (items : List (HungerItem R))
      → is_empty items ≡ true
      → any p items ≡ false
  unfolding any
  any-nothing p [] h = refl
  any-nothing p (item ∷ items) h = absurd (ground arith)

  head-take :
      (n : ℕ) (items : List (HungerItem R)) → 1 ≤ n → head? (take (min 1 n) items) ≡ head? items
  unfolding take
  head-take n [] h = refl
  head-take n (item ∷ items) h = let e : min 1 n ≡ 1 = ground arith in rw (e) refl

  -- The most pressing of the active items of the lowest active tier, the first of equal ones.
  pub record IsSelected (ledger : HungerLedger R) (item : HungerItem R) : Type 0 where
    pub listed : Memᴰ item ledger.items
    pub active : is_active item ≡ true
    pub lowest :
        (other : HungerItem R)
        → Memᴰ other ledger.items
        → is_active other ≡ true
        → item.refinement_tier ≤ other.refinement_tier
    pub presses_most :
        (other : HungerItem R)
        → Memᴰ other ledger.items
        → is_active other ≡ true
        → other.refinement_tier ≡ item.refinement_tier
        → fl.le (pressure_of other) (pressure_of item) ≡ true

  -- The items of the plan's tier.
  abbrev tier_items : HungerLedger R → List (HungerItem R)
  tier_items ledger =
      filter (λ item. item.refinement_tier == lowest_tier (active_items ledger))
        (active_items ledger)

  is_empty-ranked :
      (ledger : HungerLedger R) → is_empty (ranked_items ledger) ≡ not (has_active_items ledger)
  unfolding ranked_items has_active_items
  is_empty-ranked ledger =
      is_empty-sort_by presses_more (tier_items ledger)
      ∙ is_empty-filter (λ item. item.refinement_tier == lowest_tier (active_items ledger))
          (active_items ledger)
      ∙ elim (Bool-cases (is_empty (active_items ledger))) [
        | inl t ↦
            rw
              (any-nothing (λ item. item.refinement_tier == lowest_tier (active_items ledger))
                (active_items ledger) t)
              (ground (arith, t))
        | inr f ↦ rw (f, lowest_tier-reached (active_items ledger) f) refl
      ]

  module _ (ordered : IsOrdered fl) where
    presses_more_trans :
        (a b c : HungerItem R)
        → presses_more a b ≡ true
        → presses_more b c ≡ true
        → presses_more a c ≡ true
    unfolding presses_more
    presses_more_trans a b c h k =
        ordered.le_trans (pressure_of c) (pressure_of b) (pressure_of a) k h

    presses_more_total : (a b : HungerItem R) → presses_more a b ≡ false → presses_more b a ≡ true
    unfolding presses_more
    presses_more_total a b h = ordered.le_total (pressure_of b) (pressure_of a) h

    ranked-IsSelected :
        (ledger : HungerLedger R) (item : HungerItem R)
        → head? (ranked_items ledger) ≡ some item
        → IsSelected ledger item
    unfolding ranked_items presses_more
    ranked-IsSelected ledger item h =
        let items = tier_items ledger in
        let in_tier =
          λ (x : HungerItem R). x.refinement_tier == lowest_tier (active_items ledger) in
        let l : least presses_more items ≡ some item = sym (head-sort_by presses_more items) ∙ h in
        let (m, t) =
          Memᴰ-filter in_tier (active_items ledger) item (least-mem presses_more items item l) in
        let (n, a) = Memᴰ-filter is_active ledger.items item (unfold active_items in m) in
        record {
          listed = n;
          active = a;
          lowest = λ other k b.
              let le =
                lowest_tier-le (active_items ledger) other
                  (unfold active_items in filter-Memᴰ is_active ledger.items other k b) in
              ground (arith, t, le);
          presses_most = λ other k b e.
              all-Memᴰ (presses_more item) items other
                (least-le presses_more presses_more_trans presses_more_total items item l)
                (filter-Memᴰ in_tier (active_items ledger) other
                  (unfold active_items in filter-Memᴰ is_active ledger.items other k b)
                  (ground (arith, t, e)));
        }

    -- A plan is empty and there is no active item, or it has one assignment, for the item.
    abbrev pub IsPlan : HungerLedger R → LoopPlan → Type 0
    IsPlan ledger made =
        ((made.selected_hunger_item_ids ≡ [])
          × (made.assignments ≡ [])
          × (has_active_items ledger ≡ false))
        ⊎ ((item : HungerItem R) × (assignment : Assignment) × (made.selected_hunger_item_ids
              ≡ item.id ∷ [])
            × (made.assignments ≡ assignment ∷ [])
            × (assignment.target_hunger_item_ids ≡ item.id ∷ [])
            × IsSelected ledger item)

    plan_for-IsPlan :
        (ledger : HungerLedger R) (task_id : String) (loop_id : ℕ) (budget : BudgetAllocation R)
        (selected : Option (HungerItem R))
        → head? (ranked_items ledger) ≡ selected
        → IsPlan ledger (plan_for task_id loop_id budget selected)
    unfolding plan_for
    plan_for-IsPlan ledger task_id loop_id budget none h = inl (
      refl,
      refl,
      ground (arith, h, head?-is_empty (ranked_items ledger), is_empty-ranked ledger),
    )
    plan_for-IsPlan ledger task_id loop_id budget (some item) h =
        inr (item, _, refl, refl, refl, ranked-IsSelected ledger item h)

    -- With a budget of at least one worker, a plan is empty and the task has no active item, or it
    -- selects the most pressing of the active items of the lowest active tier, and its one
    -- assignment is for that item.
    pub plan-IsPlan :
        (repo : Repo R) (task_id : String) (loop_id : ℕ) (budget : BudgetAllocation R)
        → 1 ≤ budget.max_workers_per_loop
        → IsPlan (get_hunger_ledger repo task_id) (plan repo task_id loop_id budget)
    unfolding plan
    plan-IsPlan repo task_id loop_id budget h =
        let ledger = get_hunger_ledger repo task_id in
        plan_for-IsPlan ledger task_id loop_id budget
          (head? (take (min 1 budget.max_workers_per_loop) (ranked_items ledger)))
          (sym (head-take budget.max_workers_per_loop (ranked_items ledger) h))
