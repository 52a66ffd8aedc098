-- ===== src/Scheduler/Cycle.antt =====
-- services/worker_scheduler.py: the search finds a cycle exactly when there is one.
use hungerloop.Prelude.{
  ℕ, zero, suc, ◌≤◌, ◌<◌, String, true, false, List, [], ◌∷◌, ◌==◌, string_eq, nat_eq,
  if◌then◌else◌, contains, nodup, length, Dict, lookup, lookup_or, ◌≡◌, ◌↔◌, refl, sym, ap, subst,
  arith, eq_iff, inl, inr, Bool-cases, if_intro, AllOf, all-contains, dedupe, dedupe_from,
}
use hungerloop.Models.Planning.{Assignment}
use hungerloop.Scheduler.{
  Search, graph_of, ids_of, local_dependencies, contains_cycle, search, is_cycle, visit, visit_each,
  after,
}
use hungerloop.Scheduler.Acyclic.{dependencies, is_closed, search-closed}
use hungerloop.Scheduler.Order.{Linked, graph_of-Linked, acyclic}

-- The ids get numbers such that every dependency among them has a smaller number than what
-- depends on it.
abbrev pub IsRanking : List Assignment → (String → ℕ) → Type 0
IsRanking assignments rank =
    AllOf
      (λ a.
        (d : String)
        → contains (local_dependencies (ids_of assignments) a) d ≡ true
        → rank d < rank a.assignment_id)
      assignments

is_cycle-after :
    (r : Search) (next : List String → Search)
    → is_cycle r ≡ false
    → ((visited : List String) → is_cycle (next visited) ≡ false)
    → is_cycle (after r next) ≡ false
is_cycle-after Search.exhausted next h k = refl
is_cycle-after Search.found_cycle next h k = h
is_cycle-after (Search.finished visited) next h k = k visited

is_cycle-visit_each :
    (step : List String → String → Search) (targets : List String)
    → ((visited : List String) (x : String)
        → contains targets x ≡ true
        → is_cycle (step visited x) ≡ false)
    → (visited : List String) → is_cycle (visit_each step visited targets) ≡ false
unfolding visit_each contains
is_cycle-visit_each step [] one visited = refl
is_cycle-visit_each step (t ∷ targets) one visited =
    is_cycle-after (step visited t) (λ v. visit_each step v targets)
      (one visited t (ground (arith, eq_iff t t)))
      (is_cycle-visit_each step targets (λ v x m. one v x (ground (arith, m))))

module _ (graph : Dict String (List String)) where
  module _ (rank : String → ℕ)
      (ranks : (x d : String) → contains (dependencies graph x) d ≡ true → rank d < rank x) where
    above :
        (x d y : String) (visiting : List String)
        → rank d < rank x
        → (contains visiting y ≡ true → rank x < rank y)
        → contains (x ∷ visiting) y ≡ true
        → rank d < rank y
    unfolding contains
    above x d y visiting l h m = elim (Bool-cases (x == y)) [
      | inl t ↦ ground (arith, l, ap rank ((eq_iff x y).0 t))
      | inr f ↦ ground (arith, l, h (ground (arith, m, f)))
    ]

    is_cycle-visit :
        (fuel : ℕ) (visiting visited : List String) (x : String)
        → ((y : String) → contains visiting y ≡ true → rank x < rank y)
        → is_cycle (visit graph fuel visiting visited x) ≡ false
    unfolding visit
    is_cycle-visit zero visiting visited x h = refl
    is_cycle-visit (suc fuel) visiting visited x h =
        if_intro (λ r. is_cycle r ≡ false) (contains visiting x)
          (λ m. absurd (ground (arith, h x m)))
          (λ n.
            if_intro (λ r. is_cycle r ≡ false) (contains visited x) (λ k. refl)
              (λ k.
                is_cycle-after
                  (visit_each (visit graph fuel (x ∷ visiting)) visited (dependencies graph x))
                  (λ v. Search.finished (x ∷ v))
                  (is_cycle-visit_each (visit graph fuel (x ∷ visiting)) (dependencies graph x)
                    (λ v d e.
                      is_cycle-visit fuel (x ∷ visiting) v d
                        (λ y m. above x d y visiting (ranks x d e) (h y) m))
                    visited)
                  (λ v. refl)))

  -- The number of an id: that of the ids from its last occurrence on.
  rank_in : List String → String → ℕ
  rank_in [] x = 0
  rank_in (v ∷ visited) x =
      let rest = rank_in visited x in
      if contains visited x then rest else if v == x then suc (length visited) else 0

  rank_in-le : (visited : List String) (x : String) → rank_in visited x ≤ length visited
  unfolding rank_in
  rank_in-le [] x = ground arith
  rank_in-le (v ∷ visited) x = ground (arith, rank_in-le visited x)

  rank_in-closed :
      (visited : List String) (x d : String)
      → is_closed graph visited ≡ true
      → contains visited x ≡ true
      → contains (dependencies graph x) d ≡ true
      → (contains visited d ≡ true) × (rank_in visited d < rank_in visited x)
  unfolding rank_in is_closed contains
  rank_in-closed [] x d c m e = absurd (ground (arith, m))
  rank_in-closed (v ∷ visited) x d c m e = elim (Bool-cases (contains visited x)) [
    | inl t ↦ ground (arith, t, rank_in-closed visited x d (ground (arith, c)) t e)
    | inr f ↦
        let same : v ≡ x = ground (arith, m, f, eq_iff v x) in
        let held : contains visited d ≡ true =
          all-contains (contains visited) (dependencies graph x) d (ground (arith, c, same)) e in
        ground (arith, f, held, m, rank_in-le visited d)
  ]

-- The dependencies that the graph has are those of an assignment.
graph_of-ranked :
    (ids : List String) (rank : String → ℕ) (assignments : List Assignment)
    → AllOf
        (λ a.
          (d : String)
          → contains (local_dependencies ids a) d ≡ true
          → rank d < rank a.assignment_id)
        assignments
    → (x d : String) → contains (dependencies (graph_of ids assignments) x) d ≡ true
    → rank d < rank x
unfolding graph_of lookup_or lookup
graph_of-ranked ids rank [] h x d m = absurd (unfold contains in ground (arith, m))
graph_of-ranked ids rank (a ∷ assignments) (first, rest) x d m =
    elim (Bool-cases (a.assignment_id == x)) [
      | inl t ↦
          subst (λ y. rank d < rank y) ((eq_iff a.assignment_id x).0 t)
            (first d (ground (arith, m, t)))
      | inr f ↦ graph_of-ranked ids rank assignments rest x d (ground (arith, m, f))
    ]

closed-IsRanking :
    (ids : List String) (assignments : List Assignment) (visited : List String)
    → is_closed (graph_of ids assignments) visited ≡ true
    → ((x : String) → contains ids x ≡ true → contains visited x ≡ true)
    → (xs : List Assignment)
    → ((x : String) → contains (ids_of xs) x ≡ true → contains ids x ≡ true)
    → AllOf (Linked ids assignments) xs
    → AllOf
        (λ a.
          (d : String)
          → contains (local_dependencies ids a) d ≡ true
          → rank_in (graph_of ids assignments) visited d
            < rank_in (graph_of ids assignments) visited a.assignment_id)
        xs
unfolding contains
closed-IsRanking ids assignments visited c holds [] within linked = tt
closed-IsRanking ids assignments visited c holds (a ∷ xs) within (l, linked) = (
  λ d m.
      (rank_in-closed (graph_of ids assignments) visited a.assignment_id d c
        (holds a.assignment_id
          (within a.assignment_id (ground (arith, eq_iff a.assignment_id a.assignment_id))))
        (subst (λ l. contains l d ≡ true) (sym l) m)).1,
  closed-IsRanking ids assignments visited c holds xs (λ x m. within x (ground (arith, m))) linked,
)

length-distinct :
    (seen xs : List String)
    → nodup xs ≡ true
    → ((a : String) → contains xs a ≡ true → contains seen a ≡ false)
    → length (dedupe_from seen xs) ≡ length xs
unfolding dedupe_from nodup contains
length-distinct seen [] n h = refl
length-distinct seen (x ∷ xs) n h = ground (
  arith,
  n,
  h x (ground (arith, eq_iff x x)),
  length-distinct (x ∷ seen) xs (ground (arith, n))
      (λ a m. ground (arith, m, n, h a (ground (arith, m)), eq_iff x a)),
)

ranked :
    (assignments : List Assignment)
    → nodup (ids_of assignments) ≡ true
    → (rank : String → ℕ) → IsRanking assignments rank
    → contains_cycle assignments ≡ false
unfolding contains_cycle search dedupe
ranked assignments n rank h =
    let ids = ids_of assignments in
    let graph = graph_of ids assignments in
    let none_found : is_cycle (search assignments) ≡ false =
      is_cycle-visit_each (visit graph (suc (length ids)) []) ids
        (λ v x m.
          is_cycle-visit graph rank (graph_of-ranked ids rank assignments h) (suc (length ids)) [] v
            x (λ y i. absurd (unfold contains in ground (arith, i))))
        [] in
    ground (arith, none_found, length-distinct [] ids n (λ a m. unfold contains in refl))

-- No cycle is found exactly when the ids of the assignments are distinct and can be numbered so that
-- every dependency among them has a smaller number than the assignment that depends on it.
pub contains_cycle_iff :
    (assignments : List Assignment)
    → (contains_cycle assignments ≡ false)
      ↔ ((nodup (ids_of assignments) ≡ true) × ((rank : String → ℕ) × IsRanking assignments rank))
contains_cycle_iff assignments = (
  λ h.
      let ids = ids_of assignments in
      let (distinct, (visited, e)) = acyclic assignments h in
      let (c, holds) = search-closed assignments visited e in
      (
        distinct,
        (
          rank_in (graph_of ids assignments) visited,
          closed-IsRanking ids assignments visited c holds assignments (λ x m. m)
              (graph_of-Linked ids assignments distinct),
        ),
      ),
  λ (distinct, (rank, ranks)). ranked assignments distinct rank ranks,
)
