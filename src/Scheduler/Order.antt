-- ===== src/Scheduler/Order.antt =====
-- services/worker_scheduler.py: the whole order, from the passes of its loop and the search for a
-- cycle.
use mathlib.Core.List.Permᴰ as Perm
use mathlib.Core.List.{Permᴰ, append-nil}
use hungerloop.Prelude.{
  ℕ, zero, suc, ◌≤◌, String, true, false, List, [], ◌∷◌, ◌++◌, ◌==◌, string_eq, nat_eq,
  if◌then◌else◌, not, ◌||◌, all, contains, nodup, length, Dict, lookup, lookup_or, ◌≡◌, ◌≢◌, refl,
  ◌∙◌, sym, ap, subst, arith, eq_iff, inl, inr, Bool-cases, if_intro, Returns, AllOf,
  contains-append, all_of_contains, all-contains, dedupe,
}
use hungerloop.Models.Planning.{Assignment}
use hungerloop.Scheduler.{
  Search, graph_of, ids_of, local_dependencies, order_pass, order_from,
  topologically_order_assignments, is_ready, contains_cycle, search, is_cycle,
}
use hungerloop.Scheduler.Acyclic.{dependencies, is_closed, search-closed}
use hungerloop.Scheduler.Distinct.{distinct-dedupe_from}
use hungerloop.Scheduler.Termination.{search-ends, dependencies-local}
use hungerloop.Scheduler.Ordering.{is_in_order, order_pass-IsPass}

pub contains-Permᴰ :
    (xs ys : List String) (x : String) → Permᴰ xs ys → contains xs x ≡ contains ys x
unfolding contains
contains-Permᴰ xs ys x Permᴰ.nil = refl
contains-Permᴰ xs ys x (Permᴰ.cons {a = a} {b = b} {l₁ = l} {l₂ = k} e p) =
    ground (arith, e, contains-Permᴰ l k x p)
contains-Permᴰ xs ys x (Permᴰ.swap e f) = ground (arith, e, f)
contains-Permᴰ xs ys x (Permᴰ.trans {l₂ = m} p q) =
    contains-Permᴰ xs m x p ∙ contains-Permᴰ m ys x q

pub AllOf-Permᴰ {κ} :
    (P : Assignment → Type κ) (xs ys : List Assignment) → Permᴰ xs ys → AllOf P xs → AllOf P ys
AllOf-Permᴰ P xs ys Permᴰ.nil h = h
AllOf-Permᴰ P xs ys (Permᴰ.cons {l₁ = l} {l₂ = k} e p) (h, t) = (subst P e h, AllOf-Permᴰ P l k p t)
AllOf-Permᴰ P xs ys (Permᴰ.swap e f) (h, (g, t)) = (subst P f g, (subst P e h, t))
AllOf-Permᴰ P xs ys (Permᴰ.trans {l₂ = m} p q) h = AllOf-Permᴰ P m ys q (AllOf-Permᴰ P xs m p h)

AllOf-right {κ} :
    (P : Assignment → Type κ) (xs ys : List Assignment) → AllOf P (xs ++ ys) → AllOf P ys
AllOf-right P [] ys h = h
AllOf-right P (x ∷ xs) ys h = AllOf-right P xs ys h.1

ids_of-append : (xs ys : List Assignment) → ids_of (xs ++ ys) ≡ ids_of xs ++ ids_of ys
ids_of-append [] ys = refl
ids_of-append (x ∷ xs) ys = ap (λ l. x.assignment_id ∷ l) (ids_of-append xs ys)

module _ (ids : List String) where
  -- The graph has the dependencies of the assignment.
  abbrev pub Linked : List Assignment → Assignment → Type 0
  Linked assignments a =
      dependencies (graph_of ids assignments) a.assignment_id ≡ local_dependencies ids a

  dependencies-cons :
      (b : Assignment) (assignments : List Assignment) (x : String)
      → dependencies (graph_of ids (b ∷ assignments)) x ≡ (
          if b.assignment_id == x
          then local_dependencies ids b
          else dependencies (graph_of ids assignments) x)
  unfolding graph_of lookup_or lookup
  dependencies-cons b assignments x = ground arith

  apart :
      (b x : Assignment) (xs : List Assignment)
      → contains (ids_of (x ∷ xs)) b.assignment_id ≡ false
      → ((b.assignment_id == x.assignment_id) ≡ false)
        × (contains (ids_of xs) b.assignment_id ≡ false)
  unfolding contains
  apart b x xs n =
      ground
        (arith, n, eq_iff b.assignment_id x.assignment_id, eq_iff x.assignment_id b.assignment_id)

  Linked-cons :
      (b : Assignment) (assignments xs : List Assignment)
      → contains (ids_of xs) b.assignment_id ≡ false
      → AllOf (Linked assignments) xs
      → AllOf (Linked (b ∷ assignments)) xs
  Linked-cons b assignments [] n h = tt
  Linked-cons b assignments (x ∷ xs) n (h, t) =
      let (d, m) = apart b x xs n in
      (
        ground (arith, h, d, dependencies-cons b assignments x.assignment_id),
        Linked-cons b assignments xs m t,
      )

  pub graph_of-Linked :
      (assignments : List Assignment)
      → nodup (ids_of assignments) ≡ true
      → AllOf (Linked assignments) assignments
  unfolding nodup
  graph_of-Linked [] n = tt
  graph_of-Linked (a ∷ assignments) n = (
    ground (
      arith,
      dependencies-cons a assignments a.assignment_id,
      eq_iff a.assignment_id a.assignment_id,
    ),
    Linked-cons a assignments assignments (ground (arith, n))
        (graph_of-Linked assignments (ground (arith, n))),
  )

finishes :
    (r : Search)
    → r ≢ Search.exhausted
    → is_cycle r ≡ false
    → (visited : List String) × (r ≡ Search.finished visited)
finishes Search.exhausted n h = absurd (n refl)
finishes Search.found_cycle n h = absurd (ground (arith, h))
finishes (Search.finished visited) n h = (visited, refl)

contains-head : (x : String) (xs : List String) → contains (x ∷ xs) x ≡ true
unfolding contains
contains-head x xs = ground (arith, eq_iff x x)

module _ (assignments : List Assignment) where
  abbrev ids : List String
  ids = ids_of assignments

  abbrev graph : Dict String (List String)
  graph = graph_of ids assignments

  -- No remaining assignment with an id whose dependencies are all ordered is left unready.
  none_blocked :
      (ordered remaining : List Assignment) (x : String)
      → AllOf (Linked ids assignments) remaining
      → all (λ a. not (is_ready ids ordered a)) remaining ≡ true
      → contains (ids_of remaining) x ≡ true
      → all (contains (ids_of ordered)) (dependencies graph x) ≡ true
      → ⊥
  unfolding all contains is_ready
  none_blocked ordered [] x linked blocked m d = ground (arith, m)
  none_blocked ordered (a ∷ remaining) x (l, linked) blocked m d =
      elim (Bool-cases (a.assignment_id == x)) [
        | inl t ↦ ground (arith, l, blocked, d, t, eq_iff a.assignment_id x)
        | inr f ↦
            none_blocked ordered remaining x linked (ground (arith, blocked)) (ground (arith, m, f))
              d
      ]

  -- An id of the assignments is one of the ordered or of the remaining ones.
  split_ids :
      (ordered remaining : List Assignment) (x : String)
      → Permᴰ assignments (ordered ++ remaining)
      → contains ids x ≡ (contains (ids_of ordered) x || contains (ids_of remaining) x)
  split_ids ordered remaining x p =
      contains-Permᴰ ids (ids_of (ordered ++ remaining)) x (Perm.map (λ a. a.assignment_id) p)
      ∙ ap (λ l. contains l x) (ids_of-append ordered remaining)
      ∙ contains-append (ids_of ordered) (ids_of remaining) x

  module _ (ordered remaining : List Assignment) (p : Permᴰ assignments (ordered ++ remaining))
      (linked : AllOf (Linked ids assignments) remaining)
      (blocked : all (λ a. not (is_ready ids ordered a)) remaining ≡ true) where
    -- With a pass that took nothing, the closed list of a search is ordered already.
    all_ordered :
        (visited : List String)
        → is_closed graph visited ≡ true
        → (x : String) → contains visited x ≡ true
        → contains ids x ≡ true
        → contains (ids_of ordered) x ≡ true
    unfolding is_closed contains
    all_ordered [] c x m n = absurd (ground (arith, m))
    all_ordered (v ∷ visited) c x m n = elim (Bool-cases (v == x)) [
      | inr f ↦ all_ordered visited (ground (arith, c)) x (ground (arith, m, f)) n
      | inl t ↦ elim (Bool-cases (contains (ids_of remaining) x)) [
        | inr away ↦ ground (arith, n, away, split_ids ordered remaining x p)
        | inl there ↦ absurd (
            none_blocked ordered remaining x linked blocked there (
              all_of_contains (contains (ids_of ordered)) (dependencies graph x) (λ d e.
                all_ordered visited (ground (arith, c)) d
                  (all-contains (contains visited) (dependencies graph x) d
                    (ground (arith, c, t, eq_iff v x)) e)
                  (dependencies-local ids assignments x d e))))
      ]
    ]

  -- What makes an order of the assignments: the same ones, and in order if a search finds no cycle.
  abbrev pub IsOrder : List Assignment → Type 0
  IsOrder result =
      Permᴰ assignments result
      × (contains_cycle assignments ≡ false → is_in_order ids [] result ≡ true)

  pub acyclic :
      contains_cycle assignments ≡ false
      → (nodup ids ≡ true)
        × ((visited : List String) × (search assignments ≡ Search.finished visited))
  unfolding contains_cycle dedupe
  acyclic h = (
    (distinct-dedupe_from [] ids (ground (arith, h))).0,
    finishes (search assignments) (search-ends assignments) (ground (arith, h)),
  )

  stuck-IsOrder :
      (ordered : List Assignment) (a : Assignment) (remaining : List Assignment)
      → Permᴰ assignments (ordered ++ a ∷ remaining)
      → all (λ b. not (is_ready ids ordered b)) (a ∷ remaining) ≡ true
      → contains_cycle assignments ≡ false
      → ⊥
  stuck-IsOrder ordered a remaining p blocked h =
      let (distinct, (visited, e)) = acyclic h in
      let (c, holds) = search-closed assignments visited e in
      let linked = AllOf-right (Linked ids assignments) ordered (a ∷ remaining) (
        AllOf-Permᴰ (Linked ids assignments) assignments (ordered ++ a ∷ remaining) p
          (graph_of-Linked ids assignments distinct)) in
      let here : contains (ids_of (a ∷ remaining)) a.assignment_id ≡ true =
        contains-head a.assignment_id (ids_of remaining) in
      none_blocked ordered (a ∷ remaining) a.assignment_id linked blocked here (
        all_of_contains (contains (ids_of ordered)) (dependencies graph a.assignment_id) (λ d m.
          let local = dependencies-local ids assignments a.assignment_id d m in
          all_ordered ordered (a ∷ remaining) p linked blocked visited c d (holds d local) local))

  order_from-IsOrder :
      (fuel : ℕ) (ordered remaining : List Assignment)
      → length remaining ≤ fuel
      → Permᴰ assignments (ordered ++ remaining)
      → is_in_order ids [] ordered ≡ true
      → Returns IsOrder (order_from fuel ids ordered remaining)
  unfolding order_from
  order_from-IsOrder fuel ordered [] f p o = (rw (sym (append-nil ordered)) p, λ h. o)
  order_from-IsOrder zero ordered (a ∷ remaining) f p o = absurd (ground (arith, f))
  order_from-IsOrder (suc fuel) ordered (a ∷ remaining) f p o =
      let passed = order_pass ids ordered (a ∷ remaining) in
      let pass = order_pass-IsPass ids (a ∷ remaining) ordered in
      if_intro (Returns IsOrder) passed.2
        (λ t.
          order_from-IsOrder fuel passed.0 passed.1 (ground (arith, f, pass.progress t))
            (Permᴰ.trans p pass.same) (pass.in_order o))
        (λ n. (
          Permᴰ.trans p pass.same,
          λ h.
              let (same, left, blocked) = pass.stuck n in
              absurd (stuck-IsOrder ordered a remaining p blocked h),
        ))

  -- The assignments are always ordered: the loop ends within as many rounds as there are
  -- assignments, and its result holds each assignment exactly as often as the input does. If no
  -- cycle was found, then every dependency that is one of the assignments stands before it.
  pub topologically_order_assignments_lem :
      Returns IsOrder (topologically_order_assignments assignments)
  unfolding topologically_order_assignments
  topologically_order_assignments_lem =
      order_from-IsOrder (length assignments) [] assignments (ground arith) (Perm.refl assignments)
        (unfold is_in_order in refl)
