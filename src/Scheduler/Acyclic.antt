-- ===== src/Scheduler/Acyclic.antt =====
-- services/worker_scheduler.py: what the search for a cycle leaves when it finds none.
use hungerloop.Prelude.{
  ℕ, zero, suc, ◌≤◌, String, Bool, true, false, List, [], ◌∷◌, ◌==◌, string_eq, nat_eq,
  if◌then◌else◌, ◌&&◌, all, contains, nodup, length, Dict, lookup_or, ◌≡◌, refl, subst, arith,
  eq_iff, if_intro, all_of_contains,
}
use hungerloop.Models.Planning.{Assignment}
use hungerloop.Scheduler.{Search, visit, visit_each, after, leave, search, graph_of, ids_of}

no_member : (x : String) → contains [] x ≡ true → ⊥
unfolding contains
no_member x m = ground arith

only :
    (x y : String) (visited : List String)
    → contains (x ∷ []) y ≡ true
    → contains visited x ≡ true
    → contains visited y ≡ true
unfolding contains
only x y visited k m = ground (arith, k, m, eq_iff x y)

only_more :
    (x y : String) (visited : List String)
    → contains (x ∷ []) y ≡ true
    → contains (x ∷ visited) y ≡ true
unfolding contains
only_more x y visited k = ground (arith, k)

module _ (graph : Dict String (List String)) where
  abbrev pub dependencies : String → List String
  dependencies x = lookup_or [] x graph

  -- Each id comes before its dependencies, all of which are there.
  unfoldable pub is_closed : List String → Bool
  is_closed [] = true
  is_closed (x ∷ visited) = all (contains visited) (dependencies x) && is_closed visited

  -- A visit of an id, from a closed list, that finishes: the list is still closed, has grown, and
  -- holds the id.
  abbrev Visits : List String → List String → Search → Type 0
  Visits visited targets Search.exhausted = Unit
  Visits visited targets Search.found_cycle = Unit
  Visits visited targets (Search.finished visited') =
      (is_closed visited' ≡ true)
      × ((x : String) → contains visited x ≡ true → contains visited' x ≡ true)
      × ((x : String) → contains targets x ≡ true → contains visited' x ≡ true)

  Visits-more :
      (before visited : List String) (t : String) (targets : List String) (r : Search)
      → ((x : String) → contains before x ≡ true → contains visited x ≡ true)
      → contains visited t ≡ true
      → Visits visited targets r
      → Visits before (t ∷ targets) r
  Visits-more before visited t targets Search.exhausted grows has v = tt
  Visits-more before visited t targets Search.found_cycle grows has v = tt
  Visits-more before visited t targets (Search.finished last) grows has (c, more, holds) = (
    c,
    λ x m. more x (grows x m),
    λ x m. unfold contains in ground (arith, m, holds x, more t has, eq_iff t x),
  )

  Visits-after :
      (visited : List String) (t : String) (targets : List String) (r : Search)
      (next : List String → Search)
      → Visits visited (t ∷ []) r
      → ((visited' : List String)
          → is_closed visited' ≡ true
          → Visits visited' targets (next visited'))
      → Visits visited (t ∷ targets) (after r next)
  Visits-after visited t targets Search.exhausted next v k = tt
  Visits-after visited t targets Search.found_cycle next v k = tt
  Visits-after visited t targets (Search.finished visited') next (c, grows, holds) k =
      Visits-more visited visited' t targets (next visited') grows
        (holds t (unfold contains in ground (arith, eq_iff t t))) (k visited' c)

  visit_each-Visits :
      (step : List String → String → Search)
      → ((visited : List String) (x : String)
          → is_closed visited ≡ true
          → Visits visited (x ∷ []) (step visited x))
      → (targets visited : List String) → is_closed visited ≡ true
      → Visits visited targets (visit_each step visited targets)
  unfolding visit_each
  visit_each-Visits step one [] visited c = (c, λ x m. m, λ x m. absurd (no_member x m))
  visit_each-Visits step one (t ∷ targets) visited c =
      Visits-after visited t targets (step visited t) (λ v. visit_each step v targets)
        (one visited t c) (visit_each-Visits step one targets)

  Visits-leave :
      (visited : List String) (x : String) (r : Search)
      → Visits visited (dependencies x) r
      → Visits visited (x ∷ []) (leave x r)
  Visits-leave visited x Search.exhausted v = tt
  Visits-leave visited x Search.found_cycle v = tt
  Visits-leave visited x (Search.finished visited') (c, grows, holds) = (
    unfold is_closed in
        ground (arith, c, all_of_contains (contains visited') (dependencies x) holds),
    λ y m. unfold contains in ground (arith, grows y m),
    λ y m. only_more x y visited' m,
  )

  visit-Visits :
      (fuel : ℕ) (visiting visited : List String) (x : String)
      → is_closed visited ≡ true
      → Visits visited (x ∷ []) (visit graph fuel visiting visited x)
  unfolding visit
  visit-Visits zero visiting visited x c = tt
  visit-Visits (suc fuel) visiting visited x c =
      if_intro (Visits visited (x ∷ [])) (contains visiting x) (λ m. tt)
        (λ n.
          if_intro (Visits visited (x ∷ [])) (contains visited x)
            (λ m. (c, λ y k. k, λ y k. only x y visited k m))
            (λ n'.
              Visits-leave visited x
                (visit_each (visit graph fuel (x ∷ visiting)) visited (dependencies x))
                (visit_each-Visits (visit graph fuel (x ∷ visiting))
                  (visit-Visits fuel (x ∷ visiting)) (dependencies x) visited c)))

-- A search that finishes leaves every id, each before its dependencies.
pub search-closed :
    (assignments : List Assignment) (visited : List String)
    → search assignments ≡ Search.finished visited
    → (is_closed (graph_of (ids_of assignments) assignments) visited ≡ true)
      × ((x : String) → contains (ids_of assignments) x ≡ true → contains visited x ≡ true)
unfolding search
search-closed assignments visited h =
    let ids = ids_of assignments in
    let graph = graph_of ids assignments in
    let start : is_closed graph [] ≡ true = unfold is_closed in refl in
    let v = subst (Visits graph [] ids) h (
      visit_each-Visits graph (visit graph (suc (length ids)) [])
        (visit-Visits graph (suc (length ids)) []) ids [] start) in
    (v.0, v.2)

-- An element of a list is not one that the list lacks.
other :
    (x z : String) (xs : List String)
    → contains xs z ≡ true
    → contains xs x ≡ false
    → (x == z) ≡ false
other x z xs m n = ground (arith, m, n, eq_iff x z)

-- A list without repetition is no longer than a list that holds its elements.
remove_first : String → List String → List String
remove_first x [] = []
remove_first x (y ∷ ys) = if y == x then ys else y ∷ remove_first x ys

length-remove_first :
    (x : String) (ys : List String)
    → contains ys x ≡ true
    → length ys ≡ suc (length (remove_first x ys))
unfolding remove_first contains
length-remove_first x [] m = absurd (ground arith)
length-remove_first x (y ∷ ys) m = ground (arith, m, length-remove_first x ys)

contains-remove_first :
    (x z : String) (ys : List String)
    → contains ys z ≡ true
    → (x == z) ≡ false
    → contains (remove_first x ys) z ≡ true
unfolding remove_first contains
contains-remove_first x z [] m n = absurd (ground arith)
contains-remove_first x z (y ∷ ys) m n =
    ground (arith, m, n, contains-remove_first x z ys, eq_iff y x, eq_iff y z, eq_iff x z)

pub length-nodup :
    (xs ys : List String)
    → nodup xs ≡ true
    → ((x : String) → contains xs x ≡ true → contains ys x ≡ true)
    → length xs ≤ length ys
unfolding nodup
length-nodup [] ys n h = ground arith
length-nodup (x ∷ xs) ys n h =
    let has = h x (unfold contains in ground (arith, eq_iff x x)) in
    ground (
      arith,
      length-remove_first x ys has,
      length-nodup xs (remove_first x ys) (ground arith) (λ z m.
          contains-remove_first x z ys (h z (unfold contains in ground (arith, m)))
            (other x z xs m (ground arith))),
    )
