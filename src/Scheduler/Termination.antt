-- ===== src/Scheduler/Termination.antt =====
-- services/worker_scheduler.py: the search for a cycle and the loop that orders the assignments end.
use hungerloop.Prelude.{
  ℕ, zero, suc, ◌+◌, ◌≤◌, String, Bool, true, false, List, [], ◌∷◌, ◌==◌, string_eq, contains,
  nodup, length, Dict, lookup, lookup_or, ◌≡◌, ◌≢◌, refl, ap, arith, eq_iff, inl, inr, Bool-cases,
  contains-filter, if_intro,
}
use hungerloop.Models.Planning.{Assignment}
use hungerloop.Scheduler.{Search, visit, visit_each, after, search, graph_of, ids_of}
use hungerloop.Scheduler.Acyclic.{dependencies, length-nodup}

pub dependencies-local :
    (ids : List String) (assignments : List Assignment) (x d : String)
    → contains (dependencies (graph_of ids assignments) x) d ≡ true
    → contains ids d ≡ true
unfolding graph_of lookup_or lookup
dependencies-local ids [] x d m = absurd (unfold contains in ground arith)
dependencies-local ids (a ∷ assignments) x d m = elim (Bool-cases (a.assignment_id == x)) [
  | inl t ↦ ground (arith, m, t, contains-filter (contains ids) a.depends_on d)
  | inr f ↦ dependencies-local ids assignments x d (ground (arith, m, f))
]

abbrev runs_out : Search → Bool
runs_out Search.exhausted = true
runs_out _ = false

runs_out-after :
    (r : Search) (next : List String → Search)
    → runs_out r ≡ false
    → ((visited : List String) → runs_out (next visited) ≡ false)
    → runs_out (after r next) ≡ false
runs_out-after Search.exhausted next h k = h
runs_out-after Search.found_cycle next h k = refl
runs_out-after (Search.finished visited) next h k = k visited

runs_out-visit_each :
    (step : List String → String → Search) (targets : List String)
    → ((visited : List String) (x : String)
        → contains targets x ≡ true
        → runs_out (step visited x) ≡ false)
    → (visited : List String) → runs_out (visit_each step visited targets) ≡ false
unfolding visit_each contains
runs_out-visit_each step [] one visited = refl
runs_out-visit_each step (t ∷ targets) one visited =
    runs_out-after (step visited t) (λ v. visit_each step v targets)
      (one visited t (ground (arith, eq_iff t t)))
      (runs_out-visit_each step targets (λ v x m. one v x (ground (arith, m))))

grown :
    (ids : List String) (x y : String) (visiting : List String)
    → (contains visiting y ≡ true → contains ids y ≡ true)
    → contains ids x ≡ true
    → contains (x ∷ visiting) y ≡ true
    → contains ids y ≡ true
unfolding contains
grown ids x y visiting w m i = ground (arith, w, m, i, eq_iff x y)

module _ (ids : List String) (assignments : List Assignment) where
  abbrev graph : Dict String (List String)
  graph = graph_of ids assignments

  runs_out-visit :
      (fuel : ℕ) (visiting visited : List String) (x : String)
      → suc (length ids) ≤ fuel + length visiting
      → nodup visiting ≡ true
      → ((y : String) → contains visiting y ≡ true → contains ids y ≡ true)
      → contains ids x ≡ true
      → runs_out (visit graph fuel visiting visited x) ≡ false
  unfolding visit
  runs_out-visit zero visiting visited x f n within m =
      absurd (ground (arith, f, length-nodup visiting ids n within))
  runs_out-visit (suc fuel) visiting visited x f n within m =
      if_intro (λ r. runs_out r ≡ false) (contains visiting x) (λ h. refl)
        (λ h.
          if_intro (λ r. runs_out r ≡ false) (contains visited x) (λ k. refl)
            (λ k.
              runs_out-after
                (visit_each (visit graph fuel (x ∷ visiting)) visited (dependencies graph x))
                (λ v. Search.finished (x ∷ v))
                (runs_out-visit_each (visit graph fuel (x ∷ visiting)) (dependencies graph x)
                  (λ v d e.
                    runs_out-visit fuel (x ∷ visiting) v d (ground (arith, f))
                      (unfold nodup in ground (arith, n, h))
                      (λ y i. grown ids x y visiting (within y) m i)
                      (dependencies-local ids assignments x d e))
                  visited)
                (λ v. refl)))

runs_out-false : (r : Search) → runs_out r ≡ false → r ≢ Search.exhausted
runs_out-false r h e = ground (arith, ap runs_out e, h)

pub search-ends : (assignments : List Assignment) → search assignments ≢ Search.exhausted
unfolding search
search-ends assignments =
    let ids = ids_of assignments in
    runs_out-false (search assignments) (
      runs_out-visit_each (visit (graph_of ids assignments) (suc (length ids)) []) ids
        (λ v x m.
          runs_out-visit ids assignments (suc (length ids)) [] v x (ground arith)
            (unfold nodup in refl) (λ y i. absurd (unfold contains in ground (arith, i))) m)
        [])
