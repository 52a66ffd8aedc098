-- ===== src/Scheduler.antt =====
-- services/worker_scheduler.py: the search for a cycle among the assignments of a loop, and the
-- order in which they run.
pub mod Acyclic
pub mod Termination
pub mod Ordering
pub mod Distinct
pub mod Order
pub mod Cycle
pub mod Execution
pub mod Skipping
pub mod Stopping
pub mod Schedules
pub mod Retries
use hungerloop.Prelude.{
  ℕ, zero, suc, String, Bool, true, false, Option, none, some, List, [], ◌∷◌, ◌++◌, ◌==◌, string_eq,
  nat_eq, if◌then◌else◌, not, ◌&&◌, ◌||◌, map, filter, all, contains, dedupe, length, is_empty,
  Dict, lookup, lookup_or,
}
use hungerloop.Models.Planning.{Assignment}

abbrev pub ids_of : List Assignment → List String
ids_of assignments = map (λ a. a.assignment_id) assignments

-- `[dep for dep in assignment.depends_on if dep in assignment_ids]`
abbrev pub local_dependencies : List String → Assignment → List String
local_dependencies assignment_ids a = filter (contains assignment_ids) a.depends_on

-- The `graph` of distinct ids.
unfoldable pub graph_of : List String → List Assignment → Dict String (List String)
graph_of assignment_ids [] = []
graph_of assignment_ids (a ∷ assignments) =
    (a.assignment_id, local_dependencies assignment_ids a) ∷ graph_of assignment_ids assignments

-- What a visit returns: a cycle, or the visited ids, the last one first; or it ran out of fuel.
pub data Search : Type 0 where
  exhausted : Search
  found_cycle : Search
  finished : (visited : List String) → Search

-- What follows a visit that finishes.
abbrev pub after : Search → (List String → Search) → Search
after Search.exhausted next = Search.exhausted
after Search.found_cycle next = Search.found_cycle
after (Search.finished visited) next = next visited

-- `for dependency_id in …: if visit(dependency_id): return True`
unfoldable pub visit_each : (List String → String → Search) → List String → List String → Search
visit_each visit visited [] = Search.finished visited
visit_each visit visited (dependency_id ∷ dependencies) =
    after (visit visited dependency_id) (λ visited'. visit_each visit visited' dependencies)

-- `visited.add(assignment_id)` after the dependencies
abbrev pub leave : String → Search → Search
leave assignment_id searched = after searched (λ visited. Search.finished (assignment_id ∷ visited))

module _ (graph : Dict String (List String)) where
  unfoldable pub visit : ℕ → List String → List String → String → Search
  visit zero visiting visited assignment_id = Search.exhausted
  visit (suc fuel) visiting visited assignment_id =
      let below = visit fuel (assignment_id ∷ visiting) in
      if contains visiting assignment_id
      then Search.found_cycle
      else if contains visited assignment_id
      then Search.finished visited
      else leave assignment_id (visit_each below visited (lookup_or [] assignment_id graph))

-- The visits of all ids; the fuel is more than the length of any path.
unfoldable pub search : List Assignment → Search
search assignments =
    let assignment_ids = ids_of assignments in
    visit_each (visit (graph_of assignment_ids assignments) (suc (length assignment_ids)) []) []
      assignment_ids

-- `any(…)` of the visits
abbrev pub is_cycle : Search → Bool
is_cycle Search.found_cycle = true
is_cycle _ = false

unfoldable pub contains_cycle : List Assignment → Bool
contains_cycle assignments =
    if not (length (dedupe (ids_of assignments)) == length (ids_of assignments))
    then true
    else is_cycle (search assignments)

-- `all(… in ordered_ids for … in local_dependencies)`
unfoldable pub is_ready : List String → List Assignment → Assignment → Bool
is_ready assignment_ids ordered a =
    all (contains (ids_of ordered)) (local_dependencies assignment_ids a)

-- One pass over the remaining assignments: what is ordered, what remains, and `progressed`.
unfoldable pub order_pass :
    List String → List Assignment → List Assignment → List Assignment × List Assignment × Bool
order_pass assignment_ids ordered [] = (ordered, [], false)
order_pass assignment_ids ordered (a ∷ remaining) =
    let taken = order_pass assignment_ids (ordered ++ a ∷ []) remaining in
    let left = order_pass assignment_ids ordered remaining in
    if is_ready assignment_ids ordered a
    then (taken.0, taken.1, true)
    else (left.0, a ∷ left.1, left.2)

-- `while remaining`; `none` when the fuel does not suffice.
unfoldable pub order_from :
    ℕ → List String → List Assignment → List Assignment → Option (List Assignment)
order_from fuel assignment_ids ordered [] = some ordered
order_from zero assignment_ids ordered (a ∷ remaining) = none
order_from (suc fuel) assignment_ids ordered (a ∷ remaining) =
    let (ordered', next_remaining, progressed) =
      order_pass assignment_ids ordered (a ∷ remaining) in
    let again = order_from fuel assignment_ids ordered' next_remaining in
    if progressed then again else some (ordered' ++ next_remaining)

unfoldable pub topologically_order_assignments : List Assignment → Option (List Assignment)
topologically_order_assignments assignments =
    order_from (length assignments) (ids_of assignments) [] assignments
