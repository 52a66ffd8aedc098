-- ===== src/Orchestrator/Attempts.antt =====
-- services/loop_orchestrator.py: the attempted items of a loop.
use hungerloop.Prelude.{
  String, List, [], ◌∷◌, ◌++◌, ◌||◌, ◌&&◌, not, string_eq, contains, any, ◌≡◌, arith, eq_iff,
  contains-append,
}
use hungerloop.Models.Planning.{Assignment}
use hungerloop.Orchestrator.Features.{append_new, attempted_from, attempted_hunger_item_ids}

contains-append_new :
    (attempted item_ids : List String) (j : String)
    → contains (append_new attempted item_ids) j ≡ (contains attempted j || contains item_ids j)
unfolding append_new contains
contains-append_new attempted [] j = ground arith
contains-append_new attempted (i ∷ item_ids) j = ground (
  arith,
  contains-append_new attempted item_ids j,
  contains-append_new (attempted ++ i ∷ []) item_ids j,
  contains-append attempted (i ∷ []) j,
  eq_iff i j,
)

attempted_from_lem :
    (skipped : List String) (assignments : List Assignment) (attempted : List String) (j : String)
    → contains (attempted_from skipped attempted assignments) j ≡ (
        contains attempted j
        || any
            (λ a. not (contains skipped a.assignment_id) && contains a.target_hunger_item_ids j)
            assignments)
unfolding attempted_from any
attempted_from_lem skipped [] attempted j = ground arith
attempted_from_lem skipped (a ∷ assignments) attempted j = ground (
  arith,
  attempted_from_lem skipped assignments attempted j,
  attempted_from_lem skipped assignments (append_new attempted a.target_hunger_item_ids) j,
  contains-append_new attempted a.target_hunger_item_ids j,
)

-- The attempted items of a loop are those that an assignment which was not skipped targets.
pub attempted_hunger_item_ids_lem :
    (assignments : List Assignment) (skipped_ids : List String) (j : String)
    → contains (attempted_hunger_item_ids assignments skipped_ids) j
      ≡ any
          (λ a. not (contains skipped_ids a.assignment_id) && contains a.target_hunger_item_ids j)
          assignments
unfolding attempted_hunger_item_ids contains
attempted_hunger_item_ids_lem assignments skipped_ids j =
    attempted_from_lem skipped_ids assignments [] j
