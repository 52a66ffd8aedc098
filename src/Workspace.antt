-- ===== src/Workspace.antt =====
-- services/workspace_manager.py. A directory of files is a dict from relative paths to contents,
-- and a manifest records the contents where the source records their hashes. What the file system
-- refuses is an argument of the operations; a refused copy leaves nothing here. Drafts, seeds and
-- continuations are not modelled.
pub mod Promotion
use hungerloop.Prelude.{
  ℕ, String, Bool, true, false, Option, none, some, List, [], ◌∷◌, Dict, lookup, insert, remove,
  string_eq, nat_eq, pair_eq, if◌then◌else◌, ltb,
}
use Prim.Native.String
use hungerloop.CheckKey.{print_index}
use hungerloop.Repository.{Result, return, raise, RepoError, os_error, file_not_found}

abbrev pub Files : Type 0
Files = Dict String String

pub record Manifest : Type 0 where
  pub source_workspace_ref : String
  pub files : Files

-- The directories below `root/tasks`, by task, and by task and loop.
pub record Workspace : Type 0 where
  pub best : Dict String Files
  pub best_manifest : Dict String Manifest
  pub candidates : Dict (String × ℕ) Files
  pub rejected : Dict (String × ℕ) Files
  -- `.best.staging.<token>` and `.best.old.<token>`, the token being fresh
  pub staging : Dict String Files
  pub old : Dict String Files
  -- the snapshots of refactor transactions, by task and snapshot path
  pub snapshots : Dict (String × String) Files

-- Which of the calls of a promotion the file system refuses.
pub record Faults : Type 0 where
  pub copytree : Bool
  pub rename_best : Bool
  pub rename_staging : Bool
  pub rename_back : Bool
  pub manifest : Bool

unfoldable pub write_best_manifest : String → String → Files → Workspace → Workspace
unfolding insert
write_best_manifest task_id source files w = record w {
  best_manifest =
      insert task_id (record { source_workspace_ref = source; files = files }) w.best_manifest;
}

unfoldable pub ensure_task_workspace : String → Workspace → Workspace
unfolding lookup insert
ensure_task_workspace task_id w = elim (lookup task_id w.best) [
  | none ↦ record w { best = insert task_id [] w.best }
  | some files ↦ w
]

-- Steps 2 and 3, the swap, with the staged files: the workspace left and whether it raised.
swap_in : Faults → String → Files → Option Files → Workspace → Result (Unit {0}) × Workspace
unfolding insert remove
swap_in faults task_id staged none w = if faults.rename_staging then (raise os_error, w) else (
  return tt,
  record w { best = insert task_id staged w.best; staging = remove task_id w.staging },
)
swap_in faults task_id staged (some files) w =
    let displaced : Workspace = record w {
      best = remove task_id w.best;
      old = insert task_id files w.old;
    } in
    if faults.rename_best
    then (raise os_error, w)
    else if faults.rename_staging
    then if faults.rename_back then (raise os_error, displaced) else (raise os_error, w)
    else (
      return tt,
      record displaced { best = insert task_id staged w.best; staging = remove task_id w.staging },
    )

-- After the swap: staging is cleaned up on failure; the displaced directory and the manifest
-- follow on success.
after_swap :
    Faults → String → Files → String → Result (Unit {0}) → Workspace → Result (Unit {0}) × Workspace
unfolding remove write_best_manifest
after_swap faults task_id staged source (raise e) w =
    (raise e, record w { staging = remove task_id w.staging })
after_swap faults task_id staged source (return _) w =
    let cleaned : Workspace = record w { old = remove task_id w.old } in
    if faults.manifest
    then (raise os_error, cleaned)
    else (return tt, write_best_manifest task_id source staged cleaned)

-- `f"candidates/loop_{loop_id:03d}"`
unfoldable pub candidate_source : ℕ → String
unfolding print_index
candidate_source loop_id =
    let zeros = if ltb loop_id 10 then "00" else if ltb loop_id 100 then "0" else "" in
    String.◌++◌ "candidates/loop_" (String.◌++◌ zeros (print_index loop_id))

unfoldable pub promote_candidate_to_best :
    Faults → String → ℕ → Workspace → Result (Unit {0}) × Workspace
unfolding lookup swap_in after_swap insert
promote_candidate_to_best faults task_id loop_id w = elim (lookup (task_id, loop_id) w.candidates) [
  | none ↦ (raise file_not_found, w)
  | some candidate ↦
      if faults.copytree
      then (raise os_error, w)
      else let staged : Workspace = record w { staging = insert task_id candidate w.staging } in
        let (outcome, swapped) =
          swap_in faults task_id candidate (lookup task_id staged.best) staged in
        after_swap faults task_id candidate (candidate_source loop_id) outcome swapped
]

-- The move into `rejected/`; its manifest is not modelled.
unfoldable pub reject_candidate : String → ℕ → Workspace → Workspace
unfolding lookup insert remove
reject_candidate task_id loop_id w = elim (lookup (task_id, loop_id) w.candidates) [
  | none ↦ w
  | some files ↦ record w {
    candidates = remove (task_id, loop_id) w.candidates;
    rejected = insert (task_id, loop_id) files w.rejected;
  }
]

-- `create_candidate_workspace` without a seed: the files of best, if there are any.
unfoldable pub create_candidate_workspace : String → ℕ → Workspace → Workspace
unfolding ensure_task_workspace lookup insert
create_candidate_workspace task_id loop_id w =
    let ready = ensure_task_workspace task_id w in
    elim (lookup task_id ready.best) [
      | none ↦ record ready { candidates = insert (task_id, loop_id) [] ready.candidates }
      | some files ↦ record ready { candidates = insert (task_id, loop_id) files ready.candidates }
    ]
