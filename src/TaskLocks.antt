-- ===== src/TaskLocks.antt =====
-- repository/in_memory_repo.py, the locks of the tasks: an owner is "host:pid:uuid", and processes
-- are told apart by what stands before the last colon.
pub mod Exclusion
use Prim.Native.Char.{code}
use Prim.Native.String
use hungerloop.Prelude.{
  ℕ, String, Bool, true, false, Option, none, some, List, [], ◌∷◌, ◌==◌, string_eq, nat_eq,
  if◌then◌else◌, not, ◌&&◌, ◌||◌, Dict, lookup, insert, remove, lookup-insert, lookup-remove,
  Floats, ◌≡◌, refl, ◌∙◌, ap, arith, eq_iff, inl, inr, Option-cases, Bool-cases, ◌↔◌,
}
use hungerloop.CheckKey.{has_colon}
use hungerloop.Repository.{Repo, TaskLock, EventBody, append_event}

pub data LockOutcome : Type 0 where
  acquired reentrant held_live held_stale stolen : LockOutcome

-- `owner.rsplit(":", 1)[0]`
unfoldable pub host_pid : String → String
unfolding has_colon
host_pid String.[] = String.[]
host_pid (String.◌∷◌ c s) =
    if code c == b':' && not (has_colon s) then String.[] else String.◌∷◌ c (host_pid s)

unfoldable pub same_host_pid : String → String → Bool
same_host_pid owner_a owner_b = host_pid owner_a == host_pid owner_b

module _ {R : Type 0} ⦃fl : Floats R⦄ where
  unfoldable pub put_lock : String → TaskLock R → Repo R → Repo R
  put_lock task_id lock repo = record repo { task_locks = insert task_id lock repo.task_locks }

  -- A lock that is there is taken over, or left to its owner.
  unfoldable pub contest :
      String → String → R → Bool → R → TaskLock R → Repo R → LockOutcome × Repo R
  contest task_id owner stale_threshold steal now existing repo =
      let is_stale = fl.le stale_threshold (fl.sub now existing.locked_at) in
      let taken =
        append_event (EventBody.lock_stolen existing.owner owner) task_id none
          (put_lock task_id (record { owner = owner; locked_at = now }) repo) in
      if same_host_pid existing.owner owner
      then (LockOutcome.reentrant, repo)
      else if not is_stale && not steal
      then (LockOutcome.held_live, repo)
      else if is_stale && not steal
      then (LockOutcome.held_stale, repo)
      else (LockOutcome.stolen, taken)

  -- `acquire_task_lock` with the lock that is there, if any
  unfoldable pub acquire_over :
      Option (TaskLock R) → String → String → R → Bool → R → Repo R → LockOutcome × Repo R
  acquire_over none task_id owner stale_threshold steal now repo =
      (LockOutcome.acquired, put_lock task_id (record { owner = owner; locked_at = now }) repo)
  acquire_over (some existing) task_id owner stale_threshold steal now repo =
      contest task_id owner stale_threshold steal now existing repo

  unfoldable pub acquire_task_lock : String → String → R → Bool → R → Repo R → LockOutcome × Repo R
  acquire_task_lock task_id owner stale_threshold steal now repo =
      acquire_over (lookup task_id repo.task_locks) task_id owner stale_threshold steal now repo

  unfoldable pub release_task_lock : String → String → Repo R → Repo R
  release_task_lock task_id owner repo = elim (lookup task_id repo.task_locks) [
    | none ↦ repo
    | some existing ↦
        if existing.owner == owner
        then record repo { task_locks = remove task_id repo.task_locks }
        else repo
  ]

  unfoldable pub get_task_lock : Repo R → String → Option (TaskLock R)
  get_task_lock repo task_id = lookup task_id repo.task_locks
