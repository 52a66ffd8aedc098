-- ===== src/TaskLocks/Exclusion.antt =====
-- repository/in_memory_repo.py, the locks of the tasks: one process at a time.
use hungerloop.Prelude.{
  String, Bool, true, false, Option, none, some, List, [], ◌∷◌, ◌==◌, string_eq, if◌then◌else◌, not,
  ◌&&◌, lookup-insert, Floats, ◌≡◌, ◌⊎◌, refl, ◌∙◌, ap, arith, eq_iff, if_intro, AllOf, ◌↔◌,
}
use hungerloop.Repository.{Repo, TaskLock, EventBody, append_event}
use hungerloop.TaskLocks.{
  LockOutcome, same_host_pid, host_pid, put_lock, contest, acquire_task_lock, acquire_over,
  release_task_lock, get_task_lock,
}

-- The caller may go on.
abbrev pub may_run : LockOutcome → Bool
may_run LockOutcome.held_live = false
may_run LockOutcome.held_stale = false
may_run _ = true

-- A process holds the lock.
abbrev pub holds_lock : {R : Type 0} → Option (TaskLock R) → String → Bool
holds_lock none owner = false
holds_lock (some lock) owner = same_host_pid lock.owner owner

same_host_pid_refl : (owner : String) → same_host_pid owner owner ≡ true
unfolding same_host_pid
same_host_pid_refl owner = ground (arith, eq_iff (host_pid owner) (host_pid owner))

module _ {R : Type 0} ⦃fl : Floats R⦄ where
  get-put_lock :
      (task_id t : String) (lock : TaskLock R) (repo : Repo R)
      → get_task_lock (put_lock task_id lock repo) t
        ≡ (if task_id == t then some lock else get_task_lock repo t)
  unfolding get_task_lock put_lock
  get-put_lock task_id t lock repo = lookup-insert task_id t lock repo.task_locks

  module _ (task_id owner : String) (stale_threshold : R) (steal : Bool) (now : R)
      (repo : Repo R) where
    abbrev attempt : LockOutcome × Repo R
    attempt = acquire_task_lock task_id owner stale_threshold steal now repo

    -- What an acquisition promises of its outcome and of the lock before and after it.
    abbrev pub IsAcquisition : LockOutcome → Option (TaskLock R) → Option (TaskLock R) → Type 0
    IsAcquisition outcome before after =
        (may_run outcome ≡ holds_lock after owner)
        × (may_run outcome ≡ false → after ≡ before)
        × (steal ≡ false
            → (may_run outcome ≡ true) ↔ ((before ≡ none) ⊎ (holds_lock before owner ≡ true)))

    -- The lock that a taking acquisition leaves.
    abbrev mine : TaskLock R
    mine = record { owner = owner; locked_at = now }

    get-mine : get_task_lock (put_lock task_id mine repo) task_id ≡ some mine
    get-mine = ground (arith, get-put_lock task_id task_id mine repo, eq_iff task_id task_id)

    get-stolen :
        (existing : TaskLock R)
        → get_task_lock
            (append_event
              (EventBody.lock_stolen existing.owner owner)
              task_id
              none
              (put_lock task_id mine repo))
            task_id
          ≡ some mine
    unfolding append_event get_task_lock
    get-stolen existing = get-mine

    contest_lem :
        (existing : TaskLock R)
        → get_task_lock repo task_id ≡ some existing
        → let result = contest task_id owner stale_threshold steal now existing repo in
          IsAcquisition result.0 (some existing) (get_task_lock result.1 task_id)
    unfolding contest
    contest_lem existing h =
        let is_stale = fl.le stale_threshold (fl.sub now existing.locked_at) in
        let Fits = λ (r : LockOutcome × Repo R).
          IsAcquisition r.0 (some existing) (get_task_lock r.1 task_id) in
        if_intro Fits (same_host_pid existing.owner owner) (λ s. ground (arith, h, s))
          (λ d.
            if_intro Fits (not is_stale && not steal) (λ l. ground (arith, h, d, l))
              (λ l.
                if_intro Fits (is_stale && not steal) (λ t. ground (arith, h, d, t))
                  (λ t. ground (arith, d, l, t, get-stolen existing, same_host_pid_refl owner))))

    acquire_over_lem :
        (found : Option (TaskLock R))
        → get_task_lock repo task_id ≡ found
        → let result = acquire_over found task_id owner stale_threshold steal now repo in
          IsAcquisition result.0 found (get_task_lock result.1 task_id)
    unfolding acquire_over
    acquire_over_lem none h = ground (arith, get-mine, same_host_pid_refl owner)
    acquire_over_lem (some existing) h = contest_lem existing h

    -- An acquisition lets its caller go on exactly when the caller's process holds the lock
    -- afterwards; a refused one leaves the lock as it was; and one that does not steal lets the
    -- caller go on exactly when no other process held the lock.
    pub acquire_task_lock_lem :
        IsAcquisition attempt.0 (get_task_lock repo task_id) (get_task_lock attempt.1 task_id)
    unfolding acquire_task_lock get_task_lock
    acquire_task_lock_lem = acquire_over_lem (get_task_lock repo task_id) refl

-- What processes do with the lock of a task.
pub data LockOp (R : Type 0) : Type 0 where
  acquire : (owner : String) (stale_threshold : R) (steal : Bool) (now : R) → LockOp R
  release : (owner : String) → LockOp R

module _ {R : Type 0} ⦃fl : Floats R⦄ (task_id : String) where
  abbrev pub run_op : LockOp R → Repo R → Repo R
  run_op (LockOp.acquire owner stale_threshold steal now) repo =
      (acquire_task_lock task_id owner stale_threshold steal now repo).1
  run_op (LockOp.release owner) repo = release_task_lock task_id owner repo

  unfoldable pub run_ops : List (LockOp R) → Repo R → Repo R
  run_ops [] repo = repo
  run_ops (op ∷ ops) repo = run_ops ops (run_op op repo)

  -- The operation neither steals nor is the release of the owner.
  abbrev pub Respects : String → LockOp R → Type 0
  Respects holder (LockOp.acquire owner stale_threshold steal now) = steal ≡ false
  Respects holder (LockOp.release owner) = (holder == owner) ≡ false

  -- An acquisition of a held lock without stealing changes nothing at all.
  acquire-same :
      (owner : String) (stale_threshold : R) (steal : Bool) (now : R) (lock : TaskLock R)
      (repo : Repo R)
      → get_task_lock repo task_id ≡ some lock
      → steal ≡ false
      → (acquire_task_lock task_id owner stale_threshold steal now repo).1 ≡ repo
  unfolding acquire_task_lock acquire_over contest get_task_lock
  acquire-same owner stale_threshold steal now lock repo h s = rw (h) (ground (arith, s))

  release-keeps :
      (owner : String) (lock : TaskLock R) (repo : Repo R)
      → get_task_lock repo task_id ≡ some lock
      → (lock.owner == owner) ≡ false
      → get_task_lock (release_task_lock task_id owner repo) task_id ≡ some lock
  unfolding release_task_lock get_task_lock
  release-keeps owner lock repo h s = ground (arith, h, s)

  run_op-keeps :
      (lock : TaskLock R) (op : LockOp R) (repo : Repo R)
      → get_task_lock repo task_id ≡ some lock
      → Respects lock.owner op
      → get_task_lock (run_op op repo) task_id ≡ some lock
  run_op-keeps lock (LockOp.acquire owner stale_threshold steal now) repo h s =
      ap (λ r. get_task_lock r task_id) (acquire-same owner stale_threshold steal now lock repo h s)
      ∙ h
  run_op-keeps lock (LockOp.release owner) repo h s = release-keeps owner lock repo h s

  -- Whoever holds the lock of a task keeps it, the record itself included, whatever acquisitions
  -- without stealing and releases by other owners follow; and through all of them an acquisition
  -- without stealing by another process is refused.
  pub lock_exclusive :
      (lock : TaskLock R) (ops : List (LockOp R)) (repo : Repo R)
      → get_task_lock repo task_id ≡ some lock
      → AllOf (Respects lock.owner) ops
      → (get_task_lock (run_ops ops repo) task_id ≡ some lock)
        × ((owner : String) (stale_threshold now : R)
            → same_host_pid lock.owner owner ≡ false
            → may_run
                (acquire_task_lock task_id owner stale_threshold false now (run_ops ops repo)).0
              ≡ false)
  unfolding run_ops
  lock_exclusive lock [] repo h r = (
    h,
    λ owner threshold now d.
        let lem = acquire_task_lock_lem task_id owner threshold false now repo in
        ground (arith, lem, h, d),
  )
  lock_exclusive lock (op ∷ ops) repo h (first, rest) =
      lock_exclusive lock ops (run_op op repo) (run_op-keeps lock op repo h first) rest
