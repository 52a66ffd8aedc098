-- ===== src/Scheduler/Skipping.antt =====
-- services/worker_scheduler.py: which assignments are skipped, over a whole schedule.
use hungerloop.Prelude.{
  suc, ◌+◌, String, Bool, true, false, none, some, List, [], ◌∷◌, ◌++◌, ◌==◌, string_eq, not, ◌&&◌,
  ◌||◌, all, any, contains, length, ◌≡◌, refl, arith, eq_iff, contains-append, AllOf,
}
use hungerloop.Models.Planning.{Assignment}
use hungerloop.Models.Worker.{WorkerHandoff}
use hungerloop.Scheduler.{ids_of}
use hungerloop.Scheduler.Execution.{Progress, Schedule, blocked_by, skip_one, finish_one}

-- The assignment failed or was skipped.
abbrev pub is_lost : Progress → String → Bool
is_lost p x = contains p.failed_ids x || contains p.skipped_ids x

pub blocked_by-any :
    (failed skipped ds : List String)
    → (elim (blocked_by failed skipped ds) [ none ↦ false | some _ ↦ true ])
      ≡ any (λ d. contains failed d || contains skipped d) ds
unfolding blocked_by any
blocked_by-any failed skipped [] = refl
blocked_by-any failed skipped (d ∷ ds) = ground (arith, blocked_by-any failed skipped ds)

-- No assignment depends on itself or a later one, and the ids are distinct.
unfoldable pub looks_back : List Assignment → Bool
looks_back [] = true
looks_back (a ∷ rest) =
    all (λ d. not (contains (ids_of (a ∷ rest)) d)) a.depends_on
    && not (contains (ids_of rest) a.assignment_id)
    && looks_back rest

-- The schedule of some assignments, from the progress before them to the progress after them.
pub record Extends (assignments : List Assignment) (before after : Progress) : Type 0 where
  pub keeps : (x : String) → is_lost before x ≡ true → is_lost after x ≡ true
  pub only :
      (x : String) → contains (ids_of assignments) x ≡ false → is_lost after x ≡ is_lost before x
  pub keeps_skipped :
      (x : String) → contains before.skipped_ids x ≡ true → contains after.skipped_ids x ≡ true
  pub only_skipped :
      (x : String)
      → contains (ids_of assignments) x ≡ false
      → contains after.skipped_ids x ≡ contains before.skipped_ids x
  pub counts :
      length after.handoffs + length after.skipped_ids
      ≡ length before.handoffs + length before.skipped_ids + length assignments

-- An assignment is skipped exactly when one of its dependencies failed or was skipped.
abbrev pub SkipRule : Progress → Assignment → Type 0
SkipRule p a = contains p.skipped_ids a.assignment_id ≡ any (is_lost p) a.depends_on

any_agree :
    (p q : String → Bool) (xs out : List String)
    → all (λ d. not (contains out d)) xs ≡ true
    → ((x : String) → contains out x ≡ false → p x ≡ q x)
    → any p xs ≡ any q xs
unfolding any all
any_agree p q [] out h e = refl
any_agree p q (x ∷ xs) out h e =
    ground (arith, h, e x (ground (arith, h)), any_agree p q xs out (ground (arith, h)) e)

length-append : {A : Type 0} (xs ys : List A) → length (xs ++ ys) ≡ length xs + length ys
length-append [] ys = ground arith
length-append (x ∷ xs) ys = ground (arith, length-append xs ys)

-- One round of the loop: only the assignment's own id can be added, and it is skipped exactly when
-- one of its dependencies was lost.
pub record IsRound (a : Assignment) (before after : Progress) : Type 0 where
  pub keeps : (x : String) → is_lost before x ≡ true → is_lost after x ≡ true
  pub only : (x : String) → (a.assignment_id == x) ≡ false → is_lost after x ≡ is_lost before x
  pub keeps_skipped :
      (x : String) → contains before.skipped_ids x ≡ true → contains after.skipped_ids x ≡ true
  pub only_skipped :
      (x : String)
      → (a.assignment_id == x) ≡ false
      → contains after.skipped_ids x ≡ contains before.skipped_ids x
  pub counts :
      length after.handoffs + length after.skipped_ids
      ≡ suc (length before.handoffs + length before.skipped_ids)
  pub rule : contains after.skipped_ids a.assignment_id ≡ any (is_lost before) a.depends_on

pub skip_one-IsRound :
    (a : Assignment) (p : Progress)
    → any (is_lost p) a.depends_on ≡ true
    → IsRound a p (skip_one a p)
unfolding contains
skip_one-IsRound a p h = record {
  keeps = λ x m. ground (arith, m, contains-append p.skipped_ids (a.assignment_id ∷ []) x);
  only = λ x n. ground (arith, n, contains-append p.skipped_ids (a.assignment_id ∷ []) x);
  keeps_skipped = λ x m. ground (arith, m, contains-append p.skipped_ids (a.assignment_id ∷ []) x);
  only_skipped = λ x n. ground (arith, n, contains-append p.skipped_ids (a.assignment_id ∷ []) x);
  counts = ground (arith, length-append p.skipped_ids (a.assignment_id ∷ []));
  rule = ground (
    arith,
    h,
    contains-append p.skipped_ids (a.assignment_id ∷ []) a.assignment_id,
    eq_iff a.assignment_id a.assignment_id,
  );
}

pub finish_one-IsRound :
    (a : Assignment) (handoff : WorkerHandoff) (p : Progress)
    → any (is_lost p) a.depends_on ≡ false
    → contains p.skipped_ids a.assignment_id ≡ false
    → IsRound a p (finish_one a handoff p)
unfolding contains
finish_one-IsRound a handoff p h n = record {
  keeps = λ x m. ground (arith, m);
  only = λ x d. ground (arith, d);
  keeps_skipped = λ x m. m;
  only_skipped = λ x d. refl;
  counts = ground (arith, length-append p.handoffs (handoff ∷ []));
  rule = ground (arith, h, n);
}

-- What the loop over some assignments comes to.
abbrev pub Done : List Assignment → Progress → Schedule → Type 0
Done assignments p (Schedule.completed q) = Extends assignments p q × AllOf (SkipRule q) assignments
Done assignments p (Schedule.stopped skipped_ids) = Unit
Done assignments p (Schedule.cycle_detected skipped_ids) = ⊥
Done assignments p Schedule.stuck = ⊥

pub split_cons :
    (a : Assignment) (rest : List Assignment) (x : String)
    → contains (ids_of (a ∷ rest)) x ≡ (a.assignment_id == x || contains (ids_of rest) x)
unfolding contains
split_cons a rest x = refl

pub Done-cons :
    (a : Assignment) (rest : List Assignment) (before next : Progress) (r : Schedule)
    → looks_back (a ∷ rest) ≡ true
    → IsRound a before next
    → Done rest next r
    → Done (a ∷ rest) before r
unfolding looks_back
Done-cons a rest before next (Schedule.completed q) l round (e, rules) = (
  record {
    keeps = λ x m. e.keeps x (round.keeps x m);
    only = λ x n. ground (arith, n, split_cons a rest x, e.only x, round.only x);
    keeps_skipped = λ x m. e.keeps_skipped x (round.keeps_skipped x m);
    only_skipped =
        λ x n. ground (arith, n, split_cons a rest x, e.only_skipped x, round.only_skipped x);
    counts = ground (arith, e.counts, round.counts);
  },
  (
    ground (
      arith,
      l,
      e.only_skipped a.assignment_id,
      round.rule,
      any_agree (is_lost before) (is_lost q) a.depends_on (ids_of (a ∷ rest)) (ground (arith, l))
          (λ x n. ground (arith, n, split_cons a rest x, e.only x, round.only x)),
    ),
    rules,
  ),
)
Done-cons a rest before next (Schedule.stopped skipped_ids) l round h = tt
Done-cons a rest before next (Schedule.cycle_detected skipped_ids) l round h = h
Done-cons a rest before next Schedule.stuck l round h = h

-- None of the assignments was skipped yet.
abbrev pub AreFresh : List Assignment → Progress → Type 0
AreFresh assignments p =
    (x : String) → contains (ids_of assignments) x ≡ true → contains p.skipped_ids x ≡ false

pub AreFresh-next :
    (a : Assignment) (rest : List Assignment) (before next : Progress)
    → looks_back (a ∷ rest) ≡ true
    → IsRound a before next
    → AreFresh (a ∷ rest) before
    → AreFresh rest next
unfolding looks_back
AreFresh-next a rest before next l round f x m = ground (
  arith,
  m,
  l,
  f x (ground (arith, m, split_cons a rest x)),
  round.only_skipped x,
  eq_iff a.assignment_id x,
)
