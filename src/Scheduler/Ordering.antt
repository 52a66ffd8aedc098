-- ===== src/Scheduler/Ordering.antt =====
-- services/worker_scheduler.py: the order of the assignments holds each of them once, and puts every
-- dependency first when there is no cycle.
use mathlib.Core.List.Permᴰ as Perm
use mathlib.Core.List.{Permᴰ, append_assoc, append-nil}
use hungerloop.Prelude.{
  ◌≤◌, ◌<◌, String, Bool, true, false, List, [], ◌∷◌, ◌++◌, string_eq, nat_eq, not, ◌&&◌, all,
  contains, length, ◌≡◌, refl, sym, ap, arith, if_intro,
}
use hungerloop.Models.Planning.{Assignment}
use hungerloop.Scheduler.{ids_of, local_dependencies, order_pass, is_ready}

-- Every dependency of an assignment that is one of the ids stands before it.
unfoldable pub is_in_order : List String → List String → List Assignment → Bool
is_in_order ids before [] = true
is_in_order ids before (a ∷ assignments) =
    all (contains before) (local_dependencies ids a)
    && is_in_order ids (before ++ a.assignment_id ∷ []) assignments

ids_of-append :
    (xs : List Assignment) (a : Assignment)
    → ids_of (xs ++ a ∷ []) ≡ ids_of xs ++ a.assignment_id ∷ []
ids_of-append [] a = refl
ids_of-append (x ∷ xs) a = ap (λ ids. x.assignment_id ∷ ids) (ids_of-append xs a)

module _ (ids : List String) where
  in_order-append :
      (xs : List Assignment) (before : List String) (a : Assignment)
      → is_in_order ids before (xs ++ a ∷ []) ≡ (
          is_in_order ids before xs
          && all (contains (before ++ ids_of xs)) (local_dependencies ids a))
  unfolding is_in_order
  in_order-append [] before a = ground (arith, append-nil before)
  in_order-append (x ∷ xs) before a = ground (
    arith,
    in_order-append xs (before ++ x.assignment_id ∷ []) a,
    append_assoc before (x.assignment_id ∷ []) (ids_of xs),
  )

  ready-in_order :
      (ordered : List Assignment) (a : Assignment)
      → is_in_order ids [] ordered ≡ true
      → is_ready ids ordered a ≡ true
      → is_in_order ids [] (ordered ++ a ∷ []) ≡ true
  unfolding is_ready
  ready-in_order ordered a h r = ground (arith, h, r, in_order-append ordered [] a)

  -- What a pass makes of the ordered and the remaining assignments.
  pub record IsPass (ordered remaining : List Assignment)
      (passed : List Assignment × List Assignment × Bool) : Type 0 where
    pub same : Permᴰ (ordered ++ remaining) (passed.0 ++ passed.1)
    pub in_order : is_in_order ids [] ordered ≡ true → is_in_order ids [] passed.0 ≡ true
    pub shrinks : length passed.1 ≤ length remaining
    pub progress : passed.2 ≡ true → length passed.1 < length remaining
    pub stuck :
        passed.2 ≡ false
        → (passed.0 ≡ ordered)
          × (passed.1 ≡ remaining)
          × (all (λ a. not (is_ready ids ordered a)) remaining ≡ true)

  pub order_pass-IsPass :
      (remaining ordered : List Assignment)
      → IsPass ordered remaining (order_pass ids ordered remaining)
  unfolding order_pass all
  order_pass-IsPass [] ordered = record {
    same = Perm.refl (ordered ++ []);
    in_order = λ h. h;
    shrinks = ground arith;
    progress = λ h. absurd (ground arith);
    stuck = λ h. (refl, refl, refl);
  }
  order_pass-IsPass (a ∷ remaining) ordered =
      let rec = order_pass-IsPass remaining (ordered ++ a ∷ []) in
      let skip = order_pass-IsPass remaining ordered in
      let left = order_pass ids ordered remaining in
      if_intro (IsPass ordered (a ∷ remaining)) (is_ready ids ordered a)
        (λ r. record {
          same = rw (sym (append_assoc ordered (a ∷ []) remaining)) rec.same;
          in_order = λ h. rec.in_order (ready-in_order ordered a h r);
          shrinks = ground (arith, rec.shrinks);
          progress = λ h. ground (arith, rec.shrinks);
          stuck = λ h. absurd (ground arith);
        })
        (λ n. record {
          same =
              Permᴰ.trans (Perm.middle a ordered remaining)
                (Permᴰ.trans (Permᴰ.cons refl skip.same) (Perm.symm (Perm.middle a left.0 left.1)));
          in_order = skip.in_order;
          shrinks = ground (arith, skip.shrinks);
          progress = λ h. ground (arith, skip.progress h);
          stuck = λ h.
              let (o, m, rest) = skip.stuck h in (o, ap (λ l. a ∷ l) m, ground (arith, n, rest));
        })
