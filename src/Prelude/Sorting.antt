-- ===== src/Prelude/Sorting.antt =====
-- `sorted(xs, key=…)`: the stable sort, with the comparison of the keys as an argument.
use mathlib.Core.Path.{◌≡◌, refl, sym}
use mathlib.Core.Bool.{Bool, true, false, ◌||◌}
use mathlib.Core.Option.{Option, none, some}
use mathlib.Core.Logic.{◌⊎◌, inl, inr}
use mathlib.Core.List.{List, [], ◌∷◌, Memᴰ}
use native.Mathlib.Omega.{arith}
use hungerloop.Prelude.Tests.{Eq, ◌==◌, if◌then◌else◌, Bool-cases, Option-cases}
use hungerloop.Prelude.Lists.{contains, all, is_empty}

module _ {ℓ} {A : Type ℓ} where
  abbrev pub head? : List A → Option A
  head? [] = none
  head? (x ∷ xs) = some x

  pub head?-is_empty :
      (xs : List A) → is_empty xs ≡ (elim (head? xs) [ none ↦ true | some _ ↦ false ])
  head?-is_empty [] = refl
  head?-is_empty (x ∷ xs) = refl

module _ {ℓ} {A : Type ℓ} (le : A → A → Bool) where
  insert_by : A → List A → List A
  insert_by x [] = x ∷ []
  insert_by x (y ∷ ys) = if le x y then x ∷ y ∷ ys else y ∷ insert_by x ys

  unfoldable pub sort_by : List A → List A
  unfolding insert_by
  sort_by [] = []
  sort_by (x ∷ xs) = insert_by x (sort_by xs)

  is_empty-insert_by : (x : A) (xs : List A) → is_empty (insert_by x xs) ≡ false
  unfolding insert_by
  is_empty-insert_by x [] = refl
  is_empty-insert_by x (y ∷ ys) = ground arith

  pub is_empty-sort_by : (xs : List A) → is_empty (sort_by xs) ≡ is_empty xs
  unfolding sort_by
  is_empty-sort_by [] = refl
  is_empty-sort_by (x ∷ xs) = is_empty-insert_by x (sort_by xs)

  -- The first of the least elements.
  unfoldable pub least : List A → Option A
  least [] = none
  least (x ∷ xs) = elim (least xs) [ none ↦ some x | some m ↦ if le x m then some x else some m ]

  head-insert_by :
      (x : A) (xs : List A)
      → head? (insert_by x xs)
        ≡ elim (head? xs) [ none ↦ some x | some m ↦ if le x m then some x else some m ]
  unfolding insert_by
  head-insert_by x [] = refl
  head-insert_by x (y ∷ ys) = ground arith

  pub head-sort_by : (xs : List A) → head? (sort_by xs) ≡ least xs
  unfolding sort_by least
  head-sort_by [] = refl
  head-sort_by (x ∷ xs) = ground (arith, head-insert_by x (sort_by xs), head-sort_by xs)

  -- The head stays, beside nothing or a least element of the tail, or gives way to that one.
  least-cons :
      (x : A) (xs : List A) (m : A)
      → least (x ∷ xs) ≡ some m
      → ((x ≡ m) × (least xs ≡ none))
        ⊎ ((x ≡ m) × (m' : A) × (least xs ≡ some m') × (le x m' ≡ true))
        ⊎ ((least xs ≡ some m) × (le x m ≡ false))
  unfolding least
  least-cons x xs m h = elim (Option-cases (least xs)) [
    | inl e ↦ inl (ground arith, e)
    | inr (m', e) ↦ elim (Bool-cases (le x m')) [
      | inl t ↦ inr (inl (ground arith, m', e, t))
      | inr f ↦ inr (inr (ground arith, ground arith))
    ]
  ]

  pub least-none : (xs : List A) → least xs ≡ none → xs ≡ []
  unfolding least
  least-none [] h = refl
  least-none (x ∷ xs) h = ground arith

  pub least-mem : (xs : List A) (m : A) → least xs ≡ some m → Memᴰ m xs
  least-mem [] m h = absurd (unfold least in cc)
  least-mem (x ∷ xs) m h = elim (least-cons x xs m h) [
    | inl (e, _) ↦ Memᴰ.head (sym e)
    | inr (inl (e, _, _, _)) ↦ Memᴰ.head (sym e)
    | inr (inr (e, _)) ↦ Memᴰ.tail (least-mem xs m e)
  ]

  module _ (trans : (a b c : A) → le a b ≡ true → le b c ≡ true → le a c ≡ true)
      (total : (a b : A) → le a b ≡ false → le b a ≡ true) where
    all-le_trans :
        (a b : A) → le a b ≡ true → (xs : List A) → all (le b) xs ≡ true → all (le a) xs ≡ true
    unfolding all
    all-le_trans a b h [] k = refl
    all-le_trans a b h (x ∷ xs) k = ground (arith, all-le_trans a b h xs, trans a b x)

    pub least-le : (xs : List A) (m : A) → least xs ≡ some m → all (le m) xs ≡ true
    unfolding all
    least-le [] m h = refl
    least-le (x ∷ xs) m h = elim (least-cons x xs m h) [
      | inl (e, n) ↦ rw (least-none xs n) (ground (arith, total x m))
      | inr (inl (e, m', n, t)) ↦
          ground (arith, total x m, least-le xs m' n, all-le_trans x m' t xs)
      | inr (inr (n, f)) ↦ ground (arith, total x m, least-le xs m n)
    ]

module _ {ℓ} {A : Type ℓ} ⦃e : Eq A⦄ (le : A → A → Bool) where
  contains-insert_by :
      (x : A) (xs : List A) (a : A) → contains (insert_by le x xs) a ≡ (x == a || contains xs a)
  unfolding contains insert_by
  contains-insert_by x [] a = refl
  contains-insert_by x (y ∷ ys) a = ground (arith, contains-insert_by x ys a)

  pub contains-sort_by : (xs : List A) (a : A) → contains (sort_by le xs) a ≡ contains xs a
  unfolding contains sort_by
  contains-sort_by [] a = refl
  contains-sort_by (x ∷ xs) a =
      ground (arith, contains-insert_by x (sort_by le xs) a, contains-sort_by xs a)
