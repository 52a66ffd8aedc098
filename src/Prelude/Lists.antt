-- ===== src/Prelude/Lists.antt =====
-- Lists and sets as lists: a set is read through `contains`, and its laws are equations.
use Prim.Native.Nat.{ℕ, suc}
use mathlib.Core.Path.{◌≡◌, refl}
use mathlib.Core.Logic.{◌↔◌, inl, inr}
use mathlib.Core.Bool.{Bool, true, false, ◌&&◌, ◌||◌, not}
use mathlib.Core.List.{List, [], ◌∷◌, ◌++◌}
use native.Mathlib.Omega.{arith}
use hungerloop.Prelude.Tests.{Eq, ◌==◌, if◌then◌else◌, Bool-cases}

module _ {ℓ} {A : Type ℓ} where
  abbrev pub length : List A → ℕ
  length [] = 0
  length (x ∷ xs) = suc (length xs)

  -- `[x for x in xs if p(x)]`
  unfoldable pub filter : (A → Bool) → List A → List A
  filter p [] = []
  filter p (x ∷ xs) = if p x then x ∷ filter p xs else filter p xs

  unfoldable pub any : (A → Bool) → List A → Bool
  any p [] = false
  any p (x ∷ xs) = p x || any p xs

  unfoldable pub all : (A → Bool) → List A → Bool
  all p [] = true
  all p (x ∷ xs) = p x && all p xs

  -- `not xs`
  abbrev pub is_empty : List A → Bool
  is_empty [] = true
  is_empty (x ∷ xs) = false

  pub any-filter : (p q : A → Bool) (xs : List A) → any p (filter q xs) ≡ any (λ x. q x && p x) xs
  unfolding any filter
  any-filter p q [] = refl
  any-filter p q (x ∷ xs) = ground (arith, any-filter p q xs)

  pub all-filter :
      (p q : A → Bool) (xs : List A) → all p (filter q xs) ≡ all (λ x. not (q x) || p x) xs
  unfolding all filter
  all-filter p q [] = refl
  all-filter p q (x ∷ xs) = ground (arith, all-filter p q xs)

  pub is_empty-filter : (p : A → Bool) (xs : List A) → is_empty (filter p xs) ≡ not (any p xs)
  unfolding any filter
  is_empty-filter p [] = refl
  is_empty-filter p (x ∷ xs) = ground (arith, is_empty-filter p xs)

  pub not-any : (p : A → Bool) (xs : List A) → not (any p xs) ≡ all (λ x. not (p x)) xs
  unfolding any all
  not-any p [] = refl
  not-any p (x ∷ xs) = ground (arith, not-any p xs)

  pub any-not : (p : A → Bool) (xs : List A) → any (λ x. not (p x)) xs ≡ not (all p xs)
  unfolding any all
  any-not p [] = refl
  any-not p (x ∷ xs) = ground (arith, any-not p xs)

  -- Every element satisfies the predicate.
  abbrev pub AllOf {κ} : (A → Type κ) → List A → Type κ
  AllOf P [] = Unit
  AllOf P (x ∷ xs) = P x × AllOf P xs

  pub AllOf-append {κ} :
      (P : A → Type κ) (xs ys : List A) → AllOf P xs → AllOf P ys → AllOf P (xs ++ ys)
  AllOf-append P [] ys h k = k
  AllOf-append P (x ∷ xs) ys h k = (h.0, AllOf-append P xs ys h.1 k)

module _ {ℓ} {A : Type ℓ} ⦃e : Eq A⦄ where
  -- `a in xs`
  unfoldable pub contains : List A → A → Bool
  contains [] a = false
  contains (x ∷ xs) a = x == a || contains xs a

  pub contains-append :
      (xs ys : List A) (a : A) → contains (xs ++ ys) a ≡ (contains xs a || contains ys a)
  unfolding contains
  contains-append [] ys a = refl
  contains-append (x ∷ xs) ys a = ground (arith, contains-append xs ys a)

  pub contains-filter :
      (p : A → Bool) (xs : List A) (a : A) → contains (filter p xs) a ≡ (contains xs a && p a)
  unfolding contains filter
  contains-filter p [] a = refl
  contains-filter p (x ∷ xs) a = ground (arith, contains-filter p xs a, e.eqb_iff x a)

  -- The keys of `xs` that `seen` does not hold, each once, in the order of first occurrence.
  unfoldable pub dedupe_from : List A → List A → List A
  unfolding contains
  dedupe_from seen [] = []
  dedupe_from seen (x ∷ xs) =
      let rest = dedupe_from (x ∷ seen) xs in
      let same = dedupe_from seen xs in if contains seen x then same else x ∷ rest

  -- `list(dict.fromkeys(xs))`, and `set(xs)` in the order of first occurrence.
  unfoldable pub dedupe : List A → List A
  unfolding dedupe_from
  dedupe xs = dedupe_from [] xs

  -- `set(xs).issubset(ys)`
  unfoldable pub subset : List A → List A → Bool
  unfolding contains all
  subset xs ys = all (contains ys) xs

  unfoldable pub nodup : List A → Bool
  unfolding contains
  nodup [] = true
  nodup (x ∷ xs) = not (contains xs x) && nodup xs

  pub contains-dedupe_from :
      (seen xs : List A) (a : A)
      → contains (dedupe_from seen xs) a ≡ (contains xs a && not (contains seen a))
  unfolding contains dedupe_from
  contains-dedupe_from seen [] a = refl
  contains-dedupe_from seen (x ∷ xs) a =
      ground
        (arith, contains-dedupe_from seen xs a, contains-dedupe_from (x ∷ seen) xs a, e.eqb_iff x a)

  pub contains-dedupe : (xs : List A) (a : A) → contains (dedupe xs) a ≡ contains xs a
  unfolding dedupe contains
  contains-dedupe xs a = ground (arith, contains-dedupe_from [] xs a)

  pub nodup-dedupe_from : (seen xs : List A) → nodup (dedupe_from seen xs) ≡ true
  unfolding nodup dedupe_from contains
  nodup-dedupe_from seen [] = refl
  nodup-dedupe_from seen (x ∷ xs) = ground (
    arith,
    nodup-dedupe_from seen xs,
    nodup-dedupe_from (x ∷ seen) xs,
    contains-dedupe_from (x ∷ seen) xs x,
    e.eqb_iff x x,
  )

  pub all-contains :
      (p : A → Bool) (xs : List A) (a : A) → all p xs ≡ true → contains xs a ≡ true → p a ≡ true
  unfolding all contains
  all-contains p [] a h m = absurd (cc)
  all-contains p (x ∷ xs) a h m = ground (arith, all-contains p xs a, e.eqb_iff x a)

  pub subset-contains :
      (xs ys : List A) (a : A) → subset xs ys ≡ true → contains xs a ≡ true → contains ys a ≡ true
  unfolding subset
  subset-contains xs ys a h m = all-contains (contains ys) xs a h m

  pub all_of_contains :
      (p : A → Bool) (xs : List A) → ((a : A) → contains xs a ≡ true → p a ≡ true) → all p xs ≡ true
  unfolding all contains
  all_of_contains p [] h = refl
  all_of_contains p (x ∷ xs) h =
      ground (arith, h x, e.eqb_iff x x, all_of_contains p xs (λ a m. h a (ground arith)))

  pub subset_iff :
      (xs ys : List A)
      → (subset xs ys ≡ true) ↔ ((a : A) → contains xs a ≡ true → contains ys a ≡ true)
  unfolding subset
  subset_iff xs ys =
      (λ h a m. all-contains (contains ys) xs a h m, all_of_contains (contains ys) xs)

  pub contains-is_empty : (xs : List A) (a : A) → contains xs a ≡ true → is_empty xs ≡ false
  unfolding contains
  contains-is_empty [] a h = absurd (cc)
  contains-is_empty (x ∷ xs) a h = refl

  -- A list that is not empty contains its head.
  pub is_empty-contains : (xs : List A) → is_empty xs ≡ false → (a : A) × (contains xs a ≡ true)
  unfolding contains
  is_empty-contains [] h = absurd (cc)
  is_empty-contains (x ∷ xs) h = (x, ground (arith, e.eqb_iff x x))

  pub is_empty_of_contains :
      (xs : List A) → ((a : A) → contains xs a ≡ true → ⊥) → is_empty xs ≡ true
  unfolding contains
  is_empty_of_contains [] h = refl
  is_empty_of_contains (x ∷ xs) h = absurd (h x (ground (arith, e.eqb_iff x x)))

  -- What is no subset has an element that is missing.
  pub subset-missing :
      (xs ys : List A)
      → subset xs ys ≡ false
      → (a : A) × (contains xs a ≡ true) × (contains ys a ≡ false)
  unfolding subset contains all
  subset-missing [] ys h = absurd (cc)
  subset-missing (x ∷ xs) ys h = elim (Bool-cases (contains ys x)) [
    | inr f ↦ (x, ground (arith, e.eqb_iff x x), f)
    | inl t ↦ let (a, m, n) = subset-missing xs ys (ground arith) in (a, ground (arith, m), n)
  ]
