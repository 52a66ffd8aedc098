-- ===== src/Prelude/Membership.antt =====
-- Membership of elements without a test of equality, along `filter`, and under the sort.
use mathlib.Core.Path.{◌≡◌, refl, sym, ap, ◌∙◌}
use mathlib.Core.Bool.{Bool, true, false}
use mathlib.Core.Logic.{inl, inr}
use mathlib.Core.List.{List, [], ◌∷◌, Memᴰ}
use native.Mathlib.Omega.{arith}
use hungerloop.Prelude.Tests.{if◌then◌else◌, Bool-cases}
use hungerloop.Prelude.Lists.{filter, all}

module _ {ℓ} {A : Type ℓ} (p : A → Bool) where
  pub all-Memᴰ : (xs : List A) (x : A) → all p xs ≡ true → Memᴰ x xs → p x ≡ true
  unfolding all
  all-Memᴰ [] x h m = elim m [ ]
  all-Memᴰ (y ∷ ys) x h (Memᴰ.head e) = ap p e ∙ ground arith
  all-Memᴰ (y ∷ ys) x h (Memᴰ.tail m) = all-Memᴰ ys x (ground arith) m

  Memᴰ-if :
      (b : Bool) (y x : A) (ys : List A)
      → p y ≡ b
      → (Memᴰ x (filter p ys) → Memᴰ x ys × (p x ≡ true))
      → Memᴰ x (if b then y ∷ filter p ys else filter p ys)
      → Memᴰ x (y ∷ ys) × (p x ≡ true)
  Memᴰ-if true y x ys e rec (Memᴰ.head h) = (Memᴰ.head h, ap p h ∙ e)
  Memᴰ-if true y x ys e rec (Memᴰ.tail m) = let (n, t) = rec m in (Memᴰ.tail n, t)
  Memᴰ-if false y x ys e rec m = let (n, t) = rec m in (Memᴰ.tail n, t)

  pub Memᴰ-filter : (xs : List A) (x : A) → Memᴰ x (filter p xs) → Memᴰ x xs × (p x ≡ true)
  unfolding filter
  Memᴰ-filter [] x m = elim m [ ]
  Memᴰ-filter (y ∷ ys) x m = Memᴰ-if (p y) y x ys refl (Memᴰ-filter ys x) m

  pub filter-Memᴰ : (xs : List A) (x : A) → Memᴰ x xs → p x ≡ true → Memᴰ x (filter p xs)
  unfolding filter
  filter-Memᴰ [] x m h = elim m [ ]
  filter-Memᴰ (y ∷ ys) x (Memᴰ.head e) h = rw (sym (ap p e) ∙ h) (Memᴰ.head e)
  filter-Memᴰ (y ∷ ys) x (Memᴰ.tail m) h = elim (Bool-cases (p y)) [
    | inl t ↦ rw (t) (Memᴰ.tail (filter-Memᴰ ys x m h))
    | inr f ↦ rw (f) (filter-Memᴰ ys x m h)
  ]
