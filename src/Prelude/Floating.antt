-- ===== src/Prelude/Floating.antt =====
-- Python's floats, which the program uses for scores, budgets and costs: a type with the
-- operations and comparisons that the source applies to it. NaN is left out: `a < b` is
-- `not (b <= a)`. `literal n d` is the float literal n/d.
use Prim.Native.Nat.{ℕ, ◌+◌, ◌-◌, ◌*◌, ◌/◌}
use mathlib.Core.Path.{◌≡◌}
use mathlib.Core.Bool.{Bool, true, false, not, ◌&&◌}
use mathlib.Core.List.{List, [], ◌∷◌}
use native.Mathlib.Omega.{arith}
use hungerloop.Prelude.Tests.{leb, if◌then◌else◌}

pub record Floats (R : Type 0) : Type 0 where
  pub literal : ℕ → ℕ → R
  pub add : R → R → R
  pub sub : R → R → R
  pub mul : R → R → R
  pub div : R → R → R
  pub le : R → R → Bool
  -- `int(x)` of an x that is not negative
  pub floor : R → ℕ

-- The order laws that hold of floats other than NaN.
pub record IsOrdered {R : Type 0} (fl : Floats R) : Type 0 where
  pub le_trans : (a b c : R) → fl.le a b ≡ true → fl.le b c ≡ true → fl.le a c ≡ true
  pub le_total : (a b : R) → fl.le a b ≡ false → fl.le b a ≡ true

module _ {R : Type 0} ⦃fl : Floats R⦄ where
  abbrev pub float_lt : R → R → Bool
  float_lt a b = not (fl.le b a)

  abbrev pub float_eq : R → R → Bool
  float_eq a b = fl.le a b && fl.le b a

  -- `max(a, b)` and `min(a, b)`: the first argument on a tie.
  abbrev pub float_max : R → R → R
  float_max a b = if fl.le b a then a else b

  abbrev pub float_min : R → R → R
  float_min a b = if fl.le a b then a else b

  abbrev pub float_zero : R
  float_zero = fl.literal 0 1

  sum_from : R → List R → R
  sum_from total [] = total
  sum_from total (x ∷ xs) = sum_from (fl.add total x) xs

  unfoldable pub float_sum : List R → R
  unfolding sum_from
  float_sum xs = sum_from float_zero xs

-- Numbers in thousandths, with rounding down: an instance that runs.
instance abbrev pub milli : Floats ℕ
milli = record {
  literal = λ n d. n * 1000 / d;
  add = λ a b. a + b;
  sub = λ a b. a - b;
  mul = λ a b. a * b / 1000;
  div = λ a b. a * 1000 / b;
  le = leb;
  floor = λ a. a / 1000;
}

pub milli-IsOrdered : IsOrdered milli
milli-IsOrdered = record { le_trans = λ a b c h k. ground arith; le_total = λ a b h. ground arith }
