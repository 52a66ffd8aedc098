-- ===== src/Prelude/Tests.antt =====
-- Boolean tests: on numbers, on texts and by the interface of equality.
use Prim.Native.Nat.{ℕ, compare, Ordering}
use Prim.Native.String.{String}
use mathlib.Core.Path.{◌≡◌, refl}
use mathlib.Core.Logic.{◌↔◌, ◌⊎◌, inl, inr}
use mathlib.Core.Bool.{Bool, true, false, ◌&&◌}
use mathlib.Core.Option.{Option, none, some}
use native.Mathlib.Omega.{arith}
use text.Mathlib.Text.{◌==◌ as text_beq}
use text.Mathlib.TextEquality.{eq_iff}

abbrev pub ltb : ℕ → ℕ → Bool
ltb a b = elim (compare a b) [ Ordering.lt ↦ true | _ ↦ false ]

abbrev pub leb : ℕ → ℕ → Bool
leb a b = elim (compare a b) [ Ordering.gt ↦ false | _ ↦ true ]

abbrev pub nat_beq : ℕ → ℕ → Bool
nat_beq a b = elim (compare a b) [ Ordering.eq ↦ true | _ ↦ false ]

infix 1 if◌then◌else◌
abbrev pub if◌then◌else◌ {ℓ} : {A : Type ℓ} → Bool → A → A → A
if true then x else y = x
if false then x else y = y

-- A type with a decidable equality, as Python's `==` on it.
pub record Eq {ℓ} (A : Type ℓ) : Type ℓ where
  pub eqb : A → A → Bool
  pub eqb_iff : (a b : A) → (eqb a b ≡ true) ↔ (a ≡ b)

infix 50 ◌==◌
abbrev pub ◌==◌ {ℓ} : {A : Type ℓ} ⦃test : Eq A⦄ → A → A → Bool
◌==◌ ⦃test⦄ = test.eqb

instance abbrev pub string_eq : Eq String
string_eq = record { eqb = text_beq; eqb_iff = eq_iff }

pub nat_beq_iff : (a b : ℕ) → (nat_beq a b ≡ true) ↔ (a ≡ b)
nat_beq_iff a b = (λ h. ground arith, λ h. ground arith)

instance abbrev pub nat_eq : Eq ℕ
nat_eq = record { eqb = nat_beq; eqb_iff = nat_beq_iff }

module _ {ℓ} {A B : Type ℓ} ⦃ea : Eq A⦄ ⦃eb : Eq B⦄ where
  abbrev pub pair_eqb : A × B → A × B → Bool
  pair_eqb (a, b) (c, d) = ea.eqb a c && eb.eqb b d

  pub pair_eqb_iff : (x y : A × B) → (pair_eqb x y ≡ true) ↔ (x ≡ y)
  pair_eqb_iff (a, b) (c, d) = (
    λ h. ground (arith, ea.eqb_iff a c, eb.eqb_iff b d),
    λ h. ground (arith, ea.eqb_iff a c, eb.eqb_iff b d),
  )

  instance abbrev pub pair_eq : Eq (A × B)
  pair_eq = record { eqb = pair_eqb; eqb_iff = pair_eqb_iff }

-- To split on a computed value and keep the equation.
pub Bool-cases : (b : Bool) → (b ≡ true) ⊎ (b ≡ false)
Bool-cases true = inl refl
Bool-cases false = inr refl

pub Option-cases {ℓ} : {A : Type ℓ} (o : Option A) → (o ≡ none) ⊎ ((a : A) × (o ≡ some a))
Option-cases none = inl refl
Option-cases (some a) = inr (a, refl)

-- To prove a property of both branches of a test.
pub if_intro {ℓ κ} :
    {A : Type ℓ} (P : A → Type κ) (b : Bool) {x y : A}
    → (b ≡ true → P x)
    → (b ≡ false → P y)
    → P (if b then x else y)
if_intro P true px py = px refl
if_intro P false px py = py refl

-- The option holds a value with the property.
abbrev pub Returns {ℓ} : {A : Type ℓ} → (A → Type 0) → Option A → Type 0
Returns P none = ⊥
Returns P (some a) = P a

pub Returns-some {ℓ} :
    {A : Type ℓ} (P : A → Type 0) (o : Option A) → Returns P o → (a : A) × (o ≡ some a) × P a
Returns-some P none h = absurd h
Returns-some P (some a) h = (a, refl, h)

-- The option holds a value with the property, or is empty for a reason.
abbrev pub Answers {ℓ} : {A : Type ℓ} → Type 0 → (A → Type 0) → Option A → Type 0
Answers E P none = E
Answers E P (some a) = P a

-- `m >>= f` of an optional value
abbrev pub and_then {ℓ κ} : {A : Type ℓ} {B : Type κ} → Option A → (A → Option B) → Option B
and_then none f = none
and_then (some a) f = f a

pub Returns-and_then {ℓ κ} :
    {A : Type ℓ} {B : Type κ} (P : A → Type 0) (Q : B → Type 0) (o : Option A) (f : A → Option B)
    → Returns P o
    → ((a : A) → P a → Returns Q (f a))
    → Returns Q (and_then o f)
Returns-and_then P Q none f h k = absurd h
Returns-and_then P Q (some a) f h k = k a h

pub Returns-ne-none {ℓ} : {A : Type ℓ} (o : Option A) → (o ≡ none → ⊥) → Returns (λ _. Unit) o
Returns-ne-none none h = h refl
Returns-ne-none (some a) h = tt

pub Answers-and_then {ℓ κ} :
    {A : Type ℓ} {B : Type κ} (E : Type 0) (P : A → Type 0) (Q : B → Type 0) (o : Option A)
    (f : A → Option B)
    → Answers E P o
    → ((a : A) → P a → Answers E Q (f a))
    → Answers E Q (and_then o f)
Answers-and_then E P Q none f h k = h
Answers-and_then E P Q (some a) f h k = k a h

pub Returns-Answers {ℓ} :
    {A : Type ℓ} (E : Type 0) (P : A → Type 0) (o : Option A) → Returns P o → Answers E P o
Returns-Answers E P none h = absurd h
Returns-Answers E P (some a) h = h
