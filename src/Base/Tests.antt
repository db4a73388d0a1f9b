-- ===== src/Base/Tests.antt =====
-- Boolean tests on numbers and keys, the conditional, and case splits that keep the equation.
use Prim.Native.Nat.{ℕ, ◌/◌, ◌*◌, compare, Ordering}
use Prim.Native.String.{String}
use mathlib.Core.Path.{◌≡◌, refl}
use mathlib.Core.Logic.{◌↔◌, ◌⊎◌, inl, inr}
use mathlib.Core.Bool.{Bool, true, false, ◌&&◌}
use mathlib.Core.Option.{Option, none, some}
use native.Mathlib.Omega.{arith}
use text.Mathlib.Text.{◌==◌ as str_eq}
use text.Mathlib.TextEquality.{eq_iff}

abbrev pub ltb : ℕ → ℕ → Bool
ltb a b = elim (compare a b) [ Ordering.lt ↦ true | _ ↦ false ]

abbrev pub leb : ℕ → ℕ → Bool
leb a b = elim (compare a b) [ Ordering.gt ↦ false | _ ↦ true ]

abbrev pub nat_eq : ℕ → ℕ → Bool
nat_eq a b = elim (compare a b) [ Ordering.eq ↦ true | _ ↦ false ]

pub nat_eq_iff : (a b : ℕ) → (nat_eq a b ≡ true) ↔ (a ≡ b)
nat_eq_iff a b = ground arith

infix 1 if◌then◌else◌
abbrev pub if◌then◌else◌ {ℓ} : {A : Type ℓ} → Bool → A → A → A
if true then x else y = x
if false then x else y = y

-- A type with an `==` of the program's, and what it decides.
pub record Eq {ℓ} (A : Type ℓ) : Type ℓ where
  pub equals : A → A → Bool
  pub equals_iff : (a b : A) → (equals a b ≡ true) ↔ (a ≡ b)

instance abbrev pub String_eq : Eq String
String_eq = record { equals = str_eq; equals_iff = eq_iff }

instance abbrev pub ℕ_eq : Eq ℕ
ℕ_eq = record { equals = nat_eq; equals_iff = nat_eq_iff }

-- Pairs are compared by their components.
abbrev pub both_equal {ℓ κ} : {A : Type ℓ} {B : Type κ} → Eq A → Eq B → A × B → A × B → Bool
both_equal x y (a, b) (c, d) = x.equals a c && y.equals b d

pub both_equal_iff {ℓ κ} :
    {A : Type ℓ} {B : Type κ} (x : Eq A) (y : Eq B) (p q : A × B)
    → (both_equal x y p q ≡ true) ↔ (p ≡ q)
both_equal_iff x y (a, b) (c, d) = ground (arith, x.equals_iff a c, y.equals_iff b d)

instance abbrev pub Key_eq : Eq (String × String)
Key_eq = record {
  equals = both_equal String_eq String_eq;
  equals_iff = both_equal_iff String_eq String_eq;
}

infix 50 ◌==◌
abbrev pub ◌==◌ {ℓ} : {A : Type ℓ} ⦃e : Eq A⦄ → A → A → Bool
◌==◌ ⦃e⦄ a b = e.equals a b

pub Bool-cases : (b : Bool) → (b ≡ true) ⊎ (b ≡ false)
Bool-cases true = inl refl
Bool-cases false = inr refl

pub Option-cases {ℓ} : {A : Type ℓ} (o : Option A) → (o ≡ none) ⊎ ((a : A) × (o ≡ some a))
Option-cases none = inl refl
Option-cases (some a) = inr (a, refl)

infixr 55 ◌>>=◌
abbrev pub ◌>>=◌ {ℓ κ} : {A : Type ℓ} {B : Type κ} → Option A → (A → Option B) → Option B
none >>= f = none
some a >>= f = f a

pub equals_refl {ℓ} : {A : Type ℓ} ⦃e : Eq A⦄ (a : A) → (a == a) ≡ true
equals_refl ⦃e⦄ a = (e.equals_iff a a).1 refl

-- Times are whole milliseconds; `int(t)` is the last full second.
abbrev pub second : ℕ
second = 1000

abbrev pub whole_seconds : ℕ → ℕ
whole_seconds t = t / second * second
