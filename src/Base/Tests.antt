-- ===== src/Base/Tests.antt =====
-- Boolean tests, and the conditional expression of Python.
use Prim.Native.Nat.{ℕ, compare, Ordering}
use Prim.Native.String.{String}
use mathlib.Core.Path.{◌≡◌, refl}
use mathlib.Core.Logic.{◌↔◌, ◌⊎◌, inl, inr}
use mathlib.Core.Bool.{Bool, true, false, ◌&&◌}
use mathlib.Core.Option.{Option, none, some}
use native.Mathlib.Omega.{arith}
use text.Mathlib.Text.{◌==◌ as string_beq}
use text.Mathlib.TextEquality.{eq_iff}

abbrev pub ltb : ℕ → ℕ → Bool
ltb a b = elim (compare a b) [ Ordering.lt ↦ true | _ ↦ false ]

abbrev pub leb : ℕ → ℕ → Bool
leb a b = elim (compare a b) [ Ordering.gt ↦ false | _ ↦ true ]

abbrev pub eqb : ℕ → ℕ → Bool
eqb a b = elim (compare a b) [ Ordering.eq ↦ true | _ ↦ false ]

pub eqb_iff : (a b : ℕ) → (eqb a b ≡ true) ↔ (a ≡ b)
eqb_iff a b = ground arith

infix 1 if◌then◌else◌
abbrev pub if◌then◌else◌ {ℓ} : {A : Type ℓ} → Bool → A → A → A
if true then x else y = x
if false then x else y = y

-- Keys and texts that the code compares by `==`.
pub record Key {ℓ} (A : Type ℓ) : Type ℓ where
  pub same : A → A → Bool
  pub same_iff : (x y : A) → (same x y ≡ true) ↔ (x ≡ y)

instance abbrev pub string_key : Key String
string_key = record { same = string_beq; same_iff = eq_iff }

instance abbrev pub nat_key : Key ℕ
nat_key = record { same = eqb; same_iff = eqb_iff }

module _ {ℓ} {A : Type ℓ} ⦃e : Key A⦄ where
  infix 50 ◌==◌
  abbrev pub ◌==◌ : A → A → Bool
  x == y = e.same x y

pub Bool-cases : (b : Bool) → (b ≡ true) ⊎ (b ≡ false)
Bool-cases true = inl refl
Bool-cases false = inr refl

pub Option-cases {ℓ} : {A : Type ℓ} (o : Option A) → (o ≡ none) ⊎ ((a : A) × (o ≡ some a))
Option-cases none = inl refl
Option-cases (some a) = inr (a, refl)

-- Pairs are compared part by part.
pub pair_iff {ℓ κ} :
    {A : Type ℓ} {B : Type κ} ⦃d : Key A⦄ ⦃e : Key B⦄ (x y : A × B)
    → (d.same x.0 y.0 && e.same x.1 y.1 ≡ true) ↔ (x ≡ y)
pair_iff ⦃d⦄ ⦃e⦄ (a, b) (a', b') = ground (arith, d.same_iff a a', e.same_iff b b')

instance abbrev pub pair_key {ℓ κ} : {A : Type ℓ} {B : Type κ} ⦃d : Key A⦄ ⦃e : Key B⦄ → Key (A × B)
pair_key ⦃d⦄ ⦃e⦄ = record { same = λ x y. d.same x.0 y.0 && e.same x.1 y.1; same_iff = pair_iff }
