-- ===== src/Common/Tests.antt =====
-- Boolean tests on native numbers and on optional values, and the conditional.
use Prim.Native.Nat.{ℕ, compare, Ordering}
use Prim.Native.String.{String}
use mathlib.Core.Path.{◌≡◌, refl}
use mathlib.Core.Logic.{◌↔◌, ◌⊎◌, inl, inr}
use mathlib.Core.Bool.{Bool, true, false, not, ◌&&◌}
use mathlib.Core.Option.{Option, none, some}
use native.Mathlib.Omega.{arith}
use text.Mathlib.Text.{◌==◌ as str_eq}
use text.Mathlib.TextEquality.{eq_iff}

abbrev pub ltb : ℕ → ℕ → Bool
ltb a b = elim (compare a b) [ Ordering.lt ↦ true | _ ↦ false ]

abbrev pub leb : ℕ → ℕ → Bool
leb a b = elim (compare a b) [ Ordering.gt ↦ false | _ ↦ true ]

infix 50 ◌==◌
abbrev pub ◌==◌ : ℕ → ℕ → Bool
a == b = elim (compare a b) [ Ordering.eq ↦ true | _ ↦ false ]

infix 1 if◌then◌else◌
abbrev pub if◌then◌else◌ {ℓ} : {A : Type ℓ} → Bool → A → A → A
if true then x else y = x
if false then x else y = y

pub ==_iff : (a b : ℕ) → ((a == b) ≡ true) ↔ (a ≡ b)
==_iff a b = ground arith

pub Bool-cases : (b : Bool) → (b ≡ true) ⊎ (b ≡ false)
Bool-cases true = inl refl
Bool-cases false = inr refl

pub Option-cases {ℓ} : {A : Type ℓ} (o : Option A) → (o ≡ none) ⊎ ((a : A) × (o ≡ some a))
Option-cases none = inl refl
Option-cases (some a) = inr (a, refl)

pub and-left : (a b : Bool) → (a && b) ≡ true → a ≡ true
and-left true b h = refl
and-left false b h = h

pub and-right : (a b : Bool) → (a && b) ≡ true → b ≡ true
and-right true b h = h
and-right false b h = ground arith

-- `===` between two texts that may be `null`.
abbrev pub opt_eq : Option String → Option String → Bool
opt_eq none none = true
opt_eq (some a) (some b) = str_eq a b
opt_eq _ _ = false

pub opt_eq_iff : (a b : Option String) → (opt_eq a b ≡ true) ↔ (a ≡ b)
opt_eq_iff none none = ground arith
opt_eq_iff (some a) (some b) = ground (arith, eq_iff a b)
opt_eq_iff none (some b) = ground arith
opt_eq_iff (some a) none = ground arith

pub opt_eq_refl : (a : Option String) → opt_eq a a ≡ true
opt_eq_refl a = (opt_eq_iff a a).1 refl

pub string_discrete : Discrete String
string_discrete a b = elim (Bool-cases (str_eq a b)) [
  | inl t ↦ yes ((eq_iff a b).0 t)
  | inr f ↦ no (λ e. cc ((eq_iff a b).1 e))
]

pub not-eq-true : (b : Bool) → not b ≡ true → b ≡ false
not-eq-true true h = ground arith
not-eq-true false h = refl
