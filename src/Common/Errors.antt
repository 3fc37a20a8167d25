-- ===== src/Common/Errors.antt =====
-- A value or the error that was thrown, with `do` blocks.
use mathlib.Core.Path.{◌≡◌, refl, sym, ap}
use mathlib.Core.Logic.{◌⊎◌, inl, inr}
use mathlib.Core.Bool.{Bool, true, false}

pub data Result (E : Type 0) (A : Type 0) : Type 0 where
  ok : A → Result E A
  err : E → Result E A

-- if (!test) throw thrown
abbrev pub guard : {E : Type 0} → Bool → E → Result E (Unit {0})
guard false thrown = err thrown
guard true thrown = ok tt

-- The rest of the block runs on what the first part returned, unless that threw.
abbrev pub ◌>>=◌ : {E A B : Type 0} → Result E A → (A → Result E B) → Result E B
err thrown >>= rest = err thrown
ok value >>= rest = rest value

abbrev pub ◌>>◌ : {E B : Type 0} → Result E (Unit {0}) → Result E B → Result E B
first >> rest = first >>= λ _. rest

infixl 5 ◌>>=◌ ◌>>◌
pub guard-eq-ok :
    {E B : Type 0} (test : Bool) (thrown : E) (rest : Result E B) {last : B}
    → (guard test thrown >> rest) ≡ ok last
    → (test ≡ true) × (rest ≡ ok last)
guard-eq-ok false thrown rest h = cc
guard-eq-ok true thrown rest h = (refl, h)

-- A block that returned: its first part returned a value, and the rest returned on that value.
pub >>=-eq-ok :
    {E A B : Type 0} (first : Result E A) (rest : A → Result E B) {last : B}
    → (first >>= rest) ≡ ok last
    → (value : A) × (first ≡ ok value) × (rest value ≡ ok last)
>>=-eq-ok (err thrown) rest h = cc
>>=-eq-ok (ok value) rest h = (value, refl, h)

pub Result-cases :
    {E A : Type 0} (r : Result E A) → ((a : A) × (r ≡ ok a)) ⊎ ((e : E) × (r ≡ err e))
Result-cases (ok a) = inl (a, refl)
Result-cases (err e) = inr (e, refl)

abbrev value_or : {E A : Type 0} → A → Result E A → A
value_or d (ok a) = a
value_or d (err e) = d

pub ok-injective : {E A : Type 0} (a b : A) → ◌≡◌ {A = Result E A} (ok a) (ok b) → a ≡ b
ok-injective a b h = ap (value_or a) h

-- The two parts of what a block returned.
pub ok-pair :
    {E A B : Type 0} (x : A × B) (a : A) (b : B)
    → ◌≡◌ {A = Result E (A × B)} (ok x) (ok (a, b))
    → (a ≡ x.0) × (b ≡ x.1)
ok-pair x a b h = let e = ok-injective x (a, b) h in (sym (ap (λ p. p.0) e), sym (ap (λ p. p.1) e))
