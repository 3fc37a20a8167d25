-- ===== src/Common/Lists.antt =====
-- Lists measured by native numbers, with the array methods of JavaScript that the program uses.
use Prim.Native.Nat.{ℕ, zero, suc, ◌+◌, ◌-◌, ◌≤◌}
use mathlib.Core.Path.{◌≡◌, refl, ap, subst}
use mathlib.Core.Logic.{inl, inr}
use mathlib.Core.Bool.{Bool, true, false, ◌&&◌, ◌||◌}
use mathlib.Core.List.{List, [], ◌∷◌, ◌++◌}
use mathlib.Core.Option.{Option, none, some}
use native.Mathlib.Omega.{arith}
use basitclaw.Common.Tests.{if◌then◌else◌, Bool-cases}

module _ {ℓ} {A : Type ℓ} where
  abbrev pub length : List A → ℕ
  length [] = 0
  length (x ∷ xs) = suc (length xs)

  -- xs.slice(0, n)
  abbrev pub take : ℕ → List A → List A
  take zero xs = []
  take (suc n) [] = []
  take (suc n) (x ∷ xs) = x ∷ take n xs

  -- xs.slice(n)
  abbrev pub drop : ℕ → List A → List A
  drop zero xs = xs
  drop (suc n) [] = []
  drop (suc n) (x ∷ xs) = drop n xs

  -- xs[i]
  abbrev pub get_elem? : List A → ℕ → Option A
  get_elem? [] i = none
  get_elem? (x ∷ xs) zero = some x
  get_elem? (x ∷ xs) (suc i) = get_elem? xs i

  -- xs[0]
  abbrev pub head? : List A → Option A
  head? [] = none
  head? (x ∷ xs) = some x

  -- xs.at(-1)
  abbrev pub get_last? : List A → Option A
  get_last? [] = none
  get_last? (x ∷ []) = some x
  get_last? (x ∷ y ∷ xs) = get_last? (y ∷ xs)

  abbrev pub filter : (A → Bool) → List A → List A
  filter p [] = []
  filter p (x ∷ xs) = if p x then x ∷ filter p xs else filter p xs

  abbrev pub find : (A → Bool) → List A → Option A
  find p [] = none
  find p (x ∷ xs) = if p x then some x else find p xs

  -- xs.some(p)
  abbrev pub any : (A → Bool) → List A → Bool
  any p [] = false
  any p (x ∷ xs) = p x || any p xs

  -- xs.every(p)
  abbrev pub all : (A → Bool) → List A → Bool
  all p [] = true
  all p (x ∷ xs) = p x && all p xs

  abbrev pub All {κ} : (A → Type κ) → List A → Type κ
  All P [] = Unit
  All P (x ∷ xs) = P x × All P xs

-- xs.slice(-n), at n > 0
abbrev pub take_last {ℓ} : {A : Type ℓ} → ℕ → List A → List A
take_last n xs = drop (length xs - n) xs

module _ {ℓ} {A : Type ℓ} where
  pub length-append : (xs ys : List A) → length (xs ++ ys) ≡ length xs + length ys
  length-append [] ys = omega arith
  length-append (x ∷ xs) ys = omega (arith, length-append xs ys)

  pub length-filter-le : (p : A → Bool) (xs : List A) → length (filter p xs) ≤ length xs
  length-filter-le p [] = omega arith
  length-filter-le p (x ∷ xs) = ground (arith, length-filter-le p xs)

  pub filter-append :
      (p : A → Bool) (xs ys : List A) → filter p (xs ++ ys) ≡ filter p xs ++ filter p ys
  filter-append p [] ys = refl
  filter-append p (x ∷ xs) ys = ground (arith, filter-append p xs ys)

  pub get_last?-snoc : (xs : List A) (x : A) → get_last? (xs ++ x ∷ []) ≡ some x
  get_last?-snoc [] x = refl
  get_last?-snoc (y ∷ []) x = refl
  get_last?-snoc (y ∷ z ∷ xs) x = get_last?-snoc (z ∷ xs) x

  pub append_nil : (xs : List A) → xs ++ [] ≡ xs
  append_nil [] = refl
  append_nil (x ∷ xs) = ap (λ (l : List A). x ∷ l) (append_nil xs)

  pub length-drop : (n : ℕ) (xs : List A) → length (drop n xs) ≡ length xs - n
  length-drop zero xs = omega arith
  length-drop (suc n) [] = omega arith
  length-drop (suc n) (x ∷ xs) = omega (arith, length-drop n xs)

  pub length-take-le : (n : ℕ) (xs : List A) → length (take n xs) ≤ n
  length-take-le zero xs = omega arith
  length-take-le (suc n) [] = omega arith
  length-take-le (suc n) (x ∷ xs) = omega (arith, length-take-le n xs)

  pub find-some : (p : A → Bool) (xs : List A) (x : A) → find p xs ≡ some x → p x ≡ true
  find-some p [] x h = ground arith
  find-some p (y ∷ xs) x h = ground (arith, find-some p xs x)

  pub All-append {κ} :
      (P : A → Type κ) (front rear : List A) → All P front → All P rear → All P (front ++ rear)
  All-append P [] rear f r = r
  All-append P (x ∷ front) rear (p, f) r = (p, All-append P front rear f r)

  pub All-filter {κ} :
      (P : A → Type κ) (p : A → Bool) (xs : List A) → All P xs → All P (filter p xs)
  All-filter P p [] h = h
  All-filter P p (x ∷ xs) h = split (p x) (All-filter P p xs h.1)
    where
      split : (b : Bool) → All P (filter p xs) → All P (if b then x ∷ filter p xs else filter p xs)
      split true r = (h.0, r)
      split false r = r

  pub All-find {κ} :
      (P : A → Type κ) (p : A → Bool) (xs : List A) (x : A) → find p xs ≡ some x → All P xs → P x
  All-find P p [] x e h = cc
  All-find P p (y ∷ xs) x e h = elim (Bool-cases (p y)) [
    | inl t ↦ let same : y ≡ x = ground arith in subst P same h.0
    | inr f ↦ All-find P p xs x (rw f at e) h.1
  ]

  pub All-get_elem? {κ} :
      (P : A → Type κ) (xs : List A) (k : ℕ) (x : A) → All P xs → get_elem? xs k ≡ some x → P x
  All-get_elem? P [] k x h e = cc
  All-get_elem? P (y ∷ xs) zero x h e = let same : y ≡ x = ground arith in subst P same h.0
  All-get_elem? P (y ∷ xs) (suc k) x h e = All-get_elem? P xs k x h.1 e
