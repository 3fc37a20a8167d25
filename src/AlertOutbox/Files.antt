-- ===== src/AlertOutbox/Files.antt =====
-- security/securityAlertOutbox.js: a directory of files named by delivery ids, in the order of
-- `jsonNames`, with `writeJsonAtomic`, `readJson`, `existsSync`, `rmSync` and `pruneDirectory`.
use basitclaw.Common.{
  ℕ, zero, suc, ◌-◌, ◌≡◌, ◌<◌, All, refl, Bool, true, false, ◌&&◌, ◌||◌, not, Option, none, some,
  List, [], ◌∷◌, arith, ltb, ◌==◌, if◌then◌else◌, length, drop, Bool-cases, inl, inr, subst,
}

abbrev pub Directory : Type 0 → Type 0
Directory A = List (ℕ × A)

if-holds : {B : Type 0} (Q : B → Type 0) (b : Bool) (x y : B) → Q x → Q y → Q (if b then x else y)
if-holds Q true x y l r = l
if-holds Q false x y l r = r

module _ {A : Type 0} where
  unfoldable pub put : ℕ → A → Directory A → Directory A
  put k v [] = (k, v) ∷ []
  put k v ((j, w) ∷ d) =
      let rest = put k v d in
      if k == j then (k, v) ∷ d else if ltb k j then (k, v) ∷ (j, w) ∷ d else (j, w) ∷ rest

  unfoldable pub get : ℕ → Directory A → Option A
  get k [] = none
  get k ((j, w) ∷ d) = if k == j then some w else get k d

  unfoldable pub has : ℕ → Directory A → Bool
  has k [] = false
  has k ((j, w) ∷ d) = k == j || has k d

  unfoldable pub remove : ℕ → Directory A → Directory A
  remove k [] = []
  remove k ((j, w) ∷ d) = let rest = remove k d in if k == j then rest else (j, w) ∷ rest

  unfoldable pub names : Directory A → List ℕ
  names [] = []
  names ((j, w) ∷ d) = j ∷ names d

  -- The files with the first names go, until `retain` are left.
  unfoldable pub prune : ℕ → Directory A → Directory A
  prune retain d = drop (length d - retain) d

  pub has-put : (j k : ℕ) (v : A) (d : Directory A) → has j (put k v d) ≡ (j == k || has j d)
  unfolding has put
  has-put j k v [] = ground arith
  has-put j k v ((i, w) ∷ d) = ground (arith, has-put j k v d)

  pub has-remove : (j k : ℕ) (d : Directory A) → has j (remove k d) ≡ (not (j == k) && has j d)
  unfolding has remove
  has-remove j k [] = ground arith
  has-remove j k ((i, w) ∷ d) = ground (arith, has-remove j k d)

  pub has-of-get : (k : ℕ) (d : Directory A) (v : A) → get k d ≡ some v → has k d ≡ true
  unfolding has get
  has-of-get k [] v h = cc
  has-of-get k ((i, w) ∷ d) v h = ground (arith, has-of-get k d v)

  has-drop : (n j : ℕ) (d : Directory A) → has j (drop n d) ≡ true → has j d ≡ true
  unfolding has
  has-drop zero j d h = h
  has-drop (suc n) j [] h = h
  has-drop (suc n) j ((i, w) ∷ d) h = ground (arith, has-drop n j d)

  pub has-prune : (retain j : ℕ) (d : Directory A) → has j (prune retain d) ≡ true → has j d ≡ true
  unfolding prune
  has-prune retain j d h = has-drop (length d - retain) j d h

  pub get-put : (k : ℕ) (v : A) (d : Directory A) → get k (put k v d) ≡ some v
  unfolding get put
  get-put k v [] = ground arith
  get-put k v ((j, w) ∷ d) = ground (arith, get-put k v d)

  pub get-remove : (k : ℕ) (d : Directory A) → get k (remove k d) ≡ none
  unfolding get remove
  get-remove k [] = refl
  get-remove k ((j, w) ∷ d) = ground (arith, get-remove k d)

  -- A name that is smaller than all others is written at the front.
  pub put-first :
      (k : ℕ) (v : A) (d : Directory A) → All (λ (f : ℕ × A). k < f.0) d → put k v d ≡ (k, v) ∷ d
  unfolding put
  put-first k v [] h = refl
  put-first k v ((j, w) ∷ d) h = ground (arith, h.0)

  pub has-of-later : (k : ℕ) (d : Directory A) → All (λ (f : ℕ × A). k < f.0) d → has k d ≡ false
  unfolding has
  has-of-later k [] h = refl
  has-of-later k ((j, w) ∷ d) h = ground (arith, h.0, has-of-later k d h.1)

  -- A predicate of all files, through the changes of a directory.
  pub All-put :
      (P : ℕ × A → Type 0) (k : ℕ) (v : A) (d : Directory A)
      → P (k, v)
      → All P d
      → All P (put k v d)
  unfolding put
  All-put P k v [] p h = (p, tt)
  All-put P k v ((j, w) ∷ d) p h =
      if-holds (All P) (k == j) _ _ (p, h.1)
        (if-holds (All P) (ltb k j) _ _ (p, h) (h.0, All-put P k v d p h.1))

  pub All-remove : (P : ℕ × A → Type 0) (k : ℕ) (d : Directory A) → All P d → All P (remove k d)
  unfolding remove
  All-remove P k [] h = h
  All-remove P k ((j, w) ∷ d) h =
      if-holds (All P) (k == j) _ _ (All-remove P k d h.1) (h.0, All-remove P k d h.1)

  pub All-get :
      (P : A → Type 0) (k : ℕ) (d : Directory A) (v : A)
      → All (λ (f : ℕ × A). P f.1) d
      → get k d ≡ some v
      → P v
  unfolding get
  All-get P k [] v h found = absurd (cc)
  All-get P k ((j, w) ∷ d) v h found = elim (Bool-cases (k == j)) [
    | inl same ↦ let found' = rw same at found in let is : w ≡ v = cc in subst P is h.0
    | inr other ↦ All-get P k d v h.1 (rw other at found)
  ]
