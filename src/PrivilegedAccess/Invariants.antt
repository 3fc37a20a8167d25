-- ===== src/PrivilegedAccess/Invariants.antt =====
-- security/privilegedAccessRegistry.js: when a predicate of single requests holds of all requests
-- before and after a mutation.
use basitclaw.Common.{
  ℕ, ◌≡◌, String, not, some, List, [], ◌∷◌, arith, str_eq, All, All-filter, Bool-cases, inl, inr,
  Result, ok, err, subst,
}
use basitclaw.Common.Text.{trim_text}
use basitclaw.PrivilegedAccess.{Config, Item, Snapshot, Trail, Error, Unsigned}
use basitclaw.PrivilegedAccess.Checks.{find_item, request, subject_of}
use basitclaw.PrivilegedAccess.Store.{
  set_item, expire_item, expire_event, expire, prune, prunable, prepare, finish, settle, mutate,
}

pub find_item-of-request :
    (items : List Item) (id : String) (i : Item)
    → request items id ≡ ok i
    → find_item id items ≡ some i
unfolding request
find_item-of-request items id i h = ground arith

pub subject_of-eq-ok : (value s : String) → subject_of value ≡ ok s → s ≡ trim_text value
unfolding subject_of
subject_of-eq-ok value s h = ground arith

settle-eq-ok :
    (c : Config) (now : ℕ) (r : Result Error (Snapshot × Item)) (s' : Snapshot) (k : Item)
    → settle c now r ≡ ok (s', k)
    → (s1 : Snapshot) × (r ≡ ok (s1, k)) × (s' ≡ finish c now s1)
unfolding settle
settle-eq-ok c now (ok (s1, j)) s' k h = (s1, ground arith, ground arith)
settle-eq-ok c now (err e) s' k h = cc

-- A mutation that succeeds ran its operation on the prepared snapshot.
pub mutate-eq-ok :
    (digest : Unsigned → String) (event_id : ℕ → String) (c : Config) (s s' : Snapshot) (now : ℕ)
    (operation : Snapshot → Result Error (Snapshot × Item)) (k : Item)
    → mutate digest event_id c s now operation ≡ ok (s', k)
    → (s1 : Snapshot) × (operation (prepare digest event_id c now s) ≡ ok (s1, k))
      × (s' ≡ finish c now s1)
unfolding mutate
mutate-eq-ok digest event_id c s s' now operation k h =
    settle-eq-ok c now (operation (prepare digest event_id c now s)) s' k h

module _ (P : Item → Type 0) where
  pub All-find_item :
      (id : String) (items : List Item) (i : Item) → All P items → find_item id items ≡ some i → P i
  unfolding find_item
  All-find_item id [] i h e = cc
  All-find_item id (j ∷ items) i h e = elim (Bool-cases (str_eq j.id id)) [
    | inl here ↦ let same : j ≡ i = ground arith in subst P same h.0
    | inr there ↦
        let rest : find_item id items ≡ some i = ground arith in All-find_item id items i h.1 rest
  ]

  pub All-set_item : (i : Item) (items : List Item) → P i → All P items → All P (set_item i items)
  unfolding set_item
  All-set_item i [] p h = h
  All-set_item i (j ∷ items) p h = elim (Bool-cases (str_eq j.id i.id)) [
    | inl here ↦ rw here (p, h.1)
    | inr there ↦ rw there (h.0, All-set_item i items p h.1)
  ]

  module _ (digest : Unsigned → String) (event_id : ℕ → String)
      (expires : (now : ℕ) (i : Item) → P i → P (expire_item digest event_id now i)) where
    All-expire :
        (now : ℕ) (items : List Item) (t : Trail)
        → All P items
        → All P (expire digest event_id now items t).0
    unfolding expire
    All-expire now [] t h = h
    All-expire now (i ∷ items) t h =
        (expires now i h.0, All-expire now items (expire_event digest event_id now i t) h.1)

    pub All-prepare :
        (c : Config) (now : ℕ) (s : Snapshot)
        → All P s.requests
        → All P (prepare digest event_id c now s).requests
    unfolding prepare prune
    All-prepare c now s h =
        All-filter P (λ i. not (prunable c now i)) _ (All-expire now s.requests s.trail h)
