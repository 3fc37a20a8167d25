-- ===== src/FileMutex/Tokens.antt =====
-- security/fileMutex.js: no two processes have one token, and a token that is gone from the owner file does not
-- come back.
use basitclaw.Common.{
  ℕ, ◌<◌, ◌≡◌, refl, sym, subst, ◌∙◌, Bool, true, false, Option, none, some, List, [], ◌∷◌, ◌==◌,
  ◌⊎◌, inl, inr, arith, Bool-cases,
}
use basitclaw.FileMutex.{
  Lock, Process, idle, trying, made, refused, saw_stale, holding, operating, releasing, removing,
  ended, World, Settings, Slot, Observed, inspect_lock, owner_in, owned_by, after_look, act, step,
  run,
}

abbrev pub token_of : Process → Option ℕ
token_of idle = none
token_of (trying _) = none
token_of (made _ owner) = some owner.token
token_of (refused _) = none
token_of (saw_stale _) = none
token_of (holding owner) = some owner.token
token_of (operating owner) = some owner.token
token_of (releasing owner _) = some owner.token
token_of (removing owner _) = some owner.token
token_of (ended _) = none

abbrev pub makes : ℕ → Process → Bool
makes t idle = false
makes t (trying _) = false
makes t (made _ owner) = owner.token == t
makes t (refused _) = false
makes t (saw_stale _) = false
makes t (holding _) = false
makes t (operating _) = false
makes t (releasing _ _) = false
makes t (removing _ _) = false
makes t (ended _) = false

after_look-token_of :
    (deadline now : ℕ) (seen : Observed) → token_of (after_look deadline now seen) ≡ none
after_look-token_of deadline now seen = ground arith

after_look-makes :
    (t deadline now : ℕ) (seen : Observed) → makes t (after_look deadline now seen) ≡ false
after_look-makes t deadline now seen = ground arith

-- A process has the token it had, or the fresh one.
act-token_of :
    (c : Settings) (slot : Slot) (fresh t : ℕ) (disk : Option Lock) (p : Process)
    → token_of (act c slot fresh disk p).1 ≡ some t
    → (token_of p ≡ some t) ⊎ (t ≡ fresh)
unfolding act
act-token_of c slot fresh t disk idle h = cc
act-token_of c slot fresh t none (trying d) h = inr (ground arith)
act-token_of c slot fresh t (some lock) (trying d) h = cc
act-token_of c slot fresh t none (made d owner) h = cc
act-token_of c slot fresh t (some lock) (made d owner) h = ground arith
act-token_of c slot fresh t disk (refused d) h =
    ground (arith, after_look-token_of d slot.now (inspect_lock disk slot.now c.lease_ms))
act-token_of c slot fresh t disk (saw_stale d) h = cc
act-token_of c slot fresh t disk (holding owner) h = ground arith
act-token_of c slot fresh t disk (operating owner) h = ground arith
act-token_of c slot fresh t disk (releasing owner o) h = ground arith
act-token_of c slot fresh t disk (removing owner o) h = cc
act-token_of c slot fresh t disk (ended o) h = cc

pub act-makes :
    (c : Settings) (slot : Slot) (fresh t : ℕ) (disk : Option Lock) (p : Process)
    → t < fresh
    → makes t p ≡ false
    → makes t (act c slot fresh disk p).1 ≡ false
unfolding act
act-makes c slot fresh t disk idle lt h = refl
act-makes c slot fresh t none (trying d) lt h = ground arith
act-makes c slot fresh t (some lock) (trying d) lt h = refl
act-makes c slot fresh t none (made d owner) lt h = refl
act-makes c slot fresh t (some lock) (made d owner) lt h = ground arith
act-makes c slot fresh t disk (refused d) lt h =
    after_look-makes t d slot.now (inspect_lock disk slot.now c.lease_ms)
act-makes c slot fresh t disk (saw_stale d) lt h = refl
act-makes c slot fresh t disk (holding owner) lt h = ground arith
act-makes c slot fresh t disk (operating owner) lt h = ground arith
act-makes c slot fresh t disk (releasing owner o) lt h = ground arith
act-makes c slot fresh t disk (removing owner o) lt h = refl
act-makes c slot fresh t disk (ended o) lt h = refl

-- Only the process that makes the directory with a token writes it.
pub act-owned_by :
    (c : Settings) (slot : Slot) (fresh t : ℕ) (disk : Option Lock) (p : Process)
    → makes t p ≡ false
    → owned_by t (owner_in disk) ≡ false
    → owned_by t (owner_in (act c slot fresh disk p).0) ≡ false
unfolding act
act-owned_by c slot fresh t disk idle m h = h
act-owned_by c slot fresh t none (trying d) m h = refl
act-owned_by c slot fresh t (some lock) (trying d) m h = h
act-owned_by c slot fresh t none (made d owner) m h = refl
act-owned_by c slot fresh t (some lock) (made d owner) m h = ground arith
act-owned_by c slot fresh t disk (refused d) m h = h
act-owned_by c slot fresh t disk (saw_stale d) m h = refl
act-owned_by c slot fresh t disk (holding owner) m h = h
act-owned_by c slot fresh t disk (operating owner) m h = h
act-owned_by c slot fresh t disk (releasing owner o) m h = h
act-owned_by c slot fresh t disk (removing owner o) m h = refl
act-owned_by c slot fresh t disk (ended o) m h = h

pub record AreDistinct (w : World) : Type 0 where
  pub bounded : (i t : ℕ) → token_of (w.processes i) ≡ some t → t < w.next_token
  pub distinct :
      (i j t : ℕ) → token_of (w.processes i) ≡ some t → token_of (w.processes j) ≡ some t → i ≡ j

-- A token after a step is one from before it, or the fresh one in the process that took it.
step-token_of :
    (c : Settings) (slot : Slot) (w : World) (i t : ℕ)
    → token_of ((step c slot w).processes i) ≡ some t
    → (token_of (w.processes i) ≡ some t) ⊎ (i ≡ slot.index) × (t ≡ w.next_token)
unfolding step
step-token_of c slot w i t h = elim (Bool-cases (i == slot.index)) [
  | inr other ↦ inl (ground arith)
  | inl same ↦
      let here : i ≡ slot.index = ground arith in
      let taken =
        act-token_of c slot w.next_token t w.disk (w.processes slot.index) (ground arith) in
      elim taken [ inl had ↦ inl (rw here had) | inr is ↦ inr (here, is) ]
]

step-AreDistinct :
    (c : Settings) (slot : Slot) (w : World) → AreDistinct w → AreDistinct (step c slot w)
unfolding step
step-AreDistinct c slot w inv = record {
  bounded = λ i t h. elim (step-token_of c slot w i t h) [
    | inl had ↦ omega (arith, inv.bounded i t had)
    | inr is ↦ omega (arith, is.1)
  ];
  distinct = λ i j t h k. elim (step-token_of c slot w i t h) [
    | inl had ↦ elim (step-token_of c slot w j t k) [
      | inl had' ↦ inv.distinct i j t had had'
      | inr is ↦ absurd (omega (arith, inv.bounded i t had, is.1))
    ]
    | inr is ↦ elim (step-token_of c slot w j t k) [
      | inl had' ↦ absurd (omega (arith, inv.bounded j t had', is.1))
      | inr is' ↦ is.0 ∙ sym is'.0
    ]
  ];
}

pub run-AreDistinct :
    (c : Settings) (slots : List Slot) (w : World) → AreDistinct w → AreDistinct (run c slots w)
unfolding run
run-AreDistinct c [] w inv = inv
run-AreDistinct c (slot ∷ slots) w inv =
    run-AreDistinct c slots (step c slot w) (step-AreDistinct c slot w inv)

pub makes-token_of : (t : ℕ) (p : Process) → makes t p ≡ true → token_of p ≡ some t
makes-token_of t (made d owner) h = ground arith
makes-token_of t idle h = cc
makes-token_of t (trying _) h = cc
makes-token_of t (refused _) h = cc
makes-token_of t (saw_stale _) h = cc
makes-token_of t (holding _) h = cc
makes-token_of t (operating _) h = cc
makes-token_of t (releasing _ _) h = cc
makes-token_of t (removing _ _) h = cc
makes-token_of t (ended _) h = cc

-- What no process makes: the token of one that is past writing it.
pub AreDistinct-makes :
    (w : World) (i j t : ℕ)
    → AreDistinct w
    → token_of (w.processes i) ≡ some t
    → makes t (w.processes i) ≡ false
    → makes t (w.processes j) ≡ false
AreDistinct-makes w i j t inv mine past = elim (Bool-cases (makes t (w.processes j))) [
  | inr no_other ↦ no_other
  | inl other ↦
      let same : i ≡ j = inv.distinct i j t mine (makes-token_of t (w.processes j) other) in
      subst (λ (k : ℕ). makes t (w.processes k) ≡ false) same past
]

-- All processes idle, whatever lock is on the disk.
unfoldable pub start : Option Lock → World
start disk = record { disk = disk; processes = λ _. idle; next_token = 0 }

pub start-AreDistinct : (disk : Option Lock) → AreDistinct (start disk)
unfolding start
start-AreDistinct disk = record { bounded = λ i t h. cc; distinct = λ i j t h k. cc }
