-- ===== src/FileMutex/Exclusion.antt =====
-- security/fileMutex.js, `withLock`: an operation whose lock was taken away does not return, so that of two
-- operations that overlap at most one does.
use basitclaw.Common.{
  ℕ, ◌<◌, ◌≡◌, ◌≢◌, sym, ap, subst, ◌∙◌, Bool, true, false, not, Option, none, some, List, [], ◌∷◌,
  ◌==◌, arith, Bool-cases, inl, inr,
}
use basitclaw.FileMutex.{
  Owner, Lock, Outcome, returned, operation_threw, lock_lost, unavailable, busy, Process, idle,
  trying, made, refused, saw_stale, holding, operating, releasing, removing, ended, World, Settings,
  Slot, owner_in, owned_by, act, step, run,
}
use basitclaw.FileMutex.Tokens.{
  token_of, makes, act-makes, act-owned_by, AreDistinct, AreDistinct-makes, run-AreDistinct, start,
  start-AreDistinct,
}

abbrev is_returned : Outcome → Bool
is_returned returned = true
is_returned operation_threw = false
is_returned lock_lost = false
is_returned unavailable = false
is_returned (busy _) = false

-- A process with the token in its operation, or past it and not to return.
abbrev is_doomed : ℕ → Process → Bool
is_doomed t (operating owner) = owner.token == t
is_doomed t (releasing _ outcome) = not (is_returned outcome)
is_doomed t (removing _ outcome) = not (is_returned outcome)
is_doomed t (ended outcome) = not (is_returned outcome)
is_doomed t idle = false
is_doomed t (trying _) = false
is_doomed t (made _ _) = false
is_doomed t (refused _) = false
is_doomed t (saw_stale _) = false
is_doomed t (holding _) = false

-- The token is not on the disk, and no process writes it.
record IsGone (t : ℕ) (w : World) : Type 0 where
  not_owned : owned_by t (owner_in w.disk) ≡ false
  not_made : (i : ℕ) → makes t (w.processes i) ≡ false
  old : t < w.next_token

step-IsGone :
    (c : Settings) (slot : Slot) (t : ℕ) (w : World) → IsGone t w → IsGone t (step c slot w)
unfolding step
step-IsGone c slot t w gone = record {
  not_owned =
      act-owned_by c slot w.next_token t w.disk (w.processes slot.index) (gone.not_made slot.index)
        gone.not_owned;
  not_made = λ i. elim (Bool-cases (i == slot.index)) [
    | inl same ↦ rw same (
        act-makes c slot w.next_token t w.disk (w.processes slot.index) gone.old
          (gone.not_made slot.index))
    | inr other ↦ rw other (gone.not_made i)
  ];
  old = omega (arith, gone.old);
}

act-is_doomed :
    (c : Settings) (slot : Slot) (fresh t : ℕ) (disk : Option Lock) (p : Process)
    → owned_by t (owner_in disk) ≡ false
    → is_doomed t p ≡ true
    → is_doomed t (act c slot fresh disk p).1 ≡ true
unfolding act
act-is_doomed c slot fresh t disk idle o h = cc
act-is_doomed c slot fresh t disk (trying d) o h = cc
act-is_doomed c slot fresh t disk (made d owner) o h = cc
act-is_doomed c slot fresh t disk (refused d) o h = cc
act-is_doomed c slot fresh t disk (saw_stale d) o h = cc
act-is_doomed c slot fresh t disk (holding owner) o h = cc
act-is_doomed c slot fresh t none (operating owner) o h = ground arith
act-is_doomed c slot fresh t (some lock) (operating owner) o h = ground arith
act-is_doomed c slot fresh t disk (releasing owner out) o h = ground arith
act-is_doomed c slot fresh t disk (removing owner out) o h = h
act-is_doomed c slot fresh t disk (ended out) o h = h

run-is_doomed :
    (c : Settings) (slots : List Slot) (t i : ℕ) (w : World)
    → IsGone t w
    → is_doomed t (w.processes i) ≡ true
    → is_doomed t ((run c slots w).processes i) ≡ true
unfolding run step
run-is_doomed c [] t i w gone h = h
run-is_doomed c (slot ∷ slots) t i w gone h =
    run-is_doomed c slots t i (step c slot w) (step-IsGone c slot t w gone)
      (elim (Bool-cases (i == slot.index)) [
        | inr other ↦ rw other h
        | inl same ↦
            let here : i ≡ slot.index = ground arith in
            rw same (
              act-is_doomed c slot w.next_token t w.disk (w.processes slot.index) gone.not_owned
                (subst (λ (k : ℕ). is_doomed t (w.processes k) ≡ true) here h))
      ])

-- An operation that returns, whatever the processes do until then: while it runs its own token is in
-- the owner file.
pub returned-owned_by :
    (c : Settings) (slots : List Slot) (i : ℕ) (owner : Owner) (w : World)
    → AreDistinct w
    → w.processes i ≡ operating owner
    → (run c slots w).processes i ≡ ended returned
    → owned_by owner.token (owner_in w.disk) ≡ true
returned-owned_by c slots i owner w inv runs ends =
    elim (Bool-cases (owned_by owner.token (owner_in w.disk))) [
      | inl owned ↦ owned
      | inr lost ↦
          let mine : token_of (w.processes i) ≡ some owner.token = ap token_of runs in
          let gone : IsGone owner.token w = record {
            not_owned = lost;
            not_made =
                λ j. AreDistinct-makes w i j owner.token inv mine (ap (makes owner.token) runs);
            old = inv.bounded i owner.token mine;
          } in
          let own_token : (owner.token == owner.token) ≡ true = ground arith in
          let doomed : is_doomed owner.token (w.processes i) ≡ true =
            ap (is_doomed owner.token) runs ∙ own_token in
          let still = run-is_doomed c slots owner.token i w gone doomed in
          let not_so : is_doomed owner.token ((run c slots w).processes i) ≡ false =
            ap (is_doomed owner.token) ends in
          absurd (cc)
    ]

owned_by_unique : (t u : ℕ) (o : Option Owner) → owned_by t o ≡ true → owned_by u o ≡ true → t ≡ u
owned_by_unique t u none h k = cc
owned_by_unique t u (some owner) h k = ground arith

-- In every run of the processes' steps, from any lock on the disk: of two processes whose operations run
-- at the same time, not both return, whatever steps follow for the one and for the other.
pub run-exclusive :
    (c : Settings) (disk : Option Lock) (before after later : List Slot) (i j : ℕ) (o o' : Owner)
    → i ≢ j
    → (run c before (start disk)).processes i ≡ operating o
    → (run c before (start disk)).processes j ≡ operating o'
    → (run c after (run c before (start disk))).processes i ≡ ended returned
    → (run c later (run c before (start disk))).processes j ≢ ended returned
run-exclusive c disk before after later i j o o' apart mine theirs ends ends' =
    let w = run c before (start disk) in
    let inv : AreDistinct w = run-AreDistinct c before (start disk) (start-AreDistinct disk) in
    let same : o.token ≡ o'.token =
      owned_by_unique o.token o'.token (owner_in w.disk)
        (returned-owned_by c after i o w inv mine ends)
        (returned-owned_by c later j o' w inv theirs ends') in
    apart (inv.distinct i j o.token (ap token_of mine) (ap token_of theirs ∙ ap some (sym same)))
