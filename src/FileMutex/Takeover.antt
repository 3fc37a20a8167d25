-- ===== src/FileMutex/Takeover.antt =====
-- security/fileMutex.js, `acquire`: what comes of a process while the others take no step.
use basitclaw.Common.{
  length, ◌++◌, ℕ, ◌+◌, ◌<◌, ◌≡◌, refl, ap, ◌∙◌, true, false, Option, none, some, List, [], ◌∷◌,
  ◌==◌, if◌then◌else◌, arith, leb,
}
use basitclaw.FileMutex.{
  Owner, Lock, busy, returned, Process, trying, operating, ended, World, Settings, Slot,
  inspect_lock, act, step, run,
}

-- Steps of one process at the given times; its operation does not throw.
abbrev pub alone : ℕ → List ℕ → List Slot
alone i [] = []
alone i (t ∷ ts) = record { index = i; now = t; throws = false } ∷ alone i ts

-- The directory and the process, in steps of its own.
solo : Settings → ℕ → List ℕ → ℕ → Option Lock × Process → Option Lock × Process
solo c i [] fresh s = s
solo c i (t ∷ ts) fresh (disk, p) =
    solo c i ts (fresh + 1) (act c (record { index = i; now = t; throws = false }) fresh disk p)

run-alone :
    (c : Settings) (i : ℕ) (ts : List ℕ) (w : World) (disk : Option Lock) (p : Process)
    → w.disk ≡ disk
    → w.processes i ≡ p
    → ((run c (alone i ts) w).disk, (run c (alone i ts) w).processes i)
      ≡ solo c i ts w.next_token (disk, p)
unfolding run step solo
run-alone c i [] w disk p d e = λ k. (d k, e k)
run-alone c i (t ∷ ts) w disk p d e =
    let slot : Slot = record { index = i; now = t; throws = false } in
    let self : (i == i) ≡ true = ground arith in
    run-alone c i ts (step c slot w) (act c slot w.next_token disk p).0
      (act c slot w.next_token disk p).1 (λ k. (act c slot w.next_token (d k) (e k)).0)
      (rw self (λ k. (act c slot w.next_token (d k) (e k)).1))

-- The owner that a process writes.
abbrev pub owner_at : Settings → ℕ → ℕ → Owner
owner_at c t token = record { token = token; expires_at = t + c.lease_ms }

solo-free :
    (c : Settings) (i deadline fresh t1 t2 t3 : ℕ)
    → t3 < t1 + c.lease_ms
    → solo c i (t1 ∷ t2 ∷ t3 ∷ []) fresh (none, trying deadline) ≡ (
      some (record { created_at = t1; owner = some (owner_at c t1 fresh) }),
      operating (owner_at c t1 fresh),
    )
unfolding solo act
solo-free c i deadline fresh t1 t2 t3 valid = ground arith

solo-stale :
    (c : Settings) (i deadline fresh t1 t2 t3 : ℕ) (lock : Lock)
    → (inspect_lock (some lock) t2 c.lease_ms).stale ≡ true
    → solo c i (t1 ∷ t2 ∷ t3 ∷ []) fresh (some lock, trying deadline) ≡ (none, trying deadline)
unfolding solo act
solo-stale c i deadline fresh t1 t2 t3 lock stale = rw stale refl

solo-returned :
    (c : Settings) (i fresh t1 t2 t3 created : ℕ) (owner : Owner)
    → t1 < owner.expires_at
    → solo c i
        (t1 ∷ t2 ∷ t3 ∷ [])
        fresh
        (some (record { created_at = created; owner = some owner }), operating owner)
      ≡ (none, ended returned)
unfolding solo act
solo-returned c i fresh t1 t2 t3 created owner valid = ground arith

solo-append :
    (c : Settings) (i : ℕ) (ts us : List ℕ) (fresh : ℕ) (s : Option Lock × Process)
    → solo c i (ts ++ us) fresh s ≡ solo c i us (fresh + length ts) (solo c i ts fresh s)
unfolding solo
solo-append c i [] us fresh s = ap (λ (n : ℕ). solo c i us n s) (omega arith)
solo-append c i (t ∷ ts) us fresh (disk, p) =
    solo-append c i ts us (fresh + 1)
      (act c (record { index = i; now = t; throws = false }) fresh disk p)
    ∙ ap
        (λ (n : ℕ). solo c i us n (
          solo c i ts (fresh + 1)
            (act c (record { index = i; now = t; throws = false }) fresh disk p)))
        (omega arith)

module _ (c : Settings) (i deadline : ℕ) (w : World) (lock : Lock) (there : w.disk ≡ some lock)
    (tries : w.processes i ≡ trying deadline) where
  -- A process that finds a stale lock, in nine steps of its own in which the other processes take none, at
  -- any times that see the lock as stale, and its own lease not over when its operation begins and ends: it
  -- takes the lock over, its operation returns, and the lock is removed.
  pub run-takes_over :
      (t1 t2 t3 t4 t5 t6 t7 t8 t9 : ℕ)
      → (inspect_lock (some lock) t2 c.lease_ms).stale ≡ true
      → t6 < t4 + c.lease_ms
      → t7 < t4 + c.lease_ms
      → let after = run c (alone i (t1 ∷ t2 ∷ t3 ∷ t4 ∷ t5 ∷ t6 ∷ t7 ∷ t8 ∷ t9 ∷ [])) w in
        (after.processes i ≡ ended returned) × (after.disk ≡ none)
  run-takes_over t1 t2 t3 t4 t5 t6 t7 t8 t9 stale begins ends =
      let found : List ℕ = t1 ∷ t2 ∷ t3 ∷ [] in
      let taken : List ℕ = t4 ∷ t5 ∷ t6 ∷ [] in
      let done : List ℕ = t7 ∷ t8 ∷ t9 ∷ [] in
      let e =
        run-alone c i (found ++ taken ++ done) w (some lock) (trying deadline) there tries
        ∙ solo-append c i found (taken ++ done) w.next_token (some lock, trying deadline)
        ∙ ap (solo c i (taken ++ done) (w.next_token + 3))
            (solo-stale c i deadline w.next_token t1 t2 t3 lock stale)
        ∙ solo-append c i taken done (w.next_token + 3) (none, trying deadline)
        ∙ ap (solo c i done (w.next_token + 3 + 3))
            (solo-free c i deadline (w.next_token + 3) t4 t5 t6 begins)
        ∙ solo-returned c i (w.next_token + 3 + 3) t7 t8 t9 t4 (owner_at c t4 (w.next_token + 3))
            ends in
      (ap (λ (s : Option Lock × Process). s.1) e, ap (λ (s : Option Lock × Process). s.0) e)

  -- A lock that is not stale is left alone: past its deadline the process gives up, with the time
  -- to retry after, and before it the process is at the top of its loop again.
  pub run-waits :
      (t1 t2 : ℕ)
      → (inspect_lock (some lock) t2 c.lease_ms).stale ≡ false
      → let seen = inspect_lock (some lock) t2 c.lease_ms in
        let after = run c (alone i (t1 ∷ t2 ∷ [])) w in
        (after.disk ≡ some lock)
        × (after.processes i
            ≡ (if leb deadline t2 then ended (busy seen.retry_after_ms) else trying deadline))
  unfolding act solo
  run-waits t1 t2 fresh =
      let e = run-alone c i (t1 ∷ t2 ∷ []) w (some lock) (trying deadline) there tries in
      (
        ap (λ (s : Option Lock × Process). s.0) e,
        ap (λ (s : Option Lock × Process). s.1) e ∙ rw fresh refl,
      )
