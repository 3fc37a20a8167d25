-- ===== src/FileMutex.antt =====
-- security/fileMutex.js: the lock of one resource, and the processes that take it. A process is where it stands in
-- `withLock`, and a step is one call of the file system with what is computed from it, so that the
-- steps of all processes interleave. The directory's files are those of the lock.
pub mod Tokens
pub mod Exclusion
pub mod Takeover
mod Tests
use basitclaw.Common.{
  ℕ, ◌+◌, ◌-◌, String, Bool, true, false, ◌&&◌, Option, none, some, leb, ltb, ◌==◌, max, List, [],
  ◌∷◌, if◌then◌else◌,
}

-- The random tokens never repeat: they are counted.
pub record Owner : Type 0 where
  pub token : ℕ
  pub expires_at : ℕ

-- A lock directory, with its owner file if there is one.
pub record Lock : Type 0 where
  pub created_at : ℕ
  pub owner : Option Owner

pub data Outcome : Type 0 where
  -- the operation returned, and the lock was still owned
  returned : Outcome
  operation_threw lock_lost unavailable : Outcome
  -- with the time to retry after
  busy : ℕ → Outcome

pub data Process : Type 0 where
  idle : Process
  -- at the top of the loop of `acquire`; the deadline is first
  trying : ℕ → Process
  -- has made the directory, at a time, and writes the owner
  made : ℕ → Owner → Process
  -- found the directory or the owner file there
  refused : ℕ → Process
  -- saw a stale lock
  saw_stale : ℕ → Process
  -- `acquire` returned
  holding : Owner → Process
  -- the operation runs
  operating : Owner → Process
  -- in `finally`
  releasing : Owner → Outcome → Process
  -- `release` saw its own token
  removing : Owner → Outcome → Process
  ended : Outcome → Process

pub record World : Type 0 where
  -- the lock directory, if it is there
  pub disk : Option Lock
  pub processes : ℕ → Process
  pub next_token : ℕ

pub record Settings : Type 0 where
  pub lease_ms : ℕ
  pub acquire_timeout_ms : ℕ

-- Process `index` takes a step at the time `now`; its operation throws, if it is its turn to.
pub record Slot : Type 0 where
  pub index : ℕ
  pub now : ℕ
  pub throws : Bool

pub record Observed : Type 0 where
  pub stale : Bool
  pub retry_after_ms : ℕ

unfoldable pub inspect_lock : Option Lock → ℕ → ℕ → Observed
inspect_lock none now lease_ms = record { stale = true; retry_after_ms = 1 }
inspect_lock (some lock) now lease_ms = elim lock.owner [
  | some owner ↦ record {
    stale = leb owner.expires_at now;
    retry_after_ms = max 1 (owner.expires_at - now);
  }
  | none ↦ record {
    stale = leb lease_ms (now - lock.created_at);
    retry_after_ms = max 1 ((lease_ms + lock.created_at) - now);
  }
]

abbrev pub owner_in : Option Lock → Option Owner
owner_in none = none
owner_in (some lock) = lock.owner

-- readCurrentOwner() with the test of its token
abbrev pub owned_by : ℕ → Option Owner → Bool
owned_by token none = false
owned_by token (some owner) = owner.token == token

abbrev pub valid_for : ℕ → ℕ → Option Owner → Bool
valid_for token now none = false
valid_for token now (some owner) = owner.token == token && ltb now owner.expires_at

-- The owner is written where there is a directory without an owner file, whoever made it.
abbrev pub write_owner : ℕ → Owner → Option Lock → Option Lock × Process
write_owner deadline owner none = (none, ended unavailable)
write_owner deadline owner (some lock) = elim lock.owner [
  | some _ ↦ (some lock, refused deadline)
  | none ↦ (some (record lock { owner = some owner }), holding owner)
]

abbrev pub after_look : ℕ → ℕ → Observed → Process
after_look deadline now seen =
    if seen.stale
    then saw_stale deadline
    else if leb deadline now
    then ended (busy seen.retry_after_ms)
    else trying deadline

-- The directory and the process after the process's next call of the file system; its token is `fresh`
-- where it makes the directory.
unfoldable pub act : Settings → Slot → ℕ → Option Lock → Process → Option Lock × Process
unfolding inspect_lock
act c slot fresh disk idle = (disk, trying (slot.now + c.acquire_timeout_ms))
act c slot fresh none (trying deadline) = (
  some (record { created_at = slot.now; owner = none }),
  made deadline (record { token = fresh; expires_at = slot.now + c.lease_ms }),
)
act c slot fresh (some lock) (trying deadline) = (some lock, refused deadline)
act c slot fresh disk (made deadline owner) = write_owner deadline owner disk
act c slot fresh disk (refused deadline) =
    (disk, after_look deadline slot.now (inspect_lock disk slot.now c.lease_ms))
act c slot fresh disk (saw_stale deadline) = (none, trying deadline)
act c slot fresh disk (holding owner) = (
  disk,
  if valid_for owner.token slot.now (owner_in disk)
      then operating owner
      else releasing owner lock_lost,
)
act c slot fresh disk (operating owner) = (
  disk,
  if slot.throws
      then releasing owner operation_threw
      else releasing owner
          (if valid_for owner.token slot.now (owner_in disk) then returned else lock_lost),
)
act c slot fresh disk (releasing owner outcome) =
    (disk, if owned_by owner.token (owner_in disk) then removing owner outcome else ended outcome)
act c slot fresh disk (removing owner outcome) = (none, ended outcome)
act c slot fresh disk (ended outcome) = (disk, ended outcome)

abbrev pub set_process : ℕ → Process → (ℕ → Process) → ℕ → Process
set_process i p processes j = if j == i then p else processes j

unfoldable pub step : Settings → Slot → World → World
unfolding act
step c slot w =
    let after = act c slot w.next_token w.disk (w.processes slot.index) in
    record {
      disk = after.0;
      processes = set_process slot.index after.1 w.processes;
      next_token = w.next_token + 1;
    }

-- The processes' steps in any order.
pub run : Settings → List Slot → World → World
unfolding step
run c [] w = w
run c (slot ∷ slots) w = run c slots (step c slot w)
