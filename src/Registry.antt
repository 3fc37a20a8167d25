-- ===== src/Registry.antt =====
-- services/workforceAuditRegistry.js: one tenant's service with what keeps it: the ledger that the tenants
-- share, the encrypted snapshot on disk and the tenant's backups. This module has the state and the frame
-- of its operations; Recovery has backups and restores. Replication is disabled, as it is by default.
pub mod Recovery
pub mod Rules
pub mod Keeping
pub mod Restoring
pub mod AllOrNothing
pub mod Restores
pub mod BackingUp
pub mod NewestBackup
mod Tests
use basitclaw.Common.{
  ℕ, ◌+◌, String, Bool, true, false, ◌&&◌, Option, none, some, List, [], ◌∷◌, leb, if◌then◌else◌,
  Result, ok, err,
}
use basitclaw.Common.Text.{trim_text, with_line_end, utf16_length}
use basitclaw.Ledger.{
  Ledger, Event, Unsigned, Input, is_identifier, append, checkpoint, rollback_to, export_tenant,
  import_tenant,
}
use basitclaw.Ledger
use basitclaw.AuditService.{State, without_angles}
use basitclaw.Backups.{Envelopes, Directory, Primary}
use basitclaw.Backups

-- The snapshot that is saved. The store binds it to the tenant.
pub record Snapshot : Type 0 where
  pub saved_at : ℕ
  pub state : State
  pub governance_events : List Event

pub data Error : Type 0 where
  -- with the field that is at fault
  validation : String → Error
  persistence_unavailable recovery_conflict : Error
  ledger_refused : Ledger.Error → Error
  backup_failed : Backups.Error → Error
  -- with the error of the restore
  rollback_failed : Error → Error

-- `service` is none until the tenant is first asked for; `file` is the snapshot on disk.
pub record World : Type 0 where
  pub service : Option State
  pub ledger : Ledger
  pub file : Option String
  pub backups : Directory

-- The writes to disk that an operation makes, any of which may fail.
pub data Write : Type 0 where
  before_backup backup_files backup_event restored_envelope restored_event previous_envelope : Write

-- An operation: its outcome, and the world it leaves, which it leaves too when it throws.
abbrev pub M : Type 0 → Type 0
M A = World → Result Error A × World

abbrev pub return : {A : Type 0} → A → M A
return a w = (ok a, w)

abbrev pub throw : {A : Type 0} → Error → M A
throw e w = (err e, w)

-- The rest of the operation on what the first part came to.
abbrev pub then_run : {A B : Type 0} → Result Error A × World → (A → M B) → Result Error B × World
then_run (err e, w) rest = (err e, w)
then_run (ok a, w) rest = rest a w

abbrev pub ◌>>=◌ : {A B : Type 0} → M A → (A → M B) → M B
◌>>=◌ m rest w = then_run (m w) rest

abbrev pub ◌>>◌ : {B : Type 0} → M (Unit {0}) → M B → M B
m >> rest = m >>= λ _. rest

infixl 5 ◌>>=◌ ◌>>◌
-- A check, or a call that does not change the world.
abbrev pub check : {A : Type 0} → Result Error A → M A
check r w = (r, w)

-- catch (error) { undo; throw error; }
abbrev pub caught : {A : Type 0} → (World → World) → Result Error A × World → Result Error A × World
caught undo (err e, w) = (err e, undo w)
caught undo (ok a, w) = (ok a, w)

abbrev pub get : M World
get w = (ok w, w)

unfoldable pub validate_actor : String → Result Error String
validate_actor value =
    let actor = trim_text value in
    if is_identifier actor then ok actor else err (validation "actor")

unfoldable pub validate_reason : String → Result Error String
validate_reason value =
    let reason = without_angles (trim_text value) in
    if leb 10 (utf16_length reason) && leb (utf16_length reason) 500
    then ok reason
    else err (validation "reason")

module _ (hash_event : Unsigned → String) (store : Envelopes Snapshot) (seed : State)
    (tenant : String) (works : Write → Bool) where
  -- store.load
  unfoldable pub load_snapshot : Option String → Result Error (Option Snapshot)
  load_snapshot none = ok none
  load_snapshot (some text) = elim (store.inspect_encrypted text) [
    | none ↦ err persistence_unavailable
    | some s ↦ ok (some s)
  ]

  abbrev pub state_of : Option Snapshot → State
  state_of none = seed
  state_of (some x) = x.state

  abbrev pub events_of : Option Snapshot → List Event
  events_of none = []
  events_of (some x) = x.governance_events

  -- The tenant's service and events as its first call finds them on disk.
  unfoldable pub open_service : Option Snapshot → M State
  open_service found w = elim (import_tenant hash_event tenant (events_of found) w.ledger) [
    | err e ↦ (err (ledger_refused e), w)
    | ok l ↦ (ok (state_of found), record w { service = some (state_of found); ledger = l })
  ]

  unfoldable pub service_or_open : Option State → M State
  unfolding load_snapshot open_service
  service_or_open (some s) w = (ok s, w)
  service_or_open none w = (check (load_snapshot w.file) >>= open_service) w

  unfoldable pub for_tenant : M State
  unfolding service_or_open
  for_tenant w = service_or_open w.service w

  -- persistState
  unfoldable pub persist_state : Write → State → ℕ → M (Unit {0})
  persist_state write s now w =
      if works write
      then (
        ok tt,
        record w {
          file = some (
              store.serialize (record {
                saved_at = now;
                state = s;
                governance_events = export_tenant tenant w.ledger;
              }));
        },
      )
      else (err persistence_unavailable, w)

  abbrev pub roll_back : ℕ → World → World
  roll_back n w = record w { ledger = rollback_to tenant n w.ledger }

  unfoldable pub append_event : Input → ℕ → M Event
  append_event input now w = elim (append hash_event w.ledger input now) [
    | err e ↦ (err (ledger_refused e), w)
    | ok (l, event) ↦ (ok event, record w { ledger = l })
  ]

  -- The block of `appendOperationalEvent` that is undone when it throws.
  unfoldable pub append_and_persist : Write → Input → State → ℕ → M Event
  unfolding persist_state append_event
  append_and_persist write input s now w =
      caught (roll_back (checkpoint tenant w.ledger))
        ((do event ← append_event input now; persist_state write s now; return event) w)

  unfoldable pub append_operational_event : Write → Input → ℕ → M Event
  unfolding for_tenant append_and_persist
  append_operational_event write input now = do s ← for_tenant; append_and_persist write input s now
