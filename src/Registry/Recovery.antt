-- ===== src/Registry/Recovery.antt =====
-- services/workforceAuditRegistry.js: backups of the tenant's snapshot, and their restore.
use basitclaw.Common.{
  ℕ, String, Bool, false, Option, none, some, List, [], ◌∷◌, if◌then◌else◌, str_eq, opt_eq, length,
  Result, ok, err, guard,
}
use basitclaw.Common.Text.{trim_text, with_line_end}
use basitclaw.Ledger.{
  Event, Unsigned, Input, Verification, verify, head_hash, export_tenant, replace_tenant,
}
use basitclaw.Ledger.Metadata.{Value, Items, text, null, array, nil, cons, object, field, end}
use basitclaw.AuditService.{State, append_text}
use basitclaw.Backups
use basitclaw.Backups.{
  Envelopes, Directory, Primary, Manifest, Kind, manual, scheduled, safety, Loaded, create, remove,
  load,
}
use basitclaw.Registry.{
  Snapshot, Error, validation, persistence_unavailable, recovery_conflict, ledger_refused,
  backup_failed, rollback_failed, World, Write, before_backup, backup_files, backup_event,
  restored_envelope, restored_event, previous_envelope, M, return, then_run, ◌>>=◌, ◌>>◌, check,
  caught, get, validate_actor, validate_reason, for_tenant, persist_state, append_event,
  append_operational_event,
}

abbrev kind_text : Kind → String
kind_text manual = "manual"
kind_text scheduled = "scheduled"
kind_text safety = "safety"

abbrev text_items : List String → Items
text_items [] = nil
text_items (s ∷ ss) = cons (text s) (text_items ss)

abbrev text_or_null : Option String → Value
text_or_null none = null
text_or_null (some s) = text s

-- writeEncrypted: `${text.trim()}\n`
unfoldable pub trimmed_line : String → String
trimmed_line t = with_line_end (trim_text t)

pub record RestoreInput : Type 0 where
  pub backup_id : String
  pub actor : String
  pub reason : String
  -- none where it is not given, and then `null` where the chain is empty
  pub expected_head_hash : Option (Option String)
  pub confirmation : String
  pub dry_run : Bool

pub data Restored : Type 0 where
  -- of a dry run: the backup, and the counts and the head that it would replace
  preview : Manifest → ℕ → ℕ → Verification → Restored
  -- the safety backup, and the counts and the chain that are there now
  restored : Manifest → ℕ → ℕ → Verification → Restored

unfoldable pub expects : Option (Option String) → Option String → Bool
expects none head = false
expects (some expected) head = opt_eq expected head

module _ (hash_event : Unsigned → String) (sha256 : String → String) (store : Envelopes Snapshot)
    (opened : String → Primary) (seed : State) (tenant : String) (retention : ℕ)
    (works : Write → Bool) where
  -- store.readEncrypted
  unfoldable pub read_encrypted : Option String → Result Error (Option Primary)
  read_encrypted none = ok none
  read_encrypted (some t) = elim (store.inspect_encrypted t) [
    | none ↦ err persistence_unavailable
    | some _ ↦ ok (some (opened t))
  ]

  unfoldable pub write_encrypted : Write → String → M (Unit {0})
  unfolding trimmed_line
  write_encrypted write t w = elim (store.inspect_encrypted t) [
    | none ↦ (err persistence_unavailable, w)
    | some _ ↦
        if works write
        then (ok tt, record w { file = some (trimmed_line t) })
        else (err persistence_unavailable, w)
  ]

  -- The outcome of recovery.create, with the directory that it leaves.
  abbrev pub placed :
      Directory × Result Backups.Error (Manifest × List String) → M (Manifest × List String)
  placed (d, err e) w = (err (backup_failed e), record w { backups = d })
  placed (d, ok made) w = (ok made, record w { backups = d })

  unfoldable pub make_backup : Option Primary → ℕ → String → Kind → M (Manifest × List String)
  make_backup primary now id kind w =
      placed (create sha256 retention (works backup_files) primary now id kind w.backups) w

  abbrev pub drop_backup : String → World → World
  drop_backup id w = record w { backups = (remove id w.backups).0 }

  abbrev pub backup_input : String → String → Kind → Manifest → List String → Input
  backup_input actor reason kind m expired = record {
    tenant_id = tenant;
    actor = actor;
    action = "backup.created";
    entity_type = "backup";
    entity_id = m.backup_id;
    metadata = object (
        field "kind" (text (kind_text kind)) (
          field "reason" (text reason) (
            field "checksumSha256" (text m.checksum) (
              field "keyId" (text m.key_id)
                (field "prunedBackupIds" (array (text_items expired)) end)))));
  }

  -- What follows the making of the backup: its event, without which it is removed.
  unfoldable pub record_backup : String → String → Kind → ℕ → Manifest × List String → M Manifest
  record_backup actor reason kind now (m, expired) w =
      then_run
        (caught (drop_backup m.backup_id) (
          append_operational_event hash_event store seed tenant works backup_event
            (backup_input actor reason kind m expired) now w))
        (λ _. return m)

  unfoldable pub create_tenant_backup : String → String → Kind → ℕ → String → M Manifest
  unfolding make_backup record_backup
  create_tenant_backup actor reason kind now id = do
    safe_actor ← check (validate_actor actor)
    safe_reason ← check (validate_reason reason)
    s ← for_tenant hash_event store seed tenant works
    persist_state hash_event store seed tenant works before_backup s now
    w ← get
    primary ← check (read_encrypted w.file)
    made ← make_backup primary now id kind
    record_backup safe_actor safe_reason kind now made

  unfoldable pub load_backup : String → Directory → Result Error (Loaded sha256 store)
  load_backup id d = elim (load sha256 store id d) [ err e ↦ err (backup_failed e) | ok b ↦ ok b ]

  unfoldable pub replace_events : List Event → M ℕ
  replace_events events w = elim (replace_tenant hash_event tenant events w.ledger) [
    | err e ↦ (err (ledger_refused e), w)
    | ok (l, n) ↦ (ok n, record w { ledger = l })
  ]

  abbrev pub set_service : State → M (Unit {0})
  set_service s w = (ok tt, record w { service = some s })

  abbrev pub restore_input :
      String → String → String → Manifest → Option String → Option String → Input
  restore_input actor reason id safety_backup before target = record {
    tenant_id = tenant;
    actor = actor;
    action = "backup.restored";
    entity_type = "backup";
    entity_id = id;
    metadata = object (
        field "reason" (text reason) (
          field "safetyBackupId" (text safety_backup.backup_id) (
            field "preRestoreGovernanceHeadHash" (text_or_null before)
              (field "restoredGovernanceHeadHash" (text_or_null target) end))));
  }

  -- The block that puts the backup in place of the present snapshot.
  unfoldable pub replace_by :
      String → String → String → Manifest → Option String → ℕ → Loaded sha256 store → M Restored
  unfolding write_encrypted replace_events
  replace_by actor reason id safety_backup before now b = do
    write_encrypted restored_envelope b.serialized
    _ ← replace_events b.snapshot.governance_events
    set_service b.snapshot.state
    w ← get
    _ ←
        append_event hash_event store seed tenant works
          (restore_input actor reason id safety_backup before
            (verify hash_event tenant w.ledger).head_hash)
          now
    persist_state hash_event store seed tenant works restored_event b.snapshot.state now
    w' ← get
    return (
        restored safety_backup (length b.snapshot.state.engagements)
          (length b.snapshot.state.findings) (verify hash_event tenant w'.ledger))

  -- The rollback of a restore that threw.
  unfoldable pub put_back : Option Primary → List Event → State → M (Unit {0})
  unfolding write_encrypted replace_events
  put_back previous events s = do
    elim previous [ none ↦ return tt | some p ↦ write_encrypted previous_envelope p.serialized ]
    _ ← replace_events events
    set_service s

  abbrev pub after_put_back :
      {A : Type 0} → Error → Result Error (Unit {0}) × World → Result Error A × World
  after_put_back e (err _, w) = (err (rollback_failed e), w)
  after_put_back e (ok _, w) = (err e, w)

  abbrev pub or_put_back :
      {A : Type 0} → M (Unit {0}) → Result Error A × World → Result Error A × World
  or_put_back undo (ok a, w) = (ok a, w)
  or_put_back undo (err e, w) = after_put_back e (undo w)

  -- A restore that is carried out, with the service `s` and the snapshot that it replaces.
  unfoldable pub replace_or_put_back :
      String
      → String
      → String
      → Manifest
      → ℕ
      → Loaded sha256 store
      → State
      → Option Primary
      → M Restored
  unfolding replace_by put_back
  replace_or_put_back actor reason id safety_backup now b s previous w =
      let events = export_tenant tenant w.ledger in
      or_put_back (put_back previous events s)
        (replace_by actor reason id safety_backup (head_hash events) now b w)

  unfoldable pub restore_now :
      RestoreInput → String → String → ℕ → String → Loaded sha256 store → M Restored
  restore_now input actor reason now safety_id b = do
    safety_backup ←
        create_tenant_backup actor (append_text "Pre-restore safety copy: " reason) safety now
          safety_id
    s ← for_tenant hash_event store seed tenant works
    w ← get
    previous ← check (read_encrypted w.file)
    replace_or_put_back actor reason input.backup_id safety_backup now b s previous

  -- The restore that is not a dry run.
  unfoldable pub restore_confirmed :
      RestoreInput → String → String → ℕ → String → Loaded sha256 store → M Restored
  unfolding restore_now
  restore_confirmed input actor reason now safety_id b = do
    check (
        guard (str_eq input.confirmation (append_text "RESTORE " input.backup_id))
          (validation "confirmation"))
    restore_now input actor reason now safety_id b

  -- `safety_id` is the id that the safety backup is given.
  unfoldable pub restore_tenant_backup : RestoreInput → ℕ → String → M Restored
  restore_tenant_backup input now safety_id = do
    actor ← check (validate_actor input.actor)
    reason ← check (validate_reason input.reason)
    s ← for_tenant hash_event store seed tenant works
    w ← get
    let current = verify hash_event tenant w.ledger
    check (guard (expects input.expected_head_hash current.head_hash) recovery_conflict)
    b ← check (load_backup input.backup_id w.backups)
    let shown = preview b.manifest (length s.engagements) (length s.findings) current
    if input.dry_run then return shown else restore_confirmed input actor reason now safety_id b
