-- ===== src/Registry/Tests.antt =====
-- The registry of a tenant with one backup, and its operations when every write succeeds and when one fails.
use basitclaw.Common.{
  Result, Option, map, ◌≡◌, refl, String, Bool, true, false, none, some, List, [], ◌∷◌, ok, err,
  arith,
}
use basitclaw.Common.Text.{
  is_space, is_tenant_code, trim_text, trim, trim_start, with_line_end, is_safe, is_subject_code,
  is_alphanumeric, utf16_length,
}
use basitclaw.Ledger.{
  Ledger, Event, Unsigned, Input, empty_ledger, sign, append, verify, verify_events, export_tenant,
  replace_tenant, is_identifier, rollback_to, checkpoint, import_tenant, continues,
}
use basitclaw.Ledger.Metadata.{object, end, sanitise}
use basitclaw.AuditService.{State, append_text, without_angles}
use basitclaw.Backups.{
  Envelopes, Primary, Directory, Manifest, manual, new_manifest, empty_directory, create, prune,
  add_backup, remove, list_backups, next_order, load,
}
use basitclaw.Registry.{
  Snapshot, Error, World, Write, restored_event, backup_event, persistence_unavailable,
  validate_actor, validate_reason, load_snapshot, open_service, for_tenant, service_or_open,
  persist_state, append_event, append_and_persist, append_operational_event,
}
use basitclaw.Registry.Recovery.{
  RestoreInput, Restored, restore_tenant_backup, restore_confirmed, restore_now,
  replace_or_put_back, put_back, replace_by, replace_events, write_encrypted, read_encrypted,
  create_tenant_backup, make_backup, record_backup, load_backup, expects, trimmed_line,
}
use basitclaw.Registry.Rules.{Post}
use basitclaw.Backups.Deleting.{ids, IsDistinct}
use basitclaw.Registry.Keeping.{Keeps}
use basitclaw.Registry.BackingUp.{IsNewest}
use basitclaw.Registry.NewestBackup.{Leaves, reaches_files, create_tenant_backup-newest}
use basitclaw.Common.Text.{contains}
use basitclaw.Registry.Restores.{IsAnswered, IsRefused, restore_tenant_backup-whole}

abbrev hash_event : Unsigned → String
hash_event u = u.action

abbrev itself : String → String
itself t = t

abbrev input_for : String → Input
input_for action = record {
  tenant_id = "acme";
  actor = "alice";
  action = action;
  entity_type = "finding";
  entity_id = "FND-1";
  metadata = object end;
}

abbrev first_event : Event
first_event = sign hash_event empty_ledger (input_for "opened") 10 (object end)

abbrev one_event : Ledger
one_event = record { events = first_event ∷ []; imported_tenants = "acme" ∷ [] }

abbrev second_event : Event
second_event = sign hash_event one_event (input_for "closed") 20 (object end)

abbrev two_events : Ledger
two_events = record { events = first_event ∷ second_event ∷ []; imported_tenants = "acme" ∷ [] }

abbrev empty_state : State
empty_state = record { engagements = []; findings = [] }

abbrev backed_up : Snapshot
backed_up = record { saved_at = 15; state = empty_state; governance_events = first_event ∷ [] }

-- Every envelope is that of the snapshot that was backed up.
abbrev store : Envelopes Snapshot
store = record { serialize = λ x. "envelope\n"; inspect_encrypted = λ t. some backed_up }

abbrev opened_as : String → Primary
opened_as t = record { serialized = t; written_at = 15; key_id = "k1" }

abbrev one_backup : Directory
one_backup =
    (create itself 5 true (some (opened_as "envelope\n")) 15 "BAK-1" manual empty_directory).0

abbrev world : World
world = record {
  service = some empty_state;
  ledger = two_events;
  file = some "envelope\n";
  backups = one_backup;
}

abbrev all_work : Write → Bool
all_work write = true

-- The snapshot with the restore's event cannot be written.
abbrev last_fails : Write → Bool
last_fails restored_event = false
last_fails write = true

abbrev request : RestoreInput
request = record {
  backup_id = "BAK-1";
  actor = "alice";
  reason = "restore of the morning";
  expected_head_hash = some (some "closed");
  confirmation = "RESTORE BAK-1";
  dry_run = false;
}

restore_tenant_backup-whole_example :
    Post
      (λ (r : Restored) v.
        IsAnswered "acme" hash_event store empty_state last_fails itself opened_as 5 request 30
          world v)
      (λ e v.
        IsRefused "acme" hash_event store empty_state last_fails itself opened_as 5 request world e
          v)
      (restore_tenant_backup hash_event itself store opened_as empty_state "acme" 5 last_fails
        request 30 "BAK-2" world)
restore_tenant_backup-whole_example =
    restore_tenant_backup-whole "acme" hash_event store empty_state last_fails itself opened_as 5
      request 30 "BAK-2" world empty_state refl

abbrev outcome : {A : Type 0} → Result Error A → Option Error
outcome (ok a) = none
outcome (err e) = some e

-- The error, if there is one, and the actions of the tenant's events.
abbrev summary : {A : Type 0} → Result Error A × World → Option Error × List String
summary (r, w) = (outcome r, map (λ (event : Event). event.unsigned.action) w.ledger.events)

abbrev restore : (Write → Bool) → Result Error Restored × World
restore works =
    restore_tenant_backup hash_event itself store opened_as empty_state "acme" 5 works request 30
      "BAK-2" world

restore_returns : summary (restore all_work) ≡ (none, "opened" ∷ "backup.restored" ∷ [])
unfolding restore_tenant_backup validate_actor is_identifier trim_text validate_reason utf16_length
    without_angles for_tenant expects verify sign load_backup load create prune add_backup
    new_manifest with_line_end append_text list_backups next_order remove is_alphanumeric is_safe
    is_space is_subject_code is_tenant_code trim trim_start sanitise append checkpoint export_tenant
    import_tenant replace_tenant rollback_to verify_events create_tenant_backup make_backup put_back
    read_encrypted record_backup replace_by replace_events replace_or_put_back restore_confirmed
    restore_now trimmed_line write_encrypted append_and_persist append_event
    append_operational_event load_snapshot open_service persist_state service_or_open continues
restore_returns = refl

restore_undone :
    summary (restore last_fails)
    ≡ (some persistence_unavailable, "opened" ∷ "closed" ∷ "backup.created" ∷ [])
unfolding restore_tenant_backup validate_actor is_identifier trim_text validate_reason utf16_length
    without_angles for_tenant expects verify sign load_backup load create prune add_backup
    new_manifest with_line_end append_text list_backups next_order remove is_alphanumeric is_safe
    is_space is_subject_code is_tenant_code trim trim_start sanitise append checkpoint export_tenant
    import_tenant replace_tenant rollback_to verify_events create_tenant_backup make_backup put_back
    read_encrypted record_backup replace_by replace_events replace_or_put_back restore_confirmed
    restore_now trimmed_line write_encrypted append_and_persist append_event
    append_operational_event load_snapshot open_service persist_state service_or_open continues
restore_undone = refl

-- The backup's event cannot be written.
abbrev event_fails : Write → Bool
event_fails backup_event = false
event_fails write = true

abbrev present : Envelopes Snapshot
present = record {
  serialize = λ x. "envelope\n";
  inspect_encrypted = λ t. some (record {
    saved_at = 30;
    state = empty_state;
    governance_events = first_event ∷ second_event ∷ [];
  });
}

second_is_fresh : contains "BAK-2" (ids (list_backups one_backup)) ≡ false
unfolding create prune add_backup remove list_backups new_manifest next_order
second_is_fresh = refl

one_backup-IsDistinct : IsDistinct (list_backups one_backup)
unfolding create prune add_backup remove list_backups new_manifest next_order
one_backup-IsDistinct = (refl, tt)

ends_once : with_line_end "envelope\n" ≡ "envelope\n"
unfolding with_line_end
ends_once = refl

create_tenant_backup-newest_example :
    Post
      (λ (m : Manifest) v.
        ((event_fails backup_event ≡ true)
          × (m.backup_id ≡ "BAK-2")
          × IsNewest "acme" hash_event present empty_state event_fails itself opened_as 1 one_backup
              (record {
                saved_at = 30;
                state = empty_state;
                governance_events = export_tenant "acme" two_events;
              })
              m
              v.backups)
        × Keeps "acme" world v)
      (λ _ v.
        Leaves "acme" hash_event present empty_state event_fails itself opened_as 1
          (reaches_files "acme" hash_event present empty_state event_fails itself opened_as 1
            "alice" "before the audit")
          (list_backups one_backup)
          v
        × Keeps "acme" world v)
      (create_tenant_backup hash_event itself present opened_as empty_state "acme" 1 event_fails
        "alice" "before the audit" manual 30 "BAK-2" world)
unfolding export_tenant sign
create_tenant_backup-newest_example =
    create_tenant_backup-newest "acme" hash_event present empty_state event_fails itself opened_as 1
      manual 30 "BAK-2" empty_state world refl second_is_fresh one_backup-IsDistinct (omega arith)
      refl ends_once refl "alice" "before the audit"

-- Where one backup is retained, none is left.
the_only_backup_is_lost :
    list_backups
      (create_tenant_backup hash_event itself present opened_as empty_state "acme" 1 event_fails
        "alice" "before the audit" manual 30 "BAK-2" world).1.backups
    ≡ []
unfolding restore_tenant_backup validate_actor is_identifier trim_text validate_reason utf16_length
    without_angles for_tenant expects verify sign load_backup load create prune add_backup
    new_manifest with_line_end append_text list_backups next_order remove is_alphanumeric is_safe
    is_space is_subject_code is_tenant_code trim trim_start sanitise append checkpoint export_tenant
    import_tenant replace_tenant rollback_to verify_events create_tenant_backup make_backup put_back
    read_encrypted record_backup replace_by replace_events replace_or_put_back restore_confirmed
    restore_now trimmed_line write_encrypted append_and_persist append_event
    append_operational_event load_snapshot open_service persist_state service_or_open continues
the_only_backup_is_lost = refl

-- With every write done the backup is made.
backup_returns :
    outcome
      (create_tenant_backup hash_event itself present opened_as empty_state "acme" 1 all_work
        "alice" "before the audit" manual 30 "BAK-2" world).0
    ≡ none
unfolding restore_tenant_backup validate_actor is_identifier trim_text validate_reason utf16_length
    without_angles for_tenant expects verify sign load_backup load create prune add_backup
    new_manifest with_line_end append_text list_backups next_order remove is_alphanumeric is_safe
    is_space is_subject_code is_tenant_code trim trim_start sanitise append checkpoint export_tenant
    import_tenant replace_tenant rollback_to verify_events create_tenant_backup make_backup put_back
    read_encrypted record_backup replace_by replace_events replace_or_put_back restore_confirmed
    restore_now trimmed_line write_encrypted append_and_persist append_event
    append_operational_event load_snapshot open_service persist_state service_or_open continues
backup_returns = refl
