-- ===== src/Registry/Restores.antt =====
-- services/workforceAuditRegistry.js: what `restoreTenantBackup` comes to, when it returns and when it throws.
use basitclaw.Common.{
  ℕ, ◌≡◌, refl, sym, subst, ◌∙◌, String, Bool, true, false, some, Result, ok, err, Bool-cases, inl,
  inr, ◌⊎◌, length, if◌then◌else◌, guard, str_eq, eq_iff,
}
use basitclaw.Ledger.{Unsigned, export_tenant, verify}
use basitclaw.AuditService.{State, append_text}
use basitclaw.Backups.{Envelopes, Primary, safety, Loaded}
use basitclaw.Registry.{
  Snapshot, Error, recovery_conflict, World, Write, M, return, then_run, check, for_tenant,
  validate_actor, validate_reason,
}
use basitclaw.Registry.Recovery.{
  RestoreInput, Restored, preview, expects, read_encrypted, replace_or_put_back,
  create_tenant_backup, load_backup, restore_now, restore_confirmed, restore_tenant_backup,
}
use basitclaw.Registry.Rules.{Post, Post-then_run, Post-weaken}
use basitclaw.Registry.Keeping.{Keeps, for_tenant-opened, create_tenant_backup-IsKeeping}
use basitclaw.Registry.AllOrNothing.{IsRestoredBy, IsPutBack, IsUndone, replace_or_put_back-Post}

-- A check changes nothing, and what it passes on is its result.
Post-checked :
    {A : Type 0} (r : Result Error A) (w : World)
    → Post (λ a v. (r ≡ ok a) × (v ≡ w)) (λ _ v. v ≡ w) (check r w)
Post-checked (ok a) w = (refl, refl)
Post-checked (err e) w = refl

guard_passed : (test : Bool) (e : Error) → guard test e ≡ ok tt → test ≡ true
guard_passed true e h = refl
guard_passed false e h = cc

module _ (tenant : String) (hash_event : Unsigned → String) (store : Envelopes Snapshot)
    (seed : State) (works : Write → Bool) (sha256 : String → String) (opened_as : String → Primary)
    (retention : ℕ) where
  abbrev pub Undone : World → Error → World → Type 0
  Undone w e v =
      IsUndone tenant hash_event store seed works sha256 opened_as retention (λ v. Keeps tenant w v)
        e v

  -- The rest of an operation once the service is open.
  for_tenant-then_run :
      {A : Type 0} (Q : A → World → Type 0) (X : Error → World → Type 0) (rest : State → M A)
      (w : World) (s : State)
      → w.service ≡ some s
      → Post Q X (rest s w)
      → Post Q X (then_run (for_tenant hash_event store seed tenant works w) rest)
  for_tenant-then_run Q X rest w s opened h =
      subst (λ r. Post Q X (then_run r rest))
        (sym (for_tenant-opened tenant hash_event store seed works w s opened)) h

  IsRestored-after :
      (b : Loaded sha256 store) (now : ℕ) (w v u : World)
      → Keeps tenant w v
      → IsRestoredBy tenant hash_event store seed works sha256 opened_as retention b now v u
      → IsRestoredBy tenant hash_event store seed works sha256 opened_as retention b now w u
  IsRestored-after b now w v u kept r = record {
    restored_service = r.restored_service;
    event = r.event;
    restored_events = r.restored_events;
    valid = r.valid;
    saved = r.saved;
    others_kept = λ t d. r.others_kept t d ∙ kept.same_others t d;
  }

  IsPutBack-Keeps :
      (s : State) (w v u : World)
      → w.service ≡ some s
      → Keeps tenant w v
      → IsPutBack tenant hash_event store seed works sha256 opened_as retention
          (export_tenant tenant v.ledger)
          s
          v
          u
      → Keeps tenant w u
  IsPutBack-Keeps s w v u opened kept g = record {
    same_service = g.0 ∙ sym opened;
    same_others = λ t d. g.2 t d ∙ kept.same_others t d;
    later = kept.later;
    grown = g.1 ∙ kept.grown;
  }

  restore_now-Post :
      (input : RestoreInput) (actor reason : String) (now : ℕ) (safety_id : String)
      (b : Loaded sha256 store) (w : World) (s : State)
      → w.service ≡ some s
      → Post
          (λ _ v.
            IsRestoredBy tenant hash_event store seed works sha256 opened_as retention b now w v)
          (λ e v. Undone w e v)
          (restore_now hash_event sha256 store opened_as seed tenant retention works input actor
            reason now safety_id b w)
  unfolding restore_now
  restore_now-Post input actor reason now safety_id b w s opened =
      let why = append_text "Pre-restore safety copy: " reason in
      Post-then_run (λ _ v. Keeps tenant w v) _ _
        (create_tenant_backup hash_event sha256 store opened_as seed tenant retention works actor
          why safety now safety_id w)
        _
        (Post-weaken _ _ _ _
          (create_tenant_backup hash_event sha256 store opened_as seed tenant retention works actor
            why safety now safety_id w)
          (create_tenant_backup-IsKeeping tenant hash_event store seed works sha256 opened_as
            retention actor why safety now safety_id w s opened)
          (λ _ v kept. kept) (λ _ v kept. inl kept))
        (λ safety_backup v kept. for_tenant-then_run _ _ _ v s (kept.same_service ∙ opened) (
          Post-then_run (λ _ u. u ≡ v) _ _
            (check
              (read_encrypted hash_event sha256 store opened_as seed tenant retention works v.file)
              v)
            _
            (Post-weaken _ _ _ _
              (check
                (read_encrypted hash_event sha256 store opened_as seed tenant retention works
                  v.file)
                v)
              (Post-checked
                (read_encrypted hash_event sha256 store opened_as seed tenant retention works
                  v.file)
                v)
              (λ _ u h. h.1) (λ _ u same. inl (subst (Keeps tenant w) (sym same) kept)))
            (λ previous u same.
              let kept' : Keeps tenant w u = subst (Keeps tenant w) (sym same) kept in
              Post-weaken _ _ _ _
                (replace_or_put_back hash_event sha256 store opened_as seed tenant retention works
                  actor reason input.backup_id safety_backup now b s previous u)
                (replace_or_put_back-Post tenant hash_event store seed works sha256 opened_as
                  retention actor reason input.backup_id safety_backup now b s previous u)
                (λ _ x r. IsRestored-after b now w u x kept' r)
                (λ _ x r. elim r [
                  | inl undone ↦ inl (IsPutBack-Keeps s w u x opened kept' undone)
                  | inr failed ↦ inr failed
                ]))))

  -- What an answer says: the backup was loaded and the head is the one expected; a dry run changed nothing,
  -- and otherwise the restore was confirmed and the backup is in place.
  abbrev pub IsAnswered : RestoreInput → ℕ → World → World → Type 0
  IsAnswered input now w v =
      (b : Loaded sha256 store) × (load_backup hash_event sha256 store opened_as seed tenant
          retention works input.backup_id w.backups
        ≡ ok b)
      × (expects input.expected_head_hash (verify hash_event tenant w.ledger).head_hash ≡ true)
      × ((input.dry_run ≡ true) × (v ≡ w)
          ⊎ (input.dry_run ≡ false)
            × (input.confirmation ≡ append_text "RESTORE " input.backup_id)
            × IsRestoredBy tenant hash_event store seed works sha256 opened_as retention b now w v)

  -- What an error says: nothing was changed, or it was no dry run, and what was begun is undone.
  abbrev pub IsRefused : RestoreInput → World → Error → World → Type 0
  IsRefused input w e v = (v ≡ w) ⊎ (input.dry_run ≡ false) × Undone w e v

  restore_confirmed-Post :
      (input : RestoreInput) (actor reason : String) (now : ℕ) (safety_id : String)
      (b : Loaded sha256 store) (w : World) (s : State)
      → w.service ≡ some s
      → Post
          (λ _ v.
            (input.confirmation ≡ append_text "RESTORE " input.backup_id)
            × IsRestoredBy tenant hash_event store seed works sha256 opened_as retention b now w v)
          (λ e v. (v ≡ w) ⊎ Undone w e v)
          (restore_confirmed hash_event sha256 store opened_as seed tenant retention works input
            actor reason now safety_id b w)
  unfolding restore_confirmed
  restore_confirmed-Post input actor reason now safety_id b w s opened =
      let wanted = append_text "RESTORE " input.backup_id in
      elim (Bool-cases (str_eq input.confirmation wanted)) [
        | inr wrong ↦ rw (wrong, guard) (inl refl)
        | inl right ↦
            rw (right, guard)
              (Post-weaken _ _ _ _
                (restore_now hash_event sha256 store opened_as seed tenant retention works input
                  actor reason now safety_id b w)
                (restore_now-Post input actor reason now safety_id b w s opened)
                (λ _ v r. ((eq_iff input.confirmation wanted).0 right, r)) (λ _ v r. inr r))
      ]

  -- The last step, by whether it is a dry run.
  restore_or_preview-Post :
      (input : RestoreInput) (actor reason : String) (now : ℕ) (safety_id : String)
      (b : Loaded sha256 store) (shown : Restored) (w : World) (s : State) (dry : Bool)
      → input.dry_run ≡ dry
      → w.service ≡ some s
      → load_backup hash_event sha256 store opened_as seed tenant retention works input.backup_id
          w.backups
        ≡ ok b
      → expects input.expected_head_hash (verify hash_event tenant w.ledger).head_hash ≡ true
      → Post
          (λ _ v. IsAnswered input now w v)
          (λ e v. IsRefused input w e v)
          ((if dry
              then return shown
              else restore_confirmed hash_event sha256 store opened_as seed tenant retention works
                  input actor reason now safety_id b)
            w)
  restore_or_preview-Post input actor reason now safety_id b shown w s true dry opened found
        expected =
      (b, found, expected, inl (dry, refl))
  restore_or_preview-Post input actor reason now safety_id b shown w s false wet opened found
        expected =
      Post-weaken _ _ _ (λ e v. IsRefused input w e v)
        (restore_confirmed hash_event sha256 store opened_as seed tenant retention works input actor
          reason now safety_id b w)
        (restore_confirmed-Post input actor reason now safety_id b w s opened)
        (λ _ v r. (b, found, expected, inr (wet, r.0, r.1)))
        (λ _ v r. elim r [ inl same ↦ inl same | inr undone ↦ inr (wet, undone) ])

  -- The part of a check that comes before anything is changed.
  checked-then_run :
      {A B : Type 0} (Q : B → World → Type 0) (input : RestoreInput) (r : Result Error A)
      (rest : A → M B) (w : World)
      → ((a : A) → r ≡ ok a → Post Q (λ e v. IsRefused input w e v) (rest a w))
      → Post Q (λ e v. IsRefused input w e v) (then_run (check r w) rest)
  checked-then_run Q input (ok a) rest w h = h a refl
  checked-then_run Q input (err e) rest w h = inl refl

  -- Of restoreTenantBackup once the tenant's service is open. When it returns: the backup was loaded, the
  -- expected head was the ledger's; a dry run changed nothing, and otherwise the request was confirmed,
  -- the service has the backup's state, the tenant's events are the backup's with one more, in a chain that
  -- verifies, the snapshot on disk has this state and these events, and the events of the others are as
  -- they were. When it throws: nothing was changed, or it was no dry run and then either the
  -- service and the events of the others are as they were, and the tenant's are those before, with
  -- perhaps later ones, or the error is that of a failed rollback.
  pub restore_tenant_backup-whole :
      (input : RestoreInput) (now : ℕ) (safety_id : String) (w : World) (s : State)
      → w.service ≡ some s
      → Post
          (λ _ v. IsAnswered input now w v)
          (λ e v. IsRefused input w e v)
          (restore_tenant_backup hash_event sha256 store opened_as seed tenant retention works input
            now safety_id w)
  unfolding restore_tenant_backup
  restore_tenant_backup-whole input now safety_id w s opened =
      let current = verify hash_event tenant w.ledger in
      let asked = guard (expects input.expected_head_hash current.head_hash) recovery_conflict in
      checked-then_run _ input (validate_actor input.actor) _ w (λ actor _.
        checked-then_run _ input (validate_reason input.reason) _ w (λ reason _.
          for_tenant-then_run _ _ _ w s opened (
            checked-then_run _ input asked _ w (λ _ expected.
              checked-then_run _ input
                (load_backup hash_event sha256 store opened_as seed tenant retention works
                  input.backup_id w.backups)
                _ w
                (λ b found.
                  let shown : Restored =
                    preview b.manifest (length s.engagements) (length s.findings) current in
                  restore_or_preview-Post input actor reason now safety_id b shown w s input.dry_run
                    refl opened found (guard_passed _ _ expected))))))
