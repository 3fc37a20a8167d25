-- ===== src/Registry/NewestBackup.antt =====
-- services/workforceAuditRegistry.js, `createTenantBackup`: a backup holds the present snapshot, and a backup
-- that fails at its event costs an earlier one.
use basitclaw.Common.{
  ℕ, ◌-◌, ◌≤◌, ◌≡◌, refl, ap, sym, subst, ◌∙◌, String, Bool, true, false, ◌&&◌, some, List, Result,
  ok, err, inl, inr, ◌⊎◌, if◌then◌else◌, take,
}
use basitclaw.Common.Text.{contains, with_line_end}
use basitclaw.Ledger.{Unsigned}
use basitclaw.AuditService.{State}
use basitclaw.Backups.{Envelopes, Primary, Manifest, Kind, Directory, list_backups}
use basitclaw.Backups.Deleting.{ids, IsDistinct}
use basitclaw.Registry.{
  Snapshot, Error, persistence_unavailable, World, Write, before_backup, backup_files, backup_event,
  validate_actor, validate_reason, M, then_run, ◌>>=◌, check, get, for_tenant, persist_state,
}
use basitclaw.Registry.Recovery.{read_encrypted, make_backup, record_backup, create_tenant_backup}
use basitclaw.Registry.Rules.{Post, Post-then_run, Post-weaken}
use basitclaw.Registry.Keeping.{Keeps, for_tenant-opened, create_tenant_backup-IsKeeping}
use basitclaw.Registry.BackingUp.{saved, IsNewest, record_backup-backups, make_backup-backups}

abbrev pub is_ok : {A : Type 0} → Result Error A → Bool
is_ok (ok a) = true
is_ok (err e) = false

Post-both :
    {A : Type 0} (P Q : A → World → Type 0) (X Y : Error → World → Type 0)
    (r : Result Error A × World)
    → Post P X r
    → Post Q Y r
    → Post (λ a w. P a w × Q a w) (λ e w. X e w × Y e w) r
Post-both P Q X Y (ok a, w) p q = (p, q)
Post-both P Q X Y (err e, w) p q = (p, q)

module _ (tenant : String) (hash_event : Unsigned → String) (store : Envelopes Snapshot)
    (seed : State) (works : Write → Bool) (sha256 : String → String) (opened_as : String → Primary)
    (retention : ℕ) where
  abbrev pub IsNewestOf : Directory → Snapshot → Manifest → Directory → Type 0
  IsNewestOf d x m after =
      IsNewest tenant hash_event store seed works sha256 opened_as retention d x m after

  -- The backup's files are written once the arguments are checked and the snapshot is saved.
  abbrev pub reaches_files : String → String → Bool
  reaches_files actor reason =
      is_ok (validate_actor actor)
      && is_ok (validate_reason reason)
      && works before_backup
      && works backup_files

  -- What a backup that fails leaves: every earlier backup where its own files were not written, and
  -- otherwise the latest, one fewer than are retained.
  abbrev pub Leaves : Bool → List Manifest → World → Type 0
  Leaves reached earlier v =
      (reached ≡ false) × (list_backups v.backups ≡ earlier)
      ⊎ (reached ≡ true) × (list_backups v.backups ≡ take (retention - 1) earlier)

  module _ (kind : Kind) (now : ℕ) (id : String) (s : State) (w : World)
      (opened : w.service ≡ some s) (fresh : contains id (ids (list_backups w.backups)) ≡ false)
      (distinct : IsDistinct (list_backups w.backups)) (positive : 1 ≤ retention) where
    -- The snapshot that is saved first, and the text of its envelope.
    abbrev pub x : Snapshot
    x = saved tenant hash_event store seed works sha256 opened_as retention s now w

    abbrev pub text : String
    text = store.serialize x

    abbrev w' : World
    w' = record w { file = some text }

    module _ (as_written : (opened_as text).serialized ≡ text) (ended : with_line_end text ≡ text)
        (readable : store.inspect_encrypted text ≡ some x) where
      back_up-newest :
          (actor reason : String)
          → Post
              (λ m u.
                (works backup_event ≡ true)
                × (m.backup_id ≡ id)
                × IsNewestOf w.backups x m u.backups)
              (λ _ u. Leaves (works backup_files) (list_backups w.backups) u)
              ((make_backup hash_event sha256 store opened_as seed tenant retention works
                    (some (opened_as text))
                    now
                    id
                    kind
                  >>= λ made.
                      record_backup hash_event sha256 store opened_as seed tenant retention works
                        actor reason kind now made)
                w')
      back_up-newest actor reason =
          let earlier = list_backups w.backups in
          Post-then_run
            (λ (made : Manifest × List String) u.
              (works backup_files ≡ true)
              × IsNewestOf w.backups x made.0 u.backups
              × (made.0.backup_id ≡ id)
              × (u.service ≡ w.service))
            (λ (m : Manifest) u.
              (works backup_event ≡ true) × (m.backup_id ≡ id) × IsNewestOf w.backups x m u.backups)
            (λ _ u. Leaves (works backup_files) earlier u)
            (make_backup hash_event sha256 store opened_as seed tenant retention works
              (some (opened_as text)) now id kind w')
            _
            (Post-weaken _ _ _ _
              (make_backup hash_event sha256 store opened_as seed tenant retention works
                (some (opened_as text)) now id kind w')
              (make_backup-backups tenant hash_event store seed works sha256 opened_as retention
                (opened_as text) now id kind x w' fresh distinct positive as_written ended readable)
              (λ made u h. h) (λ _ u h. inl h))
            (λ made u h.
              let (written, newest, is, same) = h in
              Post-weaken _ _ _ _
                (record_backup hash_event sha256 store opened_as seed tenant retention works actor
                  reason kind now made u)
                (record_backup-backups tenant hash_event store seed works sha256 opened_as retention
                  actor reason kind now made.0 made.1 earlier u s (same ∙ opened)
                  (subst (λ (n : String). contains n (ids earlier) ≡ false) (sym is) fresh)
                  newest.0)
                (λ m y g.
                  let (recorded, m_is, backups_same) = g in
                  (
                    recorded,
                    ap (λ (k : Manifest). k.backup_id) m_is ∙ is,
                    subst (λ (k : Manifest). IsNewestOf w.backups x k y.backups) (sym m_is)
                        (subst (λ (e : Directory). IsNewestOf w.backups x made.0 e)
                          (sym backups_same) newest),
                  ))
                (λ _ y left. inr (written, left)))

      -- What follows the saving of the snapshot.
      abbrev back_up : String → String → Unit {0} → M Manifest
      back_up actor reason _ = get >>= λ (v : World).
          check
            (read_encrypted hash_event sha256 store opened_as seed tenant retention works v.file)
          >>= λ primary.
              make_backup hash_event sha256 store opened_as seed tenant retention works primary now
                id kind
              >>= λ made.
                  record_backup hash_event sha256 store opened_as seed tenant retention works actor
                    reason kind now made

      back_up-read :
          (actor reason : String)
          → Post
              (λ m u.
                (works backup_event ≡ true)
                × (m.backup_id ≡ id)
                × IsNewestOf w.backups x m u.backups)
              (λ _ u. Leaves (works backup_files) (list_backups w.backups) u)
              (back_up actor reason tt w')
      unfolding read_encrypted
      back_up-read actor reason = rw (readable, read_encrypted) (back_up-newest actor reason)

      save_and_back_up-newest :
          (actor reason : String) (b : Bool)
          → works before_backup ≡ b
          → Post
              (λ m u.
                (works backup_event ≡ true)
                × (m.backup_id ≡ id)
                × IsNewestOf w.backups x m u.backups)
              (λ _ u. Leaves (works before_backup && works backup_files) (list_backups w.backups) u)
              (then_run
                (if b then (ok tt, w') else (err persistence_unavailable, w))
                (back_up actor reason))
      save_and_back_up-newest actor reason true e =
          subst
            (λ (c : Bool).
              Post
                (λ m u.
                  (works backup_event ≡ true)
                  × (m.backup_id ≡ id)
                  × IsNewestOf w.backups x m u.backups)
                (λ _ u. Leaves (c && works backup_files) (list_backups w.backups) u)
                (back_up actor reason tt w'))
            (sym e) (back_up-read actor reason)
      save_and_back_up-newest actor reason false e =
          inl (ap (λ (c : Bool). c && works backup_files) e, refl)

      open_and_back_up-newest :
          (actor reason : String)
          → Post
              (λ m u.
                (works backup_event ≡ true)
                × (m.backup_id ≡ id)
                × IsNewestOf w.backups x m u.backups)
              (λ _ u. Leaves (works before_backup && works backup_files) (list_backups w.backups) u)
              ((for_tenant hash_event store seed tenant works >>= λ s'.
                  persist_state hash_event store seed tenant works before_backup s' now
                  >>= back_up actor reason)
                w)
      unfolding persist_state
      open_and_back_up-newest actor reason =
          subst
            (λ r.
              Post
                (λ m u.
                  (works backup_event ≡ true)
                  × (m.backup_id ≡ id)
                  × IsNewestOf w.backups x m u.backups)
                (λ _ u.
                  Leaves (works before_backup && works backup_files) (list_backups w.backups) u)
                (then_run r (λ s'.
                  persist_state hash_event store seed tenant works before_backup s' now
                  >>= back_up actor reason)))
            (sym (for_tenant-opened tenant hash_event store seed works w s opened))
            (save_and_back_up-newest actor reason (works before_backup) refl)

      check_and_back_up-newest :
          (actor reason : Result Error String)
          → Post
              (λ m u.
                (works backup_event ≡ true)
                × (m.backup_id ≡ id)
                × IsNewestOf w.backups x m u.backups)
              (λ _ u.
                Leaves
                  (is_ok actor && is_ok reason && works before_backup && works backup_files)
                  (list_backups w.backups)
                  u)
              ((check actor >>= λ safe_actor. check reason >>= λ safe_reason.
                  for_tenant hash_event store seed tenant works >>= λ s'.
                  persist_state hash_event store seed tenant works before_backup s' now
                  >>= back_up safe_actor safe_reason)
                w)
      check_and_back_up-newest (ok actor) (ok reason) = open_and_back_up-newest actor reason
      check_and_back_up-newest (ok actor) (err e) = inl (refl, refl)
      check_and_back_up-newest (err e) reason = inl (refl, refl)

      -- Of createTenantBackup once the tenant's service is open, with an id that no backup has, on backups
      -- without repetition, with room for at least one, when the saved snapshot's text is read back as
      -- it was written and can be inspected. When it returns, its event is on the disk, and the newest
      -- backup, under the id, holds the present state and the tenant's events, and before it are the
      -- latest of the earlier ones, as many as are retained. When it throws before the backup's files are
      -- written, the earlier backups are all there; when it throws after that, only the latest of them
      -- are, one fewer than are retained. In each case the service and the others' events stay, and the
      -- tenant's events are those before and perhaps later ones.
      pub create_tenant_backup-newest :
          (actor reason : String)
          → Post
              (λ m v.
                ((works backup_event ≡ true)
                  × (m.backup_id ≡ id)
                  × IsNewestOf w.backups x m v.backups)
                × Keeps tenant w v)
              (λ _ v.
                Leaves (reaches_files actor reason) (list_backups w.backups) v × Keeps tenant w v)
              (create_tenant_backup hash_event sha256 store opened_as seed tenant retention works
                actor reason kind now id w)
      unfolding create_tenant_backup
      create_tenant_backup-newest actor reason =
          Post-both
            (λ (m : Manifest) v.
              (works backup_event ≡ true) × (m.backup_id ≡ id) × IsNewestOf w.backups x m v.backups)
            (λ _ v. Keeps tenant w v)
            (λ _ v. Leaves (reaches_files actor reason) (list_backups w.backups) v)
            (λ _ v. Keeps tenant w v)
            (create_tenant_backup hash_event sha256 store opened_as seed tenant retention works
              actor reason kind now id w)
            (check_and_back_up-newest (validate_actor actor) (validate_reason reason))
            (create_tenant_backup-IsKeeping tenant hash_event store seed works sha256 opened_as
              retention actor reason kind now id w s opened)
