-- ===== src/Registry/BackingUp.antt =====
-- services/workforceAuditRegistry.js, `createTenantBackup`: what the backup holds, and what is left of the
-- earlier ones.
use basitclaw.Common.{
  ℕ, ◌-◌, ◌≤◌, ◌≡◌, refl, ap, sym, subst, ◌∙◌, String, Bool, true, false, some, List, ◌∷◌, Result,
  ok, Bool-cases, Result-cases, inl, inr, take, not, filter,
}
use basitclaw.Common.Text.{contains, with_line_end}
use basitclaw.Ledger.{Event, Unsigned, Input, append, checkpoint, export_tenant}
use basitclaw.AuditService.{State}
use basitclaw.Backups.{
  Envelopes, Primary, Manifest, Kind, Directory, Loaded, create, load, remove, is_manifest,
  list_backups, new_manifest,
}
use basitclaw.Backups
use basitclaw.Backups.Deleting.{
  ids, IsDistinct, list_backups-remove, filter-take_newest, filter_absent,
}
use basitclaw.Backups.Retention.{create-load}
use basitclaw.Registry.{
  Snapshot, Error, World, Write, backup_files, backup_event, then_run, caught, persist_state,
  append_event, append_and_persist, append_operational_event, roll_back,
}
use basitclaw.Registry.Recovery.{placed, make_backup, drop_backup, backup_input, record_backup}
use basitclaw.Registry.Rules.{Post, Post-then_run, Post-weaken, Post-caught}
use basitclaw.Registry.Keeping.{for_tenant-opened}

module _ (tenant : String) (hash_event : Unsigned → String) (store : Envelopes Snapshot)
    (seed : State) (works : Write → Bool) where
  append_event-backups :
      (input : Input) (now : ℕ) (w : World)
      → Post
          (λ _ v. v.backups ≡ w.backups)
          (λ _ v. v.backups ≡ w.backups)
          (append_event hash_event store seed tenant works input now w)
  unfolding append_event
  append_event-backups input now w = elim (Result-cases (append hash_event w.ledger input now)) [
    | inl ((l, event), done) ↦ rw (done, append_event) refl
    | inr (e, refused) ↦ rw (refused, append_event) refl
  ]

  pub persist_state-backups :
      (write : Write) (s : State) (now : ℕ) (w : World)
      → Post
          (λ _ v. (works write ≡ true) × (v.backups ≡ w.backups))
          (λ _ v. v.backups ≡ w.backups)
          (persist_state hash_event store seed tenant works write s now w)
  unfolding persist_state
  persist_state-backups write s now w = elim (Bool-cases (works write)) [
    | inl t ↦ rw (t, persist_state) (refl, refl)
    | inr f ↦ rw (f, persist_state) refl
  ]

  append_and_persist-backups :
      (write : Write) (input : Input) (s : State) (now : ℕ) (w : World)
      → Post
          (λ _ v. (works write ≡ true) × (v.backups ≡ w.backups))
          (λ _ v. v.backups ≡ w.backups)
          (append_and_persist hash_event store seed tenant works write input s now w)
  unfolding append_and_persist
  append_and_persist-backups write input s now w =
      Post-caught (λ (_ : Event) v. (works write ≡ true) × (v.backups ≡ w.backups))
        (λ _ v. v.backups ≡ w.backups) (λ _ v. v.backups ≡ w.backups)
        (roll_back hash_event store seed tenant works (checkpoint tenant w.ledger)) _
        (Post-then_run (λ _ v. v.backups ≡ w.backups) _ _
          (append_event hash_event store seed tenant works input now w) _
          (append_event-backups input now w)
          (λ event v same.
            Post-then_run (λ _ u. (works write ≡ true) × (u.backups ≡ w.backups)) _ _
              (persist_state hash_event store seed tenant works write s now v) _
              (Post-weaken _ _ _ _ (persist_state hash_event store seed tenant works write s now v)
                (persist_state-backups write s now v) (λ _ u h. (h.0, h.1 ∙ same))
                (λ _ u h. h ∙ same))
              (λ _ u h. h)))
        (λ e v same. same)

  -- An operational event is not on the disk unless its write succeeded.
  pub append_operational_event-backups :
      (write : Write) (input : Input) (now : ℕ) (w : World) (s : State)
      → w.service ≡ some s
      → Post
          (λ _ v. (works write ≡ true) × (v.backups ≡ w.backups))
          (λ _ v. v.backups ≡ w.backups)
          (append_operational_event hash_event store seed tenant works write input now w)
  unfolding append_operational_event
  append_operational_event-backups write input now w s opened =
      subst
        (λ r.
          Post (λ _ v. (works write ≡ true) × (v.backups ≡ w.backups))
            (λ _ v. v.backups ≡ w.backups)
            (then_run r
              (λ s'. append_and_persist hash_event store seed tenant works write input s' now)))
        (sym (for_tenant-opened tenant hash_event store seed works w s opened))
        (append_and_persist-backups write input s now w)

  module _ (sha256 : String → String) (opened_as : String → Primary) (retention : ℕ) where
    -- Without its event a backup is removed, and what is left are the latest of the earlier ones.
    pub record_backup-backups :
        (actor reason : String) (kind : Kind) (now : ℕ) (m : Manifest) (expired : List String)
        (earlier : List Manifest) (v : World) (s : State)
        → v.service ≡ some s
        → contains m.backup_id (ids earlier) ≡ false
        → list_backups v.backups ≡ take retention (m ∷ earlier)
        → Post
            (λ m' u. (works backup_event ≡ true) × (m' ≡ m) × (u.backups ≡ v.backups))
            (λ _ u. list_backups u.backups ≡ take (retention - 1) earlier)
            (record_backup hash_event sha256 store opened_as seed tenant retention works actor
              reason kind now
              (m, expired)
              v)
    unfolding record_backup
    record_backup-backups actor reason kind now m expired earlier v s opened fresh listed =
        let input =
          backup_input hash_event sha256 store opened_as seed tenant retention works actor reason
            kind m expired in
        let drop_it =
          drop_backup hash_event sha256 store opened_as seed tenant retention works m.backup_id in
        Post-then_run (λ (_ : Event) u. (works backup_event ≡ true) × (u.backups ≡ v.backups)) _ _
          (caught drop_it
            (append_operational_event hash_event store seed tenant works backup_event input now v))
          _
          (Post-caught (λ (_ : Event) u. (works backup_event ≡ true) × (u.backups ≡ v.backups))
            (λ _ u. list_backups u.backups ≡ take (retention - 1) earlier)
            (λ _ u. u.backups ≡ v.backups) drop_it
            (append_operational_event hash_event store seed tenant works backup_event input now v)
            (append_operational_event-backups backup_event input now v s opened)
            (λ e u same.
              ap (λ (d : Directory). list_backups (remove m.backup_id d).0) same
              ∙ list_backups-remove m.backup_id v.backups
              ∙ ap (filter (λ x. not (is_manifest m.backup_id x))) listed
              ∙ filter-take_newest retention m earlier fresh))
          (λ event u h. (h.0, refl, h.1))

    -- The text of the snapshot that is saved, with the time.
    abbrev pub saved : State → ℕ → World → Snapshot
    saved s now w = record {
      saved_at = now;
      state = s;
      governance_events = export_tenant tenant w.ledger;
    }

    -- The newest backup is `m`, of the snapshot `x`; as many of the earlier ones stay as there is room for.
    abbrev pub IsNewest : Directory → Snapshot → Manifest → Directory → Type 0
    IsNewest d x m after =
        (list_backups after ≡ take retention (m ∷ list_backups d))
        × (load sha256 store m.backup_id after
            ≡ ok (record { manifest = m; serialized = store.serialize x; snapshot = x }))

    pub make_backup-backups :
        (p : Primary) (now : ℕ) (id : String) (kind : Kind) (x : Snapshot) (v : World)
        → contains id (ids (list_backups v.backups)) ≡ false
        → IsDistinct (list_backups v.backups)
        → 1 ≤ retention
        → p.serialized ≡ store.serialize x
        → with_line_end (store.serialize x) ≡ store.serialize x
        → store.inspect_encrypted (store.serialize x) ≡ some x
        → Post
            (λ (made : Manifest × List String) u.
              (works backup_files ≡ true)
              × IsNewest v.backups x made.0 u.backups
              × (made.0.backup_id ≡ id)
              × (u.service ≡ v.service))
            (λ _ u.
              (works backup_files ≡ false) × (list_backups u.backups ≡ list_backups v.backups))
            (make_backup hash_event sha256 store opened_as seed tenant retention works
              (some p)
              now
              id
              kind
              v)
    unfolding make_backup create new_manifest
    make_backup-backups p now id kind x v fresh distinct positive is ended readable =
        let Q : Manifest × List String → World → Type 0 = λ made u.
          (works backup_files ≡ true)
          × IsNewest v.backups x made.0 u.backups
          × (made.0.backup_id ≡ id)
          × (u.service ≡ v.service) in
        let X : Error → World → Type 0 =
          λ _ u. (works backup_files ≡ false) × (list_backups u.backups ≡ list_backups v.backups) in
        let holds = λ (r : Directory × Result Backups.Error (Manifest × List String)).
          Post Q X (placed hash_event sha256 store opened_as seed tenant retention works r v) in
        let tried =
          λ (written : Bool). create sha256 retention written (some p) now id kind v.backups in
        elim (Bool-cases (works backup_files)) [
          | inr broken ↦ subst holds (sym (ap tried broken)) (
            broken,
            list_backups-remove id v.backups ∙ filter_absent id (list_backups v.backups) fresh,
          )
          | inl written ↦
              let (returned, listed, _, loaded) =
                create-load sha256 store retention p now id kind v.backups fresh x distinct positive
                  (rw is ended) (rw is readable) in
              subst holds (sym (ap tried written))
                (written, (listed, loaded ∙ rw is refl), refl, refl)
        ]
