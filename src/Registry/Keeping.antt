-- ===== src/Registry/Keeping.antt =====
-- services/workforceAuditRegistry.js, `createTenantBackup`: making a backup leaves the service as it is and
-- adds at most to the tenant's events.
use basitclaw.Common.{
  err, ℕ, ◌≡◌, ◌≢◌, refl, ap, sym, subst, ◌∙◌, String, Bool, Option, some, List, [], ◌∷◌, ◌++◌,
  append_nil, eq_iff, Result, ok, arith, Bool-cases, Result-cases, inl, inr,
}
use mathlib.Core.List.{append_assoc}
use basitclaw.Ledger.{
  Ledger, Event, Unsigned, Input, append, checkpoint, rollback_to, export_tenant,
}
use basitclaw.Ledger.Chain.{append-export_tenant}
use basitclaw.Ledger.Rollback.{append-rollback_to, rollback_to-unchanged}
use basitclaw.AuditService.{State}
use basitclaw.Backups
use basitclaw.Backups.{Directory, Envelopes, Primary, Manifest, Kind, create}
use basitclaw.Registry.{
  Snapshot, Error, World, Write, before_backup, backup_files, backup_event, validate_actor,
  validate_reason, M, service_or_open, caught, check, get, for_tenant, persist_state, append_event,
  append_and_persist, append_operational_event, ◌>>=◌, roll_back,
}
use basitclaw.Registry.Recovery.{
  placed, make_backup, record_backup, create_tenant_backup, backup_input, drop_backup,
  read_encrypted,
}
use basitclaw.Registry.Rules.{Post, Post-then_run, Post-weaken, Post-caught, Post-check}

module _ (tenant : String) where
  -- The tenant's events are those before, and perhaps later ones; the service and the events of the
  -- others are as before.
  pub record Keeps (w v : World) : Type 0 where
    pub same_service : v.service ≡ w.service
    pub same_others :
        (t : String) → tenant ≢ t → export_tenant t v.ledger ≡ export_tenant t w.ledger
    pub later : List Event
    pub grown : export_tenant tenant v.ledger ≡ export_tenant tenant w.ledger ++ later

  pub Keeps-refl : (w : World) → Keeps w w
  Keeps-refl w = record {
    same_service = refl;
    same_others = λ t d. refl;
    later = [];
    grown = sym (append_nil (export_tenant tenant w.ledger));
  }

  pub Keeps-trans : (w v u : World) → Keeps w v → Keeps v u → Keeps w u
  Keeps-trans w v u a b = record {
    same_service = b.same_service ∙ a.same_service;
    same_others = λ t d. b.same_others t d ∙ a.same_others t d;
    later = a.later ++ b.later;
    grown =
        b.grown ∙ ap (λ (es : List Event). es ++ b.later) a.grown ∙ append_assoc _ a.later b.later;
  }

  -- The same service and ledger.
  pub Keeps-ledger : (w v : World) → v.service ≡ w.service → v.ledger ≡ w.ledger → Keeps w v
  Keeps-ledger w v s l = record {
    same_service = s;
    same_others = λ t d. ap (export_tenant t) l;
    later = [];
    grown = ap (export_tenant tenant) l ∙ sym (append_nil (export_tenant tenant w.ledger));
  }

  -- An operation that keeps what it finds, whether it returns or throws, once the service is open.
  abbrev pub IsKeeping : {A : Type 0} → M A → Type 0
  IsKeeping m =
      (w : World) (s : State)
      → w.service ≡ some s
      → Post (λ _ v. Keeps w v) (λ _ v. Keeps w v) (m w)

  pub IsKeeping-bind :
      {A B : Type 0} (m : M A) (rest : A → M B)
      → IsKeeping m
      → ((a : A) → IsKeeping (rest a))
      → IsKeeping (m >>= rest)
  IsKeeping-bind m rest k h w s opened =
      Post-then_run (λ _ v. Keeps w v) (λ _ v. Keeps w v) (λ _ v. Keeps w v) (m w) rest
        (k w s opened)
        (λ a v kept.
          Post-weaken (λ _ u. Keeps v u) (λ _ u. Keeps w u) (λ _ u. Keeps v u) (λ _ u. Keeps w u)
            (rest a v) (h a v s (kept.same_service ∙ opened))
            (λ _ u after. Keeps-trans w v u kept after) (λ _ u after. Keeps-trans w v u kept after))

  pub IsKeeping-check : {A : Type 0} (r : Result Error A) → IsKeeping (check r)
  IsKeeping-check r w s opened = Post-check (Keeps w) r w (Keeps-refl w)

  pub IsKeeping-get : IsKeeping get
  IsKeeping-get w s opened = Keeps-refl w

  module _ (hash_event : Unsigned → String) (store : Envelopes Snapshot) (seed : State)
      (works : Write → Bool) where
    -- An appended event is the tenant's latest.
    pub append_event-Post :
        (input : Input) (now : ℕ) (w : World)
        → input.tenant_id ≡ tenant
        → Post
            (λ (event : Event) (v : World).
              (v.service ≡ w.service)
              × (append hash_event w.ledger input now ≡ ok (v.ledger, event)))
            (λ e v. v ≡ w)
            (append_event hash_event store seed tenant works input now w)
    unfolding append_event
    append_event-Post input now w t = elim (Result-cases (append hash_event w.ledger input now)) [
      | inl ((l, event), done) ↦ rw (done, append_event) (refl, refl)
      | inr (e, refused) ↦ rw (refused, append_event) refl
    ]

    persist_state-Post :
        (write : Write) (s : State) (now : ℕ) (w : World)
        → Post
            (λ _ v. (v.service ≡ w.service) × (v.ledger ≡ w.ledger))
            (λ e v. v ≡ w)
            (persist_state hash_event store seed tenant works write s now w)
    unfolding persist_state
    persist_state-Post write s now w = elim (Bool-cases (works write)) [
      | inl t ↦ rw (t, persist_state) (refl, refl)
      | inr f ↦ rw (f, persist_state) refl
    ]

    append-Keeps :
        (input : Input) (now : ℕ) (w v : World) (event : Event)
        → input.tenant_id ≡ tenant
        → v.service ≡ w.service
        → append hash_event w.ledger input now ≡ ok (v.ledger, event)
        → Keeps w v
    append-Keeps input now w v event t s done =
        let at = λ (u : String).
          append-export_tenant hash_event w.ledger v.ledger input now event u done in
        record {
          same_service = s;
          same_others = λ u d. at u ∙ ground (arith, eq_iff input.tenant_id u);
          later = event ∷ [];
          grown = at tenant ∙ ground (arith, eq_iff input.tenant_id tenant);
        }

    -- The event is kept with the snapshot, or the ledger is as before.
    pub append_and_persist-Keeps :
        (write : Write) (input : Input) (s : State) (now : ℕ) (w : World)
        → input.tenant_id ≡ tenant
        → Post
            (λ _ v. Keeps w v)
            (λ _ v. Keeps w v)
            (append_and_persist hash_event store seed tenant works write input s now w)
    unfolding append_and_persist
    append_and_persist-Keeps write input s now w t =
        let n = checkpoint tenant w.ledger in
        let Undone : Error → World → Type 0 =
          λ e v. (v.service ≡ w.service) × (rollback_to tenant n v.ledger ≡ w.ledger) in
        let undone = λ (v : World) (same : v ≡ w).
          subst
            (λ (u : World). (u.service ≡ w.service) × (rollback_to tenant n u.ledger ≡ w.ledger))
            (sym same) (refl, rollback_to-unchanged tenant w.ledger) in
        Post-caught (λ _ v. Keeps w v) (λ _ v. Keeps w v) Undone
          (roll_back hash_event store seed tenant works n) _
          (Post-then_run _ _ Undone (append_event hash_event store seed tenant works input now w) _
            (Post-weaken _ _ _ Undone (append_event hash_event store seed tenant works input now w)
              (append_event-Post input now w t) (λ event v h. h) (λ e v h. undone v h))
            (λ event v h.
              let back : rollback_to tenant n v.ledger ≡ w.ledger =
                subst (λ (u : String). rollback_to u (checkpoint u w.ledger) v.ledger ≡ w.ledger) t
                  (append-rollback_to hash_event w.ledger v.ledger input now event h.1) in
              Post-then_run _ _ Undone
                (persist_state hash_event store seed tenant works write s now v) _
                (Post-weaken _ _ _ Undone
                  (persist_state hash_event store seed tenant works write s now v)
                  (persist_state-Post write s now v) (λ x u g. g)
                  (λ e u same. subst (Undone e) (sym same) (h.0, back)))
                (λ x u g.
                  append-Keeps input now w u event t (g.0 ∙ h.0)
                    (h.1 ∙ ap (λ (l : Ledger). ok (l, event)) (sym g.1)))))
          (λ e v h. Keeps-ledger w _ h.0 h.1)

    pub for_tenant-opened :
        (w : World) (s : State)
        → w.service ≡ some s
        → for_tenant hash_event store seed tenant works w ≡ (ok s, w)
    unfolding for_tenant service_or_open
    for_tenant-opened w s opened =
        ap (λ (o : Option State). service_or_open hash_event store seed tenant works o w) opened

    pub IsKeeping-for_tenant : IsKeeping (for_tenant hash_event store seed tenant works)
    IsKeeping-for_tenant w s opened =
        subst (Post (λ _ v. Keeps w v) (λ _ v. Keeps w v)) (sym (for_tenant-opened w s opened))
          (Keeps-refl w)

    pub IsKeeping-persist_state :
        (write : Write) (s : State) (now : ℕ)
        → IsKeeping (persist_state hash_event store seed tenant works write s now)
    IsKeeping-persist_state write s now w s' opened =
        Post-weaken _ _ _ _ (persist_state hash_event store seed tenant works write s now w)
          (persist_state-Post write s now w) (λ _ v h. Keeps-ledger w v h.0 h.1)
          (λ _ v same. subst (Keeps w) (sym same) (Keeps-refl w))

    pub IsKeeping-append_operational_event :
        (write : Write) (input : Input) (now : ℕ)
        → input.tenant_id ≡ tenant
        → IsKeeping (append_operational_event hash_event store seed tenant works write input now)
    unfolding append_operational_event
    IsKeeping-append_operational_event write input now t =
        IsKeeping-bind (for_tenant hash_event store seed tenant works)
          (λ s. append_and_persist hash_event store seed tenant works write input s now)
          IsKeeping-for_tenant (λ s w s' opened. append_and_persist-Keeps write input s now w t)

    module _ (sha256 : String → String) (opened_as : String → Primary) (retention : ℕ) where
      placed-IsKeeping :
          (r : Directory × Result Backups.Error (Manifest × List String))
          → IsKeeping (placed hash_event sha256 store opened_as seed tenant retention works r)
      placed-IsKeeping (d, ok made) w s opened = Keeps-ledger w _ refl refl
      placed-IsKeeping (d, err e) w s opened = Keeps-ledger w _ refl refl

      make_backup-IsKeeping :
          (primary : Option Primary) (now : ℕ) (id : String) (kind : Kind)
          → IsKeeping (
              make_backup hash_event sha256 store opened_as seed tenant retention works primary now
                id kind)
      unfolding make_backup
      make_backup-IsKeeping primary now id kind w s opened =
          placed-IsKeeping
            (create sha256 retention (works backup_files) primary now id kind w.backups) w s opened

      record_backup-IsKeeping :
          (actor reason : String) (kind : Kind) (now : ℕ) (made : Manifest × List String)
          → IsKeeping (
              record_backup hash_event sha256 store opened_as seed tenant retention works actor
                reason kind now made)
      unfolding record_backup
      record_backup-IsKeeping actor reason kind now (m, expired) w s opened =
          let input =
            backup_input hash_event sha256 store opened_as seed tenant retention works actor reason
              kind m expired in
          let drop =
            drop_backup hash_event sha256 store opened_as seed tenant retention works m.backup_id in
          Post-then_run (λ _ v. Keeps w v) (λ _ v. Keeps w v) (λ _ v. Keeps w v)
            (caught drop (
              append_operational_event hash_event store seed tenant works backup_event input now w))
            _
            (Post-caught _ (λ _ v. Keeps w v) (λ _ v. Keeps w v) drop
              (append_operational_event hash_event store seed tenant works backup_event input now w)
              (IsKeeping-append_operational_event backup_event input now refl w s opened)
              (λ e v kept. Keeps-trans w v (drop v) kept (Keeps-ledger v (drop v) refl refl)))
            (λ event v kept. kept)

      -- Making a backup keeps the service and the events, whatever fails.
      pub create_tenant_backup-IsKeeping :
          (actor reason : String) (kind : Kind) (now : ℕ) (id : String)
          → IsKeeping (
              create_tenant_backup hash_event sha256 store opened_as seed tenant retention works
                actor reason kind now id)
      unfolding create_tenant_backup
      create_tenant_backup-IsKeeping actor reason kind now id =
          IsKeeping-bind _ _ (IsKeeping-check (validate_actor actor)) (λ safe_actor.
            IsKeeping-bind _ _ (IsKeeping-check (validate_reason reason)) (λ safe_reason.
              IsKeeping-bind _ _ IsKeeping-for_tenant (λ s.
                IsKeeping-bind _ _ (IsKeeping-persist_state before_backup s now) (λ _.
                  IsKeeping-bind get _ IsKeeping-get (λ (w : World).
                    IsKeeping-bind _ _
                      (IsKeeping-check (
                        read_encrypted hash_event sha256 store opened_as seed tenant retention works
                          w.file))
                      (λ primary.
                        IsKeeping-bind _ _ (make_backup-IsKeeping primary now id kind) (λ made.
                          record_backup-IsKeeping safe_actor safe_reason kind now made)))))))
