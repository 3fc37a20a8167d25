-- ===== src/Registry/Restoring.antt =====
-- services/workforceAuditRegistry.js, `restoreTenantBackup`: a restore takes the place of the present
-- snapshot whole, or leaves what it found.
use basitclaw.Common.{
  ℕ, ◌≡◌, ◌≢◌, refl, ap, sym, subst, ◌∙◌, String, Bool, true, some, List, [], ◌∷◌, ◌++◌, eq_iff,
  if◌then◌else◌, arith, Bool-cases, Option-cases, Result-cases, inl, inr,
}
use basitclaw.Ledger.{Ledger, Event, Unsigned, Input, export_tenant, replace_tenant, verify}
use basitclaw.Ledger.Chain.{append-export_tenant, append-verify}
use basitclaw.Ledger.Replace.{replace_tenant-export_tenant}
use basitclaw.AuditService.{State}
use basitclaw.Backups.{Envelopes, Primary, Loaded}
use basitclaw.Registry.{Snapshot, World, Write, restored_event, persist_state, append_event}
use basitclaw.Registry.Recovery.{write_encrypted, replace_events}
use basitclaw.Registry.Rules.{Post, Post-weaken}
use basitclaw.Registry.Keeping.{append_event-Post}

module _ (tenant : String) (hash_event : Unsigned → String) (store : Envelopes Snapshot)
    (seed : State) (works : Write → Bool) (sha256 : String → String) (opened_as : String → Primary)
    (retention : ℕ) where
  -- The other tenants' events are as they were.
  abbrev pub KeepsOthers : World → World → Type 0
  KeepsOthers w v = (t : String) → tenant ≢ t → export_tenant t v.ledger ≡ export_tenant t w.ledger

  abbrev pub own_events : World → List Event
  own_events w = export_tenant tenant w.ledger

  abbrev pub IsIntact : World → Type 0
  IsIntact w = (verify hash_event tenant w.ledger).valid ≡ true

  pub KeepsOthers-trans : (w v u : World) → KeepsOthers w v → KeepsOthers v u → KeepsOthers w u
  KeepsOthers-trans w v u a b t d = b t d ∙ a t d

  pub write_encrypted-Post :
      (write : Write) (t : String) (w : World)
      → Post
          (λ _ v. v.ledger ≡ w.ledger)
          (λ _ v. v ≡ w)
          (write_encrypted hash_event sha256 store opened_as seed tenant retention works write t w)
  unfolding write_encrypted
  write_encrypted-Post write t w = elim (Option-cases (store.inspect_encrypted t)) [
    | inl unreadable ↦ rw (unreadable, write_encrypted) refl
    | inr (x, readable) ↦ elim (Bool-cases (works write)) [
      | inl done ↦ rw (readable, write_encrypted) (rw (done, if◌then◌else◌) refl)
      | inr failed ↦ rw (readable, write_encrypted) (rw (failed, if◌then◌else◌) refl)
    ]
  ]

  -- The tenant's events are those given, in a chain without fault.
  abbrev pub Holds : World → List Event → World → Type 0
  Holds w events v = (own_events v ≡ events) × KeepsOthers w v × IsIntact v

  pub replace_events-Post :
      (events : List Event) (w : World)
      → Post
          (λ _ v. Holds w events v)
          (λ _ v. v ≡ w)
          (replace_events hash_event sha256 store opened_as seed tenant retention works events w)
  unfolding replace_events
  replace_events-Post events w =
      elim (Result-cases (replace_tenant hash_event tenant events w.ledger)) [
        | inr (e, refused) ↦ rw (refused, replace_events) refl
        | inl ((l, n), done) ↦
            let (mine, valid, theirs, _) =
              replace_tenant-export_tenant hash_event tenant events w.ledger l n done in
            rw (done, replace_events) (mine, theirs, valid)
      ]

  -- Events are replaced in a ledger that had the others' events as `w` has them.
  pub replace_events-Holds :
      (events : List Event) (w v : World)
      → KeepsOthers w v
      → Post
          (λ _ u. Holds w events u)
          (λ _ u. KeepsOthers w u)
          (replace_events hash_event sha256 store opened_as seed tenant retention works events v)
  replace_events-Holds events w v theirs =
      Post-weaken _ _ _ _
        (replace_events hash_event sha256 store opened_as seed tenant retention works events v)
        (replace_events-Post events v) (λ _ u h. (h.0, KeepsOthers-trans w v u theirs h.1, h.2))
        (λ _ u same. subst (KeepsOthers w) (sym same) theirs)

  pub append_event-Holds :
      (events : List Event) (input : Input) (now : ℕ) (w v : World)
      → input.tenant_id ≡ tenant
      → Holds w events v
      → Post
          (λ event u. Holds w (events ++ event ∷ []) u × (u.service ≡ v.service))
          (λ _ u. KeepsOthers w u)
          (append_event hash_event store seed tenant works input now v)
  append_event-Holds events input now w v own_input h =
      Post-weaken _ _ _ _ (append_event hash_event store seed tenant works input now v)
        (append_event-Post tenant hash_event store seed works input now v own_input)
        (λ event u g.
          let at = λ (t : String).
            append-export_tenant hash_event v.ledger u.ledger input now event t g.1 in
          (
            (
              at tenant ∙ ground (arith, eq_iff input.tenant_id tenant, h.0),
              (λ t d. at t ∙ ground (arith, eq_iff input.tenant_id t, h.1 t d)),
              append-verify hash_event v.ledger u.ledger input now event tenant g.1 h.2,
            ),
            g.0,
          ))
        (λ _ u same. subst (KeepsOthers w) (sym same) h.1)

  -- The snapshot that is saved when the tenant's service and ledger are as `v` has them.
  abbrev pub saved_text : State → ℕ → World → String
  saved_text s now v =
      store.serialize
        (record { saved_at = now; state = s; governance_events = export_tenant tenant v.ledger })

  pub persist_state-saved :
      (write : Write) (s : State) (now : ℕ) (w : World)
      → Post
          (λ _ v.
            (v.service ≡ w.service) × (v.ledger ≡ w.ledger) × (v.file ≡ some (saved_text s now v)))
          (λ e v. v ≡ w)
          (persist_state hash_event store seed tenant works write s now w)
  unfolding persist_state
  persist_state-saved write s now w = elim (Bool-cases (works write)) [
    | inl t ↦ rw (t, persist_state) (refl, refl, refl)
    | inr f ↦ rw (f, persist_state) refl
  ]

  -- The tenant is as the backup has it, with one event more for the restore itself, in a chain without fault;
  -- the snapshot on disk has this state and these events, and the others' events are as they were.
  pub record IsRestored (b : Loaded sha256 store) (now : ℕ) (w v : World) : Type 0 where
    pub restored_service : v.service ≡ some b.snapshot.state
    pub event : Event
    pub restored_events : export_tenant tenant v.ledger ≡ b.snapshot.governance_events ++ event ∷ []
    pub valid : (verify hash_event tenant v.ledger).valid ≡ true
    pub saved : v.file ≡ some (saved_text b.snapshot.state now v)
    pub others_kept :
        (t : String) → tenant ≢ t → export_tenant t v.ledger ≡ export_tenant t w.ledger

  pub persist_state-IsRestored :
      (b : Loaded sha256 store) (now : ℕ) (event : Event) (w v : World)
      → Holds w (b.snapshot.governance_events ++ event ∷ []) v
      → v.service ≡ some b.snapshot.state
      → Post
          (λ _ u. IsRestored b now w u)
          (λ _ u. KeepsOthers w u)
          (persist_state hash_event store seed tenant works restored_event b.snapshot.state now v)
  persist_state-IsRestored b now event w v h opened =
      Post-weaken _ _ _ _
        (persist_state hash_event store seed tenant works restored_event b.snapshot.state now v)
        (persist_state-saved restored_event b.snapshot.state now v)
        (λ _ u g. record {
          restored_service = g.0 ∙ opened;
          event = event;
          restored_events = ap (export_tenant tenant) g.1 ∙ h.0;
          valid = ap (λ (l : Ledger). (verify hash_event tenant l).valid) g.1 ∙ h.2;
          saved = g.2;
          others_kept = λ t d. ap (export_tenant t) g.1 ∙ h.1 t d;
        })
        (λ _ u same. subst (KeepsOthers w) (sym same) h.1)
