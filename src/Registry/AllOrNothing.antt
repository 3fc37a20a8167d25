-- ===== src/Registry/AllOrNothing.antt =====
-- services/workforceAuditRegistry.js, `restoreTenantBackup`: a restore takes the place of the tenant's
-- snapshot whole, or what it began is undone.
use basitclaw.Common.{
  ℕ, ◌≡◌, refl, ap, ◌∙◌, String, Bool, Option, none, some, List, Result, ok, err, inl, inr, ◌⊎◌,
}
use basitclaw.Ledger.{Event, Unsigned, export_tenant, verify, head_hash}
use basitclaw.AuditService.{State}
use basitclaw.Backups.{Envelopes, Primary, Manifest, Loaded}
use basitclaw.Registry.{
  Snapshot, Error, rollback_failed, World, Write, restored_envelope, restored_event,
  previous_envelope, M, return, ◌>>=◌, persist_state, append_event,
}
use basitclaw.Registry.Recovery.{
  write_encrypted, replace_events, set_service, restore_input, replace_by, put_back, after_put_back,
  or_put_back, replace_or_put_back,
}
use basitclaw.Registry.Rules.{Post, Post-then_run, Post-weaken}
use basitclaw.Registry.Restoring.{
  KeepsOthers, Holds, write_encrypted-Post, replace_events-Holds, append_event-Holds, IsRestored,
  persist_state-IsRestored,
}

module _ (tenant : String) (hash_event : Unsigned → String) (store : Envelopes Snapshot)
    (seed : State) (works : Write → Bool) (sha256 : String → String) (opened_as : String → Primary)
    (retention : ℕ) where
  abbrev pub AreOthersKept : World → World → Type 0
  AreOthersKept w v = KeepsOthers tenant hash_event store seed works sha256 opened_as retention w v

  abbrev pub IsRestoredBy : Loaded sha256 store → ℕ → World → World → Type 0
  IsRestoredBy b now w v =
      IsRestored tenant hash_event store seed works sha256 opened_as retention b now w v

  replace_by-Post :
      (actor reason id : String) (safety_backup : Manifest) (before : Option String) (now : ℕ)
      (b : Loaded sha256 store) (w : World)
      → Post
          (λ _ v. IsRestoredBy b now w v)
          (λ _ v. AreOthersKept w v)
          (replace_by hash_event sha256 store opened_as seed tenant retention works actor reason id
            safety_backup before now b w)
  unfolding replace_by
  replace_by-Post actor reason id safety_backup before now b w =
      let events = b.snapshot.governance_events in
      Post-then_run (λ _ v. AreOthersKept w v) _ _
        (write_encrypted hash_event sha256 store opened_as seed tenant retention works
          restored_envelope b.serialized w)
        _
        (Post-weaken _ _ _ _
          (write_encrypted hash_event sha256 store opened_as seed tenant retention works
            restored_envelope b.serialized w)
          (write_encrypted-Post tenant hash_event store seed works sha256 opened_as retention
            restored_envelope b.serialized w)
          (λ _ v same t d. ap (export_tenant t) same)
          (λ _ v same t d. ap (λ (u : World). export_tenant t u.ledger) same))
        (λ _ v theirs.
          Post-then_run
            (λ _ u. Holds tenant hash_event store seed works sha256 opened_as retention w events u)
            _ _
            (replace_events hash_event sha256 store opened_as seed tenant retention works events v)
            _
            (replace_events-Holds tenant hash_event store seed works sha256 opened_as retention
              events w v theirs)
            (λ _ u h.
              let target = (verify hash_event tenant u.ledger).head_hash in
              let input =
                restore_input hash_event sha256 store opened_as seed tenant retention works actor
                  reason id safety_backup before target in
              let u' : World = record u { service = some b.snapshot.state } in
              Post-then_run _ _ _ (append_event hash_event store seed tenant works input now u') _
                (append_event-Holds tenant hash_event store seed works sha256 opened_as retention
                  events input now w u' refl h)
                (λ event x g.
                  Post-then_run (λ _ y. IsRestoredBy b now w y) _ _
                    (persist_state hash_event store seed tenant works restored_event
                      b.snapshot.state now x)
                    _
                    (persist_state-IsRestored tenant hash_event store seed works sha256 opened_as
                      retention b now event w x g.0 g.1)
                    (λ _ y r. r))))

  -- The service and the events are as given, the others' events as `w` has them.
  abbrev pub IsPutBack : List Event → State → World → World → Type 0
  IsPutBack events s w v =
      (v.service ≡ some s) × (export_tenant tenant v.ledger ≡ events) × AreOthersKept w v

  rewrite_previous-Post :
      (previous : Option Primary) (w v : World)
      → AreOthersKept w v
      → Post
          (λ _ u. AreOthersKept w u)
          (λ _ _. Unit {0})
          (elim previous as (λ _. M (Unit {0})) [
            | none ↦ return tt
            | some p ↦
                write_encrypted hash_event sha256 store opened_as seed tenant retention works
                  previous_envelope p.serialized
          ]
            v)
  rewrite_previous-Post none w v theirs = theirs
  rewrite_previous-Post (some p) w v theirs =
      Post-weaken _ _ _ _
        (write_encrypted hash_event sha256 store opened_as seed tenant retention works
          previous_envelope p.serialized v)
        (write_encrypted-Post tenant hash_event store seed works sha256 opened_as retention
          previous_envelope p.serialized v)
        (λ _ u same t d. ap (export_tenant t) same ∙ theirs t d) (λ _ _ _. tt)

  put_back-Post :
      (previous : Option Primary) (events : List Event) (s : State) (w v : World)
      → AreOthersKept w v
      → Post
          (λ _ u. IsPutBack events s w u)
          (λ _ _. Unit {0})
          (put_back hash_event sha256 store opened_as seed tenant retention works previous events s
            v)
  unfolding put_back
  put_back-Post previous events s w v theirs =
      Post-then_run (λ _ u. AreOthersKept w u) (λ (_ : Unit {0}) u. IsPutBack events s w u)
        (λ _ _. Unit {0})
        (elim previous as (λ _. M (Unit {0})) [
          | none ↦ return tt
          | some p ↦
              write_encrypted hash_event sha256 store opened_as seed tenant retention works
                previous_envelope p.serialized
        ]
          v)
        (λ _.
          replace_events hash_event sha256 store opened_as seed tenant retention works events
          >>= λ _. set_service hash_event sha256 store opened_as seed tenant retention works s)
        (rewrite_previous-Post previous w v theirs)
        (λ _ u h.
          Post-then_run
            (λ _ x. Holds tenant hash_event store seed works sha256 opened_as retention w events x)
            (λ (_ : Unit {0}) x. IsPutBack events s w x) (λ _ _. Unit {0})
            (replace_events hash_event sha256 store opened_as seed tenant retention works events u)
            (λ _. set_service hash_event sha256 store opened_as seed tenant retention works s)
            (Post-weaken _ _ _ _
              (replace_events hash_event sha256 store opened_as seed tenant retention works events
                u)
              (replace_events-Holds tenant hash_event store seed works sha256 opened_as retention
                events w u h)
              (λ _ x g. g) (λ _ _ _. tt))
            (λ _ x g. (refl, g.0, g.1)))

  -- What was to be undone is, or the error says that the rollback failed.
  abbrev pub IsUndone : (World → Type 0) → Error → World → Type 0
  IsUndone U e v = U v ⊎ ((x : Error) × (e ≡ rollback_failed x))

  after_put_back-Post :
      {A : Type 0} (Q : A → World → Type 0) (U : World → Type 0) (e : Error)
      (y : Result Error (Unit {0}) × World)
      → Post (λ _ u. U u) (λ _ _. Unit {0}) y
      → Post Q
          (IsUndone U)
          (after_put_back hash_event sha256 store opened_as seed tenant retention works e y)
  after_put_back-Post Q U e (ok x, u) g = inl g
  after_put_back-Post Q U e (err x, u) g = inr (e, refl)

  or_put_back-Post :
      {A : Type 0} (Q : A → World → Type 0) (X U : World → Type 0) (undo : M (Unit {0}))
      (r : Result Error A × World)
      → Post Q (λ _ v. X v) r
      → ((v : World) → X v → Post (λ _ u. U u) (λ _ _. Unit {0}) (undo v))
      → Post Q
          (IsUndone U)
          (or_put_back hash_event sha256 store opened_as seed tenant retention works undo r)
  or_put_back-Post Q X U undo (ok a, w) p h = p
  or_put_back-Post Q X U undo (err e, w) p h = after_put_back-Post Q U e (undo w) (h w p)

  pub replace_or_put_back-Post :
      (actor reason id : String) (safety_backup : Manifest) (now : ℕ) (b : Loaded sha256 store)
      (s : State) (previous : Option Primary) (w : World)
      → Post
          (λ _ v. IsRestoredBy b now w v)
          (IsUndone (λ v. IsPutBack (export_tenant tenant w.ledger) s w v))
          (replace_or_put_back hash_event sha256 store opened_as seed tenant retention works actor
            reason id safety_backup now b s previous w)
  unfolding replace_or_put_back
  replace_or_put_back-Post actor reason id safety_backup now b s previous w =
      let events = export_tenant tenant w.ledger in
      or_put_back-Post (λ _ v. IsRestoredBy b now w v) (λ v. AreOthersKept w v)
        (λ v. IsPutBack events s w v) _ _
        (replace_by-Post actor reason id safety_backup (head_hash events) now b w)
        (λ v theirs. put_back-Post previous events s w v theirs)
