-- ===== src/AuditService/Commit.antt =====
-- services/workforceAuditService.js, `commitMutation`: a call happens whole, with its event in the
-- ledger and its state persisted, or not at all.
use basitclaw.Common.{
  ℕ, ◌≡◌, refl, String, Bool, true, false, Option, List, [], ◌∷◌, ◌++◌, str_eq, if◌then◌else◌,
  Bool-cases, inl, inr, Result, ok, err, ◌>>=◌, >>=-eq-ok, ok-injective, ok-pair, sym, ap, subst,
}
use basitclaw.Ledger.{
  Ledger, Event, Unsigned, Input, append, checkpoint, rollback_to, verify, export_tenant,
}
use basitclaw.Ledger
use basitclaw.Ledger.Metadata.{object, Fields}
use basitclaw.Ledger.Chain.{append-verify, append-export_tenant}
use basitclaw.Ledger.Rollback.{rollback_to-unchanged, append-rollback_to}
use basitclaw.AuditService.{
  Error, ledger_refused, World, State, EngagementInput, PlaceholderInput, FindingInput, safe_actor,
}
use basitclaw.AuditService.Operations.{
  record_governance, settle, commit_mutation, checked, new_engagement, push_engagement,
  create_engagement, new_placeholder, push_placeholder, add_fieldwork_placeholder, new_finding,
  push_finding, create_finding,
}

abbrev pub succeeded : {A : Type 0} → Result Error A → Bool
succeeded (ok a) = true
succeeded (err e) = false

module _ (hash_event : Unsigned → String) (tenant : String) (persist : World → Bool) where
  -- One event of the tenant was appended.
  pub record Recorded (w w' : World) : Type 0 where
    pub input : Input
    pub now : ℕ
    pub event : Event
    pub of_tenant : input.tenant_id ≡ tenant
    pub appended : append hash_event w.ledger input now ≡ ok (w'.ledger, event)

  record_governance-eq-ok :
      (action entity_type entity_id : String) (actor : Option String) (metadata : Fields) (now : ℕ)
      (l l' : Ledger)
      → record_governance hash_event tenant persist action entity_type entity_id actor metadata now
          l
        ≡ ok l'
      → (e : Event) × (append hash_event l
            (record {
              tenant_id = tenant;
              actor = safe_actor actor;
              action = action;
              entity_type = entity_type;
              entity_id = entity_id;
              metadata = object metadata;
            })
            now
          ≡ ok (l', e))
  unfolding record_governance
  record_governance-eq-ok action entity_type entity_id actor metadata now l l' h = by_outcome _ h
    where
      by_outcome :
          (r : Result Ledger.Error (Ledger × Event))
          → ◌≡◌ {A = Result Error Ledger}
              (elim r [ ok (k, _) ↦ ok k | err e ↦ err (ledger_refused e) ])
              (ok l')
          → (e : Event) × (r ≡ ok (l', e))
      by_outcome (ok (k, e)) h = (e, ap (λ x. ok (x, e)) (ok-injective {E = Error} k l' h))
      by_outcome (err e) h = cc

  -- A call failed and changed nothing, or it succeeded, recorded one event, and was persisted.
  abbrev Atomic : {A : Type 0} → World → Result Error A × World → Type 0
  Atomic w r =
      (succeeded r.0 ≡ false → r.1 ≡ w)
      × (succeeded r.0 ≡ true → (persist r.1 ≡ true) × Recorded w r.1)

  settle-Atomic :
      {A : Type 0} (w : World) (r : Result Error (World × A))
      → ((w' : World) (a : A) → r ≡ ok (w', a) → Recorded w w')
      → Atomic w (settle hash_event tenant persist w r)
  unfolding settle
  settle-Atomic w (err e) recorded = (
    λ _. ap (λ (l : Ledger). record w { ledger = l }) (rollback_to-unchanged tenant w.ledger),
    λ h. cc,
  )
  settle-Atomic w (ok (w', a)) recorded = elim (Bool-cases (persist w')) [
    | inl kept ↦ rw kept (λ h. cc, λ h. (kept, recorded w' a refl))
    | inr lost ↦
        let r = recorded w' a refl in
        let back : rollback_to tenant (checkpoint tenant w.ledger) w'.ledger ≡ w.ledger =
          subst (λ t. rollback_to t (checkpoint t w.ledger) w'.ledger ≡ w.ledger) r.of_tenant
            (append-rollback_to hash_event w.ledger w'.ledger r.input r.now r.event r.appended) in
        rw lost (λ _. ap (λ (l : Ledger). record w { ledger = l }) back, λ h. cc)
  ]

  checked-Atomic :
      {A B : Type 0} (r : Result Error A) (rest : A → Result Error B × World) (w : World)
      → ((a : A) → Atomic w (rest a))
      → Atomic w (checked hash_event tenant persist r rest w)
  unfolding checked
  checked-Atomic (err e) rest w h = (λ _. refl, λ x. cc)
  checked-Atomic (ok a) rest w h = h a

  -- Whatever a mutation does to the state, it goes with one event.
  governed :
      {A : Type 0} (action entity_type entity_id : String) (actor : Option String)
      (metadata : Fields) (now : ℕ) (w w' : World) (state : State) (a b : A)
      → (let done : Ledger → Result Error (World × A) =
            λ l. ok (record { state = state; ledger = l }, a) in
          record_governance hash_event tenant persist action entity_type entity_id actor metadata
            now w.ledger
          >>= done)
        ≡ ok (w', b)
      → Recorded w w'
  governed action entity_type entity_id actor metadata now w w' state a b h =
      let (l, recorded, h1) =
        >>=-eq-ok
          (record_governance hash_event tenant persist action entity_type entity_id actor metadata
            now w.ledger)
          _ h in
      let (w_is, _) = ok-pair _ w' b h1 in
      let (e, appended) =
        record_governance-eq-ok action entity_type entity_id actor metadata now w.ledger l
          recorded in
      subst (Recorded w) (sym w_is)
        (record { input = _; now = now; event = e; of_tenant = refl; appended = appended })

  module _ (universe : List String) (year : ℕ → String) (padded : ℕ → ℕ → String) where
    -- What is called, without the actor and the time.
    pub data Call : Type 0 where
      creates_engagement : EngagementInput → Call
      adds_placeholder : String → PlaceholderInput → Call
      creates_finding : FindingInput → Call

    unfoldable pub forget : {A : Type 0} → Result Error A × World → Result Error (Unit {0}) × World
    forget (ok a, w) = (ok tt, w)
    forget (err e, w) = (err e, w)

    unfoldable pub perform : Call → Option String → ℕ → World → Result Error (Unit {0}) × World
    unfolding forget
    perform (creates_engagement i) actor now w =
        forget (create_engagement hash_event tenant persist universe year padded i actor now w)
    perform (adds_placeholder id i) actor now w =
        forget (
          add_fieldwork_placeholder hash_event tenant persist universe year padded id i actor now w)
    perform (creates_finding i) actor now w =
        forget (create_finding hash_event tenant persist universe year padded i actor now w)

    forget-Atomic :
        {A : Type 0} (w : World) (r : Result Error A × World) → Atomic w r → Atomic w (forget r)
    unfolding forget
    forget-Atomic w (ok a, w') h = h
    forget-Atomic w (err e, w') h = h

    perform-Atomic :
        (call : Call) (actor : Option String) (now : ℕ) (w : World)
        → Atomic w (perform call actor now w)
    unfolding perform create_engagement add_fieldwork_placeholder create_finding commit_mutation
        push_engagement push_placeholder push_finding
    perform-Atomic (creates_engagement i) actor now w = forget-Atomic w _ (
        checked-Atomic (new_engagement hash_event tenant persist universe year padded i now w.state)
          _ w (λ e. settle-Atomic w _ (λ w' a h. governed _ _ _ actor _ now w w' _ e a h)))
    perform-Atomic (adds_placeholder id i) actor now w = forget-Atomic w _ (
        checked-Atomic
          (new_placeholder hash_event tenant persist universe year padded id i now w.state) _ w
          (λ p. settle-Atomic w _ (λ w' a h. governed _ _ _ actor _ now w w' _ p a h)))
    perform-Atomic (creates_finding i) actor now w = forget-Atomic w _ (
        checked-Atomic (new_finding hash_event tenant persist universe year padded i now w.state) _
          w (λ f. settle-Atomic w _ (λ w' a h. governed _ _ _ actor _ now w w' _ f a h)))

    -- A call that fails, be it on its arguments, in the ledger or in persisting, leaves the
    -- engagements, the findings and the ledger exactly as they were.
    pub perform-failed :
        (call : Call) (actor : Option String) (now : ℕ) (w : World)
        → succeeded (perform call actor now w).0 ≡ false
        → (perform call actor now w).1 ≡ w
    perform-failed call actor now w h = (perform-Atomic call actor now w).0 h

    -- A call that succeeds was persisted, and its tenant's export of the ledger has one event more;
    -- the export of every other tenant is what it was.
    pub perform-recorded :
        (call : Call) (actor : Option String) (now : ℕ) (w : World)
        → succeeded (perform call actor now w).0 ≡ true
        → (persist (perform call actor now w).1 ≡ true)
          × (e : Event) × ((t : String)
              → export_tenant t (perform call actor now w).1.ledger ≡ (
                  if str_eq tenant t
                  then export_tenant t w.ledger ++ e ∷ []
                  else export_tenant t w.ledger))
    perform-recorded call actor now w h =
        let (kept, r) = (perform-Atomic call actor now w).1 h in
        let w' = (perform call actor now w).1 in
        (
          kept,
          r.event,
          λ t.
              subst
                (λ x. export_tenant t w'.ledger ≡ (
                  if str_eq x t
                  then export_tenant t w.ledger ++ r.event ∷ []
                  else export_tenant t w.ledger))
                r.of_tenant
                (append-export_tenant hash_event w.ledger w'.ledger r.input r.now r.event t
                  r.appended),
        )

    -- A chain that `verify` accepts, of whatever tenant, is accepted after every call, failed or not.
    pub perform-verify :
        (call : Call) (actor : Option String) (now : ℕ) (w : World) (t : String)
        → (verify hash_event t w.ledger).valid ≡ true
        → (verify hash_event t (perform call actor now w).1.ledger).valid ≡ true
    perform-verify call actor now w t v =
        elim (Bool-cases (succeeded (perform call actor now w).0)) [
          | inl yes_ ↦
              let (_, r) = (perform-Atomic call actor now w).1 yes_ in
              append-verify hash_event w.ledger (perform call actor now w).1.ledger r.input r.now
                r.event t r.appended v
          | inr no_ ↦
              subst (λ (x : World). (verify hash_event t x.ledger).valid ≡ true)
                (sym (perform-failed call actor now w no_)) v
        ]
