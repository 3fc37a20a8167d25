-- ===== src/PrivilegedAccess/Induction.antt =====
-- security/privilegedAccessRegistry.js: a property of snapshots that each mutation keeps holds after
-- every sequence of calls.
use basitclaw.Common.{
  ℕ, ◌≡◌, refl, String, true, false, Option, List, [], ◌∷◌, All, Result, ok, err, ◌>>=◌, guard,
  subst, sym, ◌||◌, str_eq,
}
use basitclaw.PrivilegedAccess.{
  Config, Principal, Item, Snapshot, Error, Unsigned, break_glass_disabled, confirmation_required,
  bad_input,
}
use basitclaw.PrivilegedAccess.Checks.{eligible, manage, text_of, integer}
use basitclaw.PrivilegedAccess.Checks
use basitclaw.PrivilegedAccess.Store.{prepare, finish, mutate}
use basitclaw.PrivilegedAccess.Requests.{
  Terms, add_request, add_break_glass, request_access, activate_break_glass,
}
use basitclaw.PrivilegedAccess.Decisions.{
  add_decision, deny_pending, cancel_open, revoke_active, add_review, approve, deny, cancel, revoke,
  complete_post_review,
}
use basitclaw.PrivilegedAccess.Invariants.{mutate-eq-ok}
use basitclaw.PrivilegedAccess.Calls.{
  Call, Request, requests, breaks_glass, approves, denies, cancels, revokes, reviews,
  perform_request, perform, run,
}

-- An operation keeps a property of snapshots where it succeeds.
abbrev pub Preserves : (Snapshot → Type 0) → (Snapshot → Result Error (Snapshot × Item)) → Type 0
Preserves Q operation = (s s' : Snapshot) (k : Item) → Q s → operation s ≡ ok (s', k) → Q s'

-- A check on the arguments comes before the operation.
bind-Preserves :
    (Q : Snapshot → Type 0) {A : Type 0} (m : Result Error A)
    (f : A → Snapshot → Result Error (Snapshot × Item))
    → ((a : A) → Preserves Q (f a))
    → Preserves Q (λ s. m >>= λ a. f a s)
bind-Preserves Q (ok a) f keeps s s' k q e = keeps a s s' k q e
bind-Preserves Q (err x) f keeps s s' k q e = cc

module _ (digest : Unsigned → String) (event_id : ℕ → String) (c : Config) where
  -- Q is kept by expiry and pruning, by the write, and by the body of each mutation that a principal
  -- of whom Ok holds calls.
  pub record Preserved (Q : Snapshot → Type 0) (Ok : Principal → Type 0) : Type 0 where
    pub prepares : (now : ℕ) (s : Snapshot) → Q s → Q (prepare digest event_id c now s)
    pub finishes : (now : ℕ) (s : Snapshot) → Q s → Q (finish c now s)
    pub adds_request :
        (id : String) (p : Principal) (t : Terms) (a : Option String) (now : ℕ)
        → Ok p
        → Preserves Q (add_request digest event_id c id p t a now)
    pub adds_break_glass :
        (id : String) (p : Principal) (t : Terms) (a : Option String) (now : ℕ)
        → Ok p
        → Preserves Q (add_break_glass digest event_id c id p t a now)
    pub adds_decision :
        (id : String) (v : Option ℕ) (p : Principal) (text : String) (a : Option String) (now : ℕ)
        → Ok p
        → Preserves Q (add_decision digest event_id c id v p text a now)
    pub denies_pending :
        (id : String) (v : Option ℕ) (p : Principal) (text : String) (a : Option String) (now : ℕ)
        → Ok p
        → Preserves Q (deny_pending digest event_id c id v p text a now)
    pub cancels_open :
        (id : String) (v : Option ℕ) (p : Principal) (text : String) (a : Option String) (now : ℕ)
        → Ok p
        → Preserves Q (cancel_open digest event_id c id v p text a now)
    pub revokes_active :
        (id : String) (v : Option ℕ) (p : Principal) (text : String) (a : Option String) (now : ℕ)
        → Ok p
        → Preserves Q (revoke_active digest event_id c id v p text a now)
    pub adds_review :
        (id : String) (v : Option ℕ) (p : Principal) (outcome text : String) (a : Option String)
        (now : ℕ)
        → Ok p
        → Preserves Q (add_review digest event_id c id v p outcome text a now)

  module _ (Q : Snapshot → Type 0) (Ok : Principal → Type 0) (laws : Preserved Q Ok) where
    mutate-Preserves :
        (now : ℕ) (operation : Snapshot → Result Error (Snapshot × Item))
        → Preserves Q operation
        → Preserves Q (λ s. mutate digest event_id c s now operation)
    mutate-Preserves now operation keeps s s' k q e =
        let (s1, worked, stored) = mutate-eq-ok digest event_id c s s' now operation k e in
        subst Q (sym stored) (laws.finishes now s1 (keeps _ s1 k (laws.prepares now s q) worked))

    perform_request-Preserves :
        (r : Request) (p : Principal) (a : Option String) (now : ℕ)
        → Ok p
        → Preserves Q (perform_request digest event_id c r p a now)
    unfolding perform_request request_access activate_break_glass approve deny cancel revoke
        complete_post_review
    perform_request-Preserves (requests id i) p a now good =
        bind-Preserves Q (eligible c p false) _ λ _.
          bind-Preserves Q (manage p "privileged:request") _ λ _.
            bind-Preserves Q (Checks.requested i.permissions c.protected_permissions p.permissions)
              _
              λ ps.
                bind-Preserves Q (integer i.duration_minutes "durationMinutes" 5 c.max_duration) _
                  λ d. bind-Preserves Q (text_of i.reason "reason" 20 1000) _ λ r.
                    bind-Preserves Q (text_of i.ticket_ref "ticketRef" 3 128) _
                      λ t. mutate-Preserves now _ (laws.adds_request id p _ a now good)
    perform_request-Preserves (breaks_glass id i) p a now good =
        bind-Preserves Q (guard c.break_glass_enabled break_glass_disabled) _ λ _.
          bind-Preserves Q (manage p "privileged:break_glass") _ λ _.
            bind-Preserves Q (eligible c p true) _ λ _.
              bind-Preserves Q (guard (str_eq i.confirmation "BREAK GLASS") confirmation_required) _
                λ _.
                  bind-Preserves Q
                    (Checks.requested i.permissions c.protected_permissions p.permissions) _
                    λ ps.
                      bind-Preserves Q
                        (integer i.duration_minutes "durationMinutes" 5 c.break_glass_max) _
                        λ d. bind-Preserves Q (text_of i.reason "reason" 30 1000) _ λ r.
                          bind-Preserves Q (text_of i.incident_ref "incidentRef" 3 128) _
                            λ t. mutate-Preserves now _ (laws.adds_break_glass id p _ a now good)
    perform_request-Preserves (approves i) p a now good =
        bind-Preserves Q (manage p "privileged:approve") _ λ _.
          bind-Preserves Q (eligible c p false) _ λ _.
            bind-Preserves Q (text_of i.reason "comment" 10 1000) _ λ r.
              mutate-Preserves now _ (laws.adds_decision i.id i.expected_version p r a now good)
    perform_request-Preserves (denies i) p a now good =
        bind-Preserves Q (manage p "privileged:approve") _ λ _.
          bind-Preserves Q (eligible c p false) _ λ _.
            bind-Preserves Q (text_of i.reason "reason" 10 1000) _ λ r.
              mutate-Preserves now _ (laws.denies_pending i.id i.expected_version p r a now good)
    perform_request-Preserves (cancels i) p a now good =
        bind-Preserves Q (manage p "privileged:request") _ λ _.
          bind-Preserves Q (text_of i.reason "reason" 10 1000) _
            λ r. mutate-Preserves now _ (laws.cancels_open i.id i.expected_version p r a now good)
    perform_request-Preserves (revokes i) p a now good =
        bind-Preserves Q (manage p "privileged:revoke") _ λ _.
          bind-Preserves Q (eligible c p false) _ λ _.
            bind-Preserves Q (text_of i.reason "reason" 10 1000) _ λ r.
              mutate-Preserves now _ (laws.revokes_active i.id i.expected_version p r a now good)
    perform_request-Preserves (reviews i outcome) p a now good =
        bind-Preserves Q (manage p "privileged:approve") _ λ _.
          bind-Preserves Q (eligible c p false) _ λ _.
            bind-Preserves Q
              (guard (str_eq outcome "accepted" || str_eq outcome "concern") (bad_input "outcome"))
              _
              λ _. bind-Preserves Q (text_of i.reason "reason" 20 1000) _ λ r.
                mutate-Preserves now _
                  (laws.adds_review i.id i.expected_version p outcome r a now good)

    perform-keeps :
        (call : Call) (s : Snapshot)
        → Ok call.principal
        → Q s
        → Q (perform digest event_id c call s)
    unfolding perform
    perform-keeps call s good q =
        settled
          (perform_request digest event_id c call.request call.principal call.actor call.time s)
          (λ s' k e.
            perform_request-Preserves call.request call.principal call.actor call.time good s s' k q
              e)
      where
        settled :
            (r : Result Error (Snapshot × Item))
            → ((s' : Snapshot) (k : Item) → r ≡ ok (s', k) → Q s')
            → Q (elim r [ ok (s', _) ↦ s' | err _ ↦ s ])
        settled (ok (s', k)) h = h s' k refl
        settled (err e) h = q

    pub run-keeps :
        (calls : List Call) (s : Snapshot)
        → All (λ (call : Call). Ok call.principal) calls
        → Q s
        → Q (run digest event_id c calls s)
    unfolding run
    run-keeps [] s good q = q
    run-keeps (call ∷ calls) s good q =
        run-keeps calls (perform digest event_id c call s) good.1 (perform-keeps call s good.0 q)
