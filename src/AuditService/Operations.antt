-- ===== src/AuditService/Operations.antt =====
-- services/workforceAuditService.js: the operations of one tenant's service that write, with
-- commitMutation around the change of each.
use basitclaw.Common.{
  ℕ, ◌+◌, String, Bool, true, false, ◌&&◌, not, Option, none, some, List, [], ◌∷◌, ◌++◌, map, leb,
  ltb, if◌then◌else◌, str_eq, length, filter, any, find, Result, ok, err, ◌>>=◌, ◌>>◌, guard,
}
use basitclaw.Common.Text.{trim_text, contains}
use basitclaw.Ledger.{Ledger, Unsigned, append, checkpoint, rollback_to}
use basitclaw.Ledger.Metadata.{text, number, boolean, object, Fields, end, field}
use basitclaw.AuditService.{
  Error, Placeholder, Engagement, Finding, State, World, EngagementInput, PlaceholderInput,
  FindingInput, required, parse_date, append_text, clean_text, is_placeholder_ref, safe_actor,
  overlaps, days_until, is_closed, add_placeholder, validation, not_found, persistence_unavailable,
  ledger_refused,
}

module _ (hash_event : Unsigned → String) (tenant : String) (persist : World → Bool) where
  -- recordGovernance
  unfoldable pub record_governance :
      String → String → String → Option String → Fields → ℕ → Ledger → Result Error Ledger
  record_governance action entity_type entity_id actor metadata now l =
      elim (append hash_event l
        (record {
          tenant_id = tenant;
          actor = safe_actor actor;
          action = action;
          entity_type = entity_type;
          entity_id = entity_id;
          metadata = object metadata;
        })
        now) [ ok (l', _) ↦ ok l' | err e ↦ err (ledger_refused e) ]

  -- What `commitMutation` makes of the mutation's outcome: the result, and the world it leaves.
  unfoldable pub settle : {A : Type 0} → World → Result Error (World × A) → Result Error A × World
  settle w (err e) =
      (err e, record w { ledger = rollback_to tenant (checkpoint tenant w.ledger) w.ledger })
  settle w (ok (w', a)) = if persist w' then (ok a, w') else (
    err persistence_unavailable,
    record { state = w.state; ledger = rollback_to tenant (checkpoint tenant w.ledger) w'.ledger },
  )

  unfoldable pub commit_mutation :
      {A : Type 0} → (World → Result Error (World × A)) → World → Result Error A × World
  unfolding settle
  commit_mutation mutator w = settle w (mutator w)

  -- Checks on the arguments throw before anything is changed.
  unfoldable pub checked :
      {A B : Type 0}
      → Result Error A
      → (A → Result Error B × World)
      → World
      → Result Error B × World
  checked (err e) rest w = (err e, w)
  checked (ok a) rest w = rest a

  module _ (universe : List String) (year : ℕ → String) (padded : ℕ → ℕ → String) where
    unfoldable pub new_engagement : EngagementInput → ℕ → State → Result Error Engagement
    new_engagement input now s = do
      required input.universe_item_id "universeItemId"
      required input.objective "objective"
      required input.lead_auditor "leadAuditor"
      required input.start_date.written "startDate"
      required input.end_date.written "endDate"
      guard (contains input.universe_item_id universe) (validation "universeItemId")
      guard (leb 1 (length input.scope) && not (any (λ t. str_eq (trim_text t) "") input.scope))
          (validation "scope")
      starts ← parse_date input.start_date "startDate"
      ends ← parse_date input.end_date "endDate"
      guard (ltb starts ends) (validation "endDate")
      guard input.management_approved (validation "managementApproved")
      guard (not (any (overlaps input.universe_item_id starts ends) s.engagements))
          (validation "conflictingEngagementId")
      ok (record {
        id =
            append_text "ENG-"
              (append_text (year now) (append_text "-" (padded 3 (length s.engagements + 5))));
        universe_item_id = input.universe_item_id;
        objective = clean_text input.objective;
        scope = map clean_text input.scope;
        exclusions = filter (λ t. not (str_eq t "")) (map clean_text input.exclusions);
        lead_auditor = clean_text input.lead_auditor;
        starts = starts;
        ends = ends;
        status = "planned";
        placeholders = [];
      })

    -- The mutation of `createEngagement`.
    unfoldable pub push_engagement :
        EngagementInput → Option String → ℕ → Engagement → World → Result Error (World × Engagement)
    push_engagement input actor now e w = do
      l ←
          record_governance "engagement.created" "engagement" e.id actor
            (field "universeItemId" (text e.universe_item_id) (
              field "startDate" (text input.start_date.written)
                (field "endDate" (text input.end_date.written) end)))
            now w.ledger
      ok (
        record {
          state = record w.state { engagements = w.state.engagements ++ e ∷ [] };
          ledger = l;
        },
        e,
      )

    unfoldable pub create_engagement :
        EngagementInput → Option String → ℕ → World → Result Error Engagement × World
    unfolding checked
    create_engagement input actor now w =
        checked (new_engagement input now w.state)
          (λ e. commit_mutation (push_engagement input actor now e) w) w

    unfoldable pub new_placeholder :
        String → PlaceholderInput → ℕ → State → Result Error Placeholder
    new_placeholder id input now s = do
      e ← elim (find (λ e. str_eq e.id id) s.engagements) [ none ↦ err not_found | some e ↦ ok e ]
      required input.title "title"
      required input.reason "reason"
      required input.owner "owner"
      required input.expires_at.written "expiresAt"
      expires ← parse_date input.expires_at "expiresAt"
      guard (ltb now expires) (validation "expiresAt")
      guard (leb (days_until expires now) 60) (validation "expiresAt")
      ok (record {
        id =
            append_text "PLH-"
              (append_text id (append_text "-" (padded 2 (length e.placeholders + 1))));
        title = clean_text input.title;
        reason = clean_text input.reason;
        owner = clean_text input.owner;
        expires_at = input.expires_at.written;
      })

    unfoldable pub push_placeholder :
        String → Option String → ℕ → Placeholder → World → Result Error (World × Placeholder)
    push_placeholder id actor now p w = do
      l ←
          record_governance "fieldwork.placeholder.created" "fieldwork_placeholder" p.id actor
            (field "engagementId" (text id) (
              field "expiresAt" (text p.expires_at)
                (field "replacementEvidenceRequired" (boolean true) end)))
            now w.ledger
      ok (
        record {
          state = record w.state { engagements = add_placeholder id p w.state.engagements };
          ledger = l;
        },
        p,
      )

    unfoldable pub add_fieldwork_placeholder :
        String → PlaceholderInput → Option String → ℕ → World → Result Error Placeholder × World
    add_fieldwork_placeholder id input actor now w =
        checked (new_placeholder id input now w.state)
          (λ p. commit_mutation (push_placeholder id actor now p) w) w

    unfoldable pub new_finding : FindingInput → ℕ → State → Result Error Finding
    new_finding input now s = do
      required input.engagement_id "engagementId"
      required input.title "title"
      required input.severity "severity"
      required input.owner "owner"
      required input.due_date.written "dueDate"
      guard (any (λ e. str_eq e.id input.engagement_id) s.engagements) (validation "engagementId")
      guard (contains input.severity ("low" ∷ "medium" ∷ "high" ∷ "critical" ∷ []))
          (validation "severity")
      guard (leb 1 (length input.evidence_refs)) (validation "evidenceRefs")
      guard
          (not (
            elim input.status [ none ↦ false | some st ↦ is_closed st ]
            && any is_placeholder_ref input.evidence_refs))
          (validation "evidenceRefs")
      _ ← parse_date input.due_date "dueDate"
      ok (record {
        id =
            append_text "FND-"
              (append_text (year now) (append_text "-" (padded 3 (length s.findings + 12))));
        engagement_id = input.engagement_id;
        title = clean_text input.title;
        severity = input.severity;
        owner = clean_text input.owner;
        due_date = input.due_date.written;
        evidence_refs = map clean_text input.evidence_refs;
        response_required = not input.response_optional;
        status = elim input.status [ none ↦ "draft" | some st ↦ st ];
      })

    unfoldable pub push_finding :
        Option String → ℕ → Finding → World → Result Error (World × Finding)
    push_finding actor now f w = do
      l ←
          record_governance "finding.created" "finding" f.id actor
            (field "engagementId" (text f.engagement_id) (
              field "severity" (text f.severity) (
                field "dueDate" (text f.due_date)
                  (field "evidenceCount" (number (padded 0 (length f.evidence_refs))) end))))
            now w.ledger
      ok (
        record { state = record w.state { findings = w.state.findings ++ f ∷ [] }; ledger = l },
        f,
      )

    unfoldable pub create_finding :
        FindingInput → Option String → ℕ → World → Result Error Finding × World
    create_finding input actor now w =
        checked (new_finding input now w.state) (λ f. commit_mutation (push_finding actor now f) w)
          w
