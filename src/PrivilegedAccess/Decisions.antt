-- ===== src/PrivilegedAccess/Decisions.antt =====
-- security/privilegedAccessRegistry.js, `approve`, `deny`, `cancel`, `revoke` and
-- `completePostReview`: what happens to a request that is there.
use basitclaw.Common.{
  ℕ, ◌+◌, String, true, false, ◌&&◌, ◌||◌, not, Option, none, some, [], ◌∷◌, ◌++◌, leb,
  if◌then◌else◌, str_eq, length, any, Result, ok, ◌>>=◌, ◌>>◌, guard,
}
use basitclaw.PrivilegedAccess.{
  Config, Principal, Item, Approval, Status, pending, active, denied, cancelled, revoked, Snapshot,
  Error, self_approval_denied, self_review_denied, cancel_denied, review_not_applicable,
  break_glass_self_review_denied, already_approved, already_reviewed, wrong_state, bad_input,
  Unsigned, approved, activated, denied_request, cancelled_request, revoked_grant,
  break_glass_reviewed, text, number, after_minutes,
}
use basitclaw.PrivilegedAccess.Checks.{
  eligible, manage, text_of, subject_of, role_of, actor_of, request, check_version, check_tenant,
}
use basitclaw.PrivilegedAccess.Events.{event}
use basitclaw.PrivilegedAccess.Store.{effective_status, same_status, is_open, set_item, mutate}

abbrev in_state : Status → Item → ℕ → Result Error (Unit {0})
in_state s item now = guard (same_status (effective_status item now) s) (wrong_state item.status)

-- The id, the precondition and the free text of a call.
pub record DecisionInput : Type 0 where
  pub id : String
  pub expected_version : Option ℕ
  pub reason : String

-- `push` of an approval.
unfoldable pub add_approval : Approval → Item → Item
add_approval a i = record i { approvals = i.approvals ++ a ∷ []; version = i.version + 1 }

unfoldable pub activate : ℕ → Item → Item
activate now i = record i {
  status = active;
  activated_at = some now;
  expires_at = some (after_minutes now i.duration_minutes);
}

-- The item that an approval leaves: active once there are enough.
unfoldable pub approved_item : ℕ → Approval → Item → Item
unfolding add_approval activate
approved_item now a i =
    let j = add_approval a i in
    if leb j.approvals_required (length j.approvals) then activate now j else j

unfoldable pub close_item : Status → ℕ → Item → Item
close_item s now i = record i { status = s; closed_at = some now; version = i.version + 1 }

module _ (digest : Unsigned → String) (event_id : ℕ → String) (c : Config) where
  -- The body of the mutation of `approve`.
  unfoldable pub add_decision :
      String
      → Option ℕ
      → Principal
      → String
      → Option String
      → ℕ
      → Snapshot
      → Result Error (Snapshot × Item)
  add_decision id expected p comment actor now s = do
    item ← request s.requests id
    check_version item expected
    check_tenant item p
    in_state pending item now
    guard (not (str_eq item.subject p.subject)) self_approval_denied
    guard (not (any (λ v. str_eq v.subject p.subject) item.approvals)) already_approved
    subject ← subject_of p.subject
    role ← role_of p.role
    a ← actor_of actor p
    let approval : Approval = record {
      subject = subject;
      role = role;
      approved_at = now;
      comment = comment;
    }
    let j = add_approval approval item
    let k = approved_item now approval item
    let t =
        event digest event_id s.trail now approved a j
          (("approver", text p.subject) ∷ ("approvalCount", number (length j.approvals)) ∷ [])
    ok (
      record s {
        requests = set_item k s.requests;
        trail =
            if leb j.approvals_required (length j.approvals)
            then event digest event_id t now activated "system:privileged-access" k
                (("expiresAt", number (after_minutes now item.duration_minutes)) ∷ [])
            else t;
      },
      k,
    )

  unfoldable pub approve :
      DecisionInput → Principal → Option String → ℕ → Snapshot → Result Error (Snapshot × Item)
  approve input p actor now s = do
    manage p "privileged:approve"
    eligible c p false
    comment ← text_of input.reason "comment" 10 1000
    mutate digest event_id c s now
        (add_decision input.id input.expected_version p comment actor now)

  -- The body of the mutation of `closePending`, which `deny` calls with `denied`.
  unfoldable pub deny_pending :
      String
      → Option ℕ
      → Principal
      → String
      → Option String
      → ℕ
      → Snapshot
      → Result Error (Snapshot × Item)
  deny_pending id expected p reason actor now s = do
    item ← request s.requests id
    check_version item expected
    check_tenant item p
    in_state pending item now
    guard (not (str_eq item.subject p.subject)) self_review_denied
    subject ← subject_of p.subject
    a ← actor_of actor p
    let closed = close_item denied now item
    let k : Item = record closed {
      denial = some (record { subject = subject; denied_at = now; reason = reason });
    }
    ok (
      record s {
        requests = set_item k s.requests;
        trail = event digest event_id s.trail now denied_request a k (("reason", text reason) ∷ []);
      },
      k,
    )

  unfoldable pub deny :
      DecisionInput → Principal → Option String → ℕ → Snapshot → Result Error (Snapshot × Item)
  deny input p actor now s = do
    manage p "privileged:approve"
    eligible c p false
    reason ← text_of input.reason "reason" 10 1000
    mutate digest event_id c s now (deny_pending input.id input.expected_version p reason actor now)

  -- The body of the mutation of `cancel`: an active grant becomes revoked, a pending one cancelled.
  unfoldable pub cancel_open :
      String
      → Option ℕ
      → Principal
      → String
      → Option String
      → ℕ
      → Snapshot
      → Result Error (Snapshot × Item)
  cancel_open id expected p reason actor now s = do
    item ← request s.requests id
    check_version item expected
    guard (str_eq item.subject p.subject && str_eq item.tenant_id p.tenant_id) cancel_denied
    guard (is_open (effective_status item now)) (wrong_state item.status)
    a ← actor_of actor p
    let k =
        close_item (if same_status (effective_status item now) active then revoked else cancelled)
          now item
    ok (
      record s {
        requests = set_item k s.requests;
        trail =
            event digest event_id s.trail now cancelled_request a k (("reason", text reason) ∷ []);
      },
      k,
    )

  unfoldable pub cancel :
      DecisionInput → Principal → Option String → ℕ → Snapshot → Result Error (Snapshot × Item)
  cancel input p actor now s = do
    manage p "privileged:request"
    reason ← text_of input.reason "reason" 10 1000
    mutate digest event_id c s now (cancel_open input.id input.expected_version p reason actor now)

  -- The body of the mutation of `revoke`.
  unfoldable pub revoke_active :
      String
      → Option ℕ
      → Principal
      → String
      → Option String
      → ℕ
      → Snapshot
      → Result Error (Snapshot × Item)
  revoke_active id expected p reason actor now s = do
    item ← request s.requests id
    check_version item expected
    check_tenant item p
    in_state active item now
    a ← actor_of actor p
    let k = close_item revoked now item
    ok (
      record s {
        requests = set_item k s.requests;
        trail = event digest event_id s.trail now revoked_grant a k (("reason", text reason) ∷ []);
      },
      k,
    )

  unfoldable pub revoke :
      DecisionInput → Principal → Option String → ℕ → Snapshot → Result Error (Snapshot × Item)
  revoke input p actor now s = do
    manage p "privileged:revoke"
    eligible c p false
    reason ← text_of input.reason "reason" 10 1000
    mutate digest event_id c s now
        (revoke_active input.id input.expected_version p reason actor now)

  -- The body of the mutation of `completePostReview`.
  unfoldable pub add_review :
      String
      → Option ℕ
      → Principal
      → String
      → String
      → Option String
      → ℕ
      → Snapshot
      → Result Error (Snapshot × Item)
  add_review id expected p outcome reason actor now s = do
    item ← request s.requests id
    check_version item expected
    check_tenant item p
    guard item.break_glass review_not_applicable
    guard (not (str_eq item.subject p.subject)) break_glass_self_review_denied
    guard (elim item.post_review [ none ↦ true | some _ ↦ false ]) already_reviewed
    reviewer ← subject_of p.subject
    a ← actor_of actor p
    let k : Item = record item {
      post_review =
          some
            (record { reviewer = reviewer; reviewed_at = now; outcome = outcome; reason = reason });
      version = item.version + 1;
    }
    ok (
      record s {
        requests = set_item k s.requests;
        trail =
            event digest event_id s.trail now break_glass_reviewed a k
              (("outcome", text outcome) ∷ ("reason", text reason) ∷ []);
      },
      k,
    )

  unfoldable pub complete_post_review :
      DecisionInput
      → String
      → Principal
      → Option String
      → ℕ
      → Snapshot
      → Result Error (Snapshot × Item)
  complete_post_review input outcome p actor now s = do
    manage p "privileged:approve"
    eligible c p false
    guard (str_eq outcome "accepted" || str_eq outcome "concern") (bad_input "outcome")
    reason ← text_of input.reason "reason" 20 1000
    mutate digest event_id c s now
        (add_review input.id input.expected_version p outcome reason actor now)
