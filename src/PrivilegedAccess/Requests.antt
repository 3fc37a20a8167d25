-- ===== src/PrivilegedAccess/Requests.antt =====
-- security/privilegedAccessRegistry.js, `requestAccess` and `activateBreakGlass`. The random id of a
-- new request is an argument.
use basitclaw.Common.{
  ℕ, ◌+◌, String, Bool, true, false, ◌&&◌, not, Option, none, some, List, [], ◌∷◌, ◌++◌, str_eq,
  any, Result, ok, ◌>>=◌, ◌>>◌, guard,
}
use basitclaw.Common.Text.{contains}
use basitclaw.PrivilegedAccess.{
  Config, Principal, Item, pending, active, Snapshot, Error, overlapping_request,
  break_glass_disabled, confirmation_required, Unsigned, requested, break_glass_activated, text,
  number, after_minutes,
}
use basitclaw.PrivilegedAccess.Checks.{
  eligible, manage, text_of, integer, subject_of, identifier, role_of, actor_of,
}
use basitclaw.PrivilegedAccess.Checks
use basitclaw.PrivilegedAccess.Events.{event}
use basitclaw.PrivilegedAccess.Store.{effective, is_open, mutate}

pub record RequestInput : Type 0 where
  pub permissions : List String
  pub duration_minutes : ℕ
  pub reason : String
  pub ticket_ref : String

pub record BreakGlassInput : Type 0 where
  pub confirmation : String
  pub permissions : List String
  pub duration_minutes : ℕ
  pub reason : String
  pub incident_ref : String

-- An open request of the same subject and tenant for one of the permissions.
unfoldable pub overlaps : Principal → List String → ℕ → Item → Bool
overlaps p permissions now i =
    is_open (effective i now).status
    && str_eq i.subject p.subject
    && str_eq i.tenant_id p.tenant_id
    && any (λ v. contains v permissions) i.permissions

-- What the arguments of a request come to.
pub record Terms : Type 0 where
  pub permissions : List String
  pub duration_minutes : ℕ
  pub reason : String
  pub ticket_ref : String

-- The subject, tenant and role that a new item names.
pub record Holder : Type 0 where
  pub subject : String
  pub tenant_id : String
  pub role : String

unfoldable pub holder_of : Principal → Result Error Holder
holder_of p = do
  subject ← subject_of p.subject
  tenant_id ← identifier p.tenant_id "tenantId"
  role ← role_of p.role
  ok (record { subject = subject; tenant_id = tenant_id; role = role })

unfoldable pub pending_item : Config → String → ℕ → Holder → Terms → Item
pending_item c id now h t = record {
  id = id;
  subject = h.subject;
  tenant_id = h.tenant_id;
  requester_role = h.role;
  permissions = t.permissions;
  reason = t.reason;
  ticket_ref = t.ticket_ref;
  duration_minutes = t.duration_minutes;
  status = pending;
  break_glass = false;
  approvals_required = c.approvals_required;
  approvals = [];
  denial = none;
  requested_at = now;
  approval_expires_at = some (now + c.approval_window_ms);
  activated_at = none;
  expires_at = none;
  closed_at = none;
  post_review_by = none;
  post_review = none;
  version = 1;
}

unfoldable pub break_glass_item : Config → String → ℕ → Holder → Terms → Item
break_glass_item c id now h t = record {
  id = id;
  subject = h.subject;
  tenant_id = h.tenant_id;
  requester_role = h.role;
  permissions = t.permissions;
  reason = t.reason;
  ticket_ref = t.ticket_ref;
  duration_minutes = t.duration_minutes;
  status = active;
  break_glass = true;
  approvals_required = 0;
  approvals = [];
  denial = none;
  requested_at = now;
  approval_expires_at = none;
  activated_at = some now;
  expires_at = some (after_minutes now t.duration_minutes);
  closed_at = none;
  post_review_by = some (now + c.review_ms);
  post_review = none;
  version = 1;
}

module _ (digest : Unsigned → String) (event_id : ℕ → String) (c : Config) where
  -- The body of the mutation of `requestAccess`.
  unfoldable pub add_request :
      String → Principal → Terms → Option String → ℕ → Snapshot → Result Error (Snapshot × Item)
  add_request id p t actor now s = do
    guard (not (any (overlaps p t.permissions now) s.requests)) overlapping_request
    h ← holder_of p
    a ← actor_of actor p
    let item = pending_item c id now h t
    ok (
      record s {
        requests = s.requests ++ item ∷ [];
        trail =
            event digest event_id s.trail now requested a item
              (("reason", text t.reason) ∷ ("ticketRef", text t.ticket_ref) ∷ []);
      },
      item,
    )

  unfoldable pub request_access :
      String
      → Principal
      → RequestInput
      → Option String
      → ℕ
      → Snapshot
      → Result Error (Snapshot × Item)
  request_access id p input actor now s = do
    eligible c p false
    manage p "privileged:request"
    permissions ← Checks.requested input.permissions c.protected_permissions p.permissions
    duration ← integer input.duration_minutes "durationMinutes" 5 c.max_duration
    reason ← text_of input.reason "reason" 20 1000
    ticket ← text_of input.ticket_ref "ticketRef" 3 128
    let t : Terms = record {
      permissions = permissions;
      duration_minutes = duration;
      reason = reason;
      ticket_ref = ticket;
    }
    mutate digest event_id c s now (add_request id p t actor now)

  -- The body of the mutation of `activateBreakGlass`.
  unfoldable pub add_break_glass :
      String → Principal → Terms → Option String → ℕ → Snapshot → Result Error (Snapshot × Item)
  add_break_glass id p t actor now s = do
    h ← holder_of p
    a ← actor_of actor p
    let item = break_glass_item c id now h t
    ok (
      record s {
        requests = s.requests ++ item ∷ [];
        trail = event digest event_id s.trail now break_glass_activated a item (
            ("reason", text t.reason)
            ∷ ("incidentRef", text t.ticket_ref)
            ∷ ("expiresAt", number (after_minutes now t.duration_minutes))
            ∷ ("postReviewBy", number (now + c.review_ms))
            ∷ []);
      },
      item,
    )

  unfoldable pub activate_break_glass :
      String
      → Principal
      → BreakGlassInput
      → Option String
      → ℕ
      → Snapshot
      → Result Error (Snapshot × Item)
  activate_break_glass id p input actor now s = do
    guard c.break_glass_enabled break_glass_disabled
    manage p "privileged:break_glass"
    eligible c p true
    guard (str_eq input.confirmation "BREAK GLASS") confirmation_required
    permissions ← Checks.requested input.permissions c.protected_permissions p.permissions
    duration ← integer input.duration_minutes "durationMinutes" 5 c.break_glass_max
    reason ← text_of input.reason "reason" 30 1000
    incident ← text_of input.incident_ref "incidentRef" 3 128
    let t : Terms = record {
      permissions = permissions;
      duration_minutes = duration;
      reason = reason;
      ticket_ref = incident;
    }
    mutate digest event_id c s now (add_break_glass id p t actor now)
