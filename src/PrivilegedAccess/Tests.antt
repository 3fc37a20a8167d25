-- ===== src/PrivilegedAccess/Tests.antt =====
-- Runs of the registry of privileged access, and its theorems at concrete calls.
use basitclaw.Common.{
  ℕ, ◌≤◌, ◌<◌, ◌≡◌, refl, String, true, false, none, some, List, [], ◌∷◌, ok, err, length, take,
  All,
}
use basitclaw.PrivilegedAccess.{
  Approval, Config, Principal, Item, Snapshot, Unsigned, enforce, active, empty_snapshot,
  grant_required, self_approval_denied,
}
use basitclaw.PrivilegedAccess.Checks.{
  find_item, eligible, manage, text_of, integer, subject_of, identifier, role_of, actor_of,
  string_list, requested, is_request_id, request, check_version, check_tenant,
}
use basitclaw.PrivilegedAccess.Store.{
  prepare, effective, mutate, settle, expire, expire_item, expire_event, prune, prunable,
  effective_status, reached, finish, set_item, wrap_error,
}
use basitclaw.PrivilegedAccess.Events.{verify_events, trim_events, event, new_event, last_hash}
use basitclaw.PrivilegedAccess.Requests.{
  RequestInput, request_access, add_request, overlaps, holder_of, pending_item,
}
use basitclaw.PrivilegedAccess.Decisions.{
  DecisionInput, approve, add_decision, add_approval, activate, approved_item,
}
use basitclaw.PrivilegedAccess.Queries.{granted, authorise, find_grant, covers}
use basitclaw.Common.Text.{
  utf16_length, trim_text, distinct_texts, is_safe, is_subject_code, sort_texts,
}
use basitclaw.AccessControl.{permissions_for_role}
use basitclaw.PrivilegedAccess.Calls.{
  Call, Request, requests, approves, perform_request, perform, run,
}
use basitclaw.PrivilegedAccess.FourEyes.{authorise-run, DistinctApprovers}
use basitclaw.PrivilegedAccess.Outcomes.{IsNew}
use basitclaw.PrivilegedAccess.Authority.{Backed, authorise-Backed, authorise-enforce}
use basitclaw.PrivilegedAccess.Integrity.{verify_events-run}
use basitclaw.PrivilegedAccess.Versions.{Advances, perform_request-Advances}

abbrev config : Config
config = record {
  mode = enforce;
  protected_permissions = "governance:export" ∷ [];
  approvals_required = 2;
  approval_window_ms = 3_600_000;
  max_duration = 60;
  break_glass_enabled = true;
  break_glass_max = 15;
  review_ms = 86_400_000;
  required_amr = [];
  required_acr = [];
  allow_api_key = false;
  event_retention = 2;
  request_retention_ms = 86_400_000;
}

abbrev person : String → Principal
person name = record {
  subject = name;
  tenant_id = "acme";
  role = "compliance_admin";
  permissions =
      "governance:export" ∷ "privileged:request" ∷ "privileged:approve" ∷ "privileged:revoke" ∷ [];
  auth_method = "oidc";
  amr = [];
  acr = "";
}

abbrev id : String
id = "PAM-00000000-0000-0000-0000-000000000001"

abbrev wish : RequestInput
wish = record {
  permissions = "governance:export" ∷ [];
  duration_minutes = 30;
  reason = "quarterly export for the auditor";
  ticket_ref = "T-100";
}

abbrev at_version : ℕ → DecisionInput
at_version n = record { id = id; expected_version = some n; reason = "checked the ticket" }

abbrev call : Request → String → ℕ → Call
call r name time = record { request = r; principal = person name; actor = none; time = time }

abbrev calls : List Call
calls =
    call (requests id wish) "ann" 1_000
    ∷ call (approves (at_version 1)) "bob" 2_000
    ∷ call (approves (at_version 2)) "cem" 3_000
    ∷ []

-- A digest that is good enough for a run.
abbrev digest : Unsigned → String
digest u = String.◌∷◌ "h" u.actor

abbrev event_id : ℕ → String
event_id n = "EVT"

abbrev after : Snapshot
after = run digest event_id config calls (empty_snapshot 0)

abbrev approval : String → ℕ → Approval
approval name time = record {
  subject = name;
  role = "compliance_admin";
  approved_at = time;
  comment = "checked the ticket";
}

abbrev grant : Item
grant = record {
  id = id;
  subject = "ann";
  tenant_id = "acme";
  requester_role = "compliance_admin";
  permissions = "governance:export" ∷ [];
  reason = "quarterly export for the auditor";
  ticket_ref = "T-100";
  duration_minutes = 30;
  status = active;
  break_glass = false;
  approvals_required = 2;
  approvals = approval "bob" 2_000 ∷ approval "cem" 3_000 ∷ [];
  denial = none;
  requested_at = 1_000;
  approval_expires_at = some 3_601_000;
  activated_at = some 3_000;
  expires_at = some 1_803_000;
  closed_at = none;
  post_review_by = none;
  post_review = none;
  version = 3;
}

run_grants : authorise config after 4_000 (person "ann") "governance:export" ≡ ok (granted grant)
unfolding run perform perform_request request_access approve add_request add_decision mutate settle
    prepare expire expire_item expire_event prune prunable effective effective_status reached finish
    trim_events event new_event last_hash eligible manage text_of integer subject_of identifier
    role_of actor_of string_list requested is_request_id find_item request check_version
    check_tenant overlaps holder_of pending_item add_approval activate approved_item set_item
    find_grant covers authorise empty_snapshot permissions_for_role utf16_length trim_text
    distinct_texts is_safe is_subject_code sort_texts wrap_error
run_grants = refl

-- Bob alone is not enough, and ann may not approve.
one_approval_is_not_enough :
    authorise config
      (run digest event_id config (take 2 calls) (empty_snapshot 0))
      3_000
      (person "ann")
      "governance:export"
    ≡ err grant_required
unfolding run perform perform_request request_access approve add_request add_decision mutate settle
    prepare expire expire_item expire_event prune prunable effective effective_status reached finish
    trim_events event new_event last_hash eligible manage text_of integer subject_of identifier
    role_of actor_of string_list requested is_request_id find_item request check_version
    check_tenant overlaps holder_of pending_item add_approval activate approved_item set_item
    find_grant covers authorise empty_snapshot permissions_for_role utf16_length trim_text
    distinct_texts is_safe is_subject_code sort_texts wrap_error
one_approval_is_not_enough = refl

self_approval_fails :
    perform_request digest event_id config
      (approves (at_version 1))
      (person "ann")
      none
      2_000
      (run digest event_id config (take 1 calls) (empty_snapshot 0))
    ≡ err self_approval_denied
unfolding run perform perform_request request_access approve add_request add_decision mutate settle
    prepare expire expire_item expire_event prune prunable effective effective_status reached finish
    trim_events event new_event last_hash eligible manage text_of integer subject_of identifier
    role_of actor_of string_list requested is_request_id find_item request check_version
    check_tenant overlaps holder_of pending_item add_approval activate approved_item set_item
    find_grant covers authorise empty_snapshot permissions_for_role utf16_length trim_text
    distinct_texts is_safe is_subject_code sort_texts wrap_error
self_approval_fails = refl

grant_ends :
    authorise config after 1_803_000 (person "ann") "governance:export" ≡ err grant_required
unfolding run perform perform_request request_access approve add_request add_decision mutate settle
    prepare expire expire_item expire_event prune prunable effective effective_status reached finish
    trim_events event new_event last_hash eligible manage text_of integer subject_of identifier
    role_of actor_of string_list requested is_request_id find_item request check_version
    check_tenant overlaps holder_of pending_item add_approval activate approved_item set_item
    find_grant covers authorise empty_snapshot permissions_for_role utf16_length trim_text
    distinct_texts is_safe is_subject_code sort_texts wrap_error
grant_ends = refl

calls_are_trimmed : All (λ (c : Call). trim_text c.principal.subject ≡ c.principal.subject) calls
unfolding trim_text
calls_are_trimmed = (refl, (refl, (refl, tt)))

authorise-run_example :
    (2 ≤ length grant.approvals) × IsNew "ann" grant.approvals × DistinctApprovers grant.approvals
authorise-run_example =
    authorise-run config digest event_id calls 0 4_000 (person "ann") "governance:export" grant
      calls_are_trimmed run_grants refl

authorise-Backed_example :
    Backed after 4_000 (person "ann") "governance:export" grant
    × (eligible config (person "ann") false ≡ ok tt)
    × ((t : ℕ) → grant.expires_at ≡ some t → 4_000 < t)
authorise-Backed_example =
    authorise-Backed config after 4_000 (person "ann") "governance:export" grant run_grants

authorise-enforce_example :
    (g : Item) × (granted grant ≡ granted g)
    × Backed after 4_000 (person "ann") "governance:export" g
authorise-enforce_example =
    authorise-enforce config after 4_000 (person "ann") "governance:export" (granted grant) refl
      refl run_grants

verify_events-run_example : verify_events digest after.trail ≡ true
verify_events-run_example = verify_events-run digest event_id config calls 0

abbrev before_last : Snapshot
before_last = run digest event_id config (take 2 calls) (empty_snapshot 0)

last_call :
    perform_request digest event_id config
      (approves (at_version 2))
      (person "cem")
      none
      3_000
      before_last
    ≡ ok (after, grant)
unfolding run perform perform_request request_access approve add_request add_decision mutate settle
    prepare expire expire_item expire_event prune prunable effective effective_status reached finish
    trim_events event new_event last_hash eligible manage text_of integer subject_of identifier
    role_of actor_of string_list requested is_request_id find_item request check_version
    check_tenant overlaps holder_of pending_item add_approval activate approved_item set_item
    find_grant covers authorise empty_snapshot permissions_for_role utf16_length trim_text
    distinct_texts is_safe is_subject_code sort_texts wrap_error
last_call = refl

perform_request-Advances_example :
    Advances (prepare digest event_id config 3_000 before_last) after grant (at_version 2)
perform_request-Advances_example =
    perform_request-Advances digest event_id config (approves (at_version 2)) (at_version 2)
      (person "cem") none 3_000 before_last after grant refl last_call
