-- ===== src/PrivilegedAccess.antt =====
-- security/privilegedAccessRegistry.js: just-in-time grants of protected permissions, by approval or
-- by break-glass. This module has the data; times are milliseconds.
pub mod Checks
pub mod Events
pub mod Store
pub mod Requests
pub mod Decisions
pub mod Queries
pub mod Calls
pub mod Invariants
pub mod Induction
pub mod Versions
pub mod Outcomes
pub mod Additions
pub mod FourEyes
pub mod Authority
pub mod Integrity
mod Tests
use basitclaw.Common.{
  ℕ, ◌+◌, ◌*◌, ◌≡◌, String, Bool, Option, none, some, List, [], ◌∷◌, Result, ok, err,
}

pub data Mode : Type 0 where
  observe enforce : Mode

pub data Status : Type 0 where
  pending active denied cancelled revoked expired : Status

pub data Error : Type 0 where
  -- PrivilegedAccessError, by its code
  principal_invalid oidc_required amr_required acr_required grant_required : Error
  management_denied self_approval_denied self_review_denied cancel_denied : Error
  tenant_mismatch not_found id_invalid not_protected not_assigned : Error
  break_glass_disabled confirmation_required review_not_applicable : Error
  break_glass_self_review_denied precondition_required : Error
  -- PrivilegedAccessConflictError
  overlapping_request already_approved already_reviewed version_conflict : Error
  wrong_state : Status → Error
  -- TypeError on an argument, and PrivilegedAccessStoreError
  bad_input : String → Error
  store_unavailable : Error

pub record Principal : Type 0 where
  pub subject : String
  pub tenant_id : String
  pub role : String
  pub permissions : List String
  pub auth_method : String
  pub amr : List String
  pub acr : String

pub record Config : Type 0 where
  pub mode : Mode
  pub protected_permissions : List String
  pub approvals_required : ℕ
  pub approval_window_ms : ℕ
  pub max_duration : ℕ
  pub break_glass_enabled : Bool
  pub break_glass_max : ℕ
  pub review_ms : ℕ
  pub required_amr : List String
  pub required_acr : List String
  pub allow_api_key : Bool
  pub event_retention : ℕ
  pub request_retention_ms : ℕ

pub record Approval : Type 0 where
  pub subject : String
  pub role : String
  pub approved_at : ℕ
  pub comment : String

pub record Denial : Type 0 where
  pub subject : String
  pub denied_at : ℕ
  pub reason : String

pub record Review : Type 0 where
  pub reviewer : String
  pub reviewed_at : ℕ
  pub outcome : String
  pub reason : String

pub record Item : Type 0 where
  pub id : String
  pub subject : String
  pub tenant_id : String
  pub requester_role : String
  pub permissions : List String
  pub reason : String
  pub ticket_ref : String
  pub duration_minutes : ℕ
  pub status : Status
  pub break_glass : Bool
  pub approvals_required : ℕ
  pub approvals : List Approval
  pub denial : Option Denial
  pub requested_at : ℕ
  pub approval_expires_at : Option ℕ
  pub activated_at : Option ℕ
  pub expires_at : Option ℕ
  pub closed_at : Option ℕ
  pub post_review_by : Option ℕ
  pub post_review : Option Review
  pub version : ℕ

pub data Action : Type 0 where
  requested approved activated denied_request cancelled_request revoked_grant : Action
  break_glass_activated break_glass_reviewed expired_request break_glass_expired : Action

-- A value among the details of an event.
pub data Detail : Type 0 where
  text : String → Detail
  number : ℕ → Detail

-- An event without its hash: what is digested.
pub record Unsigned : Type 0 where
  pub id : String
  pub sequence : ℕ
  pub occurred_at : ℕ
  pub actor : String
  pub action : Action
  pub request_id : String
  pub subject : String
  pub tenant_id : String
  pub permissions : List String
  pub break_glass : Bool
  pub details : List (String × Detail)
  pub previous_hash : Option String

pub record Event : Type 0 where
  pub unsigned : Unsigned
  pub hash : String

-- What is left of the events that were cut off the front of the chain.
pub record Anchor : Type 0 where
  pub sequence : ℕ
  pub hash : Option String
  pub pruned_at : Option ℕ

-- The part of the snapshot that `event` and `trim` work on.
pub record Trail : Type 0 where
  pub event_sequence : ℕ
  pub anchor : Anchor
  pub events : List Event

-- `requests` is an object keyed by id, in the order in which the keys came in.
pub record Snapshot : Type 0 where
  pub revision : ℕ
  pub updated_at : ℕ
  pub requests : List Item
  pub trail : Trail

abbrev pub empty_trail : Trail
empty_trail = record {
  event_sequence = 0;
  anchor = record { sequence = 0; hash = none; pruned_at = none };
  events = [];
}

unfoldable pub empty_snapshot : ℕ → Snapshot
empty_snapshot now = record { revision = 0; updated_at = now; requests = []; trail = empty_trail }

-- A grant of `n` minutes from `t`.
abbrev pub after_minutes : ℕ → ℕ → ℕ
after_minutes t n = t + n * 60000
