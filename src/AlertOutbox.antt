-- ===== src/AlertOutbox.antt =====
-- security/securityAlertOutbox.js: alerts that wait for delivery, as files in four directories. This
-- module has the data. A delivery id is a number: `ALERT-` and 32 hexadecimal digits sort like it.
-- Times are milliseconds; an operation reads the clock once.
pub mod Files
pub mod Operations
pub mod Recovery
pub mod Steps
pub mod Exclusive
pub mod Calls
pub mod Claims
pub mod Forgetting
mod Tests
use basitclaw.Common.{ℕ, String, Option, List, []}
use basitclaw.AlertOutbox.Files.{Directory}

pub data State : Type 0 where
  pending inflight dead_letter delivered : State

pub data Error : Type 0 where
  -- readJson of a file that is not there
  no_file : Error
  not_owned invalid_state bad_limit : Error

-- claimedAt, claimToken and claimExpiresAt, which are set and deleted together.
pub record Claim : Type 0 where
  pub claimed_at : ℕ
  pub token : String
  pub expires_at : ℕ

-- deadLetteredAt and deadLetterReason.
pub record Burial : Type 0 where
  pub dead_lettered_at : ℕ
  pub reason : String

pub record Event : Type 0 where
  pub id : Option String
  pub hash : Option String
  pub text : String

pub record Item : Type 0 where
  pub delivery_id : ℕ
  pub state : State
  pub created_at : ℕ
  pub updated_at : ℕ
  pub attempts : ℕ
  pub next_attempt_at : ℕ
  pub last_attempt_at : Option ℕ
  pub last_status : Option ℕ
  pub last_error : Option String
  pub event : Event
  pub claim : Option Claim
  pub burial : Option Burial

pub record Receipt : Type 0 where
  pub delivery_id : ℕ
  pub created_at : ℕ
  pub delivered_at : ℕ
  pub attempts : ℕ
  pub response_status : Option ℕ
  pub response_id : Option String
  pub event_id : Option String
  pub event_hash : Option String

pub record Config : Type 0 where
  pub inflight_lease_ms : ℕ
  pub delivered_retention : ℕ
  pub dead_letter_retention : ℕ

-- The four directories.
pub record Outbox : Type 0 where
  pub pendings : Directory Item
  pub inflights : Directory Item
  pub delivereds : Directory Receipt
  pub deads : Directory Item

abbrev pub empty_outbox : Outbox
empty_outbox = record { pendings = []; inflights = []; delivereds = []; deads = [] }
