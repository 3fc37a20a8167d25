-- ===== src/Coordination.antt =====
-- coordination/fileLeaseCoordinator.js: the write lease of one tenant, kept in a directory that all
-- processes share. This module has the data. Lease has the operations of a process
-- that nobody disturbs, Setup the calls of the file system that they are made of, as steps of any
-- processes. Times are milliseconds.
pub mod Lease
pub mod Setup
pub mod Effects
pub mod Fencing
pub mod Waiting
pub mod Snapshots
pub mod Saving
mod Tests
use basitclaw.Common.{ℕ, String, Bool, Option, none}

-- The text of the fence file.
pub data Counter : Type 0 where
  missing invalid : Counter
  at : ℕ → Counter

-- The record in owner.json.
pub record Owner : Type 0 where
  pub owner_id : String
  pub fencing_token : ℕ
  pub acquired_at : ℕ
  pub heartbeat_at : ℕ
  pub expires_at : ℕ

-- The lease directory: its owner file, if it has a readable one, and when it was changed.
pub record LeaseDirectory : Type 0 where
  pub owner : Option Owner
  pub modified_at : ℕ

pub record Store : Type 0 where
  pub fence : Counter
  pub lease : Option LeaseDirectory

abbrev pub empty_store : Store
empty_store = record { fence = missing; lease = none }

pub data Error : Type 0 where
  -- with the owner that was seen
  busy : Option Owner → Error
  lost unavailable : Error

pub record Handle : Type 0 where
  pub owner_id : String
  pub fencing_token : ℕ
  pub released : Bool
