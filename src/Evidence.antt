-- ===== src/Evidence.antt =====
-- evidence/evidenceRegistry.js: one tenant's index of evidence, its chain of custody, and the files of the
-- contents. This module has the data and the chain; The operations are in Custody, Holds
-- and Disposal, what they share in Turns. Actors, identifiers and the
-- fields of an upload are taken as normaliseUpload makes them, and an envelope as its plain content.
pub mod Turns
pub mod Custody
pub mod Holds
pub mod Disposal
pub mod Items
pub mod Calls
pub mod Holding
pub mod Placing
pub mod Retaining
pub mod Adding
pub mod LegalHold
pub mod Chain
pub mod Intact
mod Tests
use basitclaw.Common.{
  ℕ, ◌+◌, ◌-◌, String, Bool, true, false, ◌&&◌, Option, none, some, List, [], ◌∷◌, ◌++◌, ltb, ◌==◌,
  if◌then◌else◌, str_eq, opt_eq, length, drop, take, get_last?, find, Result, ok, err, guard,
}

pub data Error : Type 0 where
  validation_failed : String → Error
  not_found conflict integrity_failed store_unavailable : Error

pub data Status : Type 0 where
  active disposed : Status

pub record Version : Type 0 where
  pub version : ℕ
  pub sha256 : String
  pub size_bytes : ℕ
  pub created_at : ℕ
  pub created_by : String
  pub filename : String
  pub media_type : String

pub record Hold : Type 0 where
  pub active_hold : Bool
  pub matter_id : String
  pub reason : String
  pub placed_at : ℕ
  pub placed_by : String
  pub review_at : Option ℕ
  pub released_at : Option ℕ
  pub released_by : Option String
  pub release_reason : Option String

pub record Item : Type 0 where
  pub evidence_id : String
  pub filename : String
  pub media_type : String
  pub description : String
  pub source_type : String
  pub source_system : Option String
  pub collected_at : ℕ
  pub ingested_at : ℕ
  pub ingested_by : String
  pub retention_until : ℕ
  pub status : Status
  pub current_version : ℕ
  pub versions : List Version
  pub legal_hold : Option Hold
  pub disposed_at : Option ℕ
  pub disposed_by : Option String
  pub disposition_reason : Option String
  pub purge_pending : Bool

-- A value of an event's metadata.
pub data Detail : Type 0 where
  text : String → Detail
  number : ℕ → Detail
  null : Detail

-- What the hash of an event covers.
pub record Unsigned : Type 0 where
  pub event_id : String
  pub sequence : ℕ
  pub occurred_at : ℕ
  pub actor : String
  pub action : String
  pub evidence_id : String
  pub metadata : List (String × Detail)
  pub previous_hash : Option String

pub record Event : Type 0 where
  pub unsigned : Unsigned
  pub hash : String

pub record Index : Type 0 where
  pub items : List Item
  pub events : List Event
  pub sequence : ℕ
  pub head_hash : Option String
  -- the sequence and the hash of the last event that was cut off
  pub anchor : Option (ℕ × String)

-- The content of one version on disk, with what it is checked against.
pub record ContentFile : Type 0 where
  pub evidence_id : String
  pub version : ℕ
  pub content : List ℕ
  pub sha256 : String
  pub size_bytes : ℕ

pub record Disk : Type 0 where
  pub index : Index
  pub files : List ContentFile

abbrev pub empty_index : Index
empty_index = record { items = []; events = []; sequence = 0; head_hash = none; anchor = none }

abbrev pub find_item : String → List Item → Option Item
find_item id = find (λ (item : Item). str_eq item.evidence_id id)

abbrev pub is_active : Status → Bool
is_active active = true
is_active disposed = false

-- item.legalHold?.active
abbrev pub is_held : Option Hold → Bool
is_held none = false
is_held (some hold) = hold.active_hold

abbrev pub is_file : String → ℕ → ContentFile → Bool
is_file id version file = str_eq file.evidence_id id && file.version == version

abbrev pub find_file : String → ℕ → List ContentFile → Option ContentFile
find_file id version = find (is_file id version)

abbrev pub anchor_of : List Event → Option (ℕ × String) → Option (ℕ × String)
anchor_of removed anchor = elim (get_last? removed) [
  | none ↦ anchor
  | some event ↦ some (event.unsigned.sequence, event.hash)
]

module _ (hash_event : Unsigned → String) (retained_events : ℕ) where
  -- appendEvent
  unfoldable pub append_event :
      String → ℕ → String → String → String → List (String × Detail) → Index → Index
  append_event event_id now actor action id metadata index =
      let unsigned : Unsigned = record {
        event_id = event_id;
        sequence = index.sequence + 1;
        occurred_at = now;
        actor = actor;
        action = action;
        evidence_id = id;
        metadata = metadata;
        previous_hash = index.head_hash;
      } in
      let events : List Event =
        index.events ++ record { unsigned = unsigned; hash = hash_event unsigned } ∷ [] in
      let over : ℕ = length events - retained_events in
      record index {
        events = drop over events;
        sequence = index.sequence + 1;
        head_hash = some (hash_event unsigned);
        anchor = anchor_of (take over events) index.anchor;
      }

  -- The loop of `verifyChain`, up to the hash and the sequence that it ends with.
  unfoldable pub chain_end : Option String → ℕ → List Event → Option (Option String × ℕ)
  chain_end previous expected [] = some (previous, expected)
  chain_end previous expected (event ∷ events) =
      let rest = chain_end (some event.hash) (expected + 1) events in
      if event.unsigned.sequence == expected
        && opt_eq event.unsigned.previous_hash previous
        && str_eq event.hash (hash_event event.unsigned)
      then rest
      else none

  abbrev pub anchor_hash : Option (ℕ × String) → Option String
  anchor_hash none = none
  anchor_hash (some (sequence, hash)) = some hash

  abbrev pub anchor_sequence : Option (ℕ × String) → ℕ
  anchor_sequence none = 0
  anchor_sequence (some (sequence, hash)) = sequence

  -- The check of the head after the loop.
  abbrev pub ends_at_head : Index → Option (Option String × ℕ) → Bool
  ends_at_head index none = false
  ends_at_head index (some (previous, expected)) =
      index.sequence == expected - 1 && opt_eq index.head_hash previous

  unfoldable pub verify_chain : Index → Bool
  unfolding chain_end
  verify_chain index =
      ends_at_head index
        (chain_end (anchor_hash index.anchor) (anchor_sequence index.anchor + 1) index.events)

  -- loadIndex
  unfoldable pub load_index : Disk → Result Error Index
  load_index disk = if verify_chain disk.index then ok disk.index else err integrity_failed
