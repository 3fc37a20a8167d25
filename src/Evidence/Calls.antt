-- ===== src/Evidence/Calls.antt =====
-- evidence/evidenceRegistry.js: calls of the operations that write, one after the other.
use basitclaw.Common.{ℕ, String, Option, List, [], ◌∷◌, Result}
use basitclaw.Evidence.{Error, Item, Unsigned, Disk}
use basitclaw.Evidence.Turns.{Settings, Turn, Upload, Revision}
use basitclaw.Evidence.Custody.{ingest, add_version}
use basitclaw.Evidence.Holds.{place_legal_hold, release_legal_hold}
use basitclaw.Evidence.Disposal.{dispose}

-- With the actor and the input of the call; of ingest, the random id of the item.
pub data Call : Type 0 where
  ingests : String → String → Upload → Call
  adds_version : String → String → Revision → Call
  -- the reason, the matter and the date of review
  places_hold : String → String → String → String → Option ℕ → Call
  -- the confirmation and the reason
  releases_hold : String → String → String → String → Call
  -- the confirmation, the reason and the findings that refer to the item
  disposes : String → String → String → String → List String → Call

module _ (c : Settings) (hash_event : Unsigned → String) (sha256 : List ℕ → String)
    (fingerprint : String → String) where
  abbrev pub perform : Turn → Call → Disk → Disk × Result Error Item
  perform t (ingests id by u) = ingest c hash_event sha256 fingerprint t id by u
  perform t (adds_version id by r) = add_version c hash_event sha256 fingerprint t id by r
  perform t (places_hold id by reason matter_id review_at) =
      place_legal_hold c hash_event sha256 fingerprint t id by reason matter_id review_at
  perform t (releases_hold id by confirmation reason) =
      release_legal_hold c hash_event sha256 fingerprint t id by confirmation reason
  perform t (disposes id by confirmation reason referenced_by) =
      dispose c hash_event sha256 fingerprint t id by confirmation reason referenced_by

  unfoldable pub run : List (Turn × Call) → Disk → Disk
  run [] disk = disk
  run ((t, call) ∷ calls) disk = run calls (perform t call disk).0
