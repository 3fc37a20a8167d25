-- ===== src/Evidence/Custody.antt =====
-- evidence/evidenceRegistry.js: `ingest` and `addVersion`. An operation gives what is on disk afterwards, also when it
-- throws; the writes and deletions of a turn may fail. The item that is returned is the stored one.
use basitclaw.Common.{
  ℕ, ◌+◌, ◌*◌, String, false, ◌&&◌, not, none, List, [], ◌∷◌, ◌++◌, if◌then◌else◌, length, Result,
  ok, err, ◌>>=◌, ◌>>◌, guard,
}
use basitclaw.Evidence.{
  Error, conflict, store_unavailable, active, Version, Item, Detail, text, number, Unsigned, Index,
  ContentFile, Disk, find_item, is_active, is_held, append_event, load_index,
}
use basitclaw.Evidence.Turns.{
  Settings, Turn, Upload, Revision, value_or, check_upload, found, set_item, put_file, remove_file,
  shortens, outcome, content_file, index_file,
}

module _ (c : Settings) (hash_event : Unsigned → String) (sha256 : List ℕ → String)
    (fingerprint : String → String) where
  abbrev pub record_event : Turn → String → String → String → List (String × Detail) → Index → Index
  record_event t = append_event hash_event c.event_retention t.event_id t.now

  abbrev pub new_version : Turn → ℕ → String → List ℕ → String → String → Version
  new_version t n by content filename media_type = record {
    version = n;
    sha256 = sha256 content;
    size_bytes = length content;
    created_at = t.now;
    created_by = by;
    filename = filename;
    media_type = media_type;
  }

  abbrev pub new_file : String → ℕ → List ℕ → ContentFile
  new_file id n content = record {
    evidence_id = id;
    version = n;
    content = content;
    sha256 = sha256 content;
    size_bytes = length content;
  }

  -- A content and the index that names it; when either cannot be written the content is deleted.
  unfoldable pub store_content : Turn → ContentFile → Index → Item → Disk → Disk × Result Error Item
  store_content t file index item disk =
      if t.works content_file && t.works index_file
      then (record { index = index; files = put_file file disk.files }, ok item)
      else (
        record disk { files = remove_file file.evidence_id file.version disk.files },
        err store_unavailable,
      )

  unfoldable pub new_item : Turn → String → String → Upload → Item
  new_item t id by u = record {
    evidence_id = id;
    filename = u.filename;
    media_type = u.media_type;
    description = u.description;
    source_type = u.source_type;
    source_system = u.source_system;
    collected_at = value_or t.now u.collected_at;
    ingested_at = t.now;
    ingested_by = by;
    retention_until = value_or (t.now + c.default_retention_days * 86_400_000) u.retention_until;
    status = active;
    current_version = 1;
    versions = new_version t 1 by u.content u.filename u.media_type ∷ [];
    legal_hold = none;
    disposed_at = none;
    disposed_by = none;
    disposition_reason = none;
    purge_pending = false;
  }

  -- `id` is the random id of the item.
  unfoldable pub ingest : Turn → String → String → Upload → Disk → Disk × Result Error Item
  unfolding new_item check_upload store_content
  ingest t id by u disk = outcome disk (do
    check_upload c t.now u.content u.collected_at u.retention_until
    index ← load_index hash_event c.event_retention disk
    let item = new_item t id by u
    let named = record index { items = index.items ++ item ∷ [] }
    let metadata =
        ("version", number 1)
        ∷ ("sha256", text (sha256 u.content))
        ∷ ("sizeBytes", number (length u.content))
        ∷ ("retentionUntil", number item.retention_until)
        ∷ ("sourceType", text item.source_type)
        ∷ []
    ok (
        store_content t (new_file id 1 u.content)
          (record_event t by "evidence.ingested" id metadata named) item disk))

  unfoldable pub revised : Turn → String → Revision → Item → Item
  revised t by r item = record item {
    filename = r.filename;
    media_type = r.media_type;
    description = value_or item.description r.description;
    source_type = value_or item.source_type r.source_type;
    source_system = value_or item.source_system r.source_system;
    collected_at = value_or item.collected_at r.collected_at;
    retention_until = value_or item.retention_until r.retention_until;
    current_version = item.current_version + 1;
    versions =
        item.versions
        ++ new_version t (item.current_version + 1) by r.content r.filename r.media_type ∷ [];
  }

  unfoldable pub add_version : Turn → String → String → Revision → Disk → Disk × Result Error Item
  unfolding revised check_upload store_content set_item
  add_version t id by r disk = outcome disk (do
    check_upload c t.now r.content r.collected_at r.retention_until
    index ← load_index hash_event c.event_retention disk
    item ← found (find_item id index.items)
    guard (is_active item.status) conflict
    guard (not (is_held item.legal_hold && shortens r.retention_until item.retention_until))
        conflict
    let next = revised t by r item
    let named = record index { items = set_item id next index.items }
    let metadata =
        ("version", number next.current_version)
        ∷ ("sha256", text (sha256 r.content))
        ∷ ("sizeBytes", number (length r.content))
        ∷ []
    ok (
        store_content t (new_file id next.current_version r.content)
          (record_event t by "evidence.version_added" id metadata named) next disk))
