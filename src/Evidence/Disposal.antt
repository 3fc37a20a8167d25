-- ===== src/Evidence/Disposal.antt =====
-- evidence/evidenceRegistry.js: `dispose`, with the deletion of the contents.
use basitclaw.Common.{
  ℕ, String, Bool, true, false, not, some, List, [], ◌∷◌, leb, if◌then◌else◌, str_eq, length, any,
  Result, ok, err, ◌>>=◌, ◌>>◌, guard,
}
use basitclaw.AuditService.{append_text}
use basitclaw.Evidence.{
  Error, validation_failed, conflict, store_unavailable, disposed, Version, Item, number, Unsigned,
  Index, ContentFile, Disk, find_item, is_active, is_held, append_event, load_index,
}
use basitclaw.Evidence.Turns.{
  Settings, Turn, checked_text, found, set_item, remove_file, outcome, index_file, purged_index,
  purge,
}
use basitclaw.Evidence.Custody.{record_event}

-- The contents that are left when those of the item's versions are deleted.
unfoldable pub purge_files : Turn → String → List Version → List ContentFile → List ContentFile
purge_files t id [] files = files
purge_files t id (v ∷ versions) files =
    purge_files t id versions
      (if t.works (purge v.version) then remove_file id v.version files else files)

abbrev pub purge_failed : Turn → List Version → Bool
purge_failed t = any (λ (v : Version). not (t.works (purge v.version)))

module _ (c : Settings) (hash_event : Unsigned → String) (sha256 : List ℕ → String)
    (fingerprint : String → String) where
  unfoldable pub disposed_item : Turn → String → String → Item → Item
  disposed_item t by reason item = record item {
    status = disposed;
    disposed_at = some t.now;
    disposed_by = some by;
    disposition_reason = some reason;
    purge_pending = true;
  }

  -- What follows the committed disposition.
  unfoldable pub purge_item :
      Turn → String → String → Item → Index → List ContentFile → Disk × Result Error Item
  unfolding purge_files set_item
  purge_item t id by item index files =
      let left = purge_files t id item.versions files in
      let purged = record item { purge_pending = false } in
      let named = record index { items = set_item id purged index.items } in
      let metadata = ("versionCount", number (length item.versions)) ∷ [] in
      let noted =
        append_event hash_event c.event_retention t.purged_event_id t.now by
          "evidence.content_purged" id metadata named in
      if purge_failed t item.versions
      then (record { index = index; files = left }, ok item)
      else if t.works purged_index
      then (record { index = noted; files = left }, ok purged)
      else (record { index = index; files = left }, err store_unavailable)

  abbrev pub is_empty : List String → Bool
  is_empty [] = true
  is_empty (x ∷ xs) = false

  unfoldable pub dispose :
      Turn → String → String → String → String → List String → Disk → Disk × Result Error Item
  unfolding checked_text disposed_item set_item purge_item
  dispose t id by confirmation reason referenced_by disk = outcome disk (do
    guard (str_eq confirmation (append_text "DISPOSE " id)) (validation_failed "confirmation")
    safe_reason ← checked_text reason "reason" 10 1000
    guard (is_empty referenced_by) conflict
    index ← load_index hash_event c.event_retention disk
    item ← found (find_item id index.items)
    guard (is_active item.status) conflict
    guard (not (is_held item.legal_hold)) conflict
    guard (leb item.retention_until t.now) conflict
    guard (t.works index_file) store_unavailable
    let gone = disposed_item t by safe_reason item
    let named = record index { items = set_item id gone index.items }
    let metadata =
        ("versionCount", number (length item.versions))
        ∷ ("retentionUntil", number item.retention_until)
        ∷ []
    ok (
        purge_item t id by gone
          (record_event c hash_event sha256 fingerprint t by "evidence.disposition_committed" id
            metadata named)
          disk.files))
