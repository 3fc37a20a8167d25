-- ===== src/Evidence/Holds.antt =====
-- evidence/evidenceRegistry.js: `placeLegalHold` and `releaseLegalHold`.
use basitclaw.Common.{
  ℕ, String, true, false, not, Option, none, some, List, [], ◌∷◌, str_eq, Result, ok, err, ◌>>=◌,
  ◌>>◌, guard,
}
use basitclaw.AuditService.{append_text}
use basitclaw.Evidence.{
  Error, validation_failed, conflict, store_unavailable, Hold, Item, Detail, text, number, null,
  Unsigned, Disk, find_item, is_active, is_held, load_index,
}
use basitclaw.Evidence.Turns.{
  Settings, Turn, is_later, checked_text, found, set_item, outcome, index_file,
}
use basitclaw.Evidence.Custody.{record_event}

module _ (c : Settings) (hash_event : Unsigned → String) (sha256 : List ℕ → String)
    (fingerprint : String → String) where
  -- mutate
  unfoldable pub save_change :
      Turn
      → String
      → String
      → String
      → (Item → Result Error (Item × List (String × Detail)))
      → Disk
      → Disk × Result Error Item
  unfolding set_item
  save_change t id by action operation disk = outcome disk (do
    index ← load_index hash_event c.event_retention disk
    item ← found (find_item id index.items)
    (next, metadata) ← operation item
    guard (t.works index_file) store_unavailable
    let named = record index { items = set_item id next index.items }
    ok (
      record disk {
        index = record_event c hash_event sha256 fingerprint t by action id metadata named;
      },
      ok next,
    ))

  abbrev pub review_detail : Option ℕ → Detail
  review_detail none = null
  review_detail (some date) = number date

  unfoldable pub hold_item :
      Turn
      → String
      → String
      → String
      → Option ℕ
      → Item
      → Result Error (Item × List (String × Detail))
  hold_item t by matter_id reason review_at item = do
    guard (is_active item.status) conflict
    guard (not (is_held item.legal_hold)) conflict
    let hold : Hold = record {
      active_hold = true;
      matter_id = matter_id;
      reason = reason;
      placed_at = t.now;
      placed_by = by;
      review_at = review_at;
      released_at = none;
      released_by = none;
      release_reason = none;
    }
    ok (
      record item { legal_hold = some hold },
      ("matterFingerprint", text (fingerprint matter_id))
          ∷ ("reviewAt", review_detail review_at)
          ∷ [],
    )

  unfoldable pub place_legal_hold :
      Turn → String → String → String → String → Option ℕ → Disk → Disk × Result Error Item
  unfolding checked_text hold_item save_change
  place_legal_hold t id by reason matter_id review_at disk = outcome disk (do
    safe_reason ← checked_text reason "reason" 10 1000
    guard (is_later t.now review_at) (validation_failed "reviewAt")
    ok (
        save_change t id by "evidence.legal_hold_placed"
          (hold_item t by matter_id safe_reason review_at) disk))

  unfoldable pub release_held :
      Turn → String → String → Item → Option Hold → Result Error (Item × List (String × Detail))
  release_held t by reason item none = err conflict
  release_held t by reason item (some hold) = do
    guard hold.active_hold conflict
    ok (
      record item {
        legal_hold = some (record hold {
          active_hold = false;
          released_at = some t.now;
          released_by = some by;
          release_reason = some reason;
        });
      },
      ("matterFingerprint", text (fingerprint hold.matter_id)) ∷ [],
    )

  unfoldable pub release_item :
      Turn → String → String → Item → Result Error (Item × List (String × Detail))
  unfolding release_held
  release_item t by reason item = do
    guard (is_active item.status) conflict
    release_held t by reason item item.legal_hold

  unfoldable pub release_legal_hold :
      Turn → String → String → String → String → Disk → Disk × Result Error Item
  unfolding checked_text release_item save_change
  release_legal_hold t id by confirmation reason disk = outcome disk (do
    guard (str_eq confirmation (append_text "RELEASE HOLD " id)) (validation_failed "confirmation")
    safe_reason ← checked_text reason "reason" 10 1000
    ok (save_change t id by "evidence.legal_hold_released" (release_item t by safe_reason) disk))
