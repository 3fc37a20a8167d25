-- ===== src/Evidence/Intact.antt =====
-- evidence/evidenceRegistry.js: the chain of custody verifies after every call.
use basitclaw.Common.{
  ℕ, ◌≡◌, refl, sym, subst, String, true, not, ◌&&◌, List, [], ◌∷◌, Result, ok, err, ◌>>=◌, guard,
  Bool-cases, inl, inr, str_eq, leb,
}
use basitclaw.AuditService.{append_text}
use basitclaw.Evidence.{
  Error, Item, Detail, Unsigned, Index, ContentFile, Disk, find_item, is_active, is_held,
  load_index, verify_chain, validation_failed, store_unavailable, conflict,
}
use basitclaw.Evidence.Turns.{
  Settings, Turn, content_file, index_file, purged_index, Upload, Revision, found, is_later,
  shortens, check_upload, checked_text, outcome,
}
use basitclaw.Evidence.Custody.{store_content, ingest, add_version}
use basitclaw.Evidence.Holds.{save_change, place_legal_hold, release_legal_hold}
use basitclaw.Evidence.Disposal.{purge_failed, purge_item, is_empty, dispose}
use basitclaw.Evidence.Calls.{
  Call, ingests, adds_version, places_hold, releases_hold, disposes, perform, run,
}
use basitclaw.Evidence.Holding.{load_index-eq-ok}
use basitclaw.Evidence.Chain.{append_event-verify_chain}

module _ (c : Settings) (hash_event : Unsigned → String) (sha256 : List ℕ → String)
    (fingerprint : String → String) where
  abbrev pub IsIntact : Index → Type 0
  IsIntact index = verify_chain hash_event c.event_retention index ≡ true

  abbrev LeavesIntact : Disk × Result Error Item → Type 0
  LeavesIntact after = IsIntact after.0.index

  -- The items are not part of the chain.
  set_items-IsIntact :
      (index : Index) (items : List Item)
      → IsIntact index
      → IsIntact (record index { items = items })
  unfolding verify_chain
  set_items-IsIntact index items h = h

  module _ (disk : Disk) (intact : IsIntact disk.index) where
    outcome-IsIntact :
        {A : Type 0} (first : Result Error A) (rest : A → Result Error (Disk × Result Error Item))
        → ((a : A) → LeavesIntact (outcome disk (rest a)))
        → LeavesIntact (outcome disk (first >>= rest))
    outcome-IsIntact (err e) rest h = intact
    outcome-IsIntact (ok a) rest h = h a

    load_index-IsIntact :
        (rest : Index → Result Error (Disk × Result Error Item))
        → ((index : Index) → IsIntact index → LeavesIntact (outcome disk (rest index)))
        → LeavesIntact (outcome disk (load_index hash_event c.event_retention disk >>= rest))
    load_index-IsIntact rest h = by_result (load_index hash_event c.event_retention disk) refl
      where
        by_result :
            (r : Result Error Index)
            → load_index hash_event c.event_retention disk ≡ r
            → LeavesIntact (outcome disk (r >>= rest))
        by_result (err e) loaded = intact
        by_result (ok index) loaded = h index (
            subst IsIntact (sym (load_index-eq-ok hash_event c.event_retention disk index loaded))
              intact)

    store_content-IsIntact :
        (t : Turn) (file : ContentFile) (index : Index) (x : Item)
        → IsIntact index
        → LeavesIntact (store_content c hash_event sha256 fingerprint t file index x disk)
    unfolding store_content
    store_content-IsIntact t file index x h =
        elim (Bool-cases (t.works content_file && t.works index_file)) [
          | inl t ↦ rw t h
          | inr f ↦ rw f intact
        ]

    ingest-IsIntact :
        (t : Turn) (id by : String) (u : Upload)
        → LeavesIntact (ingest c hash_event sha256 fingerprint t id by u disk)
    unfolding ingest
    ingest-IsIntact t id by u =
        outcome-IsIntact (check_upload c t.now u.content u.collected_at u.retention_until) _ (λ _.
          load_index-IsIntact _ (λ index h. store_content-IsIntact t _ _ _ (
            append_event-verify_chain hash_event c.event_retention t.event_id t.now by
              "evidence.ingested" id _ _ (set_items-IsIntact index _ h))))

    add_version-IsIntact :
        (t : Turn) (id by : String) (r : Revision)
        → LeavesIntact (add_version c hash_event sha256 fingerprint t id by r disk)
    unfolding add_version
    add_version-IsIntact t id by r =
        outcome-IsIntact (check_upload c t.now r.content r.collected_at r.retention_until) _ (λ _.
          load_index-IsIntact _ (λ index h.
            outcome-IsIntact (found (find_item id index.items)) _ (λ item.
              outcome-IsIntact (guard (is_active item.status) conflict) _ (λ _.
                outcome-IsIntact
                  (guard
                    (not
                      (is_held item.legal_hold && shortens r.retention_until item.retention_until))
                    conflict)
                  _
                  (λ _. store_content-IsIntact t _ _ _ (
                    append_event-verify_chain hash_event c.event_retention t.event_id t.now by
                      "evidence.version_added" id _ _ (set_items-IsIntact index _ h)))))))

    save_change-IsIntact :
        (t : Turn) (id by action : String)
        (operation : Item → Result Error (Item × List (String × Detail)))
        → LeavesIntact (save_change c hash_event sha256 fingerprint t id by action operation disk)
    unfolding save_change
    save_change-IsIntact t id by action operation = load_index-IsIntact _ (λ index h.
        outcome-IsIntact (found (find_item id index.items)) _ (λ item.
          outcome-IsIntact (operation item) _ (λ changed.
            outcome-IsIntact (guard (t.works index_file) store_unavailable) _ (λ _.
              append_event-verify_chain hash_event c.event_retention t.event_id t.now by action id _
                _ (set_items-IsIntact index _ h)))))

    purge_item-IsIntact :
        (t : Turn) (id by : String) (x : Item) (index : Index) (files : List ContentFile)
        → IsIntact index
        → LeavesIntact (purge_item c hash_event sha256 fingerprint t id by x index files)
    unfolding purge_item
    purge_item-IsIntact t id by x index files h = elim (Bool-cases (purge_failed t x.versions)) [
      | inl failed ↦ rw failed h
      | inr purged ↦ elim (Bool-cases (t.works purged_index)) [
        | inr broken ↦ rw (purged, broken) h
        | inl works ↦
            rw (purged, works)
              (append_event-verify_chain hash_event c.event_retention t.purged_event_id t.now by
                "evidence.content_purged" id _ _ (set_items-IsIntact index _ h))
      ]
    ]

    dispose-IsIntact :
        (t : Turn) (id by confirmation reason : String) (referenced_by : List String)
        → LeavesIntact
            (dispose c hash_event sha256 fingerprint t id by confirmation reason referenced_by disk)
    unfolding dispose
    dispose-IsIntact t id by confirmation reason referenced_by =
        outcome-IsIntact
          (guard (str_eq confirmation (append_text "DISPOSE " id))
            (validation_failed "confirmation"))
          _
          (λ _. outcome-IsIntact (checked_text reason "reason" 10 1000) _ (λ safe_reason.
            outcome-IsIntact
              (guard (is_empty c hash_event sha256 fingerprint referenced_by) conflict) _
              (λ _. load_index-IsIntact _ (λ index h.
                outcome-IsIntact (found (find_item id index.items)) _ (λ item.
                  outcome-IsIntact (guard (is_active item.status) conflict) _ (λ _.
                    outcome-IsIntact (guard (not (is_held item.legal_hold)) conflict) _ (λ _.
                      outcome-IsIntact (guard (leb item.retention_until t.now) conflict) _ (λ _.
                        outcome-IsIntact (guard (t.works index_file) store_unavailable) _ (λ _.
                          purge_item-IsIntact t id by _ _ _ (
                            append_event-verify_chain hash_event c.event_retention t.event_id t.now
                              by "evidence.disposition_committed" id _ _
                              (set_items-IsIntact index _ h)))))))))))

    perform-IsIntact :
        (t : Turn) (call : Call)
        → LeavesIntact (perform c hash_event sha256 fingerprint t call disk)
    unfolding place_legal_hold release_legal_hold
    perform-IsIntact t (ingests id by u) = ingest-IsIntact t id by u
    perform-IsIntact t (adds_version id by r) = add_version-IsIntact t id by r
    perform-IsIntact t (places_hold id by reason matter_id review_at) =
        outcome-IsIntact (checked_text reason "reason" 10 1000) _ (λ safe_reason.
          outcome-IsIntact (guard (is_later t.now review_at) (validation_failed "reviewAt")) _
            (λ _. save_change-IsIntact t id by "evidence.legal_hold_placed" _))
    perform-IsIntact t (releases_hold id by confirmation reason) =
        outcome-IsIntact
          (guard (str_eq confirmation (append_text "RELEASE HOLD " id))
            (validation_failed "confirmation"))
          _
          (λ _.
            outcome-IsIntact (checked_text reason "reason" 10 1000) _
              (λ safe_reason. save_change-IsIntact t id by "evidence.legal_hold_released" _))
    perform-IsIntact t (disposes id by confirmation reason referenced_by) =
        dispose-IsIntact t id by confirmation reason referenced_by

  -- From an index whose chain of custody verifies, any calls, those that fail included, leave one whose chain verifies,
  -- also when the oldest events are cut off on the way.
  pub run-verify_chain :
      (calls : List (Turn × Call)) (disk : Disk)
      → verify_chain hash_event c.event_retention disk.index ≡ true
      → verify_chain hash_event c.event_retention
          (run c hash_event sha256 fingerprint calls disk).index
        ≡ true
  unfolding run
  run-verify_chain [] disk intact = intact
  run-verify_chain ((t, call) ∷ calls) disk intact =
      run-verify_chain calls (perform c hash_event sha256 fingerprint t call disk).0
        (perform-IsIntact disk intact t call)
