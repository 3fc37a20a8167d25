-- ===== src/Evidence/Placing.antt =====
-- evidence/evidenceRegistry.js, `placeLegalHold` and `releaseLegalHold`: what a legal hold keeps when holds are placed
-- and released.
use basitclaw.Common.{
  ℕ, ◌≡◌, refl, ap, sym, subst, ◌∙◌, String, true, false, not, Option, none, some, List, str_eq,
  eq_iff, Result, ok, err, guard-eq-ok, guard, ok-pair, Bool-cases, inl, inr,
}
use basitclaw.Evidence.{
  Error, Item, Detail, Unsigned, Disk, find_item, is_active, is_held, append_event, conflict,
  store_unavailable, validation_failed, Hold,
}
use basitclaw.AuditService.{append_text}
use basitclaw.Evidence.Turns.{Settings, Turn, index_file, found, is_later, checked_text}
use basitclaw.Evidence.Holds.{
  save_change, hold_item, release_item, release_held, place_legal_hold, release_legal_hold,
}
use basitclaw.Evidence.Items.{find_item-set_item_other, find_item-evidence_id}
use basitclaw.Evidence.Holding.{
  Keeps, Keeps-same, outcome-Keeps, load_index-Keeps, found-eq-ok, some_injective, refused-done,
}

module _ (id : String) (item : Item) (disk : Disk)
    (there : find_item id disk.index.items ≡ some item) (is_in_use : is_active item.status ≡ true)
    (held : is_held item.legal_hold ≡ true) where
  module _ (c : Settings) (hash_event : Unsigned → String) (sha256 : List ℕ → String)
      (fingerprint : String → String) where
    -- A change of another item.
    save_change-Keeps_other :
        (t : Turn) (id' by action : String)
        (operation : Item → Result Error (Item × List (String × Detail)))
        → str_eq id' id ≡ false
        → ((x y : Item) (metadata : List (String × Detail))
            → operation x ≡ ok (y, metadata)
            → y.evidence_id ≡ x.evidence_id)
        → Keeps id item disk
            (save_change c hash_event sha256 fingerprint t id' by action operation disk).0
    unfolding save_change append_event
    save_change-Keeps_other t id' by action operation other named =
        load_index-Keeps id item disk there is_in_use held c hash_event sha256 fingerprint _ (
          outcome-Keeps id item disk there is_in_use held c hash_event sha256 fingerprint
            (found (find_item id' disk.index.items)) _
            (λ x is.
              outcome-Keeps id item disk there is_in_use held c hash_event sha256 fingerprint
                (operation x) _
                (λ changed done.
                  outcome-Keeps id item disk there is_in_use held c hash_event sha256 fingerprint
                    (guard (t.works index_file) store_unavailable) _
                    (λ _ _.
                      let own : changed.0.evidence_id ≡ id' =
                        named x changed.0 changed.1 done
                        ∙ find_item-evidence_id id' x disk.index.items (found-eq-ok _ x is) in
                      Keeps-same id item disk there is_in_use held _
                        (find_item-set_item_other id id' changed.0 disk.index.items other own
                          ∙ there)
                        (λ n le. refl)))))

    -- A change of the item that is refused.
    save_change-Keeps_refused :
        (t : Turn) (by action : String)
        (operation : Item → Result Error (Item × List (String × Detail))) (e : Error)
        → operation item ≡ err e
        → Keeps id item disk
            (save_change c hash_event sha256 fingerprint t id by action operation disk).0
    unfolding save_change
    save_change-Keeps_refused t by action operation e refused =
        load_index-Keeps id item disk there is_in_use held c hash_event sha256 fingerprint _ (
          outcome-Keeps id item disk there is_in_use held c hash_event sha256 fingerprint
            (found (find_item id disk.index.items)) _
            (λ x is.
              let same : item ≡ x = some_injective item x (sym there ∙ found-eq-ok _ x is) in
              outcome-Keeps id item disk there is_in_use held c hash_event sha256 fingerprint
                (operation x) _
                (λ changed done.
                  absurd (
                    refused-done (operation x) e changed (ap operation (sym same) ∙ refused)
                      done))))

    hold_item-evidence_id :
        (t : Turn) (by matter_id reason : String) (review_at : Option ℕ) (x y : Item)
        (metadata : List (String × Detail))
        → hold_item c hash_event sha256 fingerprint t by matter_id reason review_at x
          ≡ ok (y, metadata)
        → y.evidence_id ≡ x.evidence_id
    unfolding hold_item
    hold_item-evidence_id t by matter_id reason review_at x y metadata h =
        let (_, h1) = guard-eq-ok (is_active x.status) conflict _ h in
        let (_, h2) = guard-eq-ok (not (is_held x.legal_hold)) conflict _ h1 in
        ap (λ (z : Item). z.evidence_id) (ok-pair _ y metadata h2).0

    hold_item-refused :
        (t : Turn) (by matter_id reason : String) (review_at : Option ℕ)
        → hold_item c hash_event sha256 fingerprint t by matter_id reason review_at item
          ≡ err conflict
    unfolding hold_item
    hold_item-refused t by matter_id reason review_at = rw (is_in_use, held) refl

    pub place_legal_hold-Keeps :
        (t : Turn) (id' by reason matter_id : String) (review_at : Option ℕ)
        → Keeps id item disk
            (place_legal_hold c hash_event sha256 fingerprint t id' by reason matter_id review_at
              disk).0
    unfolding place_legal_hold
    place_legal_hold-Keeps t id' by reason matter_id review_at =
        outcome-Keeps id item disk there is_in_use held c hash_event sha256 fingerprint
          (checked_text reason "reason" 10 1000) _
          (λ safe_reason _.
            outcome-Keeps id item disk there is_in_use held c hash_event sha256 fingerprint
              (guard (is_later t.now review_at) (validation_failed "reviewAt")) _
              (λ _ _. elim (Bool-cases (str_eq id' id)) [
                | inr other ↦
                    save_change-Keeps_other t id' by "evidence.legal_hold_placed" _ other
                      (hold_item-evidence_id t by matter_id safe_reason review_at)
                | inl same ↦
                    subst
                      (λ (k : String).
                        Keeps id item disk
                          (save_change c hash_event sha256 fingerprint t k by
                            "evidence.legal_hold_placed"
                            (hold_item c hash_event sha256 fingerprint t by matter_id safe_reason
                              review_at)
                            disk).0)
                      (sym ((eq_iff id' id).0 same))
                      (save_change-Keeps_refused t by "evidence.legal_hold_placed" _ conflict
                        (hold_item-refused t by matter_id safe_reason review_at))
              ]))

    release_held-evidence_id :
        (t : Turn) (by reason : String) (x y : Item) (hold : Option Hold)
        (metadata : List (String × Detail))
        → release_held c hash_event sha256 fingerprint t by reason x hold ≡ ok (y, metadata)
        → y.evidence_id ≡ x.evidence_id
    unfolding release_held
    release_held-evidence_id t by reason x y none metadata h = cc
    release_held-evidence_id t by reason x y (some hold) metadata h =
        let (_, h1) = guard-eq-ok hold.active_hold conflict _ h in
        ap (λ (z : Item). z.evidence_id) (ok-pair _ y metadata h1).0

    -- The release of another item's hold.
    pub release_legal_hold-Keeps :
        (t : Turn) (id' by confirmation reason : String)
        → str_eq id' id ≡ false
        → Keeps id item disk
            (release_legal_hold c hash_event sha256 fingerprint t id' by confirmation reason disk).0
    unfolding release_legal_hold release_item
    release_legal_hold-Keeps t id' by confirmation reason other =
        outcome-Keeps id item disk there is_in_use held c hash_event sha256 fingerprint
          (guard (str_eq confirmation (append_text "RELEASE HOLD " id'))
            (validation_failed "confirmation"))
          _
          (λ _ _.
            outcome-Keeps id item disk there is_in_use held c hash_event sha256 fingerprint
              (checked_text reason "reason" 10 1000) _
              (λ safe_reason _.
                save_change-Keeps_other t id' by "evidence.legal_hold_released" _ other
                  (λ x y metadata done.
                    release_held-evidence_id t by safe_reason x y x.legal_hold metadata
                      (guard-eq-ok (is_active x.status) conflict _ done).1)))
