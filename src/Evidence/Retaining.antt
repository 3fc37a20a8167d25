-- ===== src/Evidence/Retaining.antt =====
-- evidence/evidenceRegistry.js, `dispose`: what a legal hold keeps when something is disposed of.
use basitclaw.Common.{
  ℕ, ◌≤◌, ◌≡◌, refl, ap, sym, subst, ◌∙◌, String, Bool, true, false, not, some, List, str_eq,
  eq_iff, Result, ◌>>=◌, guard, Bool-cases, inl, inr, leb,
}
use basitclaw.AuditService.{append_text}
use basitclaw.Evidence.{
  Error, Item, Unsigned, Index, Disk, find_item, is_active, is_held, append_event,
}
use basitclaw.Evidence.Turns.{
  Settings, Turn, index_file, purged_index, found, outcome, checked_text,
}
use basitclaw.Evidence.Disposal.{
  disposed_item, purge_item, purge_files, purge_failed, dispose, is_empty,
}
use basitclaw.Evidence.Items.{
  find_item-set_item_other, find_item-evidence_id, find_file-purge_files_other,
}
use basitclaw.Evidence.Holding.{
  Keeps, Keeps-same, Keeps-refl, outcome-Keeps, load_index-Keeps, found-eq-ok, some_injective,
}

held_and_free : {A : Type 0} (b : Bool) → b ≡ true → not b ≡ true → A
held_and_free true h k = cc
held_and_free false h k = cc

module _ (c : Settings) (hash_event : Unsigned → String) (sha256 : List ℕ → String)
    (fingerprint : String → String) (id : String) (item : Item) (disk : Disk)
    (there : find_item id disk.index.items ≡ some item) (is_in_use : is_active item.status ≡ true)
    (held : is_held item.legal_hold ≡ true) where
  -- The rest of an operation on an item that is found.
  found-Keeps :
      (id' : String) (rest : Item → Result Error (Disk × Result Error Item))
      → ((x : Item)
          → x.evidence_id ≡ id'
          → (str_eq id' id ≡ true → x ≡ item)
          → Keeps id item disk (outcome disk (rest x)).0)
      → Keeps id item disk (outcome disk (found (find_item id' disk.index.items) >>= rest)).0
  found-Keeps id' rest h =
      outcome-Keeps id item disk there is_in_use held c hash_event sha256 fingerprint
        (found (find_item id' disk.index.items)) rest
        (λ x is.
          let found_it : find_item id' disk.index.items ≡ some x = found-eq-ok _ x is in
          h x (find_item-evidence_id id' x disk.index.items found_it) (λ same.
            some_injective x item (
              sym found_it
              ∙ ap (λ (k : String). find_item k disk.index.items) ((eq_iff id' id).0 same)
              ∙ there)))

  pub guard-Keeps :
      (test : Bool) (e : Error) (rest : Unit {0} → Result Error (Disk × Result Error Item))
      → (test ≡ true → Keeps id item disk (outcome disk (rest tt)).0)
      → Keeps id item disk (outcome disk (guard test e >>= rest)).0
  guard-Keeps true e rest h = h refl
  guard-Keeps false e rest h = Keeps-refl id item disk there is_in_use held

  purge_item-Keeps :
      (t : Turn) (id' by : String) (x : Item) (index : Index)
      → str_eq id' id ≡ false
      → x.evidence_id ≡ id'
      → find_item id index.items ≡ some item
      → Keeps id item disk
          (purge_item c hash_event sha256 fingerprint t id' by x index disk.files).0
  unfolding purge_item append_event
  purge_item-Keeps t id' by x index other named found_there =
      let files = λ (n : ℕ) (le : n ≤ item.current_version).
        find_file-purge_files_other t id id' n x.versions disk.files other in
      let plain =
        Keeps-same id item disk there is_in_use held
          (record { index = index; files = purge_files t id' x.versions disk.files }) found_there
          files in
      elim (Bool-cases (purge_failed t x.versions)) [
        | inl failed ↦ rw failed plain
        | inr purged ↦ elim (Bool-cases (t.works purged_index)) [
          | inr broken ↦ rw (purged, broken) plain
          | inl works ↦
              rw (purged, works)
                (Keeps-same id item disk there is_in_use held _
                  (find_item-set_item_other id id' (record x { purge_pending = false }) index.items
                      other named
                    ∙ found_there)
                  files)
        ]
      ]

  pub found-split :
      (id' : String) (rest : Item → Result Error (Disk × Result Error Item))
      → (str_eq id' id ≡ true → Keeps id item disk (outcome disk (rest item)).0)
      → (str_eq id' id ≡ false
          → (x : Item) → x.evidence_id ≡ id'
          → Keeps id item disk (outcome disk (rest x)).0)
      → Keeps id item disk (outcome disk (found (find_item id' disk.index.items) >>= rest)).0
  found-split id' rest h k = elim (Bool-cases (str_eq id' id)) [
    | inl own ↦ found-Keeps id' rest (λ x named same.
        subst (λ (z : Item). Keeps id item disk (outcome disk (rest z)).0) (sym (same own)) (h own))
    | inr other ↦ found-Keeps id' rest (λ x named same. k other x named)
  ]

  pub dispose-Keeps :
      (t : Turn) (id' by confirmation reason : String) (referenced_by : List String)
      → Keeps id item disk
          (dispose c hash_event sha256 fingerprint t id' by confirmation reason referenced_by
            disk).0
  unfolding dispose append_event disposed_item
  dispose-Keeps t id' by confirmation reason referenced_by =
      guard-Keeps (str_eq confirmation (append_text "DISPOSE " id')) _ _ (λ _.
        outcome-Keeps id item disk there is_in_use held c hash_event sha256 fingerprint
          (checked_text reason "reason" 10 1000) _
          (λ safe_reason _.
            guard-Keeps (is_empty c hash_event sha256 fingerprint referenced_by) _ _ (λ _.
              load_index-Keeps id item disk there is_in_use held c hash_event sha256 fingerprint _ (
                found-split id' _
                  (λ own. guard-Keeps (is_active item.status) _ _ (λ _.
                    guard-Keeps (not (is_held item.legal_hold)) _ _
                      (λ free. held_and_free _ held free)))
                  (λ other x named.
                    let gone = disposed_item c hash_event sha256 fingerprint t by safe_reason x in
                    guard-Keeps (is_active x.status) _ _ (λ _.
                      guard-Keeps (not (is_held x.legal_hold)) _ _ (λ _.
                        guard-Keeps (leb x.retention_until t.now) _ _ (λ _.
                          guard-Keeps (t.works index_file) _ _ (λ _.
                            purge_item-Keeps t id' by gone _ other named (
                              find_item-set_item_other id id' gone disk.index.items other named
                              ∙ there))))))))))
