-- ===== src/Evidence/Adding.antt =====
-- evidence/evidenceRegistry.js, `addVersion`: what a legal hold keeps when a version is added.
use basitclaw.Common.{
  ℕ, ◌+◌, ◌≤◌, ◌≡◌, refl, ap, ◌∙◌, String, Bool, true, false, not, ◌&&◌, Option, none, some, List,
  [], ◌∷◌, str_eq, eq_iff, ◌==◌, arith, length,
}
use basitclaw.Evidence.{
  Item, number, text, Unsigned, Index, ContentFile, Disk, find_item, is_active, is_held, find_file,
  append_event,
}
use basitclaw.Evidence.Turns.{Settings, Turn, Revision, shortens, value_or, set_item, check_upload}
use basitclaw.Evidence.Custody.{store_content, new_file, record_event, revised, add_version}
use basitclaw.Evidence.Items.{
  find_item-set_item_other, find_item-set_item, find_item-evidence_id, find_file-remove_file_other,
  find_file-put_file_other,
}
use basitclaw.Evidence.Holding.{
  Keeps, Keeps-same, outcome-Keeps, load_index-Keeps, store_content-Keeps,
}
use basitclaw.Evidence.Retaining.{found-split, guard-Keeps}

value_or-shortens :
    (until : ℕ) (date : Option ℕ) → shortens date until ≡ false → until ≤ value_or until date
value_or-shortens until none h = omega arith
value_or-shortens until (some d) h = ground arith

held_longer : (b s : Bool) → b ≡ true → not (b && s) ≡ true → s ≡ false
held_longer true true h k = cc
held_longer true false h k = refl
held_longer false s h k = cc

module _ (c : Settings) (hash_event : Unsigned → String) (sha256 : List ℕ → String)
    (fingerprint : String → String) (id : String) (item : Item) (disk : Disk)
    (there : find_item id disk.index.items ≡ some item) (is_in_use : is_active item.status ≡ true)
    (held : is_held item.legal_hold ≡ true) where
  -- What a version adds to the item itself.
  revised-Keeps :
      (t : Turn) (by : String) (r : Revision) (index : Index) (files : List ContentFile)
      → (id' : String) → id' ≡ id
      → shortens r.retention_until item.retention_until ≡ false
      → index.items
        ≡ set_item id' (revised c hash_event sha256 fingerprint t by r item) disk.index.items
      → ((n : ℕ) → n ≤ item.current_version → find_file id n files ≡ find_file id n disk.files)
      → Keeps id item disk (record { index = index; files = files })
  unfolding revised
  revised-Keeps t by r index files id' own longer is kept =
      let next = revised c hash_event sha256 fingerprint t by r item in
      record {
        later = next;
        still_there =
            ap (find_item id) is
            ∙ ap (λ (k : String). find_item id (set_item k next disk.index.items)) own
            ∙ find_item-set_item id next item disk.index.items
                (find_item-evidence_id id item disk.index.items there) there;
        still_active = is_in_use;
        still_held = held;
        retained = value_or-shortens item.retention_until r.retention_until longer;
        newer = _;
        versions_kept = refl;
        counted = omega arith;
        contents_kept = kept;
      }

  -- The index when a version of `x` is named in it.
  abbrev named_version : Turn → String → String → Revision → Item → Index
  named_version t id' by r x =
      let next = revised c hash_event sha256 fingerprint t by r x in
      record_event c hash_event sha256 fingerprint t by "evidence.version_added" id'
        (("version", number next.current_version)
          ∷ ("sha256", text (sha256 r.content))
          ∷ ("sizeBytes", number (length r.content))
          ∷ [])
        (record disk.index { items = set_item id' next disk.index.items })

  abbrev version_file : String → Revision → Item → ContentFile
  version_file id' r x =
      new_file c hash_event sha256 fingerprint id' (x.current_version + 1) r.content

  add_own :
      (t : Turn) (id' by : String) (r : Revision)
      → str_eq id' id ≡ true
      → shortens r.retention_until item.retention_until ≡ false
      → Keeps id item disk
          (store_content c hash_event sha256 fingerprint t
            (version_file id' r item)
            (named_version t id' by r item)
            (revised c hash_event sha256 fingerprint t by r item)
            disk).0
  unfolding append_event revised
  add_own t id' by r own longer =
      let apart : (n : ℕ)
          → n ≤ item.current_version
          → (str_eq id' id && item.current_version + 1 == n) ≡ false =
        λ n le. ground arith in
      store_content-Keeps id item disk there is_in_use held c hash_event sha256 fingerprint t
        (version_file id' r item) _ _
        (revised-Keeps t by r _ _ id' ((eq_iff id' id).0 own) longer refl
          (λ n le. find_file-put_file_other id n (version_file id' r item) disk.files (apart n le)))
        (Keeps-same id item disk there is_in_use held _ there (λ n le.
          find_file-remove_file_other id id' n (item.current_version + 1) disk.files (apart n le)))

  add_other :
      (t : Turn) (id' by : String) (r : Revision) (x : Item)
      → str_eq id' id ≡ false
      → x.evidence_id ≡ id'
      → Keeps id item disk
          (store_content c hash_event sha256 fingerprint t
            (version_file id' r x)
            (named_version t id' by r x)
            (revised c hash_event sha256 fingerprint t by r x)
            disk).0
  unfolding append_event revised
  add_other t id' by r x other named =
      let next = revised c hash_event sha256 fingerprint t by r x in
      let apart : (n : ℕ) → (str_eq id' id && x.current_version + 1 == n) ≡ false =
        λ n. rw other refl in
      store_content-Keeps id item disk there is_in_use held c hash_event sha256 fingerprint t
        (version_file id' r x) _ _
        (Keeps-same id item disk there is_in_use held _
          (find_item-set_item_other id id' next disk.index.items other named ∙ there)
          (λ n le. find_file-put_file_other id n (version_file id' r x) disk.files (apart n)))
        (Keeps-same id item disk there is_in_use held _ there (λ n le.
          find_file-remove_file_other id id' n (x.current_version + 1) disk.files (apart n)))

  pub add_version-Keeps :
      (t : Turn) (id' by : String) (r : Revision)
      → Keeps id item disk (add_version c hash_event sha256 fingerprint t id' by r disk).0
  unfolding add_version append_event revised
  add_version-Keeps t id' by r =
      outcome-Keeps id item disk there is_in_use held c hash_event sha256 fingerprint
        (check_upload c t.now r.content r.collected_at r.retention_until) _
        (λ _ _.
          load_index-Keeps id item disk there is_in_use held c hash_event sha256 fingerprint _ (
            found-split c hash_event sha256 fingerprint id item disk there is_in_use held id' _
              (λ own.
                guard-Keeps c hash_event sha256 fingerprint id item disk there is_in_use held
                  (is_active item.status) _ _
                  (λ _.
                    guard-Keeps c hash_event sha256 fingerprint id item disk there is_in_use held
                      (not (
                        is_held item.legal_hold && shortens r.retention_until item.retention_until))
                      _ _ (λ allowed. add_own t id' by r own (held_longer _ _ held allowed))))
              (λ other x named.
                guard-Keeps c hash_event sha256 fingerprint id item disk there is_in_use held
                  (is_active x.status) _ _
                  (λ _.
                    guard-Keeps c hash_event sha256 fingerprint id item disk there is_in_use held
                      (not (is_held x.legal_hold && shortens r.retention_until x.retention_until)) _
                      _ (λ _. add_other t id' by r x other named)))))
