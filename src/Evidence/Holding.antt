-- ===== src/Evidence/Holding.antt =====
-- evidence/evidenceRegistry.js: what a legal hold keeps.
use basitclaw.Common.{
  ℕ, ◌≤◌, ◌≡◌, refl, ap, sym, subst, String, Bool, true, false, ◌&&◌, Option, none, some, List, [],
  ◌++◌, append_nil, str_eq, ◌==◌, Result, ok, err, ◌>>=◌, arith, Bool-cases, inl, inr,
  if◌then◌else◌, ok-injective,
}
use basitclaw.Evidence.{
  Error, Version, Item, Unsigned, Index, ContentFile, Disk, find_item, is_active, is_held,
  find_file, append_event, load_index, verify_chain, integrity_failed,
}
use basitclaw.Evidence.Turns.{
  Settings, Turn, content_file, index_file, Upload, found, value_or, put_file, remove_file, outcome,
  check_upload,
}
use basitclaw.Evidence.Custody.{store_content, new_file, new_item, ingest}
use basitclaw.Evidence.Holds.{}
use basitclaw.Evidence.Items.{
  find_item-append, find_file-remove_file_other, find_file-put_file_other,
}

-- The item `item` under hold has become `later` on `after`: it is active and under hold, its retention is not
-- shorter, it has the same versions and perhaps later ones, and each content of a version is as it was.
pub record Keeps (id : String) (item : Item) (disk after : Disk) : Type 0 where
  pub later : Item
  pub still_there : find_item id after.index.items ≡ some later
  pub still_active : is_active later.status ≡ true
  pub still_held : is_held later.legal_hold ≡ true
  pub retained : item.retention_until ≤ later.retention_until
  pub newer : List Version
  pub versions_kept : later.versions ≡ item.versions ++ newer
  pub counted : item.current_version ≤ later.current_version
  pub contents_kept :
      (n : ℕ) → n ≤ item.current_version → find_file id n after.files ≡ find_file id n disk.files

if_ok : {A : Type 0} (b : Bool) (x y : A) (e : Error) → (if b then ok x else err e) ≡ ok y → y ≡ x
if_ok true x y e h = sym (ok-injective x y h)
if_ok false x y e h = cc

pub load_index-eq-ok :
    (hash_event : Unsigned → String) (retained : ℕ) (disk : Disk) (index : Index)
    → load_index hash_event retained disk ≡ ok index
    → index ≡ disk.index
unfolding load_index
load_index-eq-ok hash_event retained disk index h =
    if_ok (verify_chain hash_event retained disk.index) disk.index index integrity_failed h

pub some_injective : (x y : Item) → ◌≡◌ {A = Option Item} (some x) (some y) → x ≡ y
some_injective x y h = ap (value_or x) h

pub refused-done : {A : Type 0} (r : Result Error A) (e : Error) (a : A) → r ≡ err e → r ≡ ok a → ⊥
refused-done (err x) e a h k = cc
refused-done (ok x) e a h k = cc

pub found-eq-ok : (o : Option Item) (x : Item) → found o ≡ ok x → o ≡ some x
found-eq-ok none x h = cc
found-eq-ok (some y) x h = ap some (ok-injective y x h)

module _ (id : String) (item : Item) (disk : Disk)
    (there : find_item id disk.index.items ≡ some item) (is_in_use : is_active item.status ≡ true)
    (held : is_held item.legal_hold ≡ true) where
  pub Keeps-same :
      (after : Disk)
      → find_item id after.index.items ≡ some item
      → ((n : ℕ)
          → n ≤ item.current_version
          → find_file id n after.files ≡ find_file id n disk.files)
      → Keeps id item disk after
  Keeps-same after found_there files = record {
    later = item;
    still_there = found_there;
    still_active = is_in_use;
    still_held = held;
    retained = omega arith;
    newer = [];
    versions_kept = sym (append_nil item.versions);
    counted = omega arith;
    contents_kept = files;
  }

  pub Keeps-refl : Keeps id item disk disk
  Keeps-refl = Keeps-same disk there (λ n le. refl)

  module _ (c : Settings) (hash_event : Unsigned → String) (sha256 : List ℕ → String)
      (fingerprint : String → String) where
    -- An operation that throws before it writes leaves the disk.
    pub outcome-Keeps :
        {A : Type 0} (first : Result Error A) (rest : A → Result Error (Disk × Result Error Item))
        → ((a : A) → first ≡ ok a → Keeps id item disk (outcome disk (rest a)).0)
        → Keeps id item disk (outcome disk (first >>= rest)).0
    outcome-Keeps (err e) rest h = Keeps-refl
    outcome-Keeps (ok a) rest h = h a refl

    -- The rest of an operation on the index that is on disk.
    pub load_index-Keeps :
        (rest : Index → Result Error (Disk × Result Error Item))
        → Keeps id item disk (outcome disk (rest disk.index)).0
        → Keeps id item disk
            (outcome disk (load_index hash_event c.event_retention disk >>= rest)).0
    load_index-Keeps rest h =
        outcome-Keeps (load_index hash_event c.event_retention disk) rest (λ index loaded.
          subst (λ (k : Index). Keeps id item disk (outcome disk (rest k)).0)
            (sym (load_index-eq-ok hash_event c.event_retention disk index loaded)) h)

    pub store_content-Keeps :
        (t : Turn) (file : ContentFile) (index : Index) (x : Item)
        → Keeps id item disk (record { index = index; files = put_file file disk.files })
        → Keeps id item disk
            (record disk { files = remove_file file.evidence_id file.version disk.files })
        → Keeps id item disk (store_content c hash_event sha256 fingerprint t file index x disk).0
    unfolding store_content
    store_content-Keeps t file index x stored undone =
        elim (Bool-cases (t.works content_file && t.works index_file)) [
          | inl t ↦ rw t stored
          | inr f ↦ rw f undone
        ]

    pub ingest-Keeps :
        (t : Turn) (id' by : String) (u : Upload)
        → str_eq id' id ≡ false
        → Keeps id item disk (ingest c hash_event sha256 fingerprint t id' by u disk).0
    unfolding ingest append_event
    ingest-Keeps t id' by u other =
        let x = new_item c hash_event sha256 fingerprint t id' by u in
        let apart : (n : ℕ) → (str_eq id' id && 1 == n) ≡ false = λ n. rw other refl in
        outcome-Keeps (check_upload c t.now u.content u.collected_at u.retention_until) _ (λ _ _.
          load_index-Keeps _ (
            store_content-Keeps t (new_file c hash_event sha256 fingerprint id' 1 u.content) _ x
              (Keeps-same _ (find_item-append id item x disk.index.items there) (λ n le.
                find_file-put_file_other id n
                  (new_file c hash_event sha256 fingerprint id' 1 u.content) disk.files (apart n)))
              (Keeps-same _ there
                (λ n le. find_file-remove_file_other id id' n 1 disk.files (apart n)))))
