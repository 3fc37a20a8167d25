-- ===== src/Evidence/Items.antt =====
-- evidence/evidenceRegistry.js: finding items and contents after changes of others.
use basitclaw.Common.{
  ℕ, ◌≡◌, refl, ◌∙◌, String, false, ◌&&◌, some, List, [], ◌∷◌, ◌++◌, str_eq, eq_iff, ◌==◌, arith,
}
use basitclaw.Evidence.{Version, Item, ContentFile, find_item, is_file, find_file}
use basitclaw.Evidence.Turns.{Turn, set_item, put_file, remove_file}
use basitclaw.Evidence.Disposal.{purge_files}

pub find_item-set_item_other :
    (id id' : String) (x : Item) (items : List Item)
    → str_eq id' id ≡ false
    → x.evidence_id ≡ id'
    → find_item id (set_item id' x items) ≡ find_item id items
unfolding set_item
find_item-set_item_other id id' x [] d e = refl
find_item-set_item_other id id' x (y ∷ ys) d e = ground (
  arith,
  find_item-set_item_other id id' x ys d e,
  eq_iff y.evidence_id id',
  eq_iff y.evidence_id id,
  eq_iff x.evidence_id id,
  eq_iff id' id,
)

pub find_item-set_item :
    (id : String) (x y : Item) (items : List Item)
    → x.evidence_id ≡ id
    → find_item id items ≡ some y
    → find_item id (set_item id x items) ≡ some x
unfolding set_item
find_item-set_item id x y [] e h = cc
find_item-set_item id x y (z ∷ zs) e h =
    ground (arith, find_item-set_item id x y zs e, eq_iff z.evidence_id id, eq_iff x.evidence_id id)

pub find_item-evidence_id :
    (id : String) (x : Item) (items : List Item) → find_item id items ≡ some x → x.evidence_id ≡ id
find_item-evidence_id id x [] h = cc
find_item-evidence_id id x (z ∷ zs) h =
    ground (arith, find_item-evidence_id id x zs, eq_iff z.evidence_id id)

pub find_item-append :
    (id : String) (x z : Item) (items : List Item)
    → find_item id items ≡ some x
    → find_item id (items ++ z ∷ []) ≡ some x
find_item-append id x z [] h = cc
find_item-append id x z (y ∷ ys) h = ground (arith, find_item-append id x z ys)

-- Of a content under another name.
pub find_file-remove_file_other :
    (id id' : String) (n n' : ℕ) (files : List ContentFile)
    → (str_eq id' id && n' == n) ≡ false
    → find_file id n (remove_file id' n' files) ≡ find_file id n files
find_file-remove_file_other id id' n n' [] d = refl
find_file-remove_file_other id id' n n' (f ∷ files) d = ground (
  arith,
  find_file-remove_file_other id id' n n' files d,
  eq_iff f.evidence_id id',
  eq_iff f.evidence_id id,
  eq_iff id' id,
)

pub find_file-put_file_other :
    (id : String) (n : ℕ) (file : ContentFile) (files : List ContentFile)
    → is_file id n file ≡ false
    → find_file id n (put_file file files) ≡ find_file id n files
find_file-put_file_other id n file files d =
    rw d (find_file-remove_file_other id file.evidence_id n file.version files d)

pub find_file-purge_files_other :
    (t : Turn) (id id' : String) (n : ℕ) (versions : List Version) (files : List ContentFile)
    → str_eq id' id ≡ false
    → find_file id n (purge_files t id' versions files) ≡ find_file id n files
unfolding purge_files
find_file-purge_files_other t id id' n [] files d = refl
find_file-purge_files_other t id id' n (v ∷ versions) files d =
    find_file-purge_files_other t id id' n versions _ d
    ∙ ground (arith, find_file-remove_file_other id id' n v.version files)
