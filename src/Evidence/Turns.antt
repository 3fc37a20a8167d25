-- ===== src/Evidence/Turns.antt =====
-- evidence/evidenceRegistry.js: what the operations on evidence share: their inputs and checks, and the changes of
-- items and content files.
use basitclaw.Common.{
  ℕ, ◌+◌, String, Bool, true, false, ◌&&◌, not, Option, none, some, List, [], ◌∷◌, ltb, leb,
  if◌then◌else◌, str_eq, length, filter, Result, ok, err, ◌>>◌, guard,
}
use basitclaw.Common.Text.{utf16_length}
use basitclaw.AuditService.{clean_text}
use basitclaw.Evidence.{Error, validation_failed, not_found, Item, ContentFile, Disk, is_file}

pub record Settings : Type 0 where
  pub max_bytes : ℕ
  pub default_retention_days : ℕ
  pub event_retention : ℕ

pub data Write : Type 0 where
  content_file index_file purged_index : Write
  -- the deletion of a version's content
  purge : ℕ → Write

-- The time of an operation, the random ids of its events, and which of its writes succeed.
pub record Turn : Type 0 where
  pub now : ℕ
  pub event_id : String
  pub purged_event_id : String
  pub works : Write → Bool

pub record Upload : Type 0 where
  pub content : List ℕ
  pub filename : String
  pub media_type : String
  pub description : String
  pub source_type : String
  pub source_system : Option String
  pub collected_at : Option ℕ
  pub retention_until : Option ℕ

-- A new version; what is none is left as the item has it.
pub record Revision : Type 0 where
  pub content : List ℕ
  pub filename : String
  pub media_type : String
  pub description : Option String
  pub source_type : Option String
  pub source_system : Option (Option String)
  pub collected_at : Option ℕ
  pub retention_until : Option ℕ

abbrev pub value_or : {A : Type 0} → A → Option A → A
value_or d none = d
value_or d (some a) = a

abbrev pub is_later : ℕ → Option ℕ → Bool
is_later now none = true
is_later now (some date) = ltb now date

-- The checks of normaliseUpload on the content's size and on the dates.
unfoldable pub check_upload : Settings → ℕ → List ℕ → Option ℕ → Option ℕ → Result Error (Unit {0})
check_upload c now content collected_at retention_until = do
  guard (leb 1 (length content) && leb (length content) c.max_bytes)
      (validation_failed "contentBase64")
  guard (leb (value_or now collected_at) (now + 300_000)) (validation_failed "collectedAt")
  guard (is_later now retention_until) (validation_failed "retentionUntil")

unfoldable pub checked_text : String → String → ℕ → ℕ → Result Error String
checked_text value name minimum maximum =
    let clean = clean_text value in
    if leb minimum (utf16_length clean) && leb (utf16_length clean) maximum
    then ok clean
    else err (validation_failed name)

abbrev pub found : Option Item → Result Error Item
found none = err not_found
found (some item) = ok item

-- The first item of the id, replaced.
unfoldable pub set_item : String → Item → List Item → List Item
set_item id item [] = []
set_item id item (x ∷ xs) =
    let rest = set_item id item xs in if str_eq x.evidence_id id then item ∷ xs else x ∷ rest

abbrev pub put_file : ContentFile → List ContentFile → List ContentFile
put_file file files = file ∷ filter (λ f. not (is_file file.evidence_id file.version f)) files

abbrev pub remove_file : String → ℕ → List ContentFile → List ContentFile
remove_file id version = filter (λ f. not (is_file id version f))

-- if (input.retentionUntil && it is before the item's)
abbrev pub shortens : Option ℕ → ℕ → Bool
shortens none until = false
shortens (some date) until = ltb date until

abbrev pub outcome : Disk → Result Error (Disk × Result Error Item) → Disk × Result Error Item
outcome disk (err e) = (disk, err e)
outcome disk (ok after) = after
