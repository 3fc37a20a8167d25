-- ===== src/Backups.antt =====
-- persistence/backupManager.js: the directory of one tenant's backups, each an envelope and a manifest.
-- The envelope is read through the interface of the encrypted store; SHA-256 is a parameter, and so are
-- the random part of an id and whether a file could be written.
pub mod Listing
pub mod Deleting
pub mod Retention
mod Tests
use basitclaw.Common.{
  ℕ, ◌+◌, ◌*◌, String, Bool, true, false, ◌||◌, not, Option, none, some, List, [], ◌∷◌, map, max,
  leb, if◌then◌else◌, str_eq, filter, find, any, drop, head?, Result, ok, err, ◌>>=◌, ◌>>◌, guard,
}
use basitclaw.Common.Text.{with_line_end}

-- The encrypted store's envelopes for one tenant: the text of a snapshot's envelope, and the snapshot in a
-- text, if it can be decrypted and is the tenant's.
pub record Envelopes (Snapshot : Type 0) : Type 0 where
  pub serialize : Snapshot → String
  pub inspect_encrypted : String → Option Snapshot

pub data Kind : Type 0 where
  manual scheduled safety : Kind

pub record Manifest : Type 0 where
  pub backup_id : String
  pub created_at : ℕ
  pub created_order : ℕ
  pub written_at : ℕ
  pub key_id : String
  pub checksum : String
  pub kind : Kind

-- An envelope file, by the id of its backup.
pub record EnvelopeFile : Type 0 where
  pub id : String
  pub text : String

pub record Directory : Type 0 where
  pub manifests : List Manifest
  pub envelopes : List EnvelopeFile

-- What `readEncrypted` returns of the tenant's present snapshot.
pub record Primary : Type 0 where
  pub serialized : String
  pub written_at : ℕ
  pub key_id : String

pub data Error : Type 0 where
  no_snapshot write_failed not_found checksum_mismatch not_readable : Error

abbrev pub empty_directory : Directory
empty_directory = record { manifests = []; envelopes = [] }

-- Manifests in descending order of creation; of equal ones the one ahead stays ahead.
pub insert_manifest : Manifest → List Manifest → List Manifest
insert_manifest m [] = m ∷ []
insert_manifest m (x ∷ xs) =
    if leb x.created_order m.created_order then m ∷ x ∷ xs else x ∷ insert_manifest m xs

pub sort_manifests : List Manifest → List Manifest
unfolding insert_manifest
sort_manifests [] = []
sort_manifests (m ∷ ms) = insert_manifest m (sort_manifests ms)

unfoldable pub list_backups : Directory → List Manifest
unfolding sort_manifests
list_backups d = sort_manifests d.manifests

abbrev pub is_manifest : String → Manifest → Bool
is_manifest id m = str_eq m.backup_id id

abbrev pub is_envelope : String → EnvelopeFile → Bool
is_envelope id e = str_eq e.id id

-- The directory without a backup's files, and whether there were any.
unfoldable pub remove : String → Directory → Directory × Bool
remove id d = (
  record {
    manifests = filter (λ m. not (is_manifest id m)) d.manifests;
    envelopes = filter (λ e. not (is_envelope id e)) d.envelopes;
  },
  any (is_manifest id) d.manifests || any (is_envelope id) d.envelopes,
)

pub remove_all : List String → Directory → Directory
unfolding remove
remove_all [] d = d
remove_all (id ∷ ids) d = remove_all ids (remove id d).0

-- The ids that `prune` removes, and what it leaves.
unfoldable pub prune : ℕ → Directory → List String × Directory
unfolding remove_all list_backups
prune retention d =
    let expired = map (λ (m : Manifest). m.backup_id) (drop retention (list_backups d)) in
    (expired, remove_all expired d)

-- Math.max(Date.parse(createdAt) * 1000, (existingBackups[0]?.createdOrder ?? 0) + 1)
unfoldable pub next_order : ℕ → Directory → ℕ
unfolding list_backups
next_order now d =
    max (now * 1000) (elim (head? (list_backups d)) [ none ↦ 0 | some m ↦ m.created_order ] + 1)

module _ (sha256 : String → String) where
  unfoldable pub new_manifest : Directory → Primary → ℕ → String → Kind → Manifest
  new_manifest d p now id kind = record {
    backup_id = id;
    created_at = now;
    created_order = next_order now d;
    written_at = p.written_at;
    key_id = p.key_id;
    checksum = sha256 p.serialized;
    kind = kind;
  }

  -- The directory when both files are written.
  unfoldable pub add_backup : Primary → Manifest → Directory → Directory
  add_backup p m d =
      let rest = (remove m.backup_id d).0 in
      record {
        manifests = m ∷ rest.manifests;
        envelopes = record { id = m.backup_id; text = with_line_end p.serialized } ∷ rest.envelopes;
      }

  -- With the ids that the pruning removed. When a file cannot be written, both are taken away.
  unfoldable pub create :
      ℕ
      → Bool
      → Option Primary
      → ℕ
      → String
      → Kind
      → Directory
      → Directory × Result Error (Manifest × List String)
  create retention writes none now id kind d = (d, err no_snapshot)
  create retention false (some p) now id kind d = ((remove id d).0, err write_failed)
  create retention true (some p) now id kind d =
      let m = new_manifest d p now id kind in
      let (expired, left) = prune retention (add_backup p m d) in (left, ok (m, expired))

  module _ {Snapshot : Type 0} (store : Envelopes Snapshot) where
    -- A backup that is loaded.
    pub record Loaded : Type 0 where
      pub manifest : Manifest
      pub serialized : String
      pub snapshot : Snapshot

    unfoldable pub load : String → Directory → Result Error Loaded
    load id d = do
      m ← elim (find (is_manifest id) d.manifests) [ none ↦ err not_found | some m ↦ ok m ]
      e ← elim (find (is_envelope id) d.envelopes) [ none ↦ err not_found | some e ↦ ok e ]
      guard (str_eq (sha256 e.text) m.checksum) checksum_mismatch
      s ← elim (store.inspect_encrypted e.text) [ none ↦ err not_readable | some s ↦ ok s ]
      ok (record { manifest = m; serialized = e.text; snapshot = s })
