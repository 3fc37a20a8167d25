-- ===== src/Coordination/Snapshots.antt =====
-- coordination/fencedSnapshotStore.js: snapshots of one tenant, a file for each fencing token. The
-- encrypted store below it is an interface, and so is SHA-256.
use basitclaw.Common.{
  ℕ, ◌≡◌, String, ◌&&◌, Option, none, some, leb, ◌==◌, str_eq, get_last?, Result, ok, err, ◌>>=◌,
  ◌>>◌, guard,
}
use basitclaw.AlertOutbox.Files.{Directory, put, prune}
use basitclaw.Coordination.Lease.{is_safe_integer}

-- What the store needs of `encryptedSnapshotStore`: what is serialised can be inspected.
pub record Codec (Snapshot : Type 0) : Type 0 where
  pub serialize : Snapshot → String
  pub inspect_encrypted : String → Option Snapshot
  pub inspect-serialize : (x : Snapshot) → inspect_encrypted (serialize x) ≡ some x

-- A package, of the store's own format and tenant.
pub record Package : Type 0 where
  pub fencing_token : ℕ
  pub checksum : String
  pub serialized : String

pub data SaveError : Type 0 where
  bad_token : SaveError
  -- with the token that was written last
  rejected : ℕ → SaveError
  bad_binding bad_checksum unreadable : SaveError

abbrev pub Versions : Type 0
Versions = Directory Package

module _ {Snapshot : Type 0} (codec : Codec Snapshot) (sha256 : String → String) where
  unfoldable pub create_package : ℕ → String → Package
  create_package token serialized = record {
    fencing_token = token;
    checksum = sha256 serialized;
    serialized = serialized;
  }

  unfoldable pub parse_package : ℕ → Package → Result SaveError String
  parse_package token p = do
    guard (p.fencing_token == token) bad_binding
    guard (str_eq (sha256 p.serialized) p.checksum) bad_checksum
    ok p.serialized

  -- The newest version, which is the last by name.
  unfoldable pub latest_fencing_token : Versions → ℕ
  latest_fencing_token versions = elim (get_last? versions) [ none ↦ 0 | some (token, _) ↦ token ]

  -- `unfenced` is what the store below holds, which is read while there is no version.
  unfoldable pub load : Option Snapshot → Versions → Result SaveError (Option Snapshot)
  load unfenced versions = elim (get_last? versions) [
    | none ↦ ok unfenced
    | some (token, p) ↦ (do
      serialized ← parse_package token p
      elim (codec.inspect_encrypted serialized) [ none ↦ err unreadable | some x ↦ ok (some x) ])
  ]

  unfoldable pub save : ℕ → ℕ → Snapshot → Versions → Result SaveError Versions
  save keep token x versions = do
    guard (leb 1 token && is_safe_integer token) bad_token
    guard (leb (latest_fencing_token versions) token) (rejected (latest_fencing_token versions))
    ok (prune keep (put token (create_package token (codec.serialize x)) versions))
