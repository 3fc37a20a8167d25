-- ===== src/AccessControl/Credentials.antt =====
-- security/accessControl.js, `normalisePrincipals`: the credentials that a controller is made with.
-- SHA-256 hints and the form of a scrypt hash are parameters; times are milliseconds.
use Prim.Native.Char.{code}
use basitclaw.Common.{
  ℕ, String, Bool, true, ◌&&◌, not, Option, none, some, List, [], ◌∷◌, leb, ltb, ◌==◌,
  if◌then◌else◌, str_eq, length, Result, ok, err, ◌>>=◌, ◌>>◌, guard,
}
use basitclaw.Common.Text.{codes, trim_text, utf16_length, contains, is_safe, is_tenant_code}
use basitclaw.AccessControl.{permissions_for_role}

pub data CredentialStatus : Type 0 where
  active retiring revoked : CredentialStatus

pub data ConfigError : Type 0 where
  no_principals too_many unsupported_role bad_status bad_date bad_window : ConfigError
  plaintext_disabled short_key bad_salt bad_hash duplicate_key : ConfigError
  bad_identifier : String → ConfigError

-- A date as it is configured: left out, not a date, or a time.
pub data GivenDate : Type 0 where
  missing invalid : GivenDate
  at : ℕ → GivenDate

-- A principal as it is configured. A text that is left out is empty, where the code does not tell
-- the two apart.
pub record Given : Type 0 where
  pub subject : String
  pub tenant_id : String
  pub role : String
  pub status : Option String
  pub not_before : GivenDate
  pub expires_at : GivenDate
  pub api_key : Option String
  pub key_id : String
  pub salt : String
  pub secret_hash : String

pub data Secret : Type 0 where
  -- the plaintext key
  legacy : String → Secret
  -- the salt and the hash
  scrypt : String → String → Secret

pub record Credential : Type 0 where
  pub secret : Secret
  pub key_id : String
  pub subject : String
  pub tenant_id : String
  pub role : String
  pub status : CredentialStatus
  pub not_before : Option ℕ
  pub expires_at : Option ℕ

unfoldable pub clean_identifier : String → String → Result ConfigError String
clean_identifier value field = do
  let t = trim_text value
  guard (is_safe is_tenant_code 1 127 (codes t)) (bad_identifier field)
  ok t

unfoldable pub optional_date : GivenDate → Result ConfigError (Option ℕ)
optional_date missing = ok none
optional_date invalid = err bad_date
optional_date (at t) = ok (some t)

unfoldable pub status_of : Option String → Result ConfigError CredentialStatus
status_of none = ok active
status_of (some s) =
    if str_eq s "active"
    then ok active
    else if str_eq s "retiring"
    then ok retiring
    else if str_eq s "revoked"
    then ok revoked
    else err bad_status

unfoldable pub check_role : String → Result ConfigError (Unit {0})
check_role role = elim (permissions_for_role role) [ none ↦ err unsupported_role | some _ ↦ ok tt ]

-- !(notBefore && expiresAt && expiresAt <= notBefore)
unfoldable pub in_order : Option ℕ → Option ℕ → Bool
in_order (some a) (some b) = ltb a b
in_order _ _ = true

-- The parts before and behind the first full stop.
unfoldable pub split_key : String → Option (String × String)
split_key String.[] = none
split_key (String.◌∷◌ c s) =
    let rest = split_key s in
    if code c == b'.'
    then some (String.[], s)
    else elim rest [ none ↦ none | some (a, b) ↦ some (String.◌∷◌ c a, b) ]

module _ (short_hash : String → String) (is_secret_hash : String → Bool)
    (allow_plaintext : Bool) where
  -- credentialHint: the public part of a key, or a short hash of it.
  unfoldable pub credential_hint : String → String
  unfolding split_key
  credential_hint supplied = elim (split_key supplied) [
    | none ↦ short_hash supplied
    | some (a, _) ↦
        if leb 2 (utf16_length a) && is_safe is_tenant_code 1 127 (codes a)
        then a
        else short_hash supplied
  ]

  unfoldable pub legacy_secret : Given → String → Result ConfigError (Secret × String)
  legacy_secret g key = do
    guard allow_plaintext plaintext_disabled
    guard (leb 16 (utf16_length key)) short_key
    id ←
        (if str_eq g.key_id "" then ok (credential_hint key) else clean_identifier g.key_id "keyId")
    ok (legacy key, id)

  unfoldable pub scrypt_secret : Given → Result ConfigError (Secret × String)
  scrypt_secret g = do
    id ← clean_identifier g.key_id "keyId"
    guard (leb 16 (utf16_length g.salt)) bad_salt
    guard (is_secret_hash g.secret_hash) bad_hash
    ok (scrypt g.salt g.secret_hash, id)

  unfoldable pub secret_of : Given → Result ConfigError (Secret × String)
  unfolding legacy_secret scrypt_secret
  secret_of g = elim g.api_key [ none ↦ scrypt_secret g | some key ↦ legacy_secret g key ]

  unfoldable pub normalise_principal : Given → Result ConfigError Credential
  normalise_principal g = do
    subject ← clean_identifier g.subject "subject"
    tenant ← clean_identifier g.tenant_id "tenantId"
    check_role g.role
    status ← status_of g.status
    starts ← optional_date g.not_before
    ends ← optional_date g.expires_at
    guard (in_order starts ends) bad_window
    (secret, id) ← secret_of g
    ok (record {
      secret = secret;
      key_id = id;
      subject = subject;
      tenant_id = tenant;
      role = g.role;
      status = status;
      not_before = starts;
      expires_at = ends;
    })

  -- The loop of `map`, with the key ids that came before.
  unfoldable pub normalise_loop : List String → List Given → Result ConfigError (List Credential)
  normalise_loop seen [] = ok []
  normalise_loop seen (g ∷ gs) = do
    r ← normalise_principal g
    guard (not (contains r.key_id seen)) duplicate_key
    rest ← normalise_loop (r.key_id ∷ seen) gs
    ok (r ∷ rest)

  unfoldable pub normalise_principals : List Given → Result ConfigError (List Credential)
  normalise_principals gs = do
    guard (leb 1 (length gs)) no_principals
    guard (leb (length gs) 100) too_many
    normalise_loop [] gs
