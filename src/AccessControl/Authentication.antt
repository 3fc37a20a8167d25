-- ===== src/AccessControl/Authentication.antt =====
-- security/accessControl.js: authentication by API key, authorisation, and the controller's health.
-- The scrypt check of a secret is a parameter; a constant-time comparison is equality.
use basitclaw.Common.{
  ℕ, ◌+◌, ◌*◌, String, Bool, true, false, ◌&&◌, ◌||◌, not, Option, none, some, List, [], ◌∷◌, map,
  leb, ltb, if◌then◌else◌, str_eq, find, filter, Result, ok, err, ◌>>=◌, ◌>>◌, guard,
}
use basitclaw.Common.Text.{trim_text, utf16_length, contains, distinct_texts}
use basitclaw.AccessControl.{permissions_for_role}
use basitclaw.AccessControl.Credentials.{
  CredentialStatus, active, retiring, revoked, Secret, legacy, scrypt, Credential, split_key,
}

pub data AuthError : Type 0 where
  unauthenticated invalid_key credential_revoked credential_not_active credential_expired :
      AuthError
  tenant_override permission_denied unsupported_role : AuthError

pub record Principal : Type 0 where
  pub subject : String
  pub tenant_id : String
  pub role : String
  pub permissions : List String
  pub key_id : String
  pub credential_status : CredentialStatus
  pub credential_expires_at : Option ℕ
  pub rotation_required : Bool

abbrev pub is_revoked : CredentialStatus → Bool
is_revoked revoked = true
is_revoked _ = false

abbrev pub is_retiring : CredentialStatus → Bool
is_retiring retiring = true
is_retiring _ = false

abbrev pub is_active : CredentialStatus → Bool
is_active active = true
is_active _ = false

-- record.notBefore && current < record.notBefore
unfoldable pub is_early : Credential → ℕ → Bool
is_early r now = elim r.not_before [ none ↦ false | some t ↦ ltb now t ]

-- record.expiresAt && current >= record.expiresAt
unfoldable pub is_over : Credential → ℕ → Bool
is_over r now = elim r.expires_at [ none ↦ false | some t ↦ leb t now ]

unfoldable pub rotation_due : ℕ → Credential → ℕ → Bool
rotation_due days r now =
    is_retiring r.status
    || elim r.expires_at [ none ↦ false | some t ↦ leb t (now + days * 86_400_000) ]

module _ (verify_scrypt : String → String → String → Bool) where
  unfoldable pub matches_scrypt : String → String → Credential → Bool
  matches_scrypt key_id secret r = elim r.secret [
    | legacy _ ↦ false
    | scrypt _ _ ↦ str_eq r.key_id key_id
  ]

  unfoldable pub matches_legacy : String → Credential → Bool
  matches_legacy supplied r = elim r.secret [
    | legacy key ↦ str_eq key supplied
    | scrypt _ _ ↦ false
  ]

  unfoldable pub verifies : String → Credential → Bool
  verifies secret r = elim r.secret [
    | legacy _ ↦ false
    | scrypt salt hash ↦ verify_scrypt hash salt secret
  ]

  -- The scrypt credential that the key names, if its secret is right.
  unfoldable pub resolve_scrypt : List Credential → String → Option Credential
  unfolding matches_scrypt verifies
  resolve_scrypt records supplied = elim (split_key supplied) [
    | none ↦ none
    | some (id, secret) ↦
        if leb 2 (utf16_length id)
        then elim (find (matches_scrypt id secret) records) [
          | none ↦ none
          | some r ↦ if verifies secret r then some r else none
        ]
        else none
  ]

  unfoldable pub resolve_credential : List Credential → String → Option Credential
  unfolding resolve_scrypt matches_legacy
  resolve_credential records supplied = elim (resolve_scrypt records supplied) [
    | some r ↦ some r
    | none ↦ find (matches_legacy supplied) records
  ]

  -- The two headers, each empty when it is missing.
  unfoldable pub authenticate :
      ℕ → List Credential → ℕ → String → String → Result AuthError Principal
  authenticate days records now key_header tenant_header = do
    let supplied = trim_text key_header
    guard (not (str_eq supplied "")) unauthenticated
    r ← elim (resolve_credential records supplied) [ none ↦ err invalid_key | some r ↦ ok r ]
    guard (not (is_revoked r.status)) credential_revoked
    guard (not (is_early r now)) credential_not_active
    guard (not (is_over r now)) credential_expired
    let tenant = trim_text tenant_header
    guard (str_eq tenant "" || str_eq tenant r.tenant_id) tenant_override
    permissions ← elim (permissions_for_role r.role) [
      | none ↦ err unsupported_role
      | some ps ↦ ok ps
    ]
    ok (record {
      subject = r.subject;
      tenant_id = r.tenant_id;
      role = r.role;
      permissions = permissions;
      key_id = r.key_id;
      credential_status = r.status;
      credential_expires_at = r.expires_at;
      rotation_required = rotation_due days r now;
    })

unfoldable pub authorise : Principal → String → Result AuthError Principal
authorise p permission = do guard (contains permission p.permissions) permission_denied; ok p

unfoldable pub tenant_ids : List Credential → List String
tenant_ids records =
    distinct_texts (map (λ r. r.tenant_id) (filter (λ r. not (is_revoked r.status)) records))

pub record Health : Type 0 where
  pub usable : ℕ
  pub actives : ℕ
  pub retirings : ℕ
  pub revocations : ℕ
  pub expired : ℕ
  pub not_yet_active : ℕ
  pub legacy_plaintext : ℕ
  pub rotation_required : ℕ
  pub next_expiry_at : Option ℕ

abbrev pub no_health : Health
no_health = record {
  usable = 0;
  actives = 0;
  retirings = 0;
  revocations = 0;
  expired = 0;
  not_yet_active = 0;
  legacy_plaintext = 0;
  rotation_required = 0;
  next_expiry_at = none;
}

abbrev pub one_if : Bool → ℕ
one_if b = if b then 1 else 0

abbrev is_legacy : Secret → Bool
is_legacy (legacy _) = true
is_legacy (scrypt _ _) = false

-- The first of two future ends.
unfoldable pub earlier : ℕ → Option ℕ → Option ℕ → Option ℕ
earlier now none next = next
earlier now (some t) none = if ltb now t then some t else none
earlier now (some t) (some n) = if ltb now t && ltb t n then some t else some n

-- One turn of the loop of `credentialHealth`.
unfoldable pub count_credential : ℕ → ℕ → Health → Credential → Health
count_credential days now h r = record {
  usable =
      h.usable + one_if (not (is_early r now) && not (is_over r now) && not (is_revoked r.status));
  actives = h.actives + one_if (is_active r.status);
  retirings = h.retirings + one_if (is_retiring r.status);
  revocations = h.revocations + one_if (is_revoked r.status);
  expired = h.expired + one_if (not (is_early r now) && is_over r now);
  not_yet_active = h.not_yet_active + one_if (is_early r now);
  legacy_plaintext = h.legacy_plaintext + one_if (is_legacy r.secret);
  rotation_required =
      h.rotation_required + one_if (rotation_due days r now && not (is_revoked r.status));
  next_expiry_at = earlier now r.expires_at h.next_expiry_at;
}

unfoldable pub count_all : ℕ → ℕ → Health → List Credential → Health
count_all days now h [] = h
count_all days now h (r ∷ rs) = count_all days now (count_credential days now h r) rs

unfoldable pub credential_health : ℕ → ℕ → List Credential → Health
credential_health days now records = count_all days now no_health records
