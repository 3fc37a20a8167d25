-- ===== src/AccessControl/Tests.antt =====
-- The access controller at concrete credentials.
use basitclaw.Common.{
  ◌+◌, ◌≡◌, refl, String, Bool, true, false, none, some, [], ◌∷◌, All, str_eq, length, filter, ok,
  err,
}
use basitclaw.Common.Text.{is_alphanumeric, is_safe, is_tenant_code, trim_text, utf16_length}
use basitclaw.AccessControl.{permissions_for_role}
use basitclaw.AccessControl.Credentials.{
  retiring, Given, at, scrypt, Credential, clean_identifier, optional_date, status_of, check_role,
  in_order, split_key, secret_of, scrypt_secret, normalise_principal, normalise_loop,
  normalise_principals,
}
use basitclaw.AccessControl.Authentication.{
  Principal, invalid_key, is_early, is_over, rotation_due, matches_scrypt, matches_legacy, verifies,
  resolve_scrypt, resolve_credential, authenticate, tenant_override, credential_expired,
  credential_health,
}
use basitclaw.AccessControl.Soundness.{
  Authentic, NoDot, authenticate-Authentic, credential_health-usable, is_usable,
  resolve_scrypt-NoDot,
}
use basitclaw.AccessControl.Configured.{DistinctKeys, IsSound, normalise_principals-IsSound}

abbrev given : Given
given = record {
  subject = " ann ";
  tenant_id = "acme";
  role = "auditor";
  status = some "retiring";
  not_before = at 1_000;
  expires_at = at 9_000;
  api_key = none;
  key_id = "key-1";
  salt = "0123456789abcdef";
  secret_hash = "hash";
}

abbrev credential : Credential
credential = record {
  secret = scrypt "0123456789abcdef" "hash";
  key_id = "key-1";
  subject = "ann";
  tenant_id = "acme";
  role = "auditor";
  status = retiring;
  not_before = some 1_000;
  expires_at = some 9_000;
}

abbrev short_hash : String → String
short_hash s = "legacy-0"

abbrev is_secret_hash : String → Bool
is_secret_hash s = str_eq s "hash"

abbrev verify_scrypt : String → String → String → Bool
verify_scrypt hash salt secret = str_eq secret "open sesame"

normalised :
    normalise_principals short_hash is_secret_hash false (given ∷ []) ≡ ok (credential ∷ [])
unfolding normalise_principals normalise_loop normalise_principal clean_identifier optional_date
    status_of check_role in_order secret_of scrypt_secret trim_text is_safe is_tenant_code
    is_alphanumeric utf16_length permissions_for_role
normalised = refl

normalise_principals-IsSound_example :
    DistinctKeys (credential ∷ []) × All (IsSound false) (credential ∷ [])
normalise_principals-IsSound_example =
    normalise_principals-IsSound short_hash is_secret_hash false (given ∷ []) (credential ∷ [])
      normalised

abbrev principal : Principal
principal = record {
  subject = "ann";
  tenant_id = "acme";
  role = "auditor";
  permissions = "audit:read" ∷ "fieldwork:write" ∷ "finding:write" ∷ [];
  key_id = "key-1";
  credential_status = retiring;
  credential_expires_at = some 9_000;
  rotation_required = true;
}

authenticated :
    authenticate verify_scrypt 14 (credential ∷ []) 2_000 "key-1.open sesame" "" ≡ ok principal
unfolding authenticate resolve_credential resolve_scrypt matches_scrypt verifies split_key trim_text
    utf16_length is_early is_over rotation_due permissions_for_role
authenticated = refl

other_tenant :
    authenticate verify_scrypt 14 (credential ∷ []) 2_000 "key-1.open sesame" "other"
    ≡ err tenant_override
unfolding authenticate resolve_credential resolve_scrypt matches_scrypt verifies split_key trim_text
    utf16_length is_early is_over
other_tenant = refl

expired_key :
    authenticate verify_scrypt 14 (credential ∷ []) 9_000 "key-1.open sesame" ""
    ≡ err credential_expired
unfolding authenticate resolve_credential resolve_scrypt matches_scrypt verifies split_key trim_text
    utf16_length is_early is_over
expired_key = refl

authenticate-Authentic_example :
    Authentic verify_scrypt 14 (credential ∷ []) 2_000 "key-1.open sesame" "" principal
authenticate-Authentic_example =
    authenticate-Authentic verify_scrypt 14 (credential ∷ []) 2_000 "key-1.open sesame" "" principal
      authenticated

resolved : resolve_scrypt verify_scrypt (credential ∷ []) "key-1.open sesame" ≡ some credential
unfolding resolve_scrypt matches_scrypt verifies split_key utf16_length
resolved = refl

resolve_scrypt-NoDot_example : NoDot "key-1"
resolve_scrypt-NoDot_example =
    resolve_scrypt-NoDot verify_scrypt (credential ∷ []) "key-1.open sesame" credential resolved

-- A configured key id with a full stop: the right key is refused.
dotted_key_is_refused :
    authenticate verify_scrypt 14
      (record credential { key_id = "acme.v1" } ∷ [])
      2_000
      "acme.v1.open sesame"
      ""
    ≡ err invalid_key
unfolding authenticate resolve_credential resolve_scrypt matches_scrypt matches_legacy verifies
    split_key trim_text utf16_length
dotted_key_is_refused = refl

dotted_key_is_accepted : clean_identifier "acme.v1" "keyId" ≡ ok "acme.v1"
unfolding clean_identifier trim_text is_safe is_tenant_code is_alphanumeric
dotted_key_is_accepted = refl

credential_health-usable_example :
    ((credential_health 14 2_000 (credential ∷ [])).usable
      ≡ length (filter (is_usable 2_000) (credential ∷ [])))
    × ((credential_health 14 2_000 (credential ∷ [])).actives
          + (credential_health 14 2_000 (credential ∷ [])).retirings
          + (credential_health 14 2_000 (credential ∷ [])).revocations
        ≡ 1)
credential_health-usable_example = credential_health-usable 14 2_000 (credential ∷ [])
