-- ===== src/AccessControl/Configured.antt =====
-- security/accessControl.js, `normalisePrincipals`: what holds of the credentials it accepts.
use basitclaw.Common.{
  ◌≡◌, ◌≢◌, String, Bool, true, false, not, none, List, [], ◌∷◌, arith, leb, eq_iff, length, All,
  Option-cases, inl, inr, ok, >>=-eq-ok, guard-eq-ok, ok-injective, not-eq-true, sym, subst,
}
use basitclaw.Common.Text.{contains, utf16_length}
use basitclaw.AccessControl.{permissions_for_role}
use basitclaw.AccessControl.Credentials.{
  Given, Secret, legacy, scrypt, Credential, in_order, check_role, clean_identifier, optional_date,
  status_of, plaintext_disabled, legacy_secret, scrypt_secret, secret_of, normalise_principal,
  normalise_loop, normalise_principals,
}

-- No two credentials have one key id.
abbrev pub DistinctKeys : List Credential → Type 0
DistinctKeys [] = Unit
DistinctKeys (r ∷ rs) = All (λ x. x.key_id ≢ r.key_id) rs × DistinctKeys rs

abbrev pub IsHashed : Secret → Type 0
IsHashed (legacy key) = ⊥
IsHashed (scrypt salt hash) = Unit

-- A credential with a known role, dates in order, and no plaintext key where none is allowed.
pub record IsSound (allow_plaintext : Bool) (r : Credential) : Type 0 where
  pub known_role : permissions_for_role r.role ≢ none
  pub ordered : in_order r.not_before r.expires_at ≡ true
  pub hashed : allow_plaintext ≡ false → IsHashed r.secret

check_role-eq-ok :
    (role : String) (u : Unit {0}) → check_role role ≡ ok u → permissions_for_role role ≢ none
unfolding check_role
check_role-eq-ok role u h none_is = cc (rw (none_is, check_role) at h)

contains-cons :
    (k s : String) (ss : List String)
    → contains k (s ∷ ss) ≡ false
    → (k ≢ s) × (contains k ss ≡ false)
contains-cons k s ss h = (λ e. let same = (eq_iff s k).1 (sym e) in ground arith, ground arith)

Fresh-split :
    (k : String) (seen : List String) (rs : List Credential)
    → All (λ (r : Credential). contains r.key_id (k ∷ seen) ≡ false) rs
    → All (λ (r : Credential). r.key_id ≢ k) rs
      × All (λ (r : Credential). contains r.key_id seen ≡ false) rs
Fresh-split k seen [] h = (tt, tt)
Fresh-split k seen (r ∷ rs) h =
    let (a, b) = contains-cons r.key_id k seen h.0 in
    let (c, d) = Fresh-split k seen rs h.1 in ((a, c), (b, d))

module _ (short_hash : String → String) (is_secret_hash : String → Bool)
    (allow_plaintext : Bool) where
  legacy_secret-allowed :
      (g : Given) (key : String) (r : Secret × String)
      → legacy_secret short_hash is_secret_hash allow_plaintext g key ≡ ok r
      → allow_plaintext ≡ true
  unfolding legacy_secret
  legacy_secret-allowed g key r h = (guard-eq-ok allow_plaintext plaintext_disabled _ h).0

  scrypt_secret-IsHashed :
      (g : Given) (r : Secret × String)
      → scrypt_secret short_hash is_secret_hash allow_plaintext g ≡ ok r
      → IsHashed r.0
  unfolding scrypt_secret
  scrypt_secret-IsHashed g r h =
      let (id, _, h1) = >>=-eq-ok (clean_identifier g.key_id "keyId") _ h in
      let (_, h2) = guard-eq-ok (leb 16 (utf16_length g.salt)) _ _ h1 in
      let (_, h3) = guard-eq-ok (is_secret_hash g.secret_hash) _ _ h2 in
      subst (λ (x : Secret × String). IsHashed x.0) (ok-injective _ r h3) tt

  secret_of-IsHashed :
      (g : Given) (r : Secret × String)
      → secret_of short_hash is_secret_hash allow_plaintext g ≡ ok r
      → allow_plaintext ≡ false
      → IsHashed r.0
  unfolding secret_of
  secret_of-IsHashed g r h off = elim (Option-cases g.api_key) [
    | inl n ↦ scrypt_secret-IsHashed g r (rw (n, secret_of) at h)
    | inr (key, e) ↦ absurd (cc (legacy_secret-allowed g key r (rw (e, secret_of) at h)))
  ]

  normalise_principal-IsSound :
      (g : Given) (r : Credential)
      → normalise_principal short_hash is_secret_hash allow_plaintext g ≡ ok r
      → IsSound allow_plaintext r
  unfolding normalise_principal
  normalise_principal-IsSound g r h =
      let (subject, _, h1) = >>=-eq-ok (clean_identifier g.subject "subject") _ h in
      let (tenant, _, h2) = >>=-eq-ok (clean_identifier g.tenant_id "tenantId") _ h1 in
      let (u, role, h3) = >>=-eq-ok (check_role g.role) _ h2 in
      let (status, _, h4) = >>=-eq-ok (status_of g.status) _ h3 in
      let (starts, _, h5) = >>=-eq-ok (optional_date g.not_before) _ h4 in
      let (ends, _, h6) = >>=-eq-ok (optional_date g.expires_at) _ h5 in
      let (ordered, h7) = guard-eq-ok (in_order starts ends) _ _ h6 in
      let (x, secret, h8) =
        >>=-eq-ok (secret_of short_hash is_secret_hash allow_plaintext g) _ h7 in
      let same = ok-injective _ r h8 in
      subst (IsSound allow_plaintext) same (record {
        known_role = check_role-eq-ok g.role u role;
        ordered = ordered;
        hashed = secret_of-IsHashed g x secret;
      })

  normalise_loop_lem :
      (seen : List String) (gs : List Given) (rs : List Credential)
      → normalise_loop short_hash is_secret_hash allow_plaintext seen gs ≡ ok rs
      → All (λ (r : Credential). contains r.key_id seen ≡ false) rs
        × DistinctKeys rs
        × All (IsSound allow_plaintext) rs
  unfolding normalise_loop
  normalise_loop_lem seen [] rs h =
      subst
        (λ rs.
          All (λ (r : Credential). contains r.key_id seen ≡ false) rs
          × DistinctKeys rs
          × All (IsSound allow_plaintext) rs)
        (ok-injective [] rs h) (tt, tt, tt)
  normalise_loop_lem seen (g ∷ gs) rs h =
      let (r, made, h1) =
        >>=-eq-ok (normalise_principal short_hash is_secret_hash allow_plaintext g) _ h in
      let (fresh, h2) = guard-eq-ok (not (contains r.key_id seen)) _ _ h1 in
      let (rest, looped, h3) =
        >>=-eq-ok (normalise_loop short_hash is_secret_hash allow_plaintext (r.key_id ∷ seen) gs) _
          h2 in
      let (new, distinct, sound) = normalise_loop_lem (r.key_id ∷ seen) gs rest looped in
      let (apart, unseen) = Fresh-split r.key_id seen rest new in
      subst
        (λ rs.
          All (λ (r : Credential). contains r.key_id seen ≡ false) rs
          × DistinctKeys rs
          × All (IsSound allow_plaintext) rs)
        (ok-injective (r ∷ rest) rs h3)
        (
          (not-eq-true _ fresh, unseen),
          (apart, distinct),
          (normalise_principal-IsSound g r made, sound),
        )

  -- The credentials that a controller accepts have different key ids, known roles, an end that is
  -- after their start where both are set, and, where plaintext keys are disabled, no plaintext key.
  pub normalise_principals-IsSound :
      (gs : List Given) (rs : List Credential)
      → normalise_principals short_hash is_secret_hash allow_plaintext gs ≡ ok rs
      → DistinctKeys rs × All (IsSound allow_plaintext) rs
  unfolding normalise_principals
  normalise_principals-IsSound gs rs h =
      let (_, h1) = guard-eq-ok (leb 1 (length gs)) _ _ h in
      let (_, h2) = guard-eq-ok (leb (length gs) 100) _ _ h1 in
      let (_, distinct, sound) = normalise_loop_lem [] gs rs h2 in (distinct, sound)
