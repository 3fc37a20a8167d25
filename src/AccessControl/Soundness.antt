-- ===== src/AccessControl/Soundness.antt =====
-- security/accessControl.js: what a key that authenticates stands for, and which keys never do.
use Prim.Native.Char.{code}
use basitclaw.Common.{
  ℕ, suc, ◌+◌, ◌≡◌, refl, String, Bool, true, false, ◌&&◌, ◌||◌, not, Option, none, some, List, [],
  ◌∷◌, leb, ◌==◌, arith, str_eq, eq_iff, length, find, filter, get_elem?, all, Bool-cases,
  Option-cases, ◌⊎◌, inl, inr, ok, err, >>=-eq-ok, guard-eq-ok, ok-injective, not-eq-true, sym, ap,
  subst, ◌∙◌,
}
use basitclaw.Common.Text.{codes, trim_text, utf16_length}
use basitclaw.AccessControl.{permissions_for_role}
use basitclaw.AccessControl.Credentials.{
  CredentialStatus, active, retiring, revoked, Secret, legacy, scrypt, Credential, split_key,
}
use basitclaw.AccessControl.Authentication.{
  AuthError, Principal, Health, is_revoked, is_early, is_over, matches_scrypt, matches_legacy,
  verifies, resolve_scrypt, resolve_credential, authenticate, credential_health, count_all,
  count_credential, invalid_key, unsupported_role, is_active, is_retiring, no_health, one_if,
}

find-place :
    {A : Type 0} (q : A → Bool) (xs : List A) (x : A)
    → find q xs ≡ some x
    → (k : ℕ) × (get_elem? xs k ≡ some x) × (q x ≡ true)
find-place q [] x h = cc
find-place q (y ∷ xs) x h = elim (Bool-cases (q y)) [
  | inl t ↦
      let same : y ≡ x = ground arith in (0, ap (λ z. some z) same, subst (λ z. q z ≡ true) same t)
  | inr f ↦ let (k, at, holds) = find-place q xs x (rw f at h) in (suc k, at, holds)
]

-- A text without a full stop.
abbrev pub NoDot : String → Type 0
NoDot s = all (λ c. not (c == b'.')) (codes s) ≡ true

abbrev first_of : Option (String × String) → String
first_of none = ""
first_of (some (a, _)) = a

-- The part before the first full stop has none.
split_key-NoDot : (s a b : String) → split_key s ≡ some (a, b) → NoDot a
unfolding split_key
split_key-NoDot String.[] a b h = cc
split_key-NoDot (String.◌∷◌ c s) a b h = elim (Bool-cases (code c == b'.')) [
  | inl t ↦ subst NoDot (ap first_of (rw t at h)) refl
  | inr f ↦ elim (Option-cases (split_key s)) [
    | inl n ↦ absurd (cc (rw (f, n) at h))
    | inr ((a', b'), e) ↦
        let whole : NoDot (String.◌∷◌ c a') = rw f (split_key-NoDot s a' b' e) in
        subst NoDot (ap first_of (rw (f, e) at h)) whole
  ]
]

module _ (verify_scrypt : String → String → String → Bool) where
  -- A supplied key opens a credential: it is the plaintext key, or the credential's id, a full stop
  -- and a secret that the scrypt check accepts.
  abbrev pub Opens : String → Credential → Type 0
  Opens supplied r =
      (r.secret ≡ legacy supplied)
      ⊎ ((id : String) × (secret : String) × (salt : String) × (hash : String) × (split_key supplied
            ≡ some (id, secret))
          × (r.key_id ≡ id)
          × (r.secret ≡ scrypt salt hash)
          × (verify_scrypt hash salt secret ≡ true))

  matches_legacy-eq-true :
      (supplied : String) (r : Credential)
      → matches_legacy verify_scrypt supplied r ≡ true
      → r.secret ≡ legacy supplied
  unfolding matches_legacy
  matches_legacy-eq-true supplied r h = by_form r.secret h
    where
      by_form :
          (x : Secret)
          → elim x [ legacy key ↦ str_eq key supplied | scrypt _ _ ↦ false ] ≡ true
          → x ≡ legacy supplied
      by_form (legacy key) h = ap (λ k. legacy k) ((eq_iff key supplied).0 h)
      by_form (scrypt salt hash) h = cc

  verifies-eq-true :
      (secret : String) (r : Credential)
      → verifies verify_scrypt secret r ≡ true
      → (salt : String) × (hash : String) × (r.secret ≡ scrypt salt hash)
        × (verify_scrypt hash salt secret ≡ true)
  unfolding verifies
  verifies-eq-true secret r h = by_form r.secret h
    where
      by_form :
          (x : Secret)
          → elim x [ legacy _ ↦ false | scrypt salt hash ↦ verify_scrypt hash salt secret ] ≡ true
          → (salt : String) × (hash : String) × (x ≡ scrypt salt hash)
            × (verify_scrypt hash salt secret ≡ true)
      by_form (legacy key) h = cc
      by_form (scrypt salt hash) h = (salt, hash, refl, h)

  matches_scrypt-eq-true :
      (id secret : String) (r : Credential)
      → matches_scrypt verify_scrypt id secret r ≡ true
      → r.key_id ≡ id
  unfolding matches_scrypt
  matches_scrypt-eq-true id secret r h = by_form r.secret h
    where
      by_form :
          (x : Secret)
          → elim x [ legacy _ ↦ false | scrypt _ _ ↦ str_eq r.key_id id ] ≡ true
          → r.key_id ≡ id
      by_form (legacy key) h = cc
      by_form (scrypt salt hash) h = (eq_iff r.key_id id).0 h

  resolve_scrypt-Opens :
      (records : List Credential) (supplied : String) (r : Credential)
      → resolve_scrypt verify_scrypt records supplied ≡ some r
      → (k : ℕ) × (get_elem? records k ≡ some r) × NoDot r.key_id × Opens supplied r
  unfolding resolve_scrypt
  resolve_scrypt-Opens records supplied r h = elim (Option-cases (split_key supplied)) [
    | inl n ↦ absurd (cc (rw (n, resolve_scrypt) at h))
    | inr ((id, secret), e) ↦ elim (Bool-cases (leb 2 (utf16_length id))) [
      | inr f ↦ absurd (cc (rw (e, f, resolve_scrypt) at h))
      | inl t ↦ elim (Option-cases (find (matches_scrypt verify_scrypt id secret) records)) [
        | inl n ↦ absurd (cc (rw (e, t, n, resolve_scrypt) at h))
        | inr (x, found) ↦ elim (Bool-cases (verifies verify_scrypt secret x)) [
          | inr f ↦ absurd (cc (rw (e, t, found, f, resolve_scrypt) at h))
          | inl v ↦
              let same : ◌≡◌ {A = Option Credential} (some x) (some r) =
                rw (e, t, found, v, resolve_scrypt) at h in
              let (k, at, m) = find-place _ records x found in
              let (salt, hash, is, good) = verifies-eq-true secret x v in
              let named = matches_scrypt-eq-true id secret x m in
              subst
                (λ (o : Option Credential). elim o [
                  | none ↦ Unit
                  | some y ↦
                      (k : ℕ) × (get_elem? records k ≡ some y) × NoDot y.key_id × Opens supplied y
                ])
                same
                (
                  k,
                  at,
                  subst NoDot (sym named) (split_key-NoDot supplied id secret e),
                  inr (id, secret, salt, hash, e, named, is, good),
                )
        ]
      ]
    ]
  ]

  resolve_credential-Opens :
      (records : List Credential) (supplied : String) (r : Credential)
      → resolve_credential verify_scrypt records supplied ≡ some r
      → (k : ℕ) × (get_elem? records k ≡ some r) × Opens supplied r
  unfolding resolve_credential
  resolve_credential-Opens records supplied r h =
      elim (Option-cases (resolve_scrypt verify_scrypt records supplied)) [
        | inr (x, e) ↦
            let same : ◌≡◌ {A = Option Credential} (some x) (some r) =
              rw (e, resolve_credential) at h in
            let (k, at, _, opens) = resolve_scrypt-Opens records supplied r (e ∙ same) in
            (k, at, opens)
        | inl n ↦
            let (k, at, m) =
              find-place (matches_legacy verify_scrypt supplied) records r
                (rw (n, resolve_credential) at h) in
            (k, at, inl (matches_legacy-eq-true supplied r m))
      ]

  -- A credential with a full stop in its key id is never the scrypt credential that a key names,
  -- whatever is supplied: the key is split at its first full stop.
  pub resolve_scrypt-NoDot :
      (records : List Credential) (supplied : String) (r : Credential)
      → resolve_scrypt verify_scrypt records supplied ≡ some r
      → NoDot r.key_id
  resolve_scrypt-NoDot records supplied r h =
      let (_, _, clear, _) = resolve_scrypt-Opens records supplied r h in clear

  -- The credential of the list that stands behind an authenticated principal.
  pub record Authentic (days : ℕ) (records : List Credential) (now : ℕ) (key tenant : String)
      (p : Principal) : Type 0 where
    pub place : ℕ
    pub credential : Credential
    pub configured : get_elem? records place ≡ some credential
    pub opened : Opens (trim_text key) credential
    pub in_use : is_revoked credential.status ≡ false
    pub begun : is_early credential now ≡ false
    pub not_over : is_over credential now ≡ false
    pub own_tenant :
        (str_eq (trim_text tenant) "" || str_eq (trim_text tenant) credential.tenant_id) ≡ true
    pub subject : p.subject ≡ credential.subject
    pub tenant_id : p.tenant_id ≡ credential.tenant_id
    pub permissions : permissions_for_role credential.role ≡ some p.permissions

  some_or-eq-ok :
      {A : Type 0} (o : Option A) (thrown : AuthError) (a : A)
      → elim o [ none ↦ err thrown | some x ↦ ok x ] ≡ ok a
      → o ≡ some a
  some_or-eq-ok none thrown a h = cc
  some_or-eq-ok (some x) thrown a h = ap (λ y. some y) (ok-injective {E = AuthError} x a h)

  -- A principal that `authenticate` returns is that of a configured credential which the supplied key
  -- opens, which is not revoked and within its dates at the time, whose tenant is the requested one
  -- where one is requested, and whose role's permissions are the principal's.
  pub authenticate-Authentic :
      (days : ℕ) (records : List Credential) (now : ℕ) (key tenant : String) (p : Principal)
      → authenticate verify_scrypt days records now key tenant ≡ ok p
      → Authentic days records now key tenant p
  unfolding authenticate
  authenticate-Authentic days records now key tenant p h =
      let (_, h1) = guard-eq-ok (not (str_eq (trim_text key) "")) _ _ h in
      let (r, found, h2) = >>=-eq-ok _ _ h1 in
      let (used, h3) = guard-eq-ok (not (is_revoked r.status)) _ _ h2 in
      let (begun, h4) = guard-eq-ok (not (is_early r now)) _ _ h3 in
      let (lasting, h5) = guard-eq-ok (not (is_over r now)) _ _ h4 in
      let (own, h6) = guard-eq-ok _ _ _ h5 in
      let (ps, role, h7) = >>=-eq-ok _ _ h6 in
      let same = ok-injective _ p h7 in
      let (k, at, opens) =
        resolve_credential-Opens records (trim_text key) r (some_or-eq-ok _ invalid_key r found) in
      record {
        place = k;
        credential = r;
        configured = at;
        opened = opens;
        in_use = not-eq-true _ used;
        begun = not-eq-true _ begun;
        not_over = not-eq-true _ lasting;
        own_tenant = own;
        subject = sym (ap (λ (x : Principal). x.subject) same);
        tenant_id = sym (ap (λ (x : Principal). x.tenant_id) same);
        permissions =
            some_or-eq-ok _ unsupported_role ps role
            ∙ ap (λ (x : Principal). some x.permissions) same;
      }

-- A credential that can authenticate now.
abbrev pub is_usable : ℕ → Credential → Bool
is_usable now r = not (is_early r now) && not (is_over r now) && not (is_revoked r.status)

status_once :
    (s : CredentialStatus)
    → one_if (is_active s) + one_if (is_retiring s) + one_if (is_revoked s) ≡ 1
status_once active = omega arith
status_once retiring = omega arith
status_once revoked = omega arith

length-filter-cons :
    {A : Type 0} (q : A → Bool) (x : A) (xs : List A)
    → length (filter q (x ∷ xs)) ≡ one_if (q x) + length (filter q xs)
length-filter-cons q x xs = ground arith

count_all_lem :
    (days now : ℕ) (h : Health) (rs : List Credential)
    → ((count_all days now h rs).usable ≡ h.usable + length (filter (is_usable now) rs))
      × ((count_all days now h rs).actives
            + (count_all days now h rs).retirings
            + (count_all days now h rs).revocations
          ≡ h.actives + h.retirings + h.revocations + length rs)
unfolding count_all count_credential
count_all_lem days now h [] = (omega arith, omega arith)
count_all_lem days now h (r ∷ rs) =
    let (u, t) = count_all_lem days now (count_credential days now h r) rs in
    (
      omega (arith, u, length-filter-cons (is_usable now) r rs),
      omega (arith, t, status_once r.status),
    )

-- The health that is reported counts as usable exactly the credentials that are not revoked and
-- within their dates, and its three status counts add up to the number of credentials.
pub credential_health-usable :
    (days now : ℕ) (records : List Credential)
    → ((credential_health days now records).usable ≡ length (filter (is_usable now) records))
      × ((credential_health days now records).actives
            + (credential_health days now records).retirings
            + (credential_health days now records).revocations
          ≡ length records)
unfolding credential_health
credential_health-usable days now records =
    let (u, t) = count_all_lem days now no_health records in (omega (arith, u), omega (arith, t))
