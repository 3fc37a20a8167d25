-- ===== src/PrivilegedAccess/Authority.antt =====
-- security/privilegedAccessRegistry.js, `authorise`: what a permission that it grants stands on.
use basitclaw.Common.{
  ℕ, suc, ◌<◌, ◌≡◌, ◌≢◌, refl, String, Bool, true, false, ◌&&◌, some, List, [], ◌∷◌, map, arith,
  eq_iff, if◌then◌else◌, find, get_elem?, Bool-cases, Option-cases, ◌⊎◌, inl, inr, Result, ok, err,
  >>=-eq-ok, ok-injective, sym, ap, ◌∙◌,
}
use basitclaw.Common.Text.{contains}
use basitclaw.PrivilegedAccess.{
  Config, Mode, observe, enforce, Principal, Item, active, Snapshot, Error,
}
use basitclaw.PrivilegedAccess.Checks.{eligible}
use basitclaw.PrivilegedAccess.Outcomes.{same_status-eq}
use basitclaw.PrivilegedAccess.Store.{effective_status, effective, reached}
use basitclaw.PrivilegedAccess.Queries.{
  Authorisation, unprotected, granted, observed, covers, find_grant, authorise, is_access_error,
  is_observe,
}

pub effective-active : (i : Item) (now : ℕ) → effective_status i now ≡ active → i.status ≡ active
unfolding effective_status
effective-active i now h = ground arith

-- An active grant is not past its end.
pub effective-in_time :
    (i : Item) (now : ℕ)
    → effective_status i now ≡ active
    → (t : ℕ) → i.expires_at ≡ some t
    → now < t
unfolding effective_status reached
effective-in_time i now h t e = ground arith

-- The place and the item of the list that a search found.
find-map :
    {A B : Type 0} (q : B → Bool) (f : A → B) (xs : List A) (y : B)
    → find q (map f xs) ≡ some y
    → (k : ℕ) × (x : A) × (get_elem? xs k ≡ some x) × (y ≡ f x) × (q (f x) ≡ true)
find-map q f [] y h = cc
find-map q f (x ∷ xs) y h = elim (Bool-cases (q (f x))) [
  | inl t ↦ (0, x, refl, ground arith, t)
  | inr n ↦
      let (k, z, at, y_is, holds) = find-map q f xs y (rw n at h) in (suc k, z, at, y_is, holds)
]

find_grant-eq-ok :
    (c : Config) (items : List Item) (now : ℕ) (p : Principal) (permission : String)
    (a : Authorisation)
    → find_grant c items now p permission ≡ ok a
    → (g : Item) × (a ≡ granted g)
      × (eligible c p false ≡ ok tt)
      × (find (covers p permission) (map (λ i. effective i now) items) ≡ some g)
unfolding find_grant
find_grant-eq-ok c items now p permission a h =
    let (u, good, h1) = >>=-eq-ok (eligible c p false) _ h in
    elim (Option-cases (find (covers p permission) (map (λ i. effective i now) items))) [
      | inl n ↦ absurd (cc (rw n at h1))
      | inr (g, found) ↦ (g, sym (ok-injective _ _ (rw found at h1)), good, found)
    ]

-- What stands behind a grant: an item of the store, in force now, of this subject and tenant, with
-- the permission among its own.
pub record Backed (s : Snapshot) (now : ℕ) (p : Principal) (permission : String) (g : Item)
    : Type 0 where
  pub place : ℕ
  pub item : Item
  pub stored : get_elem? s.requests place ≡ some item
  pub is_view : g ≡ effective item now
  pub in_force : effective_status item now ≡ active
  pub same_subject : item.subject ≡ p.subject
  pub same_tenant : item.tenant_id ≡ p.tenant_id
  pub permits : contains permission item.permissions ≡ true

-- In observe mode a refusal is passed on as an observation.
passed_on : Mode → Result Error Authorisation → Result Error Authorisation
passed_on m r = elim r [
  | ok g ↦ ok g
  | err e ↦ if is_observe m && is_access_error e then ok (observed e) else err e
]

passed_on-eq-ok :
    (m : Mode) (r : Result Error Authorisation) (a : Authorisation)
    → passed_on m r ≡ ok a
    → (r ≡ ok a)
      ⊎ ((e : Error) × (a ≡ observed e) × (m ≡ observe) × (r ≡ err e) × (is_access_error e ≡ true))
unfolding passed_on
passed_on-eq-ok m (ok g) a h = inl h
passed_on-eq-ok enforce (err e) a h = cc
passed_on-eq-ok observe (err e) a h = elim (Bool-cases (is_access_error e)) [
  | inl t ↦ inr (e, sym (ok-injective _ _ (rw t at h)), refl, refl, t)
  | inr f ↦ absurd (cc (rw f at h))
]

authorise_lem :
    (c : Config) (s : Snapshot) (now : ℕ) (p : Principal) (permission : String)
    → contains permission c.protected_permissions ≡ true
    → authorise c s now p permission ≡ passed_on c.mode (find_grant c s.requests now p permission)
unfolding authorise passed_on
authorise_lem c s now p permission h = rw h refl

grant_of : Item → Authorisation → Item
grant_of d (granted g) = g
grant_of d _ = d

granted-injective : (g h : Item) → granted g ≡ granted h → g ≡ h
unfolding grant_of
granted-injective g h e = ap (grant_of g) e

unprotected-ne-granted : (g : Item) → unprotected ≢ granted g
unprotected-ne-granted g e = cc e

observed-ne-granted : (e : Error) (g : Item) → observed e ≢ granted g
observed-ne-granted e g h = cc h

enforce-ne-observe : enforce ≢ observe
enforce-ne-observe e = cc e

covers-eq-true :
    (p : Principal) (permission : String) (i : Item) (now : ℕ)
    → covers p permission (effective i now) ≡ true
    → (effective_status i now ≡ active)
      × (i.subject ≡ p.subject)
      × (i.tenant_id ≡ p.tenant_id)
      × (contains permission i.permissions ≡ true)
unfolding covers effective
covers-eq-true p permission i now h = (
  same_status-eq (effective_status i now) active (ground arith),
  ground (arith, eq_iff i.subject p.subject),
  ground (arith, eq_iff i.tenant_id p.tenant_id),
  ground arith,
)

find_grant-Backed :
    (c : Config) (s : Snapshot) (now : ℕ) (p : Principal) (permission : String) (g : Item)
    → find_grant c s.requests now p permission ≡ ok (granted g)
    → Backed s now p permission g × (eligible c p false ≡ ok tt)
unfolding covers effective
find_grant-Backed c s now p permission g h =
    let (g', same, good, found) = find_grant-eq-ok c s.requests now p permission (granted g) h in
    let (k, i, at, g_is, holds) =
      find-map (covers p permission) (λ i. effective i now) s.requests g' found in
    let (in_force, subject, tenant, permits) = covers-eq-true p permission i now holds in
    (
      record {
        place = k;
        item = i;
        stored = at;
        is_view = granted-injective g g' same ∙ g_is;
        in_force = in_force;
        same_subject = subject;
        same_tenant = tenant;
        permits = permits;
      },
      good,
    )

-- A protected permission that `authorise` grants stands on an item of the store that is active and
-- not past its end, of the principal's subject and tenant, with the permission among its own; the
-- principal was eligible.
pub authorise-Backed :
    (c : Config) (s : Snapshot) (now : ℕ) (p : Principal) (permission : String) (g : Item)
    → authorise c s now p permission ≡ ok (granted g)
    → Backed s now p permission g
      × (eligible c p false ≡ ok tt)
      × ((t : ℕ) → g.expires_at ≡ some t → now < t)
unfolding authorise effective
authorise-Backed c s now p permission g h =
    elim (Bool-cases (contains permission c.protected_permissions)) [
      | inr n ↦ absurd (unprotected-ne-granted g (ok-injective _ _ (rw n at h)))
      | inl y ↦
          elim (passed_on-eq-ok c.mode _ (granted g)
            (sym (authorise_lem c s now p permission y) ∙ h)) [
              | inl found ↦
                  let (b, good) = find_grant-Backed c s now p permission g found in
                  (
                    b,
                    good,
                    λ t e.
                        effective-in_time b.item now b.in_force t
                          (sym (ap (λ (i : Item). i.expires_at) b.is_view) ∙ e),
                  )
              | inr (e, other, _, _, _) ↦ absurd (observed-ne-granted e g (sym other))
            ]
    ]

-- In enforce mode, what `authorise` returns without an error for a protected permission is a grant
-- that stands on an item of the store that is active and not past its end, of the principal's subject
-- and tenant, with the permission among its own.
pub authorise-enforce :
    (c : Config) (s : Snapshot) (now : ℕ) (p : Principal) (permission : String) (a : Authorisation)
    → c.mode ≡ enforce
    → contains permission c.protected_permissions ≡ true
    → authorise c s now p permission ≡ ok a
    → (g : Item) × (a ≡ granted g) × Backed s now p permission g
authorise-enforce c s now p permission a mode protected h =
    elim (passed_on-eq-ok c.mode _ a (sym (authorise_lem c s now p permission protected) ∙ h)) [
      | inl found ↦
          let (g, a_is, _, _) = find_grant-eq-ok c s.requests now p permission a found in
          (g, a_is, (find_grant-Backed c s now p permission g (found ∙ ap (λ x. ok x) a_is)).0)
      | inr (e, _, watching, _, _) ↦ absurd (enforce-ne-observe (sym mode ∙ watching))
    ]
