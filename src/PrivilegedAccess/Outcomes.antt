-- ===== src/PrivilegedAccess/Outcomes.antt =====
-- security/privilegedAccessRegistry.js: what a decision that succeeded found, checked and stored.
use basitclaw.Common.{
  ℕ, ◌+◌, ◌≡◌, ◌≢◌, refl, String, Bool, true, false, ◌&&◌, not, Option, none, some, List, [], ◌∷◌,
  arith, str_eq, eq_iff, if◌then◌else◌, any, All, ok, >>=-eq-ok, guard-eq-ok, ap, sym, ◌∙◌, ok-pair,
  not-eq-true, and-left, and-right,
}
use basitclaw.Common.Text.{trim_text}
use basitclaw.PrivilegedAccess.{
  Config, Principal, Item, Approval, Denial, Review, Status, pending, active, denied, cancelled,
  revoked, Snapshot, Trail, Unsigned, Action, Detail, approved, activated,
}
use basitclaw.PrivilegedAccess.Checks.{
  request, check_version, check_tenant, find_item, subject_of, role_of, actor_of,
}
use basitclaw.PrivilegedAccess.Events.{event}
use basitclaw.PrivilegedAccess.Store.{effective_status, same_status, is_open, set_item}
use basitclaw.PrivilegedAccess.Decisions.{
  add_approval, approved_item, close_item, add_decision, deny_pending, cancel_open, revoke_active,
  add_review,
}
use basitclaw.PrivilegedAccess.Invariants.{find_item-of-request, subject_of-eq-ok}

abbrev pub IsNew : String → List Approval → Type 0
IsNew s = All (λ a. a.subject ≢ s)

IsNew-of-any :
    (s : String) (as' : List Approval) → any (λ v. str_eq v.subject s) as' ≡ false → IsNew s as'
IsNew-of-any s [] h = tt
IsNew-of-any s (a ∷ as') h =
    (λ e. let same = (eq_iff a.subject s).1 e in ground arith, IsNew-of-any s as' (ground arith))

pub same_status-eq : (s t : Status) → same_status s t ≡ true → s ≡ t
same_status-eq s t h = ground arith

differs : (a b : String) → not (str_eq a b) ≡ true → a ≢ b
differs a b h e = let same = (eq_iff a b).1 e in ground arith

check_version-eq-ok :
    (i : Item) (expected : Option ℕ) (u : Unit {0})
    → check_version i expected ≡ ok u
    → expected ≡ some i.version
unfolding check_version
check_version-eq-ok i none u h = cc
check_version-eq-ok i (some v) u h = ground arith

check_tenant-eq-ok :
    (i : Item) (p : Principal) (u : Unit {0}) → check_tenant i p ≡ ok u → i.tenant_id ≡ p.tenant_id
unfolding check_tenant
check_tenant-eq-ok i p u h = ground (arith, eq_iff i.tenant_id p.tenant_id)

-- One event more, or several.
pub data Extends (digest : Unsigned → String) (event_id : ℕ → String) (t : Trail)
    : Trail → Type 0 where
  one :
      {t' : Trail} (now : ℕ) (action : Action) (actor : String) (i : Item)
      (d : List (String × Detail))
      → t' ≡ event digest event_id t now action actor i d
      → Extends digest event_id t t'
  more :
      {m t' : Trail} (now : ℕ) (action : Action) (actor : String) (i : Item)
      (d : List (String × Detail))
      → Extends digest event_id t m
      → t' ≡ event digest event_id m now action actor i d
      → Extends digest event_id t t'

module _ (digest : Unsigned → String) (event_id : ℕ → String) where
  -- The request that was found under the id, at the version that the caller named, what holds of it,
  -- and that the new item stands in its place, with at least one event more.
  pub record Outcome (s s' : Snapshot) (k : Item) (id : String) (expected : Option ℕ)
      (Means : Item → Type 0) : Type 0 where
    pub item : Item
    pub found : find_item id s.requests ≡ some item
    pub precondition : expected ≡ some item.version
    pub means : Means item
    pub stored : s'.requests ≡ set_item k s.requests
    pub extended : Extends digest event_id s.trail s'.trail

  module _ (c : Config) (id : String) (expected : Option ℕ) (p : Principal) (actor : Option String)
      (now : ℕ) (s s' : Snapshot) (k : Item) where
    abbrev pub Approves : Item → Type 0
    Approves i =
        (effective_status i now ≡ pending)
        × (i.tenant_id ≡ p.tenant_id)
        × (i.subject ≢ p.subject)
        × IsNew p.subject i.approvals
        × (a : Approval) × (a.subject ≡ trim_text p.subject)
        × (k ≡ approved_item now a i)

    approval_trail :
        (t : Trail) (a : String) (i j : Item) (d f : List (String × Detail)) (b : Bool) (t' : Trail)
        → t' ≡ (
            if b
            then event digest event_id
                (event digest event_id t now approved a i d)
                now
                activated
                "system:privileged-access"
                j
                f
            else event digest event_id t now approved a i d)
        → Extends digest event_id t t'
    approval_trail t a i j d f true t' e =
        more now activated "system:privileged-access" j f (one now approved a i d refl) e
    approval_trail t a i j d f false t' e = one now approved a i d e

    pub add_decision-Outcome :
        (comment : String)
        → add_decision digest event_id c id expected p comment actor now s ≡ ok (s', k)
        → Outcome s s' k id expected Approves
    unfolding add_decision
    add_decision-Outcome comment e =
        let (item, found, e1) = >>=-eq-ok (request s.requests id) _ e in
        let (u, version, e2) = >>=-eq-ok (check_version item expected) _ e1 in
        let (v, tenant, e3) = >>=-eq-ok (check_tenant item p) _ e2 in
        let (waits, e4) = guard-eq-ok (same_status (effective_status item now) pending) _ _ e3 in
        let (other, e5) = guard-eq-ok (not (str_eq item.subject p.subject)) _ _ e4 in
        let (new, e6) =
          guard-eq-ok (not (any (λ w. str_eq w.subject p.subject) item.approvals)) _ _ e5 in
        let (subject, checked, e7) = >>=-eq-ok (subject_of p.subject) _ e6 in
        let (role, _, e8) = >>=-eq-ok (role_of p.role) _ e7 in
        let (a, _, e9) = >>=-eq-ok (actor_of actor p) _ e8 in
        let (s_is, k_is) = ok-pair _ s' k e9 in
        let approval : Approval = record {
          subject = subject;
          role = role;
          approved_at = now;
          comment = comment;
        } in
        record {
          item = item;
          found = find_item-of-request s.requests id item found;
          precondition = check_version-eq-ok item expected u version;
          means = (
            same_status-eq _ _ waits,
            check_tenant-eq-ok item p v tenant,
            differs _ _ other,
            IsNew-of-any p.subject item.approvals (not-eq-true _ new),
            approval,
            subject_of-eq-ok p.subject subject checked,
            k_is,
          );
          stored =
              ap (λ (x : Snapshot). x.requests) s_is ∙ ap (λ j. set_item j s.requests) (sym k_is);
          extended =
              approval_trail s.trail a (add_approval approval item)
                (approved_item now approval item) _ _ _ s'.trail
                (ap (λ (x : Snapshot). x.trail) s_is);
        }

    abbrev pub Denies : Item → Type 0
    Denies i =
        (effective_status i now ≡ pending)
        × (i.tenant_id ≡ p.tenant_id)
        × (i.subject ≢ p.subject)
        × (d : Denial) × (let j = close_item denied now i in k ≡ record j { denial = some d })

    pub deny_pending-Outcome :
        (reason : String)
        → deny_pending digest event_id c id expected p reason actor now s ≡ ok (s', k)
        → Outcome s s' k id expected Denies
    unfolding deny_pending
    deny_pending-Outcome reason e =
        let (item, found, e1) = >>=-eq-ok (request s.requests id) _ e in
        let (u, version, e2) = >>=-eq-ok (check_version item expected) _ e1 in
        let (v, tenant, e3) = >>=-eq-ok (check_tenant item p) _ e2 in
        let (waits, e4) = guard-eq-ok (same_status (effective_status item now) pending) _ _ e3 in
        let (other, e5) = guard-eq-ok (not (str_eq item.subject p.subject)) _ _ e4 in
        let (subject, _, e6) = >>=-eq-ok (subject_of p.subject) _ e5 in
        let (a, _, e7) = >>=-eq-ok (actor_of actor p) _ e6 in
        let (s_is, k_is) = ok-pair _ s' k e7 in
        let d : Denial = record { subject = subject; denied_at = now; reason = reason } in
        record {
          item = item;
          found = find_item-of-request s.requests id item found;
          precondition = check_version-eq-ok item expected u version;
          means = (
            same_status-eq _ _ waits,
            check_tenant-eq-ok item p v tenant,
            differs _ _ other,
            d,
            k_is,
          );
          stored =
              ap (λ (x : Snapshot). x.requests) s_is ∙ ap (λ j. set_item j s.requests) (sym k_is);
          extended = one now _ a _ _ (ap (λ (x : Snapshot). x.trail) s_is);
        }

    abbrev pub Cancels : Item → Type 0
    Cancels i =
        (i.subject ≡ p.subject)
        × (i.tenant_id ≡ p.tenant_id)
        × (is_open (effective_status i now) ≡ true)
        × (k
            ≡ close_item
                (if same_status (effective_status i now) active then revoked else cancelled) now i)

    pub cancel_open-Outcome :
        (reason : String)
        → cancel_open digest event_id c id expected p reason actor now s ≡ ok (s', k)
        → Outcome s s' k id expected Cancels
    unfolding cancel_open
    cancel_open-Outcome reason e =
        let (item, found, e1) = >>=-eq-ok (request s.requests id) _ e in
        let (u, version, e2) = >>=-eq-ok (check_version item expected) _ e1 in
        let (mine, e3) =
          guard-eq-ok (str_eq item.subject p.subject && str_eq item.tenant_id p.tenant_id) _ _ e2 in
        let (opened, e4) = guard-eq-ok (is_open (effective_status item now)) _ _ e3 in
        let (a, _, e5) = >>=-eq-ok (actor_of actor p) _ e4 in
        let (s_is, k_is) = ok-pair _ s' k e5 in
        record {
          item = item;
          found = find_item-of-request s.requests id item found;
          precondition = check_version-eq-ok item expected u version;
          means = (
            (eq_iff item.subject p.subject).0 (and-left _ _ mine),
            (eq_iff item.tenant_id p.tenant_id).0 (and-right _ _ mine),
            opened,
            k_is,
          );
          stored =
              ap (λ (x : Snapshot). x.requests) s_is ∙ ap (λ j. set_item j s.requests) (sym k_is);
          extended = one now _ a _ _ (ap (λ (x : Snapshot). x.trail) s_is);
        }

    abbrev pub Revokes : Item → Type 0
    Revokes i =
        (effective_status i now ≡ active)
        × (i.tenant_id ≡ p.tenant_id)
        × (k ≡ close_item revoked now i)

    pub revoke_active-Outcome :
        (reason : String)
        → revoke_active digest event_id c id expected p reason actor now s ≡ ok (s', k)
        → Outcome s s' k id expected Revokes
    unfolding revoke_active
    revoke_active-Outcome reason e =
        let (item, found, e1) = >>=-eq-ok (request s.requests id) _ e in
        let (u, version, e2) = >>=-eq-ok (check_version item expected) _ e1 in
        let (v, tenant, e3) = >>=-eq-ok (check_tenant item p) _ e2 in
        let (waits, e4) = guard-eq-ok (same_status (effective_status item now) active) _ _ e3 in
        let (a, _, e5) = >>=-eq-ok (actor_of actor p) _ e4 in
        let (s_is, k_is) = ok-pair _ s' k e5 in
        record {
          item = item;
          found = find_item-of-request s.requests id item found;
          precondition = check_version-eq-ok item expected u version;
          means = (same_status-eq _ _ waits, check_tenant-eq-ok item p v tenant, k_is);
          stored =
              ap (λ (x : Snapshot). x.requests) s_is ∙ ap (λ j. set_item j s.requests) (sym k_is);
          extended = one now _ a _ _ (ap (λ (x : Snapshot). x.trail) s_is);
        }

    abbrev pub Reviews : Item → Type 0
    Reviews i =
        (i.break_glass ≡ true)
        × (i.tenant_id ≡ p.tenant_id)
        × (i.subject ≢ p.subject)
        × (r : Review) × (k ≡ record i { post_review = some r; version = i.version + 1 })

    pub add_review-Outcome :
        (outcome reason : String)
        → add_review digest event_id c id expected p outcome reason actor now s ≡ ok (s', k)
        → Outcome s s' k id expected Reviews
    unfolding add_review
    add_review-Outcome outcome reason e =
        let (item, found, e1) = >>=-eq-ok (request s.requests id) _ e in
        let (u, version, e2) = >>=-eq-ok (check_version item expected) _ e1 in
        let (v, tenant, e3) = >>=-eq-ok (check_tenant item p) _ e2 in
        let (glass, e4) = guard-eq-ok item.break_glass _ _ e3 in
        let (other, e5) = guard-eq-ok (not (str_eq item.subject p.subject)) _ _ e4 in
        let (_, e6) = guard-eq-ok _ _ _ e5 in
        let (reviewer, _, e7) = >>=-eq-ok (subject_of p.subject) _ e6 in
        let (a, _, e8) = >>=-eq-ok (actor_of actor p) _ e7 in
        let (s_is, k_is) = ok-pair _ s' k e8 in
        let r : Review = record {
          reviewer = reviewer;
          reviewed_at = now;
          outcome = outcome;
          reason = reason;
        } in
        record {
          item = item;
          found = find_item-of-request s.requests id item found;
          precondition = check_version-eq-ok item expected u version;
          means = (glass, check_tenant-eq-ok item p v tenant, differs _ _ other, r, k_is);
          stored =
              ap (λ (x : Snapshot). x.requests) s_is ∙ ap (λ j. set_item j s.requests) (sym k_is);
          extended = one now _ a _ _ (ap (λ (x : Snapshot). x.trail) s_is);
        }
