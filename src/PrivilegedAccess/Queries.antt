-- ===== src/PrivilegedAccess/Queries.antt =====
-- security/privilegedAccessRegistry.js, `authorise`, `get`, `list`, `listEvents`, `status` and
-- `tenantIds`: what the registry answers without a change.
use mathlib.Core.List.{reverse}
use basitclaw.Common.{
  ℕ, String, Bool, true, false, ◌&&◌, not, Option, none, some, List, [], ◌∷◌, map, leb,
  if◌then◌else◌, str_eq, length, take, take_last, filter, find, Result, ok, err, ◌>>=◌, ◌>>◌,
}
use basitclaw.Common.Text.{contains, distinct_texts}
use basitclaw.PrivilegedAccess.{
  Config, Mode, observe, enforce, Principal, Item, Status, pending, active, Snapshot, Event, Error,
  grant_required, Unsigned, wrong_state, overlapping_request, already_approved, already_reviewed,
  version_conflict, bad_input, store_unavailable,
}
use basitclaw.PrivilegedAccess.Checks.{eligible, request, subject_of, identifier, integer}
use basitclaw.PrivilegedAccess.Events.{verify_events}
use basitclaw.PrivilegedAccess.Store.{effective, same_status, reached}

-- What `authorise` returns with the principal.
pub data Authorisation : Type 0 where
  -- the permission is not protected
  unprotected : Authorisation
  -- by this grant
  granted : Item → Authorisation
  -- observe mode: refused for this reason, and let pass
  observed : Error → Authorisation

unfoldable pub covers : Principal → String → Item → Bool
covers p permission i =
    same_status i.status active
    && str_eq i.subject p.subject
    && str_eq i.tenant_id p.tenant_id
    && contains permission i.permissions

unfoldable pub find_grant : Config → List Item → ℕ → Principal → String → Result Error Authorisation
find_grant c items now p permission = do
  eligible c p false
  elim (find (covers p permission) (map (λ i. effective i now) items)) [
    | none ↦ err grant_required
    | some g ↦ ok (granted g)
  ]

-- error instanceof PrivilegedAccessError
abbrev pub is_access_error : Error → Bool
is_access_error overlapping_request = false
is_access_error already_approved = false
is_access_error already_reviewed = false
is_access_error version_conflict = false
is_access_error (wrong_state s) = false
is_access_error (bad_input f) = false
is_access_error store_unavailable = false
is_access_error _ = true

abbrev pub is_observe : Mode → Bool
is_observe observe = true
is_observe enforce = false

unfoldable pub authorise : Config → Snapshot → ℕ → Principal → String → Result Error Authorisation
authorise c s now p permission =
    if not (contains permission c.protected_permissions)
    then ok unprotected
    else elim (find_grant c s.requests now p permission) [
      | ok g ↦ ok g
      | err e ↦ if is_observe c.mode && is_access_error e then ok (observed e) else err e
    ]

unfoldable pub get_item : Snapshot → ℕ → String → Result Error Item
get_item s now id = do item ← request s.requests id; ok (effective item now)

-- A stable sort, the newest request first.
insert_newest : Item → List Item → List Item
insert_newest i [] = i ∷ []
insert_newest i (j ∷ is) =
    if leb j.requested_at i.requested_at then i ∷ j ∷ is else j ∷ insert_newest i is

unfoldable pub sort_newest : List Item → List Item
unfolding insert_newest
sort_newest [] = []
sort_newest (i ∷ is) = insert_newest i (sort_newest is)

-- A text filter is off when it is missing or empty. Its value is checked at the first item that it
-- meets, so a bad one passes when there is none.
abbrev keep_matching :
    Option String
    → (String → Result Error String)
    → (Item → String)
    → List Item
    → Result Error (List Item)
keep_matching none check field items = ok items
keep_matching (some v) check field [] = ok []
keep_matching (some v) check field (i ∷ is) =
    if str_eq v ""
    then ok (i ∷ is)
    else (check v >>= λ w. ok (filter (λ j. str_eq (field j) w) (i ∷ is)))

abbrev keep_status : Option Status → List Item → List Item
keep_status none items = items
keep_status (some st) items = filter (λ i. same_status i.status st) items

unfoldable pub list_items :
    Option String → Option String → Option Status → ℕ → Snapshot → ℕ → Result Error (List Item)
unfolding sort_newest
list_items tenant subject wanted limit s now = do
  n ← integer limit "limit" 1 500
  let items = map (λ i. effective i now) s.requests
  by_tenant ← keep_matching tenant (λ t. identifier t "tenantId") (λ i. i.tenant_id) items
  by_subject ← keep_matching subject subject_of (λ i. i.subject) by_tenant
  ok (take n (sort_newest (keep_status wanted by_subject)))

unfoldable pub list_events : ℕ → Snapshot → Result Error (List Event)
list_events limit s = do n ← integer limit "limit" 1 1000; ok (reverse (take_last n s.trail.events))

pub record Summary : Type 0 where
  pub attention : Bool
  pub active_count : ℕ
  pub pending_count : ℕ
  pub break_glass_active : ℕ
  pub overdue_post_reviews : ℕ
  pub total : ℕ
  pub intact : Bool

unfoldable pub is_overdue : ℕ → Item → Bool
unfolding reached
is_overdue now i =
    i.break_glass
    && reached i.post_review_by now
    && elim i.post_review [ none ↦ true | some _ ↦ false ]

unfoldable pub status : (Unsigned → String) → Snapshot → ℕ → Summary
unfolding is_overdue
status digest s now =
    let items = map (λ i. effective i now) s.requests in
    let actives = filter (λ i. same_status i.status active) items in
    let overdue = filter (is_overdue now) items in
    record {
      attention = not (leb (length overdue) 0);
      active_count = length actives;
      pending_count = length (filter (λ i. same_status i.status pending) items);
      break_glass_active = length (filter (λ i. i.break_glass) actives);
      overdue_post_reviews = length overdue;
      total = length items;
      intact = verify_events digest s.trail;
    }

unfoldable pub tenant_ids : Snapshot → List String
tenant_ids s = distinct_texts (map (λ i. i.tenant_id) s.requests)
