-- ===== src/PrivilegedAccess/Checks.antt =====
-- security/privilegedAccessRegistry.js: the checks on principals and arguments.
use basitclaw.Common.{
  ℕ, String, Bool, true, false, ◌&&◌, ◌||◌, not, Option, none, some, List, [], ◌∷◌, map, leb, ◌==◌,
  if◌then◌else◌, str_eq, length, filter, all, Result, ok, err, ◌>>=◌, ◌>>◌, guard,
}
use basitclaw.Common.Text.{
  codes, trim_text, utf16_length, contains, distinct_texts, sort_texts, is_safe, is_tenant_code,
  is_subject_code,
}
use basitclaw.AccessControl.{permissions_for_role}
use basitclaw.PrivilegedAccess.{
  Config, Principal, Item, Error, principal_invalid, oidc_required, amr_required, acr_required,
  management_denied, tenant_mismatch, not_found, id_invalid, not_protected, not_assigned,
  precondition_required, version_conflict, bad_input,
}

abbrev pub is_given : String → Bool
is_given s = not (str_eq s "")

abbrev uses_oidc : Principal → Bool
uses_oidc p = str_eq p.auth_method "oidc"

abbrev is_none_required : List String → Bool
is_none_required [] = true
is_none_required (s ∷ ss) = false

unfoldable pub eligible : Config → Principal → Bool → Result Error (Unit {0})
eligible c p force_oidc = do
  guard (is_given p.subject && is_given p.tenant_id && is_given p.role) principal_invalid
  guard (not ((force_oidc || not c.allow_api_key) && not (uses_oidc p))) oidc_required
  guard (not (uses_oidc p) || all (λ m. contains m p.amr) c.required_amr) amr_required
  guard (not (uses_oidc p) || is_none_required c.required_acr || contains p.acr c.required_acr)
      acr_required

unfoldable pub manage : Principal → String → Result Error (Unit {0})
manage p permission = guard (contains permission p.permissions) management_denied

-- text(value, field, min, max): the trimmed text.
unfoldable pub text_of : String → String → ℕ → ℕ → Result Error String
text_of value field lo hi = do
  let t = trim_text value
  guard (leb lo (utf16_length t) && leb (utf16_length t) hi) (bad_input field)
  ok t

-- integer(value, field, min, max) on a whole number.
unfoldable pub integer : ℕ → String → ℕ → ℕ → Result Error ℕ
integer n field lo hi = do guard (leb lo n && leb n hi) (bad_input field); ok n

unfoldable pub subject_of : String → Result Error String
subject_of value = do
  let s = trim_text value
  guard (is_safe is_subject_code 1 255 (codes s)) (bad_input "subject")
  ok s

unfoldable pub identifier : String → String → Result Error String
identifier value field = do
  let s = trim_text value
  guard (is_safe is_tenant_code 1 127 (codes s)) (bad_input field)
  ok s

unfoldable pub role_of : String → Result Error String
role_of value = elim (permissions_for_role value) [
  | none ↦ err (bad_input "role")
  | some _ ↦ ok value
]

-- actor(context.actor ?? principal.subject)
unfoldable pub actor_of : Option String → Principal → Result Error String
actor_of given p = do
  let s = trim_text (elim given [ none ↦ p.subject | some a ↦ a ])
  guard (is_given s && leb (utf16_length s) 256) (bad_input "actor")
  ok s

unfoldable pub string_list : List String → String → ℕ → ℕ → Result Error (List String)
string_list values field lo hi = do
  let result = distinct_texts (filter is_given (map trim_text values))
  guard (leb lo (length result) && leb (length result) hi) (bad_input field)
  ok result

abbrev check_permissions : List String → List String → List String → Result Error (Unit {0})
check_permissions protected standing [] = ok tt
check_permissions protected standing (p ∷ ps) =
    guard (contains p protected) not_protected
    >> (guard (contains p standing) not_assigned >> check_permissions protected standing ps)

unfoldable pub requested : List String → List String → List String → Result Error (List String)
unfolding string_list
requested values protected standing = do
  result ← string_list values "permissions" 1 10
  check_permissions protected standing result
  ok (sort_texts (distinct_texts result))

-- ^PAM-[0-9a-f-]{36}$, in either case
abbrev is_id_code : ℕ → Bool
is_id_code c =
    (leb b'0' c && leb c b'9')
    || (leb b'a' c && leb c b'f')
    || (leb b'A' c && leb c b'F')
    || c == b'-'

abbrev is_request_id_codes : List ℕ → Bool
is_request_id_codes (p ∷ a ∷ m ∷ d ∷ rest) =
    (p == b'P' || p == b'p')
    && (a == b'A' || a == b'a')
    && (m == b'M' || m == b'm')
    && d == b'-'
    && all is_id_code rest
    && length rest == 36
is_request_id_codes _ = false

unfoldable pub is_request_id : String → Bool
is_request_id s = is_request_id_codes (codes s)

unfoldable pub find_item : String → List Item → Option Item
find_item id [] = none
find_item id (i ∷ is) = if str_eq i.id id then some i else find_item id is

-- request(snapshot, id)
unfoldable pub request : List Item → String → Result Error Item
request items id = do
  guard (is_request_id id) id_invalid
  elim (find_item id items) [ none ↦ err not_found | some i ↦ ok i ]

-- version(item, expectedVersion): a missing or zero version is no precondition.
unfoldable pub check_version : Item → Option ℕ → Result Error (Unit {0})
check_version item none = err precondition_required
check_version item (some v) =
    guard (leb 1 v) precondition_required >> guard (item.version == v) version_conflict

unfoldable pub check_tenant : Item → Principal → Result Error (Unit {0})
check_tenant item p = guard (str_eq item.tenant_id p.tenant_id) tenant_mismatch
