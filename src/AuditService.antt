-- ===== src/AuditService.antt =====
-- services/workforceAuditService.js: the audit plan and the findings of one tenant. This module has the
-- data and what the operations read; Operations has the operations that write. Times are milliseconds; the year of a time and the padded
-- decimal of a number are parameters, and so are the ids of the audit universe and what persisting a
-- state comes to.
pub mod Commit
pub mod Operations
pub mod Plan
mod Tests
use Prim.Native.Char.{code}
use basitclaw.Common.{
  ℕ, ◌+◌, ◌-◌, ◌/◌, ◌≡◌, String, Bool, true, false, ◌&&◌, ◌||◌, not, Option, none, some, List, [],
  ◌∷◌, ◌++◌, map, leb, ltb, ◌==◌, if◌then◌else◌, str_eq, length, filter, any, all, find, Result, ok,
  err, ◌>>=◌, ◌>>◌, guard,
}
use basitclaw.Common.Text.{codes, trim_text, contains}
use basitclaw.Ledger.{
  Ledger, Event, Unsigned, Input, is_identifier, append, checkpoint, rollback_to,
}
use basitclaw.Ledger
use basitclaw.Ledger.Metadata.{Value, text, number, boolean, object, Fields, end, field}

pub data Error : Type 0 where
  -- with the field that is at fault
  validation : String → Error
  not_found persistence_unavailable : Error
  ledger_refused : Ledger.Error → Error

-- A date as it is given, with the time it is parsed to.
pub record Date : Type 0 where
  pub written : String
  pub time : Option ℕ

pub record Placeholder : Type 0 where
  pub id : String
  pub title : String
  pub reason : String
  pub owner : String
  pub expires_at : String

pub record Engagement : Type 0 where
  pub id : String
  pub universe_item_id : String
  pub objective : String
  pub scope : List String
  pub exclusions : List String
  pub lead_auditor : String
  pub starts : ℕ
  pub ends : ℕ
  pub status : String
  pub placeholders : List Placeholder

pub record Finding : Type 0 where
  pub id : String
  pub engagement_id : String
  pub title : String
  pub severity : String
  pub owner : String
  pub due_date : String
  pub evidence_refs : List String
  pub response_required : Bool
  pub status : String

-- What `exportState` returns.
pub record State : Type 0 where
  pub engagements : List Engagement
  pub findings : List Finding

-- The service's state and the ledger it shares with the other tenants' services.
pub record World : Type 0 where
  pub state : State
  pub ledger : Ledger

pub record EngagementInput : Type 0 where
  pub universe_item_id : String
  pub objective : String
  pub scope : List String
  pub exclusions : List String
  pub lead_auditor : String
  pub start_date : Date
  pub end_date : Date
  pub management_approved : Bool

pub record PlaceholderInput : Type 0 where
  pub title : String
  pub reason : String
  pub owner : String
  pub expires_at : Date

pub record FindingInput : Type 0 where
  pub engagement_id : String
  pub title : String
  pub severity : String
  pub owner : String
  pub due_date : Date
  pub evidence_refs : List String
  pub response_optional : Bool
  pub status : Option String

-- assertRequired, on a text
abbrev pub required : String → String → Result Error (Unit {0})
required value name = guard (not (str_eq value "")) (validation name)

unfoldable pub parse_date : Date → String → Result Error ℕ
parse_date d name = elim d.time [ none ↦ err (validation name) | some t ↦ ok t ]

unfoldable pub append_text : String → String → String
append_text String.[] t = t
append_text (String.◌∷◌ c s) t = String.◌∷◌ c (append_text s t)

unfoldable pub without_angles : String → String
without_angles String.[] = String.[]
without_angles (String.◌∷◌ c s) =
    let rest = without_angles s in
    if code c == b'<' || code c == b'>' then rest else String.◌∷◌ c rest

unfoldable pub clean_text : String → String
unfolding without_angles
clean_text s = without_angles (trim_text s)

unfoldable pub is_placeholder_ref : String → Bool
is_placeholder_ref s = elim (codes s) [
  | p ∷ l ∷ h ∷ d ∷ rest ↦ p == b'P' && l == b'L' && h == b'H' && d == b'-'
  | _ ↦ false
]

unfoldable pub safe_actor : Option String → String
safe_actor none = "system"
safe_actor (some a) = let t = trim_text a in if is_identifier t then t else "system"

-- Another engagement of the same item that is not cancelled and meets the period.
unfoldable pub overlaps : String → ℕ → ℕ → Engagement → Bool
overlaps item starts ends e =
    str_eq e.universe_item_id item
    && leb e.starts ends
    && leb starts e.ends
    && not (str_eq e.status "cancelled")

unfoldable pub days_until : ℕ → ℕ → ℕ
days_until t now = (t - now + 86_399_999) / 86_400_000

abbrev pub is_closed : String → Bool
is_closed s = contains s ("closed" ∷ "verified" ∷ [])

unfoldable pub add_placeholder : String → Placeholder → List Engagement → List Engagement
add_placeholder id p [] = []
add_placeholder id p (e ∷ es) =
    if str_eq e.id id
    then record e { placeholders = e.placeholders ++ p ∷ [] } ∷ es
    else e ∷ add_placeholder id p es
