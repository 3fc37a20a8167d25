-- ===== src/Ledger.antt =====
-- services/governanceLedger.js: an append-only, hash-chained record of what was done for a tenant.
-- One list holds the events of all tenants; each tenant's events form a chain of their own.
pub mod Metadata
pub mod Chain
pub mod Rollback
pub mod Replace
pub mod Tamper
pub mod Book
pub mod Showing
pub mod Refinement
mod Tests
use basitclaw.Common.{
  ℕ, ◌+◌, ◌≡◌, String, Bool, true, false, ◌&&◌, not, Option, none, some, List, [], ◌∷◌, ◌++◌,
  Result, ok, err, ◌>>=◌, ◌>>◌, guard, ltb, ◌==◌, if◌then◌else◌, str_eq, opt_eq, length, filter,
  any, all, get_last?, take_last, max, min,
}
use mathlib.Core.Option
use basitclaw.Common.Text.{codes, trim, is_safe, is_subject_code}
use Metadata.{Value, null, undefined, object, end, MetadataError, sanitise}

-- The text `GEV-<tenant>-<number>`.
pub data EventId : Type 0 where
  gev : String → ℕ → EventId

-- An event without its hash: what `hashEvent` reads.
pub record Unsigned : Type 0 where
  pub id : EventId
  pub sequence : ℕ
  pub tenant_id : String
  pub actor : String
  pub action : String
  pub entity_type : String
  pub entity_id : String
  pub occurred_at : ℕ
  pub metadata : Value
  pub previous_hash : Option String

pub record Event : Type 0 where
  pub unsigned : Unsigned
  pub hash : String

pub record Input : Type 0 where
  pub tenant_id : String
  pub actor : String
  pub action : String
  pub entity_type : String
  pub entity_id : String
  pub metadata : Value

pub record Ledger : Type 0 where
  pub events : List Event
  pub imported_tenants : List String

pub data Error : Type 0 where
  unsafe_identifier : String → Error
  metadata_error : MetadataError → Error
  other_tenant : Error
  broken_chain : Option EventId → Error

pub record Verification : Type 0 where
  pub valid : Bool
  pub checked_events : ℕ
  pub failed_event_id : Option EventId
  pub head_hash : Option String

abbrev pub empty_ledger : Ledger
empty_ledger = record { events = []; imported_tenants = [] }

-- The test trims, and what is stored is not trimmed.
unfoldable pub is_identifier : String → Bool
unfolding trim is_safe is_subject_code
is_identifier s = is_safe is_subject_code 0 191 (trim (codes s))

abbrev pub assert_identifier : String → String → Result Error (Unit {0})
assert_identifier value name = guard (is_identifier value) (unsafe_identifier name)

abbrev pub assert_event_input : Input → Result Error (Unit {0})
assert_event_input input = do
  assert_identifier input.tenant_id "tenantId"
  assert_identifier input.actor "actor"
  assert_identifier input.action "action"
  assert_identifier input.entity_type "entityType"
  assert_identifier input.entity_id "entityId"

-- `input.metadata ?? {}`
abbrev pub or_empty : Value → Value
or_empty null = object end
or_empty undefined = object end
or_empty v = v

abbrev pub clean_metadata : Value → Result Error Value
clean_metadata v = elim (sanitise 0 (or_empty v)) [ ok c ↦ ok c | err e ↦ err (metadata_error e) ]

abbrev pub is_of : String → Event → Bool
is_of tenant e = str_eq e.unsigned.tenant_id tenant

abbrev pub own : String → List Event → List Event
own tenant = filter (is_of tenant)

abbrev pub head_hash : List Event → Option String
head_hash es = Option.map (λ (e : Event). e.hash) (get_last? es)

-- exportTenant
unfoldable pub export_tenant : String → Ledger → List Event
export_tenant tenant l = own tenant l.events

unfoldable pub checkpoint : String → Ledger → ℕ
checkpoint tenant l = length (own tenant l.events)

-- The loop of `rollbackTo`, with `seen` events of the tenant behind it.
pub rollback_events : String → ℕ → ℕ → List Event → List Event
rollback_events tenant kept seen [] = []
rollback_events tenant kept seen (e ∷ es) =
    let seen' : ℕ = if is_of tenant e then seen + 1 else seen in
    let rest = rollback_events tenant kept seen' es in
    if is_of tenant e && ltb kept seen' then rest else e ∷ rest

unfoldable pub rollback_to : String → ℕ → Ledger → Ledger
unfolding rollback_events
rollback_to tenant kept l = record l { events = rollback_events tenant kept 0 l.events }

-- slice(-safeLimit) of what exportTenant returns; `Number(limit) || 100` takes 0 for 100.
unfoldable pub list_events : String → ℕ → Ledger → List Event
unfolding export_tenant
list_events tenant limit l =
    take_last (max 1 (min 500 (if limit == 0 then 100 else limit))) (export_tenant tenant l)

-- SHA-256 over the canonical JSON of an event.
module _ (hash_event : Unsigned → String) where
  unfoldable pub continues : Option String → Event → Bool
  continues expected e =
      opt_eq e.unsigned.previous_hash expected && str_eq (hash_event e.unsigned) e.hash

  -- The loop of `verifyEvents`: the first event that does not continue the chain.
  pub first_broken : Option String → List Event → Option EventId
  first_broken expected [] = none
  first_broken expected (e ∷ es) =
      let rest = first_broken (some e.hash) es in
      if continues expected e then rest else some e.unsigned.id

  unfoldable pub verify_events : List Event → Verification
  unfolding first_broken
  verify_events es = record {
    valid = elim (first_broken none es) [ none ↦ true | some _ ↦ false ];
    checked_events = length es;
    failed_event_id = first_broken none es;
    head_hash = head_hash es;
  }

  unfoldable pub verify : String → Ledger → Verification
  unfolding verify_events
  verify tenant l = verify_events (own tenant l.events)

  -- The event that `append` builds at the time `now`.
  unfoldable pub sign : Ledger → Input → ℕ → Value → Event
  sign l input now metadata = record { unsigned = u; hash = hash_event u }
    where
      number : ℕ
      number = length (own input.tenant_id l.events) + 1

      u : Unsigned
      u = record {
        id = gev input.tenant_id number;
        sequence = number;
        tenant_id = input.tenant_id;
        actor = input.actor;
        action = input.action;
        entity_type = input.entity_type;
        entity_id = input.entity_id;
        occurred_at = now;
        metadata = metadata;
        previous_hash = head_hash (own input.tenant_id l.events);
      }

  unfoldable pub append : Ledger → Input → ℕ → Result Error (Ledger × Event)
  append l input now = do
    assert_event_input input
    metadata ← clean_metadata input.metadata
    let e = sign l input now metadata
    ok (record l { events = l.events ++ e ∷ [] }, e)

  unfoldable pub replace_tenant : String → List Event → Ledger → Result Error (Ledger × ℕ)
  unfolding verify_events
  replace_tenant tenant replacement l = do
    assert_identifier tenant "tenantId"
    guard (all (is_of tenant) replacement) other_tenant
    guard (verify_events replacement).valid
        (broken_chain (verify_events replacement).failed_event_id)
    ok (
      record {
        events = filter (λ e. not (is_of tenant e)) l.events ++ replacement;
        imported_tenants = tenant ∷ l.imported_tenants;
      },
      length replacement,
    )

  -- A tenant is imported once.
  unfoldable pub import_tenant : String → List Event → Ledger → Result Error Ledger
  import_tenant tenant imported l =
      if any (λ t. str_eq t tenant) l.imported_tenants
      then assert_identifier tenant "tenantId" >> ok l
      else (assert_identifier tenant "tenantId"
          >> (replace_tenant tenant imported l >>= λ r. ok r.0))
