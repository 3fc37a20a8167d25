-- ===== src/PrivilegedAccess/Events.antt =====
-- security/privilegedAccessRegistry.js, `event`, `verifyEvents` and `trim`: the hash chain of events,
-- whose front is cut off and remembered by an anchor.
use basitclaw.Common.{
  ℕ, ◌+◌, ◌-◌, String, Bool, false, ◌&&◌, Option, none, some, List, [], ◌∷◌, ◌++◌, leb, ◌==◌,
  if◌then◌else◌, str_eq, opt_eq, length, take, drop, get_last?,
}
use basitclaw.PrivilegedAccess.{Item, Action, Detail, Unsigned, Event, Trail}

-- snapshot.events.at(-1)?.hash ?? snapshot.anchor.hash
unfoldable pub last_hash : Trail → Option String
last_hash t = elim (get_last? t.events) [ none ↦ t.anchor.hash | some e ↦ some e.hash ]

unfoldable pub trim_events : ℕ → ℕ → Trail → Trail
trim_events retention now t =
    if leb (length t.events) retention
    then t
    else elim (get_last? (take (length t.events - retention) t.events)) [
      | none ↦ t
      | some e ↦ record t {
        anchor = record {
          sequence = e.unsigned.sequence;
          hash = some e.hash;
          pruned_at = some now;
        };
        events = drop (length t.events - retention) t.events;
      }
    ]

-- `digest` is SHA-256 over the JSON of an event, and `event_id` the random id of the event with a
-- given sequence number.
module _ (digest : Unsigned → String) (event_id : ℕ → String) where
  unfoldable pub new_event : Trail → ℕ → Action → String → Item → List (String × Detail) → Event
  new_event t now action actor item details = record { unsigned = u; hash = digest u }
    where
      u : Unsigned
      u = record {
        id = event_id (t.event_sequence + 1);
        sequence = t.event_sequence + 1;
        occurred_at = now;
        actor = actor;
        action = action;
        request_id = item.id;
        subject = item.subject;
        tenant_id = item.tenant_id;
        permissions = item.permissions;
        break_glass = item.break_glass;
        details = details;
        previous_hash = last_hash t;
      }

  unfoldable pub event : Trail → ℕ → Action → String → Item → List (String × Detail) → Trail
  event t now action actor item details = record t {
    event_sequence = t.event_sequence + 1;
    events = t.events ++ new_event t now action actor item details ∷ [];
  }

module _ (digest : Unsigned → String) where
  unfoldable pub continues : ℕ → Option String → Event → Bool
  continues sequence previous e =
      e.unsigned.sequence == sequence + 1
      && opt_eq e.unsigned.previous_hash previous
      && str_eq (digest e.unsigned) e.hash

  -- The loop of `verifyEvents`: the last sequence number of an intact chain.
  unfoldable pub chain_end : ℕ → Option String → List Event → Option ℕ
  chain_end sequence previous [] = some sequence
  chain_end sequence previous (e ∷ es) =
      let rest = chain_end (sequence + 1) (some e.hash) es in
      if continues sequence previous e then rest else none

  unfoldable pub verify_events : Trail → Bool
  unfolding chain_end
  verify_events t = elim (chain_end t.anchor.sequence t.anchor.hash t.events) [
    | none ↦ false
    | some sequence ↦ sequence == t.event_sequence
  ]
