-- ===== src/AlertOutbox/Operations.antt =====
-- security/securityAlertOutbox.js: the operations, each under the lock from its first read to its
-- last write. `deliveryIdFor`, a hash of the event, is a parameter, and so are the random claim
-- tokens, by the id that is claimed.
use mathlib.Core.List.{reverse}
use basitclaw.Common.{
  ℕ, ◌+◌, ◌-◌, String, Bool, true, false, ◌&&◌, ◌||◌, not, Option, none, some, List, [], ◌∷◌, leb,
  ltb, ◌==◌, if◌then◌else◌, str_eq, length, map, take_last, min, Result, ok, err, ◌>>=◌, ◌>>◌,
  guard,
}
use basitclaw.AlertOutbox.{
  State, pending, inflight, dead_letter, delivered, Error, no_file, not_owned, invalid_state,
  bad_limit, Event, Item, Receipt, Config, Outbox,
}
use basitclaw.AlertOutbox.Files.{put, get, has, remove, names, prune}

abbrev pub read : {A : Type 0} → Option A → Result Error A
read none = err no_file
read (some a) = ok a

abbrev pub is_inflight : State → Bool
is_inflight inflight = true
is_inflight _ = false

abbrev pub is_dead_letter : State → Bool
is_dead_letter dead_letter = true
is_dead_letter _ = false

-- new Date(item.claimExpiresAt ?? 0).getTime() > currentMs
abbrev pub is_held : Item → ℕ → Bool
is_held i now = elim i.claim [ none ↦ false | some c ↦ ltb now c.expires_at ]

unfoldable pub recovered_item : ℕ → Item → Item
recovered_item now i = record i {
  state = pending;
  updated_at = now;
  next_attempt_at = now;
  last_error = some "Recovered after an expired in-flight claim.";
  claim = none;
}

-- One turn of the loop of `recoverStaleLocked`.
unfoldable pub recover_file : ℕ → ℕ → Outbox → Result Error Outbox
unfolding recovered_item
recover_file now k s =
    if has k s.delivereds || has k s.deads || has k s.pendings
    then ok (record s { inflights = remove k s.inflights })
    else elim (get k s.inflights) [
      | none ↦ ok s
      | some i ↦
          if not (is_inflight i.state)
          then err invalid_state
          else if is_held i now
          then ok s
          else ok (record s {
            pendings = put k (recovered_item now i) s.pendings;
            inflights = remove k s.inflights;
          })
    ]

unfoldable pub recover_loop : ℕ → List ℕ → Outbox → Result Error Outbox
unfolding recover_file
recover_loop now [] s = ok s
recover_loop now (k ∷ ks) s = recover_file now k s >>= λ s'. recover_loop now ks s'

unfoldable pub recover_stale : ℕ → Outbox → Result Error Outbox
unfolding recover_loop
recover_stale now s = recover_loop now (names s.inflights) s

-- What `enqueue` answers: the state it found the event in, or none when it is new.
pub record Enqueued : Type 0 where
  pub delivery_id : ℕ
  pub duplicate : Option State

unfoldable pub state_in : ℕ → Outbox → Option State
state_in k s =
    if has k s.delivereds
    then some delivered
    else if has k s.deads
    then some dead_letter
    else if has k s.inflights
    then some inflight
    else if has k s.pendings
    then some pending
    else none

unfoldable pub new_item : ℕ → ℕ → Event → Item
new_item k now e = record {
  delivery_id = k;
  state = pending;
  created_at = now;
  updated_at = now;
  attempts = 0;
  next_attempt_at = now;
  last_attempt_at = none;
  last_status = none;
  last_error = none;
  event = e;
  claim = none;
  burial = none;
}

unfoldable pub claimed_item : Config → ℕ → String → Item → Item
claimed_item c now token i = record i {
  state = inflight;
  updated_at = now;
  claim = some (record { claimed_at = now; token = token; expires_at = now + c.inflight_lease_ms });
}

unfoldable pub read_claim : ℕ → String → Outbox → Result Error Item
read_claim k token s = do
  i ← read (get k s.inflights)
  guard (is_inflight i.state && elim i.claim [ none ↦ false | some c ↦ str_eq c.token token ])
      not_owned
  ok i

-- What the receiver answered, and what is known of a failure.
pub record Response : Type 0 where
  pub status : Option ℕ
  pub response_id : Option String

pub record Failure : Type 0 where
  pub status : Option ℕ
  pub error : Option String
  pub reason : String

unfoldable pub receipt_of : ℕ → Response → Item → Receipt
receipt_of now r i = record {
  delivery_id = i.delivery_id;
  created_at = i.created_at;
  delivered_at = now;
  attempts = i.attempts + 1;
  response_status = r.status;
  response_id = r.response_id;
  event_id = i.event.id;
  event_hash = i.event.hash;
}

unfoldable pub retried_item : ℕ → ℕ → Failure → Item → Item
retried_item now next f i = record i {
  state = pending;
  updated_at = now;
  attempts = i.attempts + 1;
  next_attempt_at = next;
  last_attempt_at = some now;
  last_status = f.status;
  last_error = f.error;
  claim = none;
}

unfoldable pub dead_item : ℕ → Failure → Item → Item
dead_item now f i = record i {
  state = dead_letter;
  updated_at = now;
  attempts = i.attempts + 1;
  last_attempt_at = some now;
  last_status = f.status;
  last_error = f.error;
  claim = none;
  burial = some (record { dead_lettered_at = now; reason = f.reason });
}

unfoldable pub requeued_item : ℕ → Item → Item
requeued_item now i = record i {
  state = pending;
  updated_at = now;
  next_attempt_at = now;
  last_error = none;
  burial = none;
}

module _ (c : Config) where
  -- The loop of `claimDue` over the pending names, at most `room` of them more.
  unfoldable pub claim_loop :
      (ℕ → String) → ℕ → ℕ → List ℕ → Outbox → Result Error (Outbox × List Item)
  unfolding claimed_item
  claim_loop token now room [] s = ok (s, [])
  claim_loop token now room (k ∷ ks) s = if room == 0 then ok (s, []) else (do
    i ← read (get k s.pendings)
    if ltb now i.next_attempt_at then claim_loop token now room ks s else (do
      let claimed = claimed_item c now (token k) i
      (s', rest) ←
          claim_loop token now (room - 1) ks
            (record s { pendings = remove k s.pendings; inflights = put k claimed s.inflights })
      ok (s', claimed ∷ rest)))

  unfoldable pub claim_due : (ℕ → String) → ℕ → ℕ → Outbox → Result Error (Outbox × List Item)
  unfolding claim_loop
  claim_due token limit now s = do
    guard (leb 1 limit && leb limit 500) bad_limit
    s' ← recover_stale now s
    claim_loop token now limit (names s'.pendings) s'

  unfoldable pub complete : ℕ → String → Response → ℕ → Outbox → Result Error (Outbox × Receipt)
  complete k token r now s = do
    i ← read_claim k token s
    let receipt = receipt_of now r i
    ok (
      record s {
        inflights = remove k s.inflights;
        delivereds = prune c.delivered_retention (put k receipt s.delivereds);
      },
      receipt,
    )

  unfoldable pub dead_letter_claim :
      ℕ → String → Failure → ℕ → Outbox → Result Error (Outbox × Item)
  dead_letter_claim k token f now s = do
    i ← read_claim k token s
    let dead = dead_item now f i
    ok (
      record s {
        inflights = remove k s.inflights;
        deads = prune c.dead_letter_retention (put k dead s.deads);
      },
      dead,
    )

unfoldable pub retry : ℕ → String → Failure → ℕ → ℕ → Outbox → Result Error (Outbox × Item)
retry k token f next now s = do
  i ← read_claim k token s
  let again = retried_item now next f i
  ok (record s { inflights = remove k s.inflights; pendings = put k again s.pendings }, again)

unfoldable pub requeue : ℕ → ℕ → Outbox → Result Error (Outbox × Item)
requeue k now s = do
  i ← read (get k s.deads)
  guard (is_dead_letter i.state) invalid_state
  let again = requeued_item now i
  ok (record s { deads = remove k s.deads; pendings = put k again s.pendings }, again)

unfoldable pub list_dead_letters : ℕ → Outbox → Result Error (List Item)
list_dead_letters limit s = do
  guard (leb 1 limit && leb limit 500) bad_limit
  ok (map (λ f. f.1) (reverse (take_last limit s.deads)))

module _ (delivery_id_for : Event → ℕ) where
  unfoldable pub enqueue : Event → ℕ → Outbox → Result Error (Outbox × Enqueued)
  enqueue e now s = do
    s' ← recover_stale now s
    let k = delivery_id_for e
    let found = state_in k s'
    ok (
      elim found [
        | some _ ↦ s'
        | none ↦ record s' { pendings = put k (new_item k now e) s'.pendings }
      ],
      record { delivery_id = k; duplicate = found },
    )

pub record Counts : Type 0 where
  pub degraded : Bool
  pub pending_count : ℕ
  pub inflight_count : ℕ
  pub dead_count : ℕ
  pub oldest_pending_at : Option ℕ

-- The status `unavailable`, with the error that was caught, or `ready` or `degraded`.
pub data Health : Type 0 where
  available : Counts → Health
  unavailable : Error → Health

unfoldable pub oldest : List (ℕ × Item) → Option ℕ
oldest [] = none
oldest ((k, i) ∷ fs) =
    some (elim (oldest fs) [ none ↦ i.created_at | some at ↦ min i.created_at at ])

unfoldable pub counts : Outbox → Counts
unfolding oldest
counts s = record {
  degraded = not (leb (length s.deads) 0);
  pending_count = length s.pendings;
  inflight_count = length s.inflights;
  dead_count = length s.deads;
  oldest_pending_at = oldest s.pendings;
}

-- The report alone; what `health` leaves in the directories is what `recover_stale` leaves there.
unfoldable pub health : ℕ → Outbox → Health
health now s = elim (recover_stale now s) [ ok s' ↦ available (counts s') | err e ↦ unavailable e ]
