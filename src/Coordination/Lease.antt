-- ===== src/Coordination/Lease.antt =====
-- coordination/fileLeaseCoordinator.js: acquiring, checking, prolonging and releasing the lease.
use basitclaw.Common.{
  ℕ, ◌+◌, String, Bool, true, false, ◌&&◌, not, Option, none, some, List, [], ◌∷◌, leb, ltb, ◌==◌,
  if◌then◌else◌, str_eq, Result, ok, err, ◌>>=◌, ◌>>◌, guard,
}
use basitclaw.Coordination.{
  Counter, missing, invalid, at, Owner, LeaseDirectory, Store, Error, busy, lost, unavailable,
  Handle,
}

-- Number.isSafeInteger, on a natural number
unfoldable pub is_safe_integer : ℕ → Bool
is_safe_integer n = ltb n 9_007_199_254_740_992

unfoldable pub read_owner : LeaseDirectory → Option Owner
unfolding is_safe_integer
read_owner d = elim d.owner [
  | none ↦ none
  | some o ↦ if is_safe_integer o.fencing_token then some o else none
]

unfoldable pub is_expired : Owner → ℕ → Bool
is_expired o now = leb o.expires_at now

-- A lease without a readable owner is an orphan once it is `grace` old.
unfoldable pub is_stale : ℕ → LeaseDirectory → ℕ → Bool
unfolding read_owner is_expired
is_stale grace d now = elim (read_owner d) [
  | some o ↦ is_expired o now
  | none ↦ leb (d.modified_at + grace) now
]

unfoldable pub next_fencing_token : Counter → Option ℕ
unfolding is_safe_integer
next_fencing_token missing = some 1
next_fencing_token invalid = none
next_fencing_token (at n) = if is_safe_integer n then some (n + 1) else none

abbrev pub same_lease : Option Owner → Handle → Bool
same_lease none h = false
same_lease (some o) h = str_eq o.owner_id h.owner_id && o.fencing_token == h.fencing_token

-- The owner of the lease, if there is one that can be read.
unfoldable pub current_owner : Store → Option Owner
unfolding read_owner
current_owner s = elim s.lease [ none ↦ none | some d ↦ read_owner d ]

-- What one turn of the loop of `acquire` comes to.
pub data Turn : Type 0 where
  acquired : Handle → Store → Turn
  failed : Error → Store → Turn
  -- the stale lease is gone, and the loop goes on
  taken_over : Store → Turn
  -- the lease is held, and the loop sleeps
  waits : Turn

unfoldable pub new_owner : String → ℕ → ℕ → ℕ → Owner
new_owner owner_id lease_ms token now = record {
  owner_id = owner_id;
  fencing_token = token;
  acquired_at = now;
  heartbeat_at = now;
  expires_at = now + lease_ms;
}

-- The directory was made: the token is drawn and the owner written, or the directory removed.
unfoldable pub set_up : String → ℕ → ℕ → Store → Turn
unfolding next_fencing_token new_owner
set_up owner_id lease_ms now s = elim (next_fencing_token s.fence) [
  | none ↦ failed unavailable (record s { lease = none })
  | some token ↦
      acquired (record { owner_id = owner_id; fencing_token = token; released = false })
        (record {
          fence = at token;
          lease =
              some (record {
                owner = some (new_owner owner_id lease_ms token now);
                modified_at = now;
              });
        })
]

unfoldable pub turn : String → ℕ → ℕ → ℕ → Store → Turn
unfolding set_up is_stale
turn owner_id lease_ms deadline now s = elim s.lease [
  | none ↦ set_up owner_id lease_ms now s
  | some d ↦
      if is_stale lease_ms d now
      then taken_over (record s { lease = none })
      else if leb deadline now
      then failed (busy (read_owner d)) s
      else waits
]

-- What `acquire` returns or throws, with the store it leaves.
pub data Outcome : Type 0 where
  won : Handle → Store → Outcome
  gave_up : Error → Store → Outcome

-- The loop of `acquire`, one clock reading for each turn; none when the readings run out.
unfoldable pub acquire_loop : String → ℕ → ℕ → List ℕ → Store → Option Outcome
unfolding turn
acquire_loop owner_id lease_ms deadline [] s = none
acquire_loop owner_id lease_ms deadline (now ∷ times) s =
    elim (turn owner_id lease_ms deadline now s) [
      | acquired h s' ↦ some (won h s')
      | failed e s' ↦ some (gave_up e s')
      | taken_over s' ↦ acquire_loop owner_id lease_ms deadline times s'
      | waits ↦ acquire_loop owner_id lease_ms deadline times s
    ]

unfoldable pub acquire : String → ℕ → ℕ → ℕ → List ℕ → Store → Option Outcome
unfolding acquire_loop
acquire owner_id lease_ms timeout_ms started times s =
    acquire_loop owner_id lease_ms (started + timeout_ms) times s

unfoldable pub assert_valid : Handle → ℕ → Store → Result Error (Unit {0})
unfolding current_owner is_expired
assert_valid h now s = do
  guard (not h.released) lost
  guard (same_lease (current_owner s) h) lost
  guard (elim (current_owner s) [ none ↦ false | some o ↦ not (is_expired o now) ]) lost

abbrev pub owner_or_lost : Option Owner → Result Error Owner
owner_or_lost none = err lost
owner_or_lost (some o) = ok o

-- The store in which an owner's lease is prolonged.
abbrev pub prolonged : ℕ → ℕ → Owner → Store → Store
prolonged lease_ms now o s = record s {
  lease = some (record {
    owner = some (record o { heartbeat_at = now; expires_at = now + lease_ms });
    modified_at = now;
  });
}

unfoldable pub heartbeat : ℕ → Handle → ℕ → Store → Result Error Store
unfolding current_owner
heartbeat lease_ms h now s = do
  assert_valid h now s
  o ← owner_or_lost (current_owner s)
  assert_valid h now (prolonged lease_ms now o s)
  ok (prolonged lease_ms now o s)

-- The second value says whether this call removed the lease.
unfoldable pub release : Handle → Store → (Handle × Store) × Bool
unfolding current_owner
release h s =
    if h.released
    then ((h, s), false)
    else if same_lease (current_owner s) h
    then ((record h { released = true }, record s { lease = none }), true)
    else ((record h { released = true }, s), false)

-- The status that `inspect` reports.
pub data LeaseStatus : Type 0 where
  available stale leased : LeaseStatus

unfoldable pub inspect : Store → ℕ → LeaseStatus
unfolding current_owner is_expired
inspect s now = elim (current_owner s) [
  | none ↦ available
  | some o ↦ if is_expired o now then stale else leased
]

-- withLease, once the lease is acquired: the operation runs between two checks, on the stores before
-- and after it, and the lease is released in any case.
unfoldable pub with_lease :
    {A : Type 0} → Handle → ℕ → Store → ℕ → Store → Result Error A → Result Error A × Store
unfolding assert_valid release
with_lease h before s after s' operation = elim (assert_valid h before s) [
  | err e ↦ (err e, (release h s).0.1)
  | ok _ ↦ ((do a ← operation; assert_valid h after s'; ok a), (release h s').0.1)
]
