-- ===== src/PrivilegedAccess/Store.antt =====
-- security/privilegedAccessRegistry.js, `effective`, `expire`, `prune` and `mutate`: how an operation
-- runs on the stored snapshot. The mutex is taken as held, and reading as the snapshot itself.
use basitclaw.Common.{
  ℕ, ◌+◌, String, Bool, true, false, ◌&&◌, ◌||◌, not, Option, none, some, List, [], ◌∷◌, leb,
  if◌then◌else◌, str_eq, filter, Result, ok, err,
}
use basitclaw.PrivilegedAccess.{
  Config, Item, Status, pending, active, denied, cancelled, revoked, expired, Snapshot, Trail,
  Error, bad_input, store_unavailable, Unsigned, expired_request, break_glass_expired,
}
use basitclaw.PrivilegedAccess.Events.{event, trim_events}

-- value && new Date(value) <= current
unfoldable pub reached : Option ℕ → ℕ → Bool
reached none now = false
reached (some t) now = leb t now

-- The two tests follow one another; the first one's result is no longer active.
unfoldable pub effective_status : Item → ℕ → Status
unfolding reached
effective_status i now = elim i.status [
  | pending ↦ if reached i.approval_expires_at now then expired else pending
  | active ↦ if reached i.expires_at now then expired else active
  | s ↦ s
]

unfoldable pub effective : Item → ℕ → Item
effective i now = record i { status = effective_status i now }

abbrev pub same_status : Status → Status → Bool
same_status pending pending = true
same_status active active = true
same_status denied denied = true
same_status cancelled cancelled = true
same_status revoked revoked = true
same_status expired expired = true
same_status _ _ = false

abbrev pub is_open : Status → Bool
is_open pending = true
is_open active = true
is_open _ = false

-- snapshot.requests[item.id] = item, for a key that is there
unfoldable pub set_item : Item → List Item → List Item
set_item i [] = []
set_item i (j ∷ is) = if str_eq j.id i.id then i ∷ is else j ∷ set_item i is

abbrev or_else {ℓ} : {A : Type ℓ} → Option A → Option A → Option A
or_else none b = b
or_else (some a) b = some a

abbrev is_some : {A : Type 0} → Option A → Bool
is_some none = false
is_some (some a) = true

-- closedAt <= now - retention, on whole milliseconds
abbrev closed_before : Option ℕ → ℕ → ℕ → Bool
closed_before none retention now = false
closed_before (some t) retention now = leb (t + retention) now

unfoldable pub prunable : Config → ℕ → Item → Bool
unfolding effective
prunable c now i =
    let v = effective i now in
    not (is_open v.status)
    && closed_before (or_else v.closed_at (or_else v.expires_at v.approval_expires_at))
        c.request_retention_ms now
    && (not v.break_glass || is_some v.post_review)

unfoldable pub prune : Config → ℕ → List Item → List Item
prune c now = filter (λ i. not (prunable c now i))

-- What `mutate` throws: an error that is not of this registry becomes a store error.
unfoldable pub wrap_error : Error → Error
wrap_error (bad_input field) = store_unavailable
wrap_error e = e

-- The snapshot that is written after it.
unfoldable pub finish : Config → ℕ → Snapshot → Snapshot
finish c now s = record s {
  revision = s.revision + 1;
  updated_at = now;
  trail = trim_events c.event_retention now s.trail;
}

-- What `mutate` makes of the operation's outcome: nothing is written when it throws.
unfoldable pub settle : Config → ℕ → Result Error (Snapshot × Item) → Result Error (Snapshot × Item)
settle c now (ok (s, item)) = ok (finish c now s, item)
settle c now (err e) = err (wrap_error e)

module _ (digest : Unsigned → String) (event_id : ℕ → String) where
  unfoldable pub expire_item : ℕ → Item → Item
  expire_item now i = if same_status (effective_status i now) i.status then i else record i {
    status = effective_status i now;
    closed_at = some now;
    version = i.version + 1;
  }

  unfoldable pub expire_event : ℕ → Item → Trail → Trail
  unfolding expire_item
  expire_event now i t =
      if same_status (effective_status i now) i.status
      then t
      else event digest event_id t now
          (if i.break_glass then break_glass_expired else expired_request)
          "system:privileged-access" (expire_item now i) []

  unfoldable pub expire : ℕ → List Item → Trail → List Item × Trail
  unfolding expire_item expire_event
  expire now [] t = ([], t)
  expire now (i ∷ is) t =
      let (is', t') = expire now is (expire_event now i t) in (expire_item now i ∷ is', t')

  -- The snapshot that an operation works on.
  unfoldable pub prepare : Config → ℕ → Snapshot → Snapshot
  prepare c now s =
      let (items, t) = expire now s.requests s.trail in
      record s { requests = prune c now items; trail = t }

  unfoldable pub mutate :
      Config
      → Snapshot
      → ℕ
      → (Snapshot → Result Error (Snapshot × Item))
      → Result Error (Snapshot × Item)
  unfolding settle
  mutate c s now operation = settle c now (operation (prepare c now s))
