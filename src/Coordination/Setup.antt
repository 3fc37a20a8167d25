-- ===== src/Coordination/Setup.antt =====
-- coordination/fileLeaseCoordinator.js: the calls of the file system that `acquire`, the takeover of a
-- stale lease, `heartbeat` and `release` are made of, each of them a step, so that those of all
-- processes interleave. Drawing a token, which reads and writes the fence file, is one step, and so
-- is the removal of a directory with its file. Reads that only decide which call comes next change
-- nothing; a step may be taken whatever they saw.
use basitclaw.Common.{
  ℕ, String, Option, none, some, ◌==◌, if◌then◌else◌, ok, ◌≡◌, false, refl, sym, ap, arith,
  >>=-eq-ok, ok-injective, Option-cases, inl, inr,
}
use basitclaw.Coordination.{at, Owner, LeaseDirectory, Store, Error, Handle}
use basitclaw.Coordination.Lease.{
  next_fencing_token, new_owner, current_owner, prolonged, assert_valid, owner_or_lost, heartbeat,
  turn, set_up, acquired,
}

-- The store, and who draws which token and has yet to write its owner file.
pub record World : Type 0 where
  pub store : Store
  pub setting_up : ℕ → Option String
  -- by the token of the handle: a heartbeat that has read the owner file, with what it read (none
  -- is a file that cannot be read), and has yet to write it
  pub beating : ℕ → Option (Option Owner)

abbrev pub set_slot : {A : Type 0} → ℕ → Option A → (ℕ → Option A) → ℕ → Option A
set_slot token slot slots t = if t == token then slot else slots t

-- mkdirSync: none is EEXIST.
unfoldable pub make_directory : ℕ → World → Option World
make_directory now w = elim w.store.lease [
  | some _ ↦ none
  | none ↦ some (record w {
    store = record w.store { lease = some (record { owner = none; modified_at = now }) };
  })
]

-- nextFencingToken: none where it throws.
unfoldable pub draw_token : String → World → Option (ℕ × World)
unfolding next_fencing_token
draw_token owner_id w = elim (next_fencing_token w.store.fence) [
  | none ↦ none
  | some token ↦ some (
    token,
    record w {
      store = record w.store { fence = at token };
      setting_up = set_slot token (some owner_id) w.setting_up;
    },
  )
]

abbrev pub handed : String → ℕ → Handle
handed owner_id token = record { owner_id = owner_id; fencing_token = token; released = false }

abbrev pub written : ℕ → ℕ → ℕ → String → World → World
written lease_ms token now owner_id w = record w {
  store = record w.store {
    lease =
        some (record { owner = some (new_owner owner_id lease_ms token now); modified_at = now });
  };
  setting_up = set_slot token none w.setting_up;
}

abbrev pub write_into : ℕ → ℕ → ℕ → String → World → Option LeaseDirectory → Option (Handle × World)
write_into lease_ms token now owner_id w none = none
write_into lease_ms token now owner_id w (some d) =
    some (handed owner_id token, written lease_ms token now owner_id w)

-- atomicWrite of the owner file by the process that drew the token, into whichever lease directory is
-- at the path; none where there is none, and for a token that nobody is setting up.
unfoldable pub write_owner : ℕ → ℕ → ℕ → World → Option (Handle × World)
write_owner lease_ms token now w = elim (w.setting_up token) [
  | none ↦ none
  | some owner_id ↦ write_into lease_ms token now owner_id w w.store.lease
]

-- readOwner in `heartbeat`, behind its first check.
unfoldable pub begin_beat : ℕ → World → World
unfolding current_owner
begin_beat token w = record w { beating = set_slot token (some (current_owner w.store)) w.beating }

-- What the heartbeat writes: the record that it read, with a new end.
abbrev pub beaten : ℕ → ℕ → Option Owner → Store → Store
beaten lease_ms now none s = record s { lease = some (record { owner = none; modified_at = now }) }
beaten lease_ms now (some o) s = prolonged lease_ms now o s

abbrev pub beat_into : ℕ → ℕ → ℕ → Option Owner → World → Option LeaseDirectory → Option World
beat_into lease_ms token now o w none = none
beat_into lease_ms token now o w (some d) =
    some
      (record w { store = beaten lease_ms now o w.store; beating = set_slot token none w.beating })

-- atomicWrite in `heartbeat`, into whichever lease directory is at the path.
unfoldable pub end_beat : ℕ → ℕ → ℕ → World → Option World
end_beat lease_ms token now w = elim (w.beating token) [
  | none ↦ none
  | some o ↦ beat_into lease_ms token now o w w.store.lease
]

-- The lease directory is renamed or removed: by a process that saw it, or another lease that was there
-- before it, to be stale, by a release that saw its own owner file, or after a set-up that failed.
abbrev pub remove_lease : World → World
remove_lease w = record w { store = record w.store { lease = none } }

-- One call of the file system, of any process.
pub data Step (w : World) : World → Type 0 where
  makes : (now : ℕ) (w' : World) → make_directory now w ≡ some w' → Step w w'
  draws :
      (owner_id : String) (token : ℕ) (w' : World)
      → draw_token owner_id w ≡ some (token, w')
      → Step w w'
  writes :
      (lease_ms token now : ℕ) (h : Handle) (w' : World)
      → write_owner lease_ms token now w ≡ some (h, w')
      → Step w w'
  removes : Step w (remove_lease w)
  reads_owner : (token : ℕ) → Step w (begin_beat token w)
  beats :
      (lease_ms token now : ℕ) (w' : World) → end_beat lease_ms token now w ≡ some w' → Step w w'

pub data Steps : World → World → Type 0 where
  done : (w : World) → Steps w w
  next : {w m v : World} → Step w m → Steps m v → Steps w v

turn-acquired :
    (owner_id : String) (lease_ms deadline now : ℕ) (s s' : Store) (h : Handle)
    → turn owner_id lease_ms deadline now s ≡ acquired h s'
    → (s.lease ≡ none)
      × (next_fencing_token s.fence ≡ some h.fencing_token)
      × (s' ≡ record {
        fence = at h.fencing_token;
        lease = some (record {
          owner = some (new_owner owner_id lease_ms h.fencing_token now);
          modified_at = now;
        });
      })
unfolding turn set_up
turn-acquired owner_id lease_ms deadline now s s' h e = ground arith

-- A turn of `acquire` that nobody disturbs, and that acquires the lease, is these steps.
turn-Steps :
    (owner_id : String) (lease_ms deadline now : ℕ) (h : Handle) (s' : Store) (w : World)
    → turn owner_id lease_ms deadline now w.store ≡ acquired h s'
    → (w' : World) × (w'.store ≡ s') × Steps w w'
unfolding make_directory draw_token write_owner
turn-Steps owner_id lease_ms deadline now h s' w e =
    let (free, drawn, s_is) = turn-acquired owner_id lease_ms deadline now w.store s' h e in
    let token = h.fencing_token in
    let made : World = record w {
      store = record w.store { lease = some (record { owner = none; modified_at = now }) };
    } in
    let tokened : World = record made {
      store = record made.store { fence = at token };
      setting_up = set_slot token (some owner_id) w.setting_up;
    } in
    let own : tokened.setting_up token ≡ some owner_id = ground arith in
    (
      written lease_ms token now owner_id tokened,
      sym s_is,
      next (makes now made (rw (free, make_directory) refl)) (
          next (draws owner_id token tokened (rw (drawn, draw_token) refl)) (
            next (writes lease_ms token now (handed owner_id token) _ (rw (own, write_owner) refl))
              (done _))),
    )

heartbeat-owner :
    (lease_ms now : ℕ) (h : Handle) (s s' : Store)
    → heartbeat lease_ms h now s ≡ ok s'
    → (o : Owner) × (current_owner s ≡ some o) × (s' ≡ prolonged lease_ms now o s)
unfolding heartbeat
heartbeat-owner lease_ms now h s s' e =
    let (_, _, e1) = >>=-eq-ok (assert_valid h now s) _ e in
    let (o, found, e2) = >>=-eq-ok (owner_or_lost (current_owner s)) _ e1 in
    let (_, _, e3) = >>=-eq-ok (assert_valid h now (prolonged lease_ms now o s)) _ e2 in
    (o, found_owner (current_owner s) o found, sym (ok-injective _ s' e3))
  where
    found_owner : (x : Option Owner) (o : Owner) → owner_or_lost x ≡ ok o → x ≡ some o
    found_owner none o h = absurd (cc h)
    found_owner (some x) o h = ap some (ok-injective {E = Error} x o h)

-- A heartbeat that nobody disturbs, and that returns, is these steps.
heartbeat-Steps :
    (lease_ms now : ℕ) (h : Handle) (s' : Store) (w : World)
    → heartbeat lease_ms h now w.store ≡ ok s'
    → (w' : World) × (w'.store ≡ s') × Steps w w'
unfolding begin_beat end_beat
heartbeat-Steps lease_ms now h s' w e =
    let (o, owns, s_is) = heartbeat-owner lease_ms now h w.store s' e in
    let token = h.fencing_token in
    let begun = begin_beat token w in
    let kept : begun.beating token ≡ some (some o) = rw owns (ground arith) in
    elim (Option-cases w.store.lease) [
      | inl gone ↦ absurd (cc (rw (gone, current_owner) at owns))
      | inr (d, there) ↦ (
        record begun {
          store = prolonged lease_ms now o w.store;
          beating = set_slot token none begun.beating;
        },
        sym s_is,
        next (reads_owner token)
            (next (beats lease_ms token now _ (rw (kept, there, end_beat) refl)) (done _)),
      )
    ]
