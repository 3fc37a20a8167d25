-- ===== src/Coordination/Effects.antt =====
-- coordination/fileLeaseCoordinator.js: what the calls of the file system do to the store, and what a
-- check says of an owner file with another token.
use basitclaw.Common.{
  ℕ, ◌≤◌, ◌<◌, ◌≡◌, ◌≢◌, refl, String, false, Option, none, some, arith, ==_iff, Bool-cases,
  Option-cases, inl, inr, err, subst, and-right,
}
use basitclaw.Coordination.{
  Counter, missing, invalid, at, Owner, LeaseDirectory, Store, lost, Handle,
}
use basitclaw.Coordination.Lease.{
  is_safe_integer, read_owner, next_fencing_token, same_lease, current_owner, assert_valid,
}
use basitclaw.Coordination.Setup.{
  World, set_slot, handed, written, write_into, make_directory, draw_token, write_owner, beaten,
  beat_into, end_beat,
}

-- The token was drawn from the counter, or the counter has been spoilt since.
abbrev pub IsDrawn : ℕ → Counter → Type 0
IsDrawn t missing = ⊥
IsDrawn t invalid = Unit
IsDrawn t (at n) = t ≤ n

abbrev pub NotOwner : ℕ → Option Owner → Type 0
NotOwner t none = Unit
NotOwner t (some o) = o.fencing_token ≢ t

abbrev pub NotLease : ℕ → Option LeaseDirectory → Type 0
NotLease t none = Unit
NotLease t (some d) = NotOwner t d.owner

-- No heartbeat has read an owner file with the token and has yet to write it.
abbrev pub NotBeating : ℕ → World → Type 0
NotBeating t w = (k : ℕ) (o : Owner) → w.beating k ≡ some (some o) → o.fencing_token ≢ t

pub next_fencing_token-gt :
    (c : Counter) (n t : ℕ) → next_fencing_token c ≡ some n → IsDrawn t c → t < n
unfolding next_fencing_token
next_fencing_token-gt missing n t h d = elim d [ ]
next_fencing_token-gt invalid n t h d = cc
next_fencing_token-gt (at m) n t h d = ground arith

pub read_owner-NotOwner :
    (t : ℕ) (d : LeaseDirectory) (o : Owner)
    → read_owner d ≡ some o
    → NotOwner t d.owner
    → o.fencing_token ≢ t
unfolding read_owner
read_owner-NotOwner t d o h n = elim (Option-cases d.owner) [
  | inl none_is ↦ absurd (cc (rw (none_is, read_owner) at h))
  | inr (x, e) ↦ elim (Bool-cases (is_safe_integer x.fencing_token)) [
    | inr f ↦ absurd (cc (rw (e, f, read_owner) at h))
    | inl y ↦
        let same : ◌≡◌ {A = Option Owner} (some x) (some o) = rw (e, y, read_owner) at h in
        subst (NotOwner t) same (subst (NotOwner t) e n)
  ]
]

pub current_owner-IsLost :
    (t : ℕ) (s : Store) (o : Owner)
    → current_owner s ≡ some o
    → NotLease t s.lease
    → o.fencing_token ≢ t
unfolding current_owner
current_owner-IsLost t s o h n = elim (Option-cases s.lease) [
  | inl none_is ↦ absurd (cc (rw (none_is, current_owner) at h))
  | inr (d, e) ↦ read_owner-NotOwner t d o (rw (e, current_owner) at h) (subst (NotLease t) e n)
]

-- What the steps do to the world.
pub make_directory-eq :
    (now : ℕ) (w w' : World)
    → make_directory now w ≡ some w'
    → w' ≡ record w {
      store = record w.store { lease = some (record { owner = none; modified_at = now }) };
    }
unfolding make_directory
make_directory-eq now w w' h = ground arith

pub draw_token-eq :
    (owner_id : String) (token : ℕ) (w w' : World)
    → draw_token owner_id w ≡ some (token, w')
    → (next_fencing_token w.store.fence ≡ some token)
      × (w' ≡ record w {
        store = record w.store { fence = at token };
        setting_up = set_slot token (some owner_id) w.setting_up;
      })
unfolding draw_token
draw_token-eq owner_id token w w' h = ground arith

pub written-eq :
    (lease_ms token now : ℕ) (owner_id : String) (d : Option LeaseDirectory) (h : Handle)
    (w w' : World)
    → write_into lease_ms token now owner_id w d ≡ some (h, w')
    → (h ≡ handed owner_id token) × (w' ≡ written lease_ms token now owner_id w)
written-eq lease_ms token now owner_id none h w w' e = cc
written-eq lease_ms token now owner_id (some d) h w w' e = ground arith

pub write_owner-eq :
    (lease_ms token now : ℕ) (h : Handle) (w w' : World)
    → write_owner lease_ms token now w ≡ some (h, w')
    → (owner_id : String) × (w.setting_up token ≡ some owner_id)
      × (h ≡ handed owner_id token)
      × (w' ≡ written lease_ms token now owner_id w)
unfolding write_owner
write_owner-eq lease_ms token now h w w' e = elim (Option-cases (w.setting_up token)) [
  | inl nobody ↦ absurd (cc (rw (nobody, write_owner) at e))
  | inr (owner_id, held) ↦
      let (h_is, w_is) =
        written-eq lease_ms token now owner_id w.store.lease h w w' (rw (held, write_owner) at e) in
      (owner_id, held, h_is, w_is)
]

pub beat_into-eq :
    (lease_ms token now : ℕ) (o : Option Owner) (d : Option LeaseDirectory) (w w' : World)
    → beat_into lease_ms token now o w d ≡ some w'
    → w'
      ≡ record w { store = beaten lease_ms now o w.store; beating = set_slot token none w.beating }
beat_into-eq lease_ms token now o none w w' e = cc
beat_into-eq lease_ms token now o (some d) w w' e = ground arith

pub end_beat-eq :
    (lease_ms token now : ℕ) (w w' : World)
    → end_beat lease_ms token now w ≡ some w'
    → (o : Option Owner) × (w.beating token ≡ some o)
      × (w' ≡ record w {
        store = beaten lease_ms now o w.store;
        beating = set_slot token none w.beating;
      })
unfolding end_beat
end_beat-eq lease_ms token now w w' e = elim (Option-cases (w.beating token)) [
  | inl nobody ↦ absurd (cc (rw (nobody, end_beat) at e))
  | inr (o, held) ↦
      (o, held, beat_into-eq lease_ms token now o w.store.lease w w' (rw (held, end_beat) at e))
]

pub beaten-fence :
    (lease_ms now : ℕ) (o : Option Owner) (s : Store) → (beaten lease_ms now o s).fence ≡ s.fence
beaten-fence lease_ms now none s = refl
beaten-fence lease_ms now (some o) s = refl

pub beaten-NotLease :
    (t lease_ms now : ℕ) (o : Option Owner) (s : Store)
    → ((x : Owner) → o ≡ some x → x.fencing_token ≢ t)
    → NotLease t (beaten lease_ms now o s).lease
beaten-NotLease t lease_ms now none s h = tt
beaten-NotLease t lease_ms now (some o) s h = h o refl

pub other_token :
    (o : Owner) (h : Handle) → o.fencing_token ≢ h.fencing_token → same_lease (some o) h ≡ false
other_token o h n = elim (Bool-cases (same_lease (some o) h)) [
  | inr f ↦ f
  | inl t ↦ absurd (n ((==_iff o.fencing_token h.fencing_token).0 (and-right _ _ t)))
]

-- A lost token fails the check.
pub assert_valid-NotLease :
    (h : Handle) (now : ℕ) (s : Store)
    → NotLease h.fencing_token s.lease
    → assert_valid h now s ≡ err lost
unfolding assert_valid
assert_valid-NotLease h now s n = elim (Bool-cases h.released) [
  | inl r ↦ rw r refl
  | inr f ↦ elim (Option-cases (current_owner s)) [
    | inl none_is ↦ rw (f, none_is) refl
    | inr (o, owns) ↦
        let other = current_owner-IsLost h.fencing_token s o owns n in
        rw (f, owns, other_token o h other) refl
  ]
]
