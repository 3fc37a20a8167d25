-- ===== src/Coordination/Waiting.antt =====
-- coordination/fileLeaseCoordinator.js: how long `acquire` waits.
use basitclaw.Common.{
  ℕ, ◌+◌, ◌≤◌, ◌≡◌, ◌≢◌, refl, String, none, some, List, [], ◌∷◌, ◌++◌, arith, ◌⊎◌, inl, inr,
}
use basitclaw.Coordination.{Store}
use basitclaw.Coordination.Lease.{
  Turn, acquired, failed, taken_over, waits, set_up, turn, won, gave_up, acquire_loop, acquire,
}

-- A turn at or behind the deadline does not sleep.
turn-ends :
    (owner_id : String) (lease_ms deadline now : ℕ) (s : Store)
    → deadline ≤ now
    → turn owner_id lease_ms deadline now s ≢ waits
unfolding turn set_up
turn-ends owner_id lease_ms deadline now s late h = ground arith

turn-taken_over-free :
    (owner_id : String) (lease_ms deadline now : ℕ) (s s' : Store)
    → turn owner_id lease_ms deadline now s ≡ taken_over s'
    → s'.lease ≡ none
unfolding turn set_up
turn-taken_over-free owner_id lease_ms deadline now s s' h = ground arith

-- With no lease there the turn is the last.
free_turn-ends :
    (owner_id : String) (lease_ms deadline now : ℕ) (times : List ℕ) (s : Store)
    → s.lease ≡ none
    → acquire_loop owner_id lease_ms deadline (now ∷ times) s ≢ none
unfolding acquire_loop turn set_up
free_turn-ends owner_id lease_ms deadline now times s free h = ground arith

goes_on :
    (owner_id : String) (lease_ms deadline now : ℕ) (times : List ℕ) (s : Store)
    → acquire_loop owner_id lease_ms deadline (now ∷ times) s ≡ none
    → ((s' : Store) × (turn owner_id lease_ms deadline now s ≡ taken_over s')
        × (acquire_loop owner_id lease_ms deadline times s' ≡ none))
      ⊎ ((turn owner_id lease_ms deadline now s ≡ waits)
          × (acquire_loop owner_id lease_ms deadline times s ≡ none))
unfolding acquire_loop
goes_on owner_id lease_ms deadline now times s h = by_turn (turn owner_id lease_ms deadline now s) h
  where
    by_turn :
        (x : Turn)
        → elim x [
          | acquired g s' ↦ some (won g s')
          | failed e s' ↦ some (gave_up e s')
          | taken_over s' ↦ acquire_loop owner_id lease_ms deadline times s'
          | waits ↦ acquire_loop owner_id lease_ms deadline times s
        ]
          ≡ none
        → ((s' : Store) × (x ≡ taken_over s')
            × (acquire_loop owner_id lease_ms deadline times s' ≡ none))
          ⊎ ((x ≡ waits) × (acquire_loop owner_id lease_ms deadline times s ≡ none))
    by_turn (acquired g s') h = cc
    by_turn (failed e s') h = cc
    by_turn (taken_over s') h = inl (s', refl, h)
    by_turn waits h = inr (refl, h)

acquire_loop-ends :
    (owner_id : String) (lease_ms deadline late after : ℕ) (early : List ℕ) (s : Store)
    → deadline ≤ late
    → acquire_loop owner_id lease_ms deadline (early ++ late ∷ after ∷ []) s ≢ none
acquire_loop-ends owner_id lease_ms deadline late after [] s past h =
    elim (goes_on owner_id lease_ms deadline late (after ∷ []) s h) [
      | inl (s', taken, rest) ↦
          free_turn-ends owner_id lease_ms deadline after [] s'
            (turn-taken_over-free owner_id lease_ms deadline late s s' taken) rest
      | inr (sleeps, _) ↦ turn-ends owner_id lease_ms deadline late s past sleeps
    ]
acquire_loop-ends owner_id lease_ms deadline late after (now ∷ early) s past h =
    elim (goes_on owner_id lease_ms deadline now (early ++ late ∷ after ∷ []) s h) [
      | inl (s', _, rest) ↦
          acquire_loop-ends owner_id lease_ms deadline late after early s' past rest
      | inr (_, rest) ↦ acquire_loop-ends owner_id lease_ms deadline late after early s past rest
    ]

-- With nobody else at work, `acquire` ends: once the clock reads a time that is the timeout behind the
-- start, at most one turn more is taken before a lease is returned or an error thrown.
pub acquire-ends :
    (owner_id : String) (lease_ms timeout_ms started late after : ℕ) (early : List ℕ) (s : Store)
    → started + timeout_ms ≤ late
    → acquire owner_id lease_ms timeout_ms started (early ++ late ∷ after ∷ []) s ≢ none
unfolding acquire
acquire-ends owner_id lease_ms timeout_ms started late after early s past =
    acquire_loop-ends owner_id lease_ms (started + timeout_ms) late after early s past
