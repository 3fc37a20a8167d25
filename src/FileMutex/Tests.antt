-- ===== src/FileMutex/Tests.antt =====
-- Two processes and one lock.
use basitclaw.Common.{zero, suc, ℕ, ◌≡◌, ◌≢◌, refl, false, none, some, List, [], ◌∷◌, ◌++◌, arith}
use basitclaw.FileMutex.{
  Lock, returned, lock_lost, Process, operating, trying, ended, World, Settings, Slot, inspect_lock,
  act, step, run,
}
use basitclaw.FileMutex.Tokens.{start}
use basitclaw.FileMutex.Exclusion.{run-exclusive}
use basitclaw.FileMutex.Takeover.{alone, run-takes_over}

abbrev settings : Settings
settings = record { lease_ms = 100; acquire_timeout_ms = 50 }

-- `n` steps of a process at one time
abbrev steps : ℕ → ℕ → ℕ → List Slot
steps i now zero = []
steps i now (suc n) = record { index = i; now = now; throws = false } ∷ steps i now n

-- The second process takes over when the lease of the first has ended.
abbrev overlap : List Slot
overlap = steps 0 0 4 ++ steps 1 200 7

abbrev outcomes : World → Process × Process
outcomes w = (w.processes 0, w.processes 1)

both_run : outcomes (run settings overlap (start none)) ≡ (
  operating (record { token = 1; expires_at = 100 }),
  operating (record { token = 8; expires_at = 300 }),
)
unfolding run step act inspect_lock start
both_run = refl

one_returns :
    outcomes (run settings (steps 1 210 3 ++ steps 0 210 3) (run settings overlap (start none)))
    ≡ (ended lock_lost, ended returned)
unfolding run step act inspect_lock start
one_returns = refl

run-exclusive_example :
    (run settings (steps 0 210 3) (run settings overlap (start none))).processes 0 ≢ ended returned
unfolding run step act inspect_lock start
run-exclusive_example =
    run-exclusive settings none overlap (steps 1 210 3) (steps 0 210 3) 1 0
      (record { token = 8; expires_at = 300 }) (record { token = 1; expires_at = 100 })
      (λ e. omega (arith, e)) refl refl refl

-- A third process saw the stale lock before the second took it over, and then moves away the lock of the
-- second, which has not ended: their operations run at one time.
fresh_lock_moved_away :
    outcomes
      (run settings (steps 2 0 4 ++ steps 0 200 3 ++ steps 1 200 7 ++ steps 0 200 4) (start none))
    ≡ (
      operating (record { token = 15; expires_at = 300 }),
      operating (record { token = 11; expires_at = 300 }),
    )
unfolding run step act inspect_lock start
fresh_lock_moved_away = refl

abbrev stale_lock : Lock
stale_lock = record { created_at = 0; owner = some (record { token = 9; expires_at = 100 }) }

abbrev tries : World
tries = record { disk = some stale_lock; processes = λ _. trying 250; next_token = 10 }

run-takes_over_example :
    let after =
      run settings (alone 3 (200 ∷ 200 ∷ 200 ∷ 201 ∷ 202 ∷ 203 ∷ 204 ∷ 205 ∷ 206 ∷ [])) tries in
    (after.processes 3 ≡ ended returned) × (after.disk ≡ none)
unfolding inspect_lock
run-takes_over_example =
    run-takes_over settings 3 250 tries stale_lock refl refl 200 200 200 201 202 203 204 205 206
      refl (omega arith) (omega arith)
