-- ===== src/AlertOutbox/Recovery.antt =====
-- security/securityAlertOutbox.js: the recovery of stale claims, which every delivery starts with.
use basitclaw.Common.{
  ℕ, ◌≡◌, true, ◌||◌, List, [], ◌∷◌, All, Bool-cases, Option-cases, inl, inr, Result, ok, err,
  ◌>>=◌, refl,
}
use basitclaw.AlertOutbox.{Config, Outbox, Item, Event, Error, empty_outbox}
use basitclaw.AlertOutbox.Files.{get, has, names, remove, put, All-put, All-remove, All-get}
use basitclaw.AlertOutbox.Operations.{
  is_inflight, is_held, recover_file, recover_loop, recover_stale, recovered_item, enqueue,
  Enqueued, health, available, counts,
}
use basitclaw.AlertOutbox.Steps.{
  Step, stays, files, claims, returns, delivers, buries, revives, drops, Steps, done, next,
  recover_file-Step,
}
use basitclaw.AlertOutbox.Calls.{Call, run, run-Steps}

abbrev IsInflight : ℕ × Item → Type 0
IsInflight f = is_inflight f.1.state ≡ true

-- Every file of the directory inflight has that state.
abbrev pub IsHealthy : Outbox → Type 0
IsHealthy s = All IsInflight s.inflights

-- The recovery of a file does not throw.
recover_file_returns :
    (now k : ℕ) (s : Outbox) → IsHealthy s → (s' : Outbox) × (recover_file now k s ≡ ok s')
unfolding recover_file
recover_file_returns now k s h =
    elim (Bool-cases (has k s.delivereds || has k s.deads || has k s.pendings)) [
      | inl t ↦ (record s { inflights = remove k s.inflights }, rw t)
      | inr f ↦ elim (Option-cases (get k s.inflights)) [
        | inl n ↦ (s, rw (f, n))
        | inr (i, at) ↦
            let good = All-get (λ (x : Item). is_inflight x.state ≡ true) k s.inflights i h at in
            elim (Bool-cases (is_held i now)) [
              | inl held ↦ (s, rw (f, at, good, held))
              | inr free ↦ (
                record s {
                  pendings = put k (recovered_item now i) s.pendings;
                  inflights = remove k s.inflights;
                },
                rw (f, at, good, free),
              )
            ]
      ]
    ]

-- A chain returns when its first part does, and the rest on every outbox.
chain_returns :
    {B : Type 0} (x : Result Error Outbox) (k : Outbox → Result Error B)
    → ((s : Outbox) × (x ≡ ok s))
    → ((s : Outbox) → (r : B) × (k s ≡ ok r))
    → (r : B) × ((x >>= k) ≡ ok r)
chain_returns (ok s) k h total = total s
chain_returns (err e) k h total = let h' = h.1 in absurd (cc)

module _ (c : Config) where
  Step-IsHealthy : (s s' : Outbox) → Step c s s' → IsHealthy s → IsHealthy s'
  Step-IsHealthy s s' stays h = h
  Step-IsHealthy s s' (files k i new) h = h
  Step-IsHealthy s s' (claims k i at is) h = All-put IsInflight k i s.inflights is h
  Step-IsHealthy s s' (returns k i at) h = All-remove IsInflight k s.inflights h
  Step-IsHealthy s s' (delivers k r at) h = All-remove IsInflight k s.inflights h
  Step-IsHealthy s s' (buries k i at) h = All-remove IsInflight k s.inflights h
  Step-IsHealthy s s' (revives k i at) h = h
  Step-IsHealthy s s' (drops k at) h = All-remove IsInflight k s.inflights h

  Steps-IsHealthy : {s s' : Outbox} → Steps c s s' → IsHealthy s → IsHealthy s'
  Steps-IsHealthy (done s) h = h
  Steps-IsHealthy (next {s} {m} {t} x xs) h = Steps-IsHealthy xs (Step-IsHealthy s m x h)

  recover_loop_returns :
      (now : ℕ) (ks : List ℕ) (s : Outbox)
      → IsHealthy s
      → (s' : Outbox) × (recover_loop now ks s ≡ ok s')
  unfolding recover_loop
  recover_loop_returns now [] s h = (s, refl)
  recover_loop_returns now (k ∷ ks) s h =
      let (m, first) = recover_file_returns now k s h in
      let (s', rest) =
        recover_loop_returns now ks m
          (Step-IsHealthy s m (recover_file-Step c now k s m first) h) in
      (s', rw (first, rest))

  recover_stale_returns :
      (delivery_id_for : Event → ℕ) (calls : List (Call × ℕ)) (s : Outbox) (now : ℕ)
      → run delivery_id_for c calls empty_outbox ≡ ok s
      → (s' : Outbox) × (recover_stale now s ≡ ok s')
  unfolding recover_stale
  recover_stale_returns delivery_id_for calls s now h =
      recover_loop_returns now (names s.inflights) s
        (Steps-IsHealthy (run-Steps delivery_id_for c calls empty_outbox s h) tt)

  -- After calls that succeed, from an empty outbox, no claim stands in the way of a recovery: it
  -- ends in an outbox, `enqueue` does not throw, whatever the alert and the time, and `health` does
  -- not report `unavailable` but what it counts in the recovered outbox.
  pub run_returns :
      (delivery_id_for : Event → ℕ) (calls : List (Call × ℕ)) (s : Outbox) (e : Event) (now : ℕ)
      → run delivery_id_for c calls empty_outbox ≡ ok s
      → (s' : Outbox) × (recover_stale now s ≡ ok s')
        × (health now s ≡ available (counts s'))
        × ((r : Outbox × Enqueued) × (enqueue delivery_id_for e now s ≡ ok r))
  unfolding enqueue health
  run_returns delivery_id_for calls s e now h =
      let recovered = recover_stale_returns delivery_id_for calls s now h in
      (
        recovered.0,
        recovered.1,
        rw (recovered.1, health) refl,
        chain_returns (recover_stale now s) _ recovered (λ m. (_, refl)),
      )
