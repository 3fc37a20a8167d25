-- ===== src/RateLimit/Quota.antt =====
-- security/rateLimiter.js, `consume`: no identity gets more than a policy's limit in a window.
use basitclaw.Common.{
  ℕ, ◌+◌, ◌-◌, ◌≤◌, ◌<◌, ◌≡◌, refl, String, true, ◌&&◌, none, some, List, [], ◌∷◌, arith, leb, ◌==◌,
  str_eq, eq_iff, if◌then◌else◌, length, ◌⊎◌, inl, inr, Bool-cases, ==_iff,
}
use basitclaw.RateLimit.{
  Config, PolicyName, Bucket, policy_of, policies_ok, lookup, insert, counted, decide, consume,
  window_of,
}
use basitclaw.RateLimit.Buckets.{lookup-insert, length-insert, window_mono}
use basitclaw.RateLimit.Window.{policies_ok-window, window_start-counted}

pub record Request : Type 0 where
  pub name : PolicyName
  pub identity : String
  pub time : ℕ

-- The clock does not go back: each request is made at `t` or later, and not before the one ahead.
abbrev pub InOrder : ℕ → List Request → Type 0
InOrder t [] = Unit
InOrder t (r ∷ rs) = (t ≤ r.time) × InOrder r.time rs

module _ (bucket_key : PolicyName → String → String) (c : Config) (name : PolicyName)
    (k : String) where
  -- How many requests pass that count under the key `k` in the window that starts at `w`.
  unfoldable pub granted : ℕ → List Bucket → List Request → ℕ
  granted w buckets [] = 0
  granted w buckets (r ∷ rs) =
      let (buckets', d) = consume bucket_key c buckets r.name r.identity r.time in
      let mine =
        str_eq (bucket_key r.name r.identity) k
        && window_of (policy_of c.policies name).window_ms r.time == w in
      (if mine && d.allowed then 1 else 0) + granted w buckets' rs

  -- What the bucket of `k` has counted in the window `w`.
  pub used : ℕ → List Bucket → ℕ
  used w buckets = elim (lookup k buckets) [
    | none ↦ 0
    | some b ↦ if b.window_start == w then b.count else 0
  ]

  module _ (valid : policies_ok c.policies ≡ true) (on : c.enabled ≡ true)
      (no_collision : (n : PolicyName) (i : String) → bucket_key n i ≡ k → n ≡ name) where
    W : ℕ
    W = (policy_of c.policies name).window_ms

    -- Once the window is over nothing is granted in it.
    granted_after :
        (w t : ℕ) (buckets : List Bucket) (rs : List Request)
        → InOrder t rs
        → w < window_of W t
        → granted w buckets rs ≡ 0
    unfolding granted W
    granted_after w t buckets [] h past = refl
    granted_after w t buckets (r ∷ rs) (le, h) past =
        let later : window_of W t ≤ window_of W r.time =
          window_mono W t r.time (policies_ok-window c.policies name valid) le in
        ground (
          arith,
          granted_after w r.time (consume bucket_key c buckets r.name r.identity r.time).0 rs h,
        )

    -- While there is room nothing is evicted.
    consume_roomy :
        (buckets : List Bucket) (r : Request)
        → length buckets + 1 ≤ c.bucket_limit
        → let b = counted bucket_key c buckets r.name r.identity r.time in
          consume bucket_key c buckets r.name r.identity r.time
          ≡ (insert b buckets, decide c r.name r.time b)
    unfolding consume
    consume_roomy buckets r room =
        ground
          (arith, length-insert (counted bucket_key c buckets r.name r.identity r.time) buckets)

    key-counted :
        (buckets : List Bucket) (r : Request)
        → (counted bucket_key c buckets r.name r.identity r.time).key ≡ bucket_key r.name r.identity
    unfolding counted
    key-counted buckets r = ground arith

    count-counted :
        (w : ℕ) (buckets : List Bucket) (r : Request)
        → bucket_key r.name r.identity ≡ k
        → r.name ≡ name
        → window_of W r.time ≡ w
        → (counted bucket_key c buckets r.name r.identity r.time).count ≡ used w buckets + 1
    unfolding counted used W
    count-counted w buckets r e n i = ground arith

    used-insert :
        (w : ℕ) (b : Bucket) (buckets : List Bucket)
        → used w (insert b buckets) ≡ (
            if str_eq b.key k then (if b.window_start == w then b.count else 0) else used w buckets)
    unfolding used
    used-insert w b buckets = ground (arith, lookup-insert k b buckets)

    allowed-decide :
        (n : PolicyName) (now : ℕ) (b : Bucket)
        → (decide c n now b).allowed ≡ leb b.count (policy_of c.policies n).limit
    unfolding decide
    allowed-decide n now b = refl

    -- A window that has counted something is not in the future.
    abbrev Behind : ℕ → ℕ → List Bucket → Type 0
    Behind w t buckets = (used w buckets ≡ 0) ⊎ (w ≤ window_of W t)

    -- The quota from any state: what the window has counted so far is spent.
    granted_le :
        (w t : ℕ) (buckets : List Bucket) (rs : List Request)
        → InOrder t rs
        → length buckets + length rs ≤ c.bucket_limit
        → Behind w t buckets
        → granted w buckets rs ≤ (policy_of c.policies name).limit - used w buckets
    unfolding granted W
    granted_le w t buckets [] h room behind = omega arith
    granted_le w t buckets (r ∷ rs) (le, h) room behind =
        let b = counted bucket_key c buckets r.name r.identity r.time in
        let buckets' = insert b buckets in
        let later : window_of W t ≤ window_of W r.time =
          window_mono W t r.time (policies_ok-window c.policies name valid) le in
        let rest = granted_le w r.time buckets' rs h (omega (arith, length-insert b buckets)) in
        rw (consume_roomy buckets r (omega arith))
          (elim (Bool-cases (str_eq (bucket_key r.name r.identity) k)) [
            | inr other ↦
                let same = used-insert w b buckets in
                let bk = key-counted buckets r in
                let kept : used w buckets' ≡ used w buckets = ground arith in
                let go = rest (ground arith) in ground arith
            | inl mine ↦
                let e = (eq_iff (bucket_key r.name r.identity) k).0 mine in
                let n = no_collision r.name r.identity e in
                let start = window_start-counted bucket_key c buckets r.name r.identity r.time in
                let now_used = used-insert w b buckets in
                let bk = key-counted buckets r in
                elim (Bool-cases (window_of W r.time == w)) [
                  | inl inside ↦
                      let i = (==_iff (window_of W r.time) w).0 inside in
                      let one_more = count-counted w buckets r e n i in
                      let go = rest (inr (omega arith)) in
                      ground (arith, allowed-decide r.name r.time b)
                  | inr outside ↦
                      let none_used : used w buckets' ≡ 0 = ground arith in
                      elim behind [
                        | inl unused ↦ let go = rest (inl none_used) in ground arith
                        | inr past ↦
                            let over = granted_after w r.time buckets' rs h (ground arith) in
                            ground arith
                      ]
                ]
          ])

-- A fresh limiter that is enabled, with valid policies and room for a bucket per request, lets at
-- most the policy's limit of requests pass for one bucket key in one window, whatever other
-- identities and policies ask in between, if the clock does not go back and no other policy's
-- requests share the key.
pub granted-le-limit :
    (bucket_key : PolicyName → String → String) (c : Config) (name : PolicyName) (k : String)
    (w : ℕ) (rs : List Request)
    → policies_ok c.policies ≡ true
    → c.enabled ≡ true
    → ((n : PolicyName) (i : String) → bucket_key n i ≡ k → n ≡ name)
    → InOrder 0 rs
    → length rs ≤ c.bucket_limit
    → granted bucket_key c name k w [] rs ≤ (policy_of c.policies name).limit
granted-le-limit bucket_key c name k w rs valid on no_collision h room =
    let unused : used bucket_key c name k w [] ≡ 0 = unfold used lookup in refl in
    let go =
      granted_le bucket_key c name k valid on no_collision w 0 [] rs h (omega arith) (inl unused) in
    omega arith
