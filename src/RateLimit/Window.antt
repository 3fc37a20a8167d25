-- ===== src/RateLimit/Window.antt =====
-- security/rateLimiter.js, `consume`: how many requests of one identity pass in one window.
use basitclaw.Common.{ℕ, ◌+◌, ◌*◌, ◌≤◌, ◌<◌, ◌≡◌, String, true, false, some, List, arith}
use basitclaw.RateLimit.{
  Config, Policies, PolicyName, Bucket, policy_of, policies_ok, counted, decide, consume, window_of,
}
use basitclaw.RateLimit.Buckets.{window_bounds}

pub policies_ok-window :
    (p : Policies) (name : PolicyName) → policies_ok p ≡ true → 0 < (policy_of p name).window_ms
unfolding policies_ok
policies_ok-window p PolicyName.burst h = ground arith
policies_ok-window p PolicyName.auth_failure h = ground arith
policies_ok-window p PolicyName.read h = ground arith
policies_ok-window p PolicyName.write h = ground arith
policies_ok-window p PolicyName.sensitive h = ground arith

module _ (bucket_key : PolicyName → String → String) (c : Config) where
  pub window_start-counted :
      (buckets : List Bucket) (name : PolicyName) (identity : String) (now : ℕ)
      → (counted bucket_key c buckets name identity now).window_start
        ≡ window_of (policy_of c.policies name).window_ms now
  unfolding counted
  window_start-counted buckets name identity now = ground arith

  -- With valid policies and the limiter enabled, a decision resets after the present moment and at
  -- most one window later; the announced wait is at least a second, and no shorter than the time
  -- until the reset; and a request that is refused has nothing remaining.
  pub consume_bounds :
      (buckets : List Bucket) (name : PolicyName) (identity : String) (now : ℕ)
      → policies_ok c.policies ≡ true
      → c.enabled ≡ true
      → let d = (consume bucket_key c buckets name identity now).1 in
        (now < d.reset_at)
        × (d.reset_at ≤ now + (policy_of c.policies name).window_ms)
        × (1 ≤ d.retry_after_seconds)
        × (d.reset_at ≤ now + d.retry_after_seconds * 1000)
        × (d.allowed ≡ false → d.remaining ≡ some 0)
  unfolding consume decide
  consume_bounds buckets name identity now valid on =
      let positive = policies_ok-window c.policies name valid in
      let bounds = window_bounds (policy_of c.policies name).window_ms now positive in
      ground (arith, window_start-counted buckets name identity now)
