-- ===== src/RateLimit.antt =====
-- security/rateLimiter.js: a fixed-window limiter over an in-memory map of buckets.
pub mod Buckets
pub mod Window
pub mod Quota
pub mod Address
mod Tests
use basitclaw.Common.{
  ℕ, ◌+◌, ◌-◌, ◌*◌, ◌/◌, ◌%◌, String, Bool, true, false, ◌&&◌, ◌||◌, not, Option, none, some, List,
  [], ◌∷◌, ltb, leb, ◌==◌, if◌then◌else◌, str_eq, length, max,
}

pub data PolicyName : Type 0 where
  burst auth_failure read write sensitive : PolicyName

pub record Policy : Type 0 where
  pub limit : ℕ
  pub window_ms : ℕ

pub record Policies : Type 0 where
  pub burst_policy : Policy
  pub auth_failure_policy : Policy
  pub read_policy : Policy
  pub write_policy : Policy
  pub sensitive_policy : Policy

abbrev pub policy_of : Policies → PolicyName → Policy
policy_of p burst = p.burst_policy
policy_of p auth_failure = p.auth_failure_policy
policy_of p read = p.read_policy
policy_of p write = p.write_policy
policy_of p sensitive = p.sensitive_policy

-- `normaliseInteger` on a whole number.
abbrev pub in_range : ℕ → ℕ → ℕ → Bool
in_range lo hi n = leb lo n && leb n hi

abbrev policy_ok : Policy → Bool
policy_ok p = in_range 1 1_000_000 p.limit && in_range 1000 86_400_000 p.window_ms

-- normalisePolicies: whether the policies are taken.
unfoldable pub policies_ok : Policies → Bool
policies_ok p =
    policy_ok p.burst_policy
    && policy_ok p.auth_failure_policy
    && policy_ok p.read_policy
    && policy_ok p.write_policy
    && policy_ok p.sensitive_policy

-- A bucket of the map, with its key.
pub record Bucket : Type 0 where
  pub key : String
  pub window_start : ℕ
  pub count : ℕ
  pub last_seen_at : ℕ

pub record Config : Type 0 where
  pub policies : Policies
  pub enabled : Bool
  pub bucket_limit : ℕ

pub record Decision : Type 0 where
  pub allowed : Bool
  pub policy : PolicyName
  pub limit : Option ℕ
  pub remaining : Option ℕ
  pub reset_at : ℕ
  pub retry_after_seconds : ℕ

-- The map keeps the order in which keys came in; a key that is set again keeps its place.
unfoldable pub lookup : String → List Bucket → Option Bucket
lookup k [] = none
lookup k (b ∷ bs) = if str_eq b.key k then some b else lookup k bs

unfoldable pub insert : Bucket → List Bucket → List Bucket
insert b [] = b ∷ []
insert b (c ∷ bs) = if str_eq c.key b.key then b ∷ bs else c ∷ insert b bs

unfoldable pub delete : String → List Bucket → List Bucket
delete k [] = []
delete k (b ∷ bs) = if str_eq b.key k then bs else b ∷ delete k bs

-- Math.floor(currentMs / policy.windowMs) * policy.windowMs
abbrev pub window_of : ℕ → ℕ → ℕ
window_of window_ms now = now / window_ms * window_ms

-- Math.ceil(n / 1000)
abbrev pub ceil_seconds : ℕ → ℕ
ceil_seconds n = (n + 999) / 1000

abbrev pub longest_window : Policies → ℕ
longest_window p = max p.burst_policy.window_ms (
    max p.auth_failure_policy.window_ms
      (max p.read_policy.window_ms (max p.write_policy.window_ms p.sensitive_policy.window_ms)))

-- A stable sort by the time a bucket was last seen, oldest first.
insert_by_age : Bucket → List Bucket → List Bucket
insert_by_age b [] = b ∷ []
insert_by_age b (c ∷ bs) =
    if leb b.last_seen_at c.last_seen_at then b ∷ c ∷ bs else c ∷ insert_by_age b bs

pub sort_by_age : List Bucket → List Bucket
unfolding insert_by_age
sort_by_age [] = []
sort_by_age (b ∷ bs) = insert_by_age b (sort_by_age bs)

-- The loop of `pruneBuckets` over the buckets in order of age. `size` is the size of the map, and
-- what remains of the order is what was not deleted. `Math.floor(bucketLimit * 0.9)` is written with
-- integers.
pub prune_loop : ℕ → ℕ → ℕ → List Bucket → List Bucket → List Bucket
unfolding delete
prune_loop bucket_limit longest now [] buckets = buckets
prune_loop bucket_limit longest now (b ∷ order) buckets =
    let rest = prune_loop bucket_limit longest now order (delete b.key buckets) in
    if leb (length buckets) (bucket_limit * 9 / 10) && leb (now - b.last_seen_at) longest
    then buckets
    else rest

unfoldable pub prune_buckets : Config → ℕ → List Bucket → List Bucket
unfolding prune_loop sort_by_age
prune_buckets c now buckets =
    prune_loop c.bucket_limit (longest_window c.policies) now (sort_by_age buckets) buckets

unfoldable pub decide : Config → PolicyName → ℕ → Bucket → Decision
decide c name now b =
    let p = policy_of c.policies name in
    let reset = b.window_start + p.window_ms in
    record {
      allowed = leb b.count p.limit;
      policy = name;
      limit = some p.limit;
      remaining = some (p.limit - b.count);
      reset_at = reset;
      retry_after_seconds = max 1 (ceil_seconds (reset - now));
    }

-- The key under which a policy counts an identity: SHA-256 over `<policy>:<identity>`.
module _ (bucket_key : PolicyName → String → String) where
  -- The bucket as `consume` leaves it.
  unfoldable pub counted : Config → List Bucket → PolicyName → String → ℕ → Bucket
  unfolding lookup
  counted c buckets name identity now =
      let k = bucket_key name identity in
      let start = window_of (policy_of c.policies name).window_ms now in
      elim (lookup k buckets) [
        | none ↦ record { key = k; window_start = start; count = 1; last_seen_at = now }
        | some b ↦ record {
          key = k;
          window_start = start;
          count = if b.window_start == start then b.count + 1 else 1;
          last_seen_at = now;
        }
      ]

  unfoldable pub consume : Config → List Bucket → PolicyName → String → ℕ → List Bucket × Decision
  consume c buckets name identity now =
      let b = counted c buckets name identity now in
      let buckets' = insert b buckets in
      if c.enabled
      then (
        if ltb c.bucket_limit (length buckets') then prune_buckets c now buckets' else buckets',
        decide c name now b,
      )
      else (
        buckets,
        record {
          allowed = true;
          policy = name;
          limit = none;
          remaining = none;
          reset_at = now;
          retry_after_seconds = 0;
        },
      )
