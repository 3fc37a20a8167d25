-- ===== src/RateLimit/Tests.antt =====
-- The theorems of the limiter at concrete requests, and runs of it.
use basitclaw.Common.{
  ℕ, ◌+◌, ◌≤◌, ◌<◌, ◌≡◌, refl, String, true, false, none, some, List, [], ◌∷◌, ◌++◌, ok, arith, ◌*◌,
  ap,
}
use Prim.Native.Char.{code}
use basitclaw.Common.Text.{codes}
use basitclaw.RateLimit.{
  PolicyName, Policies, Config, Bucket, consume, counted, decide, insert, lookup, policies_ok,
  prune_buckets,
}
use basitclaw.RateLimit.Window.{consume_bounds}
use basitclaw.RateLimit.Quota.{Request, granted, granted-le-limit}
use basitclaw.RateLimit.Address.{
  unknown, forwarded_addresses, resolve_client_address, classify_request,
}
use basitclaw.RateLimit.Address.Spoofing.{
  resolve_client_address_unspoofed, resolve_client_address_no_header,
}

-- DEFAULT_POLICIES
abbrev default_policies : Policies
default_policies = record {
  burst_policy = record { limit = 300; window_ms = 60_000 };
  auth_failure_policy = record { limit = 8; window_ms = 300_000 };
  read_policy = record { limit = 240; window_ms = 60_000 };
  write_policy = record { limit = 60; window_ms = 60_000 };
  sensitive_policy = record { limit = 1; window_ms = 900_000 };
}

abbrev config : Config
config = record { policies = default_policies; enabled = true; bucket_limit = 100 }

abbrev tagged : PolicyName → String → String
tagged PolicyName.burst i = String.◌∷◌ "b" i
tagged PolicyName.auth_failure i = String.◌∷◌ "a" i
tagged PolicyName.read i = String.◌∷◌ "r" i
tagged PolicyName.write i = String.◌∷◌ "w" i
tagged PolicyName.sensitive i = String.◌∷◌ "s" i

abbrev three_requests : List Request
three_requests =
    record { name = PolicyName.sensitive; identity = "ann"; time = 900_001 }
    ∷ record { name = PolicyName.read; identity = "ann"; time = 900_002 }
    ∷ record { name = PolicyName.sensitive; identity = "ann"; time = 900_003 }
    ∷ []

one_of_two_granted :
    granted tagged config PolicyName.sensitive
      (tagged PolicyName.sensitive "ann")
      900_000
      []
      three_requests
    ≡ 1
unfolding granted consume counted decide insert lookup
one_of_two_granted = refl

default_policies_ok : policies_ok default_policies ≡ true
unfolding policies_ok
default_policies_ok = refl

abbrev head_code : String → ℕ
head_code String.[] = 0
head_code (String.◌∷◌ c s) = code c

no_collision :
    (n : PolicyName) (i : String)
    → tagged n i ≡ tagged PolicyName.sensitive "ann"
    → n ≡ PolicyName.sensitive
no_collision PolicyName.burst i e = absurd (omega (arith, ap head_code e))
no_collision PolicyName.auth_failure i e = absurd (omega (arith, ap head_code e))
no_collision PolicyName.read i e = absurd (omega (arith, ap head_code e))
no_collision PolicyName.write i e = absurd (omega (arith, ap head_code e))
no_collision PolicyName.sensitive i e = refl

granted-le-limit_example :
    granted tagged config PolicyName.sensitive
      (tagged PolicyName.sensitive "ann")
      900_000
      []
      three_requests
    ≤ 1
granted-le-limit_example =
    granted-le-limit tagged config PolicyName.sensitive (tagged PolicyName.sensitive "ann") 900_000
      three_requests default_policies_ok refl no_collision (omega arith) (omega arith)

consume_bounds_example :
    let d = (consume tagged config [] PolicyName.read "ann" 61_500).1 in
    (61_500 < d.reset_at)
    × (d.reset_at ≤ 61_500 + 60_000)
    × (1 ≤ d.retry_after_seconds)
    × (d.reset_at ≤ 61_500 + d.retry_after_seconds * 1000)
    × (d.allowed ≡ false → d.remaining ≡ some 0)
consume_bounds_example =
    consume_bounds tagged config [] PolicyName.read "ann" 61_500 default_policies_ok refl

resolve_client_address_unspoofed_example :
    resolve_client_address
      (some (codes "1.1.1.1" ++ b',' ∷ codes " 2.2.2.2"))
      (some (codes "::ffff:10.0.0.1"))
      1
    ≡ resolve_client_address (some (codes " 2.2.2.2")) (some (codes "::ffff:10.0.0.1")) 1
unfolding forwarded_addresses
resolve_client_address_unspoofed_example =
    resolve_client_address_unspoofed (codes "1.1.1.1") (codes " 2.2.2.2")
      (some (codes "::ffff:10.0.0.1")) 1 (omega arith)

one_hop :
    resolve_client_address (some (codes "1.1.1.1, 2.2.2.2")) (some (codes "::ffff:10.0.0.1")) 1
    ≡ ok (codes "2.2.2.2")
unfolding resolve_client_address forwarded_addresses
one_hop = refl

resolve_client_address_no_header_example :
    resolve_client_address none (some (codes "10.0.0.7")) 1 ≡ ok unknown
resolve_client_address_no_header_example =
    resolve_client_address_no_header (some (codes "10.0.0.7")) 1 (omega arith) (omega arith)

restore_is_sensitive :
    classify_request (codes "post") (codes "/backups/b1/restore") ≡ PolicyName.sensitive
unfolding classify_request
restore_is_sensitive = refl

abbrev old_bucket : Bucket
old_bucket = record { key = "old"; window_start = 0; count = 3; last_seen_at = 5 }

prune_oldest :
    prune_buckets config 900_010 (
      record { key = "new"; window_start = 900_000; count = 1; last_seen_at = 900_009 }
      ∷ old_bucket
      ∷ [])
    ≡ record { key = "new"; window_start = 900_000; count = 1; last_seen_at = 900_009 } ∷ []
unfolding prune_buckets
prune_oldest = refl
