-- ===== src/SharedRateLimit/Tests.antt =====
-- The shared limiter on requests of two policies, and runs of it at its edges.
use basitclaw.Common.{ℕ, ◌≡◌, refl, String, true, none, List, [], ◌∷◌, map, ok, err, arith, ap}
use Prim.Native.Char.{code}
use basitclaw.RateLimit.{PolicyName, Policies, Decision, policies_ok}
use basitclaw.RateLimit.Quota.{Request}
use basitclaw.SharedRateLimit.{
  Settings, Limiter, empty_limiter, consume, capacity_reached, not_decoded, admit, update_bucket,
  prune_expired, is_fresh, find_file, read_bucket,
}
use basitclaw.SharedRateLimit.Agreement.{in_memory}
use basitclaw.SharedRateLimit.Equivalence.{
  memory_decisions, shared_decisions, shared_decisions-memory_decisions,
}

abbrev policies : Policies
policies = record {
  burst_policy = record { limit = 300; window_ms = 60_000 };
  auth_failure_policy = record { limit = 8; window_ms = 300_000 };
  read_policy = record { limit = 240; window_ms = 60_000 };
  write_policy = record { limit = 60; window_ms = 60_000 };
  sensitive_policy = record { limit = 1; window_ms = 900_000 };
}

abbrev settings : Settings
settings = record { policies = policies; max_buckets = 100; cleanup_interval_ms = 300_000 }

abbrev tagged : PolicyName → String → String
tagged PolicyName.read i = String.◌∷◌ "r" i
tagged _ i = String.◌∷◌ "s" i

-- What the requests below ask for.
abbrev Asked : PolicyName → String → Type 0
Asked PolicyName.read i = i ≡ "ann"
Asked PolicyName.sensitive i = i ≡ "ann"
Asked _ i = ⊥

abbrev head_code : String → ℕ
head_code String.[] = 0
head_code (String.◌∷◌ c s) = code c

no_collision :
    (n n' : PolicyName) (i i' : String)
    → Asked n i
    → Asked n' i'
    → tagged n i ≡ tagged n' i'
    → n ≡ n'
no_collision PolicyName.burst n' i i' a a' e = elim a [ ]
no_collision PolicyName.auth_failure n' i i' a a' e = elim a [ ]
no_collision PolicyName.write n' i i' a a' e = elim a [ ]
no_collision PolicyName.read PolicyName.burst i i' a a' e = elim a' [ ]
no_collision PolicyName.read PolicyName.auth_failure i i' a a' e = elim a' [ ]
no_collision PolicyName.read PolicyName.write i i' a a' e = elim a' [ ]
no_collision PolicyName.sensitive PolicyName.burst i i' a a' e = elim a' [ ]
no_collision PolicyName.sensitive PolicyName.auth_failure i i' a a' e = elim a' [ ]
no_collision PolicyName.sensitive PolicyName.write i i' a a' e = elim a' [ ]
no_collision PolicyName.read PolicyName.read i i' a a' e = refl
no_collision PolicyName.sensitive PolicyName.sensitive i i' a a' e = refl
no_collision PolicyName.read PolicyName.sensitive i i' a a' e =
    absurd (omega (arith, ap head_code e))
no_collision PolicyName.sensitive PolicyName.read i i' a a' e =
    absurd (omega (arith, ap head_code e))

abbrev requests : List Request
requests =
    record { name = PolicyName.sensitive; identity = "ann"; time = 900_001 }
    ∷ record { name = PolicyName.read; identity = "ann"; time = 900_002 }
    ∷ record { name = PolicyName.sensitive; identity = "ann"; time = 9_000_003 }
    ∷ []

policies_are_ok : policies_ok policies ≡ true
unfolding policies_ok
policies_are_ok = refl

shared_decisions-memory_decisions_example :
    shared_decisions tagged settings empty_limiter requests
    ≡ map (λ (d : Decision). ok d) (memory_decisions tagged (in_memory settings 1_000) [] requests)
shared_decisions-memory_decisions_example =
    shared_decisions-memory_decisions tagged settings Asked 1_000 policies_are_ok no_collision
      requests (omega arith) (refl, (refl, (refl, tt))) (omega arith) (omega arith)

-- A file that cannot be decoded refuses its identity and is not deleted.
abbrev broken : Limiter
broken = record { files = record { name = "rann"; content = none } ∷ []; last_cleanup_at = 0 }

broken_refuses :
    consume tagged settings PolicyName.read "ann" 9_000_000 broken ≡ (broken, err not_decoded)
unfolding consume admit update_bucket find_file read_bucket
broken_refuses = refl

-- A directory with no room refuses a new identity.
full_refuses :
    (consume tagged (record settings { max_buckets = 1 }) PolicyName.read "bob" 9_000_000 broken).1
    ≡ err capacity_reached
unfolding consume admit find_file prune_expired is_fresh
full_refuses = refl
