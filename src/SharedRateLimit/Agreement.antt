-- ===== src/SharedRateLimit/Agreement.antt =====
-- security/sharedRateLimiter.js against security/rateLimiter.js: when a directory of bucket files and a
-- map of buckets hold the same, and that counting a request keeps it so.
use basitclaw.Common.{
  ℕ, ◌+◌, ◌*◌, ◌≤◌, ◌<◌, ◌≡◌, refl, sym, ◌∙◌, String, true, false, Option, none, some, List, ok,
  arith, ◌==◌, str_eq, eq_iff, eq_refl, if◌then◌else◌, Bool-cases, Option-cases, inl, inr,
}
use basitclaw.RateLimit.{
  PolicyName, burst, auth_failure, read, write, sensitive, Policies, policy_of, policies_ok, Bucket,
  Config, window_of, longest_window, lookup, insert, counted, decide,
}
use basitclaw.RateLimit.Buckets.{lookup-insert, lookup-key, window_bounds}
use basitclaw.RateLimit.Window.{policies_ok-window}
use basitclaw.SharedRateLimit.{
  Stored, File, Settings, same_policy, find_file, put_file, is_fresh, prune_expired, read_bucket,
  next_bucket, update_bucket,
}
use basitclaw.SharedRateLimit.Files.{
  IsDistinct, find_file-put_file, find_file-filter, IsDistinct-filter, IsDistinct-put_file,
}

same_policy_refl : (n : PolicyName) → same_policy n n ≡ true
same_policy_refl burst = refl
same_policy_refl auth_failure = refl
same_policy_refl read = refl
same_policy_refl write = refl
same_policy_refl sensitive = refl

window-le-longest : (p : Policies) (n : PolicyName) → (policy_of p n).window_ms ≤ longest_window p
window-le-longest p burst = omega arith
window-le-longest p auth_failure = omega arith
window-le-longest p read = omega arith
window-le-longest p write = omega arith
window-le-longest p sensitive = omega arith

-- The limiter in memory that has the same policies.
abbrev pub in_memory : Settings → ℕ → Config
in_memory c bucket_limit = record {
  policies = c.policies;
  enabled = true;
  bucket_limit = bucket_limit;
}

-- The file that `update_bucket` writes, from the bucket as the limiter in memory counts on.
abbrev pub written :
    (PolicyName → String → String) → Config → PolicyName → String → ℕ → List Bucket → File
written bucket_key m name identity now buckets = record {
  name = bucket_key name identity;
  content =
      some (record { policy = name; bucket = counted bucket_key m buckets name identity now });
}

-- `Asked` holds of the policies and identities that are asked about.
module _ (bucket_key : PolicyName → String → String) (c : Settings)
    (Asked : PolicyName → String → Type 0) where
  -- A bucket in memory and the file of its key: they hold the same, or the bucket is so old that the
  -- file has been deleted.
  abbrev pub Agree : String → ℕ → Option Bucket → Option File → Type 0
  Agree k t none none = Unit
  Agree k t none (some f) = ⊥
  Agree k t (some b) none =
      (b.window_start ≤ b.last_seen_at) × (b.last_seen_at + longest_window c.policies * 2 < t)
  Agree k t (some b) (some f) =
      (s : Stored) × (f.content ≡ some s)
      × (s.bucket ≡ b)
      × ((n : PolicyName) (i : String) → Asked n i → bucket_key n i ≡ k → s.policy ≡ n)
      × (b.window_start ≤ b.last_seen_at)
      × (b.last_seen_at ≤ t)

  -- The clock goes on.
  pub Agree-later :
      (k : String) (t u : ℕ) (m : Option Bucket) (f : Option File)
      → t ≤ u
      → Agree k t m f
      → Agree k u m f
  Agree-later k t u none none le a = a
  Agree-later k t u none (some f) le a = a
  Agree-later k t u (some b) none le a = (a.0, omega arith)
  Agree-later k t u (some b) (some f) le (s, e, same, mine, started, seen) =
      (s, e, same, mine, started, omega arith)

  -- A file that is deleted at `t` is old.
  Agree-prune :
      (k : String) (t : ℕ) (m : Option Bucket) (f : Option File)
      → Agree k t m f
      → Agree k t m
          (elim f [ none ↦ none | some x ↦ if is_fresh c.policies t x then some x else none ])
  unfolding is_fresh
  Agree-prune k t none none a = a
  Agree-prune k t none (some f) a = absurd a
  Agree-prune k t (some b) none a = a
  Agree-prune k t (some b) (some f) (s, e, same, mine, started, seen) =
      elim (Bool-cases (is_fresh c.policies t f)) [
        | inl fresh ↦ rw fresh (s, e, same, mine, started, seen)
        | inr old ↦ rw old (started, ground arith)
      ]

  pub record Same (t : ℕ) (buckets : List Bucket) (files : List File) : Type 0 where
    pub distinct : IsDistinct files
    pub agree : (k : String) → Agree k t (lookup k buckets) (find_file k files)

  pub Same-prune :
      (t : ℕ) (buckets : List Bucket) (files : List File)
      → Same t buckets files
      → Same t buckets (prune_expired c.policies t files)
  unfolding prune_expired
  Same-prune t buckets files s = record {
    distinct = IsDistinct-filter (is_fresh c.policies t) files s.distinct;
    agree = λ k.
        rw (find_file-filter k (is_fresh c.policies t) files s.distinct)
          (Agree-prune k t (lookup k buckets) (find_file k files) (s.agree k));
  }

  module _ (bucket_limit : ℕ) (valid : policies_ok c.policies ≡ true)
      (no_collision : (n n' : PolicyName) (i i' : String)
        → Asked n i
        → Asked n' i'
        → bucket_key n i ≡ bucket_key n' i'
        → n ≡ n') where
    abbrev m : Config
    m = in_memory c bucket_limit

    -- The shared limiter reads what it needs to count on as the limiter in memory does.
    read_bucket-counted :
        (name : PolicyName) (identity : String) (now : ℕ) (buckets : List Bucket)
        (o : Option Bucket) (f : Option File)
        → Asked name identity
        → lookup (bucket_key name identity) buckets ≡ o
        → Agree (bucket_key name identity) now o f
        → (e : Option Bucket) × (read_bucket name (bucket_key name identity) f ≡ ok e)
          × (next_bucket c.policies name (bucket_key name identity) now e
              ≡ counted bucket_key m buckets name identity now)
    unfolding read_bucket next_bucket counted
    read_bucket-counted name identity now buckets none none asked found a =
        (none, refl, rw (found, counted))
    read_bucket-counted name identity now buckets none (some f) asked found a = absurd a
    read_bucket-counted name identity now buckets (some b) none asked found a =
        let w = (policy_of c.policies name).window_ms in
        let (_, ends) = window_bounds w now (policies_ok-window c.policies name valid) in
        let short = window-le-longest c.policies name in
        let old : b.window_start < window_of w now = omega arith in
        let other : (b.window_start == window_of w now) ≡ false = ground arith in
        (none, refl, rw (found, counted, other))
    read_bucket-counted name identity now buckets (some b) (some f) asked found
          (s, at, same, mine, started, seen) =
        (
          some b,
          ground (
            arith,
            same_policy_refl name,
            eq_refl (bucket_key name identity),
            mine name identity asked refl,
            lookup-key (bucket_key name identity) buckets b found,
          ),
          rw (found, counted),
        )

    key-counted :
        (name : PolicyName) (identity : String) (now : ℕ) (buckets : List Bucket)
        → let b = counted bucket_key m buckets name identity now in
          (b.key ≡ bucket_key name identity)
          × (b.window_start ≤ b.last_seen_at)
          × (b.last_seen_at ≤ now)
    unfolding counted
    key-counted name identity now buckets =
        let w = (policy_of c.policies name).window_ms in
        let (starts, _) = window_bounds w now (policies_ok-window c.policies name valid) in
        elim (Option-cases (lookup (bucket_key name identity) buckets)) [
          | inl n ↦ rw (n, counted) (refl, starts, omega arith)
          | inr (_, at) ↦ rw (at, counted) (refl, starts, omega arith)
        ]

    pub update_bucket-eq :
        (name : PolicyName) (identity : String) (now : ℕ) (buckets : List Bucket)
        (files : List File)
        → Asked name identity
        → Same now buckets files
        → update_bucket bucket_key c name (bucket_key name identity) now files
          ≡ ok (
            put_file (written bucket_key m name identity now buckets) files,
            decide m name now (counted bucket_key m buckets name identity now),
          )
    unfolding update_bucket decide
    update_bucket-eq name identity now buckets files asked s =
        let k = bucket_key name identity in
        let (e, read_it, same) =
          read_bucket-counted name identity now buckets (lookup k buckets) (find_file k files) asked
            refl (s.agree k) in
        rw (read_it, update_bucket) (rw same refl)

    pub Same-update :
        (name : PolicyName) (identity : String) (now : ℕ) (buckets : List Bucket)
        (files : List File)
        → Asked name identity
        → Same now buckets files
        → Same now
            (insert (counted bucket_key m buckets name identity now) buckets)
            (put_file (written bucket_key m name identity now buckets) files)
    unfolding counted
    Same-update name identity now buckets files asked s =
        let b = counted bucket_key m buckets name identity now in
        let (keyed, started, seen) = key-counted name identity now buckets in
        record {
          distinct =
              IsDistinct-put_file (written bucket_key m name identity now buckets) files s.distinct;
          agree = λ k. elim (Bool-cases (str_eq (bucket_key name identity) k)) [
            | inl mine ↦
                rw
                  (
                    lookup-insert k b buckets,
                    find_file-put_file k (written bucket_key m name identity now buckets) files,
                    keyed,
                    mine,
                  )
                  (
                    record { policy = name; bucket = b },
                    refl,
                    refl,
                    λ n i asked' e.
                        no_collision name n identity i asked asked'
                          ((eq_iff (bucket_key name identity) k).0 mine ∙ sym e),
                    started,
                    seen,
                  )
            | inr other ↦
                rw
                  (
                    lookup-insert k b buckets,
                    find_file-put_file k (written bucket_key m name identity now buckets) files,
                    keyed,
                    other,
                  )
                  (s.agree k)
          ];
        }
