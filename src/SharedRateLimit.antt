-- ===== src/SharedRateLimit.antt =====
-- security/sharedRateLimiter.js: the fixed-window limiter over a directory of bucket files that all
-- processes share. A call of `consume` runs under its locks and is one step here. The policies, the
-- buckets and the decisions are those of RateLimit.
pub mod Files
pub mod Agreement
pub mod Equivalence
mod Tests
use basitclaw.Common.{
  ℕ, ◌+◌, ◌-◌, ◌*◌, String, Bool, true, false, ◌&&◌, not, Option, none, some, List, [], ◌∷◌, Result,
  ok, err, ltb, leb, ◌==◌, if◌then◌else◌, str_eq, length, filter,
}
use basitclaw.RateLimit.{
  PolicyName, burst, auth_failure, read, write, sensitive, Policies, Policy, policy_of, Bucket,
  Config, Decision, window_of, longest_window, decide,
}

-- What a bucket file holds: the policy that counts, and the bucket, whose key is the identity's hash.
pub record Stored : Type 0 where
  pub policy : PolicyName
  pub bucket : Bucket

-- A file of the directory by its name, with no content where it cannot be decoded.
pub record File : Type 0 where
  pub name : String
  pub content : Option Stored

pub record Settings : Type 0 where
  pub policies : Policies
  pub max_buckets : ℕ
  pub cleanup_interval_ms : ℕ

pub record Limiter : Type 0 where
  pub files : List File
  pub last_cleanup_at : ℕ

pub data Error : Type 0 where
  capacity_reached not_decoded not_valid : Error

abbrev pub empty_limiter : Limiter
empty_limiter = record { files = []; last_cleanup_at = 0 }

abbrev pub same_policy : PolicyName → PolicyName → Bool
same_policy burst burst = true
same_policy auth_failure auth_failure = true
same_policy read read = true
same_policy write write = true
same_policy sensitive sensitive = true
same_policy _ _ = false

unfoldable pub find_file : String → List File → Option File
find_file k [] = none
find_file k (f ∷ fs) = if str_eq f.name k then some f else find_file k fs

-- atomicWriteJson
unfoldable pub put_file : File → List File → List File
put_file f [] = f ∷ []
put_file f (g ∷ fs) = if str_eq g.name f.name then f ∷ fs else g ∷ put_file f fs

-- A bucket that was last seen more than two of the longest windows ago. A file that cannot be decoded
-- is kept.
unfoldable pub is_fresh : Policies → ℕ → File → Bool
is_fresh p now f = elim f.content [
  | none ↦ true
  | some s ↦ not (ltb (longest_window p * 2) (now - s.bucket.last_seen_at))
]

unfoldable pub prune_expired : Policies → ℕ → List File → List File
prune_expired p now = filter (is_fresh p now)

unfoldable pub read_bucket : PolicyName → String → Option File → Result Error (Option Bucket)
read_bucket name k none = ok none
read_bucket name k (some f) = elim f.content [
  | none ↦ err not_decoded
  | some s ↦
      if same_policy s.policy name && str_eq s.bucket.key k
      then ok (some s.bucket)
      else err not_valid
]

-- The bucket that follows the one that was read.
unfoldable pub next_bucket : Policies → PolicyName → String → ℕ → Option Bucket → Bucket
next_bucket p name k now existing =
    let start = window_of (policy_of p name).window_ms now in
    record {
      key = k;
      window_start = start;
      count = elim existing [
        | none ↦ 1
        | some b ↦ if b.window_start == start then b.count + 1 else 1
      ];
      last_seen_at = now;
    }

abbrev as_config : Settings → Config
as_config c = record { policies = c.policies; enabled = true; bucket_limit = c.max_buckets }

-- The files that are left, and the outcome.
abbrev pub settle :
    List File → Result Error (List File × Decision) → List File × Result Error Decision
settle before (err e) = (before, err e)
settle before (ok (after, d)) = (after, ok d)

module _ (bucket_key : PolicyName → String → String) (c : Settings) where
  -- updateBucket
  unfoldable pub update_bucket :
      PolicyName → String → ℕ → List File → Result Error (List File × Decision)
  unfolding find_file
  update_bucket name k now files = elim (read_bucket name k (find_file k files)) [
    | err e ↦ err e
    | ok existing ↦
        let b = next_bucket c.policies name k now existing in
        ok (
          put_file (record { name = k; content = some (record { policy = name; bucket = b }) })
              files,
          decide (as_config c) name now b,
        )
  ]

  -- An identity that has no file yet is counted if the directory has room when it is pruned. The files
  -- that are there after a throw come with it.
  unfoldable pub admit : PolicyName → String → ℕ → List File → List File × Result Error Decision
  unfolding find_file
  admit name k now files = elim (find_file k files) [
    | some _ ↦ settle files (update_bucket name k now files)
    | none ↦
        let pruned = prune_expired c.policies now files in
        if leb c.max_buckets (length pruned)
        then (pruned, err capacity_reached)
        else settle pruned (update_bucket name k now pruned)
  ]

  -- maybeCleanup
  unfoldable pub maybe_cleanup : ℕ → Limiter → Limiter
  maybe_cleanup now l =
      if ltb (now - l.last_cleanup_at) c.cleanup_interval_ms
      then l
      else record { files = prune_expired c.policies now l.files; last_cleanup_at = now }

  unfoldable pub consume : PolicyName → String → ℕ → Limiter → Limiter × Result Error Decision
  consume name identity now l =
      let (files, outcome) = admit name (bucket_key name identity) now l.files in
      let l' = record l { files = files } in
      (elim outcome [ ok _ ↦ maybe_cleanup now l' | err _ ↦ l' ], outcome)
