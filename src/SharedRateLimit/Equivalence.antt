-- ===== src/SharedRateLimit/Equivalence.antt =====
-- security/sharedRateLimiter.js against security/rateLimiter.js: while both have room, the shared limiter
-- decides as the one in memory does.
use basitclaw.Common.{
  ℕ, ◌+◌, ◌-◌, ◌≤◌, ◌≡◌, refl, ap, String, true, false, List, [], ◌∷◌, map, All, Result, ok, arith,
  ltb, leb, length, length-filter-le, Bool-cases, Option-cases, inl, inr,
}
use basitclaw.RateLimit.{
  PolicyName, policies_ok, Bucket, Config, Decision, lookup, insert, counted, decide,
}
use basitclaw.RateLimit
use basitclaw.RateLimit.Buckets.{length-insert}
use basitclaw.RateLimit.Quota.{Request, InOrder}
use basitclaw.SharedRateLimit.{
  File, Settings, Limiter, Error, empty_limiter, find_file, put_file, is_fresh, prune_expired,
  admit, settle, maybe_cleanup, consume,
}
use basitclaw.SharedRateLimit.Files.{length-put_file}
use basitclaw.SharedRateLimit.Agreement.{
  Same, Same-prune, Agree-later, in_memory, written, update_bucket-eq, Same-update,
}

-- What the limiter in memory decides on a sequence of requests,
unfoldable pub memory_decisions :
    (PolicyName → String → String) → Config → List Bucket → List Request → List Decision
memory_decisions bucket_key m buckets [] = []
memory_decisions bucket_key m buckets (r ∷ rs) =
    let (buckets', d) = RateLimit.consume bucket_key m buckets r.name r.identity r.time in
    d ∷ memory_decisions bucket_key m buckets' rs

module _ (bucket_key : PolicyName → String → String) (c : Settings) where
  -- and what the shared one decides.
  unfoldable pub shared_decisions : Limiter → List Request → List (Result Error Decision)
  shared_decisions l [] = []
  shared_decisions l (r ∷ rs) =
      let (l', d) = consume bucket_key c r.name r.identity r.time l in d ∷ shared_decisions l' rs

  module _ (Asked : PolicyName → String → Type 0) (bucket_limit : ℕ)
      (valid : policies_ok c.policies ≡ true)
      (no_collision : (n n' : PolicyName) (i i' : String)
        → Asked n i
        → Asked n' i'
        → bucket_key n i ≡ bucket_key n' i'
        → n ≡ n') where
    abbrev m : Config
    m = in_memory c bucket_limit

    memory_roomy :
        (buckets : List Bucket) (r : Request)
        → length buckets + 1 ≤ bucket_limit
        → let b = counted bucket_key m buckets r.name r.identity r.time in
          RateLimit.consume bucket_key m buckets r.name r.identity r.time
          ≡ (insert b buckets, decide m r.name r.time b)
    unfolding RateLimit.consume
    memory_roomy buckets r room =
        ground
          (arith, length-insert (counted bucket_key m buckets r.name r.identity r.time) buckets)

    -- With room the request is counted in the files as they are, or as the pruning leaves them.
    admit_roomy :
        (buckets : List Bucket) (files : List File) (r : Request)
        → Asked r.name r.identity
        → Same bucket_key c Asked r.time buckets files
        → length files + 1 ≤ c.max_buckets
        → (before : List File) × Same bucket_key c Asked r.time buckets before
          × (length before ≤ length files)
          × (admit bucket_key c r.name (bucket_key r.name r.identity) r.time files ≡ (
            put_file (written bucket_key m r.name r.identity r.time buckets) before,
            ok (decide m r.name r.time (counted bucket_key m buckets r.name r.identity r.time)),
          ))
    unfolding admit prune_expired
    admit_roomy buckets files r asked s room =
        let counts =
          update_bucket-eq bucket_key c Asked bucket_limit valid no_collision r.name r.identity
            r.time buckets in
        elim (Option-cases (find_file (bucket_key r.name r.identity) files)) [
          | inr (f, at) ↦
              (files, s, omega arith, rw (at, admit) (ap (settle files) (counts files asked s)))
          | inl absent ↦
              let fewer = length-filter-le (is_fresh c.policies r.time) files in
              let pruned = Same-prune bucket_key c Asked r.time buckets files s in
              let not_full : leb c.max_buckets (length (prune_expired c.policies r.time files))
                  ≡ false =
                ground arith in
              (
                prune_expired c.policies r.time files,
                pruned,
                fewer,
                rw (absent, admit)
                    (rw not_full (
                      ap (settle (prune_expired c.policies r.time files)) (counts _ asked pruned))),
              )
        ]

    maybe_cleanup-Same :
        (t : ℕ) (buckets : List Bucket) (l : Limiter)
        → Same bucket_key c Asked t buckets l.files
        → Same bucket_key c Asked t buckets (maybe_cleanup bucket_key c t l).files
          × (length (maybe_cleanup bucket_key c t l).files ≤ length l.files)
    unfolding maybe_cleanup prune_expired
    maybe_cleanup-Same t buckets l s =
        elim (Bool-cases (ltb (t - l.last_cleanup_at) c.cleanup_interval_ms)) [
          | inl soon ↦ rw (soon, maybe_cleanup) (s, omega arith)
          | inr due ↦
              rw (due, maybe_cleanup)
                (
                  Same-prune bucket_key c Asked t buckets l.files s,
                  length-filter-le (is_fresh c.policies t) l.files,
                )
        ]

    consume-eq :
        (l : Limiter) (r : Request) (files : List File) (d : Decision)
        → admit bucket_key c r.name (bucket_key r.name r.identity) r.time l.files ≡ (files, ok d)
        → consume bucket_key c r.name r.identity r.time l
          ≡ (maybe_cleanup bucket_key c r.time (record l { files = files }), ok d)
    unfolding consume
    consume-eq l r files d h =
        let left : List File × Result Error Decision → Limiter × Result Error Decision =
          λ x. (maybe_cleanup bucket_key c r.time (record l { files = x.0 }), ok d) in
        rw (h, consume) (ap left h)

    -- One request: the same decision, and what follows is the same and has at most one bucket more.
    Same-consume :
        (buckets : List Bucket) (l : Limiter) (r : Request)
        → Asked r.name r.identity
        → Same bucket_key c Asked r.time buckets l.files
        → length buckets + 1 ≤ bucket_limit
        → length l.files + 1 ≤ c.max_buckets
        → let memory = RateLimit.consume bucket_key m buckets r.name r.identity r.time in
          let shared = consume bucket_key c r.name r.identity r.time l in
          (shared.1 ≡ ok memory.1)
          × Same bucket_key c Asked r.time memory.0 shared.0.files
          × (length memory.0 ≤ length buckets + 1)
          × (length shared.0.files ≤ length l.files + 1)
    Same-consume buckets l r asked s room free =
        let (before, s', fewer, admitted) = admit_roomy buckets l.files r asked s free in
        let b = counted bucket_key m buckets r.name r.identity r.time in
        let f = written bucket_key m r.name r.identity r.time buckets in
        let files : List File = put_file f before in
        let after =
          Same-update bucket_key c Asked bucket_limit valid no_collision r.name r.identity r.time
            buckets before asked s' in
        let (clean, shorter) =
          maybe_cleanup-Same r.time (insert b buckets) (record l { files = files }) after in
        rw (consume-eq l r files (decide m r.name r.time b) admitted, memory_roomy buckets r room)
          (refl, clean, length-insert b buckets, omega (arith, length-put_file f before))

    Same-later :
        (t u : ℕ) (buckets : List Bucket) (files : List File)
        → t ≤ u
        → Same bucket_key c Asked t buckets files
        → Same bucket_key c Asked u buckets files
    Same-later t u buckets files le s = record {
      distinct = s.distinct;
      agree = λ k.
          Agree-later bucket_key c Asked k t u (lookup k buckets) (find_file k files) le
            (s.agree k);
    }

    decisions-Same :
        (t : ℕ) (rs : List Request) (buckets : List Bucket) (l : Limiter)
        → InOrder t rs
        → All (λ (r : Request). Asked r.name r.identity) rs
        → Same bucket_key c Asked t buckets l.files
        → length buckets + length rs ≤ bucket_limit
        → length l.files + length rs ≤ c.max_buckets
        → shared_decisions l rs
          ≡ map (λ (d : Decision). ok d) (memory_decisions bucket_key m buckets rs)
    unfolding memory_decisions shared_decisions
    decisions-Same t [] buckets l h asked s room free = refl
    decisions-Same t (r ∷ rs) buckets l (le, h) asked s room free =
        let (same, s', more, more_files) =
          Same-consume buckets l r asked.0 (Same-later t r.time buckets l.files le s) (omega arith)
            (omega arith) in
        let buckets' = (RateLimit.consume bucket_key m buckets r.name r.identity r.time).0 in
        let l' : Limiter = (consume bucket_key c r.name r.identity r.time l).0 in
        cc (same, decisions-Same r.time rs buckets' l' h asked.1 s' (omega arith) (omega arith))

    -- On any sequence of requests that both limiters have room for, with valid policies, and a clock that
    -- does not go back, if no two policies count what is asked under one key, the shared limiter decides
    -- each request as the limiter in memory with the same policies does, and never throws.
    pub shared_decisions-memory_decisions :
        (rs : List Request)
        → InOrder 0 rs
        → All (λ (r : Request). Asked r.name r.identity) rs
        → length rs ≤ bucket_limit
        → length rs ≤ c.max_buckets
        → shared_decisions empty_limiter rs
          ≡ map (λ (d : Decision). ok d) (memory_decisions bucket_key m [] rs)
    unfolding find_file lookup
    shared_decisions-memory_decisions rs h asked room free =
        decisions-Same 0 rs [] empty_limiter h asked (record { distinct = tt; agree = λ k. tt })
          (omega arith) (omega arith)
