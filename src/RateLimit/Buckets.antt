-- ===== src/RateLimit/Buckets.antt =====
-- security/rateLimiter.js: laws of the map of buckets and of the windows.
use native.Mathlib.Nat.{le-div_iff_mul-le, div-mul-le_self, mul-le-mul_right, lt-div-mul-add}
use basitclaw.Common.{
  ℕ, ◌+◌, ◌≤◌, ◌<◌, ◌≡◌, refl, String, some, List, [], ◌∷◌, arith, str_eq, eq_iff, if◌then◌else◌,
  length,
}
use basitclaw.RateLimit.{Bucket, lookup, insert, delete, window_of}

pub lookup-insert :
    (k : String) (b : Bucket) (bs : List Bucket)
    → lookup k (insert b bs) ≡ (if str_eq b.key k then some b else lookup k bs)
unfolding lookup insert
lookup-insert k b [] = refl
lookup-insert k b (c ∷ bs) =
    ground (arith, lookup-insert k b bs, eq_iff b.key k, eq_iff c.key b.key, eq_iff c.key k)

pub lookup-key : (k : String) (bs : List Bucket) (b : Bucket) → lookup k bs ≡ some b → b.key ≡ k
unfolding lookup
lookup-key k [] b h = ground arith
lookup-key k (c ∷ bs) b h = ground (arith, lookup-key k bs b, eq_iff c.key k)

pub length-insert : (b : Bucket) (bs : List Bucket) → length (insert b bs) ≤ length bs + 1
unfolding insert
length-insert b [] = omega arith
length-insert b (c ∷ bs) = ground (arith, length-insert b bs)

pub length-delete-le : (k : String) (bs : List Bucket) → length (delete k bs) ≤ length bs
unfolding delete
length-delete-le k [] = omega arith
length-delete-le k (c ∷ bs) = ground (arith, length-delete-le k bs)

pub length-delete :
    (k : String) (bs : List Bucket) (b : Bucket)
    → lookup k bs ≡ some b
    → length (delete k bs) + 1 ≡ length bs
unfolding lookup delete
length-delete k [] b h = ground arith
length-delete k (c ∷ bs) b h = ground (arith, length-delete k bs b)

-- A time lies in its window, and windows come in the order of time.
pub window_bounds : (w now : ℕ) → 0 < w → (window_of w now ≤ now) × (now < window_of w now + w)
window_bounds w now h = (div-mul-le_self now w, lt-div-mul-add h)

pub window_mono : (w a b : ℕ) → 0 < w → a ≤ b → window_of w a ≤ window_of w b
window_mono w a b h le =
    mul-le-mul_right w ((le-div_iff_mul-le h).1 (omega (arith, div-mul-le_self a w)))
