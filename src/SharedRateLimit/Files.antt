-- ===== src/SharedRateLimit/Files.antt =====
-- security/sharedRateLimiter.js: laws of the directory of bucket files, in which names do not repeat.
use basitclaw.Common.{
  ◌+◌, ◌≤◌, ◌≡◌, refl, String, Bool, none, some, List, [], ◌∷◌, arith, str_eq, eq_iff,
  if◌then◌else◌, length, filter,
}
use basitclaw.SharedRateLimit.{File, find_file, put_file}

abbrev pub IsDistinct : List File → Type 0
IsDistinct [] = Unit
IsDistinct (f ∷ fs) = (find_file f.name fs ≡ none) × IsDistinct fs

pub find_file-put_file :
    (k : String) (f : File) (fs : List File)
    → find_file k (put_file f fs) ≡ (if str_eq f.name k then some f else find_file k fs)
unfolding find_file put_file
find_file-put_file k f [] = refl
find_file-put_file k f (g ∷ fs) =
    ground
      (arith, find_file-put_file k f fs, eq_iff f.name k, eq_iff g.name f.name, eq_iff g.name k)

pub length-put_file : (f : File) (fs : List File) → length (put_file f fs) ≤ length fs + 1
unfolding put_file
length-put_file f [] = omega arith
length-put_file f (g ∷ fs) = ground (arith, length-put_file f fs)

find_file-filter-none :
    (k : String) (p : File → Bool) (fs : List File)
    → find_file k fs ≡ none
    → find_file k (filter p fs) ≡ none
unfolding find_file
find_file-filter-none k p [] h = refl
find_file-filter-none k p (f ∷ fs) h = ground (arith, find_file-filter-none k p fs)

-- What a file is found to be after a deletion.
pub find_file-filter :
    (k : String) (p : File → Bool) (fs : List File)
    → IsDistinct fs
    → find_file k (filter p fs)
      ≡ elim (find_file k fs) [ none ↦ none | some f ↦ if p f then some f else none ]
unfolding find_file
find_file-filter k p [] d = refl
find_file-filter k p (f ∷ fs) d =
    ground (arith, find_file-filter k p fs, find_file-filter-none k p fs, eq_iff f.name k)

pub IsDistinct-filter :
    (p : File → Bool) (fs : List File) → IsDistinct fs → IsDistinct (filter p fs)
IsDistinct-filter p [] d = d
IsDistinct-filter p (f ∷ fs) d =
    ground (arith, IsDistinct-filter p fs d.1, find_file-filter-none f.name p fs d.0)

pub IsDistinct-put_file : (f : File) (fs : List File) → IsDistinct fs → IsDistinct (put_file f fs)
unfolding put_file find_file
IsDistinct-put_file f [] d = (refl, tt)
IsDistinct-put_file f (g ∷ fs) d = ground (
  arith,
  IsDistinct-put_file f fs d.1,
  find_file-put_file g.name f fs,
  eq_iff g.name f.name,
  eq_iff f.name g.name,
)
