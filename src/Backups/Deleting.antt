-- ===== src/Backups/Deleting.antt =====
-- persistence/backupManager.js, `remove` and `prune`: what deleting by ids leaves in the list of backups.
use basitclaw.Common.{
  ℕ, ◌-◌, suc, zero, ◌≤◌, ◌≡◌, refl, ap, sym, ◌∙◌, String, Bool, true, false, not, List, [], ◌∷◌,
  map, All, arith, eq_iff, eq_refl, filter, take, drop,
}
use basitclaw.Common.Text.{contains}
use basitclaw.Backups.{
  Manifest, Directory, sort_manifests, list_backups, is_manifest, remove, remove_all,
}
use basitclaw.Backups.Listing.{sort_manifests-filter}

abbrev pub ids : List Manifest → List String
ids = map (λ (m : Manifest). m.backup_id)

abbrev pub IsDistinct : List Manifest → Type 0
IsDistinct [] = Unit
IsDistinct (m ∷ ms) = (contains m.backup_id (ids ms) ≡ false) × IsDistinct ms

-- Deleting by a list of ids.
abbrev pub kept : List String → Manifest → Bool
kept gone m = not (contains m.backup_id gone)

filter-kept_nil : (ms : List Manifest) → filter (kept []) ms ≡ ms
filter-kept_nil [] = refl
filter-kept_nil (m ∷ ms) = ap (λ (xs : List Manifest). m ∷ xs) (filter-kept_nil ms)

filter-kept_cons :
    (id : String) (gone : List String) (ms : List Manifest)
    → filter (kept gone) (filter (λ m. not (is_manifest id m)) ms) ≡ filter (kept (id ∷ gone)) ms
filter-kept_cons id gone [] = refl
filter-kept_cons id gone (m ∷ ms) =
    ground (arith, filter-kept_cons id gone ms, eq_iff id m.backup_id, eq_iff m.backup_id id)

pub list_backups-remove_all :
    (gone : List String) (d : Directory)
    → list_backups (remove_all gone d) ≡ filter (kept gone) (list_backups d)
unfolding remove_all list_backups remove
list_backups-remove_all [] d = sym (filter-kept_nil (sort_manifests d.manifests))
list_backups-remove_all (id ∷ gone) d =
    list_backups-remove_all gone (remove id d).0
    ∙ ap (filter (kept gone)) (sort_manifests-filter (λ m. not (is_manifest id m)) d.manifests)
    ∙ filter-kept_cons id gone (sort_manifests d.manifests)

abbrev Contained : List String → List Manifest → Type 0
Contained gone = All (λ (m : Manifest). contains m.backup_id gone ≡ true)

Contained-cons :
    (id : String) (gone : List String) (ms : List Manifest)
    → Contained gone ms
    → Contained (id ∷ gone) ms
Contained-cons id gone [] h = h
Contained-cons id gone (m ∷ ms) h = (ground (arith, h.0), Contained-cons id gone ms h.1)

Contained-ids : (ms : List Manifest) → Contained (ids ms) ms
Contained-ids [] = tt
Contained-ids (m ∷ ms) =
    (ground (arith, eq_refl m.backup_id), Contained-cons m.backup_id (ids ms) ms (Contained-ids ms))

filter-Contained :
    (gone : List String) (ms : List Manifest) → Contained gone ms → filter (kept gone) ms ≡ []
filter-Contained gone [] h = refl
filter-Contained gone (m ∷ ms) h = ground (arith, h.0, filter-Contained gone ms h.1)

contains-drop :
    (id : String) (n : ℕ) (ms : List Manifest)
    → contains id (ids ms) ≡ false
    → contains id (ids (drop n ms)) ≡ false
contains-drop id zero ms h = h
contains-drop id (suc n) [] h = h
contains-drop id (suc n) (m ∷ ms) h = contains-drop id n ms (ground arith)

pub contains-drop_behind :
    (id : String) (n : ℕ) (m : Manifest) (ms : List Manifest)
    → 1 ≤ n
    → contains id (ids ms) ≡ false
    → contains id (ids (drop n (m ∷ ms))) ≡ false
contains-drop_behind id zero m ms le h = absurd (omega arith)
contains-drop_behind id (suc n) m ms le h = contains-drop id n ms h

-- In a list without repetition, deleting what stands behind the first `n` leaves the first `n`.
pub filter-drop :
    (n : ℕ) (ms : List Manifest) → IsDistinct ms → filter (kept (ids (drop n ms))) ms ≡ take n ms
filter-drop zero ms h = filter-Contained (ids ms) ms (Contained-ids ms)
filter-drop (suc n) [] h = refl
filter-drop (suc n) (m ∷ ms) h =
    rw (contains-drop m.backup_id n ms h.0)
      (ap (λ (xs : List Manifest). m ∷ xs) (filter-drop n ms h.1))

pub contains-take :
    (id : String) (n : ℕ) (ms : List Manifest)
    → contains id (ids ms) ≡ false
    → contains id (ids (take n ms)) ≡ false
contains-take id zero ms h = refl
contains-take id (suc n) [] h = refl
contains-take id (suc n) (m ∷ ms) h = ground (arith, contains-take id n ms)

pub IsDistinct-take : (n : ℕ) (ms : List Manifest) → IsDistinct ms → IsDistinct (take n ms)
IsDistinct-take zero ms h = tt
IsDistinct-take (suc n) [] h = tt
IsDistinct-take (suc n) (m ∷ ms) h = (contains-take m.backup_id n ms h.0, IsDistinct-take n ms h.1)

pub filter_absent :
    (id : String) (ms : List Manifest)
    → contains id (ids ms) ≡ false
    → filter (λ m. not (is_manifest id m)) ms ≡ ms
filter_absent id [] h = refl
filter_absent id (m ∷ ms) h = ground (arith, filter_absent id ms)

pub list_backups-remove :
    (id : String) (d : Directory)
    → list_backups (remove id d).0 ≡ filter (λ m. not (is_manifest id m)) (list_backups d)
unfolding list_backups remove
list_backups-remove id d = sort_manifests-filter (λ m. not (is_manifest id m)) d.manifests

-- When the newest is removed again, those before it stay, as many as were left beside it.
pub filter-take_newest :
    (n : ℕ) (m : Manifest) (ms : List Manifest)
    → contains m.backup_id (ids ms) ≡ false
    → filter (λ x. not (is_manifest m.backup_id x)) (take n (m ∷ ms)) ≡ take (n - 1) ms
filter-take_newest zero m ms h = refl
filter-take_newest (suc n) m ms h =
    let one_less : n ≡ suc n - 1 = omega arith in
    rw (eq_refl m.backup_id) (
      filter_absent m.backup_id (take n ms) (contains-take m.backup_id n ms h)
      ∙ ap (λ (k : ℕ). take k ms) one_less)
