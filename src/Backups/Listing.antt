-- ===== src/Backups/Listing.antt =====
-- persistence/backupManager.js, `list`: manifests by descending order of creation.
use basitclaw.Common.{
  ℕ, ◌≤◌, ◌≡◌, refl, Bool, List, [], ◌∷◌, All, arith, leb, if◌then◌else◌, filter, All-filter, sym,
  Bool-cases, inl, inr,
}
use basitclaw.Backups.{Manifest, insert_manifest, sort_manifests}

abbrev pub IsDescending : List Manifest → Type 0
IsDescending [] = Unit
IsDescending (m ∷ ms) =
    All (λ (x : Manifest). x.created_order ≤ m.created_order) ms × IsDescending ms

All-le :
    (n k : ℕ) (ms : List Manifest)
    → n ≤ k
    → All (λ (x : Manifest). x.created_order ≤ n) ms
    → All (λ (x : Manifest). x.created_order ≤ k) ms
All-le n k [] le h = h
All-le n k (m ∷ ms) le h = (omega arith, All-le n k ms le h.1)

All-insert_manifest :
    (n : ℕ) (m : Manifest) (ms : List Manifest)
    → m.created_order ≤ n
    → All (λ (x : Manifest). x.created_order ≤ n) ms
    → All (λ (x : Manifest). x.created_order ≤ n) (insert_manifest m ms)
unfolding insert_manifest
All-insert_manifest n m [] le h = (le, tt)
All-insert_manifest n m (x ∷ xs) le h = elim (Bool-cases (leb x.created_order m.created_order)) [
  | inl t ↦ rw t (le, h)
  | inr f ↦ rw f (h.0, All-insert_manifest n m xs le h.1)
]

IsDescending-insert_manifest :
    (m : Manifest) (ms : List Manifest) → IsDescending ms → IsDescending (insert_manifest m ms)
unfolding insert_manifest
IsDescending-insert_manifest m [] h = (tt, tt)
IsDescending-insert_manifest m (x ∷ xs) h =
    elim (Bool-cases (leb x.created_order m.created_order)) [
      | inl t ↦
          let le : x.created_order ≤ m.created_order = ground arith in
          rw t ((le, All-le x.created_order m.created_order xs le h.0), h)
      | inr f ↦ rw f (
        All-insert_manifest x.created_order m xs (ground arith) h.0,
        IsDescending-insert_manifest m xs h.1,
      )
    ]

pub IsDescending-sort_manifests : (ms : List Manifest) → IsDescending (sort_manifests ms)
unfolding sort_manifests
IsDescending-sort_manifests [] = tt
IsDescending-sort_manifests (m ∷ ms) =
    IsDescending-insert_manifest m (sort_manifests ms) (IsDescending-sort_manifests ms)

insert_manifest-front :
    (m : Manifest) (ms : List Manifest)
    → All (λ (x : Manifest). x.created_order ≤ m.created_order) ms
    → insert_manifest m ms ≡ m ∷ ms
unfolding insert_manifest
insert_manifest-front m [] h = refl
insert_manifest-front m (x ∷ xs) h = ground (arith, h.0)

filter-insert_manifest :
    (p : Manifest → Bool) (m : Manifest) (ms : List Manifest)
    → IsDescending ms
    → filter p (insert_manifest m ms)
      ≡ (if p m then insert_manifest m (filter p ms) else filter p ms)
unfolding insert_manifest
filter-insert_manifest p m [] h = ground arith
filter-insert_manifest p m (x ∷ xs) h = elim (Bool-cases (leb x.created_order m.created_order)) [
  | inl t ↦
      let le : x.created_order ≤ m.created_order = ground arith in
      let before : All (λ (y : Manifest). y.created_order ≤ m.created_order) (x ∷ xs) =
        (le, All-le x.created_order m.created_order xs le h.0) in
      let front =
        insert_manifest-front m (filter p (x ∷ xs))
          (All-filter (λ (y : Manifest). y.created_order ≤ m.created_order) p (x ∷ xs) before) in
      rw t (elim (Bool-cases (p m)) [ inl yes_m ↦ rw yes_m (sym front) | inr no_m ↦ rw no_m refl ])
  | inr f ↦ ground (arith, filter-insert_manifest p m xs h.1)
]

-- Deleting manifests and listing them can be exchanged.
pub sort_manifests-filter :
    (p : Manifest → Bool) (ms : List Manifest)
    → sort_manifests (filter p ms) ≡ filter p (sort_manifests ms)
unfolding sort_manifests
sort_manifests-filter p [] = refl
sort_manifests-filter p (m ∷ ms) = ground (
  arith,
  sort_manifests-filter p ms,
  filter-insert_manifest p m (sort_manifests ms) (IsDescending-sort_manifests ms),
)
