-- ===== src/Backups/Retention.antt =====
-- persistence/backupManager.js, `create`: the newest backups stay, and the new one can be loaded.
use basitclaw.Common.{
  ℕ, ◌≤◌, ◌<◌, ◌≡◌, refl, ap, sym, subst, ◌∙◌, String, true, false, not, none, some, List, [], ◌∷◌,
  arith, str_eq, eq_iff, eq_refl, filter, find, take, drop, head?, ok,
}
use basitclaw.Common.Text.{contains, with_line_end}
use basitclaw.Backups.{
  Envelopes, Kind, Manifest, EnvelopeFile, Directory, Primary, insert_manifest, sort_manifests,
  list_backups, is_manifest, remove, remove_all, prune, next_order, new_manifest, add_backup,
  create, load,
}
use basitclaw.Backups.Listing.{sort_manifests-filter}
use basitclaw.Backups.Deleting.{
  ids, IsDistinct, kept, filter-drop, list_backups-remove_all, contains-drop_behind,
  IsDistinct-take, filter_absent,
}

insert_manifest_first :
    (m : Manifest) (ms : List Manifest)
    → elim (head? ms) [ none ↦ 0 | some x ↦ x.created_order ] < m.created_order
    → insert_manifest m ms ≡ m ∷ ms
unfolding insert_manifest
insert_manifest_first m [] h = refl
insert_manifest_first m (x ∷ ms) h = ground arith

head-lt-next_order :
    (now : ℕ) (d : Directory)
    → elim (head? (sort_manifests d.manifests)) [ none ↦ 0 | some x ↦ x.created_order ]
      < next_order now d
unfolding next_order list_backups
head-lt-next_order now d = omega arith

find-filter_other :
    {A : Type 0} (name : A → String) (id gone : String) (xs : List A)
    → str_eq gone id ≡ false
    → find (λ x. str_eq (name x) id) (filter (λ x. not (str_eq (name x) gone)) xs)
      ≡ find (λ x. str_eq (name x) id) xs
find-filter_other name id gone [] h = refl
find-filter_other name id gone (x ∷ xs) h = ground (
  arith,
  find-filter_other name id gone xs,
  eq_iff (name x) gone,
  eq_iff (name x) id,
  eq_iff gone id,
)

module _ (sha256 : String → String) {Snapshot : Type 0} (store : Envelopes Snapshot) where
  -- A backup that is not among those removed is loaded as before.
  pub load-remove_all :
      (id : String) (gone : List String) (d : Directory)
      → contains id gone ≡ false
      → load sha256 store id (remove_all gone d) ≡ load sha256 store id d
  unfolding remove_all remove load
  load-remove_all id [] d h = refl
  load-remove_all id (g ∷ gone) d h =
      let other : str_eq g id ≡ false = ground arith in
      load-remove_all id gone (remove g d).0 (ground arith)
      ∙ rw
          (
            find-filter_other (λ (m : Manifest). m.backup_id) id g d.manifests other,
            find-filter_other (λ (e : EnvelopeFile). e.id) id g d.envelopes other,
          )
          refl

  module _ (retention : ℕ) (p : Primary) (now : ℕ) (id : String) (kind : Kind) (d : Directory)
      (fresh : contains id (ids (list_backups d)) ≡ false) where
    -- The manifest that `create` writes.
    abbrev m : Manifest
    m = new_manifest sha256 d p now id kind

    list_backups-add_backup : list_backups (add_backup sha256 p m d) ≡ m ∷ list_backups d
    unfolding list_backups add_backup remove sort_manifests new_manifest next_order
    list_backups-add_backup =
        ap (insert_manifest m) (
          sort_manifests-filter (λ x. not (is_manifest id x)) d.manifests
          ∙ filter_absent id (sort_manifests d.manifests) fresh)
        ∙ insert_manifest_first m (sort_manifests d.manifests) (head-lt-next_order now d)

    load-add_backup :
        (s : Snapshot)
        → with_line_end p.serialized ≡ p.serialized
        → store.inspect_encrypted p.serialized ≡ some s
        → load sha256 store id (add_backup sha256 p m d)
          ≡ ok (record { manifest = m; serialized = p.serialized; snapshot = s })
    unfolding load add_backup new_manifest
    load-add_backup s ended inspected =
        rw (eq_refl id, ended, eq_refl (sha256 p.serialized), inspected) refl

    -- Of a backup that is created under an id that the directory does not have: `create` returns its
    -- manifest and the ids of the oldest backups, beyond what is retained; the list is then the new
    -- manifest ahead of the earlier ones, as many as are retained, and without repetition; and the new
    -- backup is loaded as the text of the snapshot that it was made of, if that ends with a line end and
    -- can be inspected.
    pub create-load :
        (s : Snapshot)
        → IsDistinct (list_backups d)
        → 1 ≤ retention
        → with_line_end p.serialized ≡ p.serialized
        → store.inspect_encrypted p.serialized ≡ some s
        → let after = create sha256 retention true (some p) now id kind d in
          (after.1 ≡ ok (m, ids (drop retention (m ∷ list_backups d))))
          × (list_backups after.0 ≡ take retention (m ∷ list_backups d))
          × IsDistinct (list_backups after.0)
          × (load sha256 store id after.0
              ≡ ok (record { manifest = m; serialized = p.serialized; snapshot = s }))
    unfolding create prune new_manifest
    create-load s distinct positive ended inspected =
        let added = add_backup sha256 p m d in
        let all_listed : list_backups added ≡ m ∷ list_backups d = list_backups-add_backup in
        let gone : List String = ids (drop retention (list_backups added)) in
        let stays : contains id gone ≡ false =
          ap (λ (xs : List Manifest). contains id (ids (drop retention xs))) all_listed
          ∙ contains-drop_behind id retention m (list_backups d) positive fresh in
        let listed : list_backups (remove_all gone added) ≡ take retention (m ∷ list_backups d) =
          list_backups-remove_all gone added
          ∙ ap (λ (xs : List Manifest). filter (kept (ids (drop retention xs))) xs) all_listed
          ∙ filter-drop retention (m ∷ list_backups d) (fresh, distinct) in
        (
          ap (λ (xs : List Manifest). ok (m, ids (drop retention xs))) all_listed,
          listed,
          subst IsDistinct (sym listed)
              (IsDistinct-take retention (m ∷ list_backups d) (fresh, distinct)),
          load-remove_all id gone added stays ∙ load-add_backup s ended inspected,
        )
