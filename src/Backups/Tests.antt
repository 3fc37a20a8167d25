-- ===== src/Backups/Tests.antt =====
-- Backups of one tenant with room for two, and the edges of `create` and `load`.
use basitclaw.Common.{◌≡◌, refl, String, true, false, some, [], ◌∷◌, drop, take, ok, err, arith}
use basitclaw.Common.Text.{contains, with_line_end}
use basitclaw.Backups.{
  Envelopes, Manifest, Directory, Primary, empty_directory, manual, scheduled, create, load,
  list_backups, new_manifest, next_order, add_backup, prune, remove, write_failed,
  checksum_mismatch,
}
use basitclaw.Backups.Deleting.{ids, IsDistinct}
use basitclaw.Backups.Retention.{create-load}

-- Envelopes in the clear.
abbrev plain : Envelopes String
plain = record { serialize = λ t. t; inspect_encrypted = λ t. some t }

abbrev itself : String → String
itself t = t

abbrev snapshot_of : String → Primary
snapshot_of t = record { serialized = t; written_at = 5; key_id = "k1" }

abbrev first : Manifest
first = new_manifest itself empty_directory (snapshot_of "one\n") 10 "BAK-1" manual

abbrev one_backup : Directory
one_backup = (create itself 2 true (some (snapshot_of "one\n")) 10 "BAK-1" manual empty_directory).0

-- In the same millisecond.
abbrev two_backups : Directory
two_backups = (create itself 2 true (some (snapshot_of "two\n")) 10 "BAK-2" scheduled one_backup).0

listed_newest_first : ids (list_backups two_backups) ≡ "BAK-2" ∷ "BAK-1" ∷ []
unfolding create prune add_backup remove list_backups new_manifest next_order
listed_newest_first = refl

two_backups-IsDistinct : IsDistinct (list_backups two_backups)
unfolding create prune add_backup remove list_backups new_manifest next_order
two_backups-IsDistinct = (refl, (refl, tt))

third_is_fresh : contains "BAK-3" (ids (list_backups two_backups)) ≡ false
unfolding create prune add_backup remove list_backups new_manifest next_order
third_is_fresh = refl

ends_once : with_line_end "three\n" ≡ "three\n"
unfolding with_line_end
ends_once = refl

create-load_example :
    let p = snapshot_of "three\n" in
    let m = new_manifest itself two_backups p 20 "BAK-3" manual in
    let after = create itself 2 true (some p) 20 "BAK-3" manual two_backups in
    (after.1 ≡ ok (m, ids (drop 2 (m ∷ list_backups two_backups))))
    × (list_backups after.0 ≡ take 2 (m ∷ list_backups two_backups))
    × IsDistinct (list_backups after.0)
    × (load itself plain "BAK-3" after.0
        ≡ ok (record { manifest = m; serialized = "three\n"; snapshot = "three\n" }))
create-load_example =
    create-load itself plain 2 (snapshot_of "three\n") 20 "BAK-3" manual two_backups third_is_fresh
      "three\n" two_backups-IsDistinct (omega arith) ends_once refl

not_written :
    create itself 2 false (some (snapshot_of "two\n")) 10 "BAK-2" manual one_backup
    ≡ (one_backup, err write_failed)
unfolding create prune add_backup remove list_backups new_manifest next_order
not_written = refl

-- A text that does not end with one line end is stored with one, and its checksum no longer fits.
no_line_end :
    load itself plain "BAK-1"
      (create itself 2 true (some (snapshot_of "one")) 10 "BAK-1" manual empty_directory).0
    ≡ err checksum_mismatch
unfolding create prune add_backup remove list_backups new_manifest next_order load with_line_end
no_line_end = refl
