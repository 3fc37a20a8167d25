-- ===== src/Evidence/Tests.antt =====
-- An item under legal hold, and calls that would end it.
use basitclaw.Common.{ℕ, ◌≡◌, refl, String, true, false, Option, none, some, List, [], ◌∷◌, map}
use basitclaw.Common.Text.{trim_text, trim, trim_start, is_space, utf16_length}
use basitclaw.AuditService.{append_text, clean_text, without_angles}
use basitclaw.Evidence.{
  active, Item, Unsigned, Disk, append_event, chain_end, verify_chain, load_index,
}
use basitclaw.Evidence.Turns.{
  Settings, Turn, Upload, Revision, check_upload, checked_text, set_item,
}
use basitclaw.Evidence.Custody.{ingest, add_version, store_content, new_item, revised}
use basitclaw.Evidence.Holds.{
  place_legal_hold, release_legal_hold, save_change, hold_item, release_held, release_item,
}
use basitclaw.Evidence.Disposal.{dispose, disposed_item, purge_files, purge_item}
use basitclaw.Evidence.Calls.{Call, adds_version, places_hold, releases_hold, disposes, run}
use basitclaw.Evidence.Holding.{Keeps}
use basitclaw.Evidence.LegalHold.{run-held}
use basitclaw.Evidence.Intact.{run-verify_chain}

abbrev settings : Settings
settings = record { max_bytes = 4; default_retention_days = 1; event_retention = 100 }

abbrev hash_event : Unsigned → String
hash_event u = u.event_id

abbrev digest : List ℕ → String
digest content = "digest"

abbrev itself : String → String
itself s = s

abbrev at : ℕ → String → Turn
at now event_id = record {
  now = now;
  event_id = event_id;
  purged_event_id = "P";
  works = λ _. true;
}

abbrev upload : Upload
upload = record {
  content = 1 ∷ 2 ∷ [];
  filename = "log.txt";
  media_type = "text/plain";
  description = "log";
  source_type = "uploaded";
  source_system = none;
  collected_at = none;
  retention_until = some 2000;
}

abbrev revision : Revision
revision = record {
  content = 3 ∷ [];
  filename = "log2.txt";
  media_type = "text/plain";
  description = none;
  source_type = none;
  source_system = none;
  collected_at = none;
  retention_until = none;
}

abbrev held_item : Item
held_item = record {
  evidence_id = "EVD-1";
  filename = "log.txt";
  media_type = "text/plain";
  description = "log";
  source_type = "uploaded";
  source_system = none;
  collected_at = 1000;
  ingested_at = 1000;
  ingested_by = "alice";
  retention_until = 2000;
  status = active;
  current_version = 1;
  versions =
      record {
        version = 1;
        sha256 = "digest";
        size_bytes = 2;
        created_at = 1000;
        created_by = "alice";
        filename = "log.txt";
        media_type = "text/plain";
      }
      ∷ [];
  legal_hold = some (record {
    active_hold = true;
    matter_id = "M-1";
    reason = "pending litigation";
    placed_at = 1100;
    placed_by = "bob";
    review_at = none;
    released_at = none;
    released_by = none;
    release_reason = none;
  });
  disposed_at = none;
  disposed_by = none;
  disposition_reason = none;
  purge_pending = false;
}

abbrev held_disk : Disk
held_disk = record {
  index = record {
    items = held_item ∷ [];
    events = [];
    sequence = 0;
    head_hash = none;
    anchor = none;
  };
  files =
      record {
        evidence_id = "EVD-1";
        version = 1;
        content = 1 ∷ 2 ∷ [];
        sha256 = "digest";
        size_bytes = 2;
      }
      ∷ [];
}

abbrev disposal : Call
disposal = disposes "EVD-1" "carol" "DISPOSE EVD-1" "retention has ended" []

abbrev calls : List (Turn × Call)
calls =
    (at 3000 "E1", disposal)
    ∷ (at 3100 "E2", adds_version "EVD-1" "alice" revision)
    ∷ (at 3200 "E3", places_hold "EVD-1" "bob" "another litigation" "M-2" none)
    ∷ []

run-held_example :
    Keeps "EVD-1" held_item held_disk (run settings hash_event digest itself calls held_disk)
run-held_example =
    run-held settings hash_event digest itself "EVD-1" calls held_item held_disk refl refl refl
      (tt, (tt, (tt, tt)))

-- Past its retention the item is still not disposed of, and after the release of its hold it is.
abbrev release : Call
release = releases_hold "EVD-1" "bob" "RELEASE HOLD EVD-1" "litigation has ended"

abbrev statuses : Disk → List (Option ℕ)
statuses disk = map (λ (item : Item). item.disposed_at) disk.index.items

abbrev after : List (Turn × Call) → List (Option ℕ)
after more = statuses (run settings hash_event digest itself more held_disk)

kept_by_hold : after ((at 3000 "E1", disposal) ∷ []) ≡ none ∷ []
unfolding run ingest add_version place_legal_hold release_legal_hold dispose check_upload
    checked_text set_item store_content new_item revised save_change hold_item release_held
    release_item disposed_item purge_files purge_item append_event chain_end verify_chain load_index
    clean_text without_angles trim_text trim trim_start is_space utf16_length append_text
kept_by_hold = refl

gone_without_hold : after ((at 3000 "E1", release) ∷ (at 3100 "E2", disposal) ∷ []) ≡ some 3100 ∷ []
unfolding run ingest add_version place_legal_hold release_legal_hold dispose check_upload
    checked_text set_item store_content new_item revised save_change hold_item release_held
    release_item disposed_item purge_files purge_item append_event chain_end verify_chain load_index
    clean_text without_angles trim_text trim trim_start is_space utf16_length append_text
gone_without_hold = refl

held_index-IsIntact : verify_chain hash_event 100 held_disk.index ≡ true
unfolding verify_chain chain_end
held_index-IsIntact = refl

run-verify_chain_example :
    verify_chain hash_event 100 (run settings hash_event digest itself calls held_disk).index ≡ true
run-verify_chain_example =
    run-verify_chain settings hash_event digest itself calls held_disk held_index-IsIntact
