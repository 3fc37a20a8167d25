-- ===== src/Coordination/Tests.antt =====
-- Leases of two processes, and saves under their fencing tokens.
use basitclaw.Common.{
  ℕ, ◌+◌, ◌≤◌, ◌<◌, ◌≡◌, ◌≢◌, refl, String, false, none, some, [], ◌∷◌, arith, length, ok, err,
}
use basitclaw.AlertOutbox.Files.{put, prune}
use basitclaw.Coordination.{missing, at, Owner, Store, empty_store, lost, Handle}
use basitclaw.Coordination.Lease.{
  is_safe_integer, read_owner, is_expired, is_stale, next_fencing_token, current_owner, acquired,
  taken_over, new_owner, set_up, turn, acquire, assert_valid, heartbeat, prolonged,
}
use basitclaw.Coordination.Setup.{
  World, set_slot, draw_token, write_owner, make_directory, remove_lease, end_beat, makes, removes,
  done, next,
}
use basitclaw.Coordination.Effects.{NotBeating}
use basitclaw.Coordination.Fencing.{superseded_lease}
use basitclaw.Coordination.Waiting.{acquire-ends}
use basitclaw.Coordination.Snapshots.{
  Codec, Package, Versions, rejected, create_package, latest_fencing_token, load, save,
}
use basitclaw.Coordination.Saving.{IsSorted, save-load, save_all, superseded_save}

abbrev owner_at : ℕ → ℕ → Owner
owner_at token time = record {
  owner_id = "one";
  fencing_token = token;
  acquired_at = time;
  heartbeat_at = time;
  expires_at = time + 30_000;
}

abbrev leased_at : ℕ → ℕ → Store
leased_at token time = record {
  fence = at token;
  lease = some (record { owner = some (owner_at token time); modified_at = time });
}

abbrev handle : ℕ → Handle
handle token = record { owner_id = "one"; fencing_token = token; released = false }

first_turn : turn "one" 30_000 1_000 0 empty_store ≡ acquired (handle 1) (leased_at 1 0)
unfolding turn set_up next_fencing_token new_owner
first_turn = refl

second_turn :
    turn "one" 30_000 41_000 40_000 (record { fence = at 1; lease = none })
    ≡ acquired (handle 2) (leased_at 2 40_000)
unfolding turn set_up next_fencing_token new_owner is_safe_integer
second_turn = refl

stale_turn :
    turn "one" 30_000 41_000 40_000 (leased_at 1 0)
    ≡ taken_over (record { fence = at 1; lease = none })
unfolding turn is_stale read_owner is_safe_integer is_expired
stale_turn = refl

-- The first process has made the directory.
abbrev directory_made : World
directory_made = record {
  store = record { fence = missing; lease = some (record { owner = none; modified_at = 0 }) };
  setting_up = λ t. none;
  beating = λ t. none;
}

abbrev first_drawn : World
first_drawn = record directory_made {
  store = record directory_made.store { fence = at 1 };
  setting_up = set_slot 1 (some "one") directory_made.setting_up;
}

abbrev first_leased : World
first_leased = record first_drawn {
  store = leased_at 1 0;
  setting_up = set_slot 1 none first_drawn.setting_up;
}

-- The lease was taken over, and the directory made anew.
abbrev made_again : World
made_again = record first_leased {
  store = record { fence = at 1; lease = some (record { owner = none; modified_at = 40_000 }) };
}

abbrev second_drawn : World
second_drawn = record made_again {
  store = record made_again.store { fence = at 2 };
  setting_up = set_slot 2 (some "one") made_again.setting_up;
}

abbrev second_leased : World
second_leased = record second_drawn {
  store = leased_at 2 40_000;
  setting_up = set_slot 2 none second_drawn.setting_up;
}

first_draw : draw_token "one" directory_made ≡ some (1, first_drawn)
unfolding draw_token next_fencing_token
first_draw = refl

first_write : write_owner 30_000 1 0 first_drawn ≡ some (handle 1, first_leased)
unfolding write_owner new_owner
first_write = refl

taken_over-made : make_directory 40_000 (remove_lease first_leased) ≡ some made_again
unfolding make_directory
taken_over-made = refl

second_draw : draw_token "one" made_again ≡ some (2, second_drawn)
unfolding draw_token next_fencing_token is_safe_integer
second_draw = refl

second_write : write_owner 30_000 2 40_000 second_drawn ≡ some (handle 2, second_leased)
unfolding write_owner new_owner
second_write = refl

second_leased-NotBeating : NotBeating 1 second_leased
second_leased-NotBeating k o h = cc

-- Behind them a process that saw the first lease removes the second.
superseded_lease_example :
    (1 < 2) × (assert_valid (handle 1) 40_001 (remove_lease second_leased).store ≡ err lost)
superseded_lease_example =
    superseded_lease "one" "one" 1 2 30_000 30_000 0 40_000 (handle 1) (handle 2) directory_made
      first_drawn first_drawn first_leased made_again second_drawn second_drawn second_leased
      (remove_lease second_leased) 40_001 first_draw (done first_drawn) first_write
      (next removes (next (makes 40_000 made_again taken_over-made) (done made_again))) second_draw
      (done second_drawn) second_write second_leased-NotBeating
      (next removes (done (remove_lease second_leased)))

-- Without the last condition: a heartbeat of the first holder has read its owner file before the lease
-- was taken over, and writes it behind the second one's. The first one's check passes then, and the
-- second one's does not.
abbrev overtaken : World
overtaken = record second_leased {
  beating = set_slot 1 (some (some (owner_at 1 0))) second_leased.beating;
}

abbrev written_back : World
written_back = record second_leased {
  store = prolonged 30_000 29_999 (owner_at 1 0) second_leased.store;
  beating = set_slot 1 none overtaken.beating;
}

late_beat : end_beat 30_000 1 29_999 overtaken ≡ some written_back
unfolding end_beat
late_beat = refl

late_beat_wins :
    (assert_valid (handle 1) 29_999 first_leased.store ≡ ok tt)
    × (assert_valid (handle 1) 40_001 written_back.store ≡ ok tt)
    × (assert_valid (handle 2) 40_001 written_back.store ≡ err lost)
unfolding assert_valid current_owner read_owner is_safe_integer is_expired
late_beat_wins = (refl, refl, refl)

acquire-ends_example :
    acquire "two" 30_000 1_000 0 (500 ∷ 1_000 ∷ 1_020 ∷ []) (leased_at 1 0) ≢ none
acquire-ends_example =
    acquire-ends "two" 30_000 1_000 0 1_000 1_020 (500 ∷ []) (leased_at 1 0) (omega arith)

heartbeat_prolongs :
    heartbeat 30_000 (handle 1) 10_000 (leased_at 1 0)
    ≡ ok (record {
      fence = at 1;
      lease = some (record {
        owner = some (record (owner_at 1 0) { heartbeat_at = 10_000; expires_at = 40_000 });
        modified_at = 10_000;
      });
    })
unfolding heartbeat assert_valid current_owner read_owner is_safe_integer is_expired
heartbeat_prolongs = refl

-- Snapshots that are their own serialisation.
abbrev codec : Codec String
codec = record {
  serialize = λ s. s;
  inspect_encrypted = λ s. some s;
  inspect-serialize = λ s. refl;
}

abbrev sha256 : String → String
sha256 s = s

abbrev packed : ℕ → String → Package
packed token text = record { fencing_token = token; checksum = text; serialized = text }

abbrev versions : Versions
versions = (1, packed 1 "old") ∷ (3, packed 3 "newer") ∷ []

abbrev saved_versions : Versions
saved_versions = (3, packed 3 "newer") ∷ (4, packed 4 "newest") ∷ []

saved : save codec sha256 2 4 "newest" versions ≡ ok saved_versions
unfolding save latest_fencing_token is_safe_integer put prune create_package
saved = refl

stale_save : save codec sha256 2 2 "stale" versions ≡ err (rejected 3)
unfolding save latest_fencing_token is_safe_integer
stale_save = refl

save-load_example :
    (latest_fencing_token codec sha256 versions ≤ 4)
    × (latest_fencing_token codec sha256 saved_versions ≡ 4)
    × (load codec sha256 none saved_versions ≡ ok (some "newest"))
    × (length saved_versions ≤ 2)
    × IsSorted saved_versions
save-load_example =
    save-load codec sha256 2 4 "newest" none versions saved_versions (omega arith)
      ((omega arith, tt), (tt, tt)) saved

superseded_save_example :
    save codec sha256 2 2 "stale"
      (save_all codec sha256 2 ((5, "five") ∷ (1, "one") ∷ []) saved_versions)
    ≢ ok []
superseded_save_example =
    superseded_save codec sha256 2 2 4 "stale" "newest" ((5, "five") ∷ (1, "one") ∷ []) versions
      saved_versions [] (omega arith) ((omega arith, tt), (tt, tt)) saved (omega arith)
