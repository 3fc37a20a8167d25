-- ===== src/Evidence/LegalHold.antt =====
-- evidence/evidenceRegistry.js: a legal hold over any run of calls.
use basitclaw.Common.{
  ℕ, ◌≡◌, ap, ◌∙◌, String, true, some, List, [], ◌∷◌, ◌++◌, All, arith, false, str_eq,
}
use mathlib.Core.List.{append_assoc}
use basitclaw.Evidence.{Item, Unsigned, Disk, find_item, is_active, is_held}
use basitclaw.Evidence.Turns.{Settings, Turn}
use basitclaw.Evidence.Calls.{
  Call, perform, run, ingests, adds_version, places_hold, releases_hold, disposes,
}
use basitclaw.Evidence.Holding.{Keeps, Keeps-refl, ingest-Keeps}
use basitclaw.Evidence.Placing.{place_legal_hold-Keeps, release_legal_hold-Keeps}
use basitclaw.Evidence.Retaining.{dispose-Keeps}
use basitclaw.Evidence.Adding.{add_version-Keeps}

-- A call that does not release the item's hold, and that does not make a new item of its id.
abbrev pub Spares : String → Call → Type 0
Spares id (ingests id' _ _) = str_eq id' id ≡ false
Spares id (adds_version _ _ _) = Unit
Spares id (places_hold _ _ _ _ _) = Unit
Spares id (releases_hold id' _ _ _) = str_eq id' id ≡ false
Spares id (disposes _ _ _ _ _) = Unit

module _ (c : Settings) (hash_event : Unsigned → String) (sha256 : List ℕ → String)
    (fingerprint : String → String) (id : String) (item : Item) (disk : Disk)
    (there : find_item id disk.index.items ≡ some item) (is_in_use : is_active item.status ≡ true)
    (held : is_held item.legal_hold ≡ true) where
  pub perform-Keeps :
      (t : Turn) (call : Call)
      → Spares id call
      → Keeps id item disk (perform c hash_event sha256 fingerprint t call disk).0
  perform-Keeps t (ingests id' by u) other =
      ingest-Keeps id item disk there is_in_use held c hash_event sha256 fingerprint t id' by u
        other
  perform-Keeps t (adds_version id' by r) h =
      add_version-Keeps c hash_event sha256 fingerprint id item disk there is_in_use held t id' by r
  perform-Keeps t (places_hold id' by reason matter_id review_at) h =
      place_legal_hold-Keeps id item disk there is_in_use held c hash_event sha256 fingerprint t id'
        by reason matter_id review_at
  perform-Keeps t (releases_hold id' by confirmation reason) other =
      release_legal_hold-Keeps id item disk there is_in_use held c hash_event sha256 fingerprint t
        id' by confirmation reason other
  perform-Keeps t (disposes id' by confirmation reason referenced_by) h =
      dispose-Keeps c hash_event sha256 fingerprint id item disk there is_in_use held t id' by
        confirmation reason referenced_by

Keeps-trans :
    (id : String) (item : Item) (disk mid after : Disk) (k : Keeps id item disk mid)
    → Keeps id k.later mid after
    → Keeps id item disk after
Keeps-trans id item disk mid after k l = record {
  later = l.later;
  still_there = l.still_there;
  still_active = l.still_active;
  still_held = l.still_held;
  retained = omega (arith, k.retained, l.retained);
  newer = k.newer ++ l.newer;
  versions_kept =
      l.versions_kept
      ∙ ap (λ vs. vs ++ l.newer) k.versions_kept
      ∙ append_assoc item.versions k.newer l.newer;
  counted = omega (arith, k.counted, l.counted);
  contents_kept = λ n le. l.contents_kept n (omega (arith, k.counted, le)) ∙ k.contents_kept n le;
}

module _ (c : Settings) (hash_event : Unsigned → String) (sha256 : List ℕ → String)
    (fingerprint : String → String) where
  -- Of an active item under legal hold, over any calls, those that fail included, of
  -- which none releases its hold and no new item gets its id: it stays active and under hold, with a
  -- retention that is not shorter, with its versions and perhaps later ones, and the contents of its versions stay as
  -- they are.
  pub run-held :
      (id : String) (calls : List (Turn × Call)) (item : Item) (disk : Disk)
      → find_item id disk.index.items ≡ some item
      → is_active item.status ≡ true
      → is_held item.legal_hold ≡ true
      → All (λ (call : Turn × Call). Spares id call.1) calls
      → Keeps id item disk (run c hash_event sha256 fingerprint calls disk)
  unfolding run
  run-held id [] item disk there is_in_use held spared =
      Keeps-refl id item disk there is_in_use held
  run-held id ((t, call) ∷ calls) item disk there is_in_use held spared =
      let k =
        perform-Keeps c hash_event sha256 fingerprint id item disk there is_in_use held t call
          spared.0 in
      Keeps-trans id item disk (perform c hash_event sha256 fingerprint t call disk).0 _ k
        (run-held id calls k.later _ k.still_there k.still_active k.still_held spared.1)
