-- ===== src/Ledger/Tests.antt =====
-- The theorems of the ledger at a ledger of two tenants, and runs of its operations.
use Prim.Native.String.{◌++◌, count}
use package.text.Mathlib.TextLemmas.{length-append, append_cancel_left}
use basitclaw.Common.{
  ℕ, ◌≡◌, ◌≢◌, refl, ap, sym, ◌∙◌, arith, Option, none, some, String, true, false, length, List, [],
  ◌∷◌, ok, err, ◌⊎◌,
}
use basitclaw.Ledger.Metadata.{
  text, number, object, field, end, array, nil, cons, sanitise, too_deep,
}
use basitclaw.Ledger.{
  Ledger, Event, Unsigned, Input, empty_ledger, sign, append, verify, checkpoint, rollback_to,
  verify_events, continues, export_tenant, replace_tenant, import_tenant, list_events,
  is_identifier, unsafe_identifier,
}
use basitclaw.Ledger.Chain.{append-verify}
use basitclaw.Ledger.Rollback.{rollback_to-checkpoint}
use basitclaw.Ledger.Replace.{replace_tenant-export_tenant}
use basitclaw.Ledger.Book.{
  empty_book, Call, appends, rolls_back, imports, perform, promised_run, run,
}
use basitclaw.Ledger.Refinement.{run-promised_run}
use basitclaw.Ledger.Tamper.{head_hash-commits, hash_of, told, Collision}

abbrev by_action : Unsigned → String
by_action u = u.action

abbrev input_for : String → String → Input
input_for tenant action = record {
  tenant_id = tenant;
  actor = "alice";
  action = action;
  entity_type = "finding";
  entity_id = "FND-1";
  metadata = object (field "severity" (text "high") end);
}

abbrev first_event : Event
first_event =
    sign by_action empty_ledger (input_for "acme" "opened") 10
      (object (field "severity" (text "high") end))

abbrev one_event : Ledger
one_event = record { events = first_event ∷ []; imported_tenants = [] }

abbrev second_event : Event
second_event =
    sign by_action one_event (input_for "acme" "closed") 20
      (object (field "severity" (text "high") end))

abbrev two_events : Ledger
two_events = record { events = first_event ∷ second_event ∷ []; imported_tenants = [] }

append_second :
    append by_action one_event (input_for "acme" "closed") 20 ≡ ok (two_events, second_event)
unfolding append is_identifier sanitise
append_second = refl

append_unsafe :
    append by_action one_event (input_for "acme/b" "closed") 20 ≡ err (unsafe_identifier "tenantId")
unfolding append is_identifier
append_unsafe = refl

one_event_valid : (verify by_action "acme" one_event).valid ≡ true
unfolding verify sign continues
one_event_valid = refl

two_events_valid : (verify by_action "acme" two_events).valid ≡ true
unfolding verify sign continues
two_events_valid = refl

forged_event_found :
    (verify by_action "acme" (record { events = second_event ∷ []; imported_tenants = [] })).valid
    ≡ false
unfolding verify sign continues
forged_event_found = refl

append-verify_example : (verify by_action "acme" two_events).valid ≡ true
append-verify_example =
    append-verify by_action one_event two_events (input_for "acme" "closed") 20 second_event "acme"
      append_second one_event_valid

rollback_to-checkpoint_example :
    rollback_to "acme" (checkpoint "acme" one_event) two_events ≡ one_event
unfolding sign
rollback_to-checkpoint_example = rollback_to-checkpoint "acme" one_event (second_event ∷ [])

abbrev restored : Ledger
restored = record { events = two_events.events; imported_tenants = "acme" ∷ [] }

replaced : replace_tenant by_action "acme" two_events.events one_event ≡ ok (restored, 2)
unfolding replace_tenant is_identifier sign continues
replaced = refl

replace_tenant-export_tenant_example :
    (export_tenant "acme" restored ≡ two_events.events)
    × ((verify by_action "acme" restored).valid ≡ true)
    × ((t : String) → "acme" ≢ t → export_tenant t restored ≡ export_tenant t one_event)
    × (◌≡◌ {A = ℕ} 2 2)
replace_tenant-export_tenant_example =
    replace_tenant-export_tenant by_action "acme" two_events.events one_event restored 2 replaced

-- A text that tells the previous hash alone, and two ledgers whose events differ in what it leaves
-- out.
abbrev linking : Option String → String
linking none = ""
linking (some h) = "after:" ++ h

abbrev linked : Unsigned → String
linked u = linking u.previous_hash

marked-empty : (h : String) → "after:" ++ h ≢ ""
marked-empty h e =
    let counted = sym (length-append "after:" h) ∙ ap count e in omega (arith, counted)

linked-previous_hash : (u v : Unsigned) → linked u ≡ linked v → u.previous_hash ≡ v.previous_hash
linked-previous_hash u v same = link u.previous_hash v.previous_hash same
  where
    link : (a b : Option String) → linking a ≡ linking b → a ≡ b
    link none none e = refl
    link none (some h) e = absurd (marked-empty h (sym e))
    link (some h) none e = absurd (marked-empty h e)
    link (some h) (some k) e = ap some (append_cancel_left "after:" h k e)

abbrev hash : String → String
hash t = "sha:" ++ t

-- Two events that follow each other, done by the actor given.
abbrev chain_by : String → Ledger
chain_by actor =
    let input : Input = record (input_for "acme" "opened") { actor = actor } in
    let first = sign (hash_of linked hash) empty_ledger input 10 input.metadata in
    let held : Ledger = record { events = first ∷ []; imported_tenants = [] } in
    let second = sign (hash_of linked hash) held input 20 input.metadata in
    record { events = first ∷ second ∷ []; imported_tenants = [] }

chain_by_alice_valid : (verify (hash_of linked hash) "acme" (chain_by "alice")).valid ≡ true
unfolding verify sign continues
chain_by_alice_valid = refl

chain_by_bob_valid : (verify (hash_of linked hash) "acme" (chain_by "bob")).valid ≡ true
unfolding verify sign continues
chain_by_bob_valid = refl

chains_one_head :
    (verify (hash_of linked hash) "acme" (chain_by "alice")).head_hash
    ≡ (verify (hash_of linked hash) "acme" (chain_by "bob")).head_hash
unfolding verify sign continues
chains_one_head = refl

head_hash-commits_example :
    (told linked (export_tenant "acme" (chain_by "alice"))
      ≡ told linked (export_tenant "acme" (chain_by "bob")))
    ⊎ Collision linked hash
        (export_tenant "acme" (chain_by "alice"))
        (export_tenant "acme" (chain_by "bob"))
head_hash-commits_example =
    head_hash-commits linked hash linked-previous_hash "acme" (chain_by "alice") (chain_by "bob")
      chain_by_alice_valid chain_by_bob_valid chains_one_head

sanitise_nested : sanitise 5 (array (cons (number "1") nil)) ≡ err too_deep
unfolding sanitise
sanitise_nested = refl

list_newest : list_events "acme" 1 two_events ≡ second_event ∷ []
unfolding list_events sign
list_newest = refl

-- Two tenants' events in one list, of which one tenant's second is taken back.
abbrev mixed_calls : List Call
mixed_calls =
    appends (input_for "acme" "opened") 10
    ∷ appends (input_for "other" "opened") 15
    ∷ appends (input_for "acme" "closed") 20
    ∷ rolls_back "acme" 1
    ∷ imports "acme" (first_event ∷ [])
    ∷ appends (input_for "acme/b" "opened") 30
    ∷ []

mixed_run :
    (length (export_tenant "acme" (run by_action mixed_calls empty_ledger).0) ≡ 1)
    × (length (export_tenant "other" (run by_action mixed_calls empty_ledger).0) ≡ 1)
unfolding run append is_identifier sanitise perform import_tenant rollback_to replace_tenant sign
    continues export_tenant
mixed_run = (refl, refl)

run-promised_run_example :
    ((run by_action mixed_calls empty_ledger).1 ≡ (promised_run by_action mixed_calls empty_book).1)
    × (export_tenant "acme" (run by_action mixed_calls empty_ledger).0
        ≡ (promised_run by_action mixed_calls empty_book).0.chain "acme")
    × (verify by_action "acme" (run by_action mixed_calls empty_ledger).0
        ≡ verify_events by_action ((promised_run by_action mixed_calls empty_book).0.chain "acme"))
run-promised_run_example = run-promised_run by_action mixed_calls "acme"
