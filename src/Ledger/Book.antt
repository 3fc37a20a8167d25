-- ===== src/Ledger/Book.antt =====
-- The ledger as its callers see it: a book with one chain of events for each tenant. It says what the
-- operations of services/governanceLedger.js promise, with no list that the tenants share.
use basitclaw.Common.{
  ℕ, ◌+◌, String, List, [], ◌∷◌, ◌++◌, Result, ok, err, ◌>>=◌, ◌>>◌, guard, if◌then◌else◌, str_eq,
  length, any, all, take,
}
use basitclaw.Ledger.{
  Event, Unsigned, Input, Error, Ledger, gev, assert_identifier, assert_event_input, clean_metadata,
  is_of, head_hash, verify_events, append, replace_tenant, import_tenant, rollback_to, other_tenant,
  broken_chain,
}
use basitclaw.Ledger.Metadata.{Value}

pub record Book : Type 0 where
  pub chain : String → List Event
  pub imported : List String

abbrev pub empty_book : Book
empty_book = record { chain = λ t. []; imported = [] }

-- The book with another chain for one tenant.
unfoldable pub with_chain : String → List Event → Book → Book
with_chain tenant es b = record b { chain = λ t. if str_eq tenant t then es else b.chain t }

unfoldable pub take_over : String → List Event → Book → Book
unfolding with_chain
take_over tenant es b = record (with_chain tenant es b) { imported = tenant ∷ b.imported }

pub data Call : Type 0 where
  -- with the time
  appends : Input → ℕ → Call
  rolls_back : String → ℕ → Call
  replaces : String → List Event → Call
  imports : String → List Event → Call

-- What a call returns.
pub data Reply : Type 0 where
  appended : Event → Reply
  replaced : ℕ → Reply
  nothing : Reply

-- The outcome of a call before those of the later ones.
abbrev pub with_outcome :
    {S : Type 0}
    → S
    → Result Error (S × Reply)
    → (S → S × List (Result Error Reply))
    → S × List (Result Error Reply)
with_outcome s (err e) later = ((later s).0, err e ∷ (later s).1)
with_outcome s (ok (s', reply)) later = ((later s').0, ok reply ∷ (later s').1)

module _ (hash_event : Unsigned → String) where
  -- The event that continues a chain.
  unfoldable pub next_event : List Event → Input → ℕ → Value → Event
  next_event es input now metadata = record { unsigned = u; hash = hash_event u }
    where
      u : Unsigned
      u = record {
        id = gev input.tenant_id (length es + 1);
        sequence = length es + 1;
        tenant_id = input.tenant_id;
        actor = input.actor;
        action = input.action;
        entity_type = input.entity_type;
        entity_id = input.entity_id;
        occurred_at = now;
        metadata = metadata;
        previous_hash = head_hash es;
      }

  -- A chain that the tenant may take over.
  unfoldable pub check_chain : String → List Event → Result Error (Unit {0})
  check_chain tenant es = do
    assert_identifier tenant "tenantId"
    guard (all (is_of tenant) es) other_tenant
    guard (verify_events hash_event es).valid
        (broken_chain (verify_events hash_event es).failed_event_id)

  -- What each call promises.
  unfoldable pub promised : Call → Book → Result Error (Book × Reply)
  unfolding with_chain take_over
  promised (appends input now) b = do
    assert_event_input input
    metadata ← clean_metadata input.metadata
    let e = next_event (b.chain input.tenant_id) input now metadata
    ok (with_chain input.tenant_id (b.chain input.tenant_id ++ e ∷ []) b, appended e)
  promised (rolls_back tenant kept) b =
      ok (with_chain tenant (take kept (b.chain tenant)) b, nothing)
  promised (replaces tenant es) b =
      check_chain tenant es >> ok (take_over tenant es b, replaced (length es))
  promised (imports tenant es) b =
      if any (λ t. str_eq t tenant) b.imported
      then assert_identifier tenant "tenantId" >> ok (b, nothing)
      else check_chain tenant es >> ok (take_over tenant es b, nothing)

  -- The same calls on the ledger.
  unfoldable pub perform : Call → Ledger → Result Error (Ledger × Reply)
  perform (appends input now) l = append hash_event l input now >>= λ r. ok (r.0, appended r.1)
  perform (rolls_back tenant kept) l = ok (rollback_to tenant kept l, nothing)
  perform (replaces tenant es) l =
      replace_tenant hash_event tenant es l >>= λ r. ok (r.0, replaced r.1)
  perform (imports tenant es) l = import_tenant hash_event tenant es l >>= λ l'. ok (l', nothing)

  -- Runs, with the outcome of every call. A call that throws changes nothing.
  unfoldable pub promised_run : List Call → Book → Book × List (Result Error Reply)
  promised_run [] b = (b, [])
  promised_run (call ∷ calls) b = with_outcome b (promised call b) (promised_run calls)

  unfoldable pub run : List Call → Ledger → Ledger × List (Result Error Reply)
  run [] l = (l, [])
  run (call ∷ calls) l = with_outcome l (perform call l) (run calls)
