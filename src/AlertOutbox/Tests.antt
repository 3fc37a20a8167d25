-- ===== src/AlertOutbox/Tests.antt =====
-- The outbox at concrete alerts.
use basitclaw.Common.{
  ℕ, ◌≤◌, ◌≡◌, ◌≢◌, refl, ap, str_eq, String, none, some, [], ◌∷◌, arith, All, ok, err, inl,
}
use basitclaw.AlertOutbox.{
  inflight, pending, not_owned, Event, Item, Receipt, Config, Outbox, empty_outbox,
}
use basitclaw.AlertOutbox.Files.{put, get, has, remove, names, prune}
use basitclaw.AlertOutbox.Operations.{
  Enqueued, available, counts, health, Response, recover_stale, recover_loop, state_in, new_item,
  enqueue, claim_loop, claim_due, claimed_item, read_claim, complete, receipt_of,
}
use basitclaw.AlertOutbox.Exclusive.{places, IsExclusive, enqueue-duplicate}
use basitclaw.AlertOutbox.Recovery.{run_returns}
use basitclaw.AlertOutbox.Calls.{enqueues, claims_due, completes, perform, run, run-IsExclusive}
use basitclaw.AlertOutbox.Claims.{
  IsClaimed, IsHeldBy, IsRefused, IsSettled, claim_due-IsClaimed, claim_ends_once,
}
use basitclaw.AlertOutbox.Forgetting.{complete-forgets}

abbrev config : Config
config = record { inflight_lease_ms = 60_000; delivered_retention = 1; dead_letter_retention = 1 }

abbrev event : Event
event = record { id = some "EVT-1"; hash = some "h"; text = "{}" }

abbrev id_for : Event → ℕ
id_for e = 7

abbrev token : ℕ → String
token k = "token"

abbrev wrong : String
wrong = "other"

abbrev waiting : Item
waiting = record {
  delivery_id = 7;
  state = pending;
  created_at = 1_000;
  updated_at = 1_000;
  attempts = 0;
  next_attempt_at = 1_000;
  last_attempt_at = none;
  last_status = none;
  last_error = none;
  event = event;
  claim = none;
  burial = none;
}

abbrev one_waiting : Outbox
one_waiting = record empty_outbox { pendings = (7, waiting) ∷ [] }

abbrev claimed : Item
claimed = record waiting {
  state = inflight;
  updated_at = 2_000;
  claim = some (record { claimed_at = 2_000; token = "token"; expires_at = 62_000 });
}

abbrev one_claimed : Outbox
one_claimed = record empty_outbox { inflights = (7, claimed) ∷ [] }

abbrev response : Response
response = record { status = some 202; response_id = none }

abbrev receipt : Receipt
receipt = record {
  delivery_id = 7;
  created_at = 1_000;
  delivered_at = 3_000;
  attempts = 1;
  response_status = some 202;
  response_id = none;
  event_id = some "EVT-1";
  event_hash = some "h";
}

abbrev one_delivered : Outbox
one_delivered = record empty_outbox { delivereds = (7, receipt) ∷ [] }

enqueued :
    enqueue id_for event 1_000 empty_outbox
    ≡ ok (one_waiting, record { delivery_id = 7; duplicate = none })
unfolding enqueue recover_stale recover_loop names state_in has put new_item
enqueued = refl

enqueued_again :
    enqueue id_for event 1_500 one_waiting
    ≡ ok (one_waiting, record { delivery_id = 7; duplicate = some pending })
unfolding enqueue recover_stale recover_loop names state_in has
enqueued_again = refl

claim : claim_due config token 25 2_000 one_waiting ≡ ok (one_claimed, claimed ∷ [])
unfolding claim_due recover_stale recover_loop names claim_loop get put remove claimed_item
claim = refl

completed : complete config 7 "token" response 3_000 one_claimed ≡ ok (one_delivered, receipt)
unfolding complete read_claim get put remove prune receipt_of
completed = refl

wrong_token_is_refused : complete config 7 wrong response 3_000 one_claimed ≡ err not_owned
unfolding complete read_claim get
wrong_token_is_refused = refl

empty_IsExclusive : IsExclusive empty_outbox
unfolding places has
empty_IsExclusive j = omega arith

enqueue-duplicate_example : (some pending ≢ none) × (places 7 one_waiting ≡ 1)
enqueue-duplicate_example =
    enqueue-duplicate id_for config event event 1_000 1_500 empty_outbox one_waiting one_waiting
      (record { delivery_id = 7; duplicate = none })
      (record { delivery_id = 7; duplicate = some pending }) empty_IsExclusive refl enqueued
      enqueued_again

ran :
    run id_for config
      ((enqueues event, 1_000)
        ∷ (claims_due token 25, 2_000)
        ∷ (completes 7 "token" response, 3_000)
        ∷ [])
      empty_outbox
    ≡ ok one_delivered
unfolding run perform enqueue recover_stale recover_loop names state_in has put new_item claim_due
    claim_loop get remove claimed_item complete read_claim prune receipt_of
ran = refl

ran_to_a_claim :
    run id_for config ((enqueues event, 1_000) ∷ (claims_due token 25, 2_000) ∷ []) empty_outbox
    ≡ ok one_claimed
unfolding run perform enqueue recover_stale recover_loop names state_in has put new_item claim_due
    claim_loop get remove claimed_item
ran_to_a_claim = refl

-- A claim of long ago is recovered when the alert is given again.
run_returns_example :
    (s' : Outbox) × (recover_stale 9_000_000 one_claimed ≡ ok s')
    × (health 9_000_000 one_claimed ≡ available (counts s'))
    × ((r : Outbox × Enqueued) × (enqueue id_for event 9_000_000 one_claimed ≡ ok r))
run_returns_example =
    run_returns config id_for ((enqueues event, 1_000) ∷ (claims_due token 25, 2_000) ∷ [])
      one_claimed event 9_000_000 ran_to_a_claim

run-IsExclusive_example : IsExclusive one_delivered
run-IsExclusive_example =
    run-IsExclusive id_for config
      ((enqueues event, 1_000)
        ∷ (claims_due token 25, 2_000)
        ∷ (completes 7 "token" response, 3_000)
        ∷ [])
      one_delivered ran

claim_due-IsClaimed_example : (1 ≤ 25) × (25 ≤ 500) × All (IsClaimed config 2_000) (claimed ∷ [])
claim_due-IsClaimed_example =
    claim_due-IsClaimed config token 25 2_000 one_waiting one_claimed (claimed ∷ []) claim

wrong-token : wrong ≢ "token"
wrong-token e = absurd (cc (ap (λ s. str_eq s "token") e))

claim_ends_once_example :
    ((i : Item) × (get 7 one_claimed.inflights ≡ some i) × IsHeldBy "token" i)
    × IsRefused config 7 wrong one_claimed
    × IsSettled config 7 one_delivered
claim_ends_once_example =
    claim_ends_once config 7 "token" wrong one_claimed one_delivered wrong-token
      (inl (response, 3_000, receipt, completed))

-- One greater receipt is there, and one is kept.
abbrev other_receipt : Receipt
other_receipt = record receipt { delivery_id = 9 }

abbrev full : Outbox
full = record one_claimed { delivereds = (9, other_receipt) ∷ [] }

full-IsExclusive : IsExclusive full
unfolding places has
full-IsExclusive j = ground arith

completed_when_full :
    complete config 7 "token" response 3_000 full
    ≡ ok (record empty_outbox { delivereds = (9, other_receipt) ∷ [] }, receipt)
unfolding complete read_claim get put remove prune receipt_of
completed_when_full = refl

complete-forgets_example :
    places 7 (record empty_outbox { delivereds = (9, other_receipt) ∷ [] }) ≡ 0
complete-forgets_example =
    complete-forgets config 7 "token" response 3_000 full
      (record empty_outbox { delivereds = (9, other_receipt) ∷ [] }) receipt full-IsExclusive
      completed_when_full refl (omega arith, tt)
