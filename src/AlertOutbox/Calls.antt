-- ===== src/AlertOutbox/Calls.antt =====
-- security/securityAlertOutbox.js: sequences of calls, each of which succeeds.
use basitclaw.Common.{
  ℕ, ◌≡◌, String, List, [], ◌∷◌, arith, Result, ok, ◌>>=◌, >>=-eq-ok, ok-injective, subst,
}
use basitclaw.AlertOutbox.{Config, Outbox, Event, Error, empty_outbox}
use basitclaw.AlertOutbox.Operations.{
  Response, Failure, recover_stale, enqueue, claim_due, complete, dead_letter_claim, retry, requeue,
}
use basitclaw.AlertOutbox.Files.{has}
use basitclaw.AlertOutbox.Steps.{
  Steps, done, append_steps, recover_stale-Steps, enqueue-Steps, claim_due-Steps, complete-Steps,
  dead_letter_claim-Steps, retry-Steps, requeue-Steps,
}
use basitclaw.AlertOutbox.Exclusive.{places, IsExclusive, Steps-IsExclusive}

pub data Call : Type 0 where
  enqueues : Event → Call
  -- with the random tokens, and the limit
  claims_due : (ℕ → String) → ℕ → Call
  completes : ℕ → String → Response → Call
  -- with the time of the next attempt
  retries : ℕ → String → Failure → ℕ → Call
  dead_letters : ℕ → String → Failure → Call
  requeues : ℕ → Call
  -- `health`, which recovers stale claims
  asks_health : Call

module _ (delivery_id_for : Event → ℕ) (c : Config) where
  unfoldable pub perform : Call → ℕ → Outbox → Result Error Outbox
  perform (enqueues e) now s = enqueue delivery_id_for e now s >>= λ r. ok r.0
  perform (claims_due token limit) now s = claim_due c token limit now s >>= λ r. ok r.0
  perform (completes k token r) now s = complete c k token r now s >>= λ x. ok x.0
  perform (retries k token f next) now s = retry k token f next now s >>= λ x. ok x.0
  perform (dead_letters k token f) now s = dead_letter_claim c k token f now s >>= λ x. ok x.0
  perform (requeues k) now s = requeue k now s >>= λ x. ok x.0
  perform asks_health now s = recover_stale now s

  -- Calls at their times, up to the first that throws.
  unfoldable pub run : List (Call × ℕ) → Outbox → Result Error Outbox
  run [] s = ok s
  run ((call, now) ∷ calls) s = perform call now s >>= λ s'. run calls s'

  perform-Steps :
      (call : Call) (now : ℕ) (s s' : Outbox) → perform call now s ≡ ok s' → Steps c s s'
  unfolding perform
  perform-Steps (enqueues e) now s s' h =
      let (r, done_, is) = >>=-eq-ok (enqueue delivery_id_for e now s) _ h in
      subst (Steps c s) (ok-injective r.0 s' is)
        (enqueue-Steps c delivery_id_for e now s r.0 r.1 done_)
  perform-Steps (claims_due token limit) now s s' h =
      let (r, done_, is) = >>=-eq-ok (claim_due c token limit now s) _ h in
      subst (Steps c s) (ok-injective r.0 s' is) (claim_due-Steps c token limit now s r.0 r.1 done_)
  perform-Steps (completes k token x) now s s' h =
      let (r, done_, is) = >>=-eq-ok (complete c k token x now s) _ h in
      subst (Steps c s) (ok-injective r.0 s' is) (complete-Steps c k token x now s r.0 r.1 done_)
  perform-Steps (retries k token f at) now s s' h =
      let (r, done_, is) = >>=-eq-ok (retry k token f at now s) _ h in
      subst (Steps c s) (ok-injective r.0 s' is) (retry-Steps c k token f at now s r.0 r.1 done_)
  perform-Steps (dead_letters k token f) now s s' h =
      let (r, done_, is) = >>=-eq-ok (dead_letter_claim c k token f now s) _ h in
      subst (Steps c s) (ok-injective r.0 s' is)
        (dead_letter_claim-Steps c k token f now s r.0 r.1 done_)
  perform-Steps (requeues k) now s s' h =
      let (r, done_, is) = >>=-eq-ok (requeue k now s) _ h in
      subst (Steps c s) (ok-injective r.0 s' is) (requeue-Steps c k now s r.0 r.1 done_)
  perform-Steps asks_health now s s' h = recover_stale-Steps c now s s' h

  -- Every run of calls that succeed is a sequence of changes of single files.
  pub run-Steps : (calls : List (Call × ℕ)) (s s' : Outbox) → run calls s ≡ ok s' → Steps c s s'
  unfolding run
  run-Steps [] s s' h = subst (Steps c s) (ok-injective s s' h) (done s)
  run-Steps ((call, now) ∷ calls) s s' h =
      let (m, first, rest) = >>=-eq-ok (perform call now s) _ h in
      append_steps c (perform-Steps call now s m first) (run-Steps calls m s' rest)

  -- Calls that succeed, from an empty outbox, leave every alert in at most one of the directories
  -- pending, inflight, delivered and dead-letter.
  pub run-IsExclusive :
      (calls : List (Call × ℕ)) (s : Outbox) → run calls empty_outbox ≡ ok s → IsExclusive s
  unfolding places has
  run-IsExclusive calls s h =
      Steps-IsExclusive c (run-Steps calls empty_outbox s h) (λ j. omega arith)
