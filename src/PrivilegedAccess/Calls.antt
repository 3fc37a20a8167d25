-- ===== src/PrivilegedAccess/Calls.antt =====
-- security/privilegedAccessRegistry.js: the operations that write, as one type of calls, and runs.
use basitclaw.Common.{ℕ, String, Option, List, [], ◌∷◌, Result, ok, err}
use basitclaw.PrivilegedAccess.{Config, Principal, Item, Snapshot, Error, Unsigned}
use basitclaw.PrivilegedAccess.Requests.{
  RequestInput, BreakGlassInput, request_access, activate_break_glass,
}
use basitclaw.PrivilegedAccess.Decisions.{
  DecisionInput, approve, deny, cancel, revoke, complete_post_review,
}

-- What is called, without the principal and the time.
pub data Request : Type 0 where
  -- with the random id
  requests : String → RequestInput → Request
  breaks_glass : String → BreakGlassInput → Request
  approves denies cancels revokes : DecisionInput → Request
  -- with the outcome
  reviews : DecisionInput → String → Request

pub record Call : Type 0 where
  pub request : Request
  pub principal : Principal
  pub actor : Option String
  pub time : ℕ

module _ (digest : Unsigned → String) (event_id : ℕ → String) (c : Config) where
  unfoldable pub perform_request :
      Request → Principal → Option String → ℕ → Snapshot → Result Error (Snapshot × Item)
  perform_request (requests id i) p a now s = request_access digest event_id c id p i a now s
  perform_request (breaks_glass id i) p a now s =
      activate_break_glass digest event_id c id p i a now s
  perform_request (approves i) p a now s = approve digest event_id c i p a now s
  perform_request (denies i) p a now s = deny digest event_id c i p a now s
  perform_request (cancels i) p a now s = cancel digest event_id c i p a now s
  perform_request (revokes i) p a now s = revoke digest event_id c i p a now s
  perform_request (reviews i outcome) p a now s =
      complete_post_review digest event_id c i outcome p a now s

  -- A call that throws writes nothing.
  unfoldable pub perform : Call → Snapshot → Snapshot
  unfolding perform_request
  perform call s = elim (perform_request call.request call.principal call.actor call.time s) [
    | ok (s', _) ↦ s'
    | err _ ↦ s
  ]

  unfoldable pub run : List Call → Snapshot → Snapshot
  run [] s = s
  run (call ∷ calls) s = run calls (perform call s)
