-- ===== src/Ledger/Rollback.antt =====
-- services/governanceLedger.js, `checkpoint` and `rollbackTo`.
use basitclaw.Common.{
  ℕ, ◌+◌, ◌≤◌, ◌≡◌, refl, ap, subst, ◌∙◌, String, not, List, [], ◌∷◌, ◌++◌, ok, arith, length,
  filter, append_nil, eq_refl,
}
use basitclaw.Ledger.{
  Ledger, Event, Unsigned, Input, sign, append, own, is_of, checkpoint, rollback_events,
  rollback_to,
}
use basitclaw.Ledger.Chain.{append-inversion}

-- The events of the other tenants.
abbrev pub others : String → List Event → List Event
others tenant = filter (λ e. not (is_of tenant e))

rollback_events_behind :
    (tenant : String) (kept seen : ℕ) (es : List Event)
    → kept ≤ seen
    → rollback_events tenant kept seen es ≡ others tenant es
unfolding rollback_events
rollback_events_behind tenant kept seen [] h = refl
rollback_events_behind tenant kept seen (e ∷ es) h = ground (
  arith,
  rollback_events_behind tenant kept seen es,
  rollback_events_behind tenant kept (seen + 1) es,
)

rollback_events-append :
    (tenant : String) (kept seen : ℕ) (es later : List Event)
    → seen + length (own tenant es) ≡ kept
    → rollback_events tenant kept seen (es ++ later) ≡ es ++ others tenant later
unfolding rollback_events
rollback_events-append tenant kept seen [] later h =
    rollback_events_behind tenant kept seen later (omega arith)
rollback_events-append tenant kept seen (e ∷ es) later h = ground (
  arith,
  rollback_events-append tenant kept seen es later,
  rollback_events-append tenant kept (seen + 1) es later,
)

-- Whatever was recorded after a checkpoint of a tenant, rolling back to it takes out that tenant's
-- later events and nothing else: the earlier events of all tenants and the later events of the
-- others stay, in their order.
pub rollback_to-checkpoint :
    (tenant : String) (l : Ledger) (later : List Event)
    → rollback_to tenant (checkpoint tenant l) (record l { events = l.events ++ later })
      ≡ record l { events = l.events ++ others tenant later }
unfolding rollback_to checkpoint
rollback_to-checkpoint tenant l later =
    ap (λ (es : List Event). record l { events = es })
      (rollback_events-append tenant (length (own tenant l.events)) 0 l.events later (omega arith))

-- An `append` that a caller undoes by its checkpoint leaves the ledger exactly as it was.
pub append-rollback_to :
    (hash_event : Unsigned → String) (l l' : Ledger) (input : Input) (now : ℕ) (e : Event)
    → append hash_event l input now ≡ ok (l', e)
    → rollback_to input.tenant_id (checkpoint input.tenant_id l) l' ≡ l
unfolding sign
append-rollback_to hash_event l l' input now e h =
    let (m, _, grown) = append-inversion hash_event l l' input now e h in
    let x : Event = sign hash_event l input now m in
    let gone : l.events ++ others input.tenant_id (x ∷ []) ≡ l.events =
      ground (arith, eq_refl input.tenant_id, append_nil l.events) in
    ap (rollback_to input.tenant_id (checkpoint input.tenant_id l)) grown
    ∙ rollback_to-checkpoint input.tenant_id l (x ∷ [])
    ∙ ap (λ (es : List Event). record l { events = es }) gone

-- With nothing later there is nothing to take out.
pub rollback_to-unchanged :
    (tenant : String) (l : Ledger) → rollback_to tenant (checkpoint tenant l) l ≡ l
rollback_to-unchanged tenant l =
    let none_later : record l { events = l.events ++ [] } ≡ l =
      ap (λ (es : List Event). record l { events = es }) (append_nil l.events) in
    subst (λ (k : Ledger). rollback_to tenant (checkpoint tenant l) k ≡ k) none_later
      (rollback_to-checkpoint tenant l [])
