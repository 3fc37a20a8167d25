-- ===== src/PrivilegedAccess/Integrity.antt =====
-- security/privilegedAccessRegistry.js, `verifyEvents`: the hash chain of events stays intact under
-- every operation, also when its front is cut off.
use basitclaw.Common.{
  ℕ, zero, suc, ◌+◌, ◌-◌, ◌≡◌, refl, String, true, Option, none, some, List, [], ◌∷◌, ◌++◌, arith,
  leb, eq_iff, opt_eq_iff, length, take, drop, get_last?, All, Bool-cases, Option-cases, inl, inr,
  subst, sym, ap,
}
use basitclaw.PrivilegedAccess.{
  Config, Principal, Item, Snapshot, Trail, Event, Unsigned, Action, Detail, empty_snapshot,
}
use basitclaw.PrivilegedAccess.Events.{
  last_hash, trim_events, new_event, event, continues, chain_end, verify_events,
}
use basitclaw.PrivilegedAccess.Store.{
  effective_status, same_status, expire_event, expire, prepare, finish,
}
use basitclaw.PrivilegedAccess.Outcomes.{
  Extends, one, more, add_decision-Outcome, deny_pending-Outcome, cancel_open-Outcome,
  revoke_active-Outcome, add_review-Outcome,
}
use basitclaw.PrivilegedAccess.Additions.{add_request-Addition, add_break_glass-Addition}
use basitclaw.PrivilegedAccess.Induction.{Preserved, run-keeps}
use basitclaw.PrivilegedAccess.Calls.{Call, run}

-- The hash that the next event names, behind a chain that starts at `previous`.
chain_hash : Option String → List Event → Option String
chain_hash previous [] = previous
chain_hash previous (e ∷ es) = chain_hash (some e.hash) es

last_hash_lem :
    (previous : Option String) (es : List Event)
    → elim (get_last? es) [ none ↦ previous | some e ↦ some e.hash ] ≡ chain_hash previous es
unfolding chain_hash
last_hash_lem previous [] = refl
last_hash_lem previous (e ∷ []) = refl
last_hash_lem previous (e ∷ f ∷ es) = last_hash_lem_cons (some e.hash) f es
  where
    last_hash_lem_cons :
        (h : Option String) (f : Event) (es : List Event)
        → elim (get_last? (f ∷ es)) [ none ↦ previous | some e ↦ some e.hash ]
          ≡ chain_hash h (f ∷ es)
    last_hash_lem_cons h f [] = refl
    last_hash_lem_cons h f (g ∷ es) = last_hash_lem_cons (some f.hash) g es

module _ (digest : Unsigned → String) where
  chain_end-cons :
      (q n : ℕ) (h : Option String) (e : Event) (es : List Event)
      → chain_end digest q h (e ∷ es) ≡ some n
      → (continues digest q h e ≡ true) × (chain_end digest (q + 1) (some e.hash) es ≡ some n)
  unfolding chain_end
  chain_end-cons q n h e es c = ground arith

  chain_end-snoc :
      (q n : ℕ) (h : Option String) (es : List Event) (e : Event)
      → chain_end digest q h es ≡ some n
      → continues digest n (chain_hash h es) e ≡ true
      → chain_end digest q h (es ++ e ∷ []) ≡ some (n + 1)
  unfolding chain_end chain_hash
  chain_end-snoc q n h [] e c k =
      let same : q ≡ n = ground arith in
      let k' = subst (λ m. continues digest m h e ≡ true) (sym same) k in
      rw k' (ap (λ m. some (m + 1)) same)
  chain_end-snoc q n h (f ∷ es) e c k =
      let (first, rest) = chain_end-cons q n h f es c in
      rw first (chain_end-snoc (q + 1) n (some f.hash) es e rest k)

  continues_sequence :
      (q : ℕ) (h : Option String) (e : Event)
      → continues digest q h e ≡ true
      → e.unsigned.sequence ≡ q + 1
  unfolding continues
  continues_sequence q h e c = ground arith

  chain_end-first :
      (q n : ℕ) (h : Option String) (f e : Event) (es : List Event)
      → chain_end digest q h (f ∷ es) ≡ some n
      → ◌≡◌ {A = Option Event} (some f) (some e)
      → chain_end digest e.unsigned.sequence (some e.hash) es ≡ some n
  chain_end-first q n h f e es c at =
      let (first, rest) = chain_end-cons q n h f es c in
      let same : f ≡ e = ground arith in
      subst (λ x. chain_end digest x.unsigned.sequence (some x.hash) es ≡ some n) same
        (subst (λ m. chain_end digest m (some f.hash) es ≡ some n)
          (sym (continues_sequence q h f first)) rest)

  -- The chain behind any event of it.
  chain_end-drop :
      (k q n : ℕ) (h : Option String) (es : List Event) (e : Event)
      → chain_end digest q h es ≡ some n
      → get_last? (take k es) ≡ some e
      → chain_end digest e.unsigned.sequence (some e.hash) (drop k es) ≡ some n
  chain_end-drop zero q n h es e c at = cc
  chain_end-drop (suc k) q n h [] e c at = cc
  chain_end-drop (suc zero) q n h (f ∷ es) e c at = chain_end-first q n h f e es c at
  chain_end-drop (suc (suc k)) q n h (f ∷ []) e c at = chain_end-first q n h f e [] c at
  chain_end-drop (suc (suc k)) q n h (f ∷ g ∷ es) e c at =
      let (first, rest) = chain_end-cons q n h f (g ∷ es) c in
      chain_end-drop (suc k) (q + 1) n (some f.hash) (g ∷ es) e rest at

  -- The events that are left continue from the anchor up to the sequence number.
  abbrev pub IsIntact : Trail → Type 0
  IsIntact t = chain_end digest t.anchor.sequence t.anchor.hash t.events ≡ some t.event_sequence

  verify_events-IsIntact : (t : Trail) → IsIntact t → verify_events digest t ≡ true
  unfolding verify_events
  verify_events-IsIntact t h = rw (h, verify_events) (ground arith)

  trim_events-IsIntact :
      (retention now : ℕ) (t : Trail) → IsIntact t → IsIntact (trim_events retention now t)
  unfolding trim_events
  trim_events-IsIntact retention now t h = elim (Bool-cases (leb (length t.events) retention)) [
    | inl fits ↦ rw fits h
    | inr over ↦
        let k = length t.events - retention in
        elim (Option-cases (get_last? (take k t.events))) [
          | inl n ↦ rw (over, n) h
          | inr (e, at) ↦ rw (over, at) (chain_end-drop k _ _ _ t.events e h at)
        ]
  ]

  module _ (event_id : ℕ → String) where
    new_event-continues :
        (t : Trail) (now : ℕ) (a : Action) (actor : String) (i : Item) (d : List (String × Detail))
        → continues digest t.event_sequence
            (chain_hash t.anchor.hash t.events)
            (new_event digest event_id t now a actor i d)
          ≡ true
    unfolding continues new_event last_hash
    new_event-continues t now a actor i d =
        let same = last_hash_lem t.anchor.hash t.events in
        ground (
          arith,
          opt_eq_iff (last_hash t) (chain_hash t.anchor.hash t.events),
          eq_iff (digest (new_event digest event_id t now a actor i d).unsigned)
              (digest (new_event digest event_id t now a actor i d).unsigned),
        )

    event-IsIntact :
        (t : Trail) (now : ℕ) (a : Action) (actor : String) (i : Item) (d : List (String × Detail))
        → IsIntact t
        → IsIntact (event digest event_id t now a actor i d)
    unfolding event
    event-IsIntact t now a actor i d h =
        chain_end-snoc _ _ _ t.events _ h (new_event-continues t now a actor i d)

    Extends-IsIntact : (t t' : Trail) → Extends digest event_id t t' → IsIntact t → IsIntact t'
    Extends-IsIntact t t' (one now a actor i d e) h =
        subst IsIntact (sym e) (event-IsIntact t now a actor i d h)
    Extends-IsIntact t t' (more {m} now a actor i d x e) h =
        subst IsIntact (sym e) (event-IsIntact m now a actor i d (Extends-IsIntact t m x h))

    expire_event-IsIntact :
        (now : ℕ) (i : Item) (t : Trail)
        → IsIntact t
        → IsIntact (expire_event digest event_id now i t)
    unfolding expire_event
    expire_event-IsIntact now i t h =
        elim (Bool-cases (same_status (effective_status i now) i.status)) [
          | inl same ↦ rw same h
          | inr changed ↦ rw changed (event-IsIntact t now _ _ _ [] h)
        ]

    expire-IsIntact :
        (now : ℕ) (items : List Item) (t : Trail)
        → IsIntact t
        → IsIntact (expire digest event_id now items t).1
    unfolding expire
    expire-IsIntact now [] t h = h
    expire-IsIntact now (i ∷ items) t h =
        expire-IsIntact now items _ (expire_event-IsIntact now i t h)

    abbrev pub HasIntactTrail : Snapshot → Type 0
    HasIntactTrail s = IsIntact s.trail

    abbrev IsAny : Principal → Type 0
    IsAny p = Unit

    trail-Preserved : (c : Config) → Preserved digest event_id c HasIntactTrail IsAny
    unfolding prepare finish
    trail-Preserved c = record {
      prepares = λ now s h. expire-IsIntact now s.requests s.trail h;
      finishes = λ now s h. trim_events-IsIntact c.event_retention now s.trail h;
      adds_request = λ id p t a now _ s s' k h e.
          Extends-IsIntact s.trail s'.trail
            (add_request-Addition digest event_id c id p t a now s s' k e).extended h;
      adds_break_glass = λ id p t a now _ s s' k h e.
          Extends-IsIntact s.trail s'.trail
            (add_break_glass-Addition digest event_id c id p t a now s s' k e).extended h;
      adds_decision = λ id v p text a now _ s s' k h e.
          Extends-IsIntact s.trail s'.trail
            (add_decision-Outcome digest event_id c id v p a now s s' k text e).extended h;
      denies_pending = λ id v p text a now _ s s' k h e.
          Extends-IsIntact s.trail s'.trail
            (deny_pending-Outcome digest event_id c id v p a now s s' k text e).extended h;
      cancels_open = λ id v p text a now _ s s' k h e.
          Extends-IsIntact s.trail s'.trail
            (cancel_open-Outcome digest event_id c id v p a now s s' k text e).extended h;
      revokes_active = λ id v p text a now _ s s' k h e.
          Extends-IsIntact s.trail s'.trail
            (revoke_active-Outcome digest event_id c id v p a now s s' k text e).extended h;
      adds_review = λ id v p outcome text a now _ s s' k h e.
          Extends-IsIntact s.trail s'.trail
            (add_review-Outcome digest event_id c id v p a now s s' k outcome text e).extended h;
    }

    All-IsAny : (calls : List Call) → All (λ (call : Call). IsAny call.principal) calls
    All-IsAny [] = tt
    All-IsAny (x ∷ calls) = (tt, All-IsAny calls)

    -- After any calls on an empty store, `verifyEvents` accepts the trail, also when `trim` has cut
    -- events off its front.
    pub verify_events-run :
        (c : Config) (calls : List Call) (start : ℕ)
        → verify_events digest (run digest event_id c calls (empty_snapshot start)).trail ≡ true
    unfolding empty_snapshot chain_end
    verify_events-run c calls start =
        verify_events-IsIntact (run digest event_id c calls (empty_snapshot start)).trail (
          run-keeps digest event_id c HasIntactTrail IsAny (trail-Preserved c) calls
            (empty_snapshot start) (All-IsAny calls) refl)
