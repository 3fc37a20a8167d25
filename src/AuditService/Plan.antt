-- ===== src/AuditService/Plan.antt =====
-- services/workforceAuditService.js, `createEngagement`: the audit plan has no double bookings.
use basitclaw.Common.{
  ℕ, ◌<◌, ◌≡◌, refl, String, Bool, false, ◌&&◌, not, Option, List, [], ◌∷◌, ◌++◌, arith, leb, ltb,
  str_eq, any, All, All-append, length, Bool-cases, inl, inr, Result, ok, err, >>=-eq-ok,
  guard-eq-ok, ok-injective, ok-pair, not-eq-true, sym, subst,
}
use basitclaw.Common.Text.{trim_text, contains}
use basitclaw.Ledger.{Unsigned}
use basitclaw.AuditService.{
  Error, World, State, Engagement, Placeholder, EngagementInput, parse_date, overlaps,
  add_placeholder,
}
use basitclaw.AuditService.Operations.{
  record_governance, settle, commit_mutation, checked, new_engagement, push_engagement,
  create_engagement, new_placeholder, push_placeholder, add_fieldwork_placeholder, new_finding,
  push_finding, create_finding,
}
use basitclaw.AuditService.Commit.{
  Call, creates_engagement, adds_placeholder, creates_finding, perform, forget,
}

-- A later engagement books the item of an earlier one that is not cancelled, in the same period.
abbrev pub clashes : Engagement → Engagement → Bool
clashes earlier later = overlaps later.universe_item_id later.starts later.ends earlier

-- Every engagement ends after its start, and no later one clashes with it.
abbrev pub IsPlan : List Engagement → Type 0
IsPlan [] = Unit
IsPlan (e ∷ es) = (e.starts < e.ends) × All (λ f. clashes e f ≡ false) es × IsPlan es

IsPlan-snoc :
    (es : List Engagement) (e : Engagement)
    → IsPlan es
    → any (overlaps e.universe_item_id e.starts e.ends) es ≡ false
    → e.starts < e.ends
    → IsPlan (es ++ e ∷ [])
IsPlan-snoc [] e h apart forward = (forward, tt, tt)
IsPlan-snoc (f ∷ es) e h apart forward =
    let (starts, later, rest) = h in
    let here : clashes f e ≡ false = ground arith in
    let there : any (overlaps e.universe_item_id e.starts e.ends) es ≡ false = ground arith in
    (
      starts,
      All-append (λ x. clashes f x ≡ false) es (e ∷ []) later (here, tt),
      IsPlan-snoc es e rest there forward,
    )

All-add_placeholder :
    (P : Engagement → Type 0) (id : String) (p : Placeholder) (es : List Engagement)
    → ((e : Engagement) (ps : List Placeholder) → P e → P (record e { placeholders = ps }))
    → All P es
    → All P (add_placeholder id p es)
unfolding add_placeholder
All-add_placeholder P id p [] keeps h = tt
All-add_placeholder P id p (e ∷ es) keeps h = elim (Bool-cases (str_eq e.id id)) [
  | inl t ↦ rw t (keeps e (e.placeholders ++ p ∷ []) h.0, h.1)
  | inr f ↦ rw f (h.0, All-add_placeholder P id p es keeps h.1)
]

IsPlan-add_placeholder :
    (id : String) (p : Placeholder) (es : List Engagement)
    → IsPlan es
    → IsPlan (add_placeholder id p es)
unfolding add_placeholder overlaps
IsPlan-add_placeholder id p [] h = tt
IsPlan-add_placeholder id p (e ∷ es) h = elim (Bool-cases (str_eq e.id id)) [
  | inl t ↦ rw t h
  | inr f ↦
      let (starts, later, rest) = h in
      rw f (
        starts,
        All-add_placeholder (λ x. clashes e x ≡ false) id p es (λ _ _ apart. apart) later,
        IsPlan-add_placeholder id p es rest,
      )
]

module _ (hash_event : Unsigned → String) (tenant : String) (persist : World → Bool) where
  settle-state :
      {A : Type 0} (P : List Engagement → Type 0) (w : World) (r : Result Error (World × A))
      → P w.state.engagements
      → ((w' : World) (a : A) → r ≡ ok (w', a) → P w'.state.engagements)
      → P (settle hash_event tenant persist w r).1.state.engagements
  unfolding settle
  settle-state P w (err e) p h = p
  settle-state P w (ok (w', a)) p h = elim (Bool-cases (persist w')) [
    | inl kept ↦ rw kept (h w' a refl)
    | inr lost ↦ rw lost p
  ]

  checked-state :
      {A B : Type 0} (P : List Engagement → Type 0) (r : Result Error A)
      (rest : A → Result Error B × World) (w : World)
      → P w.state.engagements
      → ((a : A) → r ≡ ok a → P (rest a).1.state.engagements)
      → P (checked hash_event tenant persist r rest w).1.state.engagements
  unfolding checked
  checked-state P (err e) rest w p h = p
  checked-state P (ok a) rest w p h = h a refl

  module _ (universe : List String) (year : ℕ → String) (padded : ℕ → ℕ → String) where
    -- A new engagement books a free period of its item.
    new_engagement-free :
        (i : EngagementInput) (now : ℕ) (s : State) (e : Engagement)
        → new_engagement hash_event tenant persist universe year padded i now s ≡ ok e
        → (any (overlaps e.universe_item_id e.starts e.ends) s.engagements ≡ false)
          × (e.starts < e.ends)
    unfolding new_engagement
    new_engagement-free i now s e h =
        let (_, h1) = guard-eq-ok (not (str_eq i.universe_item_id "")) _ _ h in
        let (_, h2) = guard-eq-ok (not (str_eq i.objective "")) _ _ h1 in
        let (_, h3) = guard-eq-ok (not (str_eq i.lead_auditor "")) _ _ h2 in
        let (_, h4) = guard-eq-ok (not (str_eq i.start_date.written "")) _ _ h3 in
        let (_, h5) = guard-eq-ok (not (str_eq i.end_date.written "")) _ _ h4 in
        let (_, h6) = guard-eq-ok (contains i.universe_item_id universe) _ _ h5 in
        let (_, h7) =
          guard-eq-ok (leb 1 (length i.scope) && not (any (λ t. str_eq (trim_text t) "") i.scope)) _
            _ h6 in
        let (starts, _, h8) = >>=-eq-ok (parse_date i.start_date "startDate") _ h7 in
        let (ends, _, h9) = >>=-eq-ok (parse_date i.end_date "endDate") _ h8 in
        let (forward, h10) = guard-eq-ok (ltb starts ends) _ _ h9 in
        let (_, h11) = guard-eq-ok i.management_approved _ _ h10 in
        let (free, h12) =
          guard-eq-ok (not (any (overlaps i.universe_item_id starts ends) s.engagements)) _ _ h11 in
        let is = ok-injective _ e h12 in
        let later : starts < ends = ground arith in
        subst
          (λ (x : Engagement).
            (any (overlaps x.universe_item_id x.starts x.ends) s.engagements ≡ false)
            × (x.starts < x.ends))
          is (not-eq-true _ free, later)

    forget-state :
        {A : Type 0} (P : List Engagement → Type 0) (r : Result Error A × World)
        → P r.1.state.engagements
        → P (forget hash_event tenant persist universe year padded r).1.state.engagements
    unfolding forget
    forget-state P (ok a, w) p = p
    forget-state P (err e, w) p = p

    -- A plan in which every engagement ends after its start and none books an item in the period of an
    -- earlier engagement of that item, cancelled ones aside, stays such a plan under every call.
    pub perform-IsPlan :
        (call : Call hash_event tenant persist universe year padded) (actor : Option String)
        (now : ℕ) (w : World)
        → IsPlan w.state.engagements
        → IsPlan
            (perform hash_event tenant persist universe year padded call actor now
              w).1.state.engagements
    unfolding perform create_engagement add_fieldwork_placeholder create_finding commit_mutation
        push_engagement push_placeholder push_finding
    perform-IsPlan (creates_engagement i) actor now w p = forget-state IsPlan _ (
        checked-state IsPlan
          (new_engagement hash_event tenant persist universe year padded i now w.state) _ w p
          (λ e made. settle-state IsPlan w _ p (λ w' a h.
            let (l, _, h1) =
              >>=-eq-ok (record_governance hash_event tenant persist _ _ _ actor _ now w.ledger) _
                h in
            let (w_is, _) = ok-pair _ w' a h1 in
            let (free, forward) = new_engagement-free i now w.state e made in
            subst (λ (x : World). IsPlan x.state.engagements) (sym w_is)
              (IsPlan-snoc w.state.engagements e p free forward))))
    perform-IsPlan (adds_placeholder id i) actor now w p = forget-state IsPlan _ (
        checked-state IsPlan
          (new_placeholder hash_event tenant persist universe year padded id i now w.state) _ w p
          (λ x made. settle-state IsPlan w _ p (λ w' a h.
            let (l, _, h1) =
              >>=-eq-ok (record_governance hash_event tenant persist _ _ _ actor _ now w.ledger) _
                h in
            let (w_is, _) = ok-pair _ w' a h1 in
            subst (λ (y : World). IsPlan y.state.engagements) (sym w_is)
              (IsPlan-add_placeholder id x w.state.engagements p))))
    perform-IsPlan (creates_finding i) actor now w p = forget-state IsPlan _ (
        checked-state IsPlan
          (new_finding hash_event tenant persist universe year padded i now w.state) _ w p
          (λ f made. settle-state IsPlan w _ p (λ w' a h.
            let (l, _, h1) =
              >>=-eq-ok (record_governance hash_event tenant persist _ _ _ actor _ now w.ledger) _
                h in
            let (w_is, _) = ok-pair _ w' a h1 in
            subst (λ (y : World). IsPlan y.state.engagements) (sym w_is) p)))
