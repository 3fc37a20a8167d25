-- ===== src/PrivilegedAccess/FourEyes.antt =====
-- security/privilegedAccessRegistry.js: a grant that is no break-glass grant was approved by enough
-- people, all different, and none of them its subject.
use basitclaw.Common.{
  ℕ, ◌+◌, ◌≤◌, ◌≡◌, ◌≢◌, refl, String, Bool, true, false, Option, some, List, [], ◌∷◌, ◌++◌, arith,
  if◌then◌else◌, length, All, All-append, All-get_elem?, Bool-cases, ◌⊎◌, inl, inr, ok, subst, sym,
  ◌∙◌, ap,
}
use basitclaw.Common.Text.{trim_text}
use basitclaw.PrivilegedAccess.{
  Config, Principal, Item, Approval, Status, pending, active, denied, cancelled, revoked, expired,
  Snapshot, Unsigned, Denial, empty_snapshot,
}
use basitclaw.PrivilegedAccess.Checks.{}
use basitclaw.PrivilegedAccess.Store.{effective_status, effective, finish, same_status, expire_item}
use basitclaw.PrivilegedAccess.Requests.{Holder, pending_item, break_glass_item}
use basitclaw.PrivilegedAccess.Decisions.{approved_item, close_item}
use basitclaw.PrivilegedAccess.Invariants.{All-find_item, All-set_item, All-prepare}
use basitclaw.PrivilegedAccess.Outcomes.{
  IsNew, Outcome, add_decision-Outcome, deny_pending-Outcome, cancel_open-Outcome,
  revoke_active-Outcome, add_review-Outcome,
}
use basitclaw.PrivilegedAccess.Additions.{Addition, add_request-Addition, add_break_glass-Addition}
use basitclaw.PrivilegedAccess.Induction.{Preserved, run-keeps}
use basitclaw.PrivilegedAccess.Authority.{authorise-Backed, effective-active}
use basitclaw.PrivilegedAccess.Queries.{authorise, granted}
use basitclaw.PrivilegedAccess.Calls.{Call, run}

abbrev pub DistinctApprovers : List Approval → Type 0
DistinctApprovers [] = Unit
DistinctApprovers (a ∷ as') = IsNew a.subject as' × DistinctApprovers as'

-- What approval means for a request under a configuration.
pub record IsApproved (c : Config) (i : Item) : Type 0 where
  pub asked : i.break_glass ≡ false → i.approvals_required ≡ c.approvals_required
  pub enough : i.break_glass ≡ false → i.status ≡ active → c.approvals_required ≤ length i.approvals
  pub others : IsNew i.subject i.approvals
  pub distinct : DistinctApprovers i.approvals

DistinctApprovers-snoc :
    (as' : List Approval) (a : Approval)
    → DistinctApprovers as'
    → IsNew a.subject as'
    → DistinctApprovers (as' ++ a ∷ [])
DistinctApprovers-snoc [] a d n = (tt, tt)
DistinctApprovers-snoc (b ∷ bs) a d n = (
  All-append (λ x. x.subject ≢ b.subject) bs (a ∷ []) d.0 (λ e. n.0 (sym e), tt),
  DistinctApprovers-snoc bs a d.1 n.1,
)

-- Time changes a status only to expired.
effective_status_changed :
    (i : Item) (now : ℕ)
    → same_status (effective_status i now) i.status ≡ false
    → effective_status i now ≡ expired
unfolding effective_status
effective_status_changed i now h = ground arith

pub expire_item_cases :
    (digest : Unsigned → String) (event_id : ℕ → String) (now : ℕ) (i : Item)
    → (expire_item digest event_id now i ≡ i)
      ⊎ (expire_item digest event_id now i
          ≡ record i { status = expired; closed_at = some now; version = i.version + 1 })
unfolding expire_item
expire_item_cases digest event_id now i =
    elim (Bool-cases (same_status (effective_status i now) i.status)) [
      | inl same ↦ inl (ground arith)
      | inr changed ↦ let e = effective_status_changed i now changed in inr (ground arith)
    ]

approved_item_fields :
    (now : ℕ) (a : Approval) (i : Item)
    → ((approved_item now a i).subject ≡ i.subject)
      × ((approved_item now a i).approvals ≡ i.approvals ++ a ∷ [])
      × ((approved_item now a i).break_glass ≡ i.break_glass)
      × ((approved_item now a i).approvals_required ≡ i.approvals_required)
      × (i.status ≢ active
          → (approved_item now a i).status ≡ active
          → i.approvals_required ≤ length (i.approvals ++ a ∷ []))
unfolding approved_item
approved_item_fields now a i = ground arith

module _ (c : Config) where
  expire_item-IsApproved :
      (digest : Unsigned → String) (event_id : ℕ → String) (now : ℕ) (i : Item)
      → IsApproved c i
      → IsApproved c (expire_item digest event_id now i)
  expire_item-IsApproved digest event_id now i h = elim (expire_item_cases digest event_id now i) [
    | inl same ↦ subst (IsApproved c) (sym same) h
    | inr e ↦ subst (IsApproved c) (sym e) (record {
      asked = h.asked;
      enough = λ _ a. absurd (cc a);
      others = h.others;
      distinct = h.distinct;
    })
  ]

  close_item-IsApproved :
      (s : Status) (now : ℕ) (i : Item)
      → s ≢ active
      → IsApproved c i
      → IsApproved c (close_item s now i)
  unfolding close_item
  close_item-IsApproved s now i n h = record {
    asked = h.asked;
    enough = λ _ e. absurd (n e);
    others = h.others;
    distinct = h.distinct;
  }

  denied_item-IsApproved :
      (d : Denial) (now : ℕ) (i : Item)
      → IsApproved c i
      → IsApproved c (let j = close_item denied now i in record j { denial = some d })
  unfolding close_item
  denied_item-IsApproved d now i h = record {
    asked = h.asked;
    enough = λ _ e. absurd (cc e);
    others = h.others;
    distinct = h.distinct;
  }

  cancelled-ne-active : (b : Bool) → (if b then revoked else cancelled) ≢ active
  cancelled-ne-active true e = cc e
  cancelled-ne-active false e = cc e

  approved_item-IsApproved :
      (now : ℕ) (a : Approval) (i : Item)
      → IsApproved c i
      → i.status ≢ active
      → a.subject ≢ i.subject
      → IsNew a.subject i.approvals
      → IsApproved c (approved_item now a i)
  approved_item-IsApproved now a i h idle other new =
      let f = approved_item_fields now a i in
      record {
        asked = λ b. f.3 ∙ h.asked (sym f.2 ∙ b);
        enough = λ b t.
            let asked = h.asked (sym f.2 ∙ b) in
            let reached = f.4 idle t in omega (arith, ap (λ (l : List Approval). length l) f.1);
        others =
            subst (λ s. IsNew s (approved_item now a i).approvals) (sym f.0)
              (subst (IsNew i.subject) (sym f.1) (
                All-append (λ x. x.subject ≢ i.subject) i.approvals (a ∷ []) h.others (other, tt)));
        distinct =
            subst DistinctApprovers (sym f.1) (DistinctApprovers-snoc i.approvals a h.distinct new);
      }

  pending-ne-active : (i : Item) (now : ℕ) → effective_status i now ≡ pending → i.status ≢ active
  unfolding effective_status
  pending-ne-active i now h a = ground arith

  module _ (digest : Unsigned → String) (event_id : ℕ → String) where
    -- A decision that succeeded keeps the requests approved if the new item is.
    Outcome-IsApproved :
        (s s' : Snapshot) (k : Item) (id : String) (expected : Option ℕ) (Means : Item → Type 0)
        → Outcome digest event_id s s' k id expected Means
        → ((i : Item) → Means i → IsApproved c i → IsApproved c k)
        → All (IsApproved c) s.requests
        → All (IsApproved c) s'.requests
    Outcome-IsApproved s s' k id expected Means o step h =
        subst (All (IsApproved c)) (sym o.stored) (
          All-set_item (IsApproved c) k s.requests
            (step o.item o.means (All-find_item (IsApproved c) id s.requests o.item h o.found)) h)

    Addition-IsApproved :
        (s s' : Snapshot) (k : Item) (Means : Holder → Type 0)
        → Addition digest event_id s s' k Means
        → IsApproved c k
        → All (IsApproved c) s.requests
        → All (IsApproved c) s'.requests
    Addition-IsApproved s s' k Means o new h =
        subst (All (IsApproved c)) (sym o.stored)
          (All-append (IsApproved c) s.requests (k ∷ []) h (new, tt))

    -- A principal as authentication makes it: its subject has no spaces around it.
    abbrev pub IsTrimmed : Principal → Type 0
    IsTrimmed p = trim_text p.subject ≡ p.subject

    abbrev pub AllApproved : Snapshot → Type 0
    AllApproved s = All (IsApproved c) s.requests

    pub approvals-Preserved : Preserved digest event_id c AllApproved IsTrimmed
    unfolding finish pending_item break_glass_item
    approvals-Preserved = record {
      prepares = λ now s h.
          All-prepare (IsApproved c) digest event_id (expire_item-IsApproved digest event_id) c now
            s h;
      finishes = λ now s h. h;
      adds_request = λ id p t a now good s s' k h e.
          let o = add_request-Addition digest event_id c id p t a now s s' k e in
          Addition-IsApproved s s' k _ o
            (subst (IsApproved c) (sym o.means.0) (record {
              asked = λ _. refl;
              enough = λ _ x. absurd (cc x);
              others = tt;
              distinct = tt;
            }))
            h;
      adds_break_glass = λ id p t a now good s s' k h e.
          let o = add_break_glass-Addition digest event_id c id p t a now s s' k e in
          Addition-IsApproved s s' k _ o
            (subst (IsApproved c) (sym o.means) (record {
              asked = λ x. absurd (cc x);
              enough = λ x. absurd (cc x);
              others = tt;
              distinct = tt;
            }))
            h;
      adds_decision = λ id v p text a now trimmed s s' k h e.
          let o = add_decision-Outcome digest event_id c id v p a now s s' k text e in
          Outcome-IsApproved s s' k id v _ o
            (λ i (waits, _, other, new, b, trims, k_is) was.
              let is_p : b.subject ≡ p.subject = trims ∙ trimmed in
              subst (IsApproved c) (sym k_is) (
                approved_item-IsApproved now b i was (pending-ne-active i now waits)
                  (λ q. other (sym q ∙ is_p)) (subst (λ x. IsNew x i.approvals) (sym is_p) new)))
            h;
      denies_pending = λ id v p text a now good s s' k h e.
          let o = deny_pending-Outcome digest event_id c id v p a now s s' k text e in
          Outcome-IsApproved s s' k id v _ o
            (λ i (_, _, _, d, k_is) was.
              subst (IsApproved c) (sym k_is) (denied_item-IsApproved d now i was))
            h;
      cancels_open = λ id v p text a now good s s' k h e.
          let o = cancel_open-Outcome digest event_id c id v p a now s s' k text e in
          Outcome-IsApproved s s' k id v _ o
            (λ i (_, _, _, k_is) was.
              subst (IsApproved c) (sym k_is)
                (close_item-IsApproved _ now i (cancelled-ne-active _) was))
            h;
      revokes_active = λ id v p text a now good s s' k h e.
          let o = revoke_active-Outcome digest event_id c id v p a now s s' k text e in
          Outcome-IsApproved s s' k id v _ o
            (λ i (_, _, k_is) was.
              subst (IsApproved c) (sym k_is) (close_item-IsApproved revoked now i (λ x. cc x) was))
            h;
      adds_review = λ id v p outcome text a now good s s' k h e.
          let o = add_review-Outcome digest event_id c id v p a now s s' k outcome text e in
          Outcome-IsApproved s s' k id v _ o
            (λ i (_, _, _, r, k_is) was. subst (IsApproved c) (sym k_is) (record {
              asked = was.asked;
              enough = was.enough;
              others = was.others;
              distinct = was.distinct;
            }))
            h;
    }

    -- After any calls on an empty store by principals whose subjects have no spaces around them, a
    -- grant other than a break-glass one that `authorise` returns for a protected permission has at
    -- least `approvals_required` approvals, by people who are all different and none of whom is the
    -- subject of the grant.
    pub authorise-run :
        (calls : List Call) (start now : ℕ) (p : Principal) (permission : String) (g : Item)
        → All (λ (call : Call). IsTrimmed call.principal) calls
        → authorise c (run digest event_id c calls (empty_snapshot start)) now p permission
          ≡ ok (granted g)
        → g.break_glass ≡ false
        → (c.approvals_required ≤ length g.approvals)
          × IsNew g.subject g.approvals
          × DistinctApprovers g.approvals
    unfolding effective empty_snapshot
    authorise-run calls start now p permission g good h plain =
        let s = run digest event_id c calls (empty_snapshot start) in
        let b = (authorise-Backed c s now p permission g h).0 in
        let approved =
          run-keeps digest event_id c AllApproved IsTrimmed approvals-Preserved calls
            (empty_snapshot start) good tt in
        let i = b.item in
        let ok_i = All-get_elem? (IsApproved c) s.requests b.place i approved b.stored in
        let was_plain = sym (ap (λ (x : Item). x.break_glass) b.is_view) ∙ plain in
        subst
          (λ (x : Item).
            (c.approvals_required ≤ length x.approvals)
            × IsNew x.subject x.approvals
            × DistinctApprovers x.approvals)
          (sym b.is_view)
          (ok_i.enough was_plain (effective-active i now b.in_force), ok_i.others, ok_i.distinct)
