-- ===== src/PrivilegedAccess/Additions.antt =====
-- security/privilegedAccessRegistry.js: what a new request and a break-glass activation stored.
use basitclaw.Common.{
  ℕ, ◌≡◌, String, false, not, Option, [], ◌∷◌, ◌++◌, any, ok, >>=-eq-ok, guard-eq-ok, ok-pair,
  not-eq-true, ap, sym, ◌∙◌,
}
use basitclaw.PrivilegedAccess.{Config, Principal, Item, Snapshot, Unsigned}
use basitclaw.PrivilegedAccess.Checks.{actor_of}
use basitclaw.PrivilegedAccess.Requests.{
  Terms, Holder, pending_item, break_glass_item, overlaps, holder_of, add_request, add_break_glass,
}
use basitclaw.PrivilegedAccess.Outcomes.{Extends, one}

module _ (digest : Unsigned → String) (event_id : ℕ → String) where
  -- The new item stands behind the others, and at least one event behind the others.
  pub record Addition (s s' : Snapshot) (k : Item) (Means : Holder → Type 0) : Type 0 where
    pub holder : Holder
    pub means : Means holder
    pub stored : s'.requests ≡ s.requests ++ k ∷ []
    pub extended : Extends digest event_id s.trail s'.trail

  module _ (c : Config) (id : String) (p : Principal) (t : Terms) (actor : Option String) (now : ℕ)
      (s s' : Snapshot) (k : Item) where
    abbrev pub Requests : Holder → Type 0
    Requests h =
        (k ≡ pending_item c id now h t) × (any (overlaps p t.permissions now) s.requests ≡ false)

    pub add_request-Addition :
        add_request digest event_id c id p t actor now s ≡ ok (s', k) → Addition s s' k Requests
    unfolding add_request
    add_request-Addition e =
        let (alone, e1) = guard-eq-ok (not (any (overlaps p t.permissions now) s.requests)) _ _ e in
        let (h, _, e2) = >>=-eq-ok (holder_of p) _ e1 in
        let (a, _, e3) = >>=-eq-ok (actor_of actor p) _ e2 in
        let (s_is, k_is) = ok-pair _ s' k e3 in
        record {
          holder = h;
          means = (k_is, not-eq-true _ alone);
          stored =
              ap (λ (x : Snapshot). x.requests) s_is ∙ ap (λ j. s.requests ++ j ∷ []) (sym k_is);
          extended = one now _ a _ _ (ap (λ (x : Snapshot). x.trail) s_is);
        }

    abbrev pub BreaksGlass : Holder → Type 0
    BreaksGlass h = k ≡ break_glass_item c id now h t

    pub add_break_glass-Addition :
        add_break_glass digest event_id c id p t actor now s ≡ ok (s', k)
        → Addition s s' k BreaksGlass
    unfolding add_break_glass
    add_break_glass-Addition e =
        let (h, _, e2) = >>=-eq-ok (holder_of p) _ e in
        let (a, _, e3) = >>=-eq-ok (actor_of actor p) _ e2 in
        let (s_is, k_is) = ok-pair _ s' k e3 in
        record {
          holder = h;
          means = k_is;
          stored =
              ap (λ (x : Snapshot). x.requests) s_is ∙ ap (λ j. s.requests ++ j ∷ []) (sym k_is);
          extended = one now _ a _ _ (ap (λ (x : Snapshot). x.trail) s_is);
        }
