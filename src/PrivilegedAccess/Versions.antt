-- ===== src/PrivilegedAccess/Versions.antt =====
-- security/privilegedAccessRegistry.js: the version of a request as the precondition of a decision.
use basitclaw.Common.{
  ℕ, ◌+◌, ◌≡◌, refl, String, false, Option, some, List, [], ◌∷◌, arith, str_eq, eq_iff, Bool-cases,
  inl, inr, Result, ok, err, ◌>>=◌, guard, ◌||◌, subst, sym, ◌∙◌,
}
use basitclaw.PrivilegedAccess.{
  Config, Principal, Item, Approval, Snapshot, Error, Unsigned, bad_input,
}
use basitclaw.PrivilegedAccess.Checks.{eligible, manage, text_of, find_item}
use basitclaw.PrivilegedAccess.Store.{prepare, finish, mutate, set_item}
use basitclaw.PrivilegedAccess.Decisions.{
  DecisionInput, add_approval, activate, approved_item, close_item, add_decision, deny_pending,
  cancel_open, revoke_active, add_review, approve, deny, cancel, revoke, complete_post_review,
}
use basitclaw.PrivilegedAccess.Invariants.{mutate-eq-ok}
use basitclaw.PrivilegedAccess.Outcomes.{
  Outcome, add_decision-Outcome, deny_pending-Outcome, cancel_open-Outcome, revoke_active-Outcome,
  add_review-Outcome,
}
use basitclaw.PrivilegedAccess.Calls.{
  Request, requests, breaks_glass, approves, denies, cancels, revokes, reviews, perform_request,
}

-- The same request, one version later.
abbrev Follows : Item → Item → Type 0
Follows i k = (k.id ≡ i.id) × (k.version ≡ i.version + 1)

approved_item-Follows : (now : ℕ) (a : Approval) (i : Item) → Follows i (approved_item now a i)
unfolding approved_item add_approval activate
approved_item-Follows now a i = ground arith

find_item-id :
    (id : String) (items : List Item) (i : Item) → find_item id items ≡ some i → i.id ≡ id
unfolding find_item
find_item-id id [] i h = cc
find_item-id id (j ∷ items) i h = ground (arith, find_item-id id items i, eq_iff j.id id)

find_item-set_item :
    (id : String) (k i : Item) (items : List Item)
    → k.id ≡ id
    → find_item id items ≡ some i
    → find_item id (set_item k items) ≡ some k
unfolding find_item set_item
find_item-set_item id k i [] e h = cc
find_item-set_item id k i (j ∷ items) e h = elim (Bool-cases (str_eq j.id k.id)) [
  | inl t ↦ rw t (let same = (eq_iff k.id id).1 e in ground arith)
  | inr f ↦ rw f (
      let n : str_eq j.id id ≡ false = subst (λ x. str_eq j.id x ≡ false) e f in
      rw n (find_item-set_item id k i items e (rw n at h)))
]

-- The decision names a request of the snapshot at its current version, and the stored request that
-- it leaves under the id is one version later.
pub record Advances (before after : Snapshot) (k : Item) (d : DecisionInput) : Type 0 where
  pub item : Item
  pub found : find_item d.id before.requests ≡ some item
  pub current : d.expected_version ≡ some item.version
  pub next : k.version ≡ item.version + 1
  pub stored : find_item d.id after.requests ≡ some k

module _ (digest : Unsigned → String) (event_id : ℕ → String) where
  Outcome-Advances :
      (s s' : Snapshot) (k : Item) (d : DecisionInput) (Means : Item → Type 0)
      → Outcome digest event_id s s' k d.id d.expected_version Means
      → ((i : Item) → Means i → Follows i k)
      → Advances s s' k d
  Outcome-Advances s s' k d Means o follows =
      let (same, next) = follows o.item o.means in
      record {
        item = o.item;
        found = o.found;
        current = o.precondition;
        next = next;
        stored =
            subst (λ l. find_item d.id l ≡ some k) (sym o.stored)
              (find_item-set_item d.id k o.item s.requests
                (same ∙ find_item-id d.id s.requests o.item o.found) o.found);
      }

  module _ (c : Config) where
    -- What a decision at a time does wherever it succeeds.
    abbrev AdvancesAt : ℕ → DecisionInput → (Snapshot → Result Error (Snapshot × Item)) → Type 0
    AdvancesAt now d operation =
        (s s' : Snapshot) (k : Item)
        → operation s ≡ ok (s', k)
        → Advances (prepare digest event_id c now s) s' k d

    abbrev Steps : DecisionInput → (Snapshot → Result Error (Snapshot × Item)) → Type 0
    Steps d operation = (s s' : Snapshot) (k : Item) → operation s ≡ ok (s', k) → Advances s s' k d

    bind-AdvancesAt :
        (now : ℕ) (d : DecisionInput) {A : Type 0} (m : Result Error A)
        (f : A → Snapshot → Result Error (Snapshot × Item))
        → ((a : A) → AdvancesAt now d (f a))
        → AdvancesAt now d (λ s. m >>= λ a. f a s)
    bind-AdvancesAt now d (ok a) f keeps s s' k e = keeps a s s' k e
    bind-AdvancesAt now d (err x) f keeps s s' k e = cc

    mutate-AdvancesAt :
        (now : ℕ) (d : DecisionInput) (operation : Snapshot → Result Error (Snapshot × Item))
        → Steps d operation
        → AdvancesAt now d (λ s. mutate digest event_id c s now operation)
    unfolding finish
    mutate-AdvancesAt now d operation steps s s' k e =
        let (s1, worked, stored) = mutate-eq-ok digest event_id c s s' now operation k e in
        let a = steps (prepare digest event_id c now s) s1 k worked in
        record {
          item = a.item;
          found = a.found;
          current = a.current;
          next = a.next;
          stored =
              subst (λ (x : Snapshot). find_item d.id x.requests ≡ some k) (sym stored) a.stored;
        }

    -- The argument of a call that decides on a request.
    abbrev pub Decides : Request → DecisionInput → Type 0
    Decides (approves i) d = i ≡ d
    Decides (denies i) d = i ≡ d
    Decides (cancels i) d = i ≡ d
    Decides (revokes i) d = i ≡ d
    Decides (reviews i outcome) d = i ≡ d
    Decides _ d = ⊥

    add_decision-Steps :
        (d : DecisionInput) (p : Principal) (text : String) (a : Option String) (now : ℕ)
        → Steps d (add_decision digest event_id c d.id d.expected_version p text a now)
    add_decision-Steps d p text a now s s' k e =
        Outcome-Advances s s' k d _
          (add_decision-Outcome digest event_id c d.id d.expected_version p a now s s' k text e)
          (λ i (_, _, _, _, b, _, k_is).
            subst (Follows i) (sym k_is) (approved_item-Follows now b i))

    deny_pending-Steps :
        (d : DecisionInput) (p : Principal) (text : String) (a : Option String) (now : ℕ)
        → Steps d (deny_pending digest event_id c d.id d.expected_version p text a now)
    unfolding close_item
    deny_pending-Steps d p text a now s s' k e =
        Outcome-Advances s s' k d _
          (deny_pending-Outcome digest event_id c d.id d.expected_version p a now s s' k text e)
          (λ i (_, _, _, b, k_is). subst (Follows i) (sym k_is) (refl, refl))

    cancel_open-Steps :
        (d : DecisionInput) (p : Principal) (text : String) (a : Option String) (now : ℕ)
        → Steps d (cancel_open digest event_id c d.id d.expected_version p text a now)
    unfolding close_item
    cancel_open-Steps d p text a now s s' k e =
        Outcome-Advances s s' k d _
          (cancel_open-Outcome digest event_id c d.id d.expected_version p a now s s' k text e)
          (λ i (_, _, _, k_is). subst (Follows i) (sym k_is) (refl, refl))

    revoke_active-Steps :
        (d : DecisionInput) (p : Principal) (text : String) (a : Option String) (now : ℕ)
        → Steps d (revoke_active digest event_id c d.id d.expected_version p text a now)
    unfolding close_item
    revoke_active-Steps d p text a now s s' k e =
        Outcome-Advances s s' k d _
          (revoke_active-Outcome digest event_id c d.id d.expected_version p a now s s' k text e)
          (λ i (_, _, k_is). subst (Follows i) (sym k_is) (refl, refl))

    add_review-Steps :
        (d : DecisionInput) (p : Principal) (outcome text : String) (a : Option String) (now : ℕ)
        → Steps d (add_review digest event_id c d.id d.expected_version p outcome text a now)
    add_review-Steps d p outcome text a now s s' k e =
        Outcome-Advances s s' k d _
          (add_review-Outcome digest event_id c d.id d.expected_version p a now s s' k outcome text
            e)
          (λ i (_, _, _, r, k_is). subst (Follows i) (sym k_is) (refl, refl))

    decision-AdvancesAt :
        (r : Request) (d : DecisionInput) (p : Principal) (a : Option String) (now : ℕ)
        → Decides r d
        → AdvancesAt now d (perform_request digest event_id c r p a now)
    unfolding perform_request approve deny cancel revoke complete_post_review
    decision-AdvancesAt (requests id i) d p a now is = elim is [ ]
    decision-AdvancesAt (breaks_glass id i) d p a now is = elim is [ ]
    decision-AdvancesAt (approves i) d p a now is =
        subst (λ j. AdvancesAt now j (approve digest event_id c i p a now)) is
          (bind-AdvancesAt now i (manage p "privileged:approve") _ λ _.
            bind-AdvancesAt now i (eligible c p false) _ λ _.
              bind-AdvancesAt now i (text_of i.reason "comment" 10 1000) _
                λ t. mutate-AdvancesAt now i _ (add_decision-Steps i p t a now))
    decision-AdvancesAt (denies i) d p a now is =
        subst (λ j. AdvancesAt now j (deny digest event_id c i p a now)) is
          (bind-AdvancesAt now i (manage p "privileged:approve") _ λ _.
            bind-AdvancesAt now i (eligible c p false) _ λ _.
              bind-AdvancesAt now i (text_of i.reason "reason" 10 1000) _
                λ t. mutate-AdvancesAt now i _ (deny_pending-Steps i p t a now))
    decision-AdvancesAt (cancels i) d p a now is =
        subst (λ j. AdvancesAt now j (cancel digest event_id c i p a now)) is
          (bind-AdvancesAt now i (manage p "privileged:request") _ λ _.
            bind-AdvancesAt now i (text_of i.reason "reason" 10 1000) _
              λ t. mutate-AdvancesAt now i _ (cancel_open-Steps i p t a now))
    decision-AdvancesAt (revokes i) d p a now is =
        subst (λ j. AdvancesAt now j (revoke digest event_id c i p a now)) is
          (bind-AdvancesAt now i (manage p "privileged:revoke") _ λ _.
            bind-AdvancesAt now i (eligible c p false) _ λ _.
              bind-AdvancesAt now i (text_of i.reason "reason" 10 1000) _
                λ t. mutate-AdvancesAt now i _ (revoke_active-Steps i p t a now))
    decision-AdvancesAt (reviews i outcome) d p a now is =
        subst (λ j. AdvancesAt now j (complete_post_review digest event_id c i outcome p a now)) is
          (bind-AdvancesAt now i (manage p "privileged:approve") _ λ _.
            bind-AdvancesAt now i (eligible c p false) _ λ _.
              bind-AdvancesAt now i
                (guard (str_eq outcome "accepted" || str_eq outcome "concern")
                  (bad_input "outcome"))
                _
                λ _.
                  bind-AdvancesAt now i (text_of i.reason "reason" 20 1000) _
                    λ t. mutate-AdvancesAt now i _ (add_review-Steps i p outcome t a now))

    -- An approval, denial, cancellation, revocation or post-review that succeeds named the version
    -- that the request had once expired requests were settled, and leaves the request that it
    -- returns stored under the id, one version later.
    pub perform_request-Advances :
        (r : Request) (d : DecisionInput) (p : Principal) (a : Option String) (now : ℕ)
        (s s' : Snapshot) (k : Item)
        → Decides r d
        → perform_request digest event_id c r p a now s ≡ ok (s', k)
        → Advances (prepare digest event_id c now s) s' k d
    perform_request-Advances r d p a now s s' k decides e =
        decision-AdvancesAt r d p a now decides s s' k e
