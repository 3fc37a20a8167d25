-- ===== src/AlertOutbox/Claims.antt =====
-- security/securityAlertOutbox.js, `claimDue` and what ends a claim.
use basitclaw.Common.{
  ℕ, suc, ◌+◌, ◌-◌, ◌⊎◌, ◌≤◌, ◌≡◌, refl, String, eq_iff, ◌&&◌, none, some, List, [], ◌∷◌, arith,
  leb, ltb, ◌==◌, length, All, Bool-cases, inl, inr, ok, err, >>=-eq-ok, guard-eq-ok, ok-pair,
  ok-injective, sym, subst, ap, ◌∙◌, ◌≢◌, Bool, true, false, str_eq, and-left, and-right, Option,
  Option-cases,
}
use basitclaw.AlertOutbox.{
  Config, Outbox, Item, Receipt, State, inflight, pending, dead_letter, delivered, Claim, no_file,
  not_owned,
}
use basitclaw.AlertOutbox.Files.{put, get, remove, names, get-remove}
use basitclaw.AlertOutbox.Operations.{
  Response, Failure, is_inflight, read, recover_stale, claim_loop, claim_due, claimed_item,
  read_claim, complete, dead_letter_claim, retry,
}

-- In flight, under a claim with this token.
abbrev pub IsHeldBy : String → Item → Type 0
IsHeldBy token i =
    (i.state ≡ inflight) × (holder : Claim) × (i.claim ≡ some holder) × (holder.token ≡ token)

abbrev claimed_with : Item → String → Bool
claimed_with i token = elim i.claim [ none ↦ false | some c ↦ str_eq c.token token ]

is_inflight-state : (x : State) → is_inflight x ≡ true → x ≡ inflight
is_inflight-state inflight h = refl
is_inflight-state pending h = ground arith
is_inflight-state dead_letter h = ground arith
is_inflight-state delivered h = ground arith

claimed_with-holder :
    (i : Item) (token : String)
    → claimed_with i token ≡ true
    → (holder : Claim) × (i.claim ≡ some holder) × (holder.token ≡ token)
claimed_with-holder i token h = elim (Option-cases i.claim) [
  | inl n ↦ let shut : claimed_with i token ≡ false = rw n refl in absurd (cc (h, shut))
  | inr (holder, held) ↦ (holder, held, (eq_iff holder.token token).0 (rw held at h))
]

str_eq-differs : (a b : String) → a ≢ b → str_eq a b ≡ false
str_eq-differs a b differ = elim (Bool-cases (str_eq a b)) [
  | inl t ↦ absurd (differ ((eq_iff a b).0 t))
  | inr f ↦ f
]

read-some : (found : Option Item) (i : Item) → read found ≡ ok i → found ≡ some i
read-some none i h = absurd (cc h)
read-some (some x) i h = ap some (ok-injective x i h)

module _ (c : Config) where
  -- An alert that `claimDue` hands out: due, in flight, and held until the lease's end.
  pub record IsClaimed (now : ℕ) (i : Item) : Type 0 where
    pub due : i.next_attempt_at ≤ now
    pub in_flight : i.state ≡ inflight
    pub holder : Claim
    pub held : i.claim ≡ some holder
    pub lease : holder.expires_at ≡ now + c.inflight_lease_ms

  claim_loop_lem :
      (token : ℕ → String) (now room : ℕ) (ks : List ℕ) (s s' : Outbox) (is : List Item)
      → claim_loop c token now room ks s ≡ ok (s', is)
      → (length is ≤ room) × All (IsClaimed now) is
  unfolding claim_loop claimed_item
  claim_loop_lem token now room [] s s' is h =
      let (_, is_is) = ok-pair (s, []) s' is h in
      subst (λ l. (length l ≤ room) × All (IsClaimed now) l) (sym is_is) (omega arith, tt)
  claim_loop_lem token now room (k ∷ ks) s s' is h = elim (Bool-cases (room == 0)) [
    | inl full ↦
        let (_, is_is) = ok-pair (s, []) s' is (rw (full, claim_loop) at h) in
        subst (λ l. (length l ≤ room) × All (IsClaimed now) l) (sym is_is) (omega arith, tt)
    | inr roomy ↦
        let (i, found, h1) = >>=-eq-ok (read (get k s.pendings)) _ (rw (roomy, claim_loop) at h) in
        elim (Bool-cases (ltb now i.next_attempt_at)) [
          | inl early ↦ claim_loop_lem token now room ks s s' is (rw early at h1)
          | inr due ↦
              let claimed = claimed_item c now (token k) i in
              let moved : Outbox = record s {
                pendings = remove k s.pendings;
                inflights = put k claimed s.inflights;
              } in
              let (r, looped, h2) =
                >>=-eq-ok (claim_loop c token now (room - 1) ks moved) _ (rw due at h1) in
              let (_, is_is) = ok-pair (r.0, claimed ∷ r.1) s' is h2 in
              let (short, all_claimed) =
                claim_loop_lem token now (room - 1) ks moved r.0 r.1 looped in
              let fits : suc (length r.1) ≤ room = ground arith in
              let new : IsClaimed now claimed = record {
                due = ground arith;
                in_flight = refl;
                holder = record {
                  claimed_at = now;
                  token = token k;
                  expires_at = now + c.inflight_lease_ms;
                };
                held = refl;
                lease = refl;
              } in
              subst (λ l. (length l ≤ room) × All (IsClaimed now) l) (sym is_is)
                (fits, (new, all_claimed))
        ]
  ]

  -- `claimDue` hands out at most as many alerts as its limit, which is at most 500; each of them is
  -- due, in flight, and held by a claim until the lease's end.
  pub claim_due-IsClaimed :
      (token : ℕ → String) (limit now : ℕ) (s s' : Outbox) (is : List Item)
      → claim_due c token limit now s ≡ ok (s', is)
      → (length is ≤ limit) × (limit ≤ 500) × All (IsClaimed now) is
  unfolding claim_due
  claim_due-IsClaimed token limit now s s' is h =
      let (valid, h1) = guard-eq-ok (leb 1 limit && leb limit 500) _ _ h in
      let (m, _, h2) = >>=-eq-ok (recover_stale now s) _ h1 in
      let (short, all_claimed) = claim_loop_lem token now limit (names m.pendings) m s' is h2 in
      (short, ground arith, all_claimed)

  -- The file of a claim is gone: nobody settles it again.
  abbrev pub IsSettled : ℕ → Outbox → Type 0
  IsSettled k s =
      ((token : String) (r : Response) (now : ℕ) → complete c k token r now s ≡ err no_file)
      × ((token : String) (f : Failure) (next now : ℕ) → retry k token f next now s ≡ err no_file)
      × ((token : String) (f : Failure) (now : ℕ)
          → dead_letter_claim c k token f now s ≡ err no_file)

  gone-IsSettled : (k : ℕ) (s : Outbox) → get k s.inflights ≡ none → IsSettled k s
  unfolding complete retry dead_letter_claim read_claim
  gone-IsSettled k s gone = (
    λ token r now. rw (gone, complete, read_claim) refl,
    λ token f next now. rw (gone, retry, read_claim) refl,
    λ token f now. rw (gone, dead_letter_claim, read_claim) refl,
  )

  -- No call under this token settles the alert: it is refused as not the owner's.
  abbrev pub IsRefused : ℕ → String → Outbox → Type 0
  IsRefused k token s =
      ((r : Response) (now : ℕ) → complete c k token r now s ≡ err not_owned)
      × ((f : Failure) (next now : ℕ) → retry k token f next now s ≡ err not_owned)
      × ((f : Failure) (now : ℕ) → dead_letter_claim c k token f now s ≡ err not_owned)

  read_claim-holder :
      (k : ℕ) (token : String) (s : Outbox) (i : Item)
      → read_claim k token s ≡ ok i
      → (get k s.inflights ≡ some i) × IsHeldBy token i
  unfolding read_claim
  read_claim-holder k token s i h =
      let (x, found, h1) = >>=-eq-ok (read (get k s.inflights)) _ h in
      let (own, h2) = guard-eq-ok (is_inflight x.state && claimed_with x token) _ _ h1 in
      let same = ok-injective x i h2 in
      let (holder, held, named) =
        claimed_with-holder x token (and-right (is_inflight x.state) _ own) in
      (
        subst (λ y. get k s.inflights ≡ some y) same (read-some _ x found),
        subst (IsHeldBy token) same (
          is_inflight-state x.state (and-left _ (claimed_with x token) own),
          holder,
          held,
          named,
        ),
      )

  other_token-IsRefused :
      (k : ℕ) (token other : String) (s : Outbox) (i : Item)
      → other ≢ token
      → get k s.inflights ≡ some i
      → IsHeldBy token i
      → IsRefused k other s
  unfolding complete retry dead_letter_claim read_claim
  other_token-IsRefused k token other s i differ at (flying, holder, held, own) =
      let refused : read_claim k other s ≡ err not_owned =
        rw (at, flying, held, str_eq-differs holder.token other (λ e. differ (sym e ∙ own))) refl in
      (λ r now. rw (refused) refl, λ f next now. rw (refused) refl, λ f now. rw (refused) refl)

  once_owned :
      (k : ℕ) (token other : String) (s s' : Outbox) (i : Item)
      → other ≢ token
      → read_claim k token s ≡ ok i
      → get k s'.inflights ≡ none
      → ((x : Item) × (get k s.inflights ≡ some x) × IsHeldBy token x)
        × IsRefused k other s
        × IsSettled k s'
  once_owned k token other s s' i differ found gone =
      let (at, held) = read_claim-holder k token s i found in
      (
        (i, at, held),
        other_token-IsRefused k token other s i differ at held,
        gone-IsSettled k s' gone,
      )

  -- A delivery that was completed, retried or given up was in the directory inflight, in that state
  -- and under a claim with the caller's own token; a call with another token would have been
  -- refused there; and it cannot be completed, retried or given up again, by any token, in the
  -- outbox that is left.
  pub claim_ends_once :
      (k : ℕ) (token other : String) (s s' : Outbox)
      → other ≢ token
      → ((r : Response) × (now : ℕ) × (x : Receipt) × (complete c k token r now s ≡ ok (s', x)))
        ⊎ (((f : Failure) × (next : ℕ) × (now : ℕ) × (x : Item) × (retry k token f next now s
                ≡ ok (s', x)))
            ⊎ ((f : Failure) × (now : ℕ) × (x : Item) × (dead_letter_claim c k token f now s
                  ≡ ok (s', x))))
      → ((i : Item) × (get k s.inflights ≡ some i) × IsHeldBy token i)
        × IsRefused k other s
        × IsSettled k s'
  unfolding complete retry dead_letter_claim
  claim_ends_once k token other s s' differ (inl (r, now, x, h)) =
      let (i, found, h1) = >>=-eq-ok (read_claim k token s) _ h in
      once_owned k token other s s' i differ found (
        subst (λ (o : Outbox). get k o.inflights ≡ none) (sym (ok-pair _ s' x h1).0)
          (get-remove k s.inflights))
  claim_ends_once k token other s s' differ (inr (inl (f, next, now, x, h))) =
      let (i, found, h1) = >>=-eq-ok (read_claim k token s) _ h in
      once_owned k token other s s' i differ found (
        subst (λ (o : Outbox). get k o.inflights ≡ none) (sym (ok-pair _ s' x h1).0)
          (get-remove k s.inflights))
  claim_ends_once k token other s s' differ (inr (inr (f, now, x, h))) =
      let (i, found, h1) = >>=-eq-ok (read_claim k token s) _ h in
      once_owned k token other s s' i differ found (
        subst (λ (o : Outbox). get k o.inflights ≡ none) (sym (ok-pair _ s' x h1).0)
          (get-remove k s.inflights))
