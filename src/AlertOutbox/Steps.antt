-- ===== src/AlertOutbox/Steps.antt =====
-- security/securityAlertOutbox.js: what the operations do to the directories, file by file.
use basitclaw.Common.{
  ℕ, ◌-◌, ◌≡◌, String, true, ◌&&◌, ◌||◌, not, Option, none, some, List, [], ◌∷◌, leb, ltb, ◌==◌,
  Bool-cases, Option-cases, ◌⊎◌, inl, inr, ok, >>=-eq-ok, guard-eq-ok, ok-injective, ok-pair, sym,
  ap, subst, refl,
}
use basitclaw.AlertOutbox.{Config, Outbox, Item, Receipt, Event, Error}
use basitclaw.AlertOutbox.Files.{put, get, has, remove, names, prune, has-of-get}
use basitclaw.AlertOutbox.Operations.{
  Response, Failure, read, is_inflight, is_held, is_dead_letter, recover_file, recover_loop,
  recover_stale, recovered_item, state_in, enqueue, new_item, claim_loop, claim_due, claimed_item,
  read_claim, complete, dead_letter_claim, retry, requeue, receipt_of, dead_item, retried_item,
  requeued_item, Enqueued,
}

-- A change of one file.
pub data Step (c : Config) (s : Outbox) : Outbox → Type 0 where
  stays : Step c s s
  -- a new alert, of which no directory has a file
  files :
      (k : ℕ) (i : Item)
      → state_in k s ≡ none
      → Step c s (record s { pendings = put k i s.pendings })
  claims :
      (k : ℕ) (i : Item)
      → has k s.pendings ≡ true
      → is_inflight i.state ≡ true
      → Step c s (record s { pendings = remove k s.pendings; inflights = put k i s.inflights })
  returns :
      (k : ℕ) (i : Item)
      → has k s.inflights ≡ true
      → Step c s (record s { inflights = remove k s.inflights; pendings = put k i s.pendings })
  delivers :
      (k : ℕ) (r : Receipt)
      → has k s.inflights ≡ true
      → Step c s (record s {
        inflights = remove k s.inflights;
        delivereds = prune c.delivered_retention (put k r s.delivereds);
      })
  buries :
      (k : ℕ) (i : Item)
      → has k s.inflights ≡ true
      → Step c s (record s {
        inflights = remove k s.inflights;
        deads = prune c.dead_letter_retention (put k i s.deads);
      })
  revives :
      (k : ℕ) (i : Item)
      → has k s.deads ≡ true
      → Step c s (record s { deads = remove k s.deads; pendings = put k i s.pendings })
  -- a claim whose commit was cut short: the file has been written elsewhere
  drops :
      (k : ℕ)
      → (has k s.delivereds || has k s.deads || has k s.pendings) ≡ true
      → Step c s (record s { inflights = remove k s.inflights })

-- One change after the other.
pub data Steps (c : Config) : Outbox → Outbox → Type 0 where
  done : (s : Outbox) → Steps c s s
  next : {s m t : Outbox} → Step c s m → Steps c m t → Steps c s t

-- What the recovery of one file did.
pub recover_file-cases :
    (now k : ℕ) (s s' : Outbox)
    → recover_file now k s ≡ ok s'
    → (s' ≡ s)
      ⊎ ((((has k s.delivereds || has k s.deads || has k s.pendings) ≡ true)
            × (s' ≡ record s { inflights = remove k s.inflights }))
          ⊎ ((i : Item) × (has k s.inflights ≡ true)
              × (s'
                  ≡ record s { inflights = remove k s.inflights; pendings = put k i s.pendings })))
unfolding recover_file
recover_file-cases now k s s' h =
    elim (Bool-cases (has k s.delivereds || has k s.deads || has k s.pendings)) [
      | inl t ↦ inr (inl (t, sym (ok-injective _ s' (rw (t, recover_file) at h))))
      | inr f ↦ elim (Option-cases (get k s.inflights)) [
        | inl n ↦ inl (sym (ok-injective s s' (rw (f, n, recover_file) at h)))
        | inr (i, at) ↦ elim (Bool-cases (not (is_inflight i.state))) [
          | inl bad ↦ absurd (cc (rw (f, at, bad, recover_file) at h))
          | inr good ↦ elim (Bool-cases (is_held i now)) [
            | inl held ↦ inl (sym (ok-injective s s' (rw (f, at, good, held, recover_file) at h)))
            | inr free ↦ inr (
                inr (
                  recovered_item now i,
                  has-of-get k s.inflights i at,
                  sym (ok-injective _ s' (rw (f, at, good, free, recover_file) at h)),
                ))
          ]
        ]
      ]
    ]

module _ (c : Config) where
  abbrev single : {s t : Outbox} → Step c s t → Steps c s t
  single {t = t} x = next x (done t)

  pub append_steps : {s m t : Outbox} → Steps c s m → Steps c m t → Steps c s t
  append_steps (done s) y = y
  append_steps (next x xs) y = next x (append_steps xs y)

  read-eq-ok : {A : Type 0} (o : Option A) (a : A) → read o ≡ ok a → o ≡ some a
  read-eq-ok none a h = cc
  read-eq-ok (some b) a h = ap (λ x. some x) (ok-injective {E = Error} b a h)

  pub read_claim-has :
      (k : ℕ) (token : String) (s : Outbox) (i : Item)
      → read_claim k token s ≡ ok i
      → has k s.inflights ≡ true
  unfolding read_claim
  read_claim-has k token s i h =
      let (j, found, _) = >>=-eq-ok (read (get k s.inflights)) _ h in
      has-of-get k s.inflights j (read-eq-ok (get k s.inflights) j found)

  pub recover_file-Step : (now k : ℕ) (s s' : Outbox) → recover_file now k s ≡ ok s' → Step c s s'
  recover_file-Step now k s s' h = elim (recover_file-cases now k s s' h) [
    | inl same ↦ subst (Step c s) (sym same) stays
    | inr (inl (t, is)) ↦ subst (Step c s) (sym is) (drops k t)
    | inr (inr (i, at, is)) ↦ subst (Step c s) (sym is) (returns k i at)
  ]

  recover_loop-Steps :
      (now : ℕ) (ks : List ℕ) (s s' : Outbox) → recover_loop now ks s ≡ ok s' → Steps c s s'
  unfolding recover_loop
  recover_loop-Steps now [] s s' h = subst (Steps c s) (ok-injective s s' h) (done s)
  recover_loop-Steps now (k ∷ ks) s s' h =
      let (m, first, rest) = >>=-eq-ok (recover_file now k s) _ h in
      next (recover_file-Step now k s m first) (recover_loop-Steps now ks m s' rest)

  pub recover_stale-Steps : (now : ℕ) (s s' : Outbox) → recover_stale now s ≡ ok s' → Steps c s s'
  unfolding recover_stale
  recover_stale-Steps now s s' h = recover_loop-Steps now (names s.inflights) s s' h

  pub enqueue-Steps :
      (delivery_id_for : Event → ℕ) (e : Event) (now : ℕ) (s s' : Outbox) (r : Enqueued)
      → enqueue delivery_id_for e now s ≡ ok (s', r)
      → Steps c s s'
  unfolding enqueue
  enqueue-Steps delivery_id_for e now s s' r h =
      let (m, recovered, h1) = >>=-eq-ok (recover_stale now s) _ h in
      let (s_is, _) = ok-pair _ s' r h1 in
      append_steps (recover_stale-Steps now s m recovered)
        (elim (Option-cases (state_in (delivery_id_for e) m)) [
          | inl n ↦
              subst (Steps c m) (sym (rw n at s_is))
                (single (files (delivery_id_for e) (new_item (delivery_id_for e) now e) n))
          | inr (_, y) ↦ subst (Steps c m) (sym (rw y at s_is)) (done m)
        ])

  claim_loop-Steps :
      (token : ℕ → String) (now room : ℕ) (ks : List ℕ) (s s' : Outbox) (is : List Item)
      → claim_loop c token now room ks s ≡ ok (s', is)
      → Steps c s s'
  unfolding claim_loop claimed_item
  claim_loop-Steps token now room [] s s' is h =
      let (s_is, _) = ok-pair (s, []) s' is h in subst (Steps c s) (sym s_is) (done s)
  claim_loop-Steps token now room (k ∷ ks) s s' is h = elim (Bool-cases (room == 0)) [
    | inl full ↦
        let (s_is, _) = ok-pair (s, []) s' is (rw (full, claim_loop) at h) in
        subst (Steps c s) (sym s_is) (done s)
    | inr roomy ↦
        let (i, found, h1) = >>=-eq-ok (read (get k s.pendings)) _ (rw (roomy, claim_loop) at h) in
        elim (Bool-cases (ltb now i.next_attempt_at)) [
          | inl early ↦ claim_loop-Steps token now room ks s s' is (rw early at h1)
          | inr due ↦
              let claimed = claimed_item c now (token k) i in
              let moved : Outbox = record s {
                pendings = remove k s.pendings;
                inflights = put k claimed s.inflights;
              } in
              let (r, looped, h2) =
                >>=-eq-ok (claim_loop c token now (room - 1) ks moved) _ (rw due at h1) in
              let (s_is, _) = ok-pair (r.0, claimed ∷ r.1) s' is h2 in
              next
                (claims k claimed
                  (has-of-get k s.pendings i (read-eq-ok (get k s.pendings) i found)) refl)
                (subst (Steps c moved) (sym s_is)
                  (claim_loop-Steps token now (room - 1) ks moved r.0 r.1 looped))
        ]
  ]

  pub claim_due-Steps :
      (token : ℕ → String) (limit now : ℕ) (s s' : Outbox) (is : List Item)
      → claim_due c token limit now s ≡ ok (s', is)
      → Steps c s s'
  unfolding claim_due
  claim_due-Steps token limit now s s' is h =
      let (_, h1) = guard-eq-ok (leb 1 limit && leb limit 500) _ _ h in
      let (m, recovered, h2) = >>=-eq-ok (recover_stale now s) _ h1 in
      append_steps (recover_stale-Steps now s m recovered)
        (claim_loop-Steps token now limit (names m.pendings) m s' is h2)

  pub complete-Steps :
      (k : ℕ) (token : String) (r : Response) (now : ℕ) (s s' : Outbox) (x : Receipt)
      → complete c k token r now s ≡ ok (s', x)
      → Steps c s s'
  unfolding complete
  complete-Steps k token r now s s' x h =
      let (i, found, h1) = >>=-eq-ok (read_claim k token s) _ h in
      let (s_is, _) = ok-pair _ s' x h1 in
      subst (Steps c s) (sym s_is)
        (single (delivers k (receipt_of now r i) (read_claim-has k token s i found)))

  pub dead_letter_claim-Steps :
      (k : ℕ) (token : String) (f : Failure) (now : ℕ) (s s' : Outbox) (x : Item)
      → dead_letter_claim c k token f now s ≡ ok (s', x)
      → Steps c s s'
  unfolding dead_letter_claim
  dead_letter_claim-Steps k token f now s s' x h =
      let (i, found, h1) = >>=-eq-ok (read_claim k token s) _ h in
      let (s_is, _) = ok-pair _ s' x h1 in
      subst (Steps c s) (sym s_is)
        (single (buries k (dead_item now f i) (read_claim-has k token s i found)))

  pub retry-Steps :
      (k : ℕ) (token : String) (f : Failure) (at now : ℕ) (s s' : Outbox) (x : Item)
      → retry k token f at now s ≡ ok (s', x)
      → Steps c s s'
  unfolding retry
  retry-Steps k token f at now s s' x h =
      let (i, found, h1) = >>=-eq-ok (read_claim k token s) _ h in
      let (s_is, _) = ok-pair _ s' x h1 in
      subst (Steps c s) (sym s_is)
        (single (returns k (retried_item now at f i) (read_claim-has k token s i found)))

  pub requeue-Steps :
      (k now : ℕ) (s s' : Outbox) (x : Item) → requeue k now s ≡ ok (s', x) → Steps c s s'
  unfolding requeue
  requeue-Steps k now s s' x h =
      let (i, found, h1) = >>=-eq-ok (read (get k s.deads)) _ h in
      let (_, h2) = guard-eq-ok (is_dead_letter i.state) _ _ h1 in
      let (s_is, _) = ok-pair _ s' x h2 in
      subst (Steps c s) (sym s_is) (
        single (
          revives k (requeued_item now i)
            (has-of-get k s.deads i (read-eq-ok (get k s.deads) i found))))
