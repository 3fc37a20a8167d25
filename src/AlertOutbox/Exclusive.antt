-- ===== src/AlertOutbox/Exclusive.antt =====
-- security/securityAlertOutbox.js: an alert stands in at most one of the four directories.
use basitclaw.Common.{
  ℕ, ◌+◌, ◌≤◌, ◌≡◌, ◌≢◌, refl, Bool, true, false, ◌||◌, none, some, List, [], ◌∷◌, arith, ◌==◌,
  if◌then◌else◌, Option-cases, inl, inr, ok, >>=-eq-ok, ok-injective, ok-pair, sym, ap, subst, ◌∙◌,
}
use basitclaw.AlertOutbox.{Config, Outbox, Event, State}
use basitclaw.AlertOutbox.Files.{put, has, names, prune, has-put, has-remove, has-prune}
use basitclaw.AlertOutbox.Operations.{
  recover_file, recover_loop, recover_stale, state_in, enqueue, new_item, Enqueued,
}
use basitclaw.AlertOutbox.Steps.{
  Step, stays, files, claims, returns, delivers, buries, revives, drops, Steps, done, next,
  recover_file-cases, enqueue-Steps,
}

abbrev pub one_if : Bool → ℕ
one_if b = if b then 1 else 0

-- In how many of the directories a file of this name stands.
unfoldable pub places : ℕ → Outbox → ℕ
places j s =
    one_if (has j s.pendings)
    + one_if (has j s.inflights)
    + one_if (has j s.delivereds)
    + one_if (has j s.deads)

abbrev pub IsExclusive : Outbox → Type 0
IsExclusive s = (j : ℕ) → places j s ≤ 1

one_if-le : (a b : Bool) → (a ≡ true → b ≡ true) → one_if a ≤ one_if b
one_if-le true b h = ground (arith, h refl)
one_if-le false b h = ground arith

one_if-prune :
    {A : Type 0} (n j k : ℕ) (v : A) (d : List (ℕ × A))
    → one_if (has j (prune n (put k v d))) ≤ one_if (j == k || has j d)
one_if-prune n j k v d = one_if-le _ _ (λ h. sym (has-put j k v d) ∙ has-prune n j (put k v d) h)

module _ (c : Config) where
  Step-IsExclusive : (s s' : Outbox) → Step c s s' → IsExclusive s → IsExclusive s'
  unfolding places state_in
  Step-IsExclusive s s' stays e j = e j
  Step-IsExclusive s s' (files k i new) e j = ground (arith, has-put j k i s.pendings, e j)
  Step-IsExclusive s s' (claims k i at _) e j =
      ground (arith, has-put j k i s.inflights, has-remove j k s.pendings, e j)
  Step-IsExclusive s s' (returns k i at) e j =
      ground (arith, has-put j k i s.pendings, has-remove j k s.inflights, e j)
  Step-IsExclusive s s' (delivers k r at) e j = ground (
    arith,
    one_if-prune c.delivered_retention j k r s.delivereds,
    has-remove j k s.inflights,
    e j,
  )
  Step-IsExclusive s s' (buries k i at) e j =
      ground
        (arith, one_if-prune c.dead_letter_retention j k i s.deads, has-remove j k s.inflights, e j)
  Step-IsExclusive s s' (revives k i at) e j =
      ground (arith, has-put j k i s.pendings, has-remove j k s.deads, e j)
  Step-IsExclusive s s' (drops k at) e j = ground (arith, has-remove j k s.inflights, e j)

  pub Steps-IsExclusive : {s t : Outbox} → Steps c s t → IsExclusive s → IsExclusive t
  Steps-IsExclusive (done s) e = e
  Steps-IsExclusive (next {s} {m} x xs) e = Steps-IsExclusive xs (Step-IsExclusive s m x e)

-- Recovery loses no alert.
recover_file-places :
    (now j k : ℕ) (s s' : Outbox) → recover_file now k s ≡ ok s' → 1 ≤ places j s → 1 ≤ places j s'
unfolding places
recover_file-places now j k s s' h e = elim (recover_file-cases now k s s' h) [
  | inl same ↦ subst (λ t. 1 ≤ places j t) (sym same) e
  | inr (inl (t, is)) ↦
      subst (λ t. 1 ≤ places j t) (sym is) (ground (arith, has-remove j k s.inflights))
  | inr (inr (i, at, is)) ↦
      subst (λ t. 1 ≤ places j t) (sym is)
        (ground (arith, has-put j k i s.pendings, has-remove j k s.inflights))
]

recover_loop-places :
    (now j : ℕ) (ks : List ℕ) (s s' : Outbox)
    → recover_loop now ks s ≡ ok s'
    → 1 ≤ places j s
    → 1 ≤ places j s'
unfolding recover_loop
recover_loop-places now j [] s s' h e = subst (λ t. 1 ≤ places j t) (ok-injective s s' h) e
recover_loop-places now j (k ∷ ks) s s' h e =
    let (m, first, rest) = >>=-eq-ok (recover_file now k s) _ h in
    recover_loop-places now j ks m s' rest (recover_file-places now j k s m first e)

recover_stale-places :
    (now j : ℕ) (s s' : Outbox) → recover_stale now s ≡ ok s' → 1 ≤ places j s → 1 ≤ places j s'
unfolding recover_stale
recover_stale-places now j s s' h e = recover_loop-places now j (names s.inflights) s s' h e

state_in-none : (k : ℕ) (s : Outbox) → state_in k s ≡ none → places k s ≡ 0
unfolding state_in places
state_in-none k s h = ground arith

state_in-some : (k : ℕ) (s : Outbox) (x : State) → state_in k s ≡ some x → 1 ≤ places k s
unfolding state_in places
state_in-some k s x h = ground arith

module _ (delivery_id_for : Event → ℕ) where
  -- What is known of an alert once it has been enqueued.
  enqueue-known :
      (e : Event) (now : ℕ) (s s' : Outbox) (r : Enqueued)
      → enqueue delivery_id_for e now s ≡ ok (s', r)
      → (1 ≤ places (delivery_id_for e) s')
        × (r.duplicate ≡ none
            → (m : Outbox) × (recover_stale now s ≡ ok m) × (places (delivery_id_for e) m ≡ 0))
  unfolding enqueue places
  enqueue-known e now s s' r h =
      let k = delivery_id_for e in
      let (m, recovered, h1) = >>=-eq-ok (recover_stale now s) _ h in
      let (s_is, r_is) = ok-pair _ s' r h1 in
      let found : r.duplicate ≡ state_in k m = ap (λ (x : Enqueued). x.duplicate) r_is in
      (
        elim (Option-cases (state_in k m)) [
          | inl n ↦
              subst (λ t. 1 ≤ places k t) (sym (rw n at s_is))
                (ground (arith, has-put k k (new_item k now e) m.pendings))
          | inr (x, y) ↦ subst (λ t. 1 ≤ places k t) (sym (rw y at s_is)) (state_in-some k m x y)
        ],
        λ new. (m, recovered, state_in-none k m (sym found ∙ new)),
      )

  -- Where no alert stands in two directories: once an event has been enqueued, an event of the same
  -- delivery id that is enqueued next, at whatever time, is answered as a duplicate, and the alert
  -- then stands in exactly one directory, also when stale claims are recovered in between.
  pub enqueue-duplicate :
      (c : Config) (e f : Event) (now later : ℕ) (s m t : Outbox) (r x : Enqueued)
      → IsExclusive s
      → delivery_id_for f ≡ delivery_id_for e
      → enqueue delivery_id_for e now s ≡ ok (m, r)
      → enqueue delivery_id_for f later m ≡ ok (t, x)
      → (x.duplicate ≢ none) × (places (delivery_id_for e) t ≡ 1)
  enqueue-duplicate c e f now later s m t r x alone same first second =
      let k = delivery_id_for e in
      let (known, _) = enqueue-known e now s m r first in
      let (still, fresh) = enqueue-known f later m t x second in
      let alone_m = Steps-IsExclusive c (enqueue-Steps c delivery_id_for e now s m r first) alone in
      let alone_t =
        Steps-IsExclusive c (enqueue-Steps c delivery_id_for f later m t x second) alone_m in
      (
        λ new.
            let (u, recovered, zero_places) = fresh new in
            let kept = recover_stale-places later k m u recovered known in
            omega (arith, subst (λ i. places i u ≡ 0) same zero_places, kept),
        omega (arith, alone_t k, subst (λ i. 1 ≤ places i t) same still),
      )
