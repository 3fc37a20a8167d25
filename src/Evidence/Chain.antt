-- ===== src/Evidence/Chain.antt =====
-- evidence/evidenceRegistry.js, `appendEvent` and `verifyChain`: an appended event leaves a chain that verifies, also
-- when the oldest events are cut off.
use basitclaw.Common.{
  ℕ, zero, suc, ◌+◌, ◌-◌, ◌≡◌, refl, ap, sym, subst, ◌∙◌, String, Bool, true, false, ◌&&◌, Option,
  none, some, List, [], ◌∷◌, ◌++◌, ◌==◌, str_eq, opt_eq, opt_eq_iff, opt_eq_refl, eq_refl,
  if◌then◌else◌, length, take, drop, arith, Bool-cases, Option-cases, inl, inr,
}
use basitclaw.Evidence.{
  Unsigned, Event, Index, Detail, anchor_of, append_event, chain_end, anchor_hash, anchor_sequence,
  ends_at_head, verify_chain,
}

some_injective : {A : Type 0} (x y : A) → ◌≡◌ {A = Option A} (some x) (some y) → x ≡ y
some_injective x y h = ap (λ (o : Option _). elim o [ none ↦ x | some z ↦ z ]) h

-- Whatever was cut off before, the last event decides.
anchor_of_last :
    (a b : Option (ℕ × String)) (x : Event) (xs : List Event)
    → anchor_of (x ∷ xs) a ≡ anchor_of (x ∷ xs) b
anchor_of_last a b x [] = refl
anchor_of_last a b x (y ∷ ys) = anchor_of_last a b y ys

anchor_of_next :
    (a : Option (ℕ × String)) (x : Event) (xs : List Event)
    → anchor_of (x ∷ xs) a ≡ anchor_of xs (some (x.unsigned.sequence, x.hash))
anchor_of_next a x [] = refl
anchor_of_next a x (y ∷ ys) = anchor_of_last a (some (x.unsigned.sequence, x.hash)) y ys

if_some :
    {A : Type 0} (b : Bool) (x : Option A) (r : A)
    → (if b then x else none) ≡ some r
    → (b ≡ true) × (x ≡ some r)
if_some true x r h = (refl, h)
if_some false x r h = cc

not_both_options : {A : Type 0} (r : A) → ◌≡◌ {A = Option A} none (some r) → ⊥
not_both_options r h = cc

not_both_bools : ◌≡◌ {A = Bool} false true → ⊥
not_both_bools h = cc

take-append-drop : {A : Type 0} (n : ℕ) (xs : List A) → take n xs ++ drop n xs ≡ xs
take-append-drop zero xs = refl
take-append-drop (suc n) [] = refl
take-append-drop (suc n) (x ∷ xs) = ap (λ (ys : List _). x ∷ ys) (take-append-drop n xs)

module _ (hash_event : Unsigned → String) (retained_events : ℕ) where
  abbrev end_of : Option String → ℕ → List Event → Option (Option String × ℕ)
  end_of = chain_end hash_event retained_events

  -- The loop over the first events, and on over the others.
  abbrev goes_on : Option (Option String × ℕ) → List Event → Option (Option String × ℕ)
  goes_on none events = none
  goes_on (some (previous, expected)) events = end_of previous expected events

  chain_end-append :
      (previous : Option String) (expected : ℕ) (xs ys : List Event)
      → end_of previous expected (xs ++ ys) ≡ goes_on (end_of previous expected xs) ys
  unfolding chain_end
  chain_end-append previous expected [] ys = refl
  chain_end-append previous expected (x ∷ xs) ys =
      let ih = chain_end-append (some x.hash) (expected + 1) xs ys in
      elim (Bool-cases (
        x.unsigned.sequence == expected
        && opt_eq x.unsigned.previous_hash previous
        && str_eq x.hash (hash_event x.unsigned))) [ inl t ↦ rw t ih | inr f ↦ rw f refl ]

  -- An event that fits at the end.
  chain_end-snoc :
      (previous : Option String) (expected : ℕ) (u : Unsigned)
      → u.sequence ≡ expected
      → u.previous_hash ≡ previous
      → end_of previous expected (record { unsigned = u; hash = hash_event u } ∷ [])
        ≡ some (some (hash_event u), expected + 1)
  unfolding chain_end
  chain_end-snoc previous expected u s p =
      let same : (u.sequence == expected) ≡ true = ground arith in
      rw (same, (opt_eq_iff u.previous_hash previous).1 p, eq_refl (hash_event u)) refl

  -- What a loop over events that verify ends with is the anchor that cutting them off leaves.
  chain_end-anchor_of :
      (a : Option (ℕ × String)) (xs : List Event) (r : Option String × ℕ)
      → end_of
          (anchor_hash hash_event retained_events a)
          (anchor_sequence hash_event retained_events a + 1)
          xs
        ≡ some r
      → ◌≡◌ {A = Option String × ℕ} r (
        anchor_hash hash_event retained_events (anchor_of xs a),
        anchor_sequence hash_event retained_events (anchor_of xs a) + 1,
      )
  unfolding chain_end
  chain_end-anchor_of a [] r h = sym (some_injective _ r h)
  chain_end-anchor_of a (x ∷ xs) r h =
      let expected = anchor_sequence hash_event retained_events a + 1 in
      let fits =
        x.unsigned.sequence == expected
        && opt_eq x.unsigned.previous_hash (anchor_hash hash_event retained_events a)
        && str_eq x.hash (hash_event x.unsigned) in
      let rest = end_of (some x.hash) (expected + 1) xs in
      let at = λ (b : Option (ℕ × String)). ◌≡◌ {A = Option String × ℕ} r (
        anchor_hash hash_event retained_events b,
        anchor_sequence hash_event retained_events b + 1,
      ) in
      let (fit, on) = if_some fits rest r h in
      let next : x.unsigned.sequence ≡ expected = ground (arith, fit) in
      subst at (sym (anchor_of_next a x xs)) (
        chain_end-anchor_of (some (x.unsigned.sequence, x.hash)) xs r
          (ap (λ (n : ℕ). end_of (some x.hash) (n + 1) xs) next ∙ on))

  -- The chain without its first `n` events, from the anchor that these leave.
  chain_end-drop :
      (a : Option (ℕ × String)) (n : ℕ) (xs : List Event) (r : Option String × ℕ)
      → end_of
          (anchor_hash hash_event retained_events a)
          (anchor_sequence hash_event retained_events a + 1)
          xs
        ≡ some r
      → end_of
          (anchor_hash hash_event retained_events (anchor_of (take n xs) a))
          (anchor_sequence hash_event retained_events (anchor_of (take n xs) a) + 1)
          (drop n xs)
        ≡ some r
  chain_end-drop a n xs r h =
      let first =
        end_of (anchor_hash hash_event retained_events a)
          (anchor_sequence hash_event retained_events a + 1) (take n xs) in
      let whole : goes_on first (drop n xs) ≡ some r =
        sym (chain_end-append _ _ (take n xs) (drop n xs))
        ∙ ap
            (end_of (anchor_hash hash_event retained_events a)
              (anchor_sequence hash_event retained_events a + 1))
            (take-append-drop n xs)
        ∙ h in
      elim (Option-cases first) [
        | inl nothing ↦
            absurd (not_both_options r (sym (ap (λ o. goes_on o (drop n xs)) nothing) ∙ whole))
        | inr (q, found) ↦
            let is = chain_end-anchor_of a (take n xs) q found in
            let cut : end_of q.0 q.1 (drop n xs) ≡ some r =
              sym (ap (λ o. goes_on o (drop n xs)) found) ∙ whole in
            subst (λ (z : Option String × ℕ). end_of z.0 z.1 (drop n xs) ≡ some r) is cut
      ]

  abbrev end_of_index : Index → Option (Option String × ℕ)
  end_of_index index =
      end_of (anchor_hash hash_event retained_events index.anchor)
        (anchor_sequence hash_event retained_events index.anchor + 1) index.events

  verify_chain-end_of_index :
      (index : Index)
      → verify_chain hash_event retained_events index ≡ true
      → end_of_index index ≡ some (index.head_hash, index.sequence + 1)
  unfolding verify_chain
  verify_chain-end_of_index index h = ends (end_of_index index) refl h
    where
      ends :
          (o : Option (Option String × ℕ))
          → end_of_index index ≡ o
          → ends_at_head hash_event retained_events index o ≡ true
          → end_of_index index ≡ some (index.head_hash, index.sequence + 1)
      ends none e k = cc
      ends (some (previous, expected)) e k =
          let is = chain_end-anchor_of index.anchor index.events (previous, expected) e in
          let positive : expected
              ≡ anchor_sequence hash_event retained_events (anchor_of index.events index.anchor)
                + 1 =
            ap (λ (z : Option String × ℕ). z.1) is in
          let head : index.head_hash ≡ previous =
            ground (arith, opt_eq_iff index.head_hash previous, k) in
          let count : index.sequence + 1 ≡ expected = ground (arith, positive, k) in
          e ∙ (λ i. some (sym head i, sym count i))

  end_of_index-verify_chain :
      (index : Index)
      → end_of_index index ≡ some (index.head_hash, index.sequence + 1)
      → verify_chain hash_event retained_events index ≡ true
  unfolding verify_chain
  end_of_index-verify_chain index h =
      ap (ends_at_head hash_event retained_events index) h
      ∙ (let last : (index.sequence == (index.sequence + 1) - 1) ≡ true = ground arith in
          rw (last, opt_eq_refl index.head_hash) refl)

  pub append_event-verify_chain :
      (event_id : String) (now : ℕ) (actor action id : String) (metadata : List (String × Detail))
      (index : Index)
      → verify_chain hash_event retained_events index ≡ true
      → verify_chain hash_event retained_events
          (append_event hash_event retained_events event_id now actor action id metadata index)
        ≡ true
  unfolding append_event
  append_event-verify_chain event_id now actor action id metadata index h =
      let u : Unsigned = record {
        event_id = event_id;
        sequence = index.sequence + 1;
        occurred_at = now;
        actor = actor;
        action = action;
        evidence_id = id;
        metadata = metadata;
        previous_hash = index.head_hash;
      } in
      let x : Event = record { unsigned = u; hash = hash_event u } in
      let events : List Event = index.events ++ x ∷ [] in
      let grown =
        chain_end-append (anchor_hash hash_event retained_events index.anchor)
          (anchor_sequence hash_event retained_events index.anchor + 1) index.events (x ∷ [])
        ∙ ap (λ o. goes_on o (x ∷ [])) (verify_chain-end_of_index index h)
        ∙ chain_end-snoc index.head_hash (index.sequence + 1) u refl refl in
      end_of_index-verify_chain _ (
        chain_end-drop index.anchor (length events - retained_events) events
          (some (hash_event u), index.sequence + 1 + 1) grown)
