-- ===== src/Ledger/Tamper.antt =====
-- services/governanceLedger.js, `verifyEvents`: what the head hash of an intact chain commits to.
-- `hashEvent` is taken apart as in the code: the text `stableStringify` writes for an event, with the
-- keys sorted, and the SHA-256 of a text are parameters.
use basitclaw.Common.{
  ◌≡◌, ◌≢◌, refl, ap, sym, ◌∙◌, String, true, Option, none, some, List, [], ◌∷◌, ◌++◌, arith, ◌⊎◌,
  inl, inr, string_discrete, map, subst,
}
use mathlib.Core.List.{append_assoc, map-append, reverse, reverse-cons, reverse-reverse}
use basitclaw.Ledger.{Ledger, Event, Unsigned, first_broken, continues, verify, own, export_tenant}
use basitclaw.Ledger.Chain.{tip, tip-snoc, tip-head_hash, continues_iff, verify_iff}

-- The event stands in the list.
abbrev pub Has : Event → List Event → Type 0
Has e es = (front : List Event) × (rear : List Event) × (es ≡ front ++ e ∷ rear)

Has-snoc : (e : Event) (es : List Event) (x : Event) → Has e es → Has e (es ++ x ∷ [])
Has-snoc e es x (front, rear, is) =
    (front, rear ++ x ∷ [], ap (λ l. l ++ x ∷ []) is ∙ append_assoc front (e ∷ rear) (x ∷ []))

-- `hashEvent` is `sha256` of the text.
abbrev pub hash_of : (Unsigned → String) → (String → String) → Unsigned → String
hash_of canonical sha256 u = sha256 (canonical u)

-- What is hashed of each event, and its hash.
abbrev pub told : (Unsigned → String) → List Event → List (String × String)
told canonical = map (λ (e : Event). (canonical e.unsigned, e.hash))

-- An event of each list, with two texts of one hash.
abbrev pub Collision : (Unsigned → String) → (String → String) → List Event → List Event → Type 0
Collision canonical sha256 es fs =
    (e : Event) × (f : Event) × Has e es
    × Has f fs
    × (canonical e.unsigned ≢ canonical f.unsigned)
    × (sha256 (canonical e.unsigned) ≡ sha256 (canonical f.unsigned))

module _ (hash_event : Unsigned → String) where
  first_broken-unsnoc :
      (start : Option String) (es : List Event) (e : Event)
      → first_broken hash_event start (es ++ e ∷ []) ≡ none
      → (first_broken hash_event start es ≡ none) × (continues hash_event (tip start es) e ≡ true)
  unfolding first_broken
  first_broken-unsnoc start [] e h = ground arith
  first_broken-unsnoc start (x ∷ es) e h = ground (arith, first_broken-unsnoc (some x.hash) es e)

  -- The newest event first.
  abbrev Backward : List Event → Type 0
  Backward [] = Unit
  Backward (e ∷ es) =
      (e.unsigned.previous_hash ≡ tip none (reverse es))
      × (hash_event e.unsigned ≡ e.hash)
      × Backward es

  backward : (es : List Event) → first_broken hash_event none (reverse es) ≡ none → Backward es
  backward [] h = tt
  backward (e ∷ es) h =
      let (before, last) = first_broken-unsnoc none (reverse es) e (rw (reverse-cons e es) at h) in
      let (p, q) = (continues_iff hash_event _ e).0 last in (p, q, backward es before)

module _ (canonical : Unsigned → String) (sha256 : String → String)
    (previous_hash-canonical : (u v : Unsigned)
      → canonical u ≡ canonical v
      → u.previous_hash ≡ v.previous_hash) where
  abbrev hash_event : Unsigned → String
  hash_event = hash_of canonical sha256

  told-snoc :
      (es : List Event) (e : Event)
      → told canonical (reverse (e ∷ es))
        ≡ told canonical (reverse es) ++ (canonical e.unsigned, e.hash) ∷ []
  told-snoc es e = ap (told canonical) (reverse-cons e es) ∙ map-append _ (reverse es) (e ∷ [])

  compare_chains :
      (es fs : List Event)
      → Backward hash_event es
      → Backward hash_event fs
      → tip none (reverse es) ≡ tip none (reverse fs)
      → (told canonical (reverse es) ≡ told canonical (reverse fs))
        ⊎ Collision canonical sha256 (reverse es) (reverse fs)
  compare_chains [] [] i j t = inl refl
  compare_chains [] (f ∷ fs) i j t =
      absurd (cc (t, ap (tip none) (reverse-cons f fs), tip-snoc none (reverse fs) f))
  compare_chains (e ∷ es) [] i j t =
      absurd (cc (t, ap (tip none) (reverse-cons e es), tip-snoc none (reverse es) e))
  compare_chains (e ∷ es) (f ∷ fs) i j t =
      let same_hash : e.hash ≡ f.hash = cc (
        t,
        ap (tip none) (reverse-cons e es),
        tip-snoc none (reverse es) e,
        ap (tip none) (reverse-cons f fs),
        tip-snoc none (reverse fs) f,
      ) in
      elim (string_discrete (canonical e.unsigned) (canonical f.unsigned)) [
        | yes same ↦
            elim (compare_chains es fs i.2 j.2
              (sym i.0 ∙ previous_hash-canonical e.unsigned f.unsigned same ∙ j.0)) [
                | inl rest ↦ inl (cc (rest, same, same_hash, told-snoc es e, told-snoc fs f))
                | inr (x, y, in_es, in_fs, differ, collide) ↦ inr (
                  x,
                  y,
                  subst (Has x) (sym (reverse-cons e es)) (Has-snoc x (reverse es) e in_es),
                  subst (Has y) (sym (reverse-cons f fs)) (Has-snoc y (reverse fs) f in_fs),
                  differ,
                  collide,
                )
              ]
        | no differ ↦ inr (
          e,
          f,
          (reverse es, [], reverse-cons e es),
          (reverse fs, [], reverse-cons f fs),
          differ,
          i.1 ∙ same_hash ∙ sym j.1,
        )
      ]

  -- The text that is hashed of an event determines its previous hash. Two ledgers that both verify
  -- for a tenant and show the same head hash then hold as many events for it, in the same order
  -- with the same texts and the same hashes; or an event of the one and an event of the other have
  -- different texts whose SHA-256 is the same.
  pub head_hash-commits :
      (tenant : String) (l m : Ledger)
      → (verify hash_event tenant l).valid ≡ true
      → (verify hash_event tenant m).valid ≡ true
      → (verify hash_event tenant l).head_hash ≡ (verify hash_event tenant m).head_hash
      → (told canonical (export_tenant tenant l) ≡ told canonical (export_tenant tenant m))
        ⊎ Collision canonical sha256 (export_tenant tenant l) (export_tenant tenant m)
  unfolding export_tenant verify
  head_hash-commits tenant l m v w same =
      let es = own tenant l.events in
      let fs = own tenant m.events in
      let es' : reverse (reverse es) ≡ es = reverse-reverse es in
      let fs' : reverse (reverse fs) ≡ fs = reverse-reverse fs in
      let result =
        compare_chains (reverse es) (reverse fs)
          (backward hash_event (reverse es) (rw es' ((verify_iff hash_event tenant l).0 v)))
          (backward hash_event (reverse fs) (rw fs' ((verify_iff hash_event tenant m).0 w)))
          (rw (es', fs') (tip-head_hash es ∙ same ∙ sym (tip-head_hash fs))) in
      rw (es', fs') at result
