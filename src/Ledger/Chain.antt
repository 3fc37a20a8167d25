-- ===== src/Ledger/Chain.antt =====
-- services/governanceLedger.js, `append` and `verify`: an appended event continues its tenant's
-- chain and leaves the chains of the others alone.
use basitclaw.Common.{
  ℕ, ◌≡◌, refl, ap, sym, ◌∙◌, String, true, false, Option, none, some, List, [], ◌∷◌, ◌++◌, Result,
  ok, ◌>>=◌, >>=-eq-ok, arith, str_eq, eq_iff, opt_eq_iff, subst, ◌⊎◌, ◌↔◌, filter-append,
  append_nil, Bool-cases, inl, inr, if◌then◌else◌,
}
use basitclaw.Ledger.Metadata.{Value}
use basitclaw.Ledger.{
  Ledger, Event, Unsigned, Input, Error, first_broken, verify, sign, append, continues,
  assert_event_input, clean_metadata, own, is_of, head_hash, export_tenant,
}

-- What the next event of a chain has to name, `start` being what the first one names.
abbrev pub tip : Option String → List Event → Option String
tip start [] = start
tip start (e ∷ es) = tip (some e.hash) es

pub tip-snoc :
    (start : Option String) (es : List Event) (e : Event) → tip start (es ++ e ∷ []) ≡ some e.hash
tip-snoc start [] e = refl
tip-snoc start (x ∷ es) e = tip-snoc (some x.hash) es e

tip-head_hash_cons : (e : Event) (es : List Event) → tip (some e.hash) es ≡ head_hash (e ∷ es)
tip-head_hash_cons e [] = refl
tip-head_hash_cons e (x ∷ es) = tip-head_hash_cons x es

pub tip-head_hash : (es : List Event) → tip none es ≡ head_hash es
tip-head_hash [] = refl
tip-head_hash (e ∷ es) = tip-head_hash_cons e es

-- Of two events of one tenant list, the later stands behind the earlier.
pub own-snoc :
    (tenant : String) (es : List Event) (e : Event)
    → is_of tenant e ≡ true
    → own tenant (es ++ e ∷ []) ≡ own tenant es ++ e ∷ []
own-snoc tenant es e h = filter-append (is_of tenant) es (e ∷ []) ∙ ground arith

pub own-snoc_other :
    (tenant : String) (es : List Event) (e : Event)
    → is_of tenant e ≡ false
    → own tenant (es ++ e ∷ []) ≡ own tenant es
own-snoc_other tenant es e h =
    filter-append (is_of tenant) es (e ∷ []) ∙ ground (arith, append_nil (own tenant es))

module _ (hash_event : Unsigned → String) where
  pub continues_iff :
      (expected : Option String) (e : Event)
      → (continues hash_event expected e ≡ true)
        ↔ ((e.unsigned.previous_hash ≡ expected) × (hash_event e.unsigned ≡ e.hash))
  unfolding continues
  continues_iff expected e =
      ground
        (arith, opt_eq_iff e.unsigned.previous_hash expected, eq_iff (hash_event e.unsigned) e.hash)

  pub first_broken-snoc :
      (start : Option String) (es : List Event) (e : Event)
      → first_broken hash_event start es ≡ none
      → continues hash_event (tip start es) e ≡ true
      → first_broken hash_event start (es ++ e ∷ []) ≡ none
  unfolding first_broken
  first_broken-snoc start [] e intact c = ground arith
  first_broken-snoc start (x ∷ es) e intact c = ground (arith, first_broken-snoc (some x.hash) es e)

  sign-continues :
      (l : Ledger) (input : Input) (now : ℕ) (m : Value)
      → continues hash_event
          (tip none (own input.tenant_id l.events))
          (sign hash_event l input now m)
        ≡ true
  unfolding sign
  sign-continues l input now m =
      (continues_iff _ _).1 (sym (tip-head_hash (own input.tenant_id l.events)), refl)

  pub verify_iff :
      (tenant : String) (l : Ledger)
      → ((verify hash_event tenant l).valid ≡ true)
        ↔ (first_broken hash_event none (own tenant l.events) ≡ none)
  unfolding verify
  verify_iff tenant l = ground arith

  -- A successful `append` adds the signed event, whatever its metadata were cleaned to.
  pub append-inversion :
      (l l' : Ledger) (input : Input) (now : ℕ) (e : Event)
      → append hash_event l input now ≡ ok (l', e)
      → (m : Value) × (e ≡ sign hash_event l input now m)
        × (l' ≡ record l { events = l.events ++ sign hash_event l input now m ∷ [] })
  unfolding append
  append-inversion l l' input now e h =
      let (_, _, cleaned) = >>=-eq-ok (assert_event_input input) (λ _. after) h in
      let (m, _, built) = >>=-eq-ok (clean_metadata input.metadata) done cleaned in
      (m, ground arith, ground arith)
    where
      done : Value → Result Error (Ledger × Event)
      done m =
          let x = sign hash_event l input now m in ok (record l { events = l.events ++ x ∷ [] }, x)

      after : Result Error (Ledger × Event)
      after = clean_metadata input.metadata >>= done

  -- `verify` finds no fault in a tenant's chain before an `append` for any tenant, and none after it.
  pub append-verify :
      (l l' : Ledger) (input : Input) (now : ℕ) (e : Event) (tenant : String)
      → append hash_event l input now ≡ ok (l', e)
      → (verify hash_event tenant l).valid ≡ true
      → (verify hash_event tenant l').valid ≡ true
  unfolding sign
  append-verify l l' input now e tenant h v =
      let (m, _, grown) = append-inversion l l' input now e h in
      (verify_iff tenant l').1 (
        subst (λ (k : Ledger). first_broken hash_event none (own tenant k.events) ≡ none)
          (sym grown)
          (after (sign hash_event l input now m) (sign-continues l input now m) refl
            (Bool-cases (is_of tenant (sign hash_event l input now m)))))
    where
      after :
          (x : Event)
          → continues hash_event (tip none (own input.tenant_id l.events)) x ≡ true
          → x.unsigned.tenant_id ≡ input.tenant_id
          → (is_of tenant x ≡ true) ⊎ (is_of tenant x ≡ false)
          → first_broken hash_event none (own tenant (l.events ++ x ∷ [])) ≡ none
      after x c t (inl mine) = rw (own-snoc tenant l.events x mine) (
          first_broken-snoc none (own tenant l.events) x ((verify_iff tenant l).0 v) (
            subst (λ s. continues hash_event (tip none (own s l.events)) x ≡ true)
              (sym t ∙ (eq_iff x.unsigned.tenant_id tenant).0 mine) c))
      after x c t (inr others) =
          rw (own-snoc_other tenant l.events x others) ((verify_iff tenant l).0 v)

  -- After a successful `append` the tenant's export is the old one and the new event, and the export
  -- of every other tenant is what it was.
  pub append-export_tenant :
      (l l' : Ledger) (input : Input) (now : ℕ) (e : Event) (tenant : String)
      → append hash_event l input now ≡ ok (l', e)
      → export_tenant tenant l' ≡ (
          if str_eq input.tenant_id tenant
          then export_tenant tenant l ++ e ∷ []
          else export_tenant tenant l)
  unfolding export_tenant
  append-export_tenant l l' input now e tenant h =
      let (m, signed, grown) = append-inversion l l' input now e h in
      let t : is_of tenant e ≡ str_eq input.tenant_id tenant =
        ap (is_of tenant) signed ∙ unfold sign in refl in
      let g : own tenant l'.events ≡ own tenant (l.events ++ e ∷ []) =
        ap (λ (k : Ledger). own tenant k.events) grown
        ∙ ap (λ (x : Event). own tenant (l.events ++ x ∷ [])) (sym signed) in
      g ∙ (elim (Bool-cases (is_of tenant e)) [
        | inl mine ↦ own-snoc tenant l.events e mine ∙ ground arith
        | inr others ↦ own-snoc_other tenant l.events e others ∙ ground arith
      ])
