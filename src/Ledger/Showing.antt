-- ===== src/Ledger/Showing.antt =====
-- services/governanceLedger.js: when the list of all tenants' events shows a book, and that each operation on the two
-- agrees.
use basitclaw.Common.{
  ℕ, zero, suc, ◌+◌, ◌-◌, ◌≡◌, ◌≢◌, refl, ap, sym, subst, ◌∙◌, String, Bool, true, false, List, [],
  ◌∷◌, ◌++◌, Result, ok, err, ◌>>=◌, ◌>>◌, guard, arith, ltb, str_eq, eq_iff, all, take, Bool-cases,
  inl, inr, filter-append, append_nil,
}
use basitclaw.Ledger.{Event, Unsigned, Input, Error, Ledger, is_of, own, sign, rollback_events}
use basitclaw.Ledger.Metadata.{Value}
use basitclaw.Ledger.Chain.{own-snoc, own-snoc_other}
use basitclaw.Ledger.Rollback.{others}
use basitclaw.Ledger.Replace.{own-others, own-others_ne, own-all, own_none}
use basitclaw.Ledger.Book.{
  Book, with_chain, Reply, appended, replaced, nothing, next_event, take_over,
}

pub take-nil : (n : ℕ) → take {A = Event} n [] ≡ []
take-nil zero = refl
take-nil (suc n) = refl

-- A rollback takes a prefix of the tenant's events,
pub own-rollback_events :
    (tenant : String) (kept seen : ℕ) (es : List Event)
    → own tenant (rollback_events tenant kept seen es) ≡ take (kept - seen) (own tenant es)
unfolding rollback_events
own-rollback_events tenant kept seen [] = sym (take-nil (kept - seen))
own-rollback_events tenant kept seen (e ∷ es) = elim (Bool-cases (is_of tenant e)) [
  | inr theirs ↦ rw theirs (rw theirs (own-rollback_events tenant kept seen es))
  | inl mine ↦ elim (Bool-cases (ltb kept (seen + 1))) [
    | inl full ↦
        let zero_left : kept - seen ≡ 0 = ground arith in
        let zero_then : kept - (seen + 1) ≡ 0 = omega arith in
        let rest : own tenant (rollback_events tenant kept (seen + 1) es) ≡ [] =
          own-rollback_events tenant kept (seen + 1) es
          ∙ ap (λ n. take n (own tenant es)) zero_then in
        rw (mine, full, zero_left) rest
    | inr room ↦
        let more : kept - seen ≡ suc (kept - (seen + 1)) = ground arith in
        rw (mine, room, more)
          (rw mine
            (ap (λ (xs : List Event). e ∷ xs) (own-rollback_events tenant kept (seen + 1) es)))
  ]
]

-- and leaves the others'.
pub own-rollback_events_other :
    (tenant t : String) (kept seen : ℕ) (es : List Event)
    → str_eq tenant t ≡ false
    → own t (rollback_events tenant kept seen es) ≡ own t es
unfolding rollback_events
own-rollback_events_other tenant t kept seen [] h = refl
own-rollback_events_other tenant t kept seen (e ∷ es) h = ground (
  arith,
  own-rollback_events_other tenant t kept seen es,
  own-rollback_events_other tenant t kept (seen + 1) es,
  eq_iff e.unsigned.tenant_id tenant,
  eq_iff e.unsigned.tenant_id t,
  eq_iff tenant t,
)

module _ (hash_event : Unsigned → String) where
  -- The ledger `l` shows each tenant the chain that the book `b` has for it.
  pub record Shows (l : Ledger) (b : Book) : Type 0 where
    pub same_chain : (t : String) → own t l.events ≡ b.chain t
    pub same_imported : l.imported_tenants ≡ b.imported

  -- Two outcomes of a call: both throw the same, or both return the same and agree on what follows.
  abbrev pub Agree : Result Error (Ledger × Reply) → Result Error (Book × Reply) → Type 0
  Agree (err e) (err f) = e ≡ f
  Agree (ok (l, x)) (ok (b, y)) = Shows l b × (x ≡ y)
  Agree _ _ = ⊥

  pub Shows-with_chain :
      (tenant : String) (es xs : List Event) (l : Ledger) (b : Book)
      → Shows l b
      → own tenant xs ≡ es
      → ((t : String) → str_eq tenant t ≡ false → own t xs ≡ own t l.events)
      → Shows (record l { events = xs }) (with_chain tenant es b)
  unfolding with_chain
  Shows-with_chain tenant es xs l b s mine theirs = record {
    same_chain = λ t. elim (Bool-cases (str_eq tenant t)) [
      | inl same ↦ rw same (subst (λ u. own u xs ≡ es) ((eq_iff tenant t).0 same) mine)
      | inr other ↦ rw other (theirs t other ∙ s.same_chain t)
    ];
    same_imported = s.same_imported;
  }

  pub sign-next_event :
      (l : Ledger) (input : Input) (now : ℕ) (m : Value)
      → sign hash_event l input now m
        ≡ next_event hash_event (own input.tenant_id l.events) input now m
  unfolding sign next_event
  sign-next_event l input now m = refl

  -- A check that both sides make first.
  pub Agree-guard :
      (check : Result Error (Unit {0})) (l : Result Error (Ledger × Reply))
      (b : Result Error (Book × Reply))
      → Agree l b
      → Agree (check >> l) (check >> b)
  Agree-guard (err e) l b h = refl
  Agree-guard (ok x) l b h = h

  pub Agree-append :
      (check : Result Error (Unit {0})) (cleaned : Result Error Value) (c : Value → Ledger × Event)
      (b : Value → Book) (e : Value → Event)
      → ((m : Value) → Shows (c m).0 (b m) × ((c m).1 ≡ e m))
      → Agree
          ((check >> (cleaned >>= λ m. ok (c m))) >>= λ r. ok (r.0, appended r.1))
          (check >> ◌>>=◌ {B = Book × Reply} cleaned (λ m. ok (b m, appended (e m))))
  Agree-append (err x) cleaned c b e h = refl
  Agree-append (ok x) (err y) c b e h = refl
  Agree-append (ok x) (ok m) c b e h = ((h m).0, ap (λ (y : Event). appended y) (h m).1)

  pub Agree-replace :
      (check : Result Error (Unit {0})) (mine intact : Bool) (e f : Error) (r : Ledger × ℕ)
      (b : Book)
      → (mine ≡ true → Shows r.0 b)
      → Agree
          ((check >> (guard mine e >> (guard intact f >> ok r))) >>= λ x. ok (x.0, replaced x.1))
          ((check >> (guard mine e >> guard intact f)) >> ok (b, replaced r.1))
  Agree-replace (err x) mine intact e f r b h = refl
  Agree-replace (ok x) false intact e f r b h = refl
  Agree-replace (ok x) true false e f r b h = refl
  Agree-replace (ok x) true true e f r b h = (h refl, refl)

  pub Agree-import :
      (check : Result Error (Unit {0})) (mine intact : Bool) (e f : Error) (r : Ledger × ℕ)
      (b : Book)
      → (mine ≡ true → Shows r.0 b)
      → Agree
          ((check >> ((check >> (guard mine e >> (guard intact f >> ok r))) >>= λ x. ok x.0))
            >>= λ x. ok (x, nothing))
          ((check >> (guard mine e >> guard intact f)) >> ok (b, nothing))
  Agree-import (err x) mine intact e f r b h = refl
  Agree-import (ok x) false intact e f r b h = refl
  Agree-import (ok x) true false e f r b h = refl
  Agree-import (ok x) true true e f r b h = (h refl, refl)

  pub Agree-known :
      (check : Result Error (Unit {0})) (l : Ledger) (b : Book)
      → Shows l b
      → Agree ((check >> ok l) >>= λ x. ok (x, nothing)) (check >> ok (b, nothing))
  Agree-known (err x) l b s = refl
  Agree-known (ok x) l b s = (s, refl)

  pub Shows-append :
      (l : Ledger) (b : Book) (x : Event) (t : String)
      → Shows l b
      → str_eq x.unsigned.tenant_id t ≡ true
      → Shows (record l { events = l.events ++ x ∷ [] }) (with_chain t (b.chain t ++ x ∷ []) b)
  Shows-append l b x t s mine =
      Shows-with_chain t (b.chain t ++ x ∷ []) (l.events ++ x ∷ []) l b s
        (own-snoc t l.events x mine ∙ ap (λ (es : List Event). es ++ x ∷ []) (s.same_chain t))
        (λ u other. own-snoc_other u l.events x (
          ground (arith, eq_iff x.unsigned.tenant_id t, eq_iff x.unsigned.tenant_id u, eq_iff t u)))

  pub Shows-take_over :
      (tenant : String) (es : List Event) (l : Ledger) (b : Book)
      → Shows l b
      → all (is_of tenant) es ≡ true
      → Shows
          (record {
            events = others tenant l.events ++ es;
            imported_tenants = tenant ∷ l.imported_tenants;
          })
          (take_over tenant es b)
  unfolding take_over
  Shows-take_over tenant es l b s mine =
      let xs = others tenant l.events ++ es in
      let kept : Shows (record l { events = xs }) (with_chain tenant es b) =
        Shows-with_chain tenant es xs l b s
          (filter-append (is_of tenant) (others tenant l.events) es
            ∙ ground (arith, own-others tenant l.events, own-all tenant es))
          (λ u other.
            let ne : tenant ≢ u = λ e. cc ((eq_iff tenant u).1 e) in
            filter-append (is_of u) (others tenant l.events) es
            ∙ ground (
              arith,
              own-others_ne tenant u l.events ne,
              own_none tenant u es ne,
              append_nil (own u l.events),
            )) in
      record {
        same_chain = kept.same_chain;
        same_imported = ap (λ (ts : List String). tenant ∷ ts) s.same_imported;
      }
