-- ===== src/Ledger/Refinement.antt =====
-- services/governanceLedger.js: the one list of all tenants' events keeps the promises of a book with a
-- chain for each tenant.
use basitclaw.Common.{
  ◌≡◌, refl, ap, sym, subst, ◌∙◌, String, List, [], ◌∷◌, ◌++◌, Result, ok, err, arith, str_eq,
  eq_refl, any, all, take, Bool-cases, inl, inr,
}
use basitclaw.Ledger.{
  Event, Unsigned, Error, Ledger, empty_ledger, is_of, own, sign, append, export_tenant,
  rollback_events, rollback_to, replace_tenant, import_tenant, assert_event_input,
  assert_identifier, clean_metadata, verify_events, verify,
}
use basitclaw.Ledger.Book.{
  Book, empty_book, with_chain, Call, appends, rolls_back, replaces, imports, Reply, next_event,
  check_chain, promised, perform, promised_run, run, with_outcome,
}
use basitclaw.Ledger.Showing.{
  Shows, Agree, Shows-with_chain, sign-next_event, Agree-append, Agree-replace, Agree-import,
  Agree-known, Shows-append, Shows-take_over, own-rollback_events, own-rollback_events_other,
}

module _ (hash_event : Unsigned → String) where
  Agree-perform :
      (call : Call) (l : Ledger) (b : Book)
      → Shows hash_event l b
      → Agree hash_event (perform hash_event call l) (promised hash_event call b)
  unfolding perform promised append replace_tenant import_tenant check_chain rollback_to
      verify_events
  Agree-perform (appends input now) l b s =
      Agree-append hash_event (assert_event_input input) (clean_metadata input.metadata)
        (λ m.
          let x = sign hash_event l input now m in (record l { events = l.events ++ x ∷ [] }, x))
        _ (λ m. next_event hash_event (b.chain input.tenant_id) input now m)
        (λ m.
          let same =
            sign-next_event hash_event l input now m
            ∙ ap (λ (es : List Event). next_event hash_event es input now m)
                (s.same_chain input.tenant_id) in
          (
            subst
                (λ (y : Event).
                  Shows hash_event
                    (record l { events = l.events ++ sign hash_event l input now m ∷ [] })
                    (with_chain input.tenant_id (b.chain input.tenant_id ++ y ∷ []) b))
                same
                (Shows-append hash_event l b (sign hash_event l input now m) input.tenant_id s
                  (unfold sign in eq_refl input.tenant_id)),
            same,
          ))
  Agree-perform (rolls_back tenant kept) l b s = (
    Shows-with_chain hash_event tenant (take kept (b.chain tenant))
        (rollback_events tenant kept 0 l.events) l b s
        (own-rollback_events tenant kept 0 l.events
          ∙ ap (λ n. take n (own tenant l.events)) (omega arith)
          ∙ ap (take kept) (s.same_chain tenant))
        (λ u other. own-rollback_events_other tenant u kept 0 l.events other),
    refl,
  )
  Agree-perform (replaces tenant es) l b s =
      Agree-replace hash_event (assert_identifier tenant "tenantId") (all (is_of tenant) es)
        (verify_events hash_event es).valid _ _ _ _ (Shows-take_over hash_event tenant es l b s)
  Agree-perform (imports tenant es) l b s =
      let there : any (λ t. str_eq t tenant) b.imported
          ≡ any (λ t. str_eq t tenant) l.imported_tenants =
        ap (any (λ t. str_eq t tenant)) (sym s.same_imported) in
      elim (Bool-cases (any (λ t. str_eq t tenant) l.imported_tenants)) [
        | inl known ↦
            rw (there, known) (Agree-known hash_event (assert_identifier tenant "tenantId") l b s)
        | inr fresh ↦
            rw (there, fresh)
              (Agree-import hash_event (assert_identifier tenant "tenantId") (all (is_of tenant) es)
                (verify_events hash_event es).valid _ _ _ _
                (Shows-take_over hash_event tenant es l b s))
      ]

  Shows-with_outcome :
      (l : Ledger) (b : Book)
      → Shows hash_event l b
      → (x : Result Error (Ledger × Reply)) (y : Result Error (Book × Reply)) → Agree hash_event x y
      → (f : Ledger → Ledger × List (Result Error Reply))
        (g : Book → Book × List (Result Error Reply))
      → ((l' : Ledger) (b' : Book)
          → Shows hash_event l' b'
          → Shows hash_event (f l').0 (g b').0 × ((f l').1 ≡ (g b').1))
      → Shows hash_event (with_outcome l x f).0 (with_outcome b y g).0
        × ((with_outcome l x f).1 ≡ (with_outcome b y g).1)
  Shows-with_outcome l b s (err e) (err e') a f g h = let (after, same) = h l b s in (after, cc)
  Shows-with_outcome l b s (ok (l', r)) (ok (b', r')) a f g h =
      let (after, same) = h l' b' a.0 in let a' = a.1 in (after, cc)
  Shows-with_outcome l b s (err e) (ok y) a f g h = absurd a
  Shows-with_outcome l b s (ok x) (err e) a f g h = absurd a

  Shows-run :
      (calls : List Call) (l : Ledger) (b : Book)
      → Shows hash_event l b
      → Shows hash_event (run hash_event calls l).0 (promised_run hash_event calls b).0
        × ((run hash_event calls l).1 ≡ (promised_run hash_event calls b).1)
  unfolding run promised_run
  Shows-run [] l b s = (s, refl)
  Shows-run (call ∷ calls) l b s =
      Shows-with_outcome l b s (perform hash_event call l) (promised hash_event call b)
        (Agree-perform call l b s) (run hash_event calls) (promised_run hash_event calls)
        (λ l' b'. Shows-run calls l' b')

  -- Whatever is called, in whatever order and for whatever tenants, from an empty ledger: every call
  -- returns or throws what it does on a book with a chain for each tenant, the export of each tenant is
  -- its chain in the book, and `verify` says of it what verifying that chain says.
  pub run-promised_run :
      (calls : List Call) (tenant : String)
      → let l = (run hash_event calls empty_ledger).0 in
        let b = (promised_run hash_event calls empty_book).0 in
        ((run hash_event calls empty_ledger).1 ≡ (promised_run hash_event calls empty_book).1)
        × (export_tenant tenant l ≡ b.chain tenant)
        × (verify hash_event tenant l ≡ verify_events hash_event (b.chain tenant))
  unfolding export_tenant verify
  run-promised_run calls tenant =
      let (s, same) =
        Shows-run calls empty_ledger empty_book
          (record { same_chain = λ t. refl; same_imported = refl }) in
      (same, s.same_chain tenant, ap (verify_events hash_event) (s.same_chain tenant))
