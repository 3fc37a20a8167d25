-- ===== src/Ledger/Replace.antt =====
-- services/governanceLedger.js, `replaceTenant` and `importTenant`.
use basitclaw.Common.{
  ℕ, ◌≡◌, ◌≢◌, refl, ap, sym, ◌∙◌, subst, String, true, List, [], ◌∷◌, ◌++◌, ok, guard-eq-ok, arith,
  length, filter-append, append_nil, all, eq_iff,
}
use basitclaw.Ledger.{
  Ledger, Event, Unsigned, is_identifier, verify_events, verify, own, is_of, export_tenant,
  replace_tenant,
}
use basitclaw.Ledger.Rollback.{others}

pub own-others : (tenant : String) (es : List Event) → own tenant (others tenant es) ≡ []
own-others tenant [] = refl
own-others tenant (e ∷ es) = ground (arith, own-others tenant es)

pub own-all :
    (tenant : String) (es : List Event) → all (is_of tenant) es ≡ true → own tenant es ≡ es
own-all tenant [] h = refl
own-all tenant (e ∷ es) h = ground (arith, own-all tenant es)

pub own_none :
    (tenant t : String) (es : List Event)
    → tenant ≢ t
    → all (is_of tenant) es ≡ true
    → own t es ≡ []
own_none tenant t [] d h = refl
own_none tenant t (e ∷ es) d h = ground (
  arith,
  own_none tenant t es d,
  eq_iff e.unsigned.tenant_id tenant,
  eq_iff e.unsigned.tenant_id t,
)

pub own-others_ne :
    (tenant t : String) (es : List Event) → tenant ≢ t → own t (others tenant es) ≡ own t es
own-others_ne tenant t [] d = refl
own-others_ne tenant t (e ∷ es) d = ground (
  arith,
  own-others_ne tenant t es d,
  eq_iff e.unsigned.tenant_id tenant,
  eq_iff e.unsigned.tenant_id t,
)

module _ (hash_event : Unsigned → String) (tenant : String) (es : List Event) (l l' : Ledger)
    (n : ℕ) (replaced : replace_tenant hash_event tenant es l ≡ ok (l', n)) where
  facts :
      (all (is_of tenant) es ≡ true)
      × ((verify_events hash_event es).valid ≡ true)
      × (l'.events ≡ others tenant l.events ++ es)
      × (n ≡ length es)
  unfolding replace_tenant
  facts =
      let (_, a) = guard-eq-ok (is_identifier tenant) _ _ replaced in
      let (mine, b) = guard-eq-ok (all (is_of tenant) es) _ _ a in
      let (intact, c) = guard-eq-ok (verify_events hash_event es).valid _ _ b in
      (mine, intact, ground arith, ground arith)

  -- A successful replacement makes the tenant's export the replacement, event for event, with a
  -- chain that `verify` accepts, and leaves the export of every other tenant as it was.
  pub replace_tenant-export_tenant :
      (export_tenant tenant l' ≡ es)
      × ((verify hash_event tenant l').valid ≡ true)
      × ((t : String) → tenant ≢ t → export_tenant t l' ≡ export_tenant t l)
      × (n ≡ length es)
  unfolding export_tenant verify
  replace_tenant-export_tenant =
      let (mine, intact, stored, counted) = facts in
      let at_own : own tenant l'.events ≡ es =
        ap (own tenant) stored
        ∙ filter-append (is_of tenant) (others tenant l.events) es
        ∙ ground (arith, own-others tenant l.events, own-all tenant es) in
      (
        at_own,
        subst (λ xs. (verify_events hash_event xs).valid ≡ true) (sym at_own) intact,
        λ t d.
            ap (own t) stored
            ∙ filter-append (is_of t) (others tenant l.events) es
            ∙ ground (
              arith,
              own-others_ne tenant t l.events d,
              own_none tenant t es d,
              append_nil (own t l.events),
            ),
        counted,
      )
