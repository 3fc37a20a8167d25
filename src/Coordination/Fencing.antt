-- ===== src/Coordination/Fencing.antt =====
-- coordination/fileLeaseCoordinator.js: fencing tokens, over the interleaved calls of any processes.
use basitclaw.Common.{
  ℕ, ◌<◌, ◌≡◌, ◌≢◌, String, none, some, arith, ◌==◌, Bool-cases, inl, inr, err, sym, ◌∙◌, ap, subst,
}
use basitclaw.Coordination.{lost, Handle}
use basitclaw.Coordination.Lease.{new_owner, assert_valid}
use basitclaw.Coordination.Setup.{
  World, draw_token, write_owner, Step, makes, draws, writes, removes, begin_beat, reads_owner,
  beats, Steps, done, next,
}
use basitclaw.Coordination.Effects.{
  IsDrawn, NotLease, NotBeating, next_fencing_token-gt, current_owner-IsLost, make_directory-eq,
  draw_token-eq, write_owner-eq, end_beat-eq, beaten-fence, beaten-NotLease, assert_valid-NotLease,
}

-- A token that was drawn, and that nobody is setting up any more.
abbrev IsSpent : ℕ → World → Type 0
IsSpent t w = IsDrawn t w.store.fence × (w.setting_up t ≡ none)

-- A spent token that is not the lease's and that no heartbeat brings back.
abbrev IsLost : ℕ → World → Type 0
IsLost t w = IsSpent t w × NotLease t w.store.lease × NotBeating t w

Step-IsDrawn :
    (t : ℕ) (w w' : World) → Step w w' → IsDrawn t w.store.fence → IsDrawn t w'.store.fence
unfolding begin_beat
Step-IsDrawn t w _ (makes now w' e) d =
    subst (λ (x : World). IsDrawn t x.store.fence) (sym (make_directory-eq now w w' e)) d
Step-IsDrawn t w _ (draws owner_id token w' e) d =
    let (drawn, is) = draw_token-eq owner_id token w w' e in
    let more = next_fencing_token-gt w.store.fence token t drawn d in
    subst (λ (x : World). IsDrawn t x.store.fence) (sym is) (omega (arith, more))
Step-IsDrawn t w _ (writes lease_ms token now h w' e) d =
    let (_, _, _, is) = write_owner-eq lease_ms token now h w w' e in
    subst (λ (x : World). IsDrawn t x.store.fence) (sym is) d
Step-IsDrawn t w _ removes d = d
Step-IsDrawn t w _ (reads_owner token) d = d
Step-IsDrawn t w _ (beats lease_ms token now w' e) d =
    let (o, _, is) = end_beat-eq lease_ms token now w w' e in
    subst (λ (x : World). IsDrawn t x.store.fence) (sym is)
      (subst (IsDrawn t) (sym (beaten-fence lease_ms now o w.store)) d)

Step-IsSpent : (t : ℕ) (w w' : World) → Step w w' → IsSpent t w → IsSpent t w'
unfolding begin_beat
Step-IsSpent t w _ (makes now w' e) (d, p) =
    subst (IsSpent t) (sym (make_directory-eq now w w' e)) (d, p)
Step-IsSpent t w _ (draws owner_id token w' e) (d, p) =
    let (drawn, is) = draw_token-eq owner_id token w w' e in
    let more = next_fencing_token-gt w.store.fence token t drawn d in
    subst (IsSpent t) (sym is) (omega (arith, more), ground (arith, more, p))
Step-IsSpent t w _ (writes lease_ms token now h w' e) (d, p) =
    let (_, _, _, is) = write_owner-eq lease_ms token now h w w' e in
    subst (IsSpent t) (sym is) (d, ground (arith, p))
Step-IsSpent t w _ removes (d, p) = (d, p)
Step-IsSpent t w _ (reads_owner token) (d, p) = (d, p)
Step-IsSpent t w _ (beats lease_ms token now w' e) (d, p) =
    let (_, _, is) = end_beat-eq lease_ms token now w w' e in
    (
      Step-IsDrawn t w w' (beats lease_ms token now w' e) d,
      subst (λ (x : World). x.setting_up t ≡ none) (sym is) p,
    )

other_writer :
    (t token : ℕ) (owner_id : String) (w : World)
    → w.setting_up t ≡ none
    → w.setting_up token ≡ some owner_id
    → token ≢ t
other_writer t token owner_id w free held same = cc (free, held, ap w.setting_up same)

Step-IsLost : (t : ℕ) (w w' : World) → Step w w' → IsLost t w → IsLost t w'
unfolding new_owner begin_beat
Step-IsLost t w w' x (spent, n, idle) =
    (Step-IsSpent t w w' x spent, lease_after w' x, idle_after w' x)
  where
    lease_after : (w' : World) → Step w w' → NotLease t w'.store.lease
    lease_after _ (makes now w' e) =
        subst (λ (x : World). NotLease t x.store.lease) (sym (make_directory-eq now w w' e)) tt
    lease_after _ (draws owner_id token w' e) =
        let (_, is) = draw_token-eq owner_id token w w' e in
        subst (λ (x : World). NotLease t x.store.lease) (sym is) n
    lease_after _ (writes lease_ms token now h w' e) =
        let (owner_id, held, _, is) = write_owner-eq lease_ms token now h w w' e in
        subst (λ (x : World). NotLease t x.store.lease) (sym is)
          (other_writer t token owner_id w spent.1 held)
    lease_after _ removes = tt
    lease_after _ (reads_owner token) = n
    lease_after _ (beats lease_ms token now w' e) =
        let (o, held, is) = end_beat-eq lease_ms token now w w' e in
        subst (λ (x : World). NotLease t x.store.lease) (sym is)
          (beaten-NotLease t lease_ms now o w.store (λ x same. idle token x (held ∙ ap some same)))

    idle_after : (w' : World) → Step w w' → NotBeating t w'
    idle_after _ (makes now w' e) = subst (NotBeating t) (sym (make_directory-eq now w w' e)) idle
    idle_after _ (draws owner_id token w' e) =
        subst (NotBeating t) (sym (draw_token-eq owner_id token w w' e).1) idle
    idle_after _ (writes lease_ms token now h w' e) =
        let (_, _, _, is) = write_owner-eq lease_ms token now h w w' e in
        subst (NotBeating t) (sym is) idle
    idle_after _ removes = idle
    idle_after _ (reads_owner token) = λ k o at_k. elim (Bool-cases (k == token)) [
      | inl same ↦ current_owner-IsLost t w.store o (cc (rw same at at_k)) n
      | inr other ↦ idle k o (rw other at at_k)
    ]
    idle_after _ (beats lease_ms token now w' e) =
        let (_, _, is) = end_beat-eq lease_ms token now w w' e in
        subst (NotBeating t) (sym is) (λ k o at_k. elim (Bool-cases (k == token)) [
          | inl same ↦ absurd (cc (rw same at at_k))
          | inr other ↦ idle k o (rw other at at_k)
        ])

Steps-IsDrawn :
    (t : ℕ) {w w' : World} → Steps w w' → IsDrawn t w.store.fence → IsDrawn t w'.store.fence
Steps-IsDrawn t (done w) d = d
Steps-IsDrawn t (next {w} {m} x xs) d = Steps-IsDrawn t xs (Step-IsDrawn t w m x d)

Steps-IsSpent : (t : ℕ) {w w' : World} → Steps w w' → IsSpent t w → IsSpent t w'
Steps-IsSpent t (done w) s = s
Steps-IsSpent t (next {w} {m} x xs) s = Steps-IsSpent t xs (Step-IsSpent t w m x s)

Steps-IsLost : (t : ℕ) {w w' : World} → Steps w w' → IsLost t w → IsLost t w'
Steps-IsLost t (done w) l = l
Steps-IsLost t (next {w} {m} x xs) l = Steps-IsLost t xs (Step-IsLost t w m x l)

module _ (first_owner second_owner : String) (t t' lease_ms lease_ms' now later : ℕ) (h g : Handle)
    (w0 w1 w2 w3 w4 w5 w6 w7 w8 : World) where
  -- The calls of the file system of any processes follow each other in any order; the drawing of a
  -- token and the removal of a directory with its file are taken as one call each. A process that
  -- draws its token when another lease has been acquired has the greater token; and once it has
  -- acquired its own lease, at a moment when no heartbeat holds a record of the earlier lease that it
  -- has read and not yet written, the earlier lease fails every check, at any time, whatever calls
  -- of any processes lie between and behind, takeovers and removals of fresh leases included.
  pub superseded_lease :
      (at_time : ℕ)
      → draw_token first_owner w0 ≡ some (t, w1)
      → Steps w1 w2
      → write_owner lease_ms t now w2 ≡ some (h, w3)
      → Steps w3 w4
      → draw_token second_owner w4 ≡ some (t', w5)
      → Steps w5 w6
      → write_owner lease_ms' t' later w6 ≡ some (g, w7)
      → NotBeating t w7
      → Steps w7 w8
      → (h.fencing_token < g.fencing_token) × (assert_valid h at_time w8.store ≡ err lost)
  unfolding new_owner
  superseded_lease at_time draw setup acquired held draw' setup' acquired' idle after =
      let (_, is1) = draw_token-eq first_owner t w0 w1 draw in
      let drawn : IsDrawn t w1.store.fence =
        subst (λ (x : World). IsDrawn t x.store.fence) (sym is1) (omega arith) in
      let (_, _, h_is, is3) = write_owner-eq lease_ms t now h w2 w3 acquired in
      let spent : IsSpent t w3 =
        subst (IsSpent t) (sym is3) (Steps-IsDrawn t setup drawn, ground arith) in
      let spent4 = Steps-IsSpent t held spent in
      let (next_is, _) = draw_token-eq second_owner t' w4 w5 draw' in
      let more : t < t' = next_fencing_token-gt w4.store.fence t' t next_is spent4.0 in
      let spent6 =
        Steps-IsSpent t setup' (Step-IsSpent t w4 w5 (draws second_owner t' w5 draw') spent4) in
      let (_, _, g_is, is7) = write_owner-eq lease_ms' t' later g w6 w7 acquired' in
      let elsewhere : NotLease t w7.store.lease =
        subst (λ (x : World). NotLease t x.store.lease) (sym is7)
          (λ same. omega (arith, more, same)) in
      let spent7 = Step-IsSpent t w6 w7 (writes lease_ms' t' later g w7 acquired') spent6 in
      let gone = Steps-IsLost t after (spent7, elsewhere, idle) in
      let h_token : h.fencing_token ≡ t = ap (λ (x : Handle). x.fencing_token) h_is in
      let g_token : g.fencing_token ≡ t' = ap (λ (x : Handle). x.fencing_token) g_is in
      (
        omega (arith, more, h_token, g_token),
        assert_valid-NotLease h at_time w8.store
            (subst (λ x. NotLease x w8.store.lease) (sym h_token) gone.1),
      )
