-- ===== src/AlertOutbox/Forgetting.antt =====
-- security/securityAlertOutbox.js, `pruneDirectory`: which receipt goes when there are too many.
use basitclaw.Common.{
  ℕ, suc, ◌-◌, ◌<◌, ◌≡◌, String, List, ◌∷◌, arith, length, drop, All, ok, >>=-eq-ok, ok-pair, sym,
  ap, subst, ◌∙◌,
}
use basitclaw.AlertOutbox.{Config, Outbox, Receipt}
use basitclaw.AlertOutbox.Files.{put, prune, put-first, has-of-later, has-remove}
use basitclaw.AlertOutbox.Operations.{Response, complete, read_claim, receipt_of}
use basitclaw.AlertOutbox.Exclusive.{places, IsExclusive}
use basitclaw.AlertOutbox.Steps.{read_claim-has}

prune-put-first :
    (k retain : ℕ) (v : Receipt) (d : List (ℕ × Receipt))
    → length d ≡ retain
    → All (λ (f : ℕ × Receipt). k < f.0) d
    → prune retain (put k v d) ≡ d
unfolding prune
prune-put-first k retain v d full later =
    let e : suc (length d) - retain ≡ 1 = omega (arith, full) in
    ap (λ (l : List (ℕ × Receipt)). drop (length l - retain) l) (put-first k v d later)
    ∙ ap (λ n. drop n ((k, v) ∷ d)) e

-- Where as many receipts are kept as `deliveredRetention` allows and all of them have greater ids,
-- completing a delivery writes its receipt and deletes it at once: afterwards no directory knows the
-- alert, so that its event would be enqueued and delivered again.
pub complete-forgets :
    (c : Config) (k : ℕ) (token : String) (r : Response) (now : ℕ) (s s' : Outbox) (x : Receipt)
    → IsExclusive s
    → complete c k token r now s ≡ ok (s', x)
    → length s.delivereds ≡ c.delivered_retention
    → All (λ (f : ℕ × Receipt). k < f.0) s.delivereds
    → places k s' ≡ 0
unfolding complete places
complete-forgets c k token r now s s' x alone h full later =
    let (i, found, h1) = >>=-eq-ok (read_claim k token s) _ h in
    let (s_is, _) = ok-pair _ s' x h1 in
    let in_flight = read_claim-has c k token s i found in
    let same =
      prune-put-first k c.delivered_retention (receipt_of now r i) s.delivereds full later in
    subst (λ (t : Outbox). places k t ≡ 0) (sym s_is)
      (ground (arith, same, has-of-later k s.delivereds later, has-remove k k s.inflights, alone k))
