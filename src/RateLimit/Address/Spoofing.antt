-- ===== src/RateLimit/Address/Spoofing.antt =====
-- security/rateLimiter.js, `resolveClientAddress`: what a client can make of its own address.
use basitclaw.Common.{
  ℕ, suc, ◌+◌, ◌-◌, ◌≤◌, ◌≡◌, refl, ap, ◌∙◌, Option, none, some, List, [], ◌∷◌, ◌++◌, map, arith,
  ◌==◌, length, length-append, filter-append, get_elem?, ok, Bool-cases, inl, inr,
}
use mathlib.Core.List.{map-append, append_assoc}
use basitclaw.RateLimit.Address.{
  add_to_first, unknown, normalise_address, split_commas, forwarded_addresses, or_else,
  resolve_client_address,
}

add_to_first-append :
    (c : ℕ) (part : List ℕ) (parts more : List (List ℕ))
    → add_to_first c ((part ∷ parts) ++ more) ≡ add_to_first c (part ∷ parts) ++ more
add_to_first-append c part parts more = refl

split_commas-cons :
    (cs : List ℕ) → (part : List ℕ) × (parts : List (List ℕ)) × (split_commas cs ≡ part ∷ parts)
unfolding split_commas
split_commas-cons [] = ([], [], refl)
split_commas-cons (c ∷ cs) =
    let (part, parts, e) = split_commas-cons cs in
    elim (Bool-cases (c == b',')) [
      | inl comma ↦ ([], split_commas cs, rw comma)
      | inr plain ↦ (c ∷ part, parts, rw (plain, e))
    ]

split_commas-append :
    (cs ds : List ℕ) → split_commas (cs ++ b',' ∷ ds) ≡ split_commas cs ++ split_commas ds
unfolding split_commas
split_commas-append [] ds = refl
split_commas-append (c ∷ cs) ds =
    let ih = split_commas-append cs ds in
    let (part, parts, e) = split_commas-cons cs in
    elim (Bool-cases (c == b',')) [ inl comma ↦ rw (comma, ih) | inr plain ↦ rw (plain, ih, e) ]

forwarded_addresses-append :
    (cs ds : List ℕ)
    → forwarded_addresses (cs ++ b',' ∷ ds) ≡ forwarded_addresses cs ++ forwarded_addresses ds
unfolding forwarded_addresses
forwarded_addresses-append cs ds =
    rw (split_commas-append cs ds, map-append normalise_address (split_commas cs))
      (filter-append _ (map normalise_address (split_commas cs)) _)

get_elem?-append {ℓ} :
    {A : Type ℓ} (xs ys : List A) (i : ℕ) → get_elem? (xs ++ ys) (length xs + i) ≡ get_elem? ys i
get_elem?-append {A} [] ys i = let e : 0 + i ≡ i = omega arith in ap (λ (n : ℕ). get_elem? ys n) e
get_elem?-append (x ∷ xs) ys i =
    let e : suc (length xs) + i ≡ suc (length xs + i) = omega arith in
    rw e (get_elem?-append xs ys i)

-- Counted from the back, an index that stays in the rear part does not see the front part.
get_elem?-from_back :
    (front rear : List (List ℕ)) (n : ℕ)
    → n + 1 ≤ length rear
    → get_elem? (front ++ rear) (length (front ++ rear) - n - 1)
      ≡ get_elem? rear (length rear - n - 1)
get_elem?-from_back front rear n h =
    let e : length (front ++ rear) - n - 1 ≡ length front + (length rear - n - 1) =
      omega (arith, length-append front rear) in
    ap (λ (i : ℕ). get_elem? (front ++ rear) i) e
    ∙ get_elem?-append front rear (length rear - n - 1)

-- Text that a client puts in front of what its trusted proxies append does not change the address
-- it is counted under: with as many addresses behind it as there are trusted hops, the result is
-- that of the header without it.
pub resolve_client_address_unspoofed :
    (spoof trusted : List ℕ) (remote : Option (List ℕ)) (hops : ℕ)
    → hops ≤ length (forwarded_addresses trusted)
    → resolve_client_address (some (spoof ++ b',' ∷ trusted)) remote hops
      ≡ resolve_client_address (some trusted) remote hops
unfolding resolve_client_address
resolve_client_address_unspoofed spoof trusted remote hops enough =
    let peer = normalise_address (or_else remote unknown) in
    let front = forwarded_addresses spoof in
    let rear = forwarded_addresses trusted ++ peer ∷ [] in
    let parts : forwarded_addresses (spoof ++ b',' ∷ trusted) ++ peer ∷ [] ≡ front ++ rear =
      ap (λ (l : List (List ℕ)). l ++ peer ∷ []) (forwarded_addresses-append spoof trusted)
      ∙ append_assoc front (forwarded_addresses trusted) (peer ∷ []) in
    let at : get_elem? (front ++ rear) (length (front ++ rear) - hops - 1)
        ≡ get_elem? rear (length rear - hops - 1) =
      get_elem?-from_back front rear hops
        (omega (arith, length-append (forwarded_addresses trusted) (peer ∷ []))) in
    rw (parts, at)

-- With a trusted hop and no forwarding header the address is the text "unknown", whatever the
-- socket's address is: the empty header splits into one empty part, which is named "unknown" before
-- empty parts are dropped.
pub resolve_client_address_no_header :
    (remote : Option (List ℕ)) (hops : ℕ)
    → 1 ≤ hops
    → hops ≤ 10
    → resolve_client_address none remote hops ≡ ok unknown
unfolding resolve_client_address forwarded_addresses
resolve_client_address_no_header remote hops some_hops few =
    let e : 2 - hops - 1 ≡ 0 = omega arith in ground arith
