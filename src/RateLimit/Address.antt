-- ===== src/RateLimit/Address.antt =====
-- security/rateLimiter.js, `resolveClientAddress` and `classifyRequest`, over code points.
pub mod Spoofing
use basitclaw.Common.{
  ℕ, ◌+◌, ◌-◌, String, Bool, true, false, ◌&&◌, ◌||◌, not, Option, none, some, List, [], ◌∷◌, ◌++◌,
  map, leb, ◌==◌, if◌then◌else◌, length, drop, filter, get_elem?, Result, ok, err, ◌>>=◌, ◌>>◌,
  guard, any,
}
use mathlib.Core.List.{reverse}
use basitclaw.Common.Text.{codes, trim}
use basitclaw.RateLimit.{PolicyName, read, write, sensitive}

pub data AddressError : Type 0 where
  bad_hops : AddressError

unfoldable pub starts_with : List ℕ → List ℕ → Bool
starts_with [] cs = true
starts_with (p ∷ ps) [] = false
starts_with (p ∷ ps) (c ∷ cs) = p == c && starts_with ps cs

unfoldable pub ends_with : List ℕ → List ℕ → Bool
unfolding starts_with
ends_with suffix cs = starts_with (reverse suffix) (reverse cs)

abbrev pub is_empty : List ℕ → Bool
is_empty [] = true
is_empty (c ∷ cs) = false

abbrev pub unknown : List ℕ
unknown = codes "unknown"

unfoldable pub normalise_address : List ℕ → List ℕ
unfolding starts_with trim
normalise_address value =
    let address = trim value in
    if starts_with (codes "::ffff:") address
    then drop 7 address
    else if is_empty address
    then unknown
    else address

-- text.split(','): there is always a part, and a comma ends one.
abbrev add_to_first : ℕ → List (List ℕ) → List (List ℕ)
add_to_first c [] = (c ∷ []) ∷ []
add_to_first c (part ∷ parts) = (c ∷ part) ∷ parts

unfoldable pub split_commas : List ℕ → List (List ℕ)
split_commas [] = [] ∷ []
split_commas (c ∷ cs) =
    let rest = split_commas cs in if c == b',' then [] ∷ rest else add_to_first c rest

-- The addresses that a forwarding header lists; `filter(Boolean)` drops what is empty.
unfoldable pub forwarded_addresses : List ℕ → List (List ℕ)
unfolding normalise_address split_commas
forwarded_addresses header =
    filter (λ a. not (is_empty a)) (map normalise_address (split_commas header))

abbrev or_else {ℓ} : {A : Type ℓ} → Option A → A → A
or_else none d = d
or_else (some a) d = a

-- `header` is x-forwarded-for and `remote` is the socket's address, each of which may be missing.
unfoldable pub resolve_client_address :
    Option (List ℕ) → Option (List ℕ) → ℕ → Result AddressError (List ℕ)
resolve_client_address header remote hops = do
  guard (leb hops 10) bad_hops
  let peer = normalise_address (or_else remote unknown)
  let chain = forwarded_addresses (or_else header []) ++ peer ∷ []
  ok (if hops == 0 then peer else or_else (get_elem? chain (length chain - hops - 1)) peer)

abbrev to_upper : ℕ → ℕ
to_upper c = if leb b'a' c && leb c b'z' then c - 32 else c

unfoldable pub same_text : List ℕ → List ℕ → Bool
same_text [] [] = true
same_text (a ∷ as') (b ∷ bs) = a == b && same_text as' bs
same_text _ _ = false

-- The policy that a request is counted under. An upper-case method is compared for an ASCII method.
unfoldable pub classify_request : List ℕ → List ℕ → PolicyName
unfolding ends_with same_text
classify_request method path =
    let verb = map to_upper method in
    if not (same_text verb (codes "GET"))
      && any (λ (s : String). ends_with (codes s) path)
          ("/restore" ∷ "/replicate" ∷ "/recovery-drills" ∷ "/resilience-cycle" ∷ [])
    then sensitive
    else if any (λ (s : String). same_text verb (codes s)) ("GET" ∷ "HEAD" ∷ "OPTIONS" ∷ [])
    then read
    else write
