-- ===== src/Ledger/Metadata.antt =====
-- services/governanceLedger.js, `sanitiseMetadata`: what a caller hands over as metadata, and the
-- copy that an event keeps.
use basitclaw.Common.{ℕ, ◌+◌, ◌-◌, String, Bool, Result, ok, err, ◌>>=◌, ltb, ◌==◌, if◌then◌else◌}

pub data MetadataError : Type 0 where
  too_deep : MetadataError

-- A JavaScript value. A number stands as its text; `other` is a value of any other type (a
-- function, a bigint, a symbol) with the text that `String(value)` gives.
mutual
  pub data Value : Type 0 where
    null undefined : Value
    text number other : String → Value
    boolean : Bool → Value
    array : Items → Value
    object : Fields → Value

  pub data Items : Type 0 where
    nil : Items
    cons : Value → Items → Items

  pub data Fields : Type 0 where
    end : Fields
    field : String → Value → Fields → Fields

-- `slice(0, 100)`: `left` counts the items and the entries that are still read.
unfoldable mutual
  pub sanitise : ℕ → Value → Result MetadataError Value
  sanitise depth null = if ltb 5 depth then err too_deep else ok null
  sanitise depth undefined = if ltb 5 depth then err too_deep else ok (text "undefined")
  sanitise depth (text s) = if ltb 5 depth then err too_deep else ok (text s)
  sanitise depth (number s) = if ltb 5 depth then err too_deep else ok (number s)
  sanitise depth (other s) = if ltb 5 depth then err too_deep else ok (text s)
  sanitise depth (boolean b) = if ltb 5 depth then err too_deep else ok (boolean b)
  sanitise depth (array xs) =
      let rest = sanitise_items (depth + 1) 100 xs in
      if ltb 5 depth then err too_deep else (rest >>= λ ys. ok (array ys))
  sanitise depth (object fs) =
      let rest = sanitise_fields (depth + 1) 100 fs in
      if ltb 5 depth then err too_deep else (rest >>= λ gs. ok (object gs))

  pub sanitise_items : ℕ → ℕ → Items → Result MetadataError Items
  sanitise_items depth left nil = ok nil
  sanitise_items depth left (cons x xs) =
      let first = sanitise depth x in
      let rest = sanitise_items depth (left - 1) xs in
      if left == 0 then ok nil else (first >>= λ y. rest >>= λ ys. ok (cons y ys))

  pub sanitise_fields : ℕ → ℕ → Fields → Result MetadataError Fields
  sanitise_fields depth left end = ok end
  sanitise_fields depth left (field k undefined fs) =
      let rest = sanitise_fields depth (left - 1) fs in if left == 0 then ok end else rest
  sanitise_fields depth left (field k x fs) =
      let first = sanitise depth x in
      let rest = sanitise_fields depth (left - 1) fs in
      if left == 0 then ok end else (first >>= λ y. rest >>= λ gs. ok (field k y gs))
