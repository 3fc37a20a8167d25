-- ===== src/Coordination/Saving.antt =====
-- coordination/fencedSnapshotStore.js: a save that is accepted is what is loaded, and a writer with an
-- older fencing token is turned away.
use basitclaw.Common.{
  ℕ, zero, suc, ◌-◌, ◌≤◌, ◌<◌, ◌≡◌, ◌≢◌, refl, String, true, false, ◌&&◌, Option, none, some, List,
  [], ◌∷◌, arith, leb, ltb, ◌==◌, ==_iff, eq_iff, length, length-drop, drop, get_last?, All,
  Bool-cases, inl, inr, Result, ok, err, guard-eq-ok, ok-injective, sym, ap, subst, ◌∙◌, and-left,
}
use basitclaw.AlertOutbox.Files.{Directory, put, prune}
use basitclaw.Coordination.Lease.{is_safe_integer}
use basitclaw.Coordination.Snapshots.{
  Codec, Package, SaveError, rejected, Versions, create_package, parse_package,
  latest_fencing_token, load, save,
}

module _ {A : Type 0} where
  -- The order in which names are listed, each once.
  abbrev pub IsSorted : Directory A → Type 0
  IsSorted [] = Unit
  IsSorted (f ∷ d) = All (λ (g : ℕ × A). f.0 < g.0) d × IsSorted d

  All-put :
      (i k : ℕ) (v : A) (d : Directory A)
      → i < k
      → All (λ (g : ℕ × A). i < g.0) d
      → All (λ (g : ℕ × A). i < g.0) (put k v d)
  unfolding put
  All-put i k v [] le h = (le, tt)
  All-put i k v ((j, w) ∷ d) le h = elim (Bool-cases (k == j)) [
    | inl same ↦ rw same (le, h.1)
    | inr other ↦ elim (Bool-cases (ltb k j)) [
      | inl before ↦ rw (other, before) (le, h)
      | inr behind ↦ rw (other, behind) (h.0, All-put i k v d le h.1)
    ]
  ]

  All-weaken :
      (i k : ℕ) (d : Directory A)
      → i < k
      → All (λ (g : ℕ × A). k < g.0) d
      → All (λ (g : ℕ × A). i < g.0) d
  All-weaken i k [] le h = tt
  All-weaken i k (f ∷ d) le h = (omega (arith, h.0), All-weaken i k d le h.1)

  put-IsSorted : (k : ℕ) (v : A) (d : Directory A) → IsSorted d → IsSorted (put k v d)
  unfolding put
  put-IsSorted k v [] h = (tt, tt)
  put-IsSorted k v ((j, w) ∷ d) h = elim (Bool-cases (k == j)) [
    | inl same ↦
        let e : j ≡ k = sym ((==_iff k j).0 same) in
        rw same (subst (λ i. All (λ (g : ℕ × A). i < g.0) d) e h.0, h.1)
    | inr other ↦ elim (Bool-cases (ltb k j)) [
      | inl before ↦
          let le : k < j = ground arith in rw (other, before) ((le, All-weaken k j d le h.0), h)
      | inr behind ↦
          let le : j < k = ground arith in
          rw (other, behind) (All-put j k v d le h.0, put-IsSorted k v d h.1)
    ]
  ]

  All-drop :
      (i n : ℕ) (d : Directory A)
      → All (λ (g : ℕ × A). i < g.0) d
      → All (λ (g : ℕ × A). i < g.0) (drop n d)
  All-drop i zero d h = h
  All-drop i (suc n) [] h = h
  All-drop i (suc n) (f ∷ d) h = All-drop i n d h.1

  drop-IsSorted : (n : ℕ) (d : Directory A) → IsSorted d → IsSorted (drop n d)
  drop-IsSorted zero d h = h
  drop-IsSorted (suc n) [] h = h
  drop-IsSorted (suc n) (f ∷ d) h = drop-IsSorted n d h.1

  get_last?-drop : (n : ℕ) (d : Directory A) → n < length d → get_last? (drop n d) ≡ get_last? d
  get_last?-drop zero d h = refl
  get_last?-drop (suc n) [] h = absurd (omega (arith, h))
  get_last?-drop (suc n) (f ∷ []) h = absurd (omega (arith, h))
  get_last?-drop (suc n) (f ∷ g ∷ d) h = get_last?-drop n (g ∷ d) (omega (arith, h))

  put-nonempty : (k : ℕ) (v : A) (d : Directory A) → 1 ≤ length (put k v d)
  unfolding put
  put-nonempty k v [] = omega arith
  put-nonempty k v ((j, w) ∷ d) = ground arith

  get_last?-cons : (f : ℕ × A) (d : Directory A) → 1 ≤ length d → get_last? (f ∷ d) ≡ get_last? d
  get_last?-cons f [] h = absurd (omega (arith, h))
  get_last?-cons f (g ∷ d) h = refl

  -- The name that is listed last, or nothing behind the given one.
  abbrev IsLastAtMost : ℕ → Option (ℕ × A) → Type 0
  IsLastAtMost k none = Unit
  IsLastAtMost k (some f) = f.0 ≤ k

  last-gt :
      (j k : ℕ) (f : ℕ × A) (d : Directory A)
      → All (λ (g : ℕ × A). j < g.0) (f ∷ d)
      → IsLastAtMost k (get_last? (f ∷ d))
      → j < k
  last-gt j k f [] h le = omega (arith, h.0, le)
  last-gt j k f (g ∷ d) h le = last-gt j k g d h.1 le

  put-last :
      (k : ℕ) (v : A) (d : Directory A)
      → IsSorted d
      → IsLastAtMost k (get_last? d)
      → get_last? (put k v d) ≡ some (k, v)
  unfolding put
  put-last k v [] h le = refl
  put-last k v ((j, w) ∷ []) h le = elim (Bool-cases (k == j)) [
    | inl same ↦ rw same refl
    | inr other ↦ let n : ltb k j ≡ false = ground arith in rw (other, n) refl
  ]
  put-last k v ((j, w) ∷ f ∷ d) h le =
      let rest = put-last k v (f ∷ d) h.1 le in
      let before : j < k = last-gt j k f d h.0 le in
      let n : (k == j) ≡ false = ground arith in
      let m : ltb k j ≡ false = ground arith in
      rw (n, m) (get_last?-cons (j, w) (put k v (f ∷ d)) (put-nonempty k v (f ∷ d)) ∙ rest)

module _ {Snapshot : Type 0} (codec : Codec Snapshot) (sha256 : String → String) where
  -- An accepted save, taken apart.
  save-eq-ok :
      (keep token : ℕ) (x : Snapshot) (v v' : Versions)
      → save codec sha256 keep token x v ≡ ok v'
      → (1 ≤ token)
        × (latest_fencing_token codec sha256 v ≤ token)
        × (v' ≡ prune keep (put token (create_package codec sha256 token (codec.serialize x)) v))
  unfolding save
  save-eq-ok keep token x v v' h =
      let (valid, h1) = guard-eq-ok (leb 1 token && is_safe_integer token) _ _ h in
      let (newer, h2) =
        guard-eq-ok (leb (latest_fencing_token codec sha256 v) token)
          (rejected (latest_fencing_token codec sha256 v)) _ h1 in
      let one : leb 1 token ≡ true = and-left _ _ valid in
      (ground arith, ground arith, sym (ok-injective _ v' h2))

  latest-IsLastAtMost :
      (token : ℕ) (v : Versions)
      → latest_fencing_token codec sha256 v ≤ token
      → IsLastAtMost token (get_last? v)
  unfolding latest_fencing_token
  latest-IsLastAtMost token v h = at_most (get_last? v) h
    where
      at_most :
          (o : Option (ℕ × Package))
          → elim o [ none ↦ 0 | some (t, _) ↦ t ] ≤ token
          → IsLastAtMost token o
      at_most none h = tt
      at_most (some (t, p)) h = h

  saved-last :
      (keep token : ℕ) (x : Snapshot) (v v' : Versions)
      → 1 ≤ keep
      → IsSorted v
      → save codec sha256 keep token x v ≡ ok v'
      → get_last? v' ≡ some (token, create_package codec sha256 token (codec.serialize x))
  unfolding prune
  saved-last keep token x v v' some_kept sorted h =
      let (_, newer, is) = save-eq-ok keep token x v v' h in
      let p = create_package codec sha256 token (codec.serialize x) in
      let n = length (put token p v) - keep in
      let inside : n < length (put token p v) = omega (arith, put-nonempty token p v, some_kept) in
      ap (λ (d : Versions). get_last? d) is
      ∙ get_last?-drop n (put token p v) inside
      ∙ put-last token p v sorted (latest-IsLastAtMost token v newer)

  load-last :
      (token : ℕ) (x : Snapshot) (unfenced : Option Snapshot) (v : Versions)
      → get_last? v ≡ some (token, create_package codec sha256 token (codec.serialize x))
      → load codec sha256 unfenced v ≡ ok (some x)
  unfolding load parse_package create_package
  load-last token x unfenced v last =
      let bound : (token == token) ≡ true = ground arith in
      let whole = (eq_iff (sha256 (codec.serialize x)) (sha256 (codec.serialize x))).1 refl in
      rw (last, load, bound, whole, codec.inspect-serialize x) refl

  -- On versions that are listed in order, with at least one to keep, a save that is accepted had a
  -- token that is no smaller than the latest; afterwards its token is the latest, what is loaded is
  -- the snapshot that was saved, at most `keep` versions are left, and they are listed in order.
  pub save-load :
      (keep token : ℕ) (x : Snapshot) (unfenced : Option Snapshot) (v v' : Versions)
      → 1 ≤ keep
      → IsSorted v
      → save codec sha256 keep token x v ≡ ok v'
      → (latest_fencing_token codec sha256 v ≤ token)
        × (latest_fencing_token codec sha256 v' ≡ token)
        × (load codec sha256 unfenced v' ≡ ok (some x))
        × (length v' ≤ keep)
        × IsSorted v'
  unfolding latest_fencing_token load parse_package create_package prune
  save-load keep token x unfenced v v' some_kept sorted h =
      let (_, newer, is) = save-eq-ok keep token x v v' h in
      let last = saved-last keep token x v v' some_kept sorted h in
      let p = create_package codec sha256 token (codec.serialize x) in
      let d = put token p v in
      (
        newer,
        rw (last, latest_fencing_token) refl,
        load-last token x unfenced v' last,
        subst (λ (l : Versions). length l ≤ keep) (sym is)
            (omega (arith, length-drop (length d - keep) d)),
        subst IsSorted (sym is) (drop-IsSorted (length d - keep) d (put-IsSorted token p v sorted)),
      )

  kept_or : Versions → Result SaveError Versions → Versions
  kept_or v (ok v') = v'
  kept_or v (err e) = v

  -- Saves of any writers, one after the other; a save that is refused changes nothing.
  unfoldable pub save_all : ℕ → List (ℕ × Snapshot) → Versions → Versions
  unfolding kept_or
  save_all keep [] v = v
  save_all keep ((token, x) ∷ saves) v =
      save_all keep saves (kept_or v (save codec sha256 keep token x v))

  kept_or-grows :
      (keep token : ℕ) (x : Snapshot) (v : Versions) (r : Result SaveError Versions)
      → 1 ≤ keep
      → IsSorted v
      → save codec sha256 keep token x v ≡ r
      → (latest_fencing_token codec sha256 v ≤ latest_fencing_token codec sha256 (kept_or v r))
        × IsSorted (kept_or v r)
  unfolding kept_or
  kept_or-grows keep token x v (ok v') some_kept sorted h =
      let (newer, is, _, _, sorted') = save-load keep token x none v v' some_kept sorted h in
      (omega (arith, newer, is), sorted')
  kept_or-grows keep token x v (err e) some_kept sorted h = (omega arith, sorted)

  save_all-grows :
      (keep : ℕ) (saves : List (ℕ × Snapshot)) (v : Versions)
      → 1 ≤ keep
      → IsSorted v
      → latest_fencing_token codec sha256 v
        ≤ latest_fencing_token codec sha256 (save_all keep saves v)
  unfolding save_all
  save_all-grows keep [] v some_kept sorted = omega arith
  save_all-grows keep ((token, x) ∷ saves) v some_kept sorted =
      let (grown, sorted') = kept_or-grows keep token x v _ some_kept sorted refl in
      omega (arith, grown, save_all-grows keep saves _ some_kept sorted')

  -- Once a save with a fencing token was accepted, no save with a smaller token is accepted, whatever
  -- saves of any writers, accepted or refused, lie between the two.
  pub superseded_save :
      (keep token newer : ℕ) (x y : Snapshot) (saves : List (ℕ × Snapshot)) (v v' w : Versions)
      → 1 ≤ keep
      → IsSorted v
      → save codec sha256 keep newer y v ≡ ok v'
      → token < newer
      → save codec sha256 keep token x (save_all keep saves v') ≢ ok w
  superseded_save keep token newer x y saves v v' w some_kept sorted first older second =
      let (_, is, _, _, sorted') = save-load keep newer y none v v' some_kept sorted first in
      let grown = save_all-grows keep saves v' some_kept sorted' in
      let (_, fits, _) = save-eq-ok keep token x (save_all keep saves v') w second in
      omega (arith, older, is, grown, fits)
