-- ===== src/Registry/Rules.antt =====
-- services/workforceAuditRegistry.js: rules for what an operation comes to, when it returns and when it throws.
use basitclaw.Common.{Result, ok, err}
use basitclaw.Registry.{Error, World, M, then_run, caught, check}

-- `Q` holds of what is returned and of the world then, `X` of what is thrown.
abbrev pub Post :
    {A : Type 0} → (A → World → Type 0) → (Error → World → Type 0) → Result Error A × World → Type 0
Post Q X (ok a, w) = Q a w
Post Q X (err e, w) = X e w

pub Post-then_run :
    {A B : Type 0} (P : A → World → Type 0) (Q : B → World → Type 0) (X : Error → World → Type 0)
    (first : Result Error A × World) (rest : A → M B)
    → Post P X first
    → ((a : A) (w : World) → P a w → Post Q X (rest a w))
    → Post Q X (then_run first rest)
Post-then_run P Q X (ok a, w) rest p h = h a w p
Post-then_run P Q X (err e, w) rest p h = p

-- Weaker conditions.
pub Post-weaken :
    {A : Type 0} (P Q : A → World → Type 0) (X Y : Error → World → Type 0)
    (x : Result Error A × World)
    → Post P X x
    → ((a : A) (w : World) → P a w → Q a w)
    → ((e : Error) (w : World) → X e w → Y e w)
    → Post Q Y x
Post-weaken P Q X Y (ok a, w) p f g = f a w p
Post-weaken P Q X Y (err e, w) p f g = g e w p

pub Post-caught :
    {A : Type 0} (Q : A → World → Type 0) (X Y : Error → World → Type 0) (undo : World → World)
    (x : Result Error A × World)
    → Post Q Y x
    → ((e : Error) (w : World) → Y e w → X e (undo w))
    → Post Q X (caught undo x)
Post-caught Q X Y undo (ok a, w) p h = p
Post-caught Q X Y undo (err e, w) p h = h e w p

-- A check changes nothing.
pub Post-check :
    {A : Type 0} (P : World → Type 0) (r : Result Error A) (w : World)
    → P w
    → Post (λ _ v. P v) (λ _ v. P v) (check r w)
Post-check P (ok a) w p = p
Post-check P (err e) w p = p
