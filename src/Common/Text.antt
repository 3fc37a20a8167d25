-- ===== src/Common/Text.antt =====
-- Text as code points, with what the program's regular expressions test.
use Prim.Native.Char.{Char, code}
use Prim.Native.Nat.{Ordering, ◌+◌}
use Prim.Native.String.{compare}
use text.Mathlib.Text.{◌==◌ as str_eq}
use mathlib.Core.List.{reverse}
use mathlib.Core.Bool.{Bool, false, not, ◌&&◌, ◌||◌}
use Prim.Native.Nat.{ℕ}
use Prim.Native.String.{String}
use mathlib.Core.List.{List, [], ◌∷◌}
use basitclaw.Common.Tests.{leb, ◌==◌, if◌then◌else◌}
use basitclaw.Common.Lists.{length, all, any, filter}

-- The code points of a text.
abbrev pub codes : String → List ℕ
codes String.[] = []
codes (String.◌∷◌ c s) = code c ∷ codes s

-- What `trim` drops: the white space and line ends of ECMAScript.
unfoldable pub is_space : ℕ → Bool
is_space c =
    (leb 9 c && leb c 13)
    || c == 32
    || c == 160
    || c == 0x1680
    || (leb 0x2000 c && leb c 0x200a)
    || c == 0x2028
    || c == 0x2029
    || c == 0x202f
    || c == 0x205f
    || c == 0x3000
    || c == 0xfeff

unfoldable pub trim_start : List ℕ → List ℕ
unfolding is_space
trim_start [] = []
trim_start (c ∷ cs) = if is_space c then trim_start cs else c ∷ cs

unfoldable pub trim : List ℕ → List ℕ
unfolding trim_start
trim cs = reverse (trim_start (reverse (trim_start cs)))

unfoldable pub is_alphanumeric : ℕ → Bool
is_alphanumeric c =
    (leb b'a' c && leb c b'z') || (leb b'A' c && leb c b'Z') || (leb b'0' c && leb c b'9')

-- [a-zA-Z0-9._-]
unfoldable pub is_tenant_code : ℕ → Bool
unfolding is_alphanumeric
is_tenant_code c = is_alphanumeric c || c == b'.' || c == b'_' || c == b'-'

-- [a-zA-Z0-9._:-]
unfoldable pub is_subject_code : ℕ → Bool
unfolding is_tenant_code
is_subject_code c = is_tenant_code c || c == b':'

-- ^[a-zA-Z0-9][rest]{lo,hi}$
unfoldable pub is_safe : (ℕ → Bool) → ℕ → ℕ → List ℕ → Bool
unfolding is_alphanumeric
is_safe rest lo hi [] = false
is_safe rest lo hi (c ∷ cs) =
    is_alphanumeric c && all rest cs && leb lo (length cs) && leb (length cs) hi

-- validateTenantId: the text is tested as it stands.
unfoldable pub is_tenant_id : String → Bool
unfolding is_safe is_tenant_code
is_tenant_id s = is_safe is_tenant_code 1 127 (codes s)

-- `trim` on a native text.
append_char : String → Char → String
append_char String.[] d = String.◌∷◌ d String.[]
append_char (String.◌∷◌ c s) d = String.◌∷◌ c (append_char s d)

reverse_text : String → String
unfolding append_char
reverse_text String.[] = String.[]
reverse_text (String.◌∷◌ c s) = append_char (reverse_text s) c

trim_text_start : String → String
unfolding is_space
trim_text_start String.[] = String.[]
trim_text_start (String.◌∷◌ c s) = if is_space (code c) then trim_text_start s else String.◌∷◌ c s

unfoldable pub trim_text : String → String
unfolding trim_text_start reverse_text
trim_text s = reverse_text (trim_text_start (reverse_text (trim_text_start s)))

-- `${text.trimEnd()}\n`
unfoldable pub with_line_end : String → String
unfolding trim_text_start reverse_text append_char
with_line_end s = reverse_text (String.◌∷◌ "\n" (trim_text_start (reverse_text s)))

-- The length of a text in UTF-16 units.
unfoldable pub utf16_length : String → ℕ
utf16_length String.[] = 0
utf16_length (String.◌∷◌ c s) =
    let rest = utf16_length s in if leb 0x10000 (code c) then rest + 2 else rest + 1

abbrev pub contains : String → List String → Bool
contains s = any (λ t. str_eq t s)

-- [...new Set(xs)]: the first of equal texts stays.
unfoldable pub distinct_texts : List String → List String
distinct_texts [] = []
distinct_texts (s ∷ ss) = s ∷ filter (λ t. not (str_eq t s)) (distinct_texts ss)

-- Text comparison; for ASCII the order of UTF-8 bytes is that of UTF-16 units.
insert_text : String → List String → List String
insert_text s [] = s ∷ []
insert_text s (t ∷ ts) = elim (compare s t) [ Ordering.gt ↦ t ∷ insert_text s ts | _ ↦ s ∷ t ∷ ts ]

unfoldable pub sort_texts : List String → List String
unfolding insert_text
sort_texts [] = []
sort_texts (s ∷ ss) = insert_text s (sort_texts ss)
