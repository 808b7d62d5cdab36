-- ===== src/Common/Split.antt =====
-- What the code uses of Go's `strings`: `TrimSpace`, `Fields`, `Split` and `Cut` on a byte. White
-- space is Unicode's, on the bytes of its UTF-8 form.
use luncur.Common.Tests.{leb, ◌==◌, if◌then◌else◌}
use luncur.Common.Text.{Bytes}
use Prim.Native.Nat.{ℕ, zero, suc}
use mathlib.Core.Bool.{Bool, true, false, ◌&&◌, ◌||◌}
use mathlib.Core.Option.{Option, none, some}
use mathlib.Core.List.{List, [], ◌∷◌}

-- `unicode.IsSpace` below 128
abbrev pub is_space : ℕ → Bool
is_space c = (leb 9 c && leb c 13) || c == 32

-- U+0085 and U+00A0
abbrev pub is_space2 : ℕ → ℕ → Bool
is_space2 c d = c == 194 && (d == 133 || d == 160)

-- U+1680, U+2000 to U+200A, U+2028, U+2029, U+202F, U+205F and U+3000
abbrev pub is_space3 : ℕ → ℕ → ℕ → Bool
is_space3 c d e =
    (c == 225 && d == 154 && e == 128)
    || (c == 226 && d == 128 && ((leb 128 e && leb e 138) || e == 168 || e == 169 || e == 175))
    || (c == 226 && d == 129 && e == 159)
    || (c == 227 && d == 128 && e == 128)

-- The bytes of the white space that a text begins with, 0 where it begins with none.
abbrev pub width3 : ℕ → ℕ → Bytes → ℕ
width3 c d [] = 0
width3 c d (e ∷ s) = if is_space3 c d e then 3 else 0

abbrev pub width2 : ℕ → Bytes → ℕ
width2 c [] = 0
width2 c (d ∷ s) = if is_space2 c d then 2 else width3 c d s

abbrev pub space_width : Bytes → ℕ
space_width [] = 0
space_width (c ∷ s) = if is_space c then 1 else width2 c s

-- One white space and nothing behind it.
abbrev pub is_space_rune : Bytes → Bool
is_space_rune [] = false
is_space_rune (c ∷ []) = is_space c
is_space_rune (c ∷ d ∷ []) = is_space2 c d
is_space_rune (c ∷ d ∷ e ∷ []) = is_space3 c d e
is_space_rune (c ∷ d ∷ e ∷ f ∷ s) = false

-- The first bytes belong to a white space.
unfoldable pub trim_from : ℕ → Bytes → Bytes
trim_from n [] = []
trim_from (suc n) (c ∷ s) = trim_from n s
trim_from zero (c ∷ s) = elim (space_width (c ∷ s)) [ zero ↦ c ∷ s | suc n ↦ trim_from n s ]

unfoldable pub trim_left : Bytes → Bytes
trim_left s = trim_from 0 s

abbrev pub before_trimmed : ℕ → Bytes → Bytes
before_trimmed c t = if is_space_rune (c ∷ t) then [] else c ∷ t

unfoldable pub trim_right : Bytes → Bytes
trim_right [] = []
trim_right (c ∷ s) = before_trimmed c (trim_right s)

unfoldable pub trim : Bytes → Bytes
unfolding trim_left trim_right
trim s = trim_left (trim_right s)

-- `strings.TrimSuffix` of one byte.
unfoldable pub trim_suffix : ℕ → Bytes → Bytes
trim_suffix c [] = []
trim_suffix c (x ∷ []) = if x == c then [] else x ∷ []
trim_suffix c (x ∷ y ∷ s) = x ∷ trim_suffix c (y ∷ s)

-- `strings.TrimPrefix` and `strings.HasPrefix`
unfoldable pub has_prefix : Bytes → Bytes → Bool
has_prefix [] s = true
has_prefix (c ∷ prefix) [] = false
has_prefix (c ∷ prefix) (d ∷ s) = c == d && has_prefix prefix s

abbrev pub drop_bytes : Bytes → Bytes → Bytes
drop_bytes [] s = s
drop_bytes (c ∷ prefix) [] = []
drop_bytes (c ∷ prefix) (d ∷ s) = drop_bytes prefix s

abbrev pub trim_prefix : Bytes → Bytes → Bytes
trim_prefix prefix s = if has_prefix prefix s then drop_bytes prefix s else s

-- The part before the first `sep` and the one behind it; `none` where there is none.
abbrev pub cut_on : ℕ → Option (Bytes × Bytes) → Option (Bytes × Bytes)
cut_on c none = none
cut_on c (some (a, b)) = some (c ∷ a, b)

unfoldable pub cut : ℕ → Bytes → Option (Bytes × Bytes)
cut sep [] = none
cut sep (c ∷ s) = let rest = cut sep s in if c == sep then some ([], s) else cut_on c rest

-- A byte before the first part.
abbrev pub onto_first : ℕ → List Bytes → List Bytes
onto_first c [] = (c ∷ []) ∷ []
onto_first c (part ∷ parts) = (c ∷ part) ∷ parts

-- `strings.Split(s, sep)`: one part more than there are separators.
unfoldable pub split_on : ℕ → Bytes → List Bytes
split_on sep [] = [] ∷ []
split_on sep (c ∷ s) =
    let rest = split_on sep s in if c == sep then [] ∷ rest else onto_first c rest

-- The parts that are not empty.
unfoldable pub non_empty : List Bytes → List Bytes
non_empty [] = []
non_empty ([] ∷ parts) = non_empty parts
non_empty ((c ∷ s) ∷ parts) = (c ∷ s) ∷ non_empty parts

-- The first bytes belong to a white space.
unfoldable pub split_from : ℕ → Bytes → List Bytes
split_from n [] = [] ∷ []
split_from (suc n) (c ∷ s) = split_from n s
split_from zero (c ∷ s) = elim (space_width (c ∷ s)) [
  | zero ↦ onto_first c (split_from 0 s)
  | suc n ↦ [] ∷ split_from n s
]

unfoldable pub split_spaces : Bytes → List Bytes
split_spaces s = split_from 0 s

-- `strings.Fields`
unfoldable pub fields : Bytes → List Bytes
unfolding non_empty split_spaces
fields s = non_empty (split_spaces s)
