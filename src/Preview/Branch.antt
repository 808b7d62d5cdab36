-- ===== src/Preview/Branch.antt =====
-- `sanitizeBranch` of internal/server/preview.go, on the runes of a branch name, and `validName` of
-- internal/store/projects.go. unicode.ToLower is a parameter.
use luncur.Common.{
  ℕ, zero, suc, Bool, true, false, ◌&&◌, ◌||◌, Option, none, some, [], ◌∷◌, map, ltb, leb, ◌==◌,
  if◌then◌else◌, length, take, Bytes, codes,
}

abbrev pub max_sanitized_branch : ℕ
max_sanitized_branch = 30

-- `(r >= 'a' && r <= 'z') || (r >= '0' && r <= '9')`
abbrev pub is_label : ℕ → Bool
is_label r = (leb 97 r && leb r 122) || (leb 48 r && leb r 57)

abbrev pub label_or_dash : ℕ → ℕ
label_or_dash r = if is_label r then r else 45

-- `strings.Contains(s, "--")`
unfoldable pub has_double : Bytes → Bool
has_double [] = false
has_double (c ∷ []) = false
has_double (c ∷ d ∷ s) = (c == 45 && d == 45) || has_double (d ∷ s)

-- `strings.ReplaceAll(s, "--", "-")`
unfoldable pub replace_doubles : Bytes → Bytes
replace_doubles [] = []
replace_doubles (c ∷ []) = c ∷ []
replace_doubles (c ∷ d ∷ s) =
    let after = replace_doubles s in
    let next = replace_doubles (d ∷ s) in if c == 45 && d == 45 then 45 ∷ after else c ∷ next

-- The loop, on fuel; `none` where it runs out.
unfoldable pub collapse : ℕ → Bytes → Option Bytes
collapse zero s = none
collapse (suc fuel) s =
    let rest = collapse fuel (replace_doubles s) in if has_double s then rest else some s

-- `strings.Trim(s, "-")`
unfoldable pub strip_left : Bytes → Bytes
strip_left [] = []
strip_left (c ∷ s) = let rest = strip_left s in if c == 45 then rest else c ∷ s

abbrev pub before_stripped : ℕ → Bytes → Bytes
before_stripped c [] = if c == 45 then [] else c ∷ []
before_stripped c (d ∷ t) = c ∷ d ∷ t

unfoldable pub strip_right : Bytes → Bytes
strip_right [] = []
strip_right (c ∷ s) = before_stripped c (strip_right s)

abbrev pub strip : Bytes → Bytes
strip s = strip_left (strip_right s)

abbrev pub shortened : Bytes → Bytes
shortened s = if ltb max_sanitized_branch (length s) then strip (take max_sanitized_branch s) else s

abbrev pub or_branch : Bytes → Bytes
or_branch [] = codes "branch"
or_branch (c ∷ s) = c ∷ s

abbrev pub finish_name : Option Bytes → Option Bytes
finish_name none = none
finish_name (some s) = some (or_branch (shortened (strip s)))

unfoldable pub sanitize_branch : (ℕ → ℕ) → Bytes → Option Bytes
sanitize_branch to_lower b =
    let s = map (λ r. label_or_dash (to_lower r)) b in finish_name (collapse (suc (length s)) s)

abbrev pub last_of : ℕ → Bytes → ℕ
last_of c [] = c
last_of c (d ∷ s) = last_of d s

abbrev pub all_in_name : Bytes → Bool
all_in_name [] = true
all_in_name (c ∷ s) = (is_label c || c == 45) && all_in_name s

-- The regular expression `^[a-z0-9]([a-z0-9-]{0,38}[a-z0-9])?$`
unfoldable pub valid_name : Bytes → Bool
valid_name [] = false
valid_name (c ∷ s) =
    is_label c && is_label (last_of c s) && all_in_name s && leb (length (c ∷ s)) 40
