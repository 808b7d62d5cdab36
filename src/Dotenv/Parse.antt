-- ===== src/Dotenv/Parse.antt =====
-- internal/server/dotenv.go: `parseDotenv`. The map is a function from its keys.
use luncur.Common.{
  ℕ, suc, ◌&&◌, ◌||◌, Option, none, some, List, [], ◌∷◌, ◌==◌, if◌then◌else◌, Bytes, codes, update,
  trim, trim_suffix, trim_prefix, cut, split_on,
}
use luncur.Common.Fallible.{Fallible, ◌>>=◌, wrong, right}

abbrev pub Env : Type 0
Env = Bytes → Option Bytes

abbrev pub empty_env : Env
empty_env key = none

-- The line's number, from 1, and its text.
pub data DotenvError : Type 0 where
  malformed : ℕ → Bytes → DotenvError

-- `val[len(val)-1]` and `val[:len(val)-1]` of a text behind a byte.
abbrev pub last_byte : ℕ → Bytes → ℕ
last_byte c [] = c
last_byte c (d ∷ s) = last_byte d s

abbrev pub but_last : ℕ → Bytes → Bytes
but_last c [] = []
but_last c (d ∷ s) = c ∷ but_last d s

-- One pair of matching quotes is taken off.
abbrev pub unquote : Bytes → Bytes
unquote [] = []
unquote (q ∷ []) = q ∷ []
unquote (q ∷ c ∷ s) = if (q == 34 || q == 39) && last_byte c s == q then but_last c s else q ∷ c ∷ s

abbrev pub set_key : ℕ → Bytes → Bytes → Bytes → Env → Fallible DotenvError Env
set_key i line [] val env = wrong (malformed i line)
set_key i line (c ∷ key) val env = right (update env (c ∷ key) (some (unquote (trim val))))

abbrev pub set_pair : ℕ → Bytes → Option (Bytes × Bytes) → Env → Fallible DotenvError Env
set_pair i line none env = wrong (malformed i line)
set_pair i line (some (key, val)) env = set_key i line (trim key) val env

-- A line without white space at its ends.
unfoldable pub read_line : ℕ → Bytes → Env → Fallible DotenvError Env
read_line i [] env = right env
read_line i (c ∷ line) env =
    if c == 35
    then right env
    else (let rest = trim_prefix (codes "export ") (c ∷ line) in set_pair i rest (cut 61 rest) env)

unfoldable pub read_lines : ℕ → List Bytes → Env → Fallible DotenvError Env
read_lines i [] env = right env
read_lines i (line ∷ lines) env =
    read_line i (trim (trim_suffix 13 line)) env >>= read_lines (suc i) lines

unfoldable pub parse_dotenv : Bytes → Fallible DotenvError Env
parse_dotenv text = read_lines 1 (split_on 10 text) empty_env
