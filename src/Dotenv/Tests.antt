-- ===== src/Dotenv/Tests.antt =====
-- A .env file with two values.
use luncur.Common.{
  trim_from, ◌≡◌, refl, Option, none, some, List, [], ◌∷◌, Bytes, codes, str_eq, trim_left,
  trim_right, trim, trim_suffix, has_prefix, cut, split_on,
}
use luncur.Common.Fallible.{Fallible, wrong, right}
use luncur.Dotenv.Parse.{Env, empty_env, DotenvError, read_line, read_lines, parse_dotenv}
use luncur.Dotenv.RoundTrip.{show_lines, set_all, parse_dotenv-show}

abbrev pairs : List (Bytes × Bytes)
pairs = (codes "GREETING", codes " it's=so # ") ∷ (codes "B", []) ∷ []

parse_dotenv-show_example : parse_dotenv (show_lines pairs) ≡ right (set_all pairs empty_env)
unfolding trim_right
parse_dotenv-show_example = parse_dotenv-show pairs (
  (
    (
      refl,
      (refl, (refl, (refl, (refl, (refl, (refl, (refl, (refl, tt)))))))),
      (refl, (refl, (refl, (refl, (refl, (refl, (refl, (refl, tt)))))))),
      (refl, (refl, (refl, (refl, (refl, (refl, (refl, (refl, tt)))))))),
      refl,
      refl,
    ),
    (refl, (refl, (refl, (refl, (refl, (refl, (refl, (refl, (refl, (refl, (refl, tt))))))))))),
  ),
  (((refl, (refl, tt), (refl, tt), (refl, tt), refl, refl), tt), tt),
)

abbrev value_at : Bytes → Fallible DotenvError Env → Option Bytes
value_at key (wrong e) = none
value_at key (right env) = env key

-- A comment, a blank line, an export and a value in single quotes.
exported :
    value_at (codes "A") (parse_dotenv (codes "# c\r\n\n export A = 'x y' \n")) ≡ some (codes "x y")
unfolding parse_dotenv split_on read_lines read_line trim trim_left trim_from trim_right trim_suffix
    cut has_prefix str_eq
exported = refl
