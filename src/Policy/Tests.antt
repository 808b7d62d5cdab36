-- ===== src/Policy/Tests.antt =====
-- The theorems on policies at concrete values.
use luncur.Common.{
  trim_from, trim_suffix, ℕ, ◌≡◌, refl, ◌≢◌, none, some, List, [], ◌∷◌, arith, All, Bytes, codes,
  str_eq, ℤ, pos, trim_left, trim_right, trim, split_on, all_digits, value_from, digits_value, atoi,
  emit_digits, itoa_nat, itoa, IsInt,
}
use luncur.Common.Fallible.{right}
use luncur.Policy.Steps.{weight_of, parse_weights, parse_canary_steps, format_canary_steps}
use luncur.Policy.Stored.{
  PolicyTable, default_app_policy, one_of, validate, get_app_policy, policy_row, put_row,
  set_app_policy,
}
use luncur.Policy.Weights.{IsLadder, parse_canary_steps-IsLadder}
use luncur.Policy.RoundTrip.{parse-format_ladder}
use luncur.Policy.Table.{InRange, validate-InRange, get-set_app_policy}

abbrev tenth_half : List ℤ
tenth_half = pos 10 ∷ pos 50 ∷ []

-- "10%, 50"
abbrev typed : Bytes
typed = codes "10%, 50"

typed-read : parse_canary_steps typed ≡ right tenth_half
unfolding parse_canary_steps trim trim_left trim_from trim_right parse_weights split_on weight_of
    trim_suffix atoi digits_value all_digits value_from
typed-read = refl

parse_canary_steps-IsLadder_example : IsLadder tenth_half
parse_canary_steps-IsLadder_example = parse_canary_steps-IsLadder typed tenth_half typed-read

parse-format_ladder_example : parse_canary_steps (format_canary_steps tenth_half) ≡ right tenth_half
parse-format_ladder_example =
    parse-format_ladder tenth_half (absurd_nil, omega arith, (refl, refl, (refl, refl, tt)))
  where
    absurd_nil : tenth_half ≡ [] → ⊥
    absurd_nil e = cc

abbrev stored : PolicyTable
stored = put_row (λ app. none) 4 (some (policy_row (default_app_policy 4)))

default_valid : validate (default_app_policy 4) ≡ right (default_app_policy 4)
unfolding validate default_app_policy one_of str_eq parse_canary_steps format_canary_steps trim
    trim_left trim_from trim_right parse_weights split_on weight_of trim_suffix atoi digits_value
    all_digits value_from itoa itoa_nat emit_digits
default_valid = refl

default_set : set_app_policy (default_app_policy 4) (λ app. none) ≡ right stored
unfolding set_app_policy default_app_policy
default_set = rw default_valid refl

default_ints : All IsInt (default_app_policy 4).canary_steps
unfolding default_app_policy
default_ints = (omega arith, (omega arith, tt))

get-set_app_policy_example :
    (get_app_policy stored 4 ≡ default_app_policy 4)
    × ((other : ℕ) → 4 ≢ other → get_app_policy stored other ≡ get_app_policy (λ app. none) other)
unfolding default_app_policy
get-set_app_policy_example =
    get-set_app_policy (default_app_policy 4) (λ app. none) stored default_ints default_set

validate-InRange_example :
    InRange (default_app_policy 4)
    × (parse_canary_steps (format_canary_steps (default_app_policy 4).canary_steps)
        ≡ right (default_app_policy 4).canary_steps)
validate-InRange_example =
    validate-InRange (default_app_policy 4) (default_app_policy 4) default_ints default_valid
