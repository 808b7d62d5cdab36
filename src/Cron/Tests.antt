-- ===== src/Cron/Tests.antt =====
-- The theorems on cron expressions at concrete texts.
use luncur.Common.{
  split_from, ◌+◌, ◌≡◌, refl, ◌↔◌, Bool, false, none, some, [], ◌∷◌, Memᴰ, arith, codes, str_eq, ℤ,
  pos, negsuc, cut, split_on, non_empty, split_spaces, fields, max_int, all_digits, value_from,
  digits_value, atoi, emit_digits, itoa_nat,
}
use luncur.Common.Fallible.{Fallible, right, wrong}
use luncur.Cron.Expr.{
  minute_spec, CronError, IntSet, fill, fill_fuel, split_step, term_bounds, parse_term, parse_parts,
  parse_field, Schedule, has, without, normal_dow, parse_fields, parse, size, Moment, matches,
}
use luncur.Cron.Wrap.{fill_ends, fill_wraps, wrapped}
use luncur.Cron.Printed.{Term, star, span, parse_field-show, show_field, SelectedBy}

fill_ends_example : (out : IntSet) × (fill fill_fuel max_int (pos 59) (pos 30) [] ≡ some out)
fill_ends_example = fill_ends max_int 59 30 [] (omega arith) (omega arith) (omega arith)

-- "1/9223372036854775807" on the minutes.
abbrev overrun : IntSet
overrun = negsuc 0 ∷ negsuc max_int ∷ pos 1 ∷ []

fill_wraps_example : Memᴰ (wrapped (1 + max_int)) overrun
unfolding fill
fill_wraps_example = fill_wraps 198 max_int 59 1 [] overrun (omega arith) (omega arith) refl

-- "*/15,5-7"
abbrev quarters : Term
quarters = record { range = star; step = some 15 }

abbrev early : Term
early = record { range = span 5 7; step = none }

parse_field-show_example :
    (out : IntSet) × (parse_field (show_field quarters (early ∷ [])) minute_spec ≡ right out)
    × ((z : ℤ) → Memᴰ z out ↔ SelectedBy minute_spec (quarters ∷ early ∷ []) z)
parse_field-show_example =
    parse_field-show minute_spec quarters (early ∷ []) (omega arith) (omega arith)

-- The same text, and a time that matches.
shown : show_field quarters (early ∷ []) ≡ codes "*/15,5-7"
unfolding itoa_nat emit_digits
shown = refl

abbrev monday_noon : Moment
monday_noon = record { minute = 0; hour = 12; day = 3; month = 6; weekday = 1 }

-- A range of all days is not "*", and yet it does not count as restricted.
abbrev matching : Fallible CronError Schedule → Moment → Bool
matching (wrong e) t = false
matching (right s) t = matches s t

all_days : matching (parse (codes "0 12 1-31 * 0")) monday_noon ≡ false
unfolding parse parse_fields fields non_empty split_spaces split_from parse_field parse_parts
    split_on parse_term split_step cut term_bounds str_eq atoi digits_value all_digits value_from
    fill normal_dow has without matches size
all_days = refl
