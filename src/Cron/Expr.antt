-- ===== src/Cron/Expr.antt =====
-- internal/cronexpr/cronexpr.go. A set of ints is the list of its members; a later duplicate is
-- harmless. `v += step` wraps around at 64 bits.
use luncur.Common.{
  ℕ, zero, suc, ◌+◌, ◌-◌, Bool, true, false, not, ◌&&◌, ◌||◌, Option, none, some, List, [], ◌∷◌,
  ltb, leb, ◌==◌, if◌then◌else◌, length, Bytes, codes, str_eq, ℤ, ltb_ℤ, pos, negsuc, cut, split_on,
  fields, max_int, atoi,
}
use luncur.Common.Fallible.{Fallible, ◌>>=◌, unless, wrong, right}

pub record FieldSpec : Type 0 where
  pub name : Bytes
  pub min_value : ℕ
  pub max_value : ℕ

abbrev pub minute_spec : FieldSpec
minute_spec = record { name = codes "minute"; min_value = 0; max_value = 59 }

abbrev pub hour_spec : FieldSpec
hour_spec = record { name = codes "hour"; min_value = 0; max_value = 23 }

abbrev pub dom_spec : FieldSpec
dom_spec = record { name = codes "dom"; min_value = 1; max_value = 31 }

abbrev pub month_spec : FieldSpec
month_spec = record { name = codes "month"; min_value = 1; max_value = 12 }

abbrev pub dow_spec : FieldSpec
dow_spec = record { name = codes "dow"; min_value = 0; max_value = 7 }

-- The messages; `loop_fuel` is none of the code's.
pub data CronError : Type 0 where
  field_count : ℕ → CronError
  in_field : Bytes → CronError → CronError
  empty_term loop_fuel : CronError
  bad_step step_not_positive bad_start bad_end reversed bad_value : Bytes → CronError
  out_of_range : ℕ → ℕ → Bytes → CronError

abbrev pub IntSet : Type 0
IntSet = List ℤ

-- `a + b` on int64 for a positive `b`
abbrev pub add_int64 : ℤ → ℕ → ℤ
add_int64 (pos n) step =
    if leb (n + step) max_int then pos (n + step) else negsuc (18446744073709551615 - (n + step))
add_int64 (negsuc m) step = if ltb m step then pos (step - suc m) else negsuc (m - step)

abbrev pub leb_ℤ : ℤ → ℤ → Bool
leb_ℤ a b = not (ltb_ℤ b a)

-- `for v := lo; v <= hi; v += step { set[v] = true }`
unfoldable pub fill : ℕ → ℕ → ℤ → ℤ → IntSet → Option IntSet
fill zero step hi v set = none
fill (suc fuel) step hi v set =
    let rest = fill fuel step hi (add_int64 v step) (v ∷ set) in
    if leb_ℤ v hi then rest else some set

-- A field has at most 60 values.
abbrev pub fill_fuel : ℕ
fill_fuel = 200

abbrev pub step_of_int : Bytes → Option ℤ → Fallible CronError ℕ
step_of_int term none = wrong (bad_step term)
step_of_int term (some (pos zero)) = wrong (step_not_positive term)
step_of_int term (some (pos (suc n))) = right (suc n)
step_of_int term (some (negsuc n)) = wrong (step_not_positive term)

-- The range part, the step, and whether there is a slash.
unfoldable pub split_step : Bytes → Option (Bytes × Bytes) → Fallible CronError (Bytes × ℕ × Bool)
split_step term none = right (term, 1, false)
split_step term (some (range_part, after)) =
    step_of_int term (atoi after) >>= λ step. right (range_part, step, true)

abbrev pub int_or : CronError → Option ℤ → Fallible CronError ℤ
int_or e none = wrong e
int_or e (some z) = right z

abbrev pub range_bounds : Bytes → Bytes × Bytes → Fallible CronError (ℤ × ℤ)
range_bounds range_part (a, b) = int_or (bad_start range_part) (atoi a) >>= λ lo.
    int_or (bad_end range_part) (atoi b) >>= λ hi.
    unless (ltb_ℤ hi lo) (reversed range_part) (right (lo, hi))

abbrev pub single_bounds : FieldSpec → Bool → ℤ → Fallible CronError (ℤ × ℤ)
single_bounds spec slash v = right (v, if slash then pos spec.max_value else v)

-- The switch on the range part.
unfoldable pub term_bounds : FieldSpec → Bytes → Bool → Fallible CronError (ℤ × ℤ)
term_bounds spec range_part slash =
    if str_eq range_part (codes "*")
    then right (pos spec.min_value, pos spec.max_value)
    else elim (cut 45 range_part) [
      | some bounds ↦ range_bounds range_part bounds
      | none ↦ int_or (bad_value range_part) (atoi range_part) >>= single_bounds spec slash
    ]

abbrev pub filled : Option IntSet → Fallible CronError IntSet
filled none = wrong loop_fuel
filled (some set) = right set

abbrev pub outside : FieldSpec → ℤ → ℤ → Bool
outside spec lo hi = ltb_ℤ lo (pos spec.min_value) || ltb_ℤ (pos spec.max_value) hi

abbrev pub add_range : FieldSpec → Bytes → ℕ → IntSet → ℤ × ℤ → Fallible CronError IntSet
add_range spec term step set (lo, hi) =
    unless (outside spec lo hi) (out_of_range spec.min_value spec.max_value term)
      (filled (fill fill_fuel step hi lo set))

abbrev pub add_stepped : FieldSpec → Bytes → IntSet → Bytes × ℕ × Bool → Fallible CronError IntSet
add_stepped spec term set (range_part, step, slash) =
    term_bounds spec range_part slash >>= add_range spec term step set

unfoldable pub parse_term : Bytes → FieldSpec → IntSet → Fallible CronError IntSet
parse_term term spec set = split_step term (cut 47 term) >>= add_stepped spec term set

unfoldable pub parse_parts : List Bytes → FieldSpec → IntSet → Fallible CronError IntSet
parse_parts [] spec set = right set
parse_parts ([] ∷ parts) spec set = wrong empty_term
parse_parts ((c ∷ s) ∷ parts) spec set =
    parse_term (c ∷ s) spec set >>= λ set'. parse_parts parts spec set'

unfoldable pub parse_field : Bytes → FieldSpec → Fallible CronError IntSet
parse_field field spec = parse_parts (split_on 44 field) spec []

pub record Schedule : Type 0 where
  pub minute : IntSet
  pub hour : IntSet
  pub dom : IntSet
  pub month : IntSet
  pub dow : IntSet

abbrev pub named : FieldSpec → Fallible CronError IntSet → Fallible CronError IntSet
named spec (wrong e) = wrong (in_field spec.name e)
named spec (right set) = right set

abbrev pub eq_ℤ : ℤ → ℤ → Bool
eq_ℤ (pos a) (pos b) = a == b
eq_ℤ (negsuc a) (negsuc b) = a == b
eq_ℤ a b = false

-- `set[v]`
unfoldable pub has : IntSet → ℤ → Bool
has [] v = false
has (x ∷ set) v = eq_ℤ x v || has set v

unfoldable pub without : IntSet → ℤ → IntSet
without [] v = []
without (x ∷ set) v = let rest = without set v in if eq_ℤ x v then rest else x ∷ rest

-- Sunday is 0, and 7 too.
unfoldable pub normal_dow : IntSet → IntSet
normal_dow dow = if has dow (pos 7) then pos 0 ∷ without dow (pos 7) else dow

unfoldable pub parse_fields : List Bytes → Fallible CronError Schedule
parse_fields (a ∷ b ∷ c ∷ d ∷ e ∷ []) = named minute_spec (parse_field a minute_spec) >>= λ minute.
    named hour_spec (parse_field b hour_spec) >>= λ hour.
    named dom_spec (parse_field c dom_spec) >>= λ dom.
    named month_spec (parse_field d month_spec) >>= λ month.
    named dow_spec (parse_field e dow_spec) >>= λ dow.
    right (record { minute = minute; hour = hour; dom = dom; month = month; dow = normal_dow dow })
parse_fields parts = wrong (field_count (length parts))

unfoldable pub parse : Bytes → Fallible CronError Schedule
parse expr = parse_fields (fields expr)

-- The number of members of a set.
unfoldable pub size : IntSet → ℕ
size [] = 0
size (x ∷ set) = let rest = size set in if has set x then rest else suc rest

-- The fields of a time in UTC.
pub record Moment : Type 0 where
  pub minute : ℕ
  pub hour : ℕ
  pub day : ℕ
  pub month : ℕ
  pub weekday : ℕ

unfoldable pub matches : Schedule → Moment → Bool
matches s t =
    if not (has s.minute (pos t.minute))
      || not (has s.hour (pos t.hour))
      || not (has s.month (pos t.month))
    then false
    else if ltb (size s.dom) 31 && ltb (size s.dow) 7
    then has s.dom (pos t.day) || has s.dow (pos t.weekday)
    else has s.dom (pos t.day) && has s.dow (pos t.weekday)
