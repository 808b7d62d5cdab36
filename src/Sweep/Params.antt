-- ===== src/Sweep/Params.antt =====
-- internal/sweep/params.go: `Param`, `ParseParams`, `parseParam`. The numbers are float64s, whose
-- type and operations are parameters, as is the printing of a value that is no number.
use luncur.Common.{
  Bool, true, false, ◌&&◌, Option, none, some, List, [], ◌∷◌, map, if◌then◌else◌, Bytes, codes,
  str_eq,
}
use luncur.Common.Fallible.{Fallible, ◌>>=◌, unless, wrong, right}

-- What the code asks of a float64: `a >= b`, `a <= 0`, the zero, and `FormatFloat(f, 'f', -1, 64)`.
pub record Floats (F : Type 0) : Type 0 where
  pub is_ge : F → F → Bool
  pub le_zero : F → Bool
  pub zero_float : F
  pub format_f : F → Bytes

-- What yaml.Unmarshal gives for a list's item or an object's field.
pub data Item (F : Type 0) : Type 0 where
  number : F → Item F
  flag : Bool → Item F
  other : Bytes → Item F

pub data RawParam (F : Type 0) : Type 0 where
  sequence : List (Item F) → RawParam F
  object : List (Bytes × Item F) → RawParam F
  scalar : RawParam F

pub record Param (F : Type 0) : Type 0 where
  pub choices : List Bytes
  pub min_value : F
  pub max_value : F
  pub log_scale : Bool

pub data ParamError : Type 0 where
  no_params : ParamError
  bad_param min_not_less log_needs_positive : Bytes → ParamError

abbrev pub lookup {ℓ} : {A : Type ℓ} → Bytes → List (Bytes × A) → Option A
lookup key [] = none
lookup key ((k, a) ∷ entries) =
    let rest = lookup key entries in if str_eq k key then some a else rest

module _ {F : Type 0} (fl : Floats F) where
  -- `%v` of a bool is its name; `other` has what it prints.
  abbrev pub choice_string : Item F → Bytes
  choice_string (number f) = fl.format_f f
  choice_string (flag true) = codes "true"
  choice_string (flag false) = codes "false"
  choice_string (other s) = s

  abbrev pub float_of : Option (Item F) → Option F
  float_of none = none
  float_of (some (number f)) = some f
  float_of (some (flag b)) = none
  float_of (some (other s)) = none

  abbrev pub log_flag : Bytes → Option (Item F) → Fallible ParamError Bool
  log_flag key none = right false
  log_flag key (some (flag b)) = right b
  log_flag key (some (number f)) = wrong (bad_param key)
  log_flag key (some (other s)) = wrong (bad_param key)

  abbrev pub range_param : Bytes → F → F → Bool → Fallible ParamError (Param F)
  range_param key lo hi log_scale = unless (fl.is_ge lo hi) (min_not_less key) (
      unless (log_scale && fl.le_zero lo) (log_needs_positive key)
        (right (record { choices = []; min_value = lo; max_value = hi; log_scale = log_scale })))

  abbrev pub bounds_param :
      Bytes → Option F → Option F → Option (Item F) → Fallible ParamError (Param F)
  bounds_param key none hi log_item = wrong (bad_param key)
  bounds_param key (some lo) none log_item = wrong (bad_param key)
  bounds_param key (some lo) (some hi) log_item = log_flag key log_item >>= range_param key lo hi

  unfoldable pub parse_param : Bytes → RawParam F → Fallible ParamError (Param F)
  parse_param key (sequence []) = wrong (bad_param key)
  parse_param key (sequence (item ∷ items)) = right (record {
    choices = map choice_string (item ∷ items);
    min_value = fl.zero_float;
    max_value = fl.zero_float;
    log_scale = false;
  })
  parse_param key (object entries) =
      bounds_param key (float_of (lookup (codes "min") entries))
        (float_of (lookup (codes "max") entries)) (lookup (codes "log") entries)
  parse_param key scalar = wrong (bad_param key)

  abbrev pub onto_params :
      Bytes
      → Param F
      → Fallible ParamError (List (Bytes × Param F))
      → Fallible ParamError (List (Bytes × Param F))
  onto_params key p (wrong e) = wrong e
  onto_params key p (right ps) = right ((key, p) ∷ ps)

  abbrev pub parse_each : List (Bytes × RawParam F) → Fallible ParamError (List (Bytes × Param F))
  parse_each [] = right []
  parse_each ((key, raw) ∷ raws) = parse_param key raw >>= λ p. onto_params key p (parse_each raws)

  -- After yaml.Unmarshal.
  unfoldable pub parse_params :
      List (Bytes × RawParam F) → Fallible ParamError (List (Bytes × Param F))
  parse_params [] = wrong no_params
  parse_params (raw ∷ raws) = parse_each (raw ∷ raws)
