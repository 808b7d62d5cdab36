-- ===== src/Pipeline/Compile.antt =====
-- internal/pipeline/compile.go: `Compile`. The YAML library's `Unmarshal` is a parameter.
pub mod Table
pub mod Links
pub mod Entries
pub mod Sound
pub mod Errors
pub mod Verdict
use luncur.Common.{
  ℕ, suc, ◌*◌, Bytes, codes, List, [], ◌∷◌, ◌++◌, map, Option, none, some, Bool, true, false, not,
  ◌&&◌, ◌||◌, ltb, ◌==◌, if◌then◌else◌, length, str_eq, sort_strings, update, pos,
}
use luncur.Pipeline.Step.{
  Kind, RawStep, RawSpec, Step, Spec, Steps, needs_of, CompileError, Result, passed, failed, ◌>>=◌,
  ◌>>◌, reject, too_large, bad_yaml, no_steps, sort_cycle, out_of_fuel, bad_name, self_need, cycle,
  unknown_need, bad_input, input_unknown_step, input_not_upstream, input_undeclared,
  input_collision,
}
use luncur.Pipeline.Rules.{
  is_empty, step_name_match, to_upper, derive_kind, check_field_legality, check_step_values,
}
use luncur.Pipeline.Graph.{Visit, clean, found, no_fuel, find_cycle, transitive_needs, topo_sort}

abbrev pub max_yaml_bytes : ℕ
max_yaml_bytes = 64 * 1024

abbrev pub zero_raw_step : RawStep
zero_raw_step = record {
  needs = [];
  app = [];
  image = [];
  command = [];
  env = [];
  gpu = pos 0;
  deploy = [];
  scale = none;
  notify = [];
  retries = pos 0;
  inputs = [];
  outputs = [];
}

-- `raw.Steps[name]`
unfoldable pub raw_step : RawSpec → Bytes → RawStep
raw_step [] name = zero_raw_step
raw_step ((k, rs) ∷ raw) name = if str_eq k name then rs else raw_step raw name

-- The keys of `raw.Steps`.
abbrev pub keys : RawSpec → List Bytes
keys raw = map (λ e. e.0) raw

unfoldable pub step_of : Bytes → RawStep → Kind → Step
step_of name rs kind = record {
  name = name;
  needs = rs.needs;
  app = rs.app;
  image = rs.image;
  command = rs.command;
  env = rs.env;
  gpu = rs.gpu;
  deploy = rs.deploy;
  scale = rs.scale;
  notify = rs.notify;
  retries = rs.retries;
  inputs = rs.inputs;
  outputs = rs.outputs;
  kind = kind;
}

-- One round of the first loop of `Compile`.
unfoldable pub check_step : Bytes → RawStep → Result Step
check_step name rs = do
  reject (not (step_name_match name) || ltb 20 (length name)) (bad_name name)
  kind ← derive_kind name rs
  check_field_legality name kind rs
  check_step_values name kind rs
  passed (step_of name rs kind)

unfoldable pub check_steps : RawSpec → List Bytes → Steps → Result Steps
check_steps raw [] steps = passed steps
check_steps raw (name ∷ names) steps = do
  st ← check_step name (raw_step raw name)
  check_steps raw names (update steps name (some st))

-- `_, ok := steps[dep]`
abbrev pub has_step : Steps → Bytes → Bool
has_step steps n = elim (steps n) [ none ↦ false | some _ ↦ true ]

unfoldable pub check_deps : Steps → Bytes → List Bytes → Result (Unit {0})
check_deps steps name [] = passed tt
check_deps steps name (dep ∷ deps) = do
  reject (str_eq dep name) (self_need name)
  reject (not (has_step steps dep)) (unknown_need name dep)
  check_deps steps name deps

unfoldable pub check_needs : Steps → List Bytes → Result (Unit {0})
unfolding check_deps
check_needs steps [] = passed tt
check_needs steps (name ∷ names) = do
  check_deps steps name (needs_of steps name)
  check_needs steps names

-- `if cyc != ""`
abbrev pub check_cycle : Visit → Result (Unit {0})
check_cycle (clean c) = passed tt
check_cycle (found s) = reject (not (is_empty s)) (cycle s)
check_cycle no_fuel = failed out_of_fuel

-- `strings.SplitN(in, "/", 2)`, `none` where there is no slash.
unfoldable pub split_slash : Bytes → Option (Bytes × Bytes)
split_slash [] = none
split_slash (c ∷ s) =
    let rest = split_slash s in
    if c == b'/' then some ([], s) else elim rest [ none ↦ none | some (a, b) ↦ some (c ∷ a, b) ]

-- `containsStr`
unfoldable pub contains_str : List Bytes → Bytes → Bool
contains_str [] s = false
contains_str (v ∷ list) s = str_eq v s || contains_str list s

abbrev pub outputs_of : Option Step → List Bytes
outputs_of none = []
outputs_of (some st) = st.outputs

-- The parts of an input, or the error where it is not "step/name".
abbrev pub input_parts : Bytes → Bytes → Option (Bytes × Bytes) → Result (Bytes × Bytes)
input_parts name input none = failed (bad_input name input)
input_parts name input (some (a, b)) =
    if is_empty a || is_empty b then failed (bad_input name input) else passed (a, b)

-- `prev, dup := inputEnv[key]; dup && prev != in`
abbrev pub check_collision : Bytes → Bytes → Bytes → Option Bytes → Result (Unit {0})
check_collision name input key none = passed tt
check_collision name input key (some prev) =
    reject (not (str_eq prev input)) (input_collision name prev input key)

unfoldable pub check_inputs :
    Steps → Bytes → (Bytes → Bool) → List Bytes → (Bytes → Option Bytes) → Result (Unit {0})
check_inputs steps name upstream [] input_env = passed tt
check_inputs steps name upstream (input ∷ inputs) input_env = do
  parts ← input_parts name input (split_slash input)
  reject (not (has_step steps parts.0)) (input_unknown_step name input parts.0)
  reject (not (upstream parts.0)) (input_not_upstream name input parts.0)
  reject (not (contains_str (outputs_of (steps parts.0)) parts.1))
      (input_undeclared name input parts.1 parts.0)
  check_collision name input (to_upper parts.1) (input_env (to_upper parts.1))
  check_inputs steps name upstream inputs (update input_env (to_upper parts.1) (some input))

abbrev pub inputs_of : Option Step → List Bytes
inputs_of none = []
inputs_of (some st) = st.inputs

-- `transitiveNeeds`, with fuel for the steps of the file.
abbrev pub upstream_of : Option (Bytes → Bool) → Result (Bytes → Bool)
upstream_of none = failed out_of_fuel
upstream_of (some upstream) = passed upstream

unfoldable pub check_all_inputs : Steps → ℕ → List Bytes → Result (Unit {0})
check_all_inputs steps fuel [] = passed tt
check_all_inputs steps fuel (name ∷ names) = do
  upstream ← upstream_of (transitive_needs fuel name (needs_of steps))
  check_inputs steps name upstream (inputs_of (steps name)) (λ _. none)
  check_all_inputs steps fuel names

-- `out = append(out, steps[n])`; each name of the sorted list is a key of `steps`.
unfoldable pub collect : Steps → List Bytes → Spec
collect steps [] = []
collect steps (n ∷ names) = elim (steps n) [
  | none ↦ collect steps names
  | some st ↦ st ∷ collect steps names
]

abbrev pub sorted_spec : Steps → Option (List Bytes) → Result Spec
sorted_spec steps none = failed sort_cycle
sorted_spec steps (some out) = passed (collect steps out)

-- `Compile` behind the parser.
unfoldable pub compile_raw : RawSpec → Result Spec
compile_raw raw = do
  reject (length raw == 0) no_steps
  let names = sort_strings (keys raw)
  steps ← check_steps raw names (λ _. none)
  check_needs steps names
  check_cycle (find_cycle names (needs_of steps))
  check_all_inputs steps (suc (length names)) names
  sorted_spec steps (topo_sort names (needs_of steps))

abbrev pub parsed : Option RawSpec → Result RawSpec
parsed none = failed bad_yaml
parsed (some raw) = passed raw

-- `Compile`, over the YAML library's `Unmarshal`.
unfoldable pub compile : (Bytes → Option RawSpec) → Bytes → Result Spec
compile unmarshal b = do
  reject (ltb max_yaml_bytes (length b)) too_large
  raw ← parsed (unmarshal b)
  compile_raw raw
