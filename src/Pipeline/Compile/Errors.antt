-- ===== src/Pipeline/Compile/Errors.antt =====
-- Which errors the checks of `Compile` (internal/pipeline/compile.go) report about a single step.
use luncur.Common.{
  ℕ, Bytes, List, [], ◌∷◌, Memᴰ, Option, none, some, Bool, true, false, ◌||◌, ◌≡◌, refl,
  if◌then◌else◌,
}
use luncur.Pipeline.Step.{
  Kind, RawStep, RawSpec, Steps, needs_of, CompileError, Result, passed, failed, ◌>>=◌, reject,
  cycle, sort_cycle, out_of_fuel, bad_input,
}
use luncur.Pipeline.Rules.{
  is_empty, kinds_set, only_kind, derive_kind, check_field_legality, check_kind_value,
  check_env_keys, check_outputs, check_step_values,
}
use luncur.Pipeline.Graph.{transitive_needs}
use luncur.Pipeline.Upstream.{UpstreamOf}
use luncur.Pipeline.Compile.{
  check_step, check_steps, check_deps, check_needs, input_parts, check_collision, check_inputs,
  upstream_of, check_all_inputs,
}

-- The errors about the graph of the steps as a whole.
abbrev pub is_graph_error : CompileError → Bool
is_graph_error (cycle s) = true
is_graph_error sort_cycle = true
is_graph_error out_of_fuel = true
is_graph_error _ = false

-- A result that is no such error.
pub data Plain {ℓ} {A : Type ℓ} : Result A → Type ℓ where
  fine : (a : A) → Plain (passed a)
  plain : (e : CompileError) → is_graph_error e ≡ false → Plain (failed e)

pub Plain-bind {ℓ κ} :
    {A : Type ℓ} {B : Type κ} (m : Result A) (f : A → Result B)
    → Plain m
    → ((a : A) → Plain (f a))
    → Plain (m >>= f)
Plain-bind (passed a) f h k = k a
Plain-bind (failed e) f (plain _ h) k = plain e h

pub Plain-reject : (b : Bool) (e : CompileError) → is_graph_error e ≡ false → Plain (reject b e)
Plain-reject true e h = plain e h
Plain-reject false e h = fine tt

-- How such results compose.
ruleset plain_rules = (Plain-bind, Plain-reject, fine, refl)

only_kind-Plain : (name : Bytes) (set : List Kind) → Plain (only_kind name set)
only_kind-Plain name [] = plain _ refl
only_kind-Plain name (k ∷ []) = fine _
only_kind-Plain name (k ∷ j ∷ set) = plain _ refl

derive_kind-Plain : (name : Bytes) (rs : RawStep) → Plain (derive_kind name rs)
unfolding derive_kind
derive_kind-Plain name rs = only_kind-Plain name (kinds_set rs)

check_field_legality-Plain :
    (name : Bytes) (kind : Kind) (rs : RawStep) → Plain (check_field_legality name kind rs)
unfolding check_field_legality
check_field_legality-Plain name kind rs = search plain_rules depth 20

check_kind_value-Plain :
    (name : Bytes) (kind : Kind) (rs : RawStep) → Plain (check_kind_value name kind rs)
unfolding check_kind_value
check_kind_value-Plain name Kind.scale rs = Plain-reject _ _ refl
check_kind_value-Plain name Kind.notify rs = search plain_rules depth 20
check_kind_value-Plain name _ rs = fine _

check_env_keys-Plain : (name : Bytes) (env : List (Bytes × Bytes)) → Plain (check_env_keys name env)
unfolding check_env_keys
check_env_keys-Plain name [] = fine _
check_env_keys-Plain name ((k, v) ∷ env) =
    search (plain_rules, check_env_keys-Plain name env) depth 20

check_outputs-Plain :
    (name : Bytes) (outputs : List Bytes) (seen : Bytes → Bool)
    → Plain (check_outputs name outputs seen)
unfolding check_outputs
check_outputs-Plain name [] seen = fine _
check_outputs-Plain name (o ∷ outputs) seen =
    search (plain_rules, check_outputs-Plain name outputs) depth 20

check_step_values-Plain :
    (name : Bytes) (kind : Kind) (rs : RawStep) → Plain (check_step_values name kind rs)
unfolding check_step_values
check_step_values-Plain name kind rs =
    search (plain_rules, check_kind_value-Plain, check_env_keys-Plain, check_outputs-Plain) depth 20

check_step-Plain : (name : Bytes) (rs : RawStep) → Plain (check_step name rs)
unfolding check_step
check_step-Plain name rs =
    search (plain_rules, derive_kind-Plain, check_field_legality-Plain, check_step_values-Plain)
      depth 20

pub check_steps-Plain :
    (raw : RawSpec) (names : List Bytes) (steps : Steps) → Plain (check_steps raw names steps)
unfolding check_steps
check_steps-Plain raw [] steps = fine _
check_steps-Plain raw (n ∷ names) steps =
    search (plain_rules, check_step-Plain, check_steps-Plain raw names) depth 20

check_deps-Plain :
    (steps : Steps) (name : Bytes) (deps : List Bytes) → Plain (check_deps steps name deps)
unfolding check_deps
check_deps-Plain steps name [] = fine _
check_deps-Plain steps name (d ∷ deps) =
    search (plain_rules, check_deps-Plain steps name deps) depth 20

pub check_needs-Plain : (steps : Steps) (names : List Bytes) → Plain (check_needs steps names)
unfolding check_needs
check_needs-Plain steps [] = fine _
check_needs-Plain steps (n ∷ names) =
    search (plain_rules, check_deps-Plain, check_needs-Plain steps names) depth 20

input_parts-Plain :
    (name input : Bytes) (o : Option (Bytes × Bytes)) → Plain (input_parts name input o)
input_parts-Plain name input none = plain _ refl
input_parts-Plain name input (some (a, b)) = by_test (is_empty a || is_empty b)
  where
    by_test :
        (t : Bool)
        → Plain {A = Bytes × Bytes} (if t then failed (bad_input name input) else passed (a, b))
    by_test true = plain _ refl
    by_test false = fine _

check_collision-Plain :
    (name input key : Bytes) (o : Option Bytes) → Plain (check_collision name input key o)
check_collision-Plain name input key none = fine _
check_collision-Plain name input key (some prev) = Plain-reject _ _ refl

check_inputs-Plain :
    (steps : Steps) (name : Bytes) (upstream : Bytes → Bool) (inputs : List Bytes)
    (env : Bytes → Option Bytes)
    → Plain (check_inputs steps name upstream inputs env)
unfolding check_inputs
check_inputs-Plain steps name upstream [] env = fine _
check_inputs-Plain steps name upstream (i ∷ inputs) env =
    search
      (
        plain_rules,
        input_parts-Plain,
        check_collision-Plain,
        check_inputs-Plain steps name upstream inputs,
      )
      depth 20

upstream_of-Plain :
    (needs : Bytes → List Bytes) (n : Bytes) (o : Option (Bytes → Bool))
    → UpstreamOf needs n o
    → Plain (upstream_of o)
upstream_of-Plain needs n none h = absurd h
upstream_of-Plain needs n (some s) h = fine s

pub check_all_inputs-Plain :
    (steps : Steps) (fuel : ℕ) (names : List Bytes)
    → ((n : Bytes)
        → Memᴰ n names
        → UpstreamOf (needs_of steps) n (transitive_needs fuel n (needs_of steps)))
    → Plain (check_all_inputs steps fuel names)
unfolding check_all_inputs
check_all_inputs-Plain steps fuel [] h = fine _
check_all_inputs-Plain steps fuel (n ∷ names) h =
    let here = upstream_of-Plain (needs_of steps) n _ (h n (Memᴰ.head refl)) in
    let rest = check_all_inputs-Plain steps fuel names (λ x m. h x (Memᴰ.tail m)) in
    search (plain_rules, here, rest, check_inputs-Plain) depth 20
