-- ===== src/Pipeline/Step.antt =====
-- internal/pipeline/compile.go: `ScaleAction`, `Step`, `Spec`, `rawStep`, and the errors of
-- `Compile`. A Go map is an association list where it is iterated.
use luncur.Common.{Bytes, codes, List, [], Option, none, some, ℤ, Bool, true, false, ◌≡◌, refl}

-- What `Step.Kind` holds.
pub data Kind : Type 0 where
  app image deploy scale notify : Kind

abbrev pub kind_name : Kind → Bytes
kind_name app = codes "app"
kind_name image = codes "image"
kind_name deploy = codes "deploy"
kind_name scale = codes "scale"
kind_name notify = codes "notify"

abbrev pub is_app : Kind → Bool
is_app app = true
is_app _ = false

abbrev pub is_image : Kind → Bool
is_image image = true
is_image _ = false

pub record ScaleAction : Type 0 where
  pub app : Bytes
  pub replicas : ℤ

pub record RawStep : Type 0 where
  pub needs : List Bytes
  pub app : Bytes
  pub image : Bytes
  pub command : List Bytes
  pub env : List (Bytes × Bytes)
  pub gpu : ℤ
  pub deploy : Bytes
  pub scale : Option ScaleAction
  pub notify : Bytes
  pub retries : ℤ
  pub inputs : List Bytes
  pub outputs : List Bytes

-- `rawSpec.Steps`
abbrev pub RawSpec : Type 0
RawSpec = List (Bytes × RawStep)

pub record Step : Type 0 where
  pub name : Bytes
  pub needs : List Bytes
  pub app : Bytes
  pub image : Bytes
  pub command : List Bytes
  pub env : List (Bytes × Bytes)
  pub gpu : ℤ
  pub deploy : Bytes
  pub scale : Option ScaleAction
  pub notify : Bytes
  pub retries : ℤ
  pub inputs : List Bytes
  pub outputs : List Bytes
  pub kind : Kind

-- `Spec.Steps`
abbrev pub Spec : Type 0
Spec = List Step

-- The local `steps map[string]Step` of `Compile`: `none` where a key is missing.
abbrev pub Steps : Type 0
Steps = Bytes → Option Step

-- `steps[n].Needs`: the zero `Step` at a missing key has no needs.
abbrev pub needs_of : Steps → Bytes → List Bytes
needs_of steps n = elim (steps n) [ none ↦ [] | some st ↦ st.needs ]

-- One constructor for each message of `Compile` and its helpers; a message's arguments are kept.
pub data CompileError : Type 0 where
  too_large bad_yaml no_steps sort_cycle out_of_fuel : CompileError
  bad_name bad_replicas notify_empty notify_long self_need : Bytes → CompileError
  command_illegal gpu_illegal env_illegal retries_illegal : Bytes → CompileError
  inputs_illegal outputs_illegal cycle : Bytes → CompileError
  not_one_kind : Bytes → List Bytes → CompileError
  bad_env_key bad_output duplicate_output unknown_need : Bytes → Bytes → CompileError
  bad_input : Bytes → Bytes → CompileError
  input_unknown_step input_not_upstream : Bytes → Bytes → Bytes → CompileError
  input_undeclared : Bytes → Bytes → Bytes → Bytes → CompileError
  input_collision : Bytes → Bytes → Bytes → Bytes → CompileError

-- `(T, error)` where the error decides.
pub data Result {ℓ} (T : Type ℓ) : Type ℓ where
  failed : CompileError → Result T
  passed : T → Result T

infixl 5 ◌>>◌ ◌>>=◌
abbrev pub ◌>>=◌ {ℓ κ} : {T : Type ℓ} {U : Type κ} → Result T → (T → Result U) → Result U
failed why >>= go = failed why
passed t >>= go = go t

-- A check that gives no value, and what follows it.
abbrev pub ◌>>◌ {κ} : {U : Type κ} → Result (Unit {0}) → Result U → Result U
first >> rest = first >>= λ _. rest

-- `if bad { return err }`
abbrev pub reject : Bool → CompileError → Result (Unit {0})
reject true e = failed e
reject false e = passed tt

-- Where a chain of checks passes, each of them does.
pub bind_passed {ℓ κ} :
    {T : Type ℓ} {U : Type κ} (r : Result T) (go : T → Result U) {u : U}
    → (r >>= go) ≡ passed u
    → (t : T) × (r ≡ passed t) × (go t ≡ passed u)
bind_passed (failed why) go h = cc
bind_passed (passed t) go h = (t, refl, h)

pub then_passed {κ} :
    {U : Type κ} (first : Result (Unit {0})) (rest : Result U) {u : U}
    → (first >> rest) ≡ passed u
    → (first ≡ passed tt) × (rest ≡ passed u)
then_passed (failed why) rest h = cc
then_passed (passed tt) rest h = (refl, h)

pub reject_passed : (b : Bool) (e : CompileError) {u : Unit {0}} → reject b e ≡ passed u → b ≡ false
reject_passed true e h = cc
reject_passed false e h = refl
