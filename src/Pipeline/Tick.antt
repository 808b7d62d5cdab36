-- ===== src/Pipeline/Tick.antt =====
-- `decidePipelineRun` and `allNeedsDone` of internal/server/pipelines.go, with `Downstream` and
-- `dependsOn` of internal/pipeline/compile.go. The search carries fuel, one more than the number of
-- steps; the decision is `none` where the fuel runs out.
use luncur.Common.{
  pos, ℕ, zero, suc, Bool, true, false, not, ◌&&◌, ◌||◌, Option, none, some, List, [], ◌∷◌, ◌++◌,
  if◌then◌else◌, length, Bytes, codes, str_eq, sort_strings, ltb_ℤ,
}
use luncur.Pipeline.Step.{Step, Spec, is_app}
use luncur.Pipeline.Graph.{Needs}
use luncur.Pipeline.Compile.{contains_str}

pub data StepState : Type 0 where
  pending running done failed skipped : StepState

pub record StepRow : Type 0 where
  pub id : Bytes
  pub state : StepState
  pub attempt : ℕ

-- `pipeStepView`; the run's status where there is one.
pub record StepView : Type 0 where
  pub row : StepRow
  pub spec : Step
  pub run : Option Bytes

-- `pipeActions`; `finish` is none to keep going, and else whether the run is done.
pub record PipeActions : Type 0 where
  pub launch : List Bytes
  pub skip : List Bytes
  pub finish : Option Bool

abbrev pub is_pending : StepState → Bool
is_pending pending = true
is_pending _ = false

abbrev pub is_running : StepState → Bool
is_running running = true
is_running _ = false

abbrev pub is_done_state : StepState → Bool
is_done_state done = true
is_done_state _ = false

abbrev pub is_failed : StepState → Bool
is_failed failed = true
is_failed _ = false

-- `byName[n].Needs` of `Downstream`; a later step of the same name wins.
unfoldable pub spec_needs : Spec → Needs
spec_needs [] n = []
spec_needs (st ∷ steps) n =
    let rest = spec_needs steps n in if str_eq st.name n then st.needs else rest

pub data Search : Type 0 where
  hit no_fuel : Search
  miss : List Bytes → Search

-- The loop of `dependsOn` over the needs of a step.
unfoldable pub depends_deps :
    (Bytes → List Bytes → Search) → Bytes → List Bytes → List Bytes → Search
depends_deps visit target [] seen = miss seen
depends_deps visit target (dep ∷ deps) seen =
    if str_eq dep target then hit else elim (visit dep seen) [
      | hit ↦ hit
      | no_fuel ↦ no_fuel
      | miss seen' ↦ depends_deps visit target deps seen'
    ]

unfoldable pub depends_on : Needs → Bytes → ℕ → Bytes → List Bytes → Search
depends_on needs target zero from seen = no_fuel
depends_on needs target (suc fuel) from seen =
    if contains_str seen from
    then miss seen
    else depends_deps (depends_on needs target fuel) target (needs from) (from ∷ seen)

-- A dependent's name before the others.
abbrev pub add_hit : Bytes → Search → Option (List Bytes) → Option (List Bytes)
add_hit n hit (some out) = some (n ∷ out)
add_hit n (miss seen) (some out) = some out
add_hit n no_fuel (some out) = none
add_hit n s none = none

-- The loop of `Downstream` over the steps.
unfoldable pub dependents : Needs → ℕ → Bytes → Spec → Option (List Bytes)
dependents needs fuel name [] = some []
dependents needs fuel name (st ∷ steps) =
    let rest = dependents needs fuel name steps in
    if str_eq st.name name
    then rest
    else add_hit st.name (depends_on needs name fuel st.name []) rest

unfoldable pub downstream : Spec → Bytes → Option (List Bytes)
downstream spec name = elim (dependents (spec_needs spec) (suc (length spec)) name spec) [
  | none ↦ none
  | some out ↦ some (sort_strings out)
]

-- `byName`: a later view of the same name wins.
unfoldable pub by_name : List StepView → Bytes → Option StepView
by_name [] n = none
by_name (v ∷ views) n = elim (by_name views n) [
  | some later ↦ some later
  | none ↦ if str_eq v.spec.name n then some v else none
]

unfoldable pub all_needs_done : (Bytes → Option StepView) → List Bytes → Bool
all_needs_done views [] = true
all_needs_done views (n ∷ needs) = elim (views n) [
  | none ↦ false
  | some v ↦ is_done_state v.row.state && all_needs_done views needs
]

-- The loop over the dependents of a failed step.
unfoldable pub skip_deps : (Bytes → Option StepView) → List Bytes → List Bytes → List Bytes
skip_deps views [] skip = skip
skip_deps views (dep ∷ deps) skip = elim (views dep) [
  | none ↦ skip_deps views deps skip
  | some dv ↦ skip_deps views deps (
      if is_pending dv.row.state && not (contains_str skip dv.row.id)
      then skip ++ dv.row.id ∷ []
      else skip)
]

-- The loop over the failed steps.
unfoldable pub skip_all :
    Spec → (Bytes → Option StepView) → List StepView → List Bytes → Option (List Bytes)
skip_all spec views [] skip = some skip
skip_all spec views (v ∷ rest) skip =
    if is_failed v.row.state
    then elim (downstream spec v.spec.name) [
      | none ↦ none
      | some deps ↦ skip_all spec views rest (skip_deps views deps skip)
    ]
    else skip_all spec views rest skip

-- `v.Row.Attempt <= v.Spec.Retries`
abbrev pub in_budget : StepView → Bool
in_budget v = not (ltb_ℤ v.spec.retries (pos v.row.attempt))

abbrev pub run_failed : Option Bytes → Bool
run_failed none = false
run_failed (some status) = str_eq status (codes "failed")

abbrev pub launches : (Bytes → Option StepView) → List Bytes → StepView → Bool
launches views skip v = elim v.row.state [
  | pending ↦ not (contains_str skip v.row.id) && all_needs_done views v.spec.needs
  | running ↦ is_app v.spec.kind && run_failed v.run && in_budget v
  | _ ↦ false
]

unfoldable pub launch_all : (Bytes → Option StepView) → List Bytes → List StepView → List Bytes
launch_all views skip [] = []
launch_all views skip (v ∷ rest) =
    let more = launch_all views skip rest in if launches views skip v then v.row.id ∷ more else more

unfoldable pub any_active : List StepView → Bool
any_active [] = false
any_active (v ∷ views) = is_pending v.row.state || is_running v.row.state || any_active views

unfoldable pub all_done : List StepView → Bool
all_done [] = true
all_done (v ∷ views) = is_done_state v.row.state && all_done views

-- The actions for a skip set.
abbrev pub actions_for : List StepView → List Bytes → PipeActions
actions_for views skip = record {
  launch = launch_all (by_name views) skip views;
  skip = skip;
  finish = if any_active views then none else some (all_done views);
}

unfoldable pub decide_pipeline_run : Spec → List StepView → Option PipeActions
decide_pipeline_run spec views = elim (skip_all spec (by_name views) views []) [
  | none ↦ none
  | some skip ↦ some (actions_for views skip)
]
