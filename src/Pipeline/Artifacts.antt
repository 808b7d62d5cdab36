-- ===== src/Pipeline/Artifacts.antt =====
-- `ArtifactEnv` of internal/pipeline/compile.go: the environment that tells a step where its inputs
-- and outputs are. A later entry of a key wins.
use luncur.Common.{Option, none, some, List, [], ◌∷◌, ◌++◌, Bytes, codes, update}
use luncur.Pipeline.Step.{Step}
use luncur.Pipeline.Compile.{split_slash}
use luncur.Pipeline.Rules.{to_upper}

abbrev pub ArtifactMap : Type 0
ArtifactMap = Bytes → Option Bytes

abbrev pub output_key : Bytes → Bytes
output_key name = codes "LUNCUR_OUTPUT_" ++ to_upper name

abbrev pub input_key : Bytes → Bytes
input_key name = codes "LUNCUR_INPUT_" ++ to_upper name

-- "pipelines/<pipeline>/<run>/"
abbrev pub artifact_prefix : Bytes → Bytes → Bytes
artifact_prefix pipeline run_id = codes "pipelines/" ++ pipeline ++ 47 ∷ run_id ++ 47 ∷ []

abbrev pub set_outputs : Bytes → Bytes → List Bytes → ArtifactMap → ArtifactMap
set_outputs prefix step [] env = env
set_outputs prefix step (o ∷ outputs) env =
    set_outputs prefix step outputs (update env (output_key o) (some (prefix ++ step ++ 47 ∷ o)))

abbrev pub set_input : Bytes → Option (Bytes × Bytes) → ArtifactMap → ArtifactMap
set_input prefix none env = env
set_input prefix (some (source, name)) env =
    update env (input_key name) (some (prefix ++ source ++ 47 ∷ name))

abbrev pub set_inputs : Bytes → List Bytes → ArtifactMap → ArtifactMap
set_inputs prefix [] env = env
set_inputs prefix (i ∷ inputs) env = set_inputs prefix inputs (set_input prefix (split_slash i) env)

abbrev pub base_env : Bytes → Bytes → ArtifactMap
base_env pipeline run_id =
    update
      (update (update (λ key. none) (codes "LUNCUR_PIPELINE_ID") (some pipeline))
        (codes "LUNCUR_PIPELINE_RUN_ID") (some run_id))
      (codes "LUNCUR_ARTIFACT_PREFIX") (some (artifact_prefix pipeline run_id))

unfoldable pub artifact_env : Bytes → Bytes → Step → ArtifactMap
artifact_env pipeline run_id st =
    set_inputs (artifact_prefix pipeline run_id) st.inputs
      (set_outputs (artifact_prefix pipeline run_id) st.name st.outputs (base_env pipeline run_id))
