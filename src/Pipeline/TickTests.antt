-- ===== src/Pipeline/TickTests.antt =====
-- The tick decision and the artifacts at a small run.
use luncur.Common.{
  false, ◌≡◌, ◌++◌, Memᴰ, Bytes, pos, refl, none, some, List, [], ◌∷◌, codes, str_eq, str_lt,
  insert_sorted, sort_strings,
}
use luncur.Pipeline.Step.{Step, image, app, passed}
use luncur.Pipeline.Rules.{check_outputs, env_key_match, env_key_tail, to_upper}
use luncur.Pipeline.Artifacts.{artifact_env, output_key, artifact_prefix}
use luncur.Pipeline.Outputs.{artifact_env-output}
use luncur.Pipeline.Compile.{contains_str}
use luncur.Pipeline.Tick.{
  pending, running, failed, StepView, PipeActions, decide_pipeline_run, skip_all, downstream,
  dependents, depends_on, depends_deps, spec_needs, skip_deps, by_name, all_needs_done, launch_all,
  any_active, all_done,
}
use luncur.Pipeline.Downstream.{downstream-DependentsIn, DependentsIn}
use luncur.Pipeline.Searching.{decide_pipeline_run-decides}
use luncur.Pipeline.Ticking.{decide_pipeline_run-Decided, Decided}

abbrev build_step : Step
build_step = record {
  name = codes "build";
  needs = [];
  app = [];
  image = codes "go";
  command = [];
  env = [];
  gpu = pos 0;
  deploy = [];
  scale = none;
  notify = [];
  retries = pos 1;
  inputs = [];
  outputs = [];
  kind = image;
}

abbrev train_step : Step
train_step = record build_step { name = codes "train"; needs = codes "build" ∷ [] }

abbrev eval_step : Step
eval_step = record build_step { name = codes "eval"; kind = app }

abbrev views : List StepView
views =
    record {
      row = record { id = codes "r1"; state = failed; attempt = 2 };
      spec = build_step;
      run = none;
    }
    ∷ record {
      row = record { id = codes "r2"; state = pending; attempt = 1 };
      spec = train_step;
      run = none;
    }
    ∷ record {
      row = record { id = codes "r3"; state = running; attempt = 1 };
      spec = eval_step;
      run = some (codes "failed");
    }
    ∷ []

-- "train" is skipped, since "build" failed, and "eval" is tried again.
abbrev actions : PipeActions
actions = record { launch = codes "r3" ∷ []; skip = codes "r2" ∷ []; finish = none }

decide_pipeline_run-Decided_example : Decided views actions
unfolding decide_pipeline_run skip_all downstream dependents depends_on depends_deps spec_needs
    skip_deps by_name all_needs_done launch_all any_active all_done contains_str str_eq sort_strings
    insert_sorted str_lt
decide_pipeline_run-Decided_example =
    decide_pipeline_run-Decided (build_step ∷ train_step ∷ eval_step ∷ []) views actions refl

-- Needs that form a cycle, with a failed step on it.
abbrev looping : List Step
looping = record build_step { needs = codes "train" ∷ [] } ∷ train_step ∷ []

decide_pipeline_run-decides_example :
    (acts : PipeActions) × (decide_pipeline_run looping views ≡ some acts)
decide_pipeline_run-decides_example = decide_pipeline_run-decides looping views

downstream-DependentsIn_example :
    (out : List Bytes) × (downstream looping (codes "train") ≡ some out)
    × DependentsIn looping looping (codes "train") out
downstream-DependentsIn_example = downstream-DependentsIn looping (codes "train")

-- A step with two outputs, and an input whose name is the same.
abbrev export_step : Step
export_step = record train_step {
  outputs = codes "model" ∷ codes "log" ∷ [];
  inputs = codes "build/log" ∷ [];
}

outputs_pass : check_outputs export_step.name export_step.outputs (λ u. false) ≡ passed tt
unfolding check_outputs env_key_match env_key_tail to_upper str_eq
outputs_pass = refl

artifact_env-output_example :
    artifact_env (codes "nightly") (codes "r7") export_step (output_key (codes "log"))
    ≡ some (artifact_prefix (codes "nightly") (codes "r7") ++ codes "train" ++ 47 ∷ codes "log")
artifact_env-output_example =
    artifact_env-output (codes "nightly") (codes "r7") export_step (codes "log") outputs_pass
      (Memᴰ.tail (Memᴰ.head refl))
