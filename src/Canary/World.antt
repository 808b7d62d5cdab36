-- ===== src/Canary/World.antt =====
-- The state that internal/server/canary.go and internal/server/rolloutgate.go act on: the tables,
-- the goroutine that drives each deploy, and the calls that were made to the cluster and to
-- `notify`. What the cluster, the registry and the clock answer is a record of answers.
use luncur.Common.{ℕ, Bool, Option, List, ◌∷◌, Bytes, update}
use luncur.Canary.Deployments.{
  Reason, Deployments, Outcomes, AppPolicy, set_deployment_status, set_deploy_progress,
  set_deploy_fail_reason, set_deploy_ready, Status, App,
}
use luncur.Canary.Rollouts.{Rollouts, Phase, set_rollout_phase, set_rollout_step, add_rollout_probe}
use luncur.Kube.Judge as Judge

pub data ObjectKind : Type 0 where
  ingress_route traefik_service deployment service : ObjectKind

-- The calls on the cluster, and the notifications, newest first.
pub data Effect : Type 0 where
  apply_app : Bytes → Effect
  apply_canary : ℕ → Bool → Effect
  apply_split : ℕ → Effect
  delete_object : ObjectKind → Bytes → Effect
  delete_failed_pods touch_environment : Effect
  deploy_success deploy_rolled_back : Bytes → Effect
  deploy_failed : Bytes → Reason → Effect

-- What drives a deploy: nothing, `watchRollout` on a Deployment since a time with a timeout, or
-- `runCanary` with the policy that it read.
pub data Worker : Type 0 where
  idle : Worker
  watching : Bytes → ℕ → ℕ → Worker
  running : AppPolicy → Worker

pub record World : Type 0 where
  pub rollouts : Rollouts
  pub deployments : Deployments
  pub outcomes : Outcomes
  pub policies : ℕ → AppPolicy
  pub workers : Bytes → Worker
  pub effects : List Effect

-- What `RolloutStatus` returns: `ErrNoDeployment`, another error, or a sample.
pub data StatusAnswer : Type 0 where
  no_deployment unreadable : StatusAnswer
  sample : Judge.Rollout → StatusAnswer

pub data Action : Type 0 where
  promote abort : Action

-- What one call of a handler, or one round of a loop, is told from outside. `apply_result` is the
-- error of rendering or applying, `arrived` a request that comes in while traffic is routed,
-- `app_row` what `GetAppByID` reads, none on an error, and `out_of_int32` what the platform makes
-- of a conversion to int32 that does not fit, with 0 for a negative.
pub record Answers : Type 0 where
  pub now : ℕ
  pub can_watch : Bool
  pub weighted : Bool
  pub status_of : Bytes → StatusAnswer
  pub probe_ok : Bool
  pub apply_result : Option Bytes
  pub arrived : Option Action
  pub image_present : Bool
  pub new_ids : List Bytes
  pub context_done : Bool
  pub app_row : ℕ → Option App
  pub out_of_int32 : ℕ → ℕ

abbrev pub emit : Effect → World → World
emit e w = record w { effects = e ∷ w.effects }

abbrev pub set_worker : Bytes → Worker → World → World
set_worker id worker w = record w { workers = update w.workers id worker }

abbrev pub set_phase : Bytes → Phase → Option Reason → ℕ → World → World
set_phase id phase why now w = record w { rollouts = set_rollout_phase id phase why now w.rollouts }

abbrev pub set_step : Bytes → ℕ → ℕ → ℕ → World → World
set_step id step weight now w = record w {
  rollouts = set_rollout_step id step weight now w.rollouts;
}

abbrev pub add_probe : Bytes → Bool → ℕ → World → World
add_probe id ok now w = record w { rollouts = add_rollout_probe id ok now w.rollouts }

abbrev pub set_status : Bytes → Status → World → World
set_status id status w = record w { deployments = set_deployment_status id status w.deployments }

abbrev pub set_fail_reason : Bytes → Reason → World → World
set_fail_reason id why w = record w { outcomes = set_deploy_fail_reason id why w.outcomes }

abbrev pub set_ready : Bytes → ℕ → World → World
set_ready id now w = record w { outcomes = set_deploy_ready id now w.outcomes }

abbrev pub set_progress : Bytes → ℕ → ℕ → World → World
set_progress id ready want w = record w { outcomes = set_deploy_progress id ready want w.outcomes }
