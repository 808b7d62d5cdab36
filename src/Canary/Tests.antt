-- ===== src/Canary/Tests.antt =====
-- The theorems on canary deploys at concrete runs.
use luncur.Common.{
  ℕ, ◌≤◌, ◌≡◌, refl, ◌≢◌, true, false, none, some, [], ◌∷◌, arith, Bytes, codes, str_eq,
}
use luncur.Canary.Rows.{find_row}
use luncur.Canary.Deployments.{
  Deployment, max_seq, get_deployment, latest_deployment, deployments_of, list_deployments,
  rollback_row, insert_attempts, create_rollback_deployment, DeployOutcome, AppPolicy, App,
  by_request, canary, deploying, live,
}
use luncur.Canary.Rollouts.{
  Phase, Rollout, get_rollout, active_rollout, stepping, promote_requested, abort_requested,
}
use luncur.Canary.World.{World, Answers, running, unreadable, promote, abort}
use luncur.Canary.Sizes.{ratio_replicas}
use luncur.Canary.Handlers.{previous_live, rollback_target}
use luncur.Canary.Gate.{abort_canary, gate_done}
use luncur.Canary.Stepping.{request_rollout, state_of, set_canary_weight, go_to_step, run_round}
use luncur.Canary.Phases.{phase_of}
use luncur.Canary.Aborting.{abort_canary-AbortedBy, AbortedBy}
use luncur.Canary.Requests.{request_rollout-Asked, accepted, asked}
use luncur.Canary.Turns.{run_round-Turned, Turned}
use luncur.Canary.Promotion.{go_to_step-Overwrites}
use luncur.Canary.Gating.{gate_done-GateDone, GateDone}
use luncur.Canary.Sizing.{ratio_replicas-HasShare, HasShare}
use luncur.Canary.RollingBack.{
  rollback_target-Newest, Newest, Restorable, create_rollback_deployment-FreshRow, FreshRow,
}

abbrev shop : App
shop = record {
  id = 1;
  name = codes "shop";
  kind = [];
  internal = false;
  ejected = false;
  replicas = 2;
  gpu_count = 0;
  volumes = 0;
}

abbrev old_deploy : Deployment
old_deploy = record {
  id = codes "d1";
  app_id = 1;
  seq = 1;
  status = live;
  image_ref = codes "shop:1";
  rolled_back_from = [];
}

abbrev new_deploy : Deployment
new_deploy = record {
  id = codes "d2";
  app_id = 1;
  seq = 2;
  status = deploying;
  image_ref = codes "shop:2";
  rolled_back_from = [];
}

abbrev restoring : Deployment
restoring = record new_deploy { id = codes "d3"; seq = 3; rolled_back_from = codes "d1" }

abbrev policy : AppPolicy
policy = record {
  auto_rollback = true;
  rollout_timeout = 300;
  strategy = canary;
  canary_steps = 10 ∷ 50 ∷ [];
  canary_interval = 120;
  canary_min_success = 99;
  bluegreen_keep = 600;
}

-- The second step, with ten good probes.
abbrev tallied : Phase → Rollout
tallied phase = record {
  deploy_id = codes "d2";
  app_id = 1;
  strategy = canary;
  step = 1;
  weight = 50;
  phase = phase;
  step_started_at = 100;
  probes_ok = 10;
  probes_total = 10;
  note = none;
  updated_at = 100;
}

abbrev no_outcome : DeployOutcome
no_outcome = record { fail_reason = none; ready_at = none; ready = 0; want = 0 }

abbrev world : Phase → World
world phase = record {
  rollouts = tallied phase ∷ [];
  deployments = new_deploy ∷ old_deploy ∷ [];
  outcomes = λ id. no_outcome;
  policies = λ id. policy;
  workers = λ id. running policy;
  effects = [];
}

-- The cluster answers nothing bad, and an abort request arrives.
abbrev answers : Answers
answers = record {
  now = 1000;
  can_watch = true;
  weighted = true;
  status_of = λ name. unreadable;
  probe_ok = true;
  apply_result = none;
  arrived = some abort;
  image_present = true;
  new_ids = codes "d2" ∷ codes "d3" ∷ [];
  context_done = false;
  app_row = λ id. some shop;
  out_of_int32 = λ n. 0;
}

abort_canary-AbortedBy_example :
    AbortedBy shop new_deploy by_request
      (world abort_requested)
      (abort_canary answers shop new_deploy by_request (world abort_requested))
unfolding get_rollout find_row str_eq
abort_canary-AbortedBy_example =
    abort_canary-AbortedBy answers shop new_deploy by_request (world abort_requested)
      abort_requested refl

request_rollout-Asked_example :
    (accepted (request_rollout 1000 shop promote (world stepping)) ≡ true)
    × (phase_of (state_of (request_rollout 1000 shop promote (world stepping))) (codes "d2")
        ≡ some (asked promote_requested stepping))
    × ((other : Bytes)
        → codes "d2" ≢ other
        → phase_of (state_of (request_rollout 1000 shop promote (world stepping))) other
          ≡ phase_of (world stepping) other)
unfolding get_rollout find_row str_eq active_rollout
request_rollout-Asked_example =
    request_rollout-Asked 1000 shop promote (world stepping) (tallied stepping) refl refl

run_round-Turned_example :
    Turned policy answers shop
      (codes "d2")
      300
      stepping
      (run_round policy answers shop new_deploy (world stepping))
unfolding get_rollout find_row str_eq
run_round-Turned_example =
    run_round-Turned policy answers shop new_deploy (world stepping) (tallied stepping) refl refl
      (λ p. cc)

go_to_step-Overwrites_example :
    (accepted (
        request_rollout 1000 shop abort (set_canary_weight answers shop canary 50 (world stepping)))
      ≡ true)
    × (phase_of (go_to_step answers shop new_deploy canary 1 50 (world stepping)) (codes "d2")
        ≡ some stepping)
unfolding get_rollout find_row str_eq active_rollout
go_to_step-Overwrites_example =
    go_to_step-Overwrites policy answers shop new_deploy 1 50 (world stepping) (tallied stepping)
      abort refl refl refl refl refl refl

gate_done-GateDone_example :
    GateDone shop new_deploy abort_requested
      (world abort_requested)
      (gate_done answers shop new_deploy (world abort_requested))
unfolding get_rollout find_row str_eq get_deployment
gate_done-GateDone_example =
    gate_done-GateDone answers shop new_deploy (world abort_requested) (tallied abort_requested)
      new_deploy refl refl

ratio_replicas-HasShare_example :
    HasShare 4 25 (ratio_replicas (λ n. 0) 4 25)
    × ((n : ℕ) → HasShare 4 25 n → ratio_replicas (λ n. 0) 4 25 ≤ n)
ratio_replicas-HasShare_example =
    ratio_replicas-HasShare (λ n. 0) 4 25 (omega arith) (omega arith) (omega arith) (omega arith)

rollback_target-Newest_example :
    Newest 1 (Restorable 1 (codes "d2")) old_deploy 50 (new_deploy ∷ old_deploy ∷ [])
unfolding latest_deployment rollback_target previous_live list_deployments deployments_of str_eq
rollback_target-Newest_example =
    rollback_target-Newest shop (world stepping) new_deploy old_deploy refl refl

create_rollback_deployment-FreshRow_example :
    FreshRow 1
      (codes "shop:1")
      (codes "d1")
      (new_deploy ∷ old_deploy ∷ [])
      (record restoring { image_ref = codes "shop:1" })
      (record restoring { image_ref = codes "shop:1" } ∷ new_deploy ∷ old_deploy ∷ [])
unfolding create_rollback_deployment insert_attempts rollback_row get_deployment find_row str_eq
    max_seq
create_rollback_deployment-FreshRow_example =
    create_rollback_deployment-FreshRow (codes "d2" ∷ codes "d3" ∷ []) 1 (codes "shop:1")
      (codes "d1") (new_deploy ∷ old_deploy ∷ []) (record restoring { image_ref = codes "shop:1" })
      (record restoring { image_ref = codes "shop:1" } ∷ new_deploy ∷ old_deploy ∷ []) refl
