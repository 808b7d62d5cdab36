-- ===== src/Canary/Handlers.antt =====
-- The shared tails of internal/server/rolloutgate.go and internal/server/canary.go, and
-- `rollback` of internal/server/rollback.go. Each call of the store succeeds, except
-- `GetAppByID`; the transcript of `buildLogf`, the audit row and the log are left out.
use luncur.Common.{
  ℕ, Bool, not, ◌&&◌, ◌||◌, Option, none, some, [], ◌∷◌, if◌then◌else◌, Bytes, codes, str_eq,
}
use luncur.Canary.Deployments.{
  Reason, Strategy, Deployment, Deployments, is_live, latest_deployment, list_deployments,
  create_rollback_deployment, App, apply_error, live, failed,
}
use luncur.Canary.Rollouts.{Phase, get_rollout, create_rollout, starting, promoting, done, aborted}
use luncur.Canary.World.{
  World, Answers, emit, set_worker, set_phase, set_status, set_fail_reason, set_ready, apply_app,
  apply_canary, delete_failed_pods, touch_environment, deploy_success, deploy_rolled_back,
  deploy_failed, watching, running, no_deployment, unreadable, sample,
}
use luncur.Canary.Sizes.{canary_name, is_rolling, is_bluegreen, deploy_strategy, canary_replicas}

abbrev pub gated_kind : Bytes → Bool
gated_kind kind =
    str_eq kind []
    || str_eq kind (codes "web")
    || str_eq kind (codes "worker")
    || str_eq kind (codes "model")

-- `rolloutTarget`
abbrev pub rollout_target : World → App → Deployment → Bytes
rollout_target w a d = elim (get_rollout w.rollouts d.id) [
  | none ↦ a.name
  | some r ↦ elim r.phase [ starting ↦ canary_name a.name | _ ↦ a.name ]
]

-- `go s.watchRollout(…)`, with what it reads before its loop.
abbrev pub watch : Answers → App → Deployment → World → World
watch ans a d w =
    set_worker d.id (watching (rollout_target w a d) ans.now (w.policies a.id).rollout_timeout) w

-- `go s.runCanary(…)`, with the policy that it reads before its loop.
abbrev pub run : App → Deployment → World → World
run a d w = set_worker d.id (running (w.policies a.id)) w

unfoldable pub mark_deploy_live : Answers → Deployment → World → World
mark_deploy_live ans d w = emit (deploy_success d.id) (
    emit delete_failed_pods
      (emit touch_environment (set_status d.id live (set_ready d.id ans.now w))))

unfoldable pub after_apply : Answers → App → Deployment → World → World
after_apply ans a d w =
    if not (gated_kind a.kind) || not ans.can_watch
    then mark_deploy_live ans d w
    else elim (ans.status_of (rollout_target w a d)) [
      | no_deployment ↦ mark_deploy_live ans d w
      | unreadable ↦ watch ans a d w
      | sample r ↦ watch ans a d w
    ]

-- What follows `SetRolloutPhase` in `promoteCanary`, by the result of rendering and applying.
abbrev pub roll_stable : Answers → App → Deployment → Option Bytes → World → Option Bytes × World
roll_stable ans a d (some err) w = (some err, w)
roll_stable ans a d none w = (none, watch ans a d (emit (apply_app d.image_ref) w))

-- The error, if any, and the state.
unfoldable pub promote_canary : Answers → App → Deployment → World → Option Bytes × World
promote_canary ans a d w =
    roll_stable ans a d ans.apply_result (set_phase d.id promoting none ans.now w)

abbrev pub starting_replicas : Answers → App → Strategy → ℕ
starting_replicas ans a strategy =
    if is_bluegreen strategy || not ans.weighted
    then canary_replicas ans a strategy 0 ans.weighted
    else 1

-- The switch of `startCanary` on the phase.
unfoldable pub resume_canary :
    Answers → App → Deployment → Strategy → Phase → World → Option Bytes × World
resume_canary ans a d strategy starting w = elim ans.apply_result [
  | some err ↦ (some err, w)
  | none ↦
      (none, watch ans a d (emit (apply_canary (starting_replicas ans a strategy) ans.weighted) w))
]
resume_canary ans a d strategy promoting w = promote_canary ans a d w
resume_canary ans a d strategy done w = (none, w)
resume_canary ans a d strategy aborted w = (none, w)
resume_canary ans a d strategy _ w = (none, run a d w)

unfoldable pub start_canary : Answers → App → Deployment → Strategy → World → Option Bytes × World
start_canary ans a d strategy w = elim (get_rollout w.rollouts d.id) [
  | some r ↦ resume_canary ans a d strategy r.phase w
  | none ↦ elim (create_rollout d.id a.id strategy ans.now w.rollouts) [
    | none ↦ (none, w)
    | some rows ↦ resume_canary ans a d strategy starting (record w { rollouts = rows })
  ]
]

unfoldable pub apply_and_gate : Answers → App → Deployment → Bytes → World → Option Bytes × World
apply_and_gate ans a d image w =
    let strategy = deploy_strategy ans w a d in
    if is_rolling strategy
    then elim ans.apply_result [
      | some err ↦ (some err, w)
      | none ↦ (none, after_apply ans a d (emit (apply_app image) w))
    ]
    else start_canary ans a d strategy w

-- What follows `applyAndGate` in `applyImageDeploy`.
abbrev pub report_apply : Deployment → Option Bytes × World → Option Bytes × World
report_apply d (none, w) = (none, w)
report_apply d (some err, w) =
    (some err, emit (deploy_failed d.id (apply_error err)) (set_status d.id failed w))

unfoldable pub apply_image_deploy :
    Answers → App → Deployment → Bytes → World → Option Bytes × World
apply_image_deploy ans a d image w = report_apply d (apply_and_gate ans a d image w)

-- The first live deployment with an image that is not `latest`.
unfoldable pub previous_live : Bytes → Deployments → Option Deployment
previous_live latest [] = none
previous_live latest (d ∷ history) =
    let rest = previous_live latest history in
    if not (str_eq d.id latest) && is_live d.status && not (str_eq d.image_ref [])
    then some d
    else rest

-- `rollbackTarget` with no deploy id.
unfoldable pub rollback_target : App → World → Option Deployment
rollback_target a w = elim (latest_deployment w.deployments a.id) [
  | none ↦ none
  | some latest ↦ previous_live latest.id (list_deployments w.deployments a.id)
]

-- What `rollback` returns and the state: no deployment where it returns an error.
abbrev pub rolled_back : Deployment → Option Bytes × World → Option Deployment × World
rolled_back d (none, w) = (some d, w)
rolled_back d (some err, w) = (none, w)

unfoldable pub rollback : Answers → App → World → Option Deployment × World
rollback ans a w = if a.ejected then (none, w) else elim (rollback_target a w) [
  | none ↦ (none, w)
  | some target ↦
      if ans.image_present
      then elim (create_rollback_deployment ans.new_ids a.id target.image_ref target.id
          w.deployments) [
            | none ↦ (none, w)
            | some (d, rows) ↦
                rolled_back d
                  (apply_image_deploy ans a d target.image_ref (record w { deployments = rows }))
          ]
      else (none, w)
]

-- What follows `rollback` in `failDeploy`.
abbrev pub announce_rollback : Option Deployment × World → World
announce_rollback (none, w) = w
announce_rollback (some rb, w) = emit (deploy_rolled_back rb.id) w

unfoldable pub fail_deploy : Answers → App → Deployment → Reason → Bool → World → World
fail_deploy ans a d why may_rollback w =
    let w' = emit (deploy_failed d.id why) (set_status d.id failed (set_fail_reason d.id why w)) in
    if not may_rollback || not (str_eq d.rolled_back_from [])
    then w'
    else if (w.policies a.id).auto_rollback
    then elim (ans.app_row a.id) [ none ↦ w' | some cur ↦ announce_rollback (rollback ans cur w') ]
    else w'
