-- ===== src/Canary/Gating.antt =====
-- `gateDone` of internal/server/rolloutgate.go: what a finished rollout of pods makes of a deploy.
use luncur.Common.{◌≡◌, refl, ap, ◌∙◌, none, some, List, [], ◌∷◌, ◌++◌, Bytes, update_self}
use luncur.Canary.Rows.{map_row}
use luncur.Canary.Deployments.{
  Deployment, Deployments, get_deployment, set_deployment_status, App, live,
}
use luncur.Canary.Rollouts.{
  Phase, Rollout, get_rollout, starting, stepping, promote_requested, abort_requested, promoting,
  done, aborted,
}
use luncur.Canary.World.{
  Effect, World, Answers, delete_failed_pods, touch_environment, deploy_success, running,
}
use luncur.Canary.Handlers.{run, mark_deploy_live}
use luncur.Canary.Gate.{finish_canary, gate_done}
use luncur.Canary.Phases.{phase_of, phase_in-some, phase_in-set_rollout_phase}
use luncur.Canary.Aborting.{
  deploy_status, status_of_row, get_deployment-set_deployment_status, deletions,
}

-- What `markDeployLive` calls and notifies.
abbrev pub live_effects : Deployment → List Effect
live_effects d = deploy_success d.id ∷ delete_failed_pods ∷ touch_environment ∷ []

-- The gate's end by the phase: the step machine starts, or the deploy is live, with the canary
-- removed only where it was promoting.
abbrev pub GateDone : App → Deployment → Phase → World → World → Type 0
GateDone a d starting w w' =
    (phase_of w' d.id ≡ some starting)
    × (w'.workers d.id ≡ running (w.policies a.id))
    × (deploy_status w' d.id ≡ deploy_status w d.id)
    × (w'.effects ≡ w.effects)
GateDone a d promoting w w' =
    (phase_of w' d.id ≡ some done)
    × (w'.workers ≡ w.workers)
    × (deploy_status w' d.id ≡ some live)
    × (w'.effects ≡ live_effects d ++ deletions a ++ w.effects)
GateDone a d p w w' =
    (phase_of w' d.id ≡ some p)
    × (w'.workers ≡ w.workers)
    × (deploy_status w' d.id ≡ some live)
    × (w'.effects ≡ live_effects d ++ w.effects)

now_live :
    (rows : Deployments) (id : Bytes) (row : Deployment)
    → get_deployment rows id ≡ some row
    → status_of_row (get_deployment (set_deployment_status id live rows) id) ≡ some live
now_live rows id row found = ap status_of_row (
    get_deployment-set_deployment_status id live rows
    ∙ ap (map_row (λ d. record d { status = live })) found)

-- If a rollout and the deployment are recorded, the gate's end is the one of the rollout's phase.
-- A promote or abort request that came while the canary track was starting is not heeded: the
-- deploy is live, nothing of the canary is removed, and the phase stays as requested.
pub gate_done-GateDone :
    (ans : Answers) (a : App) (d : Deployment) (w : World) (r : Rollout) (row : Deployment)
    → get_rollout w.rollouts d.id ≡ some r
    → get_deployment w.deployments d.id ≡ some row
    → GateDone a d r.phase w (gate_done ans a d w)
unfolding gate_done mark_deploy_live
gate_done-GateDone ans a d w r row found deployed =
    rw (found, gate_done) (by_phase r.phase (phase_in-some w.rollouts d.id r found))
  where
    by_phase :
        (p : Phase)
        → phase_of w d.id ≡ some p
        → GateDone a d p w (elim p [
          | starting ↦ run a d w
          | promoting ↦ mark_deploy_live ans d (finish_canary ans a d w)
          | _ ↦ mark_deploy_live ans d w
        ])
    by_phase starting h = (h, update_self w.workers d.id (running (w.policies a.id)), refl, refl)
    by_phase promoting h = (
      phase_in-set_rollout_phase d.id done none ans.now w.rollouts promoting h,
      refl,
      now_live w.deployments d.id row deployed,
      refl,
    )
    by_phase stepping h = (h, refl, now_live w.deployments d.id row deployed, refl)
    by_phase promote_requested h = (h, refl, now_live w.deployments d.id row deployed, refl)
    by_phase abort_requested h = (h, refl, now_live w.deployments d.id row deployed, refl)
    by_phase done h = (h, refl, now_live w.deployments d.id row deployed, refl)
    by_phase aborted h = (h, refl, now_live w.deployments d.id row deployed, refl)
