-- ===== src/Canary/Promotion.antt =====
-- When `runCanary` (internal/server/canary.go) promotes, and what happens to a request that arrives
-- while it routes traffic or while the gate of internal/server/rolloutgate.go still watches the
-- canary track.
use luncur.Common.{ℕ, suc, ◌+◌, ◌≤◌, ◌≡◌, sym, ap, ◌∙◌, subst, ◌⊎◌, true, none, some, get_elem?}
use luncur.Canary.Deployments.{Strategy, Deployment, AppPolicy, App}
use luncur.Canary.Rollouts.{Phase, Rollout, get_rollout, active_rollout, requestable, stepping}
use luncur.Canary.World.{World, Action, Answers}
use luncur.Canary.Sizes.{canary_steps, canary_hold}
use luncur.Canary.Stepping.{
  canary_unhealthy, success_rate, request_rollout, meanwhile, set_canary_weight, record_step,
  go_to_step,
}
use luncur.Canary.Phases.{phase_in, phase_of, phase_in-some, phase_in-set_rollout_step}
use luncur.Canary.Requests.{request_rollout-Asked, accepted}
use luncur.Canary.Turns.{weight-same, meanwhile-phase}

-- What a promotion needs of the tallied row and of what the cluster answers.
abbrev pub Promotable : AppPolicy → Answers → App → Rollout → Type 0
Promotable pol ans a r =
    (canary_unhealthy ans a ≡ none)
    × (r.step_started_at + canary_hold pol r.strategy ≤ ans.now)
    × (get_elem? (canary_steps pol r.strategy) (suc r.step) ≡ none)
    × ((r.probes_total ≡ 0) ⊎ (pol.canary_min_success ≤ success_rate r))

-- A step that is recorded leaves the phase stepping, whatever arrived before it.
record_step-stepping :
    (pol : AppPolicy) (ans : Answers) (a : App) (d : Deployment) (strategy : Strategy)
    (step weight : ℕ) (w : World) (q : Phase)
    → phase_of w d.id ≡ some q
    → phase_of (record_step ans a d strategy step weight none w) d.id ≡ some stepping
record_step-stepping pol ans a d strategy step weight w q h =
    let w' : World = set_canary_weight ans a strategy weight w in
    let (rows, _) = weight-same pol ans a d strategy weight w in
    let (q', h') = meanwhile-phase pol ans a d q w' q (ap (λ rows. phase_in rows d.id) rows ∙ h) in
    phase_in-set_rollout_step d.id step weight ans.now (meanwhile ans a w').rollouts q' h'

-- If a promote or abort request for an active, starting or stepping rollout arrives while
-- `runCanary` routes the traffic of a next step, then the request is accepted, and the step that
-- is recorded next puts the phase back to stepping: the request is lost.
pub go_to_step-Overwrites :
    (pol : AppPolicy) (ans : Answers) (a : App) (d : Deployment) (step weight : ℕ) (w : World)
    (r : Rollout) (action : Action)
    → ans.apply_result ≡ none
    → ans.arrived ≡ some action
    → active_rollout w.rollouts a.id ≡ some r
    → get_rollout w.rollouts r.deploy_id ≡ some r
    → r.deploy_id ≡ d.id
    → requestable r.phase ≡ true
    → (accepted (request_rollout ans.now a action (set_canary_weight ans a r.strategy weight w))
        ≡ true)
      × (phase_of (go_to_step ans a d r.strategy step weight w) d.id ≡ some stepping)
unfolding go_to_step
go_to_step-Overwrites pol ans a d step weight w r action applied arrived active found owner open_ =
    let w' : World = set_canary_weight ans a r.strategy weight w in
    let (rows, _) = weight-same pol ans a d r.strategy weight w in
    let (ok, _, _) =
      request_rollout-Asked ans.now a action w' r
        (ap (λ rows. active_rollout rows a.id) rows ∙ active)
        (ap (λ rows. get_rollout rows r.deploy_id) rows ∙ found) in
    (
      ok ∙ open_,
      subst (λ o. phase_of (record_step ans a d r.strategy step weight o w) d.id ≡ some stepping)
          (sym applied)
          (record_step-stepping pol ans a d r.strategy step weight w r.phase (
            subst (λ id. phase_of w id ≡ some r.phase) owner
              (phase_in-some w.rollouts r.deploy_id r found))),
    )
