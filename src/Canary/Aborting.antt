-- ===== src/Canary/Aborting.antt =====
-- `abortCanary` of internal/server/canary.go, and the calls on the cluster that it makes.
use luncur.Common.{
  inr, inl, Bool-cases, ◌∙◌, ap, ◌≡◌, refl, Bool, true, false, Option, none, some, List, [], ◌∷◌,
  ◌++◌, if◌then◌else◌, Bytes, codes,
}
use luncur.Canary.Handlers.{fail_deploy}
use luncur.Canary.Rows.{map_row, find_row-set_row}
use luncur.Canary.Deployments.{
  canary_aborted, is_deploying, failed, Reason, Status, Deployment, Deployments, deployment_key,
  get_deployment, set_deployment_status, App,
}
use luncur.Canary.Rollouts.{Phase, aborted}
use luncur.Canary.World.{
  Answers, set_status, Effect, World, ingress_route, traefik_service, deployment, service,
  apply_app, delete_object, deploy_failed,
}
use luncur.Canary.Sizes.{canary_name, split_name}
use luncur.Canary.Gate.{abort_canary, owns_canary, still_deploying}
use luncur.Canary.Phases.{phase_in-set_rollout_phase, phase_of}

-- The call changes the app's own Deployment.
abbrev pub changes_stable : Effect → Bool
changes_stable (apply_app image) = true
changes_stable _ = false

-- The call removes what `cleanupCanary` names.
abbrev pub deletions : App → List Effect
deletions a =
    delete_object service (canary_name a.name)
    ∷ delete_object deployment (canary_name a.name)
    ∷ delete_object traefik_service (split_name a.name)
    ∷ delete_object ingress_route (split_name a.name ++ codes "-websecure")
    ∷ delete_object ingress_route (split_name a.name ++ codes "-web")
    ∷ []

pub get_deployment-set_deployment_status :
    (id : Bytes) (status : Status) (rows : Deployments)
    → get_deployment (set_deployment_status id status rows) id
      ≡ map_row (λ d. record d { status = status }) (get_deployment rows id)
unfolding get_deployment set_deployment_status
get_deployment-set_deployment_status id status rows =
    find_row-set_row deployment_key (λ d. record d { status = status }) (λ d. refl) id rows

-- The status that is recorded for a deploy.
abbrev pub status_of_row : Option Deployment → Option Status
status_of_row none = none
status_of_row (some d) = some d.status

abbrev pub deploy_status : World → Bytes → Option Status
deploy_status w id = status_of_row (get_deployment w.deployments id)

-- A rollout is over, its deploy with it: the phase is aborted with the reason, the deploy is not
-- deploying any more, nothing else of it runs, and the calls made are the deletions, if the
-- canary is still the deploy's, and a notification, if it was deploying.
abbrev pub AbortedBy : App → Deployment → Reason → World → World → Type 0
AbortedBy a d why w w' =
    (phase_of w' d.id ≡ some aborted)
    × (still_deploying d w' ≡ false)
    × (w'.workers ≡ w.workers)
    × (w'.effects
        ≡ (if still_deploying d w then deploy_failed d.id (canary_aborted why) ∷ [] else [])
          ++ (if owns_canary a d w then deletions a else [])
          ++ w.effects)

failed-still_deploying :
    (d : Deployment) (w : World) → still_deploying d (set_status d.id failed w) ≡ false
failed-still_deploying d w =
    ap current (get_deployment-set_deployment_status d.id failed w.deployments)
    ∙ over (get_deployment w.deployments d.id)
  where
    current : Option Deployment → Bool
    current o = elim o [ none ↦ false | some cur ↦ is_deploying cur.status ]

    over : (o : Option Deployment) → current (map_row (λ r. record r { status = failed }) o) ≡ false
    over none = refl
    over (some r) = refl

-- If a rollout is recorded for the deploy, `abortCanary` ends it.
pub abort_canary-AbortedBy :
    (ans : Answers) (a : App) (d : Deployment) (why : Reason) (w : World) (q : Phase)
    → phase_of w d.id ≡ some q
    → AbortedBy a d why w (abort_canary ans a d why w)
unfolding abort_canary fail_deploy
abort_canary-AbortedBy ans a d why w q h =
    let phase = phase_in-set_rollout_phase d.id aborted (some why) ans.now w.rollouts q h in
    elim (Bool-cases (owns_canary a d w)) [
      | inl eo ↦ elim (Bool-cases (still_deploying d w)) [
        | inl es ↦ rw (eo, es) (phase, failed-still_deploying d w, refl, refl)
        | inr es ↦ rw (eo, es) (phase, es, refl, refl)
      ]
      | inr eo ↦ elim (Bool-cases (still_deploying d w)) [
        | inl es ↦ rw (eo, es) (phase, failed-still_deploying d w, refl, refl)
        | inr es ↦ rw (eo, es) (phase, es, refl, refl)
      ]
    ]
