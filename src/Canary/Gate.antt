-- ===== src/Canary/Gate.antt =====
-- `watchRollout` of internal/server/rolloutgate.go, a round of its loop as a function, with the
-- calls that end it in that file and in internal/server/canary.go. A loop that returns leaves its
-- deploy with no goroutine, unless what it called last starts another.
use luncur.Common.{
  ℕ, suc, Bool, true, false, Option, none, some, List, [], ◌∷◌, ◌++◌, if◌then◌else◌, Bytes, codes,
  str_eq,
}
use luncur.Canary.Deployments.{
  canary_aborted, Reason, Deployment, is_deploying, get_deployment, latest_deployment, App,
  app_gone, gate_timeout, gate_superseded, judged,
}
use luncur.Canary.Rollouts.{get_rollout, active_rollout, starting, promoting, done, aborted}
use luncur.Canary.World.{
  World, Answers, emit, set_worker, set_phase, set_progress, ingress_route, traefik_service,
  deployment, service, delete_object, idle, no_deployment, unreadable, sample,
}
use luncur.Canary.Sizes.{canary_name, split_name}
use luncur.Canary.Handlers.{run, mark_deploy_live, fail_deploy}
use luncur.Kube.Judge as Judge

abbrev pub cleanup_canary : App → World → World
cleanup_canary a w = emit (delete_object service (canary_name a.name)) (
    emit (delete_object deployment (canary_name a.name)) (
      emit (delete_object traefik_service (split_name a.name)) (
        emit (delete_object ingress_route (split_name a.name ++ codes "-websecure"))
          (emit (delete_object ingress_route (split_name a.name ++ codes "-web")) w))))

abbrev pub finish_canary : Answers → App → Deployment → World → World
finish_canary ans a d w = set_phase d.id done none ans.now (cleanup_canary a w)

-- Whether the canary objects are still this deploy's.
unfoldable pub owns_canary : App → Deployment → World → Bool
owns_canary a d w = elim (active_rollout w.rollouts a.id) [
  | none ↦ true
  | some r ↦ str_eq r.deploy_id d.id
]

abbrev pub still_deploying : Deployment → World → Bool
still_deploying d w = elim (get_deployment w.deployments d.id) [
  | none ↦ false
  | some cur ↦ is_deploying cur.status
]

unfoldable pub abort_canary : Answers → App → Deployment → Reason → World → World
abort_canary ans a d why w =
    let cleaned = if owns_canary a d w then cleanup_canary a w else w in
    let w' = set_phase d.id aborted (some why) ans.now cleaned in
    if still_deploying d w' then fail_deploy ans a d (canary_aborted why) false w' else w'

unfoldable pub gate_failed : Answers → App → Deployment → Reason → Bool → World → World
gate_failed ans a d why may_rollback w = elim (get_rollout w.rollouts d.id) [
  | none ↦ fail_deploy ans a d why may_rollback w
  | some r ↦ elim r.phase [
    | promoting ↦
        fail_deploy ans a d why may_rollback
          (set_phase d.id aborted (some why) ans.now (cleanup_canary a w))
    | done ↦ fail_deploy ans a d why may_rollback w
    | aborted ↦ fail_deploy ans a d why may_rollback w
    | _ ↦ abort_canary ans a d why w
  ]
]

unfoldable pub gate_done : Answers → App → Deployment → World → World
gate_done ans a d w = elim (get_rollout w.rollouts d.id) [
  | none ↦ mark_deploy_live ans d w
  | some r ↦ elim r.phase [
    | starting ↦ run a d w
    | promoting ↦ mark_deploy_live ans d (finish_canary ans a d w)
    | _ ↦ mark_deploy_live ans d w
  ]
]

-- A newer deployment of the app than this one.
abbrev pub newer_deploy : App → Deployment → World → Option ℕ
newer_deploy a d w = elim (latest_deployment w.deployments a.id) [
  | none ↦ none
  | some latest ↦ if str_eq latest.id d.id then none else some latest.seq
]

unfoldable pub ready_pods : List Judge.RolloutPod → ℕ
ready_pods [] = 0
ready_pods (p ∷ pods) = let rest = ready_pods pods in if p.ready then suc rest else rest

-- The end of a round: `ctx.Done()`, or the wait for the next one.
abbrev pub gate_wait : Answers → App → Deployment → World → World
gate_wait ans a d w =
    if ans.context_done then gate_failed ans a d gate_timeout true (set_worker d.id idle w) else w

-- What follows a sample, by its verdict.
abbrev pub gate_verdict : Answers → App → Deployment → Judge.RolloutVerdict → World → World
gate_verdict ans a d v w =
    if v.is_done then gate_done ans a d (set_worker d.id idle w) else elim v.reason [
      | some why ↦ gate_failed ans a d (judged why) true (set_worker d.id idle w)
      | none ↦ gate_wait ans a d w
    ]

-- A round of the loop of `watchRollout`.
unfoldable pub watch_round : Answers → App → Deployment → Bytes → ℕ → ℕ → World → World
watch_round ans a d target started timeout w = elim (newer_deploy a d w) [
  | some seq ↦ gate_failed ans a d (gate_superseded seq) false (set_worker d.id idle w)
  | none ↦ elim (ans.status_of target) [
    | no_deployment ↦ gate_failed ans a d app_gone false (set_worker d.id idle w)
    | unreadable ↦ gate_wait ans a d w
    | sample r ↦
        gate_verdict ans a d (Judge.judge r ans.now started timeout)
          (set_progress d.id (ready_pods r.pods) r.want w)
  ]
]
