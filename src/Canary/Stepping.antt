-- ===== src/Canary/Stepping.antt =====
-- `runCanary` of internal/server/canary.go, a round of its loop as a function, and `requestRollout`.
-- `ParseCanarySteps` lets no policy have an empty list of steps, on which `steps[0]` would panic.
use luncur.Common.{
  ℕ, suc, ◌+◌, ◌*◌, ◌/◌, Bool, false, ◌&&◌, Option, none, some, List, [], ◌∷◌, ltb, leb,
  if◌then◌else◌, get_elem?, Bytes, codes,
}
use luncur.Canary.Deployments.{
  Reason, Strategy, Deployment, AppPolicy, App, by_request, canary_gone, superseded, promote_error,
  route_error, low_success, canary_restarted,
}
use luncur.Canary.Rollouts.{
  Phase, Rollout, Rollouts, get_rollout, active_rollout, request_rollout_phase, starting, stepping,
  promote_requested, abort_requested,
}
use luncur.Canary.World.{
  World, Action, Answers, emit, set_worker, set_step, add_probe, apply_canary, apply_split, idle,
  no_deployment, unreadable, sample, promote, abort,
}
use luncur.Canary.Sizes.{canary_name, canary_replicas, canary_steps, canary_hold}
use luncur.Canary.Handlers.{promote_canary}
use luncur.Canary.Gate.{abort_canary, newer_deploy}
use luncur.Kube.Judge as Judge

-- The first restarted pod.
unfoldable pub restarted_pod : List Judge.RolloutPod → Option Reason
restarted_pod [] = none
restarted_pod (p ∷ pods) =
    let rest = restarted_pod pods in
    if ltb 0 p.restarts
    then some (canary_restarted p.name (Judge.or_else p.last_terminated (codes "restarted")))
    else rest

abbrev pub canary_unhealthy : Answers → App → Option Reason
canary_unhealthy ans a = elim (ans.status_of (canary_name a.name)) [
  | no_deployment ↦ some canary_gone
  | unreadable ↦ none
  | sample r ↦ restarted_pod r.pods
]

abbrev pub success_rate : Rollout → ℕ
success_rate r = if ltb 0 r.probes_total then r.probes_ok * 100 / r.probes_total else 100

abbrev pub action_phase : Action → Phase
action_phase promote = promote_requested
action_phase abort = abort_requested

abbrev pub with_rollouts : World → Bool × Rollouts → Bool × World
with_rollouts w (ok, rows) = (ok, record w { rollouts = rows })

-- Whether the request is recorded, and the state.
unfoldable pub request_rollout : ℕ → App → Action → World → Bool × World
request_rollout now a action w = elim (active_rollout w.rollouts a.id) [
  | none ↦ (false, w)
  | some r ↦
      with_rollouts w (request_rollout_phase r.deploy_id (action_phase action) now w.rollouts)
]

abbrev pub state_of : Bool × World → World
state_of (ok, w) = w

-- What a request handler of another goroutine does while this one waits for the cluster.
abbrev pub meanwhile : Answers → App → World → World
meanwhile ans a w = elim ans.arrived [
  | none ↦ w
  | some action ↦ state_of (request_rollout ans.now a action w)
]

-- `setCanaryWeight`: the calls on the cluster where they succeed.
abbrev pub set_canary_weight : Answers → App → Strategy → ℕ → World → World
set_canary_weight ans a strategy weight w =
    if ans.weighted
    then emit (apply_split weight) w
    else emit (apply_canary (canary_replicas ans a strategy weight false) false) w

-- What follows `setCanaryWeight`, by its result: the step recorded, or the rollout aborted.
abbrev pub record_step :
    Answers → App → Deployment → Strategy → ℕ → ℕ → Option Bytes → World → World
record_step ans a d strategy step weight (some err) w =
    abort_canary ans a d (route_error err) (set_worker d.id idle (meanwhile ans a w))
record_step ans a d strategy step weight none w =
    set_step d.id step weight ans.now (meanwhile ans a (set_canary_weight ans a strategy weight w))

unfoldable pub go_to_step : Answers → App → Deployment → Strategy → ℕ → ℕ → World → World
go_to_step ans a d strategy step weight w =
    record_step ans a d strategy step weight ans.apply_result w

-- `if err := s.promoteCanary(…); err != nil { s.abortCanary(…) }`
abbrev pub abort_unless_promoted : Answers → App → Deployment → Option Bytes × World → World
abort_unless_promoted ans a d (none, w) = w
abort_unless_promoted ans a d (some err, w) = abort_canary ans a d (promote_error err) w

unfoldable pub promote_or_abort : Answers → App → Deployment → World → World
promote_or_abort ans a d w =
    abort_unless_promoted ans a d (promote_canary ans a d (set_worker d.id idle w))

-- The end of a step whose hold is over: the next step, or promotion.
unfoldable pub advance : AppPolicy → Answers → App → Deployment → Rollout → World → World
advance pol ans a d r w = elim (get_elem? (canary_steps pol r.strategy) (suc r.step)) [
  | some weight ↦ go_to_step ans a d r.strategy (suc r.step) weight w
  | none ↦ promote_or_abort ans a d w
]

abbrev pub low_rate : AppPolicy → Rollout → Bool
low_rate pol r = ltb (success_rate r) pol.canary_min_success

abbrev pub hold_over : AppPolicy → Answers → Rollout → Bool
hold_over pol ans r = leb (r.step_started_at + canary_hold pol r.strategy) ans.now

abbrev pub too_many_failures : AppPolicy → Rollout → Reason
too_many_failures pol r = low_success (success_rate r) pol.canary_min_success r.weight

-- The stepping part of a round, after the probe is tallied.
unfoldable pub judge_step : AppPolicy → Answers → App → Deployment → Rollout → World → World
judge_step pol ans a d r w = elim (canary_unhealthy ans a) [
  | some why ↦ abort_canary ans a d why (set_worker d.id idle w)
  | none ↦
      if leb 5 r.probes_total && low_rate pol r
      then abort_canary ans a d (too_many_failures pol r) (set_worker d.id idle w)
      else if hold_over pol ans r
      then if ltb 0 r.probes_total && low_rate pol r
        then abort_canary ans a d (too_many_failures pol r) (set_worker d.id idle w)
        else advance pol ans a d r w
      else w
]

-- The switch of `runCanary` on the phase.
unfoldable pub run_phase : AppPolicy → Answers → App → Deployment → Rollout → Phase → World → World
run_phase pol ans a d r abort_requested w = abort_canary ans a d by_request (set_worker d.id idle w)
run_phase pol ans a d r promote_requested w = promote_or_abort ans a d w
run_phase pol ans a d r starting w = elim (canary_steps pol r.strategy) [
  | [] ↦ w
  | weight ∷ steps ↦ go_to_step ans a d r.strategy 0 weight w
]
run_phase pol ans a d r stepping w =
    let w' = add_probe d.id ans.probe_ok ans.now w in
    elim (get_rollout w'.rollouts d.id) [ none ↦ w' | some r' ↦ judge_step pol ans a d r' w' ]
run_phase pol ans a d r _ w = set_worker d.id idle w

-- A round of the loop of `runCanary`.
unfoldable pub run_round : AppPolicy → Answers → App → Deployment → World → World
run_round pol ans a d w = elim (get_rollout w.rollouts d.id) [
  | none ↦ set_worker d.id idle w
  | some r ↦ elim (newer_deploy a d w) [
    | some seq ↦ abort_canary ans a d (superseded seq) (set_worker d.id idle w)
    | none ↦ run_phase pol ans a d r r.phase w
  ]
]
