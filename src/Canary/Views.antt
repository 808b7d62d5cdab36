-- ===== src/Canary/Views.antt =====
-- The views of a rollout: `appRolloutView` of internal/server/canary.go and `deployStatusWord` and
-- `failReasonWhy` of internal/server/rolloutgate.go.
use luncur.Common.{
  ℕ, ◌≡◌, refl, subst, inl, inr, Bool, true, ◌&&◌, Option, none, some, List, [], ◌∷◌, arith, ◌==◌,
  Bool-cases, Option-cases,
}
use luncur.Kube.Judge.{oom_killed, crash_looping, image_pull, bad_config, unschedulable, timed_out}
use luncur.Canary.Deployments.{
  Reason, Status, Deployment, get_deployment, App, superseded, gate_superseded, judged,
}
use luncur.Canary.Rollouts.{Rollout, Rollouts, rollout_active, active_rollout}
use luncur.Canary.World.{World}
use luncur.Canary.Sizes.{canary_steps}
use luncur.Canary.Stepping.{success_rate}

pub record RolloutView : Type 0 where
  pub rollout : Rollout
  pub seq : ℕ
  pub steps : List ℕ
  pub success_rate : ℕ
  pub active : Bool

-- The zero number where the deployment is missing.
abbrev pub view_of : App → World → Rollout → RolloutView
view_of a w r = record {
  rollout = r;
  seq = elim (get_deployment w.deployments r.deploy_id) [ none ↦ 0 | some d ↦ d.seq ];
  steps = canary_steps (w.policies a.id) r.strategy;
  success_rate = success_rate r;
  active = rollout_active r.phase;
}

unfoldable pub app_rollout_view : App → World → Option RolloutView
app_rollout_view a w = elim (active_rollout w.rollouts a.id) [
  | none ↦ none
  | some r ↦ some (view_of a w r)
]

unfoldable pub deploy_status_word : Deployment → World → Status
deploy_status_word d w = elim (get_deployment w.deployments d.id) [
  | none ↦ d.status
  | some cur ↦ cur.status
]

-- One constructor for each sentence; a reason's text begins with its constructor's message.
pub data Why : Type 0 where
  over_memory exits_early bad_image bad_reference no_room never_ready newer_deploy_started : Why
  incomplete : Why

unfoldable pub fail_reason_why : Reason → Why
fail_reason_why (judged (oom_killed limit)) = over_memory
fail_reason_why (judged (crash_looping why n)) = exits_early
fail_reason_why (judged (image_pull msg)) = bad_image
fail_reason_why (judged (bad_config msg)) = bad_reference
fail_reason_why (judged (unschedulable msg)) = no_room
fail_reason_why (judged (timed_out secs available want)) = never_ready
fail_reason_why (superseded seq) = newer_deploy_started
fail_reason_why (gate_superseded seq) = newer_deploy_started
fail_reason_why _ = incomplete

active_rollout-active :
    (rows : Rollouts) (app_id : ℕ) (r : Rollout)
    → active_rollout rows app_id ≡ some r
    → (r.app_id ≡ app_id) × (rollout_active r.phase ≡ true)
unfolding active_rollout
active_rollout-active [] app_id r h = cc
active_rollout-active (x ∷ rows) app_id r h =
    elim (Bool-cases (x.app_id == app_id && rollout_active x.phase)) [
      | inr e ↦ active_rollout-active rows app_id r (rw (e, active_rollout) at h)
      | inl e ↦
          let h' = rw (e, active_rollout) at h in
          let same : x ≡ r = cc in
          subst (λ y. (y.app_id ≡ app_id) × (rollout_active y.phase ≡ true)) same
            (ground arith, ground arith)
    ]

-- If an app has a rollout view, then the view is active and its rollout is the app's own.
pub app_rollout_view-active :
    (a : App) (w : World) (v : RolloutView)
    → app_rollout_view a w ≡ some v
    → (v.active ≡ true) × (v.rollout.app_id ≡ a.id) × (v.active ≡ rollout_active v.rollout.phase)
unfolding app_rollout_view
app_rollout_view-active a w v h = elim (Option-cases (active_rollout w.rollouts a.id)) [
  | inl e ↦ let clash = rw (e, app_rollout_view) at h in cc
  | inr (r, e) ↦
      let (mine, active) = active_rollout-active w.rollouts a.id r e in
      let h' = rw (e, app_rollout_view) at h in
      let same : view_of a w r ≡ v = cc in
      subst
        (λ y.
          (y.active ≡ true)
          × (y.rollout.app_id ≡ a.id)
          × (y.active ≡ rollout_active y.rollout.phase))
        same (active, mine, refl)
]
