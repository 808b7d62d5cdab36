-- ===== src/Canary/Requests.antt =====
-- `requestRollout` of internal/server/canary.go: promote and abort requests.
use luncur.Common.{
  ℕ, ◌≡◌, refl, sym, ap, ◌∙◌, subst, ◌≢◌, ◌⊎◌, inl, inr, Bool, false, none, some, if◌then◌else◌,
  Option-cases, Bytes, str_eq_cases,
}
use luncur.Canary.Rows.{map_row}
use luncur.Canary.Deployments.{App}
use luncur.Canary.Rollouts.{
  Phase, Rollout, get_rollout, active_rollout, requestable, requested, request_rollout_phase,
  starting, stepping, promote_requested, abort_requested, promoting, done, aborted,
}
use luncur.Canary.World.{World, Action}
use luncur.Canary.Stepping.{action_phase, request_rollout, state_of}
use luncur.Canary.Phases.{
  phase_of_row, phase_of, row-phase_in, get_rollout-request, get_rollout-request_ne,
}

-- What a request makes of the phase of the app's active rollout.
unfoldable pub asked : Phase → Phase → Phase
asked p starting = p
asked p stepping = p
asked p q = q

requested-asked : (p : Phase) (now : ℕ) (r : Rollout) → (requested p now r).phase ≡ asked p r.phase
unfolding asked
requested-asked p now r = read r.phase refl
  where
    At : Phase → Type 0
    At q = (if requestable q then record r { phase = p; updated_at = now } else r).phase ≡ asked p q

    read : (q : Phase) → r.phase ≡ q → At r.phase
    read starting e = subst At (sym e) refl
    read stepping e = subst At (sym e) refl
    read promote_requested e = subst At (sym e) e
    read abort_requested e = subst At (sym e) e
    read promoting e = subst At (sym e) e
    read done e = subst At (sym e) e
    read aborted e = subst At (sym e) e

-- After a request, a recorded rollout has its phase or, if it was the active one, the asked one.
pub request_rollout-phase :
    (now : ℕ) (a : App) (action : Action) (w : World) (id : Bytes) (q : Phase)
    → phase_of w id ≡ some q
    → (phase_of (state_of (request_rollout now a action w)) id ≡ some q)
      ⊎ (phase_of (state_of (request_rollout now a action w)) id
          ≡ some (asked (action_phase action) q))
unfolding request_rollout request_rollout_phase
request_rollout-phase now a action w id q h = elim (Option-cases (active_rollout w.rollouts a.id)) [
  | inl e ↦ rw (e, state_of) (inl h)
  | inr (r, e) ↦ elim (str_eq_cases r.deploy_id id) [
    | inl (_, p) ↦
        let (row, found, is_q) = row-phase_in w.rollouts id q h in
        rw (e, state_of, p)
          (inr (
            ap phase_of_row (
              get_rollout-request id (action_phase action) now w.rollouts
              ∙ ap (map_row (requested (action_phase action) now)) found)
            ∙ ap some (
                requested-asked (action_phase action) now row
                ∙ ap (asked (action_phase action)) is_q)))
    | inr (_, p) ↦
        rw (e, state_of)
          (inl (
            ap phase_of_row
              (get_rollout-request_ne r.deploy_id id (action_phase action) now w.rollouts p)
            ∙ h))
  ]
]

-- Whether the handler answers that the request is accepted.
abbrev pub accepted : Bool × World → Bool
accepted (ok, w) = ok

-- If the app has an active rollout, its row the one that its deploy id finds, then a request is
-- accepted exactly where that rollout is starting or stepping, it turns a starting or stepping
-- phase into the requested one and leaves any other, and it changes no other rollout's phase.
pub request_rollout-Asked :
    (now : ℕ) (a : App) (action : Action) (w : World) (r : Rollout)
    → active_rollout w.rollouts a.id ≡ some r
    → get_rollout w.rollouts r.deploy_id ≡ some r
    → (accepted (request_rollout now a action w) ≡ requestable r.phase)
      × (phase_of (state_of (request_rollout now a action w)) r.deploy_id
          ≡ some (asked (action_phase action) r.phase))
      × ((other : Bytes)
          → r.deploy_id ≢ other
          → phase_of (state_of (request_rollout now a action w)) other ≡ phase_of w other)
unfolding request_rollout request_rollout_phase
request_rollout-Asked now a action w r active found =
    rw (active, state_of, accepted)
      (
        ap (λ o. elim o [ none ↦ false | some row ↦ requestable row.phase ]) found,
        ap phase_of_row (
              get_rollout-request r.deploy_id (action_phase action) now w.rollouts
              ∙ ap (map_row (requested (action_phase action) now)) found)
            ∙ ap some (requested-asked (action_phase action) now r),
        λ other p.
            ap phase_of_row
              (get_rollout-request_ne r.deploy_id other (action_phase action) now w.rollouts p),
      )
