-- ===== src/Canary/Turns.antt =====
-- What a round of `runCanary` (internal/server/canary.go) makes of a rollout's phase and of the
-- goroutine that drives it.
use luncur.Common.{
  ℕ, suc, ◌≡◌, refl, sym, ap, ◌∙◌, subst, ◌≢◌, inl, inr, Bool, true, false, ◌&&◌, Option, none,
  some, [], ltb, leb, if◌then◌else◌, Bool-cases, Option-cases, get_elem?, List-cases, Bytes,
  update_self,
}
use luncur.Canary.Rows.{map_row}
use luncur.Canary.Deployments.{
  Reason, Strategy, Deployment, AppPolicy, App, by_request, superseded, promote_error, route_error,
}
use luncur.Canary.Rollouts.{
  Phase, Rollout, get_rollout, active_rollout, request_rollout_phase, probed, starting, stepping,
  promote_requested, abort_requested, promoting, done, aborted,
}
use luncur.Canary.World.{
  Effect, Worker, World, Action, Answers, emit, set_worker, set_phase, add_probe, idle, watching,
  running,
}
use luncur.Canary.Sizes.{canary_name, canary_steps}
use luncur.Canary.Handlers.{roll_stable, rollout_target, promote_canary}
use luncur.Canary.Gate.{abort_canary, newer_deploy}
use luncur.Canary.Stepping.{
  record_step, canary_unhealthy, action_phase, request_rollout, state_of, meanwhile,
  set_canary_weight, go_to_step, abort_unless_promoted, promote_or_abort, advance, low_rate,
  hold_over, too_many_failures, judge_step, run_phase, run_round,
}
use luncur.Canary.Phases.{
  phase_of_row, phase_in, phase_of, phase_in-some, row-phase_in, get_rollout-add_rollout_probe,
  phase_in-set_rollout_phase, phase_in-set_rollout_step,
}
use luncur.Canary.Requests.{asked, request_rollout-phase}
use luncur.Canary.Aborting.{abort_canary-AbortedBy}

pub data Turn (pol : AppPolicy) (app : Bytes) (now timeout : ℕ)
    : Phase → Phase → Worker → Type 0 where
  aborts : (p : Phase) → Turn pol app now timeout p aborted idle
  promotes : Turn pol app now timeout promote_requested promoting (watching app now timeout)
  promotes_last : Turn pol app now timeout stepping promoting (watching app now timeout)
  routes : Turn pol app now timeout starting stepping (running pol)
  steps : Turn pol app now timeout stepping stepping (running pol)
  returns_done : Turn pol app now timeout done done idle
  returns_aborted : Turn pol app now timeout aborted aborted idle
  returns_promoting : Turn pol app now timeout promoting promoting idle

-- A turn from `p` that ends in the state `w` of deploy `id`.
abbrev pub Turned : AppPolicy → Answers → App → Bytes → ℕ → Phase → World → Type 0
Turned pol ans a id timeout p w =
    (q : Phase) × (phase_of w id ≡ some q) × Turn pol a.name ans.now timeout p q (w.workers id)

module _ (pol : AppPolicy) (ans : Answers) (a : App) (d : Deployment) (p : Phase) where
  -- A loop that stops to abort.
  pub abort-Turned :
      (timeout : ℕ) (why : Reason) (w : World) (q : Phase)
      → phase_of w d.id ≡ some q
      → w.workers d.id ≡ idle
      → Turned pol ans a d.id timeout p (abort_canary ans a d why w)
  abort-Turned timeout why w q h stopped =
      let (phase, _, workers, _) = abort_canary-AbortedBy ans a d why w q h in
      (
        aborted,
        phase,
        subst (Turn pol a.name ans.now timeout p aborted)
            (sym (ap (λ ws. ws d.id) workers ∙ stopped)) (aborts p),
      )

  -- A request that arrives leaves a recorded rollout recorded, and every goroutine.
  pub meanwhile-phase :
      (w : World) (q : Phase)
      → phase_of w d.id ≡ some q
      → (q' : Phase) × (phase_of (meanwhile ans a w) d.id ≡ some q')
  meanwhile-phase w q h = elim (Option-cases ans.arrived) [
    | inl e ↦ rw e (q, h)
    | inr (action, e) ↦ rw e (elim (request_rollout-phase ans.now a action w d.id q h) [
      | inl same ↦ (q, same)
      | inr new ↦ (asked (action_phase action) q, new)
    ])
  ]

request-workers :
    (now : ℕ) (a : App) (action : Action) (w : World)
    → (state_of (request_rollout now a action w)).workers ≡ w.workers
unfolding request_rollout request_rollout_phase
request-workers now a action w = elim (Option-cases (active_rollout w.rollouts a.id)) [
  | inl e ↦ rw (e, state_of) refl
  | inr (r, e) ↦ rw (e, state_of) refl
]

meanwhile-workers : (ans : Answers) (a : App) (w : World) → (meanwhile ans a w).workers ≡ w.workers
meanwhile-workers ans a w = elim (Option-cases ans.arrived) [
  | inl e ↦ rw e refl
  | inr (action, e) ↦ rw e (request-workers ans.now a action w)
]

module _ (pol : AppPolicy) (ans : Answers) (a : App) (d : Deployment) where
  abbrev Ended : ℕ → Phase → World → Type 0
  Ended timeout p w = Turned pol ans a d.id timeout p w

  promoting_target : (w : World) → phase_of w d.id ≡ some promoting → rollout_target w a d ≡ a.name
  promoting_target w h =
      let (r, found, is_promoting) = row-phase_in w.rollouts d.id promoting h in
      ap
        (λ o. elim o [
          | none ↦ a.name
          | some r ↦ elim r.phase [ starting ↦ canary_name a.name | _ ↦ a.name ]
        ])
        found
      ∙ ap (λ p. elim p [ starting ↦ canary_name a.name | _ ↦ a.name ]) is_promoting

  promoted :
      (o : Option Bytes) (w : World) (q p : Phase)
      → phase_of w d.id ≡ some promoting
      → w.workers d.id ≡ idle
      → Turn pol a.name ans.now
          (w.policies a.id).rollout_timeout
          p
          promoting
          (watching a.name ans.now (w.policies a.id).rollout_timeout)
      → Ended
          (w.policies a.id).rollout_timeout
          p
          (abort_unless_promoted ans a d (roll_stable ans a d o w))
  promoted none w q p h stopped turn = (
    promoting,
    h,
    subst (Turn pol a.name ans.now (w.policies a.id).rollout_timeout p promoting)
        (sym (
          update_self w.workers d.id
            (watching (rollout_target w a d) ans.now (w.policies a.id).rollout_timeout)
          ∙ ap (λ target. watching target ans.now (w.policies a.id).rollout_timeout)
              (promoting_target w h)))
        turn,
  )
  promoted (some err) w q p h stopped turn =
      abort-Turned pol ans a d p (w.policies a.id).rollout_timeout (promote_error err) w promoting h
        stopped

  pub weight-same :
      (strategy : Strategy) (weight : ℕ) (w : World)
      → ((set_canary_weight ans a strategy weight w).rollouts ≡ w.rollouts)
        × ((set_canary_weight ans a strategy weight w).workers ≡ w.workers)
  weight-same strategy weight w = if_same ans.weighted _ _ w
    where
      if_same :
          (b : Bool) (e f : Effect) (w : World)
          → ((if b then emit e w else emit f w).rollouts ≡ w.rollouts)
            × ((if b then emit e w else emit f w).workers ≡ w.workers)
      if_same true e f w = (refl, refl)
      if_same false e f w = (refl, refl)

  routed :
      (o : Option Bytes) (strategy : Strategy) (step weight : ℕ) (w : World) (p q : Phase)
      → phase_of w d.id ≡ some q
      → w.workers d.id ≡ running pol
      → Turn pol a.name ans.now (w.policies a.id).rollout_timeout p stepping (running pol)
      → Ended (w.policies a.id).rollout_timeout p (record_step ans a d strategy step weight o w)
  routed none strategy step weight w p q h runs turn =
      let w' : World = set_canary_weight ans a strategy weight w in
      let (rows, workers) = weight-same strategy weight w in
      let (q', h') =
        meanwhile-phase pol ans a d p w' q (ap (λ rows. phase_in rows d.id) rows ∙ h) in
      (
        stepping,
        phase_in-set_rollout_step d.id step weight ans.now (meanwhile ans a w').rollouts q' h',
        subst (Turn pol a.name ans.now (w.policies a.id).rollout_timeout p stepping)
            (sym (ap (λ ws. ws d.id) (meanwhile-workers ans a w' ∙ workers) ∙ runs)) turn,
      )
  routed (some err) strategy step weight w p q h runs turn =
      let (q', h') = meanwhile-phase pol ans a d p w q h in
      abort-Turned pol ans a d p (w.policies a.id).rollout_timeout (route_error err)
        (set_worker d.id idle (meanwhile ans a w)) q' h'
        (update_self (meanwhile ans a w).workers d.id idle)

  ended :
      (why : Reason) (w : World) (p q : Phase)
      → phase_of w d.id ≡ some q
      → Ended
          (w.policies a.id).rollout_timeout
          p
          (abort_canary ans a d why (set_worker d.id idle w))
  ended why w p q h =
      abort-Turned pol ans a d p (w.policies a.id).rollout_timeout why (set_worker d.id idle w) q h
        (update_self w.workers d.id idle)

  promoting-Turned :
      (w : World) (p : Phase)
      → phase_of w d.id ≡ some p
      → Turn pol a.name ans.now
          (w.policies a.id).rollout_timeout
          p
          promoting
          (watching a.name ans.now (w.policies a.id).rollout_timeout)
      → Ended (w.policies a.id).rollout_timeout p (promote_or_abort ans a d w)
  unfolding promote_or_abort promote_canary
  promoting-Turned w p h turn =
      promoted ans.apply_result (set_phase d.id promoting none ans.now (set_worker d.id idle w)) p p
        (phase_in-set_rollout_phase d.id promoting none ans.now w.rollouts p h)
        (update_self w.workers d.id idle) turn

  advance-Turned :
      (r : Rollout) (w : World)
      → phase_of w d.id ≡ some stepping
      → w.workers d.id ≡ running pol
      → Ended (w.policies a.id).rollout_timeout stepping (advance pol ans a d r w)
  unfolding advance go_to_step
  advance-Turned r w h runs =
      elim (Option-cases (get_elem? (canary_steps pol r.strategy) (suc r.step))) [
        | inl e ↦ rw (e, advance) (promoting-Turned w stepping h promotes_last)
        | inr (weight, e) ↦
            rw (e, advance)
              (routed ans.apply_result r.strategy (suc r.step) weight w stepping stepping h runs
                steps)
      ]

  judge_step-Turned :
      (r : Rollout) (w : World)
      → phase_of w d.id ≡ some stepping
      → w.workers d.id ≡ running pol
      → Ended (w.policies a.id).rollout_timeout stepping (judge_step pol ans a d r w)
  unfolding judge_step
  judge_step-Turned r w h runs = elim (Option-cases (canary_unhealthy ans a)) [
    | inr (why, e) ↦ rw (e, judge_step) (ended why w stepping stepping h)
    | inl e ↦
        rw (e, judge_step)
          (elim (Bool-cases (leb 5 r.probes_total && low_rate pol r)) [
            | inl e1 ↦ rw e1 (ended (too_many_failures pol r) w stepping stepping h)
            | inr e1 ↦ rw e1 (elim (Bool-cases (hold_over pol ans r)) [
              | inr e2 ↦ rw e2 (
                stepping,
                h,
                subst (Turn pol a.name ans.now (w.policies a.id).rollout_timeout stepping stepping)
                    (sym runs) steps,
              )
              | inl e2 ↦ rw e2 (elim (Bool-cases (ltb 0 r.probes_total && low_rate pol r)) [
                | inl e3 ↦ rw e3 (ended (too_many_failures pol r) w stepping stepping h)
                | inr e3 ↦ rw e3 (advance-Turned r w h runs)
              ])
            ])
          ])
  ]

  run_phase-Turned :
      (r : Rollout) (p : Phase) (w : World)
      → canary_steps pol r.strategy ≢ []
      → phase_of w d.id ≡ some p
      → w.workers d.id ≡ running pol
      → Ended (w.policies a.id).rollout_timeout p (run_phase pol ans a d r p w)
  unfolding run_phase go_to_step
  run_phase-Turned r abort_requested w some_step h runs = ended by_request w _ _ h
  run_phase-Turned r promote_requested w some_step h runs = promoting-Turned w _ h promotes
  run_phase-Turned r starting w some_step h runs = elim (List-cases (canary_steps pol r.strategy)) [
    | inl e ↦ elim (some_step e) [ ]
    | inr (weight, rest, e) ↦
        rw (e, run_phase)
          (routed ans.apply_result r.strategy 0 weight w starting starting h runs routes)
  ]
  run_phase-Turned r stepping w some_step h runs =
      let (row, found, is_stepping) = row-phase_in w.rollouts d.id stepping h in
      let found' =
        get_rollout-add_rollout_probe d.id ans.probe_ok ans.now w.rollouts
        ∙ ap (map_row (probed ans.probe_ok ans.now)) found in
      rw (found', run_phase)
        (judge_step-Turned (probed ans.probe_ok ans.now row) (add_probe d.id ans.probe_ok ans.now w)
          (ap phase_of_row found' ∙ ap some is_stepping) runs)
  run_phase-Turned r promoting w some_step h runs = (
    promoting,
    h,
    subst (Turn pol a.name ans.now (w.policies a.id).rollout_timeout promoting promoting)
        (sym (update_self w.workers d.id idle)) returns_promoting,
  )
  run_phase-Turned r done w some_step h runs = (
    done,
    h,
    subst (Turn pol a.name ans.now (w.policies a.id).rollout_timeout done done)
        (sym (update_self w.workers d.id idle)) returns_done,
  )
  run_phase-Turned r aborted w some_step h runs = (
    aborted,
    h,
    subst (Turn pol a.name ans.now (w.policies a.id).rollout_timeout aborted aborted)
        (sym (update_self w.workers d.id idle)) returns_aborted,
  )

-- If `runCanary` drives a deploy with a recorded rollout, and the policy has a step, then a round
-- makes one of the turns of `Turn` of its phase: it goes on with a running loop in the phase
-- stepping, or promotes and leaves the app's own Deployment to the gate, or aborts and stops, or
-- stops in a phase that needs no loop. A promotion starts only when asked for or while stepping.
pub run_round-Turned :
    (pol : AppPolicy) (ans : Answers) (a : App) (d : Deployment) (w : World) (r : Rollout)
    → get_rollout w.rollouts d.id ≡ some r
    → w.workers d.id ≡ running pol
    → canary_steps pol r.strategy ≢ []
    → Turned pol ans a d.id (w.policies a.id).rollout_timeout r.phase (run_round pol ans a d w)
unfolding run_round
run_round-Turned pol ans a d w r found runs some_step =
    let h : phase_of w d.id ≡ some r.phase = phase_in-some w.rollouts d.id r found in
    elim (Option-cases (newer_deploy a d w)) [
      | inr (seq, e) ↦
          rw (found, e, run_round) (ended pol ans a d (superseded seq) w r.phase r.phase h)
      | inl e ↦ rw (found, e, run_round) (run_phase-Turned pol ans a d r r.phase w some_step h runs)
    ]
