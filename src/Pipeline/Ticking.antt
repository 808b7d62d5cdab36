-- ===== src/Pipeline/Ticking.antt =====
-- The decision of internal/server/pipelines.go on one tick of a run.
use luncur.Common.{
  ◌≡◌, refl, sym, ap, ◌∙◌, subst, ◌≢◌, ◌↔◌, ◌⊎◌, inl, inr, Bool, true, false, not, ◌&&◌, Option,
  none, some, List, [], ◌∷◌, Memᴰ, arith, if◌then◌else◌, Bool-cases, Option-cases, Bytes,
}
use luncur.Pipeline.Step.{Spec, is_app}
use luncur.Pipeline.Compile.{contains_str}
use luncur.Pipeline.Tick.{
  StepState, StepView, PipeActions, is_pending, is_running, is_done_state, by_name, all_needs_done,
  skip_all, in_budget, run_failed, launches, launch_all, any_active, all_done, actions_for,
  decide_pipeline_run, pending, running, done, failed, skipped,
}

-- Each step that is named has a row that is done.
abbrev pub NeedsDone : (Bytes → Option StepView) → List Bytes → Type 0
NeedsDone views needs =
    (n : Bytes) → Memᴰ n needs → (v : StepView) × (views n ≡ some v) × (v.row.state ≡ done)

-- A pending step whose needs are done and that is not to be skipped, or a running app step whose
-- run has failed and that has an attempt left.
abbrev pub Launchable : List StepView → List Bytes → StepView → Type 0
Launchable views skip v =
    ((v.row.state ≡ pending)
      × (contains_str skip v.row.id ≡ false)
      × NeedsDone (by_name views) v.spec.needs)
    ⊎ ((v.row.state ≡ running)
        × (is_app v.spec.kind ≡ true)
        × (run_failed v.run ≡ true)
        × (in_budget v ≡ true))

is_done_state-done : (s : StepState) → is_done_state s ≡ true → s ≡ done
is_done_state-done done h = refl
is_done_state-done pending h = cc
is_done_state-done running h = cc
is_done_state-done failed h = cc
is_done_state-done skipped h = cc

all_needs_done-NeedsDone :
    (views : Bytes → Option StepView) (needs : List Bytes)
    → all_needs_done views needs ≡ true
    → NeedsDone views needs
unfolding all_needs_done
all_needs_done-NeedsDone views [] h n m = elim m [ ]
all_needs_done-NeedsDone views (x ∷ needs) h n m = elim (Option-cases (views x)) [
  | inl e ↦ let clash = rw (e, all_needs_done) at h in cc
  | inr (v, e) ↦
      let both : (is_done_state v.row.state && all_needs_done views needs) ≡ true =
        rw (e, all_needs_done) at h in
      elim m [
        | Memᴰ.head same ↦ (v, ap views same ∙ e, is_done_state-done v.row.state (ground arith))
        | Memᴰ.tail m' ↦ all_needs_done-NeedsDone views needs (ground arith) n m'
      ]
]

NeedsDone-all_needs_done :
    (views : Bytes → Option StepView) (needs : List Bytes)
    → NeedsDone views needs
    → all_needs_done views needs ≡ true
unfolding all_needs_done
NeedsDone-all_needs_done views [] h = refl
NeedsDone-all_needs_done views (x ∷ needs) h =
    let (v, e, s) = h x (Memᴰ.head refl) in
    rw (e, all_needs_done)
      (subst (λ t. (is_done_state t && all_needs_done views needs) ≡ true) (sym s)
        (NeedsDone-all_needs_done views needs (λ n m. h n (Memᴰ.tail m))))

launches-Launchable :
    (views : List StepView) (skip : List Bytes) (v : StepView)
    → (launches (by_name views) skip v ≡ true) ↔ Launchable views skip v
launches-Launchable views skip v = by_state v.row.state refl
  where
    At : StepState → Type 0
    At s =
        (elim s [
          | pending ↦
              not (contains_str skip v.row.id) && all_needs_done (by_name views) v.spec.needs
          | running ↦ is_app v.spec.kind && run_failed v.run && in_budget v
          | _ ↦ false
        ]
          ≡ true)
        ↔ Launchable views skip v

    by_state : (s : StepState) → v.row.state ≡ s → At s
    by_state pending e = (
      λ h.
          inl
            (e, ground arith, all_needs_done-NeedsDone (by_name views) v.spec.needs (ground arith)),
      λ l. elim l [
        | inl (_, c, n) ↦
            let t = NeedsDone-all_needs_done (by_name views) v.spec.needs n in ground arith
        | inr (r, _, _, _) ↦ cc
      ],
    )
    by_state running e = (
      λ h. inr (e, ground arith, ground arith, ground arith),
      λ l. elim l [ inl (r, _, _) ↦ cc | inr (_, a, b, c) ↦ ground arith ],
    )
    by_state done e = (λ h. cc, λ l. elim l [ inl (r, _, _) ↦ cc | inr (r, _, _, _) ↦ cc ])
    by_state failed e = (λ h. cc, λ l. elim l [ inl (r, _, _) ↦ cc | inr (r, _, _, _) ↦ cc ])
    by_state skipped e = (λ h. cc, λ l. elim l [ inl (r, _, _) ↦ cc | inr (r, _, _, _) ↦ cc ])

-- The ids that are launched are those of the launchable views.
launch_all-Launchable :
    (all : List StepView) (skip : List Bytes) (views : List StepView) (id : Bytes)
    → Memᴰ id (launch_all (by_name all) skip views)
      ↔ ((v : StepView) × Memᴰ v views × (id ≡ v.row.id) × Launchable all skip v)
unfolding launch_all
launch_all-Launchable all skip [] id = (λ m. elim m [ ], λ (v, m, _, _). elim m [ ])
launch_all-Launchable all skip (x ∷ views) id =
    let (fwd, bwd) = launch_all-Launchable all skip views id in
    let (to, from) = launches-Launchable all skip x in
    elim (Bool-cases (launches (by_name all) skip x)) [
      | inl e ↦
          rw (e, launch_all)
            (
              λ m. elim m [
                | Memᴰ.head same ↦ (x, Memᴰ.head refl, same, to e)
                | Memᴰ.tail m' ↦ let (v, k, i, l) = fwd m' in (v, Memᴰ.tail k, i, l)
              ],
              λ (v, m, i, l). elim m [
                | Memᴰ.head same ↦ Memᴰ.head (i ∙ ap (λ y. y.row.id) same)
                | Memᴰ.tail m' ↦ Memᴰ.tail (bwd (v, m', i, l))
              ],
            )
      | inr e ↦
          rw (e, launch_all)
            (
              λ m. let (v, k, i, l) = fwd m in (v, Memᴰ.tail k, i, l),
              λ (v, m, i, l). elim m [
                | Memᴰ.head same ↦ let t = from (subst (Launchable all skip) same l) in cc
                | Memᴰ.tail m' ↦ bwd (v, m', i, l)
              ],
            )
    ]

any_active-none :
    (views : List StepView) (v : StepView)
    → any_active views ≡ false
    → Memᴰ v views
    → (v.row.state ≢ pending) × (v.row.state ≢ running)
unfolding any_active
any_active-none [] v h m = elim m [ ]
any_active-none (x ∷ views) v h (Memᴰ.head same) = (
  λ p.
      let t : is_pending x.row.state ≡ true =
        ap (λ y. is_pending y.row.state) (sym same) ∙ ap is_pending p in
      ground arith,
  λ p.
      let t : is_running x.row.state ≡ true =
        ap (λ y. is_running y.row.state) (sym same) ∙ ap is_running p in
      ground arith,
)
any_active-none (x ∷ views) v h (Memᴰ.tail m) = any_active-none views v (ground arith) m

all_done-done :
    (views : List StepView) (v : StepView)
    → all_done views ≡ true
    → Memᴰ v views
    → v.row.state ≡ done
unfolding all_done
all_done-done [] v h m = elim m [ ]
all_done-done (x ∷ views) v h (Memᴰ.head same) =
    ap (λ y. y.row.state) same ∙ is_done_state-done x.row.state (ground arith)
all_done-done (x ∷ views) v h (Memᴰ.tail m) = all_done-done views v (ground arith) m

-- What the actions of a tick promise of the views.
abbrev pub Decided : List StepView → PipeActions → Type 0
Decided views acts =
    ((id : Bytes)
      → Memᴰ id acts.launch
        ↔ ((v : StepView) × Memᴰ v views × (id ≡ v.row.id) × Launchable views acts.skip v))
    × ((b : Bool)
        → acts.finish ≡ some b
        → (v : StepView) → Memᴰ v views
        → (v.row.state ≢ pending) × (v.row.state ≢ running))
    × (acts.finish ≡ some true → (v : StepView) → Memᴰ v views → v.row.state ≡ done)

finish_rests :
    (active finished b : Bool)
    → (if active then none else some finished) ≡ some b
    → (active ≡ false) × (finished ≡ b)
finish_rests true finished b h = cc
finish_rests false finished b h = (refl, cc)

-- If a tick of a run decides, then it launches exactly the launchable steps: the pending ones whose
-- needs are all done and that it does not skip, and the running app steps whose run failed with an
-- attempt left. It finishes the run only when no step is pending or running, and as done only when
-- every step is done.
pub decide_pipeline_run-Decided :
    (spec : Spec) (views : List StepView) (acts : PipeActions)
    → decide_pipeline_run spec views ≡ some acts
    → Decided views acts
unfolding decide_pipeline_run
decide_pipeline_run-Decided spec views acts h =
    elim (Option-cases (skip_all spec (by_name views) views [])) [
      | inl e ↦ let clash = rw (e, decide_pipeline_run) at h in cc
      | inr (skip, e) ↦
          let h' = rw (e, decide_pipeline_run) at h in
          let same : actions_for views skip ≡ acts = cc in
          subst (Decided views) same (
            launch_all-Launchable views skip views,
            λ b f v m.
                let (rest, _) = finish_rests (any_active views) (all_done views) b f in
                any_active-none views v rest m,
            λ f v m.
                let (_, finished) = finish_rests (any_active views) (all_done views) true f in
                all_done-done views v finished m,
          )
    ]
