-- ===== src/Kube/Verdicts.antt =====
-- `Judge` of internal/kube/rollout.go returns the verdict that the sample calls for.
use luncur.Common.{
  Bool, ℕ, ◌≡◌, refl, sym, ap, subst, ◌↔◌, inl, inr, true, false, Option, none, some, List, [], ◌∷◌,
  Memᴰ, arith, Bool-cases, Option-cases, Bytes, codes, str_eq, str_eq_iff,
}
use luncur.Kube.Judge.{
  is_done, RolloutPod, Rollout, FailReason, failed, or_else, first_line, is_crashing,
  is_misconfigured, is_pull_failing, pod_failure, first_failure, first_unschedulable, out_of_time,
  timeout_failure, judge, unschedulable, timed_out,
}
use luncur.Kube.Signals.{
  Finished, Defaults, OutOfMemory, Crashing, Misconfigured, PullFailing, Shows, Silent,
  FirstFailing, AllSilent, FirstPending, NonePending, Overdue, verdict_of, Classified, failing_here,
  failing_later, pending_here, pending_later, rolled_out, pod_fails, no_node, too_late,
  still_rolling,
}

is_done-Finished : (r : Rollout) → (is_done r ≡ true) ↔ Finished r
unfolding is_done
is_done-Finished r = (λ h. ground arith, λ h. ground arith)

out_of_time-Overdue :
    (r : Rollout) (now started timeout : ℕ)
    → (out_of_time r now started timeout ≡ true) ↔ Overdue r now started timeout
unfolding out_of_time
out_of_time-Overdue r now started timeout = (λ h. ground arith, λ h. ground arith)

or_else-Defaults : (s default : Bytes) → Defaults s default (or_else s default)
or_else-Defaults [] default = (λ ne. elim (ne refl) [ ], λ e. refl)
or_else-Defaults (c ∷ s) default = (λ ne. refl, λ e. cc)

is_oom-OutOfMemory :
    (p : RolloutPod) → (str_eq p.last_terminated (codes "OOMKilled") ≡ true) ↔ OutOfMemory p
is_oom-OutOfMemory p = str_eq_iff p.last_terminated (codes "OOMKilled")

is_crashing-Crashing : (p : RolloutPod) → (is_crashing p ≡ true) ↔ Crashing p
is_crashing-Crashing p =
    let (to, from) = str_eq_iff p.waiting (codes "CrashLoopBackOff") in
    (
      λ h. elim (Bool-cases (str_eq p.waiting (codes "CrashLoopBackOff"))) [
        | inl e ↦ inl (to e)
        | inr e ↦ inr (ground arith)
      ],
      λ c. elim c [ inl e ↦ rw (from e) refl | inr e ↦ ground arith ],
    )

is_misconfigured-Misconfigured : (p : RolloutPod) → (is_misconfigured p ≡ true) ↔ Misconfigured p
is_misconfigured-Misconfigured p =
    let (to, from) = str_eq_iff p.waiting (codes "CreateContainerConfigError") in
    let (to2, from2) = str_eq_iff p.waiting (codes "InvalidImageName") in
    (
      λ h. elim (Bool-cases (str_eq p.waiting (codes "CreateContainerConfigError"))) [
        | inl e ↦ inl (to e)
        | inr e ↦ inr (to2 (ground arith))
      ],
      λ c. elim c [ inl e ↦ rw (from e) refl | inr e ↦ let t = from2 e in ground arith ],
    )

is_pull_failing-PullFailing :
    (now : ℕ) (p : RolloutPod) → (is_pull_failing now p ≡ true) ↔ PullFailing now p
is_pull_failing-PullFailing now p =
    let (to, from) = str_eq_iff p.waiting (codes "ImagePullBackOff") in
    let (to2, from2) = str_eq_iff p.waiting (codes "ErrImagePull") in
    (
      λ h. elim (Bool-cases (str_eq p.waiting (codes "ImagePullBackOff"))) [
        | inl e ↦ (inl (to e), ground arith)
        | inr e ↦ (inr (to2 (ground arith)), ground arith)
      ],
      λ (c, old). elim c [
        | inl e ↦ let t = from e in ground arith
        | inr e ↦ let t = from2 e in ground arith
      ],
    )

-- What a pod's failure, if any, says of it.
abbrev PodSays : ℕ → RolloutPod → Option FailReason → Type 0
PodSays now p none = Silent now p
PodSays now p (some why) = (p.ready ≡ false) × Shows now p why

refuted : {A : Type 0} (b : Bool) → (b ≡ true) ↔ A → b ≡ false → A → ⊥
refuted b (to, from) f a = let t = from a in cc

pod_failure-PodSays : (now : ℕ) (p : RolloutPod) → PodSays now p (pod_failure now p)
unfolding pod_failure
pod_failure-PodSays now p =
    let oom = is_oom-OutOfMemory p in
    let crash = is_crashing-Crashing p in
    let config = is_misconfigured-Misconfigured p in
    let pull = is_pull_failing-PullFailing now p in
    elim (Bool-cases p.ready) [
      | inl r ↦ rw (r, pod_failure) (inl refl)
      | inr r ↦ elim (Bool-cases (str_eq p.last_terminated (codes "OOMKilled"))) [
        | inl o ↦
            rw (r, o, pod_failure)
              (refl, (oom.0 o, or_else-Defaults p.memory_limit (codes "memory")))
        | inr o ↦ elim (Bool-cases (is_crashing p)) [
          | inl c ↦
              rw (r, o, c, pod_failure)
                (
                  refl,
                  (
                    refuted _ oom o,
                    crash.0 c,
                    or_else-Defaults p.last_terminated (codes "container exited"),
                    refl,
                  ),
                )
          | inr c ↦ elim (Bool-cases (is_misconfigured p)) [
            | inl m ↦
                rw (r, o, c, m, pod_failure)
                  (refl, (refuted _ oom o, refuted _ crash c, config.0 m, refl))
            | inr m ↦ elim (Bool-cases (is_pull_failing now p)) [
              | inl l ↦
                  rw (r, o, c, m, l, pod_failure)
                    (refl, (refuted _ oom o, refuted _ crash c, refuted _ config m, pull.0 l, refl))
              | inr l ↦
                  rw (r, o, c, m, l, pod_failure)
                    (inr (refuted _ oom o, refuted _ crash c, refuted _ config m, refuted _ pull l))
            ]
          ]
        ]
      ]
    ]

abbrev PodsSay : ℕ → List RolloutPod → Option FailReason → Type 0
PodsSay now pods none = AllSilent now pods
PodsSay now pods (some why) = FirstFailing now why pods

first_failure-PodsSay :
    (now : ℕ) (pods : List RolloutPod) → PodsSay now pods (first_failure now pods)
unfolding first_failure
first_failure-PodsSay now [] = λ p m. elim m [ ]
first_failure-PodsSay now (p ∷ pods) =
    more (pod_failure now p) (first_failure now pods) (pod_failure-PodSays now p)
      (first_failure-PodsSay now pods)
  where
    more :
        (here rest : Option FailReason)
        → PodSays now p here
        → PodsSay now pods rest
        → PodsSay now (p ∷ pods) (elim here [ none ↦ rest | some why ↦ some why ])
    more (some why) rest (ready, shows) later = failing_here ready shows
    more none (some why) silent later = failing_later silent later
    more none none silent later = λ q m. elim m [
      | Memᴰ.head same ↦ subst (Silent now) (sym same) silent
      | Memᴰ.tail m' ↦ later q m'
    ]

abbrev Pending : List RolloutPod → Option FailReason → Type 0
Pending pods none = NonePending pods
Pending pods (some why) = (line : Bytes) × (why ≡ unschedulable line) × FirstPending line pods

first_unschedulable-Pending : (pods : List RolloutPod) → Pending pods (first_unschedulable pods)
unfolding first_unschedulable
first_unschedulable-Pending [] = λ p m. elim m [ ]
first_unschedulable-Pending (p ∷ pods) =
    more p.unschedulable (first_unschedulable pods) refl (first_unschedulable-Pending pods)
  where
    more :
        (message : Bytes) (rest : Option FailReason)
        → p.unschedulable ≡ message
        → Pending pods rest
        → Pending (p ∷ pods) (elim message [
          | [] ↦ rest
          | c ∷ s ↦ some (unschedulable (first_line (c ∷ s) (codes "no node fits")))
        ])
    more (c ∷ s) rest e later = (
      first_line (c ∷ s) (codes "no node fits"),
      refl,
      pending_here (λ empty. cc) (ap (λ t. first_line t (codes "no node fits")) (sym e)),
    )
    more [] (some why) e (line, same, later) = (line, same, pending_later e later)
    more [] none e later = λ q m. elim m [
      | Memᴰ.head same ↦ subst (λ x. x.unschedulable ≡ []) (sym same) e
      | Memᴰ.tail m' ↦ later q m'
    ]

timeout_failure-Classified :
    (r : Rollout) (now started timeout : ℕ)
    → (Finished r → ⊥)
    → AllSilent now r.pods
    → Overdue r now started timeout
    → Classified r now started timeout (failed (timeout_failure r timeout))
timeout_failure-Classified r now started timeout unfinished silent late =
    told (first_unschedulable r.pods) (first_unschedulable-Pending r.pods)
  where
    told :
        (o : Option FailReason)
        → Pending r.pods o
        → Classified r now started timeout
            (failed (elim o [ some why ↦ why | none ↦ timed_out timeout r.available r.want ]))
    told none none_pending = too_late unfinished silent late none_pending
    told (some why) (line, same, first) =
        subst (λ x. Classified r now started timeout (verdict_of false true (some x))) (sym same)
          (no_node unfinished silent late first)

-- A sample is done where every wanted replica is updated and available and no old pod remains.
-- Otherwise the first unready pod that shows a signal fails it with that signal's reason: out of
-- memory; then CrashLoopBackOff or three restarts; then a bad config or image name; then an image
-- that cannot be pulled a minute after the pod was created. Otherwise an overdue sample fails with
-- the first message of the scheduler, or else as timed out, and any other sample has no verdict.
pub judge-Classified :
    (r : Rollout) (now started timeout : ℕ)
    → Classified r now started timeout (judge r now started timeout)
unfolding judge
judge-Classified r now started timeout =
    let done_iff = is_done-Finished r in
    let late_iff = out_of_time-Overdue r now started timeout in
    let says = first_failure-PodsSay now r.pods in
    elim (Bool-cases (is_done r)) [
      | inl e ↦ rw (e, judge) (rolled_out (done_iff.0 e))
      | inr e ↦
          let unfinished : Finished r → ⊥ = refuted (is_done r) done_iff e in
          elim (Option-cases (first_failure now r.pods)) [
            | inr (why, f) ↦
                rw (e, f, judge) (pod_fails unfinished (subst (PodsSay now r.pods) f says))
            | inl f ↦
                let silent : AllSilent now r.pods = subst (PodsSay now r.pods) f says in
                elim (Bool-cases (out_of_time r now started timeout)) [
                  | inl t ↦
                      rw (e, f, t, judge)
                        (timeout_failure-Classified r now started timeout unfinished silent
                          (late_iff.0 t))
                  | inr t ↦
                      rw (e, f, t, judge) (still_rolling unfinished silent (refuted _ late_iff t))
                ]
          ]
    ]
