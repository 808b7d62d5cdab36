-- ===== src/Sweep/Deciding.antt =====
-- The decision of a sweep's tick, `decideSweep` (internal/server/sweeps.go).
use luncur.Common.{
  ◌+◌, ◌≤◌, ◌≡◌, refl, ap, ◌≢◌, ◌↔◌, ◌⊎◌, inl, inr, Bool, true, false, not, ◌&&◌, ◌||◌, List, [],
  map, Memᴰ, arith, ltb, Bool-cases, length, take, Bytes, ℤ, ltb_ℤ, pos, cut,
}
use luncur.Common.Keep.{keep, mem-keep, mem-map}
use luncur.Sweep.Launching.{
  all_over, launched-Pending, length-launch, slots_of, is_running-true, SomeTrial,
}
use luncur.Sweep.Finished.{done_values-DoneValues, length-done_values, DoneValues}
use luncur.Sweep.Median.{IsFloatOrder, IsMedian, median_of-IsMedian}
use luncur.Sweep.Lowest.{IsLowest, min_done_step-IsLowest}
use luncur.Sweep.Decide.{
  Direction, minimize, maximize, neither, Direction, Metric, Sweep, TrialView, SweepActions,
  is_empty, is_running, free_slots, running_of, pending_of, done_of, done_values, min_done_step,
  median_of, is_worse, pruned_by, decide_sweep, pending, running,
}

module _ {F : Type 0} (mt : Metric F) where
  -- A value above the median is worse where a metric is minimized, one below it where it is
  -- maximized.
  abbrev pub Worse : Direction → F → F → Type 0
  Worse minimize value median = mt.is_less median value ≡ true
  Worse maximize value median = mt.is_less value median ≡ true
  Worse neither value median = ⊥

  -- What makes a running trial worse than the finished ones.
  abbrev pub Falls : Sweep → F → ℤ → TrialView F → Type 0
  Falls sw median least tv =
      (tv.state ≡ running)
      × (tv.found ≡ true)
      × (ltb_ℤ tv.live_step least ≡ false)
      × Worse sw.direction tv.live_value median

  pub record Decided (sw : Sweep) (trials : List (TrialView F)) (a : SweepActions) : Type 0 where
    pub launched : (id : Bytes) → Memᴰ id a.launch → SomeTrial trials id (λ tv. tv.state ≡ pending)
    pub slots :
        (a.launch ≡ [])
        ⊎ (ltb_ℤ sw.parallel (pos (length a.launch + length (running_of trials))) ≡ false)
    pub busy :
        (length a.launch ≡ length (pending_of trials))
        ⊎ (ltb_ℤ (pos (length a.launch + length (running_of trials))) sw.parallel ≡ false)
    pub finished :
        (a.finish ≡ true)
        ↔ ((tv : TrialView F) → Memᴰ tv trials → (tv.state ≢ pending) × (tv.state ≢ running))
    pub values : List F
    pub median : F
    pub least : ℤ
    pub of_done : DoneValues trials values
    pub is_median : 1 ≤ length values → IsMedian mt values median
    pub is_least : IsLowest trials least
    pub cut :
        (id : Bytes)
        → Memᴰ id a.prune ↔ (
            (sw.early_stop ≡ true)
            × (3 ≤ length values)
            × SomeTrial trials id (Falls sw median least))

  three_tests :
      (f l w : Bool) → (not (not f || l) && w ≡ true) ↔ ((f ≡ true) × (l ≡ false) × (w ≡ true))
  three_tests true true w = (λ h. cc, λ (a, b, c). cc)
  three_tests true false w = (λ h. (refl, refl, h), λ (a, b, c). c)
  three_tests false l w = (λ h. cc, λ (a, b, c). cc)

  is_worse-Worse :
      (d : Direction) (value median : F)
      → (is_worse mt d value median ≡ true) ↔ Worse d value median
  is_worse-Worse minimize value median = (λ h. h, λ h. h)
  is_worse-Worse maximize value median = (λ h. h, λ h. h)
  is_worse-Worse neither value median = (λ h. cc, λ h. absurd h)

  abbrev median_in : List (TrialView F) → F
  median_in trials = median_of mt (done_values (done_of trials))

  abbrev least_in : List (TrialView F) → ℤ
  least_in trials = (min_done_step (done_of trials) (true, pos 0)).1

  pruned-Falls :
      (sw : Sweep) (trials : List (TrialView F)) (tv : TrialView F)
      → (Memᴰ tv (running_of trials)
          × (pruned_by mt sw.direction (least_in trials) (median_in trials) tv ≡ true))
        ↔ (Memᴰ tv trials × Falls sw (median_in trials) (least_in trials) tv)
  pruned-Falls sw trials tv =
      let least = (min_done_step (done_of trials) (true, pos 0)).1 in
      let median = median_of mt (done_values (done_of trials)) in
      let (split, join) =
        three_tests tv.found (ltb_ℤ tv.live_step least)
          (is_worse mt sw.direction tv.live_value median) in
      let (out, back) = mem-keep (λ tv. is_running tv.state) trials tv in
      let (worse, worse') = is_worse-Worse sw.direction tv.live_value median in
      (
        λ (m, h).
            let (there, r) = out m in
            let (a, b, c) = split h in (there, (is_running-true tv.state r, a, b, worse c)),
        λ (there, (r, a, b, c)). (back (there, ap is_running r), join (a, b, worse' c)),
      )

  abbrev launch_ids : Sweep → List (TrialView F) → List Bytes
  launch_ids sw trials =
      map (λ tv. tv.id)
        (take (free_slots sw.parallel (length (running_of trials))) (pending_of trials))

  abbrev PruneIds : Sweep → List (TrialView F) → List Bytes → Type 0
  PruneIds sw trials ids =
      (id : Bytes)
      → Memᴰ id ids ↔ (
          (sw.early_stop ≡ true)
          × (3 ≤ length (done_values (done_of trials)))
          × SomeTrial trials id (Falls sw (median_in trials) (least_in trials)))

  Decided-with :
      IsFloatOrder mt
      → (sw : Sweep) (trials : List (TrialView F)) (ids : List Bytes) → PruneIds sw trials ids
      → Decided sw trials (record {
        launch = launch_ids sw trials;
        prune = ids;
        finish = is_empty (pending_of trials) && is_empty (running_of trials);
      })
  Decided-with order sw trials ids cut =
      let n = length (running_of trials) in
      let free = free_slots sw.parallel n in
      let (slots, busy) =
        slots_of sw.parallel n (length (pending_of trials)) (launch_ids sw trials)
          (length-launch free trials) in
      record {
        launched = launched-Pending free trials;
        slots = slots;
        busy = busy;
        finished = all_over trials;
        values = done_values (done_of trials);
        median = median_in trials;
        least = least_in trials;
        of_done = done_values-DoneValues trials;
        is_median = median_of-IsMedian mt order (done_values (done_of trials));
        is_least = min_done_step-IsLowest trials;
        cut = cut;
      }

  abbrev worse_ids : Sweep → List (TrialView F) → List Bytes
  worse_ids sw trials =
      map (λ tv. tv.id)
        (keep
          (pruned_by mt sw.direction (min_done_step (done_of trials) (true, pos 0)).1
            (median_of mt (done_values (done_of trials))))
          (running_of trials))

  worse_ids-PruneIds :
      (sw : Sweep) (trials : List (TrialView F))
      → sw.early_stop ≡ true
      → 3 ≤ length (done_values (done_of trials))
      → PruneIds sw trials (worse_ids sw trials)
  worse_ids-PruneIds sw trials early three id =
      let test =
        pruned_by mt sw.direction (min_done_step (done_of trials) (true, pos 0)).1
          (median_of mt (done_values (done_of trials))) in
      let (out, back) = mem-map (λ tv. tv.id) (keep test (running_of trials)) id in
      (
        λ m.
            let (tv, there, e) = out m in
            let (among, falls) =
              (pruned-Falls sw trials tv).0 ((mem-keep test (running_of trials) tv).0 there) in
            (early, three, (tv, among, e, falls)),
        λ (_, _, (tv, among, e, falls)). back (
          tv,
          (mem-keep test (running_of trials) tv).1 ((pruned-Falls sw trials tv).1 (among, falls)),
          e,
        ),
      )

  -- If a metric is compared as float64 values are, then a tick launches pending trials only, so many
  -- that no more trials run than the sweep's parallelism allows (or none), and it leaves one pending
  -- only if all slots are taken. It finishes the sweep exactly when no trial is pending or running.
  -- It prunes exactly the running trials that are observed, at a step that is not below the lowest
  -- recorded by the done trials with a metric, with a value above the median of their metrics where
  -- the sweep minimizes and below it where it maximizes, and only with early stopping and three such
  -- metrics.
  pub decide_sweep-Decided :
      IsFloatOrder mt
      → (sw : Sweep) (trials : List (TrialView F)) → Decided sw trials (decide_sweep mt sw trials)
  unfolding decide_sweep
  decide_sweep-Decided order sw trials =
      let same = length-done_values trials in
      elim (Bool-cases (not sw.early_stop || ltb (length (done_of trials)) 3)) [
        | inl e ↦ rw e (
            Decided-with order sw trials []
              (λ id. (λ m. elim m [ ], λ (early, three, _). absurd (ground arith))))
        | inr e ↦ rw e (
            Decided-with order sw trials (worse_ids sw trials)
              (worse_ids-PruneIds sw trials (ground arith) (ground arith)))
      ]
