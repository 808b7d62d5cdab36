-- ===== src/Sweep/Finished.antt =====
-- The finished trials of a sweep in `decideSweep` (internal/server/sweeps.go).
use luncur.Common.{
  refl, sym, suc, subst, ap, inr, Bool-cases, Option, ◌∷◌, inl, ◌&&◌, some, Option-cases, none,
  length, [], Bool, true, ◌≢◌, List, ◌≡◌,
}
use luncur.Sweep.Decide.{
  onto_value, has_metric, is_done, TrialState, done_of, done_values, TrialView, pending, running,
  done, failed, pruned,
}

module _ {F : Type 0} where
  -- A trial that is done and has a metric.
  abbrev pub Counts : TrialView F → Type 0
  Counts tv = (tv.state ≡ done) × (tv.metric_value ≢ none)

  -- The metrics of the trials that count, in order.
  pub data DoneValues : List (TrialView F) → List F → Type 0 where
    no_trials : DoneValues [] []
    counted :
        {tv : TrialView F} {trials : List (TrialView F)} {v : F} {vs : List F}
        → tv.state ≡ done
        → tv.metric_value ≡ some v
        → DoneValues trials vs
        → DoneValues (tv ∷ trials) (v ∷ vs)
    left_out :
        {tv : TrialView F} {trials : List (TrialView F)} {vs : List F}
        → (Counts tv → ⊥)
        → DoneValues trials vs
        → DoneValues (tv ∷ trials) vs

  abbrev pub counts : TrialView F → Bool
  counts tv = is_done tv.state && has_metric tv.metric_value

  pub counts-Counts : (tv : TrialView F) → counts tv ≡ true → Counts tv
  counts-Counts tv h = read tv.state tv.metric_value h
    where
      read :
          (s : TrialState) (o : Option F)
          → is_done s && has_metric o ≡ true
          → (s ≡ done) × (o ≢ none)
      read done (some v) h = (refl, λ p. cc)
      read done none h = cc
      read pending o h = cc
      read running o h = cc
      read failed o h = cc
      read pruned o h = cc

  pub Counts-counts : (tv : TrialView F) → Counts tv → counts tv ≡ true
  Counts-counts tv (is_d, ne) = elim (Option-cases tv.metric_value) [
    | inl e ↦ elim (ne e) [ ]
    | inr (v, e) ↦ rw (is_d, e) refl
  ]

  pub done_values-DoneValues :
      (trials : List (TrialView F)) → DoneValues trials (done_values (done_of trials))
  done_values-DoneValues [] = no_trials
  done_values-DoneValues (tv ∷ trials) =
      let ih = done_values-DoneValues trials in
      elim (Bool-cases (counts tv)) [
        | inl e ↦
            let (is_d, ne) = counts-Counts tv e in
            elim (Option-cases tv.metric_value) [
              | inl f ↦ elim (ne f) [ ]
              | inr (v, f) ↦ rw e (
                  subst
                    (λ o. DoneValues (tv ∷ trials) (onto_value o (done_values (done_of trials))))
                    (sym f) (counted is_d f ih))
            ]
        | inr e ↦ rw e (left_out (λ c. let t = Counts-counts tv c in cc) ih)
      ]

  pub length-done_values :
      (trials : List (TrialView F))
      → length (done_values (done_of trials)) ≡ length (done_of trials)
  length-done_values [] = refl
  length-done_values (tv ∷ trials) =
      let ih = length-done_values trials in
      elim (Bool-cases (counts tv)) [
        | inl e ↦
            let (is_d, ne) = counts-Counts tv e in
            elim (Option-cases tv.metric_value) [
              | inl f ↦ elim (ne f) [ ]
              | inr (v, f) ↦ rw (e, f) (ap suc ih)
            ]
        | inr e ↦ rw e ih
      ]
