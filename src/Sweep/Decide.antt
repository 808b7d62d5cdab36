-- ===== src/Sweep/Decide.antt =====
-- internal/server/sweeps.go: `decideSweep` and `medianOf`. A metric is a float64, whose type, order,
-- test for NaN and average are parameters.
use luncur.Common.{
  ℕ, ◌-◌, ◌/◌, ◌%◌, Bool, true, false, not, ◌&&◌, ◌||◌, Option, none, some, List, [], ◌∷◌, map, ltb,
  ◌==◌, if◌then◌else◌, length, get_or, take, Bytes, ℤ, ltb_ℤ, pos, negsuc,
}
use luncur.Common.Keep.{keep}

-- `a < b`, `a != a` and `(a + b) / 2`
pub record Metric (F : Type 0) : Type 0 where
  pub is_less : F → F → Bool
  pub is_nan : F → Bool
  pub average : F → F → F
  pub zero_metric : F

pub data TrialState : Type 0 where
  pending running done failed pruned : TrialState

pub data Direction : Type 0 where
  minimize maximize neither : Direction

-- The fields of store.Sweep that are read.
pub record Sweep : Type 0 where
  pub parallel : ℤ
  pub early_stop : Bool
  pub direction : Direction

-- store.SweepTrial with sweep.Obs, what is observed of its run.
pub record TrialView (F : Type 0) : Type 0 where
  pub id : Bytes
  pub state : TrialState
  pub metric_value : Option F
  pub metric_step : Option ℤ
  pub found : Bool
  pub live_value : F
  pub live_step : ℤ

pub record SweepActions : Type 0 where
  pub launch : List Bytes
  pub prune : List Bytes
  pub finish : Bool

abbrev pub is_empty {ℓ} : {A : Type ℓ} → List A → Bool
is_empty [] = true
is_empty (x ∷ xs) = false

abbrev pub is_running : TrialState → Bool
is_running pending = false
is_running running = true
is_running done = false
is_running failed = false
is_running pruned = false

abbrev pub is_pending : TrialState → Bool
is_pending pending = true
is_pending running = false
is_pending done = false
is_pending failed = false
is_pending pruned = false

abbrev pub is_done : TrialState → Bool
is_done pending = false
is_done running = false
is_done done = true
is_done failed = false
is_done pruned = false

-- `sw.Parallel - len(running)`, as a number of slots.
abbrev pub free_slots : ℤ → ℕ → ℕ
free_slots (pos parallel) n = parallel - n
free_slots (negsuc parallel) n = 0

-- `minDoneStep` with `first`.
abbrev pub lower_step : Option ℤ → Bool × ℤ → Bool × ℤ
lower_step none (first, least) = (first, least)
lower_step (some step) (first, least) =
    if first || ltb_ℤ step least then (false, step) else (first, least)

module _ {F : Type 0} where
  abbrev pub has_metric : Option F → Bool
  has_metric none = false
  has_metric (some v) = true

  abbrev pub running_of : List (TrialView F) → List (TrialView F)
  running_of trials = keep (λ tv. is_running tv.state) trials

  abbrev pub pending_of : List (TrialView F) → List (TrialView F)
  pending_of trials = keep (λ tv. is_pending tv.state) trials

  abbrev pub done_of : List (TrialView F) → List (TrialView F)
  done_of trials = keep (λ tv. is_done tv.state && has_metric tv.metric_value) trials

  abbrev pub onto_value : Option F → List F → List F
  onto_value none vs = vs
  onto_value (some v) vs = v ∷ vs

  abbrev pub done_values : List (TrialView F) → List F
  done_values [] = []
  done_values (tv ∷ tvs) = onto_value tv.metric_value (done_values tvs)

  unfoldable pub min_done_step : List (TrialView F) → Bool × ℤ → Bool × ℤ
  min_done_step [] so_far = so_far
  min_done_step (tv ∷ tvs) so_far = min_done_step tvs (lower_step tv.metric_step so_far)

  module _ (mt : Metric F) where
    -- The order of `sort.Float64s`: a NaN comes before any other value.
    abbrev pub sorts_before : F → F → Bool
    sorts_before a b = mt.is_less a b || (mt.is_nan a && not (mt.is_nan b))

    -- `sort.Float64s`
    abbrev pub insert_value : F → List F → List F
    insert_value v [] = v ∷ []
    insert_value v (w ∷ ws) =
        let rest = insert_value v ws in if sorts_before w v then w ∷ rest else v ∷ w ∷ ws

    abbrev pub sort_values : List F → List F
    sort_values [] = []
    sort_values (v ∷ vs) = insert_value v (sort_values vs)

    abbrev pub middle : ℕ → List F → F
    middle n sorted =
        if n % 2 == 1
        then get_or sorted (n / 2) mt.zero_metric
        else mt.average (get_or sorted (n / 2 - 1) mt.zero_metric)
            (get_or sorted (n / 2) mt.zero_metric)

    unfoldable pub median_of : List F → F
    median_of vals = middle (length vals) (sort_values vals)

    abbrev pub is_worse : Direction → F → F → Bool
    is_worse minimize value median = mt.is_less median value
    is_worse maximize value median = mt.is_less value median
    is_worse neither value median = false

    -- A running trial that the loop at the end prunes.
    abbrev pub pruned_by : Direction → ℤ → F → TrialView F → Bool
    pruned_by direction least median tv =
        not (not tv.found || ltb_ℤ tv.live_step least) && is_worse direction tv.live_value median

    unfoldable pub decide_sweep : Sweep → List (TrialView F) → SweepActions
    decide_sweep sw trials =
        let running = running_of trials in
        let waiting = pending_of trials in
        let finished = done_of trials in
        let launch = map (λ tv. tv.id) (take (free_slots sw.parallel (length running)) waiting) in
        let finish = is_empty waiting && is_empty running in
        if not sw.early_stop || ltb (length finished) 3
        then record { launch = launch; prune = []; finish = finish }
        else record {
          launch = launch;
          prune =
              map (λ tv. tv.id)
                (keep
                  (pruned_by sw.direction (min_done_step finished (true, pos 0)).1
                    (median_of (done_values finished)))
                  running);
          finish = finish;
        }
