-- ===== src/Sweep/Tests.antt =====
-- The theorems on sweeps at concrete spaces and trials; a metric is a natural number.
use luncur.Common.{
  ℕ, ◌+◌, ◌/◌, ◌≤◌, ◌≡◌, refl, true, false, none, some, List, [], ◌∷◌, map, arith, ltb, leb, length,
  take, Bytes, codes, str_eq, str_lt, insert_sorted, sort_strings, pos, itoa_nat,
}
use luncur.Common.Fallible.{right}
use luncur.Sweep.Params.{Floats, RawParam, Param, parse_param, parse_params, number, flag, object}
use luncur.Sweep.Parsed.{ParsedAs, parse_params-ParsedAs}
use luncur.Sweep.Expand.{
  TrialSet, capped_total, advance_counters, grid_sets, expand_grid, axes_of, keys_of, expand,
}
use luncur.Sweep.Product.{product, combinations, NonEmpty}
use luncur.Sweep.Total.{Fits}
use luncur.Sweep.Grid.{keyed, expand-product}
use luncur.Sweep.Decide.{
  Metric, Sweep, TrialView, min_done_step, median_of, decide_sweep, pending, running, done,
  maximize,
}
use luncur.Sweep.Median.{IsFloatOrder}
use luncur.Sweep.Deciding.{decide_sweep-Decided, Decided}

abbrev listed_choices : List Bytes → Param ℕ
listed_choices cs = record { choices = cs; min_value = 0; max_value = 0; log_scale = false }

abbrev batch : Bytes × Param ℕ
batch = (codes "batch", listed_choices (codes "16" ∷ codes "32" ∷ []))

abbrev layers : Bytes × Param ℕ
layers = (codes "layers", listed_choices (codes "2" ∷ codes "4" ∷ []))

abbrev no_random : List (Bytes × Param ℕ) → List Bytes → ℕ → List TrialSet
no_random space keys n = []

abbrev both_keys : List Bytes
both_keys = codes "batch" ∷ codes "layers" ∷ []

abbrev both_axes : List (List Bytes)
both_axes = (codes "16" ∷ codes "32" ∷ []) ∷ (codes "2" ∷ codes "4" ∷ []) ∷ []

sorted_keys : keys_of (layers ∷ batch ∷ []) ≡ both_keys
unfolding sort_strings insert_sorted str_lt
sorted_keys = refl

full_axes : NonEmpty (axes_of (layers ∷ batch ∷ []) (keys_of (layers ∷ batch ∷ [])))
unfolding str_eq
full_axes = rw sorted_keys (omega arith, (omega arith, tt))

fitting_axes : Fits 3 (axes_of (layers ∷ batch ∷ []) (keys_of (layers ∷ batch ∷ [])))
unfolding str_eq
fitting_axes = rw sorted_keys (omega arith, (omega arith, omega arith))

-- Three of the four combinations.
expand-product_example :
    expand no_random (layers ∷ batch ∷ []) (pos 3)
    ≡ right (
      map
          (keyed (keys_of (layers ∷ batch ∷ [])))
          (take 3 (product (axes_of (layers ∷ batch ∷ []) (keys_of (layers ∷ batch ∷ []))))),
      ltb 3 (combinations (axes_of (layers ∷ batch ∷ []) (keys_of (layers ∷ batch ∷ [])))),
    )
expand-product_example = expand-product no_random layers (batch ∷ []) 2 full_axes fitting_axes

three_sets : expand_grid both_keys both_axes 3 ≡ (
  ((codes "batch", codes "16") ∷ (codes "layers", codes "2") ∷ [])
      ∷ ((codes "batch", codes "16") ∷ (codes "layers", codes "4") ∷ [])
      ∷ ((codes "batch", codes "32") ∷ (codes "layers", codes "2") ∷ [])
      ∷ [],
  true,
)
unfolding expand_grid capped_total grid_sets advance_counters
three_sets = refl

abbrev natural : Floats ℕ
natural = record {
  is_ge = λ a b. leb b a;
  le_zero = λ a. leb a 0;
  zero_float = 0;
  format_f = itoa_nat;
}

abbrev learning_rate : Bytes × RawParam ℕ
learning_rate = (
  codes "lr",
  object ((codes "min", number 1) ∷ (codes "max", number 9) ∷ (codes "log", flag true) ∷ []),
)

abbrev rate_range : Param ℕ
rate_range = record { choices = []; min_value = 1; max_value = 9; log_scale = true }

rate_parsed : parse_params natural (learning_rate ∷ []) ≡ right ((codes "lr", rate_range) ∷ [])
unfolding parse_params parse_param str_eq
rate_parsed = refl

parse_params-ParsedAs_example :
    ParsedAs natural (learning_rate ∷ []) ((codes "lr", rate_range) ∷ [])
    × (1 ≤ length (learning_rate ∷ []))
parse_params-ParsedAs_example =
    parse_params-ParsedAs natural (learning_rate ∷ []) ((codes "lr", rate_range) ∷ []) rate_parsed

abbrev accuracy : Metric ℕ
accuracy = record {
  is_less = ltb;
  is_nan = λ a. false;
  average = λ a b. (a + b) / 2;
  zero_metric = 0;
}

accuracy-IsFloatOrder : IsFloatOrder accuracy
accuracy-IsFloatOrder = record {
  asymmetric = λ a b h. ground arith;
  nan_left = λ a b h. cc;
  nan_right = λ a b h. cc;
}

abbrev finished_at : ℕ → ℕ → TrialView ℕ
finished_at value step = record {
  id = codes "done";
  state = done;
  metric_value = some value;
  metric_step = some (pos step);
  found = false;
  live_value = 0;
  live_step = pos 0;
}

abbrev live_at : Bytes → ℕ → ℕ → TrialView ℕ
live_at id value step = record {
  id = id;
  state = running;
  metric_value = none;
  metric_step = none;
  found = true;
  live_value = value;
  live_step = pos step;
}

abbrev waiting : TrialView ℕ
waiting = record (live_at (codes "p") 0 0) { state = pending; found = false }

abbrev trials : List (TrialView ℕ)
trials =
    finished_at 5 10
    ∷ finished_at 7 8
    ∷ finished_at 9 12
    ∷ live_at (codes "low") 3 9
    ∷ live_at (codes "early") 3 7
    ∷ live_at (codes "high") 8 9
    ∷ waiting
    ∷ []

abbrev tuned : Sweep
tuned = record { parallel = pos 4; early_stop = true; direction = maximize }

decide_sweep-Decided_example : Decided accuracy tuned trials (decide_sweep accuracy tuned trials)
decide_sweep-Decided_example = decide_sweep-Decided accuracy accuracy-IsFloatOrder tuned trials

one_pruned :
    decide_sweep accuracy tuned trials
    ≡ record { launch = codes "p" ∷ []; prune = codes "low" ∷ []; finish = false }
unfolding decide_sweep median_of min_done_step
one_pruned = refl
