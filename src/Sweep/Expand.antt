-- ===== src/Sweep/Expand.antt =====
-- internal/sweep/params.go: `Expand` and `expandGrid`. A search space is an association list with
-- distinct keys; so is a trial's set. The samples of `expandRandom` are a parameter.
use luncur.Common.{
  ℕ, zero, suc, ◌-◌, ◌*◌, ◌%◌, Bool, true, false, Option, none, some, List, [], ◌∷◌, map, ltb, leb,
  if◌then◌else◌, length, get_or, Bytes, sort_strings, ℤ, pos_part, ltb_ℤ, pos, negsuc, max_int,
}
use luncur.Common.Fallible.{Fallible, unless, wrong, right}
use luncur.Sweep.Params.{Param, lookup}

abbrev pub TrialSet : Type 0
TrialSet = List (Bytes × Bytes)

-- A number as an int64.
abbrev pub int64_of_nat : ℕ → ℤ
int64_of_nat n =
    let u = n % 18446744073709551616 in
    if leb u max_int then pos u else negsuc (18446744073709551615 - u)

-- `a * n` on int64
abbrev pub mul_int64 : ℤ → ℕ → ℤ
mul_int64 (pos a) n = int64_of_nat (a * n)
mul_int64 (negsuc a) n = int64_of_nat ((18446744073709551616 - suc a) * n)

-- `if total > maxTrials { total = maxTrials + 1 }`
abbrev pub cap_total : ℕ → ℤ → ℤ
cap_total max_trials total =
    if ltb_ℤ (pos max_trials) total then int64_of_nat (suc max_trials) else total

unfoldable pub capped_total : ℕ → ℤ → List (List Bytes) → ℤ
capped_total max_trials total [] = total
capped_total max_trials total (axis ∷ axes) =
    capped_total max_trials (cap_total max_trials (mul_int64 total (length axis))) axes

-- One counter, given the counters after it and whether they all started anew.
abbrev pub bump : ℕ → List Bytes → List ℕ × Bool → List ℕ × Bool
bump c axis (cs, false) = (c ∷ cs, false)
bump c axis (cs, true) = if ltb (suc c) (length axis) then (suc c ∷ cs, false) else (0 ∷ cs, true)

-- The odometer: the loop from the last counter down.
unfoldable pub advance_counters : List ℕ → List (List Bytes) → List ℕ × Bool
advance_counters [] axes = ([], true)
advance_counters (c ∷ cs) [] = (c ∷ cs, true)
advance_counters (c ∷ cs) (axis ∷ axes) = bump c axis (advance_counters cs axes)

-- `set[k] = space[k].Choices[counters[ki]]`
abbrev pub set_at : List Bytes → List (List Bytes) → List ℕ → TrialSet
set_at [] axes cs = []
set_at (k ∷ ks) [] cs = []
set_at (k ∷ ks) (axis ∷ axes) [] = []
set_at (k ∷ ks) (axis ∷ axes) (c ∷ cs) = (k, get_or axis c []) ∷ set_at ks axes cs

unfoldable pub grid_sets : ℕ → List Bytes → List (List Bytes) → List ℕ → List TrialSet
grid_sets zero keys axes cs = []
grid_sets (suc n) keys axes cs =
    set_at keys axes cs ∷ grid_sets n keys axes (advance_counters cs axes).0

-- `make([]int, len(keys))`
abbrev pub zeros {ℓ} : {A : Type ℓ} → List A → List ℕ
zeros [] = []
zeros (x ∷ xs) = 0 ∷ zeros xs

-- The sets of the keys' axes, and whether they are truncated.
unfoldable pub expand_grid : List Bytes → List (List Bytes) → ℕ → List TrialSet × Bool
expand_grid keys axes max_trials =
    let total = capped_total max_trials (pos 1) axes in
    let truncated = ltb_ℤ (pos max_trials) total in
    let n = if truncated then max_trials else pos_part total in
    (grid_sets n keys axes (zeros keys), truncated)

pub data ExpandError : Type 0 where
  empty_space max_trials_not_positive : ExpandError

abbrev pub all_discrete : List (List Bytes) → Bool
all_discrete [] = true
all_discrete ([] ∷ axes) = false
all_discrete ((c ∷ cs) ∷ axes) = all_discrete axes

module _ {F : Type 0} where
  abbrev pub choices_or : Option (Param F) → List Bytes
  choices_or none = []
  choices_or (some p) = p.choices

  abbrev pub axes_of : List (Bytes × Param F) → List Bytes → List (List Bytes)
  axes_of space keys = map (λ k. choices_or (lookup k space)) keys

  abbrev pub keys_of : List (Bytes × Param F) → List Bytes
  keys_of space = sort_strings (map (λ entry. entry.0) space)

  -- `expand_random` is the code's function of that name with its random numbers.
  unfoldable pub expand :
      (List (Bytes × Param F) → List Bytes → ℕ → List TrialSet)
      → List (Bytes × Param F)
      → ℤ
      → Fallible ExpandError (List TrialSet × Bool)
  expand expand_random [] max_trials = wrong empty_space
  expand expand_random (entry ∷ entries) max_trials =
      unless (ltb_ℤ max_trials (pos 1)) max_trials_not_positive (
        let keys = keys_of (entry ∷ entries) in
        let axes = axes_of (entry ∷ entries) keys in
        right (
          if all_discrete axes
          then expand_grid keys axes (pos_part max_trials)
          else (expand_random (entry ∷ entries) keys (pos_part max_trials), false)))
