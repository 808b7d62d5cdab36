-- ===== src/Sweep/Grid.antt =====
-- The grid of `expandGrid` (internal/sweep/params.go) against the list of all combinations.
use luncur.Common.{
  ℕ, zero, suc, ◌+◌, ◌≤◌, ◌≡◌, refl, sym, ap, ◌∙◌, subst, inl, inr, Bool, true, false, List, [],
  ◌∷◌, map, arith, ltb, Bool-cases, length, get_or, take, length-map, Bytes, pos,
}
use luncur.Common.Fallible.{right}
use luncur.Sweep.Params.{Param}
use luncur.Sweep.Expand.{
  TrialSet, advance_counters, set_at, grid_sets, zeros, expand_grid, all_discrete, axes_of, keys_of,
  expand,
}
use luncur.Sweep.Product.{product, combinations, length-product, NonEmpty}
use luncur.Sweep.Odometer.{
  Valid, values, from_counters, zeros-Valid, from_counters-zeros, Advanced,
  advance_counters-Advanced,
}
use luncur.Sweep.Total.{Fits, capped_total-combinations}

-- The keys with their values.
abbrev pub keyed : List Bytes → List Bytes → TrialSet
keyed [] vs = []
keyed (k ∷ ks) [] = []
keyed (k ∷ ks) (v ∷ vs) = (k, v) ∷ keyed ks vs

set_at-keyed :
    (keys : List Bytes) (axes : List (List Bytes)) (cs : List ℕ)
    → set_at keys axes cs ≡ keyed keys (values cs axes)
set_at-keyed [] axes cs = refl
set_at-keyed (k ∷ ks) [] [] = refl
set_at-keyed (k ∷ ks) [] (c ∷ cs) = refl
set_at-keyed (k ∷ ks) (axis ∷ axes) [] = refl
set_at-keyed (k ∷ ks) (axis ∷ axes) (c ∷ cs) =
    ap (λ rest. (k, get_or axis c []) ∷ rest) (set_at-keyed ks axes cs)

-- What follows a step of the odometer, given that it holds at every counter.
grid_sets-after :
    (n : ℕ) (keys : List Bytes) (axes : List (List Bytes)) (p : List ℕ × Bool)
    (rest : List (List Bytes))
    → ((cs : List ℕ)
        → Valid cs axes
        → n ≤ length (from_counters cs axes)
        → grid_sets n keys axes cs ≡ map (keyed keys) (take n (from_counters cs axes)))
    → n ≤ length rest
    → Advanced p axes rest
    → grid_sets n keys axes p.0 ≡ map (keyed keys) (take n rest)
unfolding grid_sets
grid_sets-after n keys axes (cs, false) rest at_all le (valid, e) =
    at_all cs valid (subst (λ l. n ≤ length l) (sym e) le) ∙ ap (λ l. map (keyed keys) (take n l)) e
grid_sets-after zero keys axes (cs, true) rest at_all le next = refl
grid_sets-after (suc n) keys axes (cs, true) rest at_all le (anew, none_left) =
    let len : length rest ≡ 0 = ap length none_left in absurd (omega arith)

grid_sets-take :
    (n : ℕ) (keys : List Bytes) (axes : List (List Bytes)) (cs : List ℕ)
    → Valid cs axes
    → NonEmpty axes
    → n ≤ length (from_counters cs axes)
    → grid_sets n keys axes cs ≡ map (keyed keys) (take n (from_counters cs axes))
unfolding grid_sets
grid_sets-take zero keys axes cs valid full le = refl
grid_sets-take (suc n) keys axes cs valid full le =
    let (rest, e, next) = advance_counters-Advanced cs axes valid full in
    let len : length (from_counters cs axes) ≡ suc (length rest) = ap length e in
    let tail =
      grid_sets-after n keys axes (advance_counters cs axes) rest
        (λ cs' valid' le'. grid_sets-take n keys axes cs' valid' full le') (omega arith) next in
    ap (λ s. s ∷ grid_sets n keys axes (advance_counters cs axes).0) (set_at-keyed keys axes cs)
    ∙ ap (λ l. keyed keys (values cs axes) ∷ l) tail
    ∙ ap (λ l. map (keyed keys) (take (suc n) l)) (sym e)

grid_sets-product :
    (n : ℕ) (keys : List Bytes) (axes : List (List Bytes))
    → NonEmpty axes
    → n ≤ combinations axes
    → grid_sets n keys axes (zeros axes) ≡ map (keyed keys) (take n (product axes))
grid_sets-product n keys axes full le =
    let all = from_counters-zeros axes full in
    let size : length (from_counters (zeros axes) axes) ≡ combinations axes =
      ap length all ∙ length-product axes in
    grid_sets-take n keys axes (zeros axes) (zeros-Valid axes full) full (omega (arith, size))
    ∙ ap (λ l. map (keyed keys) (take n l)) all

take_all {ℓ} :
    {A : Type ℓ} (n m : ℕ) (xs : List A) → length xs ≤ n → length xs ≤ m → take n xs ≡ take m xs
take_all zero zero xs le le' = refl
take_all zero (suc m) [] le le' = refl
take_all (suc n) zero [] le le' = refl
take_all (suc n) (suc m) [] le le' = refl
take_all zero m (x ∷ xs) le le' = absurd (omega arith)
take_all (suc n) zero (x ∷ xs) le le' = absurd (omega arith)
take_all (suc n) (suc m) (x ∷ xs) le le' =
    ap (λ l. x ∷ l) (take_all n m xs (omega arith) (omega arith))

zeros_same :
    (keys : List Bytes) (axes : List (List Bytes))
    → length keys ≡ length axes
    → zeros keys ≡ zeros axes
zeros_same [] [] e = refl
zeros_same [] (axis ∷ axes) e = absurd (omega arith)
zeros_same (k ∷ ks) [] e = absurd (omega arith)
zeros_same (k ∷ ks) (axis ∷ axes) e = ap (λ l. 0 ∷ l) (zeros_same ks axes (omega arith))

-- If each key has an axis, each axis has a value and the capped products fit an int64, then the
-- grid is the first `max_trials` combinations in lexicographic order, each under the axes' keys, and it counts as
-- truncated exactly where there are more combinations.
pub expand_grid-product :
    (keys : List Bytes) (axes : List (List Bytes)) (max_trials : ℕ)
    → length keys ≡ length axes
    → 1 ≤ max_trials
    → NonEmpty axes
    → Fits max_trials axes
    → expand_grid keys axes max_trials
      ≡ (map (keyed keys) (take max_trials (product axes)), ltb max_trials (combinations axes))
unfolding expand_grid
expand_grid-product keys axes max_trials len positive full fits =
    let total = capped_total-combinations max_trials axes positive full fits in
    let size = length-product axes in
    let start = zeros_same keys axes len in
    elim (Bool-cases (ltb max_trials (combinations axes))) [
      | inl e ↦
          let test : ltb (max_trials + 0) (suc max_trials + 0) ≡ true = ground arith in
          rw (total, e, test, start)
            (ap (λ l. (l, true)) (grid_sets-product max_trials keys axes full (ground arith)))
      | inr e ↦
          let test : ltb (max_trials + 0) (combinations axes + 0) ≡ false = ground arith in
          let few : combinations axes ≤ max_trials = ground arith in
          rw (total, e, test, start)
            (ap (λ l. (l, false))
              (grid_sets-product (combinations axes) keys axes full (omega arith)
                ∙ ap (map (keyed keys)) (
                    take_all (combinations axes) max_trials (product axes) (omega (arith, size))
                      (omega (arith, size)))))
    ]

all_discrete-NonEmpty : (axes : List (List Bytes)) → NonEmpty axes → all_discrete axes ≡ true
all_discrete-NonEmpty [] h = refl
all_discrete-NonEmpty ([] ∷ axes) (one, h) = absurd (omega arith)
all_discrete-NonEmpty ((c ∷ cs) ∷ axes) (one, h) = all_discrete-NonEmpty axes h

-- If every parameter of a search space is a list of choices and the capped products fit an int64,
-- then `Expand` gives, in lexicographic order under the sorted keys, the first `max_trials`
-- combinations of the choices, or all of them where there are fewer, and says whether it left any
-- out.
pub expand-product :
    {F : Type 0} (expand_random : List (Bytes × Param F) → List Bytes → ℕ → List TrialSet)
    (entry : Bytes × Param F) (entries : List (Bytes × Param F)) (n : ℕ)
    → let keys = keys_of (entry ∷ entries) in
      let axes = axes_of (entry ∷ entries) keys in
      NonEmpty axes
      → Fits (suc n) axes
      → expand expand_random (entry ∷ entries) (pos (suc n))
        ≡ right (map (keyed keys) (take (suc n) (product axes)), ltb (suc n) (combinations axes))
unfolding expand
expand-product expand_random entry entries n full fits =
    let keys = keys_of (entry ∷ entries) in
    let axes = axes_of (entry ∷ entries) keys in
    let test : ltb (suc n + 0) (1 + 0) ≡ false = ground arith in
    rw (test, all_discrete-NonEmpty axes full)
      (ap right
        (expand_grid-product keys axes (suc n) (sym (length-map _ keys)) (omega arith) full fits))
