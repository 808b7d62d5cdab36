-- ===== src/Sweep/Odometer.antt =====
-- The odometer of `expandGrid` (internal/sweep/params.go) goes through the combinations in order.
use luncur.Common.{
  ℕ, zero, suc, ◌≤◌, ◌<◌, ◌≡◌, refl, sym, ap, ◌∙◌, subst, inl, inr, Bool, true, false, List, [],
  ◌∷◌, ◌++◌, map, arith, ltb, Bool-cases, length, get_or, drop, Bytes,
}
use luncur.Sweep.Expand.{bump, advance_counters, zeros}
use luncur.Sweep.Product.{choose, product, NonEmpty}

-- A counter for each axis, at one of its values.
abbrev pub Valid : List ℕ → List (List Bytes) → Type 0
Valid [] [] = Unit {0}
Valid [] (axis ∷ axes) = ⊥
Valid (c ∷ cs) [] = ⊥
Valid (c ∷ cs) (axis ∷ axes) = (c < length axis) × Valid cs axes

abbrev pub values : List ℕ → List (List Bytes) → List Bytes
values [] axes = []
values (c ∷ cs) [] = []
values (c ∷ cs) (axis ∷ axes) = get_or axis c [] ∷ values cs axes

-- The combinations from the counters on.
abbrev pub from_counters : List ℕ → List (List Bytes) → List (List Bytes)
from_counters [] axes = [] ∷ []
from_counters (c ∷ cs) [] = [] ∷ []
from_counters (c ∷ cs) (axis ∷ axes) =
    map (λ p. get_or axis c [] ∷ p) (from_counters cs axes)
    ++ choose (drop (suc c) axis) (product axes)

drop_step : (i : ℕ) (xs : List Bytes) → i < length xs → drop i xs ≡ get_or xs i [] ∷ drop (suc i) xs
drop_step i [] lt = absurd (omega arith)
drop_step zero (x ∷ xs) lt = refl
drop_step (suc i) (x ∷ xs) lt = drop_step i xs (omega arith)

drop_all : (i : ℕ) (xs : List Bytes) → length xs ≤ i → drop i xs ≡ []
drop_all zero [] le = refl
drop_all (suc i) [] le = refl
drop_all zero (x ∷ xs) le = absurd (omega arith)
drop_all (suc i) (x ∷ xs) le = drop_all i xs (omega arith)

pub zeros-Valid : (axes : List (List Bytes)) → NonEmpty axes → Valid (zeros axes) axes
zeros-Valid [] h = tt
zeros-Valid (axis ∷ axes) (one, h) = (omega arith, zeros-Valid axes h)

pub from_counters-zeros :
    (axes : List (List Bytes)) → NonEmpty axes → from_counters (zeros axes) axes ≡ product axes
from_counters-zeros [] h = refl
from_counters-zeros (axis ∷ axes) (one, h) =
    ap (λ ps. map (λ p. get_or axis 0 [] ∷ p) ps ++ choose (drop 1 axis) (product axes))
      (from_counters-zeros axes h)
    ∙ ap (λ xs. choose xs (product axes)) (sym (drop_step 0 axis (omega arith)))

-- What one step of the odometer makes of the combinations behind the first one.
abbrev pub Advanced : List ℕ × Bool → List (List Bytes) → List (List Bytes) → Type 0
Advanced (cs, false) axes rest = Valid cs axes × (from_counters cs axes ≡ rest)
Advanced (cs, true) axes rest = (cs ≡ zeros axes) × (rest ≡ [])

-- The next value of an axis, where the counters after it started anew.
next_value :
    (c : ℕ) (axis : List Bytes) (axes : List (List Bytes)) (cs : List ℕ)
    → suc c < length axis
    → NonEmpty axes
    → cs ≡ zeros axes
    → from_counters (suc c ∷ cs) (axis ∷ axes) ≡ choose (drop (suc c) axis) (product axes)
next_value c axis axes cs within full anew =
    ap
      (λ l.
        map (λ p. get_or axis (suc c) [] ∷ p) l ++ choose (drop (suc (suc c)) axis) (product axes))
      (ap (λ l. from_counters l axes) anew ∙ from_counters-zeros axes full)
    ∙ ap (λ l. choose l (product axes)) (sym (drop_step (suc c) axis within))

bump-Advanced :
    (c : ℕ) (axis : List Bytes) (axes : List (List Bytes)) (next : List ℕ × Bool)
    (rest : List (List Bytes))
    → c < length axis
    → NonEmpty axes
    → Advanced next axes rest
    → Advanced
        (bump c axis next)
        (axis ∷ axes)
        (map (λ p. get_or axis c [] ∷ p) rest ++ choose (drop (suc c) axis) (product axes))
bump-Advanced c axis axes (cs, false) rest lt full (valid, e) = (
  (lt, valid),
  ap (λ ps. map (λ p. get_or axis c [] ∷ p) ps ++ choose (drop (suc c) axis) (product axes)) e,
)
bump-Advanced c axis axes (cs, true) rest lt full (anew, none_left) =
    elim (Bool-cases (ltb (suc c) (length axis))) [
      | inl e ↦
          let within : suc c < length axis = ground arith in
          let valid = subst (λ x. Valid x axes) (sym anew) (zeros-Valid axes full) in
          rw (e, none_left) ((within, valid), next_value c axis axes cs within full anew)
      | inr e ↦
          let beyond : length axis ≤ suc c = ground arith in
          rw (e, none_left)
            (ap (λ l. 0 ∷ l) anew, ap (λ l. choose l (product axes)) (drop_all (suc c) axis beyond))
    ]

pub advance_counters-Advanced :
    (cs : List ℕ) (axes : List (List Bytes))
    → Valid cs axes
    → NonEmpty axes
    → (rest : List (List Bytes)) × (from_counters cs axes ≡ values cs axes ∷ rest)
      × Advanced (advance_counters cs axes) axes rest
unfolding advance_counters
advance_counters-Advanced [] [] h full = ([], refl, (refl, refl))
advance_counters-Advanced [] (axis ∷ axes) h full = absurd h
advance_counters-Advanced (c ∷ cs) [] h full = absurd h
advance_counters-Advanced (c ∷ cs) (axis ∷ axes) (lt, h) (one, full) =
    let (rest, e, next) = advance_counters-Advanced cs axes h full in
    (
      map (λ p. get_or axis c [] ∷ p) rest ++ choose (drop (suc c) axis) (product axes),
      ap (λ ps. map (λ p. get_or axis c [] ∷ p) ps ++ choose (drop (suc c) axis) (product axes)) e,
      bump-Advanced c axis axes (advance_counters cs axes) rest lt full next,
    )
