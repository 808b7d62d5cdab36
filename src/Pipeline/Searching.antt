-- ===== src/Pipeline/Searching.antt =====
-- The searches of a tick (`Downstream` of internal/pipeline/compile.go, called by
-- `decidePipelineRun`) have fuel enough.
use luncur.Common.{
  ℕ, zero, suc, ◌≤◌, ◌<◌, ◌≡◌, refl, sym, subst, ◌⊎◌, inl, inr, true, false, Option, none, some,
  List, [], ◌∷◌, map, Memᴰ, arith, if◌then◌else◌, Bool-cases, length, length-map, Bytes, str_eq,
  str_eq_refl, str_eq_cases, sort_strings,
}
use luncur.Pipeline.Step.{Spec}
use luncur.Pipeline.Graph.{Colors, visit, white, black, no_fuel}
use luncur.Pipeline.Compile.{contains_str}
use luncur.Pipeline.Whites.{whites, whites_mono, whites_drop, whites_le}
use luncur.Pipeline.Tick.{
  StepView, PipeActions, is_failed, spec_needs, Search, depends_deps, depends_on, add_hit,
  dependents, downstream, by_name, skip_deps, skip_all, actions_for, decide_pipeline_run, hit,
  no_fuel, miss,
}

-- Black where the search has been.
abbrev been : List Bytes → Colors
been seen n = if contains_str seen n then black else white

abbrev pub Grows : List Bytes → List Bytes → Type 0
Grows seen seen' = (n : Bytes) → contains_str seen n ≡ true → contains_str seen' n ≡ true

-- The search has fuel, and it forgets no step.
abbrev Ends : List Bytes → Search → Type 0
Ends seen hit = Unit {0}
Ends seen no_fuel = ⊥
Ends seen (miss seen') = Grows seen seen'

been-white : (seen : List Bytes) (n : Bytes) → been seen n ≡ white → contains_str seen n ≡ false
been-white seen n h = elim (Bool-cases (contains_str seen n)) [
  | inl e ↦ let clash = rw e at h in cc
  | inr e ↦ e
]

white-been : (seen : List Bytes) (n : Bytes) → contains_str seen n ≡ false → been seen n ≡ white
white-been seen n h = rw h refl

been_mono :
    (seen seen' : List Bytes) (m : Bytes)
    → Grows seen seen'
    → been seen' m ≡ white
    → been seen m ≡ white
been_mono seen seen' m grows h =
    let out = been-white seen' m h in
    white-been seen m
      (elim (Bool-cases (contains_str seen m)) [ inl e ↦ let clash = grows m e in cc | inr e ↦ e ])

whites-Grows :
    (seen seen' names : List Bytes)
    → Grows seen seen'
    → whites (been seen') names ≤ whites (been seen) names
whites-Grows seen seen' names grows =
    whites_mono (been seen) (been seen') names (λ m h. been_mono seen seen' m grows h)

pub Grows-cons : (n : Bytes) (seen : List Bytes) → Grows seen (n ∷ seen)
unfolding contains_str
Grows-cons n seen m h = ground arith

pub self_seen : (n : Bytes) (seen : List Bytes) → contains_str (n ∷ seen) n ≡ true
unfolding contains_str
self_seen n seen = rw str_eq_refl refl

whites-been :
    (n : Bytes) (seen names : List Bytes)
    → Memᴰ n names
    → contains_str seen n ≡ false
    → whites (been (n ∷ seen)) names < whites (been seen) names
whites-been n seen names m h =
    whites_drop (been seen) (been (n ∷ seen)) n names m (white-been seen n h)
      (λ w. let out = been-white (n ∷ seen) n w in let self = self_seen n seen in cc)
      (λ x w. been_mono seen (n ∷ seen) x (Grows-cons n seen) w)

Ends-Grows : (seen seen' : List Bytes) (s : Search) → Grows seen seen' → Ends seen' s → Ends seen s
Ends-Grows seen seen' hit grows h = tt
Ends-Grows seen seen' no_fuel grows h = h
Ends-Grows seen seen' (miss out) grows h = λ n e. h n (grows n e)

depends_deps-Ends :
    (visit : Bytes → List Bytes → Search) (target : Bytes) (deps seen names : List Bytes) (fuel : ℕ)
    → ((dep : Bytes) (seen : List Bytes)
        → whites (been seen) names < fuel
        → Ends seen (visit dep seen))
    → whites (been seen) names < fuel
    → Ends seen (depends_deps visit target deps seen)
unfolding depends_deps
depends_deps-Ends visit target [] seen names fuel each lt = λ n e. e
depends_deps-Ends visit target (dep ∷ deps) seen names fuel each lt =
    elim (Bool-cases (str_eq dep target)) [
      | inl e ↦ rw e tt
      | inr e ↦ rw e (
          next (visit dep seen) (each dep seen lt) (λ seen' grows.
            depends_deps-Ends visit target deps seen' names fuel each
              (omega (arith, lt, whites-Grows seen seen' names grows))))
    ]
  where
    next :
        (s : Search)
        → Ends seen s
        → ((seen' : List Bytes)
            → Grows seen seen'
            → Ends seen' (depends_deps visit target deps seen'))
        → Ends seen (elim s [
          | hit ↦ hit
          | no_fuel ↦ no_fuel
          | miss seen' ↦ depends_deps visit target deps seen'
        ])
    next hit h rest = tt
    next no_fuel h rest = h
    next (miss seen') h rest =
        Ends-Grows seen seen' (depends_deps visit target deps seen') h (rest seen' h)

-- A name that is no step's has no needs.
spec_needs-cases :
    (spec : Spec) (n : Bytes) → Memᴰ n (map (λ st. st.name) spec) ⊎ (spec_needs spec n ≡ [])
unfolding spec_needs
spec_needs-cases [] n = inr refl
spec_needs-cases (st ∷ spec) n = elim (str_eq_cases st.name n) [
  | inl (e, same) ↦ inl (Memᴰ.head (sym same))
  | inr (e, other) ↦ elim (spec_needs-cases spec n) [
    | inl m ↦ inl (Memᴰ.tail m)
    | inr none_left ↦ inr (rw e none_left)
  ]
]

no_deps :
    (search : Bytes → List Bytes → Search) (target : Bytes) (seen : List Bytes)
    → Ends seen (depends_deps search target [] seen)
unfolding depends_deps
no_deps search target seen = λ n e. e

pub depends_on-Ends :
    (spec : Spec) (target : Bytes) (fuel : ℕ) (from : Bytes) (seen : List Bytes)
    → whites (been seen) (map (λ st. st.name) spec) < fuel
    → Ends seen (depends_on (spec_needs spec) target fuel from seen)
unfolding depends_on
depends_on-Ends spec target zero from seen lt = absurd (omega arith)
depends_on-Ends spec target (suc fuel) from seen lt = elim (Bool-cases (contains_str seen from)) [
  | inl e ↦ rw e (λ n h. h)
  | inr e ↦
      let grows = Grows-cons from seen in
      let search = depends_deps (depends_on (spec_needs spec) target fuel) target in
      rw e (
        Ends-Grows seen (from ∷ seen) (search (spec_needs spec from) (from ∷ seen)) grows
          (elim (spec_needs-cases spec from) [
            | inl m ↦
                depends_deps-Ends (depends_on (spec_needs spec) target fuel) target
                  (spec_needs spec from) (from ∷ seen) (map (λ st. st.name) spec) fuel
                  (λ dep seen' lt'. depends_on-Ends spec target fuel dep seen' lt')
                  (omega (arith, lt, whites-been from seen (map (λ st. st.name) spec) m e))
            | inr no_needs ↦
                subst (λ deps. Ends (from ∷ seen) (search deps (from ∷ seen))) (sym no_needs)
                  (no_deps (depends_on (spec_needs spec) target fuel) target (from ∷ seen))
          ]))
]

abbrev pub Some : {A : Type 0} → Option A → Type 0
Some {A} o = (a : A) × (o ≡ some a)

add_hit-Some :
    (n : Bytes) (seen : List Bytes) (s : Search) (rest : Option (List Bytes))
    → Ends seen s
    → Some rest
    → Some (add_hit n s rest)
add_hit-Some n seen hit none h (out, e) = cc
add_hit-Some n seen hit (some out) h r = (n ∷ out, refl)
add_hit-Some n seen no_fuel rest h r = absurd h
add_hit-Some n seen (miss seen') none h (out, e) = cc
add_hit-Some n seen (miss seen') (some out) h r = (out, refl)

pub dependents-Some :
    (spec : Spec) (fuel : ℕ) (name : Bytes) (steps : Spec)
    → length spec < fuel
    → Some (dependents (spec_needs spec) fuel name steps)
unfolding dependents
dependents-Some spec fuel name [] lt = ([], refl)
dependents-Some spec fuel name (st ∷ steps) lt =
    let rest = dependents-Some spec fuel name steps lt in
    let names = map (λ st. st.name) spec in
    let enough : whites (been []) names < fuel =
      omega (arith, lt, whites_le (been []) names, length-map (λ st. st.name) spec) in
    elim (Bool-cases (str_eq st.name name)) [
      | inl e ↦ rw e rest
      | inr e ↦ rw e (
          add_hit-Some st.name [] (depends_on (spec_needs spec) name fuel st.name []) _
            (depends_on-Ends spec name fuel st.name [] enough) rest)
    ]

pub downstream-Some : (spec : Spec) (name : Bytes) → Some (downstream spec name)
unfolding downstream
downstream-Some spec name =
    let (out, e) = dependents-Some spec (suc (length spec)) name spec (omega arith) in
    rw (e, downstream) (sort_strings out, refl)

skip_all-Some :
    (spec : Spec) (views : Bytes → Option StepView) (rest : List StepView) (skip : List Bytes)
    → Some (skip_all spec views rest skip)
unfolding skip_all
skip_all-Some spec views [] skip = (skip, refl)
skip_all-Some spec views (v ∷ rest) skip =
    let (deps, e) = downstream-Some spec v.spec.name in
    elim (Bool-cases (is_failed v.row.state)) [
      | inl f ↦ rw (f, e) (skip_all-Some spec views rest (skip_deps views deps skip))
      | inr f ↦ rw f (skip_all-Some spec views rest skip)
    ]

-- For every pipeline and every state of its steps, a tick decides: the searches for the dependents
-- of a failed step end within their fuel, also where the needs of the steps form a cycle.
pub decide_pipeline_run-decides :
    (spec : Spec) (views : List StepView)
    → (acts : PipeActions) × (decide_pipeline_run spec views ≡ some acts)
unfolding decide_pipeline_run
decide_pipeline_run-decides spec views =
    let (skip, e) = skip_all-Some spec (by_name views) views [] in
    rw (e, decide_pipeline_run) (actions_for views skip, refl)
