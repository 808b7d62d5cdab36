-- ===== src/Pipeline/Graph.antt =====
-- internal/pipeline/compile.go: `findCycle`, `transitiveNeeds` and `topoSort`, over the map of the
-- steps' needs. The two depth-first searches recur on fuel: each nested call marks one more name.
use luncur.Common.{
  ℕ, zero, suc, ◌-◌, Bytes, List, [], ◌∷◌, ◌++◌, Option, none, some, Bool, true, false, ◌==◌,
  if◌then◌else◌, length, sort_strings, update,
}

-- `steps[n].Needs`, for every n.
abbrev pub Needs : Type 0
Needs = Bytes → List Bytes

pub data Color : Type 0 where
  white gray black : Color

abbrev pub Colors : Type 0
Colors = Bytes → Color

-- `visit` returned false, with the colours that it left, or returned true and set `cycleStep`.
pub data Visit : Type 0 where
  clean : Colors → Visit
  found : Bytes → Visit
  no_fuel : Visit

-- The loop over `steps[n].Needs` in `visit`.
unfoldable pub visit_deps : (Bytes → Colors → Visit) → List Bytes → Colors → Visit
visit_deps visit [] c = clean c
visit_deps visit (dep ∷ deps) c = elim (c dep) [
  | gray ↦ found dep
  | white ↦ elim (visit dep c) [
    | clean c' ↦ visit_deps visit deps c'
    | found d ↦ found d
    | no_fuel ↦ no_fuel
  ]
  | black ↦ visit_deps visit deps c
]

-- `color[n] = black; return false`
abbrev pub blacken : Bytes → Visit → Visit
blacken n (clean c) = clean (update c n black)
blacken n (found d) = found d
blacken n no_fuel = no_fuel

unfoldable pub visit : Needs → ℕ → Bytes → Colors → Visit
visit needs zero n c = no_fuel
visit needs (suc fuel) n c = blacken n (visit_deps (visit needs fuel) (needs n) (update c n gray))

-- The loop over `names`.
unfoldable pub visit_all : Needs → ℕ → List Bytes → Colors → Visit
visit_all needs fuel [] c = clean c
visit_all needs fuel (n ∷ names) c = elim (c n) [
  | white ↦ elim (visit needs fuel n c) [
    | clean c' ↦ visit_all needs fuel names c'
    | found d ↦ found d
    | no_fuel ↦ no_fuel
  ]
  | gray ↦ visit_all needs fuel names c
  | black ↦ visit_all needs fuel names c
]

abbrev pub all_white : Colors
all_white _ = white

-- `findCycle`: `clean` stands for the empty string.
unfoldable pub find_cycle : List Bytes → Needs → Visit
unfolding visit_all
find_cycle names needs = visit_all needs (suc (length names)) names all_white

-- The loop over `steps[n].Needs` in `walk`, over the set `seen`.
unfoldable pub walk_deps :
    (Bytes → (Bytes → Bool) → Option (Bytes → Bool))
    → List Bytes
    → (Bytes → Bool)
    → Option (Bytes → Bool)
walk_deps walk [] seen = some seen
walk_deps walk (dep ∷ deps) seen = elim (seen dep) [
  | true ↦ walk_deps walk deps seen
  | false ↦ elim (walk dep (update seen dep true)) [
    | none ↦ none
    | some seen' ↦ walk_deps walk deps seen'
  ]
]

unfoldable pub walk : Needs → ℕ → Bytes → (Bytes → Bool) → Option (Bytes → Bool)
walk needs zero n seen = none
walk needs (suc fuel) n seen = walk_deps (walk needs fuel) (needs n) seen

-- `transitiveNeeds`; `none` stands for fuel that ran out.
unfoldable pub transitive_needs : ℕ → Bytes → Needs → Option (Bytes → Bool)
unfolding walk
transitive_needs fuel name needs = walk needs fuel name (λ _. false)

-- `dependents[dep] = append(dependents[dep], n)` for every dep of n, for every n.
unfoldable pub add_dependent : Bytes → List Bytes → Needs → Needs
add_dependent n [] dependents = dependents
add_dependent n (dep ∷ deps) dependents =
    add_dependent n deps (update dependents dep (dependents dep ++ n ∷ []))

unfoldable pub dependents_of : List Bytes → Needs → Needs → Needs
unfolding add_dependent
dependents_of [] needs dependents = dependents
dependents_of (n ∷ names) needs dependents =
    dependents_of names needs (add_dependent n (needs n) dependents)

-- The names without needs, in order.
unfoldable pub initial_ready : List Bytes → (Bytes → ℕ) → List Bytes
initial_ready [] indegree = []
initial_ready (n ∷ names) indegree =
    let rest = initial_ready names indegree in if indegree n == 0 then n ∷ rest else rest

-- The loop over `next`. An entry of `next` is a need that is not yet counted down, so the
-- subtraction is exact.
unfoldable pub release : List Bytes → (Bytes → ℕ) → List Bytes → (Bytes → ℕ) × List Bytes
release [] indegree ready = (indegree, ready)
release (m ∷ next) indegree ready =
    let indegree' = update indegree m (indegree m - 1) in
    release next indegree' (if indegree' m == 0 then ready ++ m ∷ [] else ready)

-- `for len(ready) > 0`; `ready` is sorted before each pop. `none` stands for fuel that ran out.
unfoldable pub kahn : ℕ → Needs → (Bytes → ℕ) → List Bytes → List Bytes → Option (List Bytes)
unfolding release
kahn fuel dependents indegree [] out = some out
kahn zero dependents indegree (r ∷ ready) out = none
kahn (suc fuel) dependents indegree (r ∷ ready) out = elim (sort_strings (r ∷ ready)) [
  | [] ↦ some out
  | n ∷ rest ↦
      let next = release (sort_strings (dependents n)) indegree rest in
      kahn fuel dependents next.0 next.1 (out ++ n ∷ [])
]

-- `topoSort` on the names; the caller reads `steps` at each. `none` is the error of the length
-- test, or fuel that ran out.
unfoldable pub topo_sort : List Bytes → Needs → Option (List Bytes)
unfolding kahn dependents_of initial_ready
topo_sort names needs =
    let indegree = λ (n : Bytes). length (needs n) in
    let dependents = dependents_of names needs (λ _. []) in
    elim (kahn (suc (length names)) dependents indegree (initial_ready names indegree) []) [
      | none ↦ none
      | some out ↦ if length out == length names then some out else none
    ]
