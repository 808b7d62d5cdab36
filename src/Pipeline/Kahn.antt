-- ===== src/Pipeline/Kahn.antt =====
-- `topoSort` of internal/pipeline/compile.go.
mod Tables
mod Loop
use luncur.Common.{
  ℕ, zero, suc, ◌+◌, ◌≤◌, ◌<◌, ◌≡◌, ◌≢◌, refl, sym, ◌∙◌, subst, inl, inr, Bytes, List, [], ◌∷◌,
  ◌++◌, Memᴰ, Acc, Option, none, some, arith, if◌then◌else◌, ◌==◌, length, All, All-of_mem, true,
  ==_iff, Bool-cases, count_of,
}
use mathlib.Core.List.Memᴰ
use luncur.Pipeline.Graph.{Needs, dependents_of, initial_ready, kahn, topo_sort}
use luncur.Pipeline.Needed.{Dep, Closed}
use luncur.Pipeline.Whites.{whites_le}
use luncur.Pipeline.Counts.{
  count_of_nil, count_of_mem, mem_of_count, left, left-nil, left_none, left_mem, length_of_count,
}
use luncur.Pipeline.Kahn.Tables.{count-initial_ready}
use luncur.Pipeline.Kahn.Loop.{TopoFrom, slot, Inv, done_colors, Finished, kahn-Finished}

-- Every need of a step of the list stands in the prefix or before the step.
abbrev pub Behind : Needs → List Bytes → List Bytes → Type 0
Behind needs p [] = Unit
Behind needs p (x ∷ xs) = All (λ d. Memᴰ d p) (needs x) × Behind needs (p ++ x ∷ []) xs

-- An order of the steps in which each step comes behind all that it needs, each step of `names`
-- as often as there.
pub record IsTopoOrder (names : List Bytes) (needs : Needs) (out : List Bytes) : Type 0 where
  pub same : (m : Bytes) → count_of m out ≡ count_of m names
  pub behind : Behind needs [] out

Behind-TopoFrom : (needs : Needs) (p out : List Bytes) → TopoFrom needs p out → Behind needs p out
Behind-TopoFrom needs p [] h = tt
Behind-TopoFrom needs p (x ∷ out) (h, hs) = (
  All-of_mem (λ d. Memᴰ d p) (needs x) (left_mem (needs x) p h),
  Behind-TopoFrom needs (p ++ x ∷ []) out hs,
)

module _ (names : List Bytes) (needs : Needs) (once : (m : Bytes) → count_of m names ≤ 1)
    (closed : Closed names needs) (acc : (n : Bytes) → Memᴰ n names → Acc (Dep needs) n) where
  abbrev degree : Bytes → ℕ
  degree n = length (needs n)

  abbrev table : Needs
  table = dependents_of names needs (λ _. [])

  start-Inv : Inv names needs degree (initial_ready names degree) []
  start-Inv = record {
    counted = λ m h. sym (left-nil (needs m));
    placed = λ m. placed_start m;
    ordered = tt;
  }
    where
      placed_start :
          (m : Bytes)
          → count_of m (initial_ready names degree) + count_of m [] ≡ slot names needs m []
      placed_start m =
          rw (count-initial_ready names degree m, left-nil (needs m))
            (unfold count_of in omega arith)

  -- Once nothing is ready, the output holds each step of the list that has no need left.
  placed_done :
      (indegree : Bytes → ℕ) (out : List Bytes)
      → Inv names needs indegree [] out
      → (m : Bytes) → left (needs m) out ≡ 0
      → count_of m out ≡ count_of m names
  placed_done indegree out inv m h = ground (arith, inv.placed m, count_of_nil m)

  -- A step outside the list is not in the output.
  placed_none :
      (indegree : Bytes → ℕ) (out : List Bytes)
      → Inv names needs indegree [] out
      → (m : Bytes) → count_of m names ≡ 0
      → count_of m out ≡ 0
  placed_none indegree out inv m h = ground (arith, inv.placed m)

  -- Once nothing is ready, a step without infinite chains of needs has its needs in the output.
  all_out :
      (indegree : Bytes → ℕ) (out : List Bytes)
      → Inv names needs indegree [] out
      → (m : Bytes) → Memᴰ m names
      → Acc (Dep needs) m
      → left (needs m) out ≡ 0
  all_out indegree out inv m mem (Acc.intro _ below) = left_none (needs m) out (λ d md.
      out_of_left d (closed m d mem md)
        (all_out indegree out inv d (closed m d mem md) (below d md)))
    where
      out_of_left : (d : Bytes) → Memᴰ d names → left (needs d) out ≡ 0 → 0 < count_of d out
      out_of_left d md h = omega (arith, placed_done indegree out inv d h, count_of_mem d names md)

  full :
      (indegree : Bytes → ℕ) (out : List Bytes)
      → Inv names needs indegree [] out
      → (m : Bytes) → count_of m out ≡ count_of m names
  full indegree out inv m = elim (Bool-cases (count_of m names == 0)) [
    | inl z ↦ omega (arith, placed_none indegree out inv m (ground arith), zero_of z)
    | inr z ↦
        let mem = mem_of_count m names (ground arith) in
        placed_done indegree out inv m (all_out indegree out inv m mem (acc m mem))
  ]
    where
      zero_of : (count_of m names == 0) ≡ true → count_of m names ≡ 0
      zero_of z = ground arith

  topo_sort_of :
      (out : List Bytes)
      → kahn (suc (length names)) table degree (initial_ready names degree) [] ≡ some out
      → length out ≡ length names
      → topo_sort names needs ≡ some out
  unfolding topo_sort
  topo_sort_of out e h = rw (e, topo_sort) (rw ((==_iff (length out) (length names)).1 h) refl)

  -- If the names are distinct, no step needs one outside the list, and no step has an infinite
  -- chain of needs, then the sort gives an order of all steps, each behind all that it needs.
  pub topo_sort-IsTopoOrder :
      (out : List Bytes) × (topo_sort names needs ≡ some out) × IsTopoOrder names needs out
  topo_sort-IsTopoOrder =
      by_result (kahn (suc (length names)) table degree (initial_ready names degree) []) refl (
        kahn-Finished names needs once (suc (length names)) degree (initial_ready names degree) []
          start-Inv (omega (arith, whites_le (done_colors []) names)))
    where
      by_result :
          (r : Option (List Bytes))
          → kahn (suc (length names)) table degree (initial_ready names degree) [] ≡ r
          → Finished names needs r
          → (out : List Bytes) × (topo_sort names needs ≡ some out) × IsTopoOrder names needs out
      by_result none e h = absurd h
      by_result (some out) e (indegree, inv) = (
        out,
        topo_sort_of out e (length_of_count out names (full indegree out inv)),
        record { same = full indegree out inv; behind = Behind-TopoFrom needs [] out inv.ordered },
      )
