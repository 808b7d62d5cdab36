-- ===== src/Pipeline/Kahn/Tables.antt =====
-- The tables that `topoSort` (internal/pipeline/compile.go) builds, and the loop over `next`.
use luncur.Common.{
  ℕ, ◌+◌, ◌-◌, ◌*◌, ◌≤◌, ◌≡◌, refl, inl, inr, ◌&&◌, Bytes, List, [], ◌∷◌, ◌++◌, arith, str_eq_cases,
  str_eq_iff, str_eq_refl, update, if◌then◌else◌, ◌==◌, ltb, count_of,
}
use luncur.Pipeline.Graph.{Needs, add_dependent, dependents_of, initial_ready, release}
use luncur.Pipeline.Counts.{one_if, count_of-snoc, count_of-cons}

count-add_dependent :
    (n : Bytes) (deps : List Bytes) (dependents : Needs) (d m : Bytes)
    → count_of m (add_dependent n deps dependents d)
      ≡ count_of m (dependents d) + one_if m n * count_of d deps
unfolding add_dependent count_of
count-add_dependent n [] dependents d m = omega arith
count-add_dependent n (dep ∷ deps) dependents d m =
    let ih = count-add_dependent n deps (update dependents dep (dependents dep ++ n ∷ [])) d m in
    ground (arith, ih, count_of-snoc m n (dependents dep), str_eq_iff d dep, str_eq_iff dep d)

one_if-mul :
    (needs : Needs) (m n d : Bytes)
    → one_if m n * count_of d (needs n) ≡ one_if m n * count_of d (needs m)
one_if-mul needs m n d = elim (str_eq_cases m n) [
  | inl (t, p) ↦ rw p refl
  | inr (t, p) ↦ rw t (omega arith)
]

-- A name is listed under d once for each of its needs that is d.
pub count-dependents_of :
    (names : List Bytes) (needs dependents : Needs) (d m : Bytes)
    → count_of m (dependents_of names needs dependents d)
      ≡ count_of m (dependents d) + count_of m names * count_of d (needs m)
unfolding dependents_of
count-dependents_of [] needs dependents d m = unfold count_of in omega arith
count-dependents_of (n ∷ names) needs dependents d m =
    let ih = count-dependents_of names needs (add_dependent n (needs n) dependents) d m in
    let here = count-add_dependent n (needs n) dependents d m in
    rw (count_of-cons m n names) (omega (arith, ih, here, one_if-mul needs m n d))

pub count-initial_ready :
    (names : List Bytes) (indegree : Bytes → ℕ) (m : Bytes)
    → count_of m (initial_ready names indegree) ≡ (if indegree m == 0 then count_of m names else 0)
unfolding initial_ready count_of
count-initial_ready [] indegree m = ground arith
count-initial_ready (n ∷ names) indegree m =
    ground (arith, count-initial_ready names indegree m, str_eq_iff m n)

-- Each occurrence counts the name down.
pub release-indegree :
    (next : List Bytes) (indegree : Bytes → ℕ) (ready : List Bytes) (m : Bytes)
    → (release next indegree ready).0 m ≡ indegree m - count_of m next
unfolding release count_of
release-indegree [] indegree ready m = omega arith
release-indegree (x ∷ next) indegree ready m =
    let i = update indegree x (indegree x - 1) in
    let r = if i x == 0 then ready ++ x ∷ [] else ready in
    ground (arith, release-indegree next i r m, str_eq_iff x m, str_eq_iff m x)

-- A name becomes ready when its last need is counted down.
pub release-ready :
    (next : List Bytes) (indegree : Bytes → ℕ) (ready : List Bytes) (m : Bytes)
    → count_of m next ≤ indegree m
    → count_of m (release next indegree ready).1
      ≡ count_of m ready
        + (if ltb 0 (count_of m next) && (count_of m next == indegree m) then 1 else 0)
unfolding release count_of
release-ready [] indegree ready m le = omega arith
release-ready (x ∷ next) indegree ready m le =
    let i = update indegree x (indegree x - 1) in
    let r = if i x == 0 then ready ++ x ∷ [] else ready in
    ground (
      arith,
      release-ready next i r m,
      count_of-snoc m x ready,
      str_eq_iff x m,
      str_eq_iff m x,
      str_eq_refl x,
    )
