-- ===== src/Pipeline/Kahn/Loop.antt =====
-- The loop of `topoSort` (internal/pipeline/compile.go).
use luncur.Common.{
  ℕ, zero, suc, ◌+◌, ◌*◌, ◌≤◌, ◌<◌, ◌≡◌, ◌≢◌, refl, sym, ◌∙◌, subst, inl, inr, Bytes, List, [], ◌∷◌,
  ◌++◌, append_assoc, append-nil, Memᴰ, Option, none, some, arith, str_eq_refl, if◌then◌else◌, ◌==◌,
  List-cases, Bool-cases, count_of, count_of-sort, sort_strings,
}
use luncur.Pipeline.Graph.{Needs, Colors, white, black, dependents_of, release, kahn}
use luncur.Pipeline.Whites.{whites, whites_drop}
use luncur.Pipeline.Counts.{
  count_of-snoc, count_of-cons, left, left-snoc, count_of_mem, mem_of_count,
}
use luncur.Pipeline.Kahn.Tables.{count-dependents_of, release-indegree, release-ready}

-- Each name stands behind all that it needs: its needs are in the prefix `p` or before it.
abbrev pub TopoFrom : Needs → List Bytes → List Bytes → Type 0
TopoFrom needs p [] = Unit
TopoFrom needs p (x ∷ xs) = (left (needs x) p ≡ 0) × TopoFrom needs (p ++ x ∷ []) xs

TopoFrom-snoc :
    (needs : Needs) (p out : List Bytes) (n : Bytes)
    → TopoFrom needs p out
    → left (needs n) (p ++ out) ≡ 0
    → TopoFrom needs p (out ++ n ∷ [])
TopoFrom-snoc needs p [] n h e = (subst (λ q. left (needs n) q ≡ 0) (append-nil p) e, tt)
TopoFrom-snoc needs p (x ∷ out) n (h, hs) e = (
  h,
  TopoFrom-snoc needs (p ++ x ∷ []) out n hs
      (subst (λ q. left (needs n) q ≡ 0) (sym (append_assoc p (x ∷ []) out)) e),
)

-- Whether a name belongs into the output or the ready list.
abbrev pub slot : List Bytes → Needs → Bytes → List Bytes → ℕ
slot names needs m out = if left (needs m) out == 0 then count_of m names else 0

-- The invariant of the loop, for a list of names without repetition.
pub record Inv (names : List Bytes) (needs : Needs) (indegree : Bytes → ℕ) (ready out : List Bytes)
    : Type 0 where
  pub counted : (m : Bytes) → 0 < count_of m names → indegree m ≡ left (needs m) out
  pub placed : (m : Bytes) → count_of m ready + count_of m out ≡ slot names needs m out
  pub ordered : TopoFrom needs [] out

-- The names that are not yet in the output, as a count of white names.
abbrev pub done_colors : List Bytes → Colors
done_colors out m = if count_of m out == 0 then white else black

module _ (names : List Bytes) (needs : Needs) (once : (m : Bytes) → count_of m names ≤ 1)
    (indegree : Bytes → ℕ) (n : Bytes) (rest out : List Bytes)
    (inv : Inv names needs indegree (n ∷ rest) out) where
  -- The name that leaves the ready list is a new one, and all that it needs is in the output.
  pub popped : (count_of n out ≡ 0) × (left (needs n) out ≡ 0) × (count_of n names ≡ 1)
  popped = ground (arith, inv.placed n, once n, count_of-cons n n rest, str_eq_refl n)

  abbrev next : List Bytes
  next = sort_strings (dependents_of names needs (λ _. []) n)

  count-next : (m : Bytes) → count_of m next ≡ count_of m names * count_of n (needs m)
  count-next m =
      count_of-sort m _
      ∙ count-dependents_of names needs (λ _. []) n m
      ∙ (unfold count_of in omega arith)

  next_named : (m : Bytes) → count_of m names ≡ 1 → count_of m next ≡ count_of n (needs m)
  next_named m h = count-next m ∙ rw h (omega arith)

  next_unnamed : (m : Bytes) → count_of m names ≡ 0 → count_of m next ≡ 0
  next_unnamed m h = count-next m ∙ rw h (omega arith)

  placed_named :
      (m : Bytes)
      → count_of m names ≡ 1
      → count_of m (release next indegree rest).1 + count_of m (out ++ n ∷ [])
        ≡ slot names needs m (out ++ n ∷ [])
  placed_named m h =
      let drop = left-snoc (needs m) out n popped.0 in
      let same = inv.counted m (omega arith) in
      let nx = next_named m h in
      let ready = release-ready next indegree rest m (omega arith) in
      ground (arith, inv.placed m, count_of-cons m n rest, count_of-snoc m n out)

  placed_unnamed :
      (m : Bytes)
      → count_of m names ≡ 0
      → count_of m (release next indegree rest).1 + count_of m (out ++ n ∷ [])
        ≡ slot names needs m (out ++ n ∷ [])
  placed_unnamed m h =
      let nx = next_unnamed m h in
      let ready = release-ready next indegree rest m (omega arith) in
      ground (arith, inv.placed m, count_of-cons m n rest, count_of-snoc m n out)

  step-Inv :
      Inv names needs (release next indegree rest).0 (release next indegree rest).1 (out ++ n ∷ [])
  step-Inv = record {
    counted = λ m h. counted_next m (once m) h;
    placed = λ m. placed_next m (once m);
    ordered = TopoFrom-snoc needs [] out n inv.ordered popped.1;
  }
    where
      counted_next :
          (m : Bytes)
          → count_of m names ≤ 1
          → 0 < count_of m names
          → (release next indegree rest).0 m ≡ left (needs m) (out ++ n ∷ [])
      counted_next m le h = omega (
        arith,
        release-indegree next indegree rest m,
        left-snoc (needs m) out n popped.0,
        inv.counted m h,
        next_named m (omega arith),
      )

      placed_next :
          (m : Bytes)
          → count_of m names ≤ 1
          → count_of m (release next indegree rest).1 + count_of m (out ++ n ∷ [])
            ≡ slot names needs m (out ++ n ∷ [])
      placed_next m le = elim (Bool-cases (count_of m names == 0)) [
        | inl z ↦ placed_unnamed m (ground arith)
        | inr z ↦ placed_named m (ground arith)
      ]

  pub whites_fall : whites (done_colors (out ++ n ∷ [])) names < whites (done_colors out) names
  whites_fall =
      whites_drop (done_colors out) (done_colors (out ++ n ∷ [])) n names
        (mem_of_count n names (omega (arith, popped))) (ground (arith, popped))
        (ground (arith, count_of-snoc n n out, str_eq_refl n))
        (λ m h. ground (arith, count_of-snoc m n out))

-- Sorting the ready list keeps the invariant.
sorted-Inv :
    (names : List Bytes) (needs : Needs) (indegree : Bytes → ℕ) (ready out : List Bytes)
    → Inv names needs indegree ready out
    → Inv names needs indegree (sort_strings ready) out
sorted-Inv names needs indegree ready out inv = record {
  counted = inv.counted;
  placed = λ m. rw (count_of-sort m ready) (inv.placed m);
  ordered = inv.ordered;
}

-- What the loop returns: an output that the invariant describes, with nothing left to do.
abbrev pub Finished : List Bytes → Needs → Option (List Bytes) → Type 0
Finished names needs none = ⊥
Finished names needs (some out) = (indegree : Bytes → ℕ) × Inv names needs indegree [] out

sort-ne-nil : (r : Bytes) (ready : List Bytes) → sort_strings (r ∷ ready) ≢ []
sort-ne-nil r ready e =
    absurd (
      omega
        (arith, count_of-sort r (r ∷ ready), count_of_mem r (r ∷ ready) (Memᴰ.head refl), empty))
  where
    empty : count_of r (sort_strings (r ∷ ready)) ≡ 0
    empty = rw e (unfold count_of in refl)

-- One round of the loop, where `n` is the least of the ready names.
kahn_round :
    (fuel : ℕ) (dependents : Needs) (indegree : Bytes → ℕ) (r n : Bytes)
    (ready rest out : List Bytes)
    → sort_strings (r ∷ ready) ≡ n ∷ rest
    → kahn (suc fuel) dependents indegree (r ∷ ready) out
      ≡ kahn fuel dependents
          (release (sort_strings (dependents n)) indegree rest).0
          (release (sort_strings (dependents n)) indegree rest).1
          (out ++ n ∷ [])
unfolding kahn
kahn_round fuel dependents indegree r n ready rest out e = rw (e, kahn) refl

module _ (names : List Bytes) (needs : Needs) (once : (m : Bytes) → count_of m names ≤ 1) where
  abbrev table : Needs
  table = dependents_of names needs (λ _. [])

  kahn_done :
      (fuel : ℕ) (indegree : Bytes → ℕ) (out : List Bytes)
      → kahn fuel table indegree [] out ≡ some out
  unfolding kahn
  kahn_done zero indegree out = refl
  kahn_done (suc fuel) indegree out = refl

  pub kahn-Finished :
      (fuel : ℕ) (indegree : Bytes → ℕ) (ready out : List Bytes)
      → Inv names needs indegree ready out
      → whites (done_colors out) names ≤ fuel
      → Finished names needs (kahn fuel table indegree ready out)
  kahn-Finished fuel indegree [] out inv le = rw (kahn_done fuel indegree out) (indegree, inv)
  kahn-Finished zero indegree (r ∷ ready) out inv le =
      absurd (omega (arith, whites_fall names needs once indegree r ready out inv))
  kahn-Finished (suc fuel) indegree (r ∷ ready) out inv le =
      elim (List-cases (sort_strings (r ∷ ready))) [
        | inl e ↦ absurd (sort-ne-nil r ready e)
        | inr (n, rest, e) ↦
            let inv' : Inv names needs indegree (n ∷ rest) out =
              subst (λ l. Inv names needs indegree l out) e
                (sorted-Inv names needs indegree (r ∷ ready) out inv) in
            rw (kahn_round fuel table indegree r n ready rest out e) (
              kahn-Finished fuel _ _ (out ++ n ∷ [])
                (step-Inv names needs once indegree n rest out inv')
                (omega (arith, whites_fall names needs once indegree n rest out inv')))
      ]
