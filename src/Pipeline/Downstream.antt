-- ===== src/Pipeline/Downstream.antt =====
-- The dependents that `Downstream` (internal/pipeline/compile.go) lists.
use luncur.Common.{
  ℕ, suc, ◌≡◌, refl, sym, ◌∙◌, subst, ◌≢◌, ◌↔◌, inl, inr, Option, none, some, List, [], ◌∷◌, map,
  Memᴰ, arith, length, Bytes, str_eq_cases, sort_strings,
}
use luncur.Common.Sorting.{sort_strings-mem}
use luncur.Pipeline.Step.{Step, Spec}
use luncur.Pipeline.Graph.{no_fuel}
use luncur.Pipeline.Needed.{Needed}
use luncur.Pipeline.Searching.{dependents-Some}
use luncur.Pipeline.Dependents.{Exact, Answer-Exact, depends_on-Answer}
use luncur.Pipeline.Tick.{
  spec_needs, Search, depends_on, add_hit, dependents, downstream, hit, no_fuel, miss,
}

-- What a list of dependents holds.
abbrev pub DependentsIn : Spec → Spec → Bytes → List Bytes → Type 0
DependentsIn spec steps name out =
    (n : Bytes)
    → Memᴰ n out
      ↔ (Memᴰ n (map (λ st. st.name) steps) × (n ≢ name) × Needed (spec_needs spec) name n)

-- One more step of the loop, that depends on `name` or not.
with_dependent :
    (spec : Spec) (st : Step) (steps : Spec) (name : Bytes) (l : List Bytes)
    → st.name ≢ name
    → Needed (spec_needs spec) name st.name
    → DependentsIn spec steps name l
    → DependentsIn spec (st ∷ steps) name (st.name ∷ l)
with_dependent spec st steps name l ne h more n =
    let (out, back) = more n in
    (
      λ m. elim m [
        | Memᴰ.head p ↦
            (Memᴰ.head p, (λ q. ne (sym p ∙ q)), subst (Needed (spec_needs spec) name) (sym p) h)
        | Memᴰ.tail m' ↦ let (a, b, c) = out m' in (Memᴰ.tail a, b, c)
      ],
      λ (m, other, behind). elim m [
        | Memᴰ.head p ↦ Memᴰ.head p
        | Memᴰ.tail m' ↦ Memᴰ.tail (back (m', other, behind))
      ],
    )

without_dependent :
    (spec : Spec) (st : Step) (steps : Spec) (name : Bytes) (l : List Bytes)
    → (st.name ≢ name → Needed (spec_needs spec) name st.name → ⊥)
    → DependentsIn spec steps name l
    → DependentsIn spec (st ∷ steps) name l
without_dependent spec st steps name l never more n =
    let (out, back) = more n in
    (
      λ m. let (a, b, c) = out m in (Memᴰ.tail a, b, c),
      λ (m, other, behind). elim m [
        | Memᴰ.head p ↦
            absurd (never (λ q. other (p ∙ q)) (subst (Needed (spec_needs spec) name) p behind))
        | Memᴰ.tail m' ↦ back (m', other, behind)
      ],
    )

add_hit-DependentsIn :
    (spec : Spec) (st : Step) (steps : Spec) (name : Bytes) (s : Search)
    (rest : Option (List Bytes)) (out : List Bytes)
    → st.name ≢ name
    → Exact (spec_needs spec) name st.name s
    → ((l : List Bytes) → rest ≡ some l → DependentsIn spec steps name l)
    → add_hit st.name s rest ≡ some out
    → DependentsIn spec (st ∷ steps) name out
add_hit-DependentsIn spec st steps name hit none out ne h more e = cc
add_hit-DependentsIn spec st steps name hit (some l) out ne h more e =
    let same : st.name ∷ l ≡ out = cc in
    subst (DependentsIn spec (st ∷ steps) name) same
      (with_dependent spec st steps name l ne h (more l refl))
add_hit-DependentsIn spec st steps name no_fuel none out ne h more e = cc
add_hit-DependentsIn spec st steps name no_fuel (some l) out ne h more e = cc
add_hit-DependentsIn spec st steps name (miss seen') none out ne h more e = cc
add_hit-DependentsIn spec st steps name (miss seen') (some l) out ne h more e =
    let same : l ≡ out = cc in
    subst (DependentsIn spec (st ∷ steps) name) same
      (without_dependent spec st steps name l (λ other. h) (more l refl))

dependents-DependentsIn :
    (spec : Spec) (fuel : ℕ) (name : Bytes) (steps : Spec) (out : List Bytes)
    → dependents (spec_needs spec) fuel name steps ≡ some out
    → DependentsIn spec steps name out
unfolding dependents
dependents-DependentsIn spec fuel name [] out h =
    let same : [] ≡ out = cc in
    subst (DependentsIn spec [] name) same (λ n. ((λ m. elim m [ ]), λ (m, _, _). elim m [ ]))
dependents-DependentsIn spec fuel name (st ∷ steps) out h =
    let rest = dependents (spec_needs spec) fuel name steps in
    let more = λ (l : List Bytes). dependents-DependentsIn spec fuel name steps l in
    let search = depends_on (spec_needs spec) name fuel st.name [] in
    elim (str_eq_cases st.name name) [
      | inl (e, same) ↦
          without_dependent spec st steps name out (λ other. absurd (other same))
            (more out (rw e at h))
      | inr (e, other) ↦
          add_hit-DependentsIn spec st steps name search rest out other
            (Answer-Exact (spec_needs spec) name st.name search
              (depends_on-Answer (spec_needs spec) name fuel st.name []))
            more (rw e at h)
    ]

-- For every pipeline and every step, `Downstream` ends, and gives exactly the names of the other
-- steps that need it, directly or through others.
pub downstream-DependentsIn :
    (spec : Spec) (name : Bytes)
    → (out : List Bytes) × (downstream spec name ≡ some out) × DependentsIn spec spec name out
unfolding downstream
downstream-DependentsIn spec name =
    let (hits, e) = dependents-Some spec (suc (length spec)) name spec (omega arith) in
    let exact = dependents-DependentsIn spec (suc (length spec)) name spec hits e in
    (
      sort_strings hits,
      rw (e, downstream) refl,
      λ n.
          let (out, back) = exact n in
          let (sorted, unsorted) = sort_strings-mem hits n in
          ((λ m. out (sorted m)), λ h. unsorted (back h)),
    )
