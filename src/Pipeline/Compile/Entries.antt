-- ===== src/Pipeline/Compile/Entries.antt =====
-- The entries of the map behind the first two loops of `Compile` (internal/pipeline/compile.go).
use luncur.Common.{
  ◌≤◌, ◌≡◌, ◌≢◌, refl, subst, inl, inr, Bytes, List, [], ◌∷◌, Memᴰ, Acc, none, some, Option-cases,
  arith, count_of, count_of-sort, sort_strings,
}
use luncur.Pipeline.Step.{Kind, RawSpec, Step, Steps, needs_of, passed}
use luncur.Pipeline.Graph.{Visit, clean, found, no_fuel, find_cycle, topo_sort}
use luncur.Pipeline.Needed.{Needed, direct, further, Dep, Closed}
use luncur.Pipeline.Cycle.{Reported, find_cycle-Reported}
use luncur.Pipeline.Kahn.{IsTopoOrder, topo_sort-IsTopoOrder}
use luncur.Pipeline.Compile.{
  raw_step, keys, step_of, check_step, check_steps, check_needs, check_cycle,
}
use luncur.Pipeline.Compile.Table.{
  raw_needs, check_step-ok, check_step-nil, FromFile, Has, check_steps-FromFile, check_steps-Has,
  check_steps-mem,
}
use luncur.Pipeline.Compile.Links.{check_needs-ok}

-- The keys of a Go map are distinct.
abbrev pub DistinctKeys : RawSpec → Type 0
DistinctKeys raw = (m : Bytes) → count_of m (keys raw) ≤ 1

module _ (raw : RawSpec) (steps : Steps)
    (filled : check_steps raw (sort_strings (keys raw)) (λ _. none) ≡ passed steps) where
  abbrev pub names : List Bytes
  names = sort_strings (keys raw)

  pub from_file : FromFile raw steps
  from_file = check_steps-FromFile raw names (λ _. none) steps (λ n st e. absurd (cc)) filled

  pub Has-mem : (n : Bytes) → Memᴰ n names → Has steps n
  Has-mem n m = check_steps-Has raw names (λ _. none) steps filled n (inl m)

  pub mem_has : (n : Bytes) → Has steps n → Memᴰ n names
  mem_has n h = elim (check_steps-mem raw names (λ _. none) steps filled n h) [
    | inl m ↦ m
    | inr q ↦ absurd (cc q.1)
  ]

  -- The fields of an entry are those of the file.
  pub entry :
      (n : Bytes) (st : Step)
      → steps n ≡ some st
      → (kind : Kind) × (st ≡ step_of n (raw_step raw n) kind)
  entry n st e =
      let (kind, _, p) = check_step-ok n (raw_step raw n) st (from_file n st e) in (kind, p)

  pub named : (n : Bytes) (st : Step) → steps n ≡ some st → st.name ≡ n
  named n st e = let (kind, p) = entry n st e in rw p (unfold step_of in refl)

  pub needs_mem : (n : Bytes) → Memᴰ n names → needs_of steps n ≡ raw_needs raw n
  needs_mem n m =
      let (st, e) = Has-mem n m in
      let (kind, p) = entry n st e in rw (e, needs_of) (rw p (unfold step_of in refl))

  needs_none : (n : Bytes) → steps n ≡ none → needs_of steps n ≡ []
  needs_none n e = rw (e, needs_of) refl

  -- A step with needs has an entry.
  pub Has-of_need : (n d : Bytes) → Memᴰ d (needs_of steps n) → Has steps n
  Has-of_need n d m = elim (Option-cases (steps n)) [
    | inl e ↦ elim (subst (λ l. Memᴰ d l) (needs_none n e) m) [ ]
    | inr q ↦ q
  ]

  pub raw_edge : (n d : Bytes) → Memᴰ d (needs_of steps n) → Memᴰ d (raw_needs raw n)
  raw_edge n d m = subst (λ l. Memᴰ d l) (needs_mem n (mem_has n (Has-of_need n d m))) m

  -- A key of the map is a name that the regular expression admits.
  pub key-ne-nil : (n : Bytes) → Has steps n → n ≢ []
  key-ne-nil n (st, e) p =
      check_step-nil (raw_step raw []) st
        (subst (λ y. check_step y (raw_step raw y) ≡ passed st) p (from_file n st e))

  module _ (once : DistinctKeys raw) (linked : check_needs steps names ≡ passed tt) where
    pub once_names : (m : Bytes) → count_of m names ≤ 1
    once_names m = omega (arith, once m, count_of-sort m (keys raw))

    pub closed : Closed names (needs_of steps)
    closed n d m md = mem_has d (check_needs-ok steps names linked n d m md)

    -- A step that something in a chain needs is itself needed, and has an entry.
    pub Needed-Has : (a n : Bytes) → Needed (needs_of steps) a n → Has steps n
    Needed-Has a n (direct m) = Has-of_need n a m
    Needed-Has a n (further {m = k} q m) = Has-of_need n k m

    pub acyclic :
        check_cycle (find_cycle names (needs_of steps)) ≡ passed tt
        → (n : Bytes) → Memᴰ n names
        → Acc (Dep (needs_of steps)) n
    acyclic e =
        by_result (find_cycle names (needs_of steps))
          (find_cycle-Reported names (needs_of steps) closed) e
      where
        by_result :
            (v : Visit)
            → Reported names (needs_of steps) v
            → check_cycle v ≡ passed tt
            → (n : Bytes) → Memᴰ n names
            → Acc (Dep (needs_of steps)) n
        by_result (clean c) h e = h
        by_result (found []) h e = absurd (key-ne-nil [] (Needed-Has [] [] h) refl)
        by_result (found (c ∷ s)) h e = absurd (cc)
        by_result no_fuel h e = absurd h

    pub sorted :
        check_cycle (find_cycle names (needs_of steps)) ≡ passed tt
        → (out : List Bytes) × (topo_sort names (needs_of steps) ≡ some out)
          × IsTopoOrder names (needs_of steps) out
    sorted e = topo_sort-IsTopoOrder names (needs_of steps) once_names closed (acyclic e)
