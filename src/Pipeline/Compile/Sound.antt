-- ===== src/Pipeline/Compile/Sound.antt =====
-- What `Compile` (internal/pipeline/compile.go) accepts.
use luncur.Common.{
  ℕ, suc, ◌≡◌, refl, sym, ◌∙◌, subst, inl, inr, Bytes, List, [], ◌∷◌, ◌++◌, map, Memᴰ, Option, none,
  some, Option-cases, Bool, true, arith, length, count_of, count_of-sort, sort_strings, All,
  All-of_mem,
}
use luncur.Pipeline.Step.{RawSpec, Step, Spec, Steps, needs_of, passed, bind_passed, then_passed}
use luncur.Pipeline.Graph.{Needs, transitive_needs}
use luncur.Pipeline.Needed.{Needed, direct, further, Closed}
use luncur.Pipeline.Upstream.{UpstreamOf, transitive_needs-UpstreamOf}
use luncur.Pipeline.Kahn.{Behind, IsTopoOrder}
use luncur.Pipeline.Compile.{
  raw_step, keys, check_step, check_steps, check_needs, split_slash, check_inputs, inputs_of,
  upstream_of, check_all_inputs, collect,
}
use luncur.Pipeline.Compile.Table.{raw_needs, Has}
use luncur.Pipeline.Compile.Links.{check_inputs-ok}
use luncur.Pipeline.Counts.{count_of_mem, mem_of_count}
use luncur.Pipeline.Compile.Entries.{
  DistinctKeys, from_file, Has-mem, mem_has, named, needs_mem, raw_edge, closed,
}

-- The names of a compiled file, in its order.
abbrev pub spec_names : Spec → List Bytes
spec_names spec = map (λ st. st.name) spec

-- An input of a step: it is written "step/output", and the step that it names is in the result,
-- declares the output, and is needed by the step, directly or through others.
pub record InputFrom (raw : RawSpec) (spec : Spec) (st : Step) (input : Bytes) : Type 0 where
  pub source : Bytes
  pub output : Bytes
  pub src : Step
  pub splits : split_slash input ≡ some (source, output)
  pub in_spec : Memᴰ src spec
  pub src_named : src.name ≡ source
  pub declared : Memᴰ output src.outputs
  pub upstream : Needed (raw_needs raw) source st.name

-- What a compiled file is.
pub record IsCompiled (raw : RawSpec) (spec : Spec) : Type 0 where
  pub same_names : (m : Bytes) → count_of m (spec_names spec) ≡ count_of m (keys raw)
  pub in_order : Behind (raw_needs raw) [] (spec_names spec)
  pub checked : All (λ st. check_step st.name (raw_step raw st.name) ≡ passed st) spec
  pub inputs_from : All (λ st. All (InputFrom raw spec st) st.inputs) spec

module _ (steps : Steps) where
  collect-some :
      (n : Bytes) (st : Step) (out : List Bytes)
      → steps n ≡ some st
      → collect steps (n ∷ out) ≡ st ∷ collect steps out
  unfolding collect
  collect-some n st out e = rw (e, collect) refl

  collect-none :
      (n : Bytes) (out : List Bytes) → steps n ≡ none → collect steps (n ∷ out) ≡ collect steps out
  unfolding collect
  collect-none n out e = rw (e, collect) refl

  collect-All {κ} :
      (P : Step → Type κ)
      → ((n : Bytes) (st : Step) → steps n ≡ some st → P st)
      → (out : List Bytes) → All P (collect steps out)
  unfolding collect
  collect-All P h [] = tt
  collect-All P h (n ∷ out) = elim (Option-cases (steps n)) [
    | inl e ↦ rw (collect-none n out e) (collect-All P h out)
    | inr (st, e) ↦ rw (collect-some n st out e) (h n st e, collect-All P h out)
  ]

  collect-mem :
      (n : Bytes) (st : Step) (out : List Bytes)
      → steps n ≡ some st
      → Memᴰ n out
      → Memᴰ st (collect steps out)
  collect-mem n st [] e m = elim m [ ]
  collect-mem n st (x ∷ out) e (Memᴰ.head p) =
      rw (collect-some x st out (subst (λ y. steps y ≡ some st) p e)) (Memᴰ.head refl)
  collect-mem n st (x ∷ out) e (Memᴰ.tail m) = elim (Option-cases (steps x)) [
    | inl q ↦ rw (collect-none x out q) (collect-mem n st out e m)
    | inr (s, q) ↦ rw (collect-some x s out q) (Memᴰ.tail (collect-mem n st out e m))
  ]

  collect-names :
      (out : List Bytes)
      → ((n : Bytes) → Memᴰ n out → Has steps n)
      → ((n : Bytes) (st : Step) → steps n ≡ some st → st.name ≡ n)
      → spec_names (collect steps out) ≡ out
  collect-names [] h nm = unfold collect in refl
  collect-names (n ∷ out) h nm =
      let (st, e) = h n (Memᴰ.head refl) in
      rw (collect-some n st out e) (cc (nm n st e, collect-names out (λ x m. h x (Memᴰ.tail m)) nm))

  check_all_inputs_cons :
      (fuel : ℕ) (n : Bytes) (names : List Bytes)
      → check_all_inputs steps fuel (n ∷ names) ≡ passed tt
      → (up : Bytes → Bool) × (upstream_of (transitive_needs fuel n (needs_of steps)) ≡ passed up)
        × (check_inputs steps n up (inputs_of (steps n)) (λ _. none) ≡ passed tt)
        × (check_all_inputs steps fuel names ≡ passed tt)
  unfolding check_all_inputs
  check_all_inputs_cons fuel n names e =
      let (up, e1, e2) = bind_passed (upstream_of (transitive_needs fuel n (needs_of steps))) _ e in
      let (e3, e4) = then_passed (check_inputs steps n up (inputs_of (steps n)) (λ _. none)) _ e2 in
      (up, e1, e3, e4)

  check_all_inputs-ok :
      (fuel : ℕ) (names : List Bytes)
      → check_all_inputs steps fuel names ≡ passed tt
      → (n : Bytes) → Memᴰ n names
      → (up : Bytes → Bool) × (upstream_of (transitive_needs fuel n (needs_of steps)) ≡ passed up)
        × (check_inputs steps n up (inputs_of (steps n)) (λ _. none) ≡ passed tt)
  check_all_inputs-ok fuel [] e n m = elim m [ ]
  check_all_inputs-ok fuel (x ∷ names) e n (Memᴰ.head p) =
      let (up, e1, e2, e3) = check_all_inputs_cons fuel x names e in
      subst
        (λ y.
          (up : Bytes → Bool) × (upstream_of (transitive_needs fuel y (needs_of steps)) ≡ passed up)
          × (check_inputs steps y up (inputs_of (steps y)) (λ _. none) ≡ passed tt))
        (sym p) (up, e1, e2)
  check_all_inputs-ok fuel (x ∷ names) e n (Memᴰ.tail m) =
      check_all_inputs-ok fuel names (check_all_inputs_cons fuel x names e).3 n m

upstream_of-ok :
    (needs : Needs) (n : Bytes) (o : Option (Bytes → Bool)) (up : Bytes → Bool)
    → UpstreamOf needs n o
    → upstream_of o ≡ passed up
    → (a : Bytes) → up a ≡ true
    → Needed needs a n
upstream_of-ok needs n none up h e a t = absurd h
upstream_of-ok needs n (some s) up h e a t =
    let p : s ≡ up = cc in (h a).0 (subst (λ f. f a ≡ true) (sym p) t)

pub Needed-map :
    (f g : Needs)
    → ((n d : Bytes) → Memᴰ d (f n) → Memᴰ d (g n))
    → (a n : Bytes) → Needed f a n
    → Needed g a n
Needed-map f g h a n (direct m) = direct (h n a m)
Needed-map f g h a n (further {m = k} q m) = further (Needed-map f g h a k q) (h n k m)

Behind-map :
    (f g : Needs) (p out : List Bytes)
    → ((n : Bytes) → Memᴰ n out → f n ≡ g n)
    → Behind f p out
    → Behind g p out
Behind-map f g p [] h b = tt
Behind-map f g p (x ∷ out) h (b, bs) = (
  subst (λ l. All (λ d. Memᴰ d p) l) (h x (Memᴰ.head refl)) b,
  Behind-map f g (p ++ x ∷ []) out (λ n m. h n (Memᴰ.tail m)) bs,
)

module _ (raw : RawSpec) (steps : Steps)
    (filled : check_steps raw (sort_strings (keys raw)) (λ _. none) ≡ passed steps)
    (once : DistinctKeys raw) (linked : check_needs steps (sort_strings (keys raw)) ≡ passed tt)
    (inputs_checked : check_all_inputs steps
        (suc (length (sort_strings (keys raw))))
        (sort_strings (keys raw))
      ≡ passed tt)
    (out : List Bytes) (order : IsTopoOrder (sort_strings (keys raw)) (needs_of steps) out) where
  abbrev sorted_keys : List Bytes
  sorted_keys = sort_strings (keys raw)

  abbrev spec : Spec
  spec = collect steps out

  out-Has : (n : Bytes) → Memᴰ n out → Has steps n
  out-Has n m =
      Has-mem raw steps filled n
        (mem_of_count n sorted_keys (omega (arith, order.same n, count_of_mem n out m)))

  has_out : (n : Bytes) → Has steps n → Memᴰ n out
  has_out n h =
      mem_of_count n out
        (omega (arith, order.same n, count_of_mem n sorted_keys (mem_has raw steps filled n h)))

  input_from :
      (n : Bytes) (st : Step)
      → steps n ≡ some st
      → (i : Bytes) → Memᴰ i st.inputs
      → InputFrom raw spec st i
  input_from n st e i m =
      let (up, e1, e2) = check_all_inputs-ok steps _ sorted_keys inputs_checked n key in
      let r =
        check_inputs-ok steps n up (inputs_of (steps n)) (λ _. none) e2 i
          (subst (λ o. Memᴰ i (inputs_of o)) (sym e) m) in
      let chain =
        upstream_of-ok (needs_of steps) n _ up
          (transitive_needs-UpstreamOf _ sorted_keys n (needs_of steps) closed_keys key
            (omega arith))
          e1 r.source r.is_upstream in
      record {
        source = r.source;
        output = r.output;
        src = r.src;
        splits = r.splits;
        in_spec = collect-mem steps r.source r.src out r.known (has_out r.source (r.src, r.known));
        src_named = named raw steps filled r.source r.src r.known;
        declared = r.declared;
        upstream = subst (Needed (raw_needs raw) r.source) (sym (named raw steps filled n st e)) (
            Needed-map (needs_of steps) (raw_needs raw) (raw_edge raw steps filled) r.source n
              chain);
      }
    where
      key : Memᴰ n sorted_keys
      key = mem_has raw steps filled n (st, e)

      closed_keys : Closed sorted_keys (needs_of steps)
      closed_keys = closed raw steps filled once linked

  spec_names_out : spec_names spec ≡ out
  spec_names_out = collect-names steps out out-Has (named raw steps filled)

  pub result-IsCompiled : IsCompiled raw spec
  result-IsCompiled = record {
    same_names = λ m. rw spec_names_out (order.same m ∙ count_of-sort m (keys raw));
    in_order = rw spec_names_out (
        Behind-map (needs_of steps) (raw_needs raw) [] out
          (λ n m. needs_mem raw steps filled n (mem_has raw steps filled n (out-Has n m)))
          order.behind);
    checked =
        collect-All steps (λ st. check_step st.name (raw_step raw st.name) ≡ passed st)
          (λ n st e.
            subst (λ y. check_step y (raw_step raw y) ≡ passed st)
              (sym (named raw steps filled n st e)) (from_file raw steps filled n st e))
          out;
    inputs_from =
        collect-All steps (λ st. All (InputFrom raw spec st) st.inputs)
          (λ n st e. All-of_mem (InputFrom raw spec st) st.inputs (input_from n st e)) out;
  }
