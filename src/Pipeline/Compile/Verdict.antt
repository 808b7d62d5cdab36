-- ===== src/Pipeline/Compile/Verdict.antt =====
-- Every result of `Compile` (internal/pipeline/compile.go), the errors included.
use luncur.Common.{
  suc, ◌≡◌, refl, Bytes, List, [], ◌∷◌, none, false, ◌==◌, arith, length, sort_strings,
}
use luncur.Pipeline.Step.{
  RawSpec, Spec, Steps, needs_of, CompileError, Result, passed, failed, ◌>>=◌, ◌>>◌, reject, cycle,
  sort_cycle, out_of_fuel, no_steps,
}
use luncur.Pipeline.Graph.{Visit, clean, found, no_fuel, find_cycle, topo_sort}
use luncur.Pipeline.Needed.{Needed, Closed}
use luncur.Pipeline.Cycle.{Reported, find_cycle-Reported}
use luncur.Pipeline.Upstream.{transitive_needs-UpstreamOf}
use luncur.Pipeline.Compile.{
  keys, check_steps, check_needs, check_cycle, check_all_inputs, sorted_spec, compile_raw,
}
use luncur.Pipeline.Compile.Table.{raw_needs}
use luncur.Pipeline.Compile.Entries.{DistinctKeys, closed, sorted, raw_edge}
use luncur.Pipeline.Compile.Errors.{
  is_graph_error, Plain, plain, Plain-reject, check_steps-Plain, check_needs-Plain,
  check_all_inputs-Plain,
}
use luncur.Pipeline.Compile.Sound.{IsCompiled, result-IsCompiled, Needed-map}

-- What a result says of the file. An error about a cycle names a step that needs itself; the error
-- of the sort, and fuel that runs out, are not results.
abbrev pub Verdict : RawSpec → Result Spec → Type 0
Verdict raw (passed spec) = IsCompiled raw spec
Verdict raw (failed (cycle s)) = Needed (raw_needs raw) s s
Verdict raw (failed sort_cycle) = ⊥
Verdict raw (failed out_of_fuel) = ⊥
Verdict raw (failed _) = Unit

plain-Verdict :
    (raw : RawSpec) (e : CompileError) → is_graph_error e ≡ false → Verdict raw (failed e)
plain-Verdict raw (cycle s) h = cc
plain-Verdict raw sort_cycle h = cc
plain-Verdict raw out_of_fuel h = cc
plain-Verdict raw _ h = tt

bind-Verdict {ℓ} :
    {A : Type ℓ} (raw : RawSpec) (m : Result A) (f : A → Result Spec)
    → Plain m
    → ((a : A) → m ≡ passed a → Verdict raw (f a))
    → Verdict raw (m >>= f)
bind-Verdict raw (passed a) f p h = h a refl
bind-Verdict raw (failed e) f (plain _ q) h = plain-Verdict raw e q

module _ (raw : RawSpec) (once : DistinctKeys raw) (steps : Steps)
    (filled : check_steps raw (sort_strings (keys raw)) (λ _. none) ≡ passed steps)
    (linked : check_needs steps (sort_strings (keys raw)) ≡ passed tt) where
  abbrev names : List Bytes
  names = sort_strings (keys raw)

  -- The end of `Compile`, behind the search for cycles.
  abbrev tail : Result Spec
  tail = do
    check_all_inputs steps (suc (length names)) names
    sorted_spec steps (topo_sort names (needs_of steps))

  names-Closed : Closed names (needs_of steps)
  names-Closed = closed raw steps filled once linked

  tail-Verdict : check_cycle (find_cycle names (needs_of steps)) ≡ passed tt → Verdict raw tail
  tail-Verdict e =
      bind-Verdict raw (check_all_inputs steps (suc (length names)) names) _
        (check_all_inputs-Plain steps (suc (length names)) names (λ n m.
          transitive_needs-UpstreamOf _ names n (needs_of steps) names-Closed m (omega arith)))
        (λ u checked.
          let (out, e', order) = sorted raw steps filled once linked e in
          rw e' (result-IsCompiled raw steps filled once linked checked out order))

  cycle-Verdict :
      (v : Visit)
      → Reported names (needs_of steps) v
      → (check_cycle v ≡ passed tt → Verdict raw tail)
      → Verdict raw (check_cycle v >> tail)
  cycle-Verdict (clean c) h k = k refl
  cycle-Verdict (found []) h k = k refl
  cycle-Verdict (found (c ∷ s)) h k =
      Needed-map (needs_of steps) (raw_needs raw) (raw_edge raw steps filled) (c ∷ s) (c ∷ s) h
  cycle-Verdict no_fuel h k = absurd h

-- For a file whose keys are distinct: if it compiles then the result holds the steps of the file,
-- each as checked and behind all that it needs, and each input names a declared output of a step
-- that its step needs, directly or through others. An error about a cycle names a step that needs
-- itself. The sort never reports a cycle, and the fuel never runs out.
pub compile_raw-Verdict : (raw : RawSpec) → DistinctKeys raw → Verdict raw (compile_raw raw)
unfolding compile_raw
compile_raw-Verdict raw once =
    bind-Verdict raw (reject (length raw == 0) no_steps) _ (Plain-reject _ _ refl) (λ _ _.
      bind-Verdict raw (check_steps raw (sort_strings (keys raw)) (λ _. none)) _
        (check_steps-Plain raw _ _)
        (λ steps filled.
          bind-Verdict raw (check_needs steps (sort_strings (keys raw))) _
            (check_needs-Plain steps _)
            (λ _ linked.
              let done = names-Closed raw once steps filled linked in
              cycle-Verdict raw once steps filled linked
                (find_cycle (sort_strings (keys raw)) (needs_of steps))
                (find_cycle-Reported (sort_strings (keys raw)) (needs_of steps) done)
                (tail-Verdict raw once steps filled linked))))
