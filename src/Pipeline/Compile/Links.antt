-- ===== src/Pipeline/Compile/Links.antt =====
-- The loops of `Compile` (internal/pipeline/compile.go) over needs and inputs.
use luncur.Common.{
  ◌≡◌, ◌≢◌, refl, sym, ◌∙◌, subst, inl, inr, Bytes, List, [], ◌∷◌, Memᴰ, Option, none, some, Bool,
  true, false, not, arith, str_eq, str_eq_cases, str_eq_iff, update, if◌then◌else◌,
}
use luncur.Pipeline.Step.{
  Step, Steps, needs_of, CompileError, passed, failed, reject, bind_passed, then_passed,
  reject_passed, self_need, unknown_need, bad_input, input_unknown_step, input_not_upstream,
  input_undeclared,
}
use luncur.Pipeline.Rules.{to_upper}
use luncur.Pipeline.Compile.{
  has_step, check_deps, check_needs, split_slash, contains_str, outputs_of, input_parts,
  check_collision, check_inputs,
}
use luncur.Pipeline.Compile.Table.{Has}

Option-Has :
    (o : Option Step) → elim o [ none ↦ false | some _ ↦ true ] ≡ true → (st : Step) × (o ≡ some st)
Option-Has none e = cc
Option-Has (some st) e = (st, refl)

not-false : (b : Bool) → not b ≡ false → b ≡ true
not-false true e = refl
not-false false e = cc

pub has_step-Has : (steps : Steps) (n : Bytes) → not (has_step steps n) ≡ false → Has steps n
has_step-Has steps n e = Option-Has (steps n) (not-false _ e)

module _ (steps : Steps) (name : Bytes) where
  check_deps_cons :
      (x : Bytes) (deps : List Bytes)
      → check_deps steps name (x ∷ deps) ≡ passed tt
      → Has steps x × (x ≢ name) × (check_deps steps name deps ≡ passed tt)
  unfolding check_deps
  check_deps_cons x deps e =
      let (e1, e2) = then_passed (reject (str_eq x name) (self_need name)) _ e in
      let (e3, e4) = then_passed (reject (not (has_step steps x)) (unknown_need name x)) _ e2 in
      let other = reject_passed (str_eq x name) (self_need name) e1 in
      (has_step-Has steps x (reject_passed _ _ e3), (λ p. ground (arith, str_eq_iff x name)), e4)

  pub check_deps-ok :
      (deps : List Bytes)
      → check_deps steps name deps ≡ passed tt
      → (d : Bytes) → Memᴰ d deps
      → Has steps d × (d ≢ name)
  check_deps-ok [] e d m = elim m [ ]
  check_deps-ok (x ∷ deps) e d (Memᴰ.head h) =
      let (a, b, c) = check_deps_cons x deps e in (subst (Has steps) (sym h) a, λ p. b (sym h ∙ p))
  check_deps-ok (x ∷ deps) e d (Memᴰ.tail m) = check_deps-ok deps (check_deps_cons x deps e).2 d m

module _ (steps : Steps) where
  check_needs_cons :
      (n : Bytes) (names : List Bytes)
      → check_needs steps (n ∷ names) ≡ passed tt
      → (check_deps steps n (needs_of steps n) ≡ passed tt) × (check_needs steps names ≡ passed tt)
  unfolding check_needs
  check_needs_cons n names e = then_passed (check_deps steps n (needs_of steps n)) _ e

  pub check_needs-ok :
      (names : List Bytes)
      → check_needs steps names ≡ passed tt
      → (n d : Bytes) → Memᴰ n names
      → Memᴰ d (needs_of steps n)
      → Has steps d
  check_needs-ok [] e n d m md = elim m [ ]
  check_needs-ok (x ∷ names) e n d (Memᴰ.head h) md =
      (check_deps-ok steps x (needs_of steps x) (check_needs_cons x names e).0 d
        (subst (λ y. Memᴰ d (needs_of steps y)) h md)).0
  check_needs-ok (x ∷ names) e n d (Memᴰ.tail m) md =
      check_needs-ok names (check_needs_cons x names e).1 n d m md

pub contains_str-mem : (list : List Bytes) (s : Bytes) → contains_str list s ≡ true → Memᴰ s list
contains_str-mem [] s e = absurd (unfold contains_str in cc)
contains_str-mem (v ∷ list) s e = elim (str_eq_cases v s) [
  | inl (t, p) ↦ Memᴰ.head (sym p)
  | inr (t, p) ↦ Memᴰ.tail (contains_str-mem list s (unfold contains_str in ground arith))
]

-- An input names a declared output of a step that the set `upstream` holds.
pub record Resolves (steps : Steps) (upstream : Bytes → Bool) (input : Bytes) : Type 0 where
  pub source : Bytes
  pub output : Bytes
  pub src : Step
  pub splits : split_slash input ≡ some (source, output)
  pub known : steps source ≡ some src
  pub is_upstream : upstream source ≡ true
  pub declared : Memᴰ output src.outputs

if_ok :
    (t : Bool) (x : CompileError) (q p : Bytes × Bytes)
    → (if t then failed x else passed q) ≡ passed p
    → some q ≡ some p
if_ok true x q p e = cc
if_ok false x q p e = cc

input_parts-ok :
    (name input : Bytes) (o : Option (Bytes × Bytes)) (p : Bytes × Bytes)
    → input_parts name input o ≡ passed p
    → o ≡ some p
input_parts-ok name input none p e = cc
input_parts-ok name input (some (a, b)) p e = if_ok _ (bad_input name input) (a, b) p e

module _ (steps : Steps) (name : Bytes) (upstream : Bytes → Bool) where
  check_inputs_cons :
      (input : Bytes) (inputs : List Bytes) (env : Bytes → Option Bytes)
      → check_inputs steps name upstream (input ∷ inputs) env ≡ passed tt
      → (r : Resolves steps upstream input) × (check_collision name input
            (to_upper r.output)
            (env (to_upper r.output))
          ≡ passed tt)
        × (check_inputs steps name upstream inputs (update env (to_upper r.output) (some input))
            ≡ passed tt)
  unfolding check_inputs
  check_inputs_cons input inputs env e =
      let ((a, b), e1, e2) = bind_passed (input_parts name input (split_slash input)) _ e in
      let (e3, e4) =
        then_passed (reject (not (has_step steps a)) (input_unknown_step name input a)) _ e2 in
      let (e5, e6) =
        then_passed (reject (not (upstream a)) (input_not_upstream name input a)) _ e4 in
      let (e7, e8) =
        then_passed
          (reject (not (contains_str (outputs_of (steps a)) b)) (input_undeclared name input b a)) _
          e6 in
      let (e9, e10) =
        then_passed (check_collision name input (to_upper b) (env (to_upper b))) _ e8 in
      let (src, known) = has_step-Has steps a (reject_passed _ _ e3) in
      (
        record {
          source = a;
          output = b;
          src = src;
          splits = input_parts-ok name input (split_slash input) (a, b) e1;
          known = known;
          is_upstream = not-false (upstream a) (reject_passed _ _ e5);
          declared =
              subst (λ o. Memᴰ b (outputs_of o)) known
                (contains_str-mem (outputs_of (steps a)) b (not-false _ (reject_passed _ _ e7)));
        },
        e9,
        e10,
      )

  pub check_inputs-ok :
      (inputs : List Bytes) (env : Bytes → Option Bytes)
      → check_inputs steps name upstream inputs env ≡ passed tt
      → (i : Bytes) → Memᴰ i inputs
      → Resolves steps upstream i
  check_inputs-ok [] env e i m = elim m [ ]
  check_inputs-ok (x ∷ inputs) env e i (Memᴰ.head h) =
      subst (Resolves steps upstream) (sym h) (check_inputs_cons x inputs env e).0
  check_inputs-ok (x ∷ inputs) env e i (Memᴰ.tail m) =
      check_inputs-ok inputs _ (check_inputs_cons x inputs env e).2 i m
