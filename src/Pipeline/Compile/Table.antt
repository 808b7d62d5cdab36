-- ===== src/Pipeline/Compile/Table.antt =====
-- The map of checked steps that the first loop of `Compile` (internal/pipeline/compile.go) fills.
use luncur.Common.{
  ◌≡◌, ◌≢◌, sym, ap, ◌∙◌, subst, ◌⊎◌, inl, inr, Bytes, List, [], ◌∷◌, Memᴰ, some, not, ◌||◌, ltb,
  length, str_eq_cases, update, update_self, update_ne,
}
use luncur.Pipeline.Step.{
  Kind, RawStep, RawSpec, Step, Steps, passed, reject, bind_passed, then_passed, bad_name,
}
use luncur.Pipeline.Rules.{step_name_match, derive_kind, check_field_legality, check_step_values}
use luncur.Pipeline.Compile.{raw_step, step_of, check_step, check_steps}

-- What the file says that a step needs.
abbrev pub raw_needs : RawSpec → Bytes → List Bytes
raw_needs raw n = (raw_step raw n).needs

-- A checked step carries the fields of the file.
pub check_step-ok :
    (name : Bytes) (rs : RawStep) (st : Step)
    → check_step name rs ≡ passed st
    → (kind : Kind) × (derive_kind name rs ≡ passed kind) × (st ≡ step_of name rs kind)
unfolding check_step
check_step-ok name rs st e =
    let (_, e1) =
      then_passed (reject (not (step_name_match name) || ltb 20 (length name)) (bad_name name)) _
        e in
    let (kind, hk, e2) = bind_passed (derive_kind name rs) _ e1 in
    let (_, e3) = then_passed (check_field_legality name kind rs) _ e2 in
    let (_, e4) = then_passed (check_step_values name kind rs) _ e3 in (kind, hk, cc)

-- The empty name is rejected.
pub check_step-nil : (rs : RawStep) (st : Step) → check_step [] rs ≢ passed st
unfolding check_step step_name_match
check_step-nil rs st e = cc

-- Each entry of the map is the check of the file's step.
abbrev pub FromFile : RawSpec → Steps → Type 0
FromFile raw steps =
    (n : Bytes) (st : Step) → steps n ≡ some st → check_step n (raw_step raw n) ≡ passed st

-- The keys of the map.
abbrev pub Has : Steps → Bytes → Type 0
Has steps n = (st : Step) × (steps n ≡ some st)

some_injective : {a b : Step} → some a ≡ some b → a ≡ b
some_injective e = cc

module _ (raw : RawSpec) where
  check_steps_nil :
      (steps steps' : Steps) → check_steps raw [] steps ≡ passed steps' → steps ≡ steps'
  unfolding check_steps
  check_steps_nil steps steps' e = cc

  check_steps_cons :
      (n : Bytes) (names : List Bytes) (steps steps' : Steps)
      → check_steps raw (n ∷ names) steps ≡ passed steps'
      → (st : Step) × (check_step n (raw_step raw n) ≡ passed st)
        × (check_steps raw names (update steps n (some st)) ≡ passed steps')
  unfolding check_steps
  check_steps_cons n names steps steps' e = bind_passed (check_step n (raw_step raw n)) _ e

  pub check_steps-FromFile :
      (names : List Bytes) (steps steps' : Steps)
      → FromFile raw steps
      → check_steps raw names steps ≡ passed steps'
      → FromFile raw steps'
  check_steps-FromFile [] steps steps' h e =
      let p = check_steps_nil steps steps' e in subst (FromFile raw) p h
  check_steps-FromFile (n ∷ names) steps steps' h e =
      let (st, e1, e2) = check_steps_cons n names steps steps' e in
      check_steps-FromFile names (update steps n (some st)) steps' (added st e1) e2
    where
      added :
          (st : Step)
          → check_step n (raw_step raw n) ≡ passed st
          → FromFile raw (update steps n (some st))
      added st e1 m st' e3 = elim (str_eq_cases n m) [
        | inl (t, p) ↦
            let q = some_injective (
              sym (update_self steps n (some st))
              ∙ subst (λ y. update steps n (some st) y ≡ some st') (sym p) e3) in
            subst (λ y. check_step y (raw_step raw y) ≡ passed st') p (e1 ∙ ap passed q)
        | inr (t, p) ↦ h m st' (sym (update_ne steps n m (some st) p) ∙ e3)
      ]

  pub check_steps-Has :
      (names : List Bytes) (steps steps' : Steps)
      → check_steps raw names steps ≡ passed steps'
      → (n : Bytes) → Memᴰ n names ⊎ Has steps n
      → Has steps' n
  check_steps-Has [] steps steps' e n h =
      let p = check_steps_nil steps steps' e in
      elim h [ inl m ↦ elim m [ ] | inr q ↦ subst (λ s. Has s n) p q ]
  check_steps-Has (x ∷ names) steps steps' e n h =
      let (st, e1, e2) = check_steps_cons x names steps steps' e in
      check_steps-Has names (update steps x (some st)) steps' e2 n (later st h)
    where
      kept : (st : Step) → Has steps n → Has (update steps x (some st)) n
      kept st (s, q) = elim (str_eq_cases x n) [
        | inl (t, p) ↦ (st, rw t)
        | inr (t, p) ↦ (s, update_ne steps x n (some st) p ∙ q)
      ]

      later :
          (st : Step)
          → Memᴰ n (x ∷ names) ⊎ Has steps n
          → Memᴰ n names ⊎ Has (update steps x (some st)) n
      later st (inl (Memᴰ.head p)) = inr (
        st,
        subst (λ y. update steps x (some st) y ≡ some st) (sym p) (update_self steps x (some st)),
      )
      later st (inl (Memᴰ.tail m)) = inl m
      later st (inr q) = inr (kept st q)

  pub check_steps-mem :
      (names : List Bytes) (steps steps' : Steps)
      → check_steps raw names steps ≡ passed steps'
      → (n : Bytes) → Has steps' n
      → Memᴰ n names ⊎ Has steps n
  check_steps-mem [] steps steps' e n h =
      let p = check_steps_nil steps steps' e in inr (subst (λ s. Has s n) (sym p) h)
  check_steps-mem (x ∷ names) steps steps' e n h =
      let (st, e1, e2) = check_steps_cons x names steps steps' e in
      earlier st (check_steps-mem names (update steps x (some st)) steps' e2 n h)
    where
      earlier :
          (st : Step)
          → Memᴰ n names ⊎ Has (update steps x (some st)) n
          → Memᴰ n (x ∷ names) ⊎ Has steps n
      earlier st (inl m) = inl (Memᴰ.tail m)
      earlier st (inr (s, q)) = elim (str_eq_cases x n) [
        | inl (t, p) ↦ inl (Memᴰ.head (sym p))
        | inr (t, p) ↦ inr (s, sym (update_ne steps x n (some st) p) ∙ q)
      ]
