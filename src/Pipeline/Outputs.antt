-- ===== src/Pipeline/Outputs.antt =====
-- Where a step finds the places of its outputs (internal/pipeline/compile.go).
use luncur.Common.{
  ◌≡◌, refl, sym, ap, ◌∙◌, subst, inl, inr, Bool, true, false, not, Option, none, some, List, [],
  ◌∷◌, ◌++◌, Memᴰ, if◌then◌else◌, Bytes, str_eq, str_eq_cases, update, update_self,
}
use luncur.Pipeline.Step.{
  Step, reject, bind_passed, reject_passed, bad_output, duplicate_output, passed,
}
use luncur.Pipeline.Compile.{split_slash}
use luncur.Pipeline.Rules.{to_upper, check_outputs, env_key_match}
use luncur.Pipeline.Artifacts.{
  ArtifactMap, output_key, artifact_prefix, set_outputs, set_input, set_inputs, base_env,
  artifact_env,
}

-- An input sets no output's key.
set_input-output :
    (prefix o : Bytes) (parts : Option (Bytes × Bytes)) (env : ArtifactMap)
    → set_input prefix parts env (output_key o) ≡ env (output_key o)
unfolding str_eq
set_input-output prefix o none env = refl
set_input-output prefix o (some (source, name)) env = refl

set_inputs-output :
    (prefix o : Bytes) (inputs : List Bytes) (env : ArtifactMap)
    → set_inputs prefix inputs env (output_key o) ≡ env (output_key o)
set_inputs-output prefix o [] env = refl
set_inputs-output prefix o (i ∷ inputs) env =
    set_inputs-output prefix o inputs (set_input prefix (split_slash i) env)
    ∙ set_input-output prefix o (split_slash i) env

same_key : (a b : Bytes) → str_eq (output_key a) (output_key b) ≡ str_eq (to_upper a) (to_upper b)
unfolding str_eq
same_key a b = refl

-- Outputs that pass the check leave the key of a name that was seen before as it is.
set_outputs-seen :
    (prefix step o : Bytes) (outputs : List Bytes) (seen : Bytes → Bool) (env : ArtifactMap)
    → check_outputs step outputs seen ≡ passed tt
    → seen (to_upper o) ≡ true
    → set_outputs prefix step outputs env (output_key o) ≡ env (output_key o)
unfolding check_outputs
set_outputs-seen prefix step o [] seen env h s = refl
set_outputs-seen prefix step o (x ∷ outputs) seen env h s =
    let (_, _, h1) = bind_passed (reject (not (env_key_match x)) (bad_output step x)) _ h in
    let (_, r, h2) = bind_passed (reject (seen (to_upper x)) (duplicate_output step x)) _ h1 in
    let fresh = reject_passed (seen (to_upper x)) (duplicate_output step x) r in
    let ne : str_eq (to_upper x) (to_upper o) ≡ false =
      elim (str_eq_cases (to_upper x) (to_upper o)) [
        | inl (e, same) ↦ let clash = subst (λ u. seen u ≡ true) (sym same) s in cc
        | inr (e, other) ↦ e
      ] in
    let still : update seen (to_upper x) true (to_upper o) ≡ true = rw ne s in
    let env' = update env (output_key x) (some (prefix ++ step ++ 47 ∷ x)) in
    set_outputs-seen prefix step o outputs (update seen (to_upper x) true) env' h2 still
    ∙ ap (λ b. if b then some (prefix ++ step ++ 47 ∷ x) else env (output_key o))
        (same_key x o ∙ ne)

set_outputs-mem :
    (prefix step o : Bytes) (outputs : List Bytes) (seen : Bytes → Bool) (env : ArtifactMap)
    → check_outputs step outputs seen ≡ passed tt
    → Memᴰ o outputs
    → set_outputs prefix step outputs env (output_key o) ≡ some (prefix ++ step ++ 47 ∷ o)
unfolding check_outputs
set_outputs-mem prefix step o [] seen env h m = elim m [ ]
set_outputs-mem prefix step o (x ∷ outputs) seen env h m =
    let (_, _, h1) = bind_passed (reject (not (env_key_match x)) (bad_output step x)) _ h in
    let (_, _, h2) = bind_passed (reject (seen (to_upper x)) (duplicate_output step x)) _ h1 in
    let env' = update env (output_key x) (some (prefix ++ step ++ 47 ∷ x)) in
    elim m [
      | Memᴰ.head same ↦
          let ended =
            set_outputs-seen prefix step x outputs (update seen (to_upper x) true) env' h2
              (update_self seen (to_upper x) true)
            ∙ update_self env (output_key x) (some (prefix ++ step ++ 47 ∷ x)) in
          subst
            (λ y.
              set_outputs prefix step outputs env' (output_key y) ≡ some (prefix ++ step ++ 47 ∷ y))
            (sym same) ended
      | Memᴰ.tail m' ↦
          set_outputs-mem prefix step o outputs (update seen (to_upper x) true) env' h2 m'
    ]

-- If a step's outputs pass the check of `Compile`, then the step's environment has the place of each
-- of them under its own key, which no other output and no input overwrites.
pub artifact_env-output :
    (pipeline run_id : Bytes) (st : Step) (o : Bytes)
    → check_outputs st.name st.outputs (λ u. false) ≡ passed tt
    → Memᴰ o st.outputs
    → artifact_env pipeline run_id st (output_key o)
      ≡ some (artifact_prefix pipeline run_id ++ st.name ++ 47 ∷ o)
unfolding artifact_env
artifact_env-output pipeline run_id st o h m =
    set_inputs-output (artifact_prefix pipeline run_id) o st.inputs _
    ∙ set_outputs-mem (artifact_prefix pipeline run_id) st.name o st.outputs (λ u. false)
        (base_env pipeline run_id) h m
