-- ===== src/Pipeline/Rules.antt =====
-- internal/pipeline/compile.go: the two regular expressions, `deriveKind`, `checkFieldLegality` and
-- `checkStepValues`.
use luncur.Common.{
  ℕ, ◌-◌, Bytes, List, [], ◌∷◌, ◌++◌, map, Option, none, some, ℤ, pos, ltb_ℤ, Bool, true, false,
  not, ◌&&◌, ◌||◌, ltb, leb, ◌==◌, if◌then◌else◌, length, sort_strings, update,
}
use luncur.Pipeline.Step.{
  Kind, kind_name, is_app, is_image, ScaleAction, RawStep, Result, passed, failed, ◌>>◌, reject,
  bad_replicas, notify_empty, notify_long, command_illegal, gpu_illegal, env_illegal,
  retries_illegal, inputs_illegal, outputs_illegal, not_one_kind, bad_env_key, bad_output,
  duplicate_output,
}

abbrev pub is_lower : ℕ → Bool
is_lower c = leb b'a' c && leb c b'z'

abbrev pub is_upper : ℕ → Bool
is_upper c = leb b'A' c && leb c b'Z'

abbrev pub is_digit : ℕ → Bool
is_digit c = leb b'0' c && leb c b'9'

abbrev pub is_name_end : ℕ → Bool
is_name_end c = is_lower c || is_digit c

-- `([a-z0-9-]*[a-z0-9])?$`
unfoldable pub name_tail : Bytes → Bool
name_tail [] = true
name_tail (c ∷ []) = is_name_end c
name_tail (c ∷ d ∷ s) = (is_name_end c || c == b'-') && name_tail (d ∷ s)

-- `stepNameRe`
unfoldable pub step_name_match : Bytes → Bool
unfolding name_tail
step_name_match [] = false
step_name_match (c ∷ s) = is_name_end c && name_tail s

unfoldable pub env_key_tail : Bytes → Bool
env_key_tail [] = true
env_key_tail (c ∷ s) = (is_lower c || is_upper c || c == b'_' || is_digit c) && env_key_tail s

-- `envKeyRe`
unfoldable pub env_key_match : Bytes → Bool
unfolding env_key_tail
env_key_match [] = false
env_key_match (c ∷ s) = (is_lower c || is_upper c || c == b'_') && env_key_tail s

-- `strings.ToUpper` on the names that `envKeyRe` admits, which are ASCII.
unfoldable pub to_upper : Bytes → Bytes
to_upper [] = []
to_upper (c ∷ s) = (if is_lower c then c - 32 else c) ∷ to_upper s

abbrev pub is_empty {ℓ} : {A : Type ℓ} → List A → Bool
is_empty [] = true
is_empty (_ ∷ _) = false

abbrev pub is_set {ℓ} : {A : Type ℓ} → Option A → Bool
is_set none = false
is_set (some _) = true

abbrev pub is_zero : ℤ → Bool
is_zero z = not (ltb_ℤ z (pos 0)) && not (ltb_ℤ (pos 0) z)

-- `if present { set[k] = true }`
abbrev pub mark : Bool → Kind → List Kind → List Kind
mark true k set = set ++ k ∷ []
mark false k set = set

-- The keys of the local `set`, in the order of the tests.
abbrev pub kinds_set : RawStep → List Kind
kinds_set rs = mark (not (is_empty rs.notify)) Kind.notify (
    mark (is_set rs.scale) Kind.scale (
      mark (not (is_empty rs.deploy)) Kind.deploy
        (mark (not (is_empty rs.image)) Kind.image (mark (not (is_empty rs.app)) Kind.app []))))

-- `len(set) != 1`, and the only key.
abbrev pub only_kind : Bytes → List Kind → Result Kind
only_kind name (k ∷ []) = passed k
only_kind name set = failed (not_one_kind name (sort_strings (map kind_name set)))

unfoldable pub derive_kind : Bytes → RawStep → Result Kind
derive_kind name rs = only_kind name (kinds_set rs)

unfoldable pub check_field_legality : Bytes → Kind → RawStep → Result (Unit {0})
check_field_legality name kind rs = do
  reject (not (is_image kind) && not (is_empty rs.command)) (command_illegal name)
  reject (not (is_image kind) && not (is_zero rs.gpu)) (gpu_illegal name)
  reject (not (is_app kind) && not (is_image kind) && not (is_empty rs.env)) (env_illegal name)
  reject (not (is_app kind) && not (is_image kind) && not (is_zero rs.retries))
      (retries_illegal name)
  reject (not (is_app kind) && not (is_image kind) && not (is_empty rs.inputs))
      (inputs_illegal name)
  reject (not (is_app kind) && not (is_image kind) && not (is_empty rs.outputs))
      (outputs_illegal name)

-- `rs.Scale.Replicas`; `deriveKind` gives the kind `scale` only where `rs.Scale` is not nil.
abbrev pub scale_bad : Option ScaleAction → Bool
scale_bad none = false
scale_bad (some a) = ltb_ℤ a.replicas (pos 0) || ltb_ℤ (pos 50) a.replicas

-- The `switch kind`.
unfoldable pub check_kind_value : Bytes → Kind → RawStep → Result (Unit {0})
check_kind_value name Kind.scale rs = reject (scale_bad rs.scale) (bad_replicas name)
check_kind_value name Kind.notify rs = do
  reject (length rs.notify == 0) (notify_empty name)
  reject (ltb 500 (length rs.notify)) (notify_long name)
check_kind_value name _ rs = passed tt

unfoldable pub check_env_keys : Bytes → List (Bytes × Bytes) → Result (Unit {0})
check_env_keys name [] = passed tt
check_env_keys name ((k, v) ∷ env) = do
  reject (not (env_key_match k)) (bad_env_key name k)
  check_env_keys name env

unfoldable pub check_outputs : Bytes → List Bytes → (Bytes → Bool) → Result (Unit {0})
check_outputs name [] seen = passed tt
check_outputs name (o ∷ outputs) seen = do
  reject (not (env_key_match o)) (bad_output name o)
  reject (seen (to_upper o)) (duplicate_output name o)
  check_outputs name outputs (update seen (to_upper o) true)

unfoldable pub check_step_values : Bytes → Kind → RawStep → Result (Unit {0})
unfolding check_kind_value check_env_keys check_outputs
check_step_values name kind rs = do
  check_kind_value name kind rs
  check_env_keys name rs.env
  check_outputs name rs.outputs (λ _. false)
