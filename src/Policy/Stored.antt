-- ===== src/Policy/Stored.antt =====
-- internal/store/policies.go: `AppPolicy`, `Validate`, and the table app_policies; `policyPatch` of
-- internal/server/policy.go. The table is a function of the app's id.
use luncur.Common.{
  ℕ, Bool, true, false, not, ◌||◌, Option, none, some, List, [], ◌∷◌, ◌==◌, if◌then◌else◌, Bytes,
  codes, str_eq, ℤ, ltb_ℤ, pos,
}
use luncur.Common.Fallible.{Fallible, ◌>>=◌, unless, wrong, right}
use luncur.Policy.Steps.{StepsError, parse_canary_steps, format_canary_steps}

pub record AppPolicy : Type 0 where
  pub app_id : ℕ
  pub auto_rollback : Bool
  pub rollout_timeout : ℤ
  pub probe : Bytes
  pub security : Bytes
  pub strategy : Bytes
  pub canary_steps : List ℤ
  pub canary_interval : ℤ
  pub canary_min_success : ℤ
  pub bluegreen_keep : ℤ

-- A row keeps the steps as text.
pub record PolicyRow : Type 0 where
  pub auto_rollback : Bool
  pub rollout_timeout : ℤ
  pub probe : Bytes
  pub security : Bytes
  pub strategy : Bytes
  pub canary_steps : Bytes
  pub canary_interval : ℤ
  pub canary_min_success : ℤ
  pub bluegreen_keep : ℤ

abbrev pub PolicyTable : Type 0
PolicyTable = ℕ → Option PolicyRow

abbrev pub policy_probes : List Bytes
policy_probes = codes "auto" ∷ codes "off" ∷ []

abbrev pub policy_security : List Bytes
policy_security = codes "baseline" ∷ codes "restricted" ∷ codes "relaxed" ∷ []

abbrev pub policy_strategies : List Bytes
policy_strategies = codes "rolling" ∷ codes "canary" ∷ codes "bluegreen" ∷ []

unfoldable pub default_app_policy : ℕ → AppPolicy
default_app_policy app_id = record {
  app_id = app_id;
  auto_rollback = true;
  rollout_timeout = pos 300;
  probe = codes "auto";
  security = codes "baseline";
  strategy = codes "rolling";
  canary_steps = pos 10 ∷ pos 50 ∷ [];
  canary_interval = pos 120;
  canary_min_success = pos 99;
  bluegreen_keep = pos 600;
}

unfoldable pub one_of : Bytes → List Bytes → Bool
one_of v [] = false
one_of v (s ∷ set) = str_eq v s || one_of v set

pub data PolicyError : Type 0 where
  bad_timeout bad_probe bad_security bad_strategy bad_interval bad_success bad_keep : PolicyError
  bad_steps : StepsError → PolicyError

-- `v < lo || v > hi`
abbrev pub outside : ℕ → ℕ → ℤ → Bool
outside lo hi v = ltb_ℤ v (pos lo) || ltb_ℤ (pos hi) v

abbrev pub steps_checked {ℓ} :
    {T : Type ℓ} → T → Fallible StepsError (List ℤ) → Fallible PolicyError T
steps_checked t (wrong e) = wrong (bad_steps e)
steps_checked t (right ns) = right t

-- The policy itself where `Validate` finds no error.
unfoldable pub validate : AppPolicy → Fallible PolicyError AppPolicy
validate p = unless (outside 30 3600 p.rollout_timeout) bad_timeout (
    unless (not (one_of p.probe policy_probes)) bad_probe (
      unless (not (one_of p.security policy_security)) bad_security (
        unless (not (one_of p.strategy policy_strategies)) bad_strategy (
          unless (outside 10 3600 p.canary_interval) bad_interval (
            unless (outside 50 100 p.canary_min_success) bad_success (
              unless (outside 0 86400 p.bluegreen_keep) bad_keep
                (steps_checked p (parse_canary_steps (format_canary_steps p.canary_steps)))))))))

abbrev pub steps_or : List ℤ → Fallible StepsError (List ℤ) → List ℤ
steps_or default (wrong e) = default
steps_or default (right ns) = ns

abbrev pub row_policy : ℕ → PolicyRow → AppPolicy
row_policy app_id r = record {
  app_id = app_id;
  auto_rollback = r.auto_rollback;
  rollout_timeout = r.rollout_timeout;
  probe = r.probe;
  security = r.security;
  strategy = r.strategy;
  canary_steps = steps_or (pos 10 ∷ pos 50 ∷ []) (parse_canary_steps r.canary_steps);
  canary_interval = r.canary_interval;
  canary_min_success = r.canary_min_success;
  bluegreen_keep = r.bluegreen_keep;
}

abbrev pub read_row : ℕ → Option PolicyRow → AppPolicy
read_row app_id none = default_app_policy app_id
read_row app_id (some r) = row_policy app_id r

unfoldable pub get_app_policy : PolicyTable → ℕ → AppPolicy
get_app_policy rows app_id = read_row app_id (rows app_id)

abbrev pub policy_row : AppPolicy → PolicyRow
policy_row p = record {
  auto_rollback = p.auto_rollback;
  rollout_timeout = p.rollout_timeout;
  probe = p.probe;
  security = p.security;
  strategy = p.strategy;
  canary_steps = format_canary_steps p.canary_steps;
  canary_interval = p.canary_interval;
  canary_min_success = p.canary_min_success;
  bluegreen_keep = p.bluegreen_keep;
}

-- `INSERT … ON CONFLICT DO UPDATE`
abbrev pub put_row : PolicyTable → ℕ → Option PolicyRow → PolicyTable
put_row rows app_id row j = if app_id == j then row else rows j

unfoldable pub set_app_policy : AppPolicy → PolicyTable → Fallible PolicyError PolicyTable
set_app_policy p rows = validate p >>= λ p'. right (put_row rows p.app_id (some (policy_row p)))

-- `INSERT OR REPLACE … SELECT`: nothing where there is no row to copy.
abbrev pub copied : PolicyTable → ℕ → Option PolicyRow → PolicyTable
copied rows to none = rows
copied rows to (some r) = put_row rows to (some r)

unfoldable pub copy_app_policy : ℕ → ℕ → PolicyTable → PolicyTable
copy_app_policy from to rows = copied rows to (rows from)

-- A field that is not there keeps its value.
pub record PolicyPatch : Type 0 where
  pub auto_rollback : Option Bool
  pub rollout_timeout : Option ℤ
  pub probe : Option Bytes
  pub security : Option Bytes
  pub strategy : Option Bytes
  pub canary_steps : Option Bytes
  pub canary_interval : Option ℤ
  pub canary_min_success : Option ℤ
  pub bluegreen_keep : Option ℤ

abbrev pub or_kept {ℓ} : {T : Type ℓ} → Option T → T → T
or_kept none t = t
or_kept (some u) t = u

abbrev pub patched_steps : Option Bytes → List ℤ → Fallible PolicyError (List ℤ)
patched_steps none ns = right ns
patched_steps (some s) ns = elim (parse_canary_steps s) [
  | wrong e ↦ wrong (bad_steps e)
  | right ms ↦ right ms
]

abbrev pub patched : PolicyPatch → AppPolicy → List ℤ → AppPolicy
patched pp p steps = record {
  app_id = p.app_id;
  auto_rollback = or_kept pp.auto_rollback p.auto_rollback;
  rollout_timeout = or_kept pp.rollout_timeout p.rollout_timeout;
  probe = or_kept pp.probe p.probe;
  security = or_kept pp.security p.security;
  strategy = or_kept pp.strategy p.strategy;
  canary_steps = steps;
  canary_interval = or_kept pp.canary_interval p.canary_interval;
  canary_min_success = or_kept pp.canary_min_success p.canary_min_success;
  bluegreen_keep = or_kept pp.bluegreen_keep p.bluegreen_keep;
}

unfoldable pub apply_patch : PolicyPatch → AppPolicy → Fallible PolicyError AppPolicy
apply_patch pp p =
    patched_steps pp.canary_steps p.canary_steps >>= λ steps. validate (patched pp p steps)
