-- ===== src/Canary/Sizes.antt =====
-- internal/server/canary.go: `deployStrategy`, `canaryReplicas`, `canarySteps`, `canaryHold`, and
-- `strategyError` of internal/server/policy.go. `stable` is an int32, so the
-- product in `canaryReplicas` is below 2 ^ 38, and its denominator is at most 99, where rounding up
-- the float64 quotient is exact. What the conversion to int32 makes of a larger quotient is
-- implementation-defined in Go: the parameter `out_of_int32`.
use luncur.Common.{
  ℕ, ◌+◌, ◌-◌, ◌*◌, ◌/◌, max, Bool, true, false, not, ◌&&◌, ◌||◌, none, some, List, [], ◌∷◌, ◌++◌,
  ltb, leb, ◌==◌, if◌then◌else◌, Bytes, codes, str_eq,
}
use luncur.Canary.Deployments.{
  Strategy, Deployment, Deployments, is_live, list_deployments, AppPolicy, App, rolling, bluegreen,
}
use luncur.Canary.Rollouts.{get_rollout}
use luncur.Canary.World.{World, Answers, sample, no_deployment, unreadable}

abbrev pub canary_name : Bytes → Bytes
canary_name app = app ++ codes "-canary"

abbrev pub split_name : Bytes → Bytes
split_name app = app ++ codes "-split"

abbrev pub is_web : Bytes → Bool
is_web kind = str_eq kind [] || str_eq kind (codes "web")

-- `strategyError(…) != nil`
abbrev pub strategy_refused : App → Strategy → Bool
strategy_refused a rolling = false
strategy_refused a s = not (is_web a.kind) || ltb 0 a.volumes || ltb 0 a.gpu_count

abbrev pub is_rolling : Strategy → Bool
is_rolling rolling = true
is_rolling _ = false

abbrev pub is_bluegreen : Strategy → Bool
is_bluegreen bluegreen = true
is_bluegreen _ = false

-- Whether a deployment of the history other than `id` is live.
unfoldable pub has_other_live : Bytes → Deployments → Bool
has_other_live id [] = false
has_other_live id (h ∷ history) =
    (not (str_eq h.id id) && is_live h.status) || has_other_live id history

unfoldable pub deploy_strategy : Answers → World → App → Deployment → Strategy
deploy_strategy ans w a d =
    let strategy = (w.policies a.id).strategy in
    if not (str_eq d.rolled_back_from []) || not (is_web a.kind) || a.internal || not ans.can_watch
    then rolling
    else if is_rolling strategy || strategy_refused a strategy
    then rolling
    else elim (get_rollout w.rollouts d.id) [
      | some r ↦ strategy
      | none ↦
          if has_other_live d.id (list_deployments w.deployments a.id) then strategy else rolling
    ]

-- The stable track's size.
abbrev pub stable_replicas : Answers → App → ℕ
stable_replicas ans a = elim (ans.status_of a.name) [
  | no_deployment ↦ max 1 a.replicas
  | unreadable ↦ max 1 a.replicas
  | sample r ↦ if ltb 0 r.want then r.want else max 1 a.replicas
]

-- `int32(f)` for a whole `f`: above the range the result is the platform's, with 0 for a negative.
unfoldable pub int32_of : (ℕ → ℕ) → ℕ → ℕ
int32_of out_of_int32 n = if leb n 2147483647 then n else out_of_int32 n

-- ⌈stable * w / (100 - w)⌉ for 0 < w < 100, as an int32, and at least 1
unfoldable pub ratio_replicas : (ℕ → ℕ) → ℕ → ℕ → ℕ
ratio_replicas out_of_int32 stable w =
    max 1 (int32_of out_of_int32 ((stable * w + (99 - w)) / (100 - w)))

unfoldable pub sized_replicas : (ℕ → ℕ) → Strategy → ℕ → ℕ → Bool → ℕ
sized_replicas out_of_int32 strategy stable w weighted =
    if is_bluegreen strategy
    then stable
    else if weighted || w == 0
    then 1
    else if leb 100 w
    then stable
    else ratio_replicas out_of_int32 stable w

abbrev pub canary_replicas : Answers → App → Strategy → ℕ → Bool → ℕ
canary_replicas ans a strategy w weighted =
    sized_replicas ans.out_of_int32 strategy (stable_replicas ans a) w weighted

abbrev pub canary_steps : AppPolicy → Strategy → List ℕ
canary_steps pol bluegreen = 100 ∷ []
canary_steps pol _ = pol.canary_steps

-- In seconds; `canaryTimeScale` is 1 outside tests.
abbrev pub canary_hold : AppPolicy → Strategy → ℕ
canary_hold pol bluegreen = max pol.bluegreen_keep pol.canary_interval
canary_hold pol _ = pol.canary_interval
