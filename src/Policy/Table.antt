-- ===== src/Policy/Table.antt =====
-- The policies that the table app_policies (internal/store/policies.go) holds and gives back.
use luncur.Common.{
  ℕ, ◌≡◌, refl, sym, ap, ◌∙◌, subst, ◌≢◌, Bool, true, false, not, some, List, [], ◌∷◌, arith, ◌==◌,
  if◌then◌else◌, All, ℤ, pos, IsInt,
}
use luncur.Common.Fallible.{Fallible, >>=_right, unless_right, wrong, right}
use luncur.Policy.Steps.{StepsError, parse_canary_steps, format_canary_steps}
use luncur.Policy.Stored.{
  AppPolicy, PolicyTable, policy_probes, policy_security, policy_strategies, one_of, outside,
  steps_checked, validate, steps_or, read_row, get_app_policy, policy_row, put_row, set_app_policy,
  bad_timeout, bad_probe, bad_security, bad_strategy, bad_interval, bad_success, bad_keep,
}
use luncur.Policy.Weights.{IsLadder, parse_canary_steps-IsLadder}
use luncur.Policy.RoundTrip.{parse-format}

-- Every field of a policy is in its range.
pub record InRange (p : AppPolicy) : Type 0 where
  pub timeout : outside 30 3600 p.rollout_timeout ≡ false
  pub probe : one_of p.probe policy_probes ≡ true
  pub security : one_of p.security policy_security ≡ true
  pub strategy : one_of p.strategy policy_strategies ≡ true
  pub interval : outside 10 3600 p.canary_interval ≡ false
  pub success : outside 50 100 p.canary_min_success ≡ false
  pub keep : outside 0 86400 p.bluegreen_keep ≡ false
  pub steps : IsLadder p.canary_steps

steps_checked_right :
    (p q : AppPolicy) (r : Fallible StepsError (List ℤ))
    → steps_checked p r ≡ right q
    → (ns : List ℤ) × (r ≡ right ns) × (p ≡ q)
steps_checked_right p q (wrong e) h = cc
steps_checked_right p q (right ns) h = (ns, refl, cc)

not-false : (b : Bool) → not b ≡ false → b ≡ true
not-false true h = refl
not-false false h = cc

-- What `Validate` lets pass is in range, if its steps are ints.
pub validate-InRange :
    (p q : AppPolicy)
    → All IsInt p.canary_steps
    → validate p ≡ right q
    → InRange p × (parse_canary_steps (format_canary_steps p.canary_steps) ≡ right p.canary_steps)
unfolding validate
validate-InRange p q ints h =
    let (a, h1) = unless_right (outside 30 3600 p.rollout_timeout) bad_timeout _ h in
    let (b, h2) = unless_right (not (one_of p.probe policy_probes)) bad_probe _ h1 in
    let (c, h3) = unless_right (not (one_of p.security policy_security)) bad_security _ h2 in
    let (d, h4) = unless_right (not (one_of p.strategy policy_strategies)) bad_strategy _ h3 in
    let (e, h5) = unless_right (outside 10 3600 p.canary_interval) bad_interval _ h4 in
    let (f, h6) = unless_right (outside 50 100 p.canary_min_success) bad_success _ h5 in
    let (g, h7) = unless_right (outside 0 86400 p.bluegreen_keep) bad_keep _ h6 in
    let (ns, reads, _) =
      steps_checked_right p q (parse_canary_steps (format_canary_steps p.canary_steps)) h7 in
    let same = parse-format p.canary_steps ns ints reads in
    (
      record {
        timeout = a;
        probe = not-false _ b;
        security = not-false _ c;
        strategy = not-false _ d;
        interval = e;
        success = f;
        keep = g;
        steps =
            subst IsLadder same
              (parse_canary_steps-IsLadder (format_canary_steps p.canary_steps) ns reads);
      },
      reads ∙ ap right same,
    )

set_right :
    (p : AppPolicy) (rows rows' : PolicyTable)
    → set_app_policy p rows ≡ right rows'
    → (q : AppPolicy) × (validate p ≡ right q)
      × (put_row rows p.app_id (some (policy_row p)) ≡ rows')
unfolding set_app_policy
set_right p rows rows' h =
    let (q, ok, e) =
      >>=_right (validate p) (λ p'. right (put_row rows p.app_id (some (policy_row p)))) h in
    (q, ok, cc)

-- If a policy's steps are ints and `SetAppPolicy` accepts it, then `GetAppPolicy` gives it back as it
-- was set, and every other app's policy as before.
pub get-set_app_policy :
    (p : AppPolicy) (rows rows' : PolicyTable)
    → All IsInt p.canary_steps
    → set_app_policy p rows ≡ right rows'
    → (get_app_policy rows' p.app_id ≡ p)
      × ((other : ℕ) → p.app_id ≢ other → get_app_policy rows' other ≡ get_app_policy rows other)
unfolding get_app_policy
get-set_app_policy p rows rows' ints h =
    let (q, ok, e) = set_right p rows rows' h in
    let (_, reads) = validate-InRange p q ints ok in
    let hit : (p.app_id == p.app_id) ≡ true = ground arith in
    (
      ap (λ t. read_row p.app_id (t p.app_id)) (sym e)
          ∙ ap (λ b. read_row p.app_id (if b then some (policy_row p) else rows p.app_id)) hit
          ∙ ap (λ r. record p { canary_steps = steps_or (pos 10 ∷ pos 50 ∷ []) r }) reads,
      λ other ne.
          let missed : (p.app_id == other) ≡ false = ground arith in
          ap (λ t. read_row other (t other)) (sym e)
          ∙ ap (λ b. read_row other (if b then some (policy_row p) else rows other)) missed,
    )
