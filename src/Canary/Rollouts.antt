-- ===== src/Canary/Rollouts.antt =====
-- internal/store/rollouts.go: the rollouts table, newest row first.
use luncur.Common.{
  ℕ, suc, ◌+◌, Bool, true, false, ◌&&◌, Option, none, some, List, [], ◌∷◌, ◌==◌, if◌then◌else◌,
  Bytes,
}
use luncur.Canary.Deployments.{Reason, Strategy}
use luncur.Canary.Rows.{find_row, set_row}

pub data Phase : Type 0 where
  starting stepping promote_requested abort_requested promoting done aborted : Phase

-- A time is in seconds; a missing note is `none`.
pub record Rollout : Type 0 where
  pub deploy_id : Bytes
  pub app_id : ℕ
  pub strategy : Strategy
  pub step : ℕ
  pub weight : ℕ
  pub phase : Phase
  pub step_started_at : ℕ
  pub probes_ok : ℕ
  pub probes_total : ℕ
  pub note : Option Reason
  pub updated_at : ℕ

abbrev pub Rollouts : Type 0
Rollouts = List Rollout

abbrev pub key : Rollout → Bytes
key r = r.deploy_id

abbrev pub rollout_active : Phase → Bool
rollout_active done = false
rollout_active aborted = false
rollout_active _ = true

unfoldable pub get_rollout : Rollouts → Bytes → Option Rollout
get_rollout rows id = find_row key id rows

-- `none` where the primary key is taken.
unfoldable pub create_rollout : Bytes → ℕ → Strategy → ℕ → Rollouts → Option Rollouts
create_rollout id app_id strategy now rows = elim (get_rollout rows id) [
  | some r ↦ none
  | none ↦ some (
      record {
        deploy_id = id;
        app_id = app_id;
        strategy = strategy;
        step = 0;
        weight = 0;
        phase = starting;
        step_started_at = now;
        probes_ok = 0;
        probes_total = 0;
        note = none;
        updated_at = now;
      }
      ∷ rows)
]

unfoldable pub active_rollout : Rollouts → ℕ → Option Rollout
active_rollout [] app_id = none
active_rollout (r ∷ rows) app_id =
    let rest = active_rollout rows app_id in
    if r.app_id == app_id && rollout_active r.phase then some r else rest

abbrev pub at_step : ℕ → ℕ → ℕ → Rollout → Rollout
at_step step weight now r = record r {
  step = step;
  weight = weight;
  phase = stepping;
  probes_ok = 0;
  probes_total = 0;
  step_started_at = now;
  updated_at = now;
}

unfoldable pub set_rollout_step : Bytes → ℕ → ℕ → ℕ → Rollouts → Rollouts
set_rollout_step id step weight now rows = set_row key id (at_step step weight now) rows

abbrev pub in_phase : Phase → Option Reason → ℕ → Rollout → Rollout
in_phase phase none now r = record r { phase = phase; updated_at = now }
in_phase phase (some why) now r = record r { phase = phase; note = some why; updated_at = now }

unfoldable pub set_rollout_phase : Bytes → Phase → Option Reason → ℕ → Rollouts → Rollouts
set_rollout_phase id phase why now rows = set_row key id (in_phase phase why now) rows

abbrev pub requestable : Phase → Bool
requestable starting = true
requestable stepping = true
requestable _ = false

abbrev pub requested : Phase → ℕ → Rollout → Rollout
requested phase now r =
    if requestable r.phase then record r { phase = phase; updated_at = now } else r

-- Whether a row was affected, and the table.
unfoldable pub request_rollout_phase : Bytes → Phase → ℕ → Rollouts → Bool × Rollouts
request_rollout_phase id phase now rows = (
  elim (get_rollout rows id) [ none ↦ false | some r ↦ requestable r.phase ],
  set_row key id (requested phase now) rows,
)

abbrev pub probed : Bool → ℕ → Rollout → Rollout
probed ok now r = record r {
  probes_ok = r.probes_ok + (if ok then 1 else 0);
  probes_total = suc r.probes_total;
  updated_at = now;
}

unfoldable pub add_rollout_probe : Bytes → Bool → ℕ → Rollouts → Rollouts
add_rollout_probe id ok now rows = set_row key id (probed ok now) rows
