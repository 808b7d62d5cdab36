-- ===== src/Canary/Deployments.antt =====
-- internal/store/deployments.go, the outcomes and policies of internal/store/policies.go, and the
-- parts of an app that a deploy reads. The deployments table is kept newest row first.
use luncur.Common.{
  ℕ, ◌+◌, max, Bool, true, false, Option, none, some, List, [], ◌∷◌, ◌==◌, if◌then◌else◌, take,
  Bytes, update,
}
use luncur.Canary.Rows.{find_row, set_row}
use luncur.Kube.Judge.{FailReason}

-- The messages that the step machine and the gate record; a message's arguments are kept.
pub data Reason : Type 0 where
  by_request canary_gone app_gone gate_timeout : Reason
  superseded gate_superseded : ℕ → Reason
  promote_error route_error apply_error : Bytes → Reason
  judged : FailReason → Reason
  low_success : ℕ → ℕ → ℕ → Reason
  canary_restarted : Bytes → Bytes → Reason
  canary_aborted : Reason → Reason

pub data Strategy : Type 0 where
  rolling canary bluegreen : Strategy

pub data Status : Type 0 where
  building deploying live failed : Status

-- `rolled_back_from` is empty for a deploy that is no rollback.
pub record Deployment : Type 0 where
  pub id : Bytes
  pub app_id : ℕ
  pub seq : ℕ
  pub status : Status
  pub image_ref : Bytes
  pub rolled_back_from : Bytes

abbrev pub Deployments : Type 0
Deployments = List Deployment

abbrev pub deployment_key : Deployment → Bytes
deployment_key d = d.id

abbrev pub is_live : Status → Bool
is_live live = true
is_live _ = false

abbrev pub is_deploying : Status → Bool
is_deploying deploying = true
is_deploying _ = false

-- `SELECT COALESCE(MAX(seq), 0) FROM deployments WHERE app_id = ?`
unfoldable pub max_seq : ℕ → Deployments → ℕ
max_seq app_id [] = 0
max_seq app_id (d ∷ rows) =
    let rest = max_seq app_id rows in if d.app_id == app_id then max d.seq rest else rest

unfoldable pub get_deployment : Deployments → Bytes → Option Deployment
get_deployment rows id = find_row deployment_key id rows

unfoldable pub set_deployment_status : Bytes → Status → Deployments → Deployments
set_deployment_status id status rows =
    set_row deployment_key id (λ d. record d { status = status }) rows

unfoldable pub latest_deployment : Deployments → ℕ → Option Deployment
latest_deployment [] app_id = none
latest_deployment (d ∷ rows) app_id =
    let rest = latest_deployment rows app_id in if d.app_id == app_id then some d else rest

-- `WHERE d.app_id = ? ORDER BY d.rowid DESC`
unfoldable pub deployments_of : Deployments → ℕ → Deployments
deployments_of [] app_id = []
deployments_of (d ∷ rows) app_id =
    let rest = deployments_of rows app_id in if d.app_id == app_id then d ∷ rest else rest

-- `LIMIT 50`
unfoldable pub list_deployments : Deployments → ℕ → Deployments
list_deployments rows app_id = take 50 (deployments_of rows app_id)

unfoldable pub rollback_row : Bytes → ℕ → Bytes → Bytes → Deployments → Deployment
rollback_row id app_id image_ref from rows = record {
  id = id;
  app_id = app_id;
  seq = max_seq app_id rows + 1;
  status = deploying;
  image_ref = image_ref;
  rolled_back_from = from;
}

-- The ids are what `NewID` draws; `none` where each of them is taken.
unfoldable pub insert_attempts :
    List Bytes → ℕ → Bytes → Bytes → Deployments → Option (Deployment × Deployments)
insert_attempts [] app_id image_ref from rows = none
insert_attempts (id ∷ ids) app_id image_ref from rows = elim (get_deployment rows id) [
  | none ↦ some (
    rollback_row id app_id image_ref from rows,
    rollback_row id app_id image_ref from rows ∷ rows,
  )
  | some d ↦ insert_attempts ids app_id image_ref from rows
]

abbrev pub max_id_insert_attempts : ℕ
max_id_insert_attempts = 2

unfoldable pub create_rollback_deployment :
    List Bytes → ℕ → Bytes → Bytes → Deployments → Option (Deployment × Deployments)
create_rollback_deployment ids = insert_attempts (take max_id_insert_attempts ids)

pub record DeployOutcome : Type 0 where
  pub fail_reason : Option Reason
  pub ready_at : Option ℕ
  pub ready : ℕ
  pub want : ℕ

-- The outcomes table: the zero outcome where there is no row.
abbrev pub Outcomes : Type 0
Outcomes = Bytes → DeployOutcome

abbrev pub set_deploy_progress : Bytes → ℕ → ℕ → Outcomes → Outcomes
set_deploy_progress id ready want rows =
    update rows id (record (rows id) { ready = ready; want = want })

abbrev pub set_deploy_fail_reason : Bytes → Reason → Outcomes → Outcomes
set_deploy_fail_reason id why rows = update rows id (record (rows id) { fail_reason = some why })

abbrev pub set_deploy_ready : Bytes → ℕ → Outcomes → Outcomes
set_deploy_ready id now rows = update rows id (record (rows id) { ready_at = some now })

-- The fields of `AppPolicy` that a deploy reads; an interval is in seconds.
pub record AppPolicy : Type 0 where
  pub auto_rollback : Bool
  pub rollout_timeout : ℕ
  pub strategy : Strategy
  pub canary_steps : List ℕ
  pub canary_interval : ℕ
  pub canary_min_success : ℕ
  pub bluegreen_keep : ℕ

unfoldable pub default_app_policy : AppPolicy
default_app_policy = record {
  auto_rollback = true;
  rollout_timeout = 300;
  strategy = rolling;
  canary_steps = 10 ∷ 50 ∷ [];
  canary_interval = 120;
  canary_min_success = 99;
  bluegreen_keep = 600;
}

-- `kind` is "" for a web app that names none.
pub record App : Type 0 where
  pub id : ℕ
  pub name : Bytes
  pub kind : Bytes
  pub internal : Bool
  pub ejected : Bool
  pub replicas : ℕ
  pub gpu_count : ℕ
  pub volumes : ℕ
