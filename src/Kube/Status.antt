-- ===== src/Kube/Status.antt =====
-- internal/kube/rollout.go: `RolloutStatus`, `newestReplicaSet`, `ownedBy` and `rolloutPod`. The
-- cluster's objects are records of the fields that the code reads; a list that the API server
-- returns, or its error, is an argument. A label selector is applied by the API server.
use luncur.Common.{
  ℕ, ◌+◌, Bool, true, false, not, ◌&&◌, ◌||◌, Option, none, some, List, [], ◌∷◌, ltb, leb,
  if◌then◌else◌, Bytes, codes, str_eq,
}
use luncur.Kube.Judge.{Rollout, RolloutPod}

pub record OwnerReference : Type 0 where
  pub kind : Bytes
  pub uid : Bytes

pub record ReplicaSet : Type 0 where
  pub owners : List OwnerReference
  pub revision : Bytes
  pub created : ℕ

-- `type`, and the status, which is True, False or Unknown.
pub record Condition : Type 0 where
  pub kind : Bytes
  pub status : Bytes
  pub reason : Bytes
  pub message : Bytes

-- A waiting state's reason and message, and the reasons of the current and the last termination.
pub record ContainerStatus : Type 0 where
  pub restart_count : ℕ
  pub waiting : Option (Bytes × Bytes)
  pub terminated : Option Bytes
  pub last_terminated : Option Bytes

pub record Pod : Type 0 where
  pub name : Bytes
  pub created : ℕ
  pub is_deleted : Bool
  pub conditions : List Condition
  pub memory_limit : Option Bytes
  pub statuses : List ContainerStatus

pub record DeploymentObject : Type 0 where
  pub uid : Bytes
  pub has_selector : Bool
  pub revision : Bytes
  pub generation : ℕ
  pub observed_generation : ℕ
  pub spec_replicas : Option ℕ
  pub updated_replicas : ℕ
  pub available_replicas : ℕ
  pub replicas : ℕ
  pub conditions : List Condition

unfoldable pub owned_by : List OwnerReference → Bytes → Bool
owned_by [] uid = false
owned_by (ref ∷ refs) uid =
    (str_eq ref.kind (codes "Deployment") && str_eq ref.uid uid) || owned_by refs uid

abbrev pub is_current : Bytes → ReplicaSet → Bool
is_current rev rs = not (str_eq rev []) && str_eq rs.revision rev

abbrev pub is_newer : ReplicaSet → Option ReplicaSet → Bool
is_newer rs none = true
is_newer rs (some newest) = ltb newest.created rs.created

-- The loop of `newestReplicaSet`, with the newest one so far.
unfoldable pub newest_of : Bytes → Bytes → Option ReplicaSet → List ReplicaSet → Option ReplicaSet
newest_of uid rev newest [] = newest
newest_of uid rev newest (rs ∷ items) =
    let skipped = newest_of uid rev newest items in
    let taken = newest_of uid rev (some rs) items in
    if not (owned_by rs.owners uid)
    then skipped
    else if is_current rev rs
    then some rs
    else if is_newer rs newest
    then taken
    else skipped

unfoldable pub newest_replica_set : DeploymentObject → List ReplicaSet → Option ReplicaSet
newest_replica_set dep items =
    if dep.has_selector then newest_of dep.uid dep.revision none items else none

-- The two conditions that `rolloutPod` reads.
unfoldable pub read_conditions : List Condition → RolloutPod → RolloutPod
read_conditions [] out = out
read_conditions (cond ∷ rest) out = read_conditions rest (
    if str_eq cond.kind (codes "Ready") && str_eq cond.status (codes "True")
    then record out { ready = true }
    else if str_eq cond.kind (codes "PodScheduled")
        && str_eq cond.status (codes "False")
        && str_eq cond.reason (codes "Unschedulable")
    then record out { unschedulable = cond.message }
    else out)

abbrev pub read_waiting : Option (Bytes × Bytes) → RolloutPod → RolloutPod
read_waiting none out = out
read_waiting (some (reason, message)) out =
    if str_eq out.waiting []
    then record out { waiting = reason; waiting_message = message }
    else out

abbrev pub read_terminated : Option Bytes → Option Bytes → RolloutPod → RolloutPod
read_terminated (some reason) last out =
    if str_eq out.last_terminated [] then record out { last_terminated = reason } else out
read_terminated none (some reason) out =
    if str_eq out.last_terminated [] then record out { last_terminated = reason } else out
read_terminated none none out = out

unfoldable pub read_statuses : List ContainerStatus → RolloutPod → RolloutPod
read_statuses [] out = out
read_statuses (cs ∷ rest) out = read_statuses rest (
    read_terminated cs.terminated cs.last_terminated
      (read_waiting cs.waiting (record out { restarts = out.restarts + cs.restart_count })))

unfoldable pub rollout_pod : Pod → RolloutPod
rollout_pod p = read_statuses p.statuses (
    read_conditions p.conditions (record {
      name = p.name;
      ready = false;
      restarts = 0;
      waiting = [];
      waiting_message = [];
      last_terminated = [];
      unschedulable = [];
      memory_limit = elim p.memory_limit [ none ↦ [] | some q ↦ q ];
      created = p.created;
    }))

unfoldable pub live_pods : List Pod → List RolloutPod
live_pods [] = []
live_pods (p ∷ items) =
    let rest = live_pods items in if p.is_deleted then rest else rollout_pod p ∷ rest

unfoldable pub is_past_deadline : List Condition → Bool
is_past_deadline [] = false
is_past_deadline (cond ∷ rest) =
    (str_eq cond.kind (codes "Progressing")
      && str_eq cond.reason (codes "ProgressDeadlineExceeded"))
    || is_past_deadline rest

-- Where each call of the API server succeeds; `pods_of` lists a replica set's pods.
unfoldable pub rollout_status :
    DeploymentObject → List ReplicaSet → (ReplicaSet → List Pod) → Rollout
rollout_status dep sets pods_of = record {
  want = elim dep.spec_replicas [ none ↦ 1 | some n ↦ n ];
  updated = dep.updated_replicas;
  available = dep.available_replicas;
  replicas = dep.replicas;
  observed = leb dep.generation dep.observed_generation;
  deadline_exceeded = is_past_deadline dep.conditions;
  pods = elim (newest_replica_set dep sets) [ none ↦ [] | some rs ↦ live_pods (pods_of rs) ];
}
