-- ===== src/Kube/Tests.antt =====
-- The theorem on the verdict at a concrete sample.
use luncur.Common.{
  ℕ, ◌+◌, ◌≡◌, refl, true, false, not, some, [], ◌∷◌, Memᴰ, length, Bytes, codes, str_eq,
}
use luncur.Kube.Status.{
  OwnerReference, ReplicaSet, DeploymentObject, newest_replica_set, newest_of, owned_by, is_current,
}
use luncur.Kube.Newest.{newest_replica_set-Chosen, Chosen, Owned}
use luncur.Kube.Drain.{
  DrainPod, Pass, DrainProgress, evicted, too_many_requests, drain, drain_last, drain_batch,
  run_pass, batch_of, drainable, has_daemon_set,
}
use luncur.Kube.Evictions.{Gone}
use luncur.Kube.Draining.{drain-Drained}
use luncur.Kube.Judge.{Rollout, RolloutPod, judge}
use luncur.Kube.Signals.{Classified}
use luncur.Kube.Verdicts.{judge-Classified}

abbrev crashing_pod : RolloutPod
crashing_pod = record {
  name = codes "shop-1";
  ready = false;
  restarts = 4;
  waiting = codes "CrashLoopBackOff";
  waiting_message = [];
  last_terminated = codes "Error";
  unschedulable = [];
  memory_limit = [];
  created = 5;
}

abbrev half_rolled : Rollout
half_rolled = record {
  want = 2;
  updated = 1;
  available = 1;
  replicas = 3;
  observed = true;
  deadline_exceeded = false;
  pods = crashing_pod ∷ [];
}

judge-Classified_example : Classified half_rolled 40 0 300 (judge half_rolled 40 0 300)
judge-Classified_example = judge-Classified half_rolled 40 0 300

abbrev owner : OwnerReference
owner = record { kind = codes "Deployment"; uid = codes "u1" }

abbrev set_of : Bytes → ℕ → ReplicaSet
set_of revision created = record { owners = owner ∷ []; revision = revision; created = created }

abbrev shop_object : DeploymentObject
shop_object = record {
  uid = codes "u1";
  has_selector = true;
  revision = codes "2";
  generation = 3;
  observed_generation = 3;
  spec_replicas = some 2;
  updated_replicas = 1;
  available_replicas = 1;
  replicas = 3;
  conditions = [];
}

newest_replica_set-Chosen_example :
    Chosen (codes "u1") (set_of (codes "3") 9 ∷ set_of (codes "2") 5 ∷ []) (set_of (codes "2") 5)
    × ((r : ReplicaSet)
        → Memᴰ r (set_of (codes "3") 9 ∷ set_of (codes "2") 5 ∷ [])
        → Owned (codes "u1") r
        → is_current (codes "2") r ≡ true
        → is_current (codes "2") (set_of (codes "2") 5) ≡ true)
unfolding newest_replica_set newest_of owned_by str_eq
newest_replica_set-Chosen_example =
    newest_replica_set-Chosen shop_object (set_of (codes "3") 9 ∷ set_of (codes "2") 5 ∷ [])
      (set_of (codes "2") 5) refl

abbrev busy_pod : DrainPod
busy_pod = record {
  namespace = codes "shop";
  name = codes "shop-1";
  is_finished = false;
  is_deleted = false;
  is_mirror = false;
  owner_kinds = codes "ReplicaSet" ∷ [];
}

abbrev refusing : Pass
refusing = record {
  evict = λ p. too_many_requests (codes "budget");
  past_deadline = false;
  context_done = false;
}

abbrev granting : Pass
granting = record { evict = λ p. evicted; past_deadline = true; context_done = false }

abbrev one_gone : DrainProgress
one_gone = record { total = 1; evicted = 1; blocked = [] }

drain-Drained_example :
    ((p : DrainPod)
      → Memᴰ p (busy_pod ∷ [])
      → drainable p ≡ true
      → Gone (refusing ∷ granting ∷ []) p)
    × (one_gone.total
        ≡ length (batch_of (λ p. not false) (busy_pod ∷ []))
          + length (batch_of (λ p. false) (busy_pod ∷ [])))
    × (one_gone.evicted ≡ one_gone.total)
    × (one_gone.blocked ≡ [])
unfolding drain drain_last drain_batch run_pass batch_of drainable has_daemon_set str_eq
drain-Drained_example =
    drain-Drained (λ p. false) (refusing ∷ granting ∷ []) (busy_pod ∷ []) one_gone refl
