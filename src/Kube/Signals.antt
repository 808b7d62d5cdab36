-- ===== src/Kube/Signals.antt =====
-- `Judge` of internal/kube/rollout.go.
use luncur.Common.{
  ℕ, ◌+◌, ◌≤◌, ◌≡◌, ◌≢◌, ◌⊎◌, Bool, true, false, Option, none, some, List, [], ◌∷◌, Memᴰ, Bytes,
  codes,
}
use luncur.Kube.Judge.{
  Rollout, RolloutPod, RolloutVerdict, FailReason, first_line, oom_killed, crash_looping,
  bad_config, image_pull, unschedulable, timed_out,
}

-- Every wanted replica is updated and available, and no old pod remains.
abbrev pub Finished : Rollout → Type 0
Finished r =
    (r.observed ≡ true) × (r.want ≤ r.updated) × (r.want ≤ r.available) × (r.replicas ≤ r.updated)

-- `t` is `s`, or the default where `s` is empty.
abbrev pub Defaults : Bytes → Bytes → Bytes → Type 0
Defaults s default t = (s ≢ [] → t ≡ s) × (s ≡ [] → t ≡ default)

abbrev pub OutOfMemory : RolloutPod → Type 0
OutOfMemory p = p.last_terminated ≡ codes "OOMKilled"

abbrev pub Crashing : RolloutPod → Type 0
Crashing p = (p.waiting ≡ codes "CrashLoopBackOff") ⊎ (3 ≤ p.restarts)

abbrev pub Misconfigured : RolloutPod → Type 0
Misconfigured p =
    (p.waiting ≡ codes "CreateContainerConfigError") ⊎ (p.waiting ≡ codes "InvalidImageName")

-- For a minute since the pod was created an image that cannot be pulled is no failure.
abbrev pub PullFailing : ℕ → RolloutPod → Type 0
PullFailing now p =
    ((p.waiting ≡ codes "ImagePullBackOff") ⊎ (p.waiting ≡ codes "ErrImagePull"))
    × (p.created + 60 ≤ now)

-- The reason that an unready pod gives: the first of its signals, with what the message names.
abbrev pub Shows : ℕ → RolloutPod → FailReason → Type 0
Shows now p (oom_killed limit) = OutOfMemory p × Defaults p.memory_limit (codes "memory") limit
Shows now p (crash_looping why restarts) =
    (OutOfMemory p → ⊥)
    × Crashing p
    × Defaults p.last_terminated (codes "container exited") why
    × (restarts ≡ p.restarts)
Shows now p (bad_config line) =
    (OutOfMemory p → ⊥)
    × (Crashing p → ⊥)
    × Misconfigured p
    × (line ≡ first_line p.waiting_message p.waiting)
Shows now p (image_pull line) =
    (OutOfMemory p → ⊥)
    × (Crashing p → ⊥)
    × (Misconfigured p → ⊥)
    × PullFailing now p
    × (line ≡ first_line p.waiting_message p.waiting)
Shows now p (unschedulable line) = ⊥
Shows now p (timed_out timeout available want) = ⊥

-- The pod is ready, or it shows no signal.
abbrev pub Silent : ℕ → RolloutPod → Type 0
Silent now p =
    (p.ready ≡ true)
    ⊎ ((OutOfMemory p → ⊥) × (Crashing p → ⊥) × (Misconfigured p → ⊥) × (PullFailing now p → ⊥))

-- The first pod that is not silent gives the reason.
pub data FirstFailing (now : ℕ) (why : FailReason) : List RolloutPod → Type 0 where
  failing_here :
      {p : RolloutPod} {pods : List RolloutPod}
      → p.ready ≡ false
      → Shows now p why
      → FirstFailing now why (p ∷ pods)
  failing_later :
      {p : RolloutPod} {pods : List RolloutPod}
      → Silent now p
      → FirstFailing now why pods
      → FirstFailing now why (p ∷ pods)

abbrev pub AllSilent : ℕ → List RolloutPod → Type 0
AllSilent now pods = (p : RolloutPod) → Memᴰ p pods → Silent now p

-- The first pod that no node takes gives the line.
pub data FirstPending (line : Bytes) : List RolloutPod → Type 0 where
  pending_here :
      {p : RolloutPod} {pods : List RolloutPod}
      → p.unschedulable ≢ []
      → line ≡ first_line p.unschedulable (codes "no node fits")
      → FirstPending line (p ∷ pods)
  pending_later :
      {p : RolloutPod} {pods : List RolloutPod}
      → p.unschedulable ≡ []
      → FirstPending line pods
      → FirstPending line (p ∷ pods)

abbrev pub NonePending : List RolloutPod → Type 0
NonePending pods = (p : RolloutPod) → Memᴰ p pods → p.unschedulable ≡ []

abbrev pub Overdue : Rollout → ℕ → ℕ → ℕ → Type 0
Overdue r now started timeout = (r.deadline_exceeded ≡ true) ⊎ (started + timeout ≤ now)

abbrev pub verdict_of : Bool → Bool → Option FailReason → RolloutVerdict
verdict_of over broken why = record { is_done = over; is_failed = broken; reason = why }

-- The five verdicts on a sample, at most one of which applies.
pub data Classified (r : Rollout) (now started timeout : ℕ) : RolloutVerdict → Type 0 where
  rolled_out : Finished r → Classified r now started timeout (verdict_of true false none)
  pod_fails :
      {why : FailReason}
      → (Finished r → ⊥)
      → FirstFailing now why r.pods
      → Classified r now started timeout (verdict_of false true (some why))
  no_node :
      {line : Bytes}
      → (Finished r → ⊥)
      → AllSilent now r.pods
      → Overdue r now started timeout
      → FirstPending line r.pods
      → Classified r now started timeout (verdict_of false true (some (unschedulable line)))
  too_late :
      (Finished r → ⊥)
      → AllSilent now r.pods
      → Overdue r now started timeout
      → NonePending r.pods
      → Classified r now started timeout
          (verdict_of false true (some (timed_out timeout r.available r.want)))
  still_rolling :
      (Finished r → ⊥)
      → AllSilent now r.pods
      → (Overdue r now started timeout → ⊥)
      → Classified r now started timeout (verdict_of false false none)
