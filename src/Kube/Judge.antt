-- ===== src/Kube/Judge.antt =====
-- internal/kube/rollout.go: `Rollout`, `RolloutPod`, `Done`, `Judge` and `firstLine`. Times are in
-- seconds; replica counts are not negative, as the API server validates them.
use luncur.Common.{
  trim, ℕ, ◌+◌, Bool, true, false, ◌&&◌, ◌||◌, Option, none, some, List, [], ◌∷◌, ◌++◌, ltb, leb,
  ◌==◌, if◌then◌else◌, length, take, Bytes, codes, str_eq,
}

pub record RolloutPod : Type 0 where
  pub name : Bytes
  pub ready : Bool
  pub restarts : ℕ
  pub waiting : Bytes
  pub waiting_message : Bytes
  pub last_terminated : Bytes
  pub unschedulable : Bytes
  pub memory_limit : Bytes
  pub created : ℕ

pub record Rollout : Type 0 where
  pub want : ℕ
  pub updated : ℕ
  pub available : ℕ
  pub replicas : ℕ
  pub observed : Bool
  pub deadline_exceeded : Bool
  pub pods : List RolloutPod

unfoldable pub is_done : Rollout → Bool
is_done r = r.observed && leb r.want r.updated && leb r.want r.available && leb r.replicas r.updated

-- The messages of `failed(…)`, with their arguments.
pub data FailReason : Type 0 where
  oom_killed bad_config image_pull unschedulable : Bytes → FailReason
  crash_looping : Bytes → ℕ → FailReason
  timed_out : ℕ → ℕ → ℕ → FailReason

pub record RolloutVerdict : Type 0 where
  pub is_done : Bool
  pub is_failed : Bool
  pub reason : Option FailReason

abbrev pub done_verdict : RolloutVerdict
done_verdict = record { is_done = true; is_failed = false; reason = none }

abbrev pub failed : FailReason → RolloutVerdict
failed why = record { is_done = false; is_failed = true; reason = some why }

abbrev pub no_verdict : RolloutVerdict
no_verdict = record { is_done = false; is_failed = false; reason = none }

abbrev pub image_pull_grace : ℕ
image_pull_grace = 60

-- `s[:i]` at the first line feed
unfoldable pub up_to_newline : Bytes → Bytes
up_to_newline [] = []
up_to_newline (c ∷ s) = let rest = up_to_newline s in if c == 10 then [] else c ∷ rest

-- "…" in UTF-8
abbrev pub ellipsis : Bytes
ellipsis = 226 ∷ 128 ∷ 166 ∷ []

abbrev pub shorten : Bytes → Bytes
shorten s = if ltb 200 (length s) then take 200 s ++ ellipsis else s

abbrev pub or_else : Bytes → Bytes → Bytes
or_else [] fallback = fallback
or_else (c ∷ s) fallback = c ∷ s

unfoldable pub first_line : Bytes → Bytes → Bytes
first_line s fallback = or_else (shorten (up_to_newline (trim s))) fallback

abbrev pub is_crashing : RolloutPod → Bool
is_crashing p = str_eq p.waiting (codes "CrashLoopBackOff") || leb 3 p.restarts

abbrev pub is_misconfigured : RolloutPod → Bool
is_misconfigured p =
    str_eq p.waiting (codes "CreateContainerConfigError")
    || str_eq p.waiting (codes "InvalidImageName")

abbrev pub is_pull_failing : ℕ → RolloutPod → Bool
is_pull_failing now p =
    (str_eq p.waiting (codes "ImagePullBackOff") || str_eq p.waiting (codes "ErrImagePull"))
    && leb (p.created + image_pull_grace) now

-- The body of the loop over the pods: what an unready pod's signals say, in the switch's order.
unfoldable pub pod_failure : ℕ → RolloutPod → Option FailReason
pod_failure now p =
    if p.ready
    then none
    else if str_eq p.last_terminated (codes "OOMKilled")
    then some (oom_killed (or_else p.memory_limit (codes "memory")))
    else if is_crashing p
    then some (crash_looping (or_else p.last_terminated (codes "container exited")) p.restarts)
    else if is_misconfigured p
    then some (bad_config (first_line p.waiting_message p.waiting))
    else if is_pull_failing now p
    then some (image_pull (first_line p.waiting_message p.waiting))
    else none

unfoldable pub first_failure : ℕ → List RolloutPod → Option FailReason
first_failure now [] = none
first_failure now (p ∷ pods) = elim (pod_failure now p) [
  | none ↦ first_failure now pods
  | some why ↦ some why
]

unfoldable pub first_unschedulable : List RolloutPod → Option FailReason
first_unschedulable [] = none
first_unschedulable (p ∷ pods) = elim p.unschedulable [
  | [] ↦ first_unschedulable pods
  | c ∷ s ↦ some (unschedulable (first_line (c ∷ s) (codes "no node fits")))
]

unfoldable pub out_of_time : Rollout → ℕ → ℕ → ℕ → Bool
out_of_time r now started timeout = r.deadline_exceeded || leb (started + timeout) now

abbrev pub timeout_failure : Rollout → ℕ → FailReason
timeout_failure r timeout = elim (first_unschedulable r.pods) [
  | some why ↦ why
  | none ↦ timed_out timeout r.available r.want
]

unfoldable pub judge : Rollout → ℕ → ℕ → ℕ → RolloutVerdict
judge r now started timeout = if is_done r then done_verdict else elim (first_failure now r.pods) [
  | some why ↦ failed why
  | none ↦
      if out_of_time r now started timeout then failed (timeout_failure r timeout) else no_verdict
]
