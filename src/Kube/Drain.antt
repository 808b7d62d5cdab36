-- ===== src/Kube/Drain.antt =====
-- internal/kube/drain.go: `drainable` and `Drain` after the node is cordoned and its pods are
-- listed. A list of passes is what the API server, the clock and the context answer to one pass of
-- the loop after another; the result is `none` where the list ends before the loop does.
use luncur.Common.{
  ℕ, suc, ◌+◌, Bool, false, not, ◌&&◌, ◌||◌, Option, none, some, List, [], ◌∷◌, ◌++◌, if◌then◌else◌,
  length, Bytes, codes, str_eq,
}
use luncur.Kube.Judge.{first_line}

pub record DrainPod : Type 0 where
  pub namespace : Bytes
  pub name : Bytes
  pub is_finished : Bool
  pub is_deleted : Bool
  pub is_mirror : Bool
  pub owner_kinds : List Bytes

pub data EvictAnswer : Type 0 where
  evicted not_found : EvictAnswer
  too_many_requests other_error : Bytes → EvictAnswer

pub record DrainProgress : Type 0 where
  pub total : ℕ
  pub evicted : ℕ
  pub blocked : List Bytes

pub record Pass : Type 0 where
  pub evict : DrainPod → EvictAnswer
  pub past_deadline : Bool
  pub context_done : Bool

pub data DrainError : Type 0 where
  canceled : DrainError
  evict_failed : DrainPod → Bytes → DrainError
  timed_out : ℕ → DrainError

unfoldable pub has_daemon_set : List Bytes → Bool
has_daemon_set [] = false
has_daemon_set (kind ∷ kinds) = str_eq kind (codes "DaemonSet") || has_daemon_set kinds

unfoldable pub drainable : DrainPod → Bool
drainable p =
    not (p.is_finished || p.is_deleted) && not p.is_mirror && not (has_daemon_set p.owner_kinds)

-- The pods to evict for which `wanted` holds, in order.
unfoldable pub batch_of : (DrainPod → Bool) → List DrainPod → List DrainPod
batch_of wanted [] = []
batch_of wanted (p ∷ pods) =
    let rest = batch_of wanted pods in if drainable p && wanted p then p ∷ rest else rest

-- `p.Namespace+"/"+p.Name+": "+…`
abbrev pub blocked_line : DrainPod → Bytes → Bytes
blocked_line p err =
    p.namespace ++ codes "/" ++ p.name ++ codes ": " ++ first_line err (codes "disruption budget")

-- The end of one pass: an error, or the pods to try again.
pub data PassEnd : Type 0 where
  stopped : DrainPod → Bytes → DrainProgress → PassEnd
  passed_over : List DrainPod → DrainProgress → PassEnd

-- The loop over the pending pods, with the pods to try again so far.
unfoldable pub run_pass :
    (DrainPod → EvictAnswer) → List DrainPod → List DrainPod → DrainProgress → PassEnd
run_pass evict [] retry prog = passed_over retry prog
run_pass evict (p ∷ pending) retry prog = elim (evict p) [
  | evicted ↦ run_pass evict pending retry (record prog { evicted = suc prog.evicted })
  | not_found ↦ run_pass evict pending retry (record prog { evicted = suc prog.evicted })
  | too_many_requests err ↦
      run_pass evict pending (retry ++ p ∷ [])
        (record prog { blocked = prog.blocked ++ blocked_line p err ∷ [] })
  | other_error err ↦ stopped p err prog
]

pub data BatchEnd : Type 0 where
  no_answer : BatchEnd
  ended : DrainError → DrainProgress → BatchEnd
  finished : List Pass → DrainProgress → BatchEnd

-- What follows a pass that leaves pods to try again.
abbrev pub after_pass : Pass → List DrainPod → DrainProgress → BatchEnd → BatchEnd
after_pass pass retry prog again =
    if pass.past_deadline
    then ended (timed_out (length retry)) prog
    else if pass.context_done
    then ended canceled prog
    else again

-- `for len(pending) > 0 { … }`
unfoldable pub drain_batch : List Pass → List DrainPod → DrainProgress → BatchEnd
drain_batch passes [] prog = finished passes prog
drain_batch [] (p ∷ pending) prog = no_answer
drain_batch (pass ∷ passes) (p ∷ pending) prog =
    elim (run_pass pass.evict (p ∷ pending) [] (record prog { blocked = [] })) [
      | stopped q err prog' ↦ ended (evict_failed q err) prog'
      | passed_over retry prog' ↦ elim retry [
        | [] ↦ finished passes prog'
        | q ∷ qs ↦ after_pass pass (q ∷ qs) prog' (drain_batch passes (q ∷ qs) prog')
      ]
    ]

-- What `Drain` returns after the second batch: the error, if any, and the progress.
abbrev pub drain_result : BatchEnd → Option (Option DrainError × DrainProgress)
drain_result no_answer = none
drain_result (ended why prog) = some (some why, prog)
drain_result (finished rest prog) = some (none, prog)

-- What follows the first batch.
unfoldable pub drain_last : List DrainPod → BatchEnd → Option (Option DrainError × DrainProgress)
drain_last last no_answer = none
drain_last last (ended why prog) = some (some why, prog)
drain_last last (finished passes prog) = drain_result (drain_batch passes last prog)

unfoldable pub drain :
    (DrainPod → Bool) → List Pass → List DrainPod → Option (Option DrainError × DrainProgress)
drain is_last passes pods =
    let first = batch_of (λ p. not (is_last p)) pods in
    let last = batch_of is_last pods in
    let start : DrainProgress = record {
      total = length first + length last;
      evicted = 0;
      blocked = [];
    } in
    drain_last last (drain_batch passes first start)
