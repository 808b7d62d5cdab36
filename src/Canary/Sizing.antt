-- ===== src/Canary/Sizing.antt =====
-- `canaryReplicas` of internal/server/canary.go.
use native.Mathlib.Nat.{lt-mul-div-succ, div-lt_iff_lt-mul}
use luncur.Common.{ℕ, zero, suc, ◌+◌, ◌-◌, ◌*◌, ◌/◌, ◌≤◌, ◌<◌, max, ◌≡◌, sym, ap, subst, ◌↔◌, arith}
use luncur.Canary.Sizes.{int32_of, ratio_replicas}

-- At least the share `w` of all pods are canary pods, where `n` of them stand beside `stable`.
abbrev pub HasShare : ℕ → ℕ → ℕ → Type 0
HasShare stable w n = w * (stable + n) ≤ 100 * n

share→ : (stable w k n : ℕ) → w + k ≡ 100 → HasShare stable w n → stable * w ≤ k * n
share→ stable w k n e h = omega (arith, ap (λ (t : ℕ). t * n) e)

share← : (stable w k n : ℕ) → w + k ≡ 100 → stable * w ≤ k * n → HasShare stable w n
share← stable w k n e h = omega (arith, ap (λ (t : ℕ). t * n) e)

ceil_ge : (x k : ℕ) → 0 < k → x ≤ k * ((x + (k - 1)) / k)
ceil_ge x k h = omega (arith, lt-mul-div-succ (x + (k - 1)) h)

ceil_le : (x k n : ℕ) → 0 < k → x ≤ k * n → (x + (k - 1)) / k ≤ n
ceil_le x k n h g =
    let test : ((x + (k - 1)) / k < suc n) ↔ (x + (k - 1) < suc n * k) = div-lt_iff_lt-mul h in
    let (_, lt) = test in let below : (x + (k - 1)) / k < suc n = lt (omega arith) in omega arith

at_max : (k q x : ℕ) → x ≤ k * q → x ≤ k * max 1 q
at_max k zero x h = omega arith
at_max k (suc q) x h =
    let same : suc q ≡ max 1 (suc q) = omega arith in subst (λ t. x ≤ k * t) same h

product : (a b : ℕ) → 1 ≤ a → 1 ≤ b → 1 ≤ a * b
product (suc a) (suc b) ha hb = omega arith
product zero b ha hb = omega arith
product (suc a) zero ha hb = omega arith

positive : (x k n : ℕ) → 1 ≤ x → x ≤ k * n → 1 ≤ n
positive x k zero hx h = omega arith
positive x k (suc n) hx h = omega arith

int32_of-small : (out_of_int32 : ℕ → ℕ) (n : ℕ) → n ≤ 2147483647 → int32_of out_of_int32 n ≡ n
unfolding int32_of
int32_of-small out_of_int32 n h = ground arith

-- If the weight is between 1 and 99, there is a stable pod, and the quotient of the replica ratio is
-- within int32, then the replica-ratio fallback runs the least number of canary pods that has the
-- weight's share.
pub ratio_replicas-HasShare :
    (out_of_int32 : ℕ → ℕ) (stable w : ℕ)
    → 1 ≤ stable
    → 1 ≤ w
    → w < 100
    → stable * w ≤ (100 - w) * 2147483647
    → HasShare stable w (ratio_replicas out_of_int32 stable w)
      × ((n : ℕ) → HasShare stable w n → ratio_replicas out_of_int32 stable w ≤ n)
unfolding ratio_replicas
ratio_replicas-HasShare out_of_int32 stable w hs hw hl fit =
    let k : ℕ = 100 - w in
    let q : ℕ = (stable * w + (99 - w)) / k in
    let same : 99 - w ≡ k - 1 = omega arith in
    let sum : w + k ≡ 100 = omega arith in
    let ge : stable * w ≤ k * q =
      subst (λ t. stable * w ≤ k * ((stable * w + t) / k)) (sym same)
        (ceil_ge (stable * w) k (omega arith)) in
    let small : q ≤ 2147483647 =
      subst (λ t. (stable * w + t) / k ≤ 2147483647) (sym same)
        (ceil_le (stable * w) k 2147483647 (omega arith) fit) in
    rw (int32_of-small out_of_int32 q small) (
      share← stable w k (max 1 q) sum (at_max k q (stable * w) ge),
      λ n share.
          let le : stable * w ≤ k * n = share→ stable w k n sum share in
          let below : q ≤ n =
            subst (λ t. (stable * w + t) / k ≤ n) (sym same)
              (ceil_le (stable * w) k n (omega arith) le) in
          let one_ : 1 ≤ n = positive (stable * w) k n (product stable w hs hw) le in ground arith,
    )
