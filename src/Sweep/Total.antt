-- ===== src/Sweep/Total.antt =====
-- The capped product of `expandGrid` (internal/sweep/params.go).
use luncur.Common.{
  ℕ, suc, ◌+◌, ◌*◌, ◌%◌, ◌≤◌, ◌≡◌, refl, ap, ◌∙◌, inl, inr, true, false, List, [], ◌∷◌, arith, ltb,
  leb, if◌then◌else◌, Bool-cases, length, Bytes, pos, max_int,
}
use luncur.Sweep.Expand.{cap_total, int64_of_nat, mul_int64, cap_total, capped_total}
use luncur.Sweep.Product.{combinations, NonEmpty}
use native.Mathlib.Nat.{mul-le-mul_left, mul-le-mul_right}

-- No axis is so long that a capped product times its length is beyond an int64.
abbrev pub Fits : ℕ → List (List Bytes) → Type 0
Fits max_trials [] = suc max_trials ≤ max_int
Fits max_trials (axis ∷ axes) = (suc max_trials * length axis ≤ max_int) × Fits max_trials axes

-- The number, or one past the limit.
abbrev pub capped : ℕ → ℕ → ℕ
capped max_trials n = if ltb max_trials n then suc max_trials else n

int64_small : (n : ℕ) → n ≤ max_int → int64_of_nat n ≡ pos n
int64_small n le =
    let small : n % 18446744073709551616 ≡ n = omega arith in
    let test : leb n max_int ≡ true = ground arith in rw (small, test) refl

Fits-limit :
    (max_trials : ℕ) (axes : List (List Bytes)) → Fits max_trials axes → suc max_trials ≤ max_int
Fits-limit max_trials [] h = h
Fits-limit max_trials (axis ∷ axes) (_, h) = Fits-limit max_trials axes h

capped_le : (max_trials t : ℕ) → capped max_trials t ≤ suc max_trials
capped_le max_trials t = ground arith

-- Capping before the multiplication changes nothing.
capped-capped :
    (max_trials t n : ℕ)
    → 1 ≤ n
    → capped max_trials (capped max_trials t * n) ≡ capped max_trials (t * n)
capped-capped max_trials t n one = elim (Bool-cases (ltb max_trials t)) [
  | inl e ↦
      let more = mul-le-mul_left t one in
      let most = mul-le-mul_left (suc max_trials) one in
      let a : ltb max_trials (suc max_trials * n) ≡ true = ground (arith, most) in
      let b : ltb max_trials (t * n) ≡ true = ground (arith, more) in rw (e, a, b) refl
  | inr e ↦ rw e refl
]

cap_total-pos :
    (max_trials m : ℕ)
    → suc max_trials ≤ max_int
    → cap_total max_trials (pos m) ≡ pos (capped max_trials m)
cap_total-pos max_trials m limit =
    let cap = int64_small (suc max_trials) limit in
    elim (Bool-cases (ltb max_trials m)) [
      | inl e ↦
          let test : ltb (max_trials + 0) (m + 0) ≡ true = ground arith in rw (test, cap, e) refl
      | inr e ↦ let test : ltb (max_trials + 0) (m + 0) ≡ false = ground arith in rw (test, e) refl
    ]

capped_total-capped :
    (max_trials t : ℕ) (axes : List (List Bytes))
    → NonEmpty axes
    → Fits max_trials axes
    → capped_total max_trials (pos (capped max_trials t)) axes
      ≡ pos (capped max_trials (t * combinations axes))
unfolding capped_total
capped_total-capped max_trials t [] full fits =
    let one : t ≡ t * 1 = omega arith in ap (λ n. pos (capped max_trials n)) one
capped_total-capped max_trials t (axis ∷ axes) (one, full) (fit, fits) =
    let n = length axis in
    let below = mul-le-mul_right n (capped_le max_trials t) in
    let step : cap_total max_trials (mul_int64 (pos (capped max_trials t)) n)
        ≡ pos (capped max_trials (t * n)) =
      ap (cap_total max_trials) (int64_small (capped max_trials t * n) (omega (arith, below)))
      ∙ cap_total-pos max_trials (capped max_trials t * n) (Fits-limit max_trials axes fits)
      ∙ ap pos (capped-capped max_trials t n one) in
    let assoc : t * n * combinations axes ≡ t * (n * combinations axes) = omega arith in
    ap (λ z. capped_total max_trials z axes) step
    ∙ capped_total-capped max_trials (t * n) axes full fits
    ∙ ap (λ m. pos (capped max_trials m)) assoc

-- The loop's result is the number of combinations, or one past the limit.
pub capped_total-combinations :
    (max_trials : ℕ) (axes : List (List Bytes))
    → 1 ≤ max_trials
    → NonEmpty axes
    → Fits max_trials axes
    → capped_total max_trials (pos 1) axes ≡ pos (capped max_trials (combinations axes))
capped_total-combinations max_trials axes positive full fits =
    let start : 1 ≡ capped max_trials 1 = ground arith in
    let all : 1 * combinations axes ≡ combinations axes = omega arith in
    ap (λ n. capped_total max_trials (pos n) axes) start
    ∙ capped_total-capped max_trials 1 axes full fits
    ∙ ap (λ n. pos (capped max_trials n)) all
