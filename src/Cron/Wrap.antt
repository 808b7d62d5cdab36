-- ===== src/Cron/Wrap.antt =====
-- The same loop where its addition wraps around.
use luncur.Common.{
  ℕ, zero, suc, ◌+◌, ◌-◌, ◌≤◌, ◌<◌, ◌≡◌, refl, sym, ap, ◌∙◌, subst, inl, inr, some, ◌∷◌, Memᴰ,
  arith, ltb, leb, Bool-cases, ℤ, pos, negsuc, max_int,
}
use luncur.Cron.Expr.{fill, fill_fuel, IntSet, add_int64, leb_ℤ}
use luncur.Cron.Fill.{fill_past, fill_round, fill_negative, fill-Filled, next_in}

abbrev Ends : ℕ → ℕ → ℕ → ℤ → IntSet → Type 0
Ends f step h v set = (out : IntSet) × (fill f step (pos h) v set ≡ some out)

-- The number below zero that a sum beyond `max_int` wraps to.
abbrev pub wrapped : ℕ → ℤ
wrapped sum = negsuc (18446744073709551615 - sum)

pub next_wraps : (n step : ℕ) → max_int < n + step → add_int64 (pos n) step ≡ wrapped (n + step)
next_wraps n step lt = ground arith

next_up : (m step : ℕ) → m < step → add_int64 (negsuc m) step ≡ pos (step - suc m)
next_up m step lt = ground arith

next_still_below : (m step : ℕ) → step ≤ m → add_int64 (negsuc m) step ≡ negsuc (m - step)
next_still_below m step le = ground arith

-- From below zero two rounds lead beyond the range.
below-Ends :
    (f step h m : ℕ) (set : IntSet)
    → m < step
    → h + suc m < step
    → Ends (suc (suc f)) step h (negsuc m) set
below-Ends f step h m set lt beyond = (
  negsuc m ∷ set,
  fill_negative (suc f) step h m set
      ∙ ap (λ v. fill (suc f) step (pos h) v (negsuc m ∷ set)) (next_up m step lt)
      ∙ fill_past f step h (step - suc m) (negsuc m ∷ set) (omega arith),
)

-- A step beyond the range: each two rounds lead to a smaller value, or the loop ends.
wide-Ends :
    (f step h n : ℕ) (set : IntSet)
    → h ≤ 59
    → 59 < step
    → step ≤ max_int
    → n + n + 4 ≤ f
    → n ≤ h
    → Ends f step h (pos n) set
wide-Ends (suc (suc (suc (suc f)))) step h n set small wide fits fuel le =
    elim (Bool-cases (leb (n + step) max_int)) [
      | inl e ↦ (
        pos n ∷ set,
        fill_round (suc (suc (suc f))) step h n set le
            ∙ ap (λ v. fill (suc (suc (suc f))) step (pos h) v (pos n ∷ set))
                (next_in n step (ground arith))
            ∙ fill_past (suc (suc f)) step h (n + step) (pos n ∷ set) (omega arith),
      )
      | inr e ↦
          let m : ℕ = 18446744073709551615 - (n + step) in
          let over : max_int < n + step = ground arith in
          let first =
            fill_round (suc (suc (suc f))) step h n set le
            ∙ ap (λ v. fill (suc (suc (suc f))) step (pos h) v (pos n ∷ set))
                (next_wraps n step over)
            ∙ fill_negative (suc (suc f)) step h m (pos n ∷ set) in
          elim (Bool-cases (ltb m step)) [
            | inl up ↦
                let lt : m < step = ground arith in
                let (out, runs) =
                  wide-Ends (suc (suc f)) step h (step - suc m) (negsuc m ∷ pos n ∷ set) small wide
                    fits (omega arith) (omega arith) in
                (
                  out,
                  first
                      ∙ ap (λ v. fill (suc (suc f)) step (pos h) v (negsuc m ∷ pos n ∷ set))
                          (next_up m step lt)
                      ∙ runs,
                )
            | inr low ↦
                let ge : step ≤ m = ground arith in
                let (out, runs) =
                  below-Ends f step h (m - step) (negsuc m ∷ pos n ∷ set) (omega arith)
                    (omega arith) in
                (
                  out,
                  first
                      ∙ ap (λ v. fill (suc (suc f)) step (pos h) v (negsuc m ∷ pos n ∷ set))
                          (next_still_below m step ge)
                      ∙ runs,
                )
          ]
    ]
wide-Ends zero step h n set small wide fits fuel le = absurd (omega arith)
wide-Ends (suc zero) step h n set small wide fits fuel le = absurd (omega arith)
wide-Ends (suc (suc zero)) step h n set small wide fits fuel le = absurd (omega arith)
wide-Ends (suc (suc (suc zero))) step h n set small wide fits fuel le = absurd (omega arith)

-- For every field of a cron expression and every positive int as the step, the loop ends: with the
-- fuel given, also where the addition wraps around.
pub fill_ends :
    (step h n : ℕ) (set : IntSet)
    → 1 ≤ step
    → step ≤ max_int
    → h ≤ 59
    → (out : IntSet) × (fill fill_fuel step (pos h) (pos n) set ≡ some out)
fill_ends step h n set some_step fits small = elim (Bool-cases (leb n h)) [
  | inr e ↦ (set, fill_past 199 step h n set (ground arith))
  | inl e ↦ elim (Bool-cases (leb step 59)) [
    | inl narrow ↦
        let (out, runs, _) = fill-Filled 199 step h n set some_step (ground arith) (omega arith) in
        (out, runs)
    | inr wide ↦ wide-Ends 200 step h n set small (ground arith) fits (ground arith) (ground arith)
  ]
]

-- A member of the set stays one.
fill-mem :
    (f step : ℕ) (hi v z : ℤ) (set out : IntSet)
    → fill f step hi v set ≡ some out
    → Memᴰ z set
    → Memᴰ z out
unfolding fill
fill-mem zero step hi v z set out h m = cc
fill-mem (suc f) step hi v z set out h m = elim (Bool-cases (leb_ℤ v hi)) [
  | inl e ↦ fill-mem f step hi (add_int64 v step) z (v ∷ set) out (rw e at h) (Memᴰ.tail m)
  | inr e ↦ let h' = rw e at h in let same : set ≡ out = cc in subst (Memᴰ z) same m
]

-- If the first value plus the step is beyond the ints, the loop adds a negative number, which no
-- field allows.
pub fill_wraps :
    (f step h n : ℕ) (set out : IntSet)
    → n ≤ h
    → max_int < n + step
    → fill (suc (suc f)) step (pos h) (pos n) set ≡ some out
    → Memᴰ (wrapped (n + step)) out
fill_wraps f step h n set out le over runs =
    let m : ℕ = 18446744073709551615 - (n + step) in
    let again : fill f step (pos h) (add_int64 (negsuc m) step) (negsuc m ∷ pos n ∷ set)
        ≡ some out =
      sym (
        fill_round (suc f) step h n set le
        ∙ ap (λ v. fill (suc f) step (pos h) v (pos n ∷ set)) (next_wraps n step over)
        ∙ fill_negative f step h m (pos n ∷ set))
      ∙ runs in
    fill-mem f step (pos h) (add_int64 (negsuc m) step) (negsuc m) (negsuc m ∷ pos n ∷ set) out
      again (Memᴰ.head refl)
