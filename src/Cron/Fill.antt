-- ===== src/Cron/Fill.antt =====
-- The loop of `parseTerm` (internal/cronexpr/cronexpr.go) that adds the values of a range.
use luncur.Common.{
  ℕ, zero, suc, ◌+◌, ◌*◌, ◌≤◌, ◌<◌, ◌≡◌, refl, ap, ◌∙◌, ◌↔◌, ◌⊎◌, inl, inr, true, false, some, ◌∷◌,
  Memᴰ, arith, leb, Bool-cases, ℤ, pos, negsuc, max_int,
}
use luncur.Cron.Expr.{fill, IntSet, add_int64, leb_ℤ}

-- `z` is one of `n`, `n + step`, … up to `h`.
abbrev pub Stepped : ℕ → ℕ → ℕ → ℤ → Type 0
Stepped n step h z = (k : ℕ) × (z ≡ pos (n + k * step)) × (n + k * step ≤ h)

-- The members are those that were there and those of the range.
abbrev pub Filled : ℕ → ℕ → ℕ → IntSet → IntSet → Type 0
Filled n step h set out = (z : ℤ) → Memᴰ z out ↔ (Memᴰ z set ⊎ Stepped n step h z)

pub fill_past :
    (f step h n : ℕ) (set : IntSet) → h < n → fill (suc f) step (pos h) (pos n) set ≡ some set
unfolding fill
fill_past f step h n set lt =
    let test : leb_ℤ (pos n) (pos h) ≡ false = ground arith in rw test refl

pub fill_round :
    (f step h n : ℕ) (set : IntSet)
    → n ≤ h
    → fill (suc f) step (pos h) (pos n) set
      ≡ fill f step (pos h) (add_int64 (pos n) step) (pos n ∷ set)
unfolding fill
fill_round f step h n set le =
    let test : leb_ℤ (pos n) (pos h) ≡ true = ground arith in rw test refl

pub fill_negative :
    (f step h m : ℕ) (set : IntSet)
    → fill (suc f) step (pos h) (negsuc m) set
      ≡ fill f step (pos h) (add_int64 (negsuc m) step) (negsuc m ∷ set)
unfolding fill
fill_negative f step h m set =
    let test : leb_ℤ (negsuc m) (pos h) ≡ true = ground arith in rw test refl

pub next_in : (n step : ℕ) → n + step ≤ max_int → add_int64 (pos n) step ≡ pos (n + step)
next_in n step le = ground arith

Filled-past : (n step h : ℕ) (set : IntSet) → h < n → Filled n step h set set
Filled-past n step h set lt z =
    (λ m. inl m, λ p. elim p [ inl m ↦ m | inr (k, e, le) ↦ absurd (omega arith) ])

-- The values from `n` on are `n` and those from `n + step` on.
Stepped-next :
    (n step h : ℕ) (z : ℤ)
    → n ≤ h
    → Stepped n step h z ↔ ((z ≡ pos n) ⊎ Stepped (n + step) step h z)
Stepped-next n step h z le = (
  λ (k, e, b). split k e b,
  λ p. elim p [
    | inl e ↦ (0, e ∙ ap pos (omega arith), omega arith)
    | inr (k, e, b) ↦ (suc k, e ∙ ap pos (omega arith), omega arith)
  ],
)
  where
    split :
        (k : ℕ)
        → z ≡ pos (n + k * step)
        → n + k * step ≤ h
        → (z ≡ pos n) ⊎ Stepped (n + step) step h z
    split zero e b = inl (e ∙ ap pos (omega arith))
    split (suc k) e b = inr (k, e ∙ ap pos (omega arith), omega arith)

Filled-next :
    (n step h : ℕ) (set out : IntSet)
    → n ≤ h
    → Filled (n + step) step h (pos n ∷ set) out
    → Filled n step h set out
Filled-next n step h set out le filled z =
    let (fwd, bwd) = filled z in
    let (open_, close) = Stepped-next n step h z le in
    (
      λ m. elim (fwd m) [
        | inl (Memᴰ.head e) ↦ inr (close (inl e))
        | inl (Memᴰ.tail m') ↦ inl m'
        | inr s ↦ inr (close (inr s))
      ],
      λ p. elim p [
        | inl m ↦ bwd (inl (Memᴰ.tail m))
        | inr s ↦ elim (open_ s) [ inl e ↦ bwd (inl (Memᴰ.head e)) | inr s' ↦ bwd (inr s') ]
      ],
    )

-- If no addition can wrap around, then with a round for each value the loop adds exactly the values
-- of the range.
pub fill-Filled :
    (f step h n : ℕ) (set : IntSet)
    → 1 ≤ step
    → h + step ≤ max_int
    → h < n + f
    → (out : IntSet) × (fill (suc f) step (pos h) (pos n) set ≡ some out) × Filled n step h set out
fill-Filled zero step h n set some_step fits lt =
    (set, fill_past 0 step h n set (omega arith), Filled-past n step h set (omega arith))
fill-Filled (suc f) step h n set some_step fits lt = elim (Bool-cases (leb n h)) [
  | inr e ↦
      (set, fill_past (suc f) step h n set (ground arith), Filled-past n step h set (ground arith))
  | inl e ↦
      let le : n ≤ h = ground arith in
      let (out, runs, filled) =
        fill-Filled f step h (n + step) (pos n ∷ set) some_step fits (omega arith) in
      (
        out,
        fill_round (suc f) step h n set le
            ∙ ap (λ v. fill (suc f) step (pos h) v (pos n ∷ set)) (next_in n step (omega arith))
            ∙ runs,
        Filled-next n step h set out le filled,
      )
]
