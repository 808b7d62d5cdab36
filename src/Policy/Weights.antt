-- ===== src/Policy/Weights.antt =====
-- What `ParseCanarySteps` (internal/store/policies.go) accepts, and its round trip with
-- `FormatCanarySteps`.
use luncur.Common.{
  trim_suffix, ℕ, suc, ◌≤◌, ◌≡◌, refl, sym, ap, ◌∙◌, subst, ◌≢◌, inl, inr, true, false, not, Option,
  none, some, List, [], ◌∷◌, arith, ltb, ◌==◌, Bool-cases, length, Bytes, ℤ, ltb_ℤ, trim,
  onto_first, split_on, atoi,
}
use luncur.Common.Fallible.{Fallible, >>=_right, unless_right, wrong, right}
use luncur.Policy.Steps.{
  StepsError, in_percent, weight_or, weight_of, not_above, onto, parse_weights, at_most_five,
  parse_trimmed, parse_canary_steps, too_many, bad_step, not_increasing,
}

-- The number is below the other one.
abbrev pub Below : ℤ → ℤ → Type 0
Below a b = ltb_ℤ a b ≡ true

-- Each weight is a percentage between 1 and 99 and above the one before it.
abbrev pub Ascends : Option ℤ → List ℤ → Type 0
Ascends last [] = Unit {0}
Ascends last (n ∷ ns) = (not_above last n ≡ false) × (in_percent n ≡ true) × Ascends (some n) ns

-- One to five weights that ascend.
abbrev pub IsLadder : List ℤ → Type 0
IsLadder ns = (ns ≢ []) × (length ns ≤ 5) × Ascends none ns

weight_of-percent : (part : Bytes) (n : ℤ) → weight_of part ≡ right n → in_percent n ≡ true
unfolding weight_of
weight_of-percent part n h = read (atoi (trim (trim_suffix 37 (trim part)))) h
  where
    read : (o : Option ℤ) → weight_or part o ≡ right n → in_percent n ≡ true
    read none h = cc
    read (some m) h =
        let (ok, same) = unless_right (not (in_percent m)) (bad_step part) (right m) h in
        let e : m ≡ n = cc in subst (λ x. in_percent x ≡ true) e (ground arith)

pub onto_right :
    (n : ℤ) (r : Fallible StepsError (List ℤ)) (ns : List ℤ)
    → onto n r ≡ right ns
    → (rest : List ℤ) × (r ≡ right rest) × (n ∷ rest ≡ ns)
onto_right n (wrong e) ns h = cc
onto_right n (right rest) ns h = (rest, refl, cc)

parse_weights-Ascends :
    (s : Bytes) (last : Option ℤ) (parts : List Bytes) (ns : List ℤ)
    → parse_weights s last parts ≡ right ns
    → Ascends last ns × (length ns ≡ length parts)
unfolding parse_weights
parse_weights-Ascends s last [] ns h =
    let e : [] ≡ ns = cc in (subst (Ascends last) e tt, ap length (sym e))
parse_weights-Ascends s last (part ∷ parts) ns h =
    let (n, is_n, h1) = >>=_right (weight_of part) _ h in
    let (above, h2) = unless_right (not_above last n) (not_increasing s) _ h1 in
    let (rest, h3, e) = onto_right n (parse_weights s (some n) parts) ns h2 in
    let (ascends, len) = parse_weights-Ascends s (some n) parts rest h3 in
    (
      subst (Ascends last) e (above, weight_of-percent part n is_n, ascends),
      ap length (sym e) ∙ ap suc len,
    )

split_on-ne-nil : (sep : ℕ) (s : Bytes) → 1 ≤ length (split_on sep s)
unfolding split_on
split_on-ne-nil sep [] = omega arith
split_on-ne-nil sep (c ∷ s) = elim (Bool-cases (c == sep)) [
  | inl e ↦ rw e (omega arith)
  | inr e ↦ rw e (longer (split_on sep s))
]
  where
    longer : (parts : List Bytes) → 1 ≤ length (onto_first c parts)
    longer [] = omega arith
    longer (p ∷ ps) = omega arith

-- Every accepted text gives one to five weights between 1 and 99 that ascend.
pub parse_canary_steps-IsLadder :
    (s : Bytes) (ns : List ℤ) → parse_canary_steps s ≡ right ns → IsLadder ns
unfolding parse_canary_steps
parse_canary_steps-IsLadder s ns h = read (trim s) h
  where
    read : (t : Bytes) → parse_trimmed t ≡ right ns → IsLadder ns
    read [] h = cc
    read (c ∷ t) h =
        let (ms, h1, h2) =
          >>=_right (parse_weights (c ∷ t) none (split_on 44 (c ∷ t))) at_most_five h in
        let (few, h3) = unless_right (ltb 5 (length ms)) too_many (right ms) h2 in
        let same : ms ≡ ns = cc in
        let (ascends, len) = parse_weights-Ascends (c ∷ t) none (split_on 44 (c ∷ t)) ms h1 in
        let some_part = split_on-ne-nil 44 (c ∷ t) in
        subst IsLadder same
          ((λ e. let z = ap length e in absurd (omega arith)), ground arith, ascends)
