-- ===== src/Common/Decimal.antt =====
-- `strconv.Itoa` and `strconv.Atoi`: an int is 64 bits wide.
use Prim.Native.Nat.{ℕ, zero, suc, ◌+◌, ◌-◌, ◌*◌, ◌/◌, ◌%◌, ◌≤◌}
use mathlib.Core.Path.{◌≡◌, refl, sym, ap, ◌∙◌, subst}
use mathlib.Core.Logic.{inl, inr}
use mathlib.Core.Bool.{Bool, true, false, ◌&&◌}
use mathlib.Core.Option.{Option, none, some}
use mathlib.Core.List.{[], ◌∷◌}
use native.Mathlib.Omega.{arith}
use luncur.Common.Tests.{leb, ◌==◌, if◌then◌else◌, Bool-cases}
use luncur.Common.Text.{Bytes, codes}
use luncur.Common.Int.{ℤ, pos, negsuc}

abbrev pub max_int : ℕ
max_int = 9223372036854775807

abbrev pub is_digit : ℕ → Bool
is_digit c = leb 48 c && leb c 57

unfoldable pub all_digits : Bytes → Bool
all_digits [] = true
all_digits (c ∷ s) = is_digit c && all_digits s

-- What digits spell behind `n`.
unfoldable pub value_from : ℕ → Bytes → ℕ
value_from n [] = n
value_from n (c ∷ s) = value_from (n * 10 + (c - 48)) s

unfoldable pub digits_value : Bytes → Option ℕ
unfolding all_digits value_from
digits_value [] = none
digits_value (c ∷ s) = if all_digits (c ∷ s) then some (value_from 0 (c ∷ s)) else none

abbrev pub int_of : Option ℕ → Option ℤ
int_of none = none
int_of (some n) = if leb n max_int then some (pos n) else none

abbrev pub negated : ℕ → ℤ
negated zero = pos 0
negated (suc n) = negsuc n

abbrev pub neg_int_of : Option ℕ → Option ℤ
neg_int_of none = none
neg_int_of (some n) = if leb n (suc max_int) then some (negated n) else none

-- The sign is 43 or 45.
unfoldable pub atoi : Bytes → Option ℤ
unfolding digits_value
atoi [] = none
atoi (c ∷ s) =
    if c == 43
    then int_of (digits_value s)
    else if c == 45
    then neg_int_of (digits_value s)
    else int_of (digits_value (c ∷ s))

-- The digits of `n` before `out`; each round divides by ten.
unfoldable pub emit_digits : ℕ → ℕ → Bytes → Bytes
emit_digits zero n out = out
emit_digits (suc fuel) n out =
    let rest = emit_digits fuel (n / 10) ((48 + n % 10) ∷ out) in if n == 0 then out else rest

-- `n` rounds are enough for `n`.
unfoldable pub itoa_nat : ℕ → Bytes
unfolding emit_digits
itoa_nat n = if n == 0 then codes "0" else emit_digits n n []

unfoldable pub itoa : ℤ → Bytes
unfolding itoa_nat
itoa (pos n) = itoa_nat n
itoa (negsuc n) = 45 ∷ itoa_nat (suc n)

-- Reading the last digit behind those before it.
value-digit : (n : ℕ) (out : Bytes) → value_from (n / 10) ((48 + n % 10) ∷ out) ≡ value_from n out
unfolding value_from
value-digit n out = ap (λ m. value_from m out) (omega arith)

value-emit_digits :
    (fuel n : ℕ) (out : Bytes) → n ≤ fuel → value_from 0 (emit_digits fuel n out) ≡ value_from n out
unfolding emit_digits
value-emit_digits zero n out h = let e : n ≡ 0 = omega arith in ap (λ m. value_from m out) (sym e)
value-emit_digits (suc fuel) n out h = elim (Bool-cases (n == 0)) [
  | inl e ↦ let z : n ≡ 0 = ground arith in rw e (ap (λ m. value_from m out) (sym z))
  | inr e ↦
      rw e
        (value-emit_digits fuel (n / 10) ((48 + n % 10) ∷ out) (ground arith) ∙ value-digit n out)
]

digits-emit_digits :
    (fuel n : ℕ) (out : Bytes) → all_digits out ≡ true → all_digits (emit_digits fuel n out) ≡ true
unfolding emit_digits all_digits
digits-emit_digits zero n out h = h
digits-emit_digits (suc fuel) n out h = elim (Bool-cases (n == 0)) [
  | inl e ↦ rw e h
  | inr e ↦ rw e (digits-emit_digits fuel (n / 10) ((48 + n % 10) ∷ out) (ground arith))
]

emit_digits-cons :
    (fuel n c : ℕ) (out : Bytes) → (d : ℕ) × (t : Bytes) × (emit_digits fuel n (c ∷ out) ≡ d ∷ t)
unfolding emit_digits
emit_digits-cons zero n c out = (c, out, refl)
emit_digits-cons (suc fuel) n c out = elim (Bool-cases (n == 0)) [
  | inl e ↦ rw e (c, out, refl)
  | inr e ↦ rw e (emit_digits-cons fuel (n / 10) (48 + n % 10) (c ∷ out))
]

pub itoa_nat-cons :
    (n : ℕ)
    → (d : ℕ) × (t : Bytes) × (itoa_nat n ≡ d ∷ t)
      × (all_digits (d ∷ t) ≡ true)
      × (value_from 0 (d ∷ t) ≡ n)
unfolding itoa_nat emit_digits all_digits value_from
itoa_nat-cons zero = (48, [], refl, refl, refl)
itoa_nat-cons (suc n) =
    let nonzero : (suc n == 0) ≡ false = ground arith in
    let (d, t, e) = emit_digits-cons n (suc n / 10) (48 + suc n % 10) [] in
    let e' : emit_digits (suc n) (suc n) [] ≡ d ∷ t = rw nonzero e in
    (
      d,
      t,
      rw nonzero e,
      subst (λ s. all_digits s ≡ true) e' (digits-emit_digits (suc n) (suc n) [] refl),
      subst (λ s. value_from 0 s ≡ suc n) e' (value-emit_digits (suc n) (suc n) [] (omega arith)),
    )

pub digits_value-itoa_nat : (n : ℕ) → digits_value (itoa_nat n) ≡ some n
unfolding digits_value
digits_value-itoa_nat n =
    let (d, t, e, digits, value) = itoa_nat-cons n in rw e (rw digits (ap some value))

pub atoi-itoa_nat : (n : ℕ) → atoi (itoa_nat n) ≡ int_of (some n)
unfolding atoi all_digits
atoi-itoa_nat n =
    let (d, t, e, digits, value) = itoa_nat-cons n in
    let read = ap digits_value (sym e) ∙ digits_value-itoa_nat n in
    let plus : (d == 43) ≡ false = ground arith in
    let minus : (d == 45) ≡ false = ground arith in rw (e, plus, minus) (ap int_of read)

-- The ints of 64 bits.
abbrev pub IsInt : ℤ → Type 0
IsInt (pos n) = n ≤ max_int
IsInt (negsuc n) = n ≤ max_int

-- Every int is read back from its print.
pub atoi-itoa : (z : ℤ) → IsInt z → atoi (itoa z) ≡ some z
unfolding itoa atoi
atoi-itoa (pos n) h =
    let fits : leb n max_int ≡ true = ground arith in
    atoi-itoa_nat n ∙ ap (λ b. if b then some (pos n) else none) fits
atoi-itoa (negsuc n) h =
    let fits : leb (suc n) (suc max_int) ≡ true = ground arith in
    ap neg_int_of (digits_value-itoa_nat (suc n))
    ∙ ap (λ b. if b then some (negsuc n) else none) fits
