-- ===== src/Common/Printing.antt =====
-- The bytes that `strconv.Itoa` prints, and what trimming leaves of them.
use Prim.Native.Nat.{ℕ, suc, ◌≤◌, ◌<◌}
use mathlib.Core.Path.{◌≡◌, refl, ap, ◌∙◌}
use mathlib.Core.Bool.{true, false}
use mathlib.Core.List.{[], ◌∷◌}
use native.Mathlib.Omega.{arith}
use luncur.Common.Lists.{All}
use luncur.Common.Text.{Bytes}
use luncur.Common.Int.{ℤ, pos, negsuc}
use luncur.Common.Split.{
  is_space, is_space2, is_space3, space_width, is_space_rune, trim_from, trim_left, trim_right,
  before_trimmed, trim,
}
use luncur.Common.Decimal.{all_digits, itoa, itoa_nat, itoa_nat-cons}

-- A minus sign or a digit.
abbrev pub InNumber : ℕ → Type 0
InNumber c = (45 ≤ c) × (c ≤ 57)

InNumber-digits : (s : Bytes) → all_digits s ≡ true → All InNumber s
unfolding all_digits
InNumber-digits [] h = tt
InNumber-digits (c ∷ s) h = (ground arith, InNumber-digits s (ground arith))

InNumber-itoa_nat : (n : ℕ) → All InNumber (itoa_nat n)
InNumber-itoa_nat n =
    let (d, t, e, digits, _) = itoa_nat-cons n in rw e (InNumber-digits (d ∷ t) digits)

pub InNumber-itoa : (z : ℤ) → All InNumber (itoa z)
unfolding itoa
InNumber-itoa (pos n) = InNumber-itoa_nat n
InNumber-itoa (negsuc n) = (omega arith, InNumber-itoa_nat (suc n))

pub itoa-cons : (z : ℤ) → (c : ℕ) × (s : Bytes) × (itoa z ≡ c ∷ s)
unfolding itoa
itoa-cons (pos n) = let (d, t, e, _, _) = itoa_nat-cons n in (d, t, e)
itoa-cons (negsuc n) = (45, itoa_nat (suc n), refl)

-- An ASCII character that is no white space.
abbrev pub IsPlain : ℕ → Type 0
IsPlain c = (c < 128) × (is_space c ≡ false)

abbrev pub NoSpace : Bytes → Type 0
NoSpace s = All IsPlain s

plain_rune : (c : ℕ) (t : Bytes) → IsPlain c → is_space_rune (c ∷ t) ≡ false
plain_rune c [] (lo, e) = e
plain_rune c (d ∷ []) (lo, e) = ground arith
plain_rune c (d ∷ e ∷ []) (lo, _) = ground arith
plain_rune c (d ∷ e ∷ f ∷ t) _ = refl

plain_width : (c : ℕ) (s : Bytes) → IsPlain c → space_width (c ∷ s) ≡ 0
plain_width c [] (lo, e) = rw e refl
plain_width c (d ∷ []) (lo, e) = let two : is_space2 c d ≡ false = ground arith in rw (e, two) refl
plain_width c (d ∷ x ∷ s) (lo, e) =
    let two : is_space2 c d ≡ false = ground arith in
    let three : is_space3 c d x ≡ false = ground arith in rw (e, two, three) refl

trim_right-NoSpace : (s : Bytes) → NoSpace s → trim_right s ≡ s
unfolding trim_right
trim_right-NoSpace [] h = refl
trim_right-NoSpace (c ∷ s) (plain, h) =
    ap (before_trimmed c) (trim_right-NoSpace s h) ∙ rw (plain_rune c s plain) refl

pub trim_left-same : (s : Bytes) → space_width s ≡ 0 → trim_left s ≡ s
unfolding trim_left trim_from
trim_left-same [] h = refl
trim_left-same (c ∷ s) h = rw (h, trim_from) refl

trim_left-NoSpace : (s : Bytes) → NoSpace s → trim_left s ≡ s
trim_left-NoSpace [] h = trim_left-same [] refl
trim_left-NoSpace (c ∷ s) (plain, _) = trim_left-same (c ∷ s) (plain_width c s plain)

pub trim-NoSpace : (s : Bytes) → NoSpace s → trim s ≡ s
unfolding trim
trim-NoSpace s h = ap trim_left (trim_right-NoSpace s h) ∙ trim_left-NoSpace s h

pub InNumber-NoSpace : (s : Bytes) → All InNumber s → NoSpace s
InNumber-NoSpace [] h = tt
InNumber-NoSpace (c ∷ s) ((lo, hi), h) = ((omega arith, ground arith), InNumber-NoSpace s h)
