-- ===== src/Common/Cutting.antt =====
-- Cutting and splitting a text at a byte that stands where it was put.
use Prim.Native.Nat.{ℕ, ◌<◌}
use mathlib.Core.Path.{◌≡◌, refl, ap}
use mathlib.Core.Bool.{true, false}
use mathlib.Core.Option.{none, some}
use mathlib.Core.List.{[], ◌∷◌, ◌++◌}
use native.Mathlib.Omega.{arith}
use luncur.Common.Tests.{◌==◌}
use luncur.Common.Lists.{All}
use luncur.Common.Text.{Bytes}
use luncur.Common.Split.{cut, cut_on, split_on, onto_first}
use luncur.Common.Decimal.{all_digits, itoa_nat, itoa_nat-cons}

-- The byte does not occur.
abbrev pub Free : ℕ → Bytes → Type 0
Free sep s = All (λ c. (c == sep) ≡ false) s

pub cut-Free : (sep : ℕ) (s : Bytes) → Free sep s → cut sep s ≡ none
unfolding cut
cut-Free sep [] f = refl
cut-Free sep (c ∷ s) (e, f) = rw e (ap (cut_on c) (cut-Free sep s f))

pub cut-append : (sep : ℕ) (a b : Bytes) → Free sep a → cut sep (a ++ sep ∷ b) ≡ some (a, b)
unfolding cut
cut-append sep [] b f = let same : (sep == sep) ≡ true = ground arith in rw same refl
cut-append sep (c ∷ a) b (e, f) = rw e (ap (cut_on c) (cut-append sep a b f))

pub split_on-Free : (sep : ℕ) (s : Bytes) → Free sep s → split_on sep s ≡ s ∷ []
unfolding split_on
split_on-Free sep [] f = refl
split_on-Free sep (c ∷ s) (e, f) = rw e (ap (onto_first c) (split_on-Free sep s f))

pub split_on-append :
    (sep : ℕ) (a b : Bytes) → Free sep a → split_on sep (a ++ sep ∷ b) ≡ a ∷ split_on sep b
unfolding split_on
split_on-append sep [] b f = let same : (sep == sep) ≡ true = ground arith in rw same refl
split_on-append sep (c ∷ a) b (e, f) = rw e (ap (onto_first c) (split_on-append sep a b f))

pub Free-digits : (sep : ℕ) (s : Bytes) → sep < 48 → all_digits s ≡ true → Free sep s
unfolding all_digits
Free-digits sep [] lt h = tt
Free-digits sep (c ∷ s) lt h = (ground arith, Free-digits sep s lt (ground arith))

pub Free-itoa_nat : (sep n : ℕ) → sep < 48 → Free sep (itoa_nat n)
Free-itoa_nat sep n lt =
    let (d, t, e, digits, _) = itoa_nat-cons n in rw e (Free-digits sep (d ∷ t) lt digits)
