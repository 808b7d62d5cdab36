-- ===== src/Common/Text.antt =====
-- Go strings as lists of bytes: equality, the order of `sort.Strings`, and sorting.
use Prim.Native.Nat.{ℕ, suc}
use Prim.Native.Char.{code}
use Prim.Native.String.{String}
use mathlib.Core.Path.{◌≡◌, refl}
use mathlib.Core.Logic.{◌↔◌, ◌⊎◌, inl, inr, ◌≢◌}
use mathlib.Core.Bool.{Bool, true, false, ◌&&◌, ◌||◌}
use mathlib.Core.List.{List, [], ◌∷◌}
use native.Mathlib.Omega.{arith}
use luncur.Common.Tests.{ltb, ◌==◌, if◌then◌else◌, Bool-cases}

abbrev pub Bytes : Type 0
Bytes = List ℕ

-- The code points of a literal: its bytes, if it is ASCII.
abbrev pub codes : String → Bytes
codes String.[] = []
codes (String.◌∷◌ c s) = code c ∷ codes s

unfoldable pub str_eq : Bytes → Bytes → Bool
str_eq [] [] = true
str_eq [] (b ∷ t) = false
str_eq (a ∷ s) [] = false
str_eq (a ∷ s) (b ∷ t) = a == b && str_eq s t

str_eq→eq : (s t : Bytes) → str_eq s t ≡ true → s ≡ t
unfolding str_eq
str_eq→eq [] [] h = refl
str_eq→eq [] (b ∷ t) h = cc
str_eq→eq (a ∷ s) [] h = cc
str_eq→eq (a ∷ s) (b ∷ t) h = ground (arith, str_eq→eq s t)

pub str_eq_refl : (s : Bytes) → str_eq s s ≡ true
unfolding str_eq
str_eq_refl [] = refl
str_eq_refl (a ∷ s) = ground (arith, str_eq_refl s)

eq→str_eq : (s t : Bytes) → s ≡ t → str_eq s t ≡ true
eq→str_eq s t e = rw e (str_eq_refl t)

pub str_eq_iff : (s t : Bytes) → (str_eq s t ≡ true) ↔ (s ≡ t)
str_eq_iff s t = (str_eq→eq s t, eq→str_eq s t)

pub str_eq_of_ne : (s t : Bytes) → s ≢ t → str_eq s t ≡ false
str_eq_of_ne s t h = ground (arith, str_eq_iff s t)

-- Two names are equal and the test passes, or they differ and it fails.
pub str_eq_cases :
    (s t : Bytes) → ((str_eq s t ≡ true) × (s ≡ t)) ⊎ ((str_eq s t ≡ false) × (s ≢ t))
str_eq_cases s t = elim (Bool-cases (str_eq s t)) [
  | inl e ↦ inl (e, str_eq→eq s t e)
  | inr e ↦ inr (e, λ p. ground (arith, str_eq_iff s t))
]

-- `a < b` on Go strings: bytewise.
unfoldable pub str_lt : Bytes → Bytes → Bool
str_lt s [] = false
str_lt [] (b ∷ t) = true
str_lt (a ∷ s) (b ∷ t) = ltb a b || (a == b && str_lt s t)

-- `sort.Strings`.
unfoldable pub insert_sorted : Bytes → List Bytes → List Bytes
insert_sorted x [] = x ∷ []
insert_sorted x (y ∷ ys) = if str_lt y x then y ∷ insert_sorted x ys else x ∷ y ∷ ys

unfoldable pub sort_strings : List Bytes → List Bytes
unfolding insert_sorted
sort_strings [] = []
sort_strings (x ∷ xs) = insert_sorted x (sort_strings xs)

-- A name's multiplicity in a list.
unfoldable pub count_of : Bytes → List Bytes → ℕ
count_of a [] = 0
count_of a (x ∷ xs) = let rest = count_of a xs in if str_eq a x then suc rest else rest

count_of-insert_sorted :
    (a x : Bytes) (xs : List Bytes) → count_of a (insert_sorted x xs) ≡ count_of a (x ∷ xs)
unfolding count_of insert_sorted
count_of-insert_sorted a x [] = refl
count_of-insert_sorted a x (y ∷ ys) = ground (arith, count_of-insert_sorted a x ys)

-- Sorting keeps how often each name occurs.
pub count_of-sort : (a : Bytes) (xs : List Bytes) → count_of a (sort_strings xs) ≡ count_of a xs
unfolding sort_strings count_of
count_of-sort a [] = refl
count_of-sort a (x ∷ xs) =
    ground (arith, count_of-insert_sorted a x (sort_strings xs), count_of-sort a xs)
