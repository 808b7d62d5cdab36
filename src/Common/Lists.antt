-- ===== src/Common/Lists.antt =====
-- Lists measured and indexed by native numbers, under the library's names, and predicates on lists
-- by recursion, which the tactics read and build.
use Prim.Native.Nat.{ℕ, zero, suc, ◌+◌}
use mathlib.Core.Path.{◌≡◌, refl, ap, sym, subst}
use mathlib.Core.Logic.{◌⊎◌, inl, inr}
use mathlib.Core.List.{List, [], ◌∷◌, ◌++◌, map, Memᴰ}
use mathlib.Core.List.Memᴰ
use mathlib.Core.Option.{Option, none, some}
use native.Mathlib.Omega.{arith}

module _ {ℓ} {A : Type ℓ} where
  abbrev pub length : List A → ℕ
  length [] = 0
  length (x ∷ xs) = suc (length xs)

  abbrev pub get_elem? : List A → ℕ → Option A
  get_elem? [] i = none
  get_elem? (x ∷ xs) zero = some x
  get_elem? (x ∷ xs) (suc i) = get_elem? xs i

  abbrev pub get_or : List A → ℕ → A → A
  get_or [] i d = d
  get_or (x ∷ xs) zero d = x
  get_or (x ∷ xs) (suc i) d = get_or xs i d

  abbrev pub take : ℕ → List A → List A
  take zero xs = []
  take (suc n) [] = []
  take (suc n) (x ∷ xs) = x ∷ take n xs

  abbrev pub drop : ℕ → List A → List A
  drop zero xs = xs
  drop (suc n) [] = []
  drop (suc n) (x ∷ xs) = drop n xs

  abbrev pub replicate : ℕ → A → List A
  replicate zero a = []
  replicate (suc n) a = a ∷ replicate n a

  pub length-append : (xs ys : List A) → length (xs ++ ys) ≡ length xs + length ys
  length-append [] ys = omega arith
  length-append (x ∷ xs) ys = omega (arith, length-append xs ys)

  pub List-cases : (xs : List A) → (xs ≡ []) ⊎ ((x : A) × (rest : List A) × (xs ≡ x ∷ rest))
  List-cases [] = inl refl
  List-cases (x ∷ xs) = inr (x, xs, refl)

  pub mem-snoc : (a : A) (xs : List A) (x : A) → Memᴰ a (xs ++ x ∷ []) → Memᴰ a xs ⊎ (a ≡ x)
  mem-snoc a xs x m = elim (Memᴰ.append_cases xs m) [
    | inl l ↦ inl l
    | inr r ↦ inr (Memᴰ.eq_of_singleton r)
  ]

pub length-map {ℓ κ} :
    {A : Type ℓ} {B : Type κ} (f : A → B) (xs : List A) → length (map f xs) ≡ length xs
length-map f [] = refl
length-map f (x ∷ xs) = ap suc (length-map f xs)

module _ {ℓ κ} {A : Type ℓ} (P : A → Type κ) where
  abbrev pub All : List A → Type κ
  All [] = Unit
  All (x ∷ xs) = P x × All xs

  pub All-append : (xs ys : List A) → All xs → All ys → All (xs ++ ys)
  All-append [] ys _ hy = hy
  All-append (x ∷ xs) ys (px, hx) hy = (px, All-append xs ys hx hy)

  pub All-mem : {a : A} (xs : List A) → All xs → Memᴰ a xs → P a
  All-mem [] _ m = elim m [ ]
  All-mem (x ∷ xs) (px, _) (Memᴰ.head e) = subst P (sym e) px
  All-mem (x ∷ xs) (_, h) (Memᴰ.tail m) = All-mem xs h m

  pub All-of_mem : (xs : List A) → ((a : A) → Memᴰ a xs → P a) → All xs
  All-of_mem [] h = tt
  All-of_mem (x ∷ xs) h = (h x (Memᴰ.head refl), All-of_mem xs (λ a m. h a (Memᴰ.tail m)))
