-- ===== src/Common/Keep.antt =====
-- The elements that pass a test, as a loop with an append collects them, and what is in lists that
-- loops make.
use luncur.Common.Lists.{length, take}
use luncur.Common.Tests.{leb, if◌then◌else◌, Bool-cases}
use Prim.Native.Nat.{ℕ, zero, suc}
use mathlib.Core.Bool.{Bool, true}
use mathlib.Core.Logic.{◌↔◌, ◌⊎◌, inl, inr}
use mathlib.Core.Path.{◌≡◌, refl, ap, sym, subst}
use mathlib.Core.List.{List, [], ◌∷◌, map, Memᴰ}
use native.Mathlib.Omega.{arith}

module _ {ℓ} {A : Type ℓ} where
  abbrev pub keep : (A → Bool) → List A → List A
  keep test [] = []
  keep test (x ∷ xs) = let rest = keep test xs in if test x then x ∷ rest else rest

  mem_cons : (a x : A) (xs : List A) → Memᴰ a (x ∷ xs) → (a ≡ x) ⊎ Memᴰ a xs
  mem_cons a x xs (Memᴰ.head e) = inl e
  mem_cons a x xs (Memᴰ.tail m) = inr m

  keep_mem :
      (test : A → Bool) (xs : List A) (a : A) → Memᴰ a (keep test xs) → Memᴰ a xs × (test a ≡ true)
  keep_mem test [] a m = elim m [ ]
  keep_mem test (x ∷ xs) a m = elim (Bool-cases (test x)) [
    | inl e ↦ elim (mem_cons a x (keep test xs) (rw e at m)) [
      | inl same ↦ (Memᴰ.head same, subst (λ y. test y ≡ true) (sym same) e)
      | inr m' ↦ let (there, h) = keep_mem test xs a m' in (Memᴰ.tail there, h)
    ]
    | inr e ↦ let (there, h) = keep_mem test xs a (rw e at m) in (Memᴰ.tail there, h)
  ]

  mem_keep :
      (test : A → Bool) (xs : List A) (a : A) → Memᴰ a xs → test a ≡ true → Memᴰ a (keep test xs)
  mem_keep test [] a m h = elim m [ ]
  mem_keep test (x ∷ xs) a (Memᴰ.head same) h =
      let e : test x ≡ true = subst (λ y. test y ≡ true) same h in rw e (Memᴰ.head same)
  mem_keep test (x ∷ xs) a (Memᴰ.tail m) h = elim (Bool-cases (test x)) [
    | inl e ↦ rw e (Memᴰ.tail (mem_keep test xs a m h))
    | inr e ↦ rw e (mem_keep test xs a m h)
  ]

  pub mem-keep :
      (test : A → Bool) (xs : List A) (a : A)
      → Memᴰ a (keep test xs) ↔ (Memᴰ a xs × (test a ≡ true))
  mem-keep test xs a = (keep_mem test xs a, λ (m, h). mem_keep test xs a m h)

  pub take_mem : (n : ℕ) (xs : List A) (a : A) → Memᴰ a (take n xs) → Memᴰ a xs
  take_mem zero xs a m = elim m [ ]
  take_mem (suc n) [] a m = elim m [ ]
  take_mem (suc n) (x ∷ xs) a (Memᴰ.head e) = Memᴰ.head e
  take_mem (suc n) (x ∷ xs) a (Memᴰ.tail m) = Memᴰ.tail (take_mem n xs a m)

  pub length-take :
      (n : ℕ) (xs : List A) → length (take n xs) ≡ (if leb (length xs) n then length xs else n)
  length-take zero xs = ground arith
  length-take (suc n) [] = ground arith
  length-take (suc n) (x ∷ xs) = let ih = length-take n xs in ground arith

module _ {ℓ κ} {A : Type ℓ} {B : Type κ} (f : A → B) where
  map_mem : (xs : List A) (b : B) → Memᴰ b (map f xs) → (a : A) × Memᴰ a xs × (f a ≡ b)
  map_mem [] b m = elim m [ ]
  map_mem (x ∷ xs) b (Memᴰ.head e) = (x, Memᴰ.head refl, sym e)
  map_mem (x ∷ xs) b (Memᴰ.tail m) = let (a, m', e) = map_mem xs b m in (a, Memᴰ.tail m', e)

  mem_map : (xs : List A) (a : A) → Memᴰ a xs → Memᴰ (f a) (map f xs)
  mem_map [] a m = elim m [ ]
  mem_map (x ∷ xs) a (Memᴰ.head e) = Memᴰ.head (ap f e)
  mem_map (x ∷ xs) a (Memᴰ.tail m) = Memᴰ.tail (mem_map xs a m)

  pub mem-map : (xs : List A) (b : B) → Memᴰ b (map f xs) ↔ ((a : A) × Memᴰ a xs × (f a ≡ b))
  mem-map xs b = (map_mem xs b, λ (a, m, e). subst (λ c. Memᴰ c (map f xs)) e (mem_map xs a m))
