-- ===== src/Common/Tabulate.antt =====
-- A slice that a loop over its indices fills.
use luncur.Common.Lists.{length, get_elem?, drop}
use Prim.Native.Nat.{ℕ, zero, suc, ◌+◌, ◌-◌, ◌<◌}
use mathlib.Core.Path.{◌≡◌, refl, ap, ◌∙◌, sym}
use mathlib.Core.List.{List, [], ◌∷◌, ◌++◌}
use mathlib.Core.Option.{some}
use native.Mathlib.Omega.{arith}

module _ {ℓ} {A : Type ℓ} where
  -- `for i := 0; i < n; i++ { out[i] = f(i) }`
  abbrev pub tabulate : ℕ → (ℕ → A) → List A
  tabulate zero f = []
  tabulate (suc n) f = f 0 ∷ tabulate n (λ i. f (suc i))

  some_injective : (a b : A) → some a ≡ some b → a ≡ b
  some_injective a b e = cc

  pub tabulate-get_elem? :
      (n : ℕ) (f : ℕ → A) (xs : List A)
      → length xs ≡ n
      → ((i : ℕ) → i < n → get_elem? xs i ≡ some (f i))
      → tabulate n f ≡ xs
  tabulate-get_elem? zero f [] len h = refl
  tabulate-get_elem? zero f (x ∷ xs) len h = absurd (omega arith)
  tabulate-get_elem? (suc n) f [] len h = absurd (omega arith)
  tabulate-get_elem? (suc n) f (x ∷ xs) len h =
      let first : x ≡ f 0 = some_injective x (f 0) (h 0 (omega arith)) in
      ap (λ a. a ∷ tabulate n (λ i. f (suc i))) (sym first)
      ∙ ap (λ l. x ∷ l)
          (tabulate-get_elem? n (λ i. f (suc i)) xs (omega arith) (λ i lt. h (suc i) (omega arith)))

  pub get_elem?-drop :
      (k : ℕ) (xs : List A) (i : ℕ) → get_elem? (drop k xs) i ≡ get_elem? xs (k + i)
  get_elem?-drop zero xs i = ap (get_elem? xs) (omega arith)
  get_elem?-drop (suc k) [] i = refl
  get_elem?-drop (suc k) (x ∷ xs) i =
      let step : suc (k + i) ≡ suc k + i = omega arith in
      get_elem?-drop k xs i ∙ ap (get_elem? (x ∷ xs)) step

  pub length-drop : (k : ℕ) (xs : List A) → length (drop k xs) ≡ length xs - k
  length-drop zero xs = omega arith
  length-drop (suc k) [] = omega arith
  length-drop (suc k) (x ∷ xs) = omega (arith, length-drop k xs)

  pub get_elem?-append :
      (xs ys : List A) (i : ℕ) → i < length xs → get_elem? (xs ++ ys) i ≡ get_elem? xs i
  get_elem?-append [] ys i lt = absurd (omega arith)
  get_elem?-append (x ∷ xs) ys zero lt = refl
  get_elem?-append (x ∷ xs) ys (suc i) lt = get_elem?-append xs ys i (omega arith)

  pub get_elem?-length : (xs : List A) (x : A) → get_elem? (xs ++ x ∷ []) (length xs) ≡ some x
  get_elem?-length [] x = refl
  get_elem?-length (y ∷ xs) x = get_elem?-length xs x
