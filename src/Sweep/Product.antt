-- ===== src/Sweep/Product.antt =====
-- All combinations of the values of some axes, in lexicographic order: the reference for the grid of
-- internal/sweep/params.go.
use luncur.Common.{
  ℕ, ◌*◌, ◌≤◌, ◌≡◌, refl, ap, ◌∙◌, List, [], ◌∷◌, ◌++◌, map, arith, length, length-append,
  length-map,
}

module _ {ℓ} {A : Type ℓ} where
  -- Each of the values before each of the combinations.
  abbrev pub choose : List A → List (List A) → List (List A)
  choose [] ps = []
  choose (x ∷ xs) ps = map (λ p. x ∷ p) ps ++ choose xs ps

  abbrev pub product : List (List A) → List (List A)
  product [] = [] ∷ []
  product (xs ∷ xss) = choose xs (product xss)

  -- The number of combinations.
  abbrev pub combinations : List (List A) → ℕ
  combinations [] = 1
  combinations (xs ∷ xss) = length xs * combinations xss

  pub length-choose :
      (xs : List A) (ps : List (List A)) → length (choose xs ps) ≡ length xs * length ps
  length-choose [] ps = omega arith
  length-choose (x ∷ xs) ps =
      let front = length-append (map (λ p. x ∷ p) ps) (choose xs ps) in
      let same = length-map (λ p. x ∷ p) ps in
      let ih = length-choose xs ps in omega (arith, front, same, ih)

  pub length-product : (xss : List (List A)) → length (product xss) ≡ combinations xss
  length-product [] = refl
  length-product (xs ∷ xss) =
      length-choose xs (product xss) ∙ ap (λ n. length xs * n) (length-product xss)

  abbrev pub NonEmpty : List (List A) → Type 0
  NonEmpty [] = Unit {0}
  NonEmpty (xs ∷ xss) = (1 ≤ length xs) × NonEmpty xss
