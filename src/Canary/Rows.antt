-- ===== src/Canary/Rows.antt =====
-- SQL tables with a text key: `SELECT … WHERE id = ?` and `UPDATE … WHERE id = ?`.
use luncur.Common.{
  ◌≡◌, refl, sym, ap, ◌∙◌, ◌≢◌, inl, inr, Option, none, some, List, [], ◌∷◌, if◌then◌else◌, Bytes,
  str_eq, str_eq_of_ne, str_eq_cases,
}

unfoldable pub find_row {ℓ} : {T : Type ℓ} → (T → Bytes) → Bytes → List T → Option T
find_row key id [] = none
find_row key id (r ∷ rows) =
    let rest = find_row key id rows in if str_eq (key r) id then some r else rest

unfoldable pub set_row {ℓ} : {T : Type ℓ} → (T → Bytes) → Bytes → (T → T) → List T → List T
set_row key id f [] = []
set_row key id f (r ∷ rows) =
    let rest = set_row key id f rows in if str_eq (key r) id then f r ∷ rest else r ∷ rest

abbrev pub map_row {ℓ} : {T : Type ℓ} → (T → T) → Option T → Option T
map_row f none = none
map_row f (some r) = some (f r)

module _ {ℓ} {T : Type ℓ} (key : T → Bytes) (f : T → T) (keeps : (r : T) → key (f r) ≡ key r) where
  -- The updated row is read back changed.
  pub find_row-set_row :
      (id : Bytes) (rows : List T)
      → find_row key id (set_row key id f rows) ≡ map_row f (find_row key id rows)
  unfolding find_row set_row
  find_row-set_row id [] = refl
  find_row-set_row id (r ∷ rows) = elim (str_eq_cases (key r) id) [
    | inl (e, p) ↦ rw (e, keeps r, e) refl
    | inr (e, p) ↦ rw (e, e) (find_row-set_row id rows)
  ]

  -- Every other row is as before.
  pub find_row-set_row_ne :
      (id other : Bytes) (rows : List T)
      → id ≢ other
      → find_row key other (set_row key id f rows) ≡ find_row key other rows
  unfolding find_row set_row
  find_row-set_row_ne id other [] h = refl
  find_row-set_row_ne id other (r ∷ rows) h = elim (str_eq_cases (key r) id) [
    | inl (e, p) ↦
        rw (e, keeps r, str_eq_of_ne (key r) other (λ q. h (sym p ∙ q)))
          (find_row-set_row_ne id other rows h)
    | inr (e, p) ↦ rw e (
        ap (λ rest. if str_eq (key r) other then some r else rest)
          (find_row-set_row_ne id other rows h))
  ]
