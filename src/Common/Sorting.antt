-- ===== src/Common/Sorting.antt =====
-- Sorting names keeps them.
use luncur.Common.Tests.{Bool-cases}
use luncur.Common.Text.{Bytes, str_lt, insert_sorted, sort_strings}
use mathlib.Core.Logic.{◌↔◌, inl, inr}
use mathlib.Core.List.{List, [], ◌∷◌, Memᴰ}

-- An element moves behind another one.
swapped :
    (x y n : Bytes) (ys l : List Bytes)
    → Memᴰ n l ↔ Memᴰ n (x ∷ ys)
    → Memᴰ n (y ∷ l) ↔ Memᴰ n (x ∷ y ∷ ys)
swapped x y n ys l (out, back) = (
  λ m. elim m [
    | Memᴰ.head p ↦ Memᴰ.tail (Memᴰ.head p)
    | Memᴰ.tail m' ↦ elim (out m') [
      | Memᴰ.head p ↦ Memᴰ.head p
      | Memᴰ.tail m'' ↦ Memᴰ.tail (Memᴰ.tail m'')
    ]
  ],
  λ m. elim m [
    | Memᴰ.head p ↦ Memᴰ.tail (back (Memᴰ.head p))
    | Memᴰ.tail m' ↦ elim m' [
      | Memᴰ.head p ↦ Memᴰ.head p
      | Memᴰ.tail m'' ↦ Memᴰ.tail (back (Memᴰ.tail m''))
    ]
  ],
)

insert_sorted-mem :
    (x : Bytes) (xs : List Bytes) (n : Bytes) → Memᴰ n (insert_sorted x xs) ↔ Memᴰ n (x ∷ xs)
unfolding insert_sorted
insert_sorted-mem x [] n = ((λ m. m), λ m. m)
insert_sorted-mem x (y ∷ ys) n = elim (Bool-cases (str_lt y x)) [
  | inl e ↦ rw e (swapped x y n ys (insert_sorted x ys) (insert_sorted-mem x ys n))
  | inr e ↦ rw e ((λ m. m), λ m. m)
]

pub sort_strings-mem : (xs : List Bytes) (n : Bytes) → Memᴰ n (sort_strings xs) ↔ Memᴰ n xs
unfolding sort_strings
sort_strings-mem [] n = ((λ m. m), λ m. m)
sort_strings-mem (x ∷ xs) n =
    let (out, back) = insert_sorted-mem x (sort_strings xs) n in
    let (out', back') = sort_strings-mem xs n in
    (
      λ m. elim (out m) [ Memᴰ.head p ↦ Memᴰ.head p | Memᴰ.tail m' ↦ Memᴰ.tail (out' m') ],
      λ m. elim m [ Memᴰ.head p ↦ back (Memᴰ.head p) | Memᴰ.tail m' ↦ back (Memᴰ.tail (back' m')) ],
    )
