-- ===== src/Pipeline/Counts.antt =====
-- Counting names in the lists of `topoSort` (internal/pipeline/compile.go).
use luncur.Common.{
  ℕ, suc, ◌+◌, ◌<◌, ◌≡◌, refl, sym, subst, inl, inr, false, Bytes, List, [], ◌∷◌, ◌++◌, Memᴰ, arith,
  str_eq, str_eq_cases, str_eq_iff, if◌then◌else◌, ◌==◌, length, count_of,
}

pub count_of_nil : (a : Bytes) → count_of a [] ≡ 0
unfolding count_of
count_of_nil a = refl

pub count_of_mem : (a : Bytes) (xs : List Bytes) → Memᴰ a xs → 0 < count_of a xs
unfolding count_of
count_of_mem a [] m = elim m [ ]
count_of_mem a (x ∷ xs) (Memᴰ.head e) = ground (arith, str_eq_iff a x)
count_of_mem a (x ∷ xs) (Memᴰ.tail m) = ground (arith, count_of_mem a xs m)

pub mem_of_count : (a : Bytes) (xs : List Bytes) → 0 < count_of a xs → Memᴰ a xs
mem_of_count a [] h = absurd (unfold count_of in omega arith)
mem_of_count a (x ∷ xs) h = elim (str_eq_cases a x) [
  | inl (t, p) ↦ Memᴰ.head p
  | inr (t, p) ↦ Memᴰ.tail (mem_of_count a xs (later t h))
]
  where
    later : str_eq a x ≡ false → 0 < count_of a (x ∷ xs) → 0 < count_of a xs
    later t h = unfold count_of in ground arith

-- 1 for the same name, 0 for another.
abbrev pub one_if : Bytes → Bytes → ℕ
one_if m n = if str_eq m n then 1 else 0

pub count_of-snoc :
    (m n : Bytes) (xs : List Bytes) → count_of m (xs ++ n ∷ []) ≡ count_of m xs + one_if m n
unfolding count_of
count_of-snoc m n [] = ground arith
count_of-snoc m n (x ∷ xs) = ground (arith, count_of-snoc m n xs)

pub count_of-cons :
    (m n : Bytes) (xs : List Bytes) → count_of m (n ∷ xs) ≡ one_if m n + count_of m xs
unfolding count_of
count_of-cons m n xs = ground arith

-- How many of the needs are not yet in the output.
pub left : List Bytes → List Bytes → ℕ
left [] out = 0
left (d ∷ ds) out = let rest = left ds out in if count_of d out == 0 then suc rest else rest

pub left-snoc :
    (ds out : List Bytes) (n : Bytes)
    → count_of n out ≡ 0
    → left ds (out ++ n ∷ []) + count_of n ds ≡ left ds out
unfolding left count_of
left-snoc [] out n h = omega arith
left-snoc (d ∷ ds) out n h =
    ground (arith, left-snoc ds out n h, count_of-snoc d n out, str_eq_iff d n, str_eq_iff n d)

pub left-nil : (ds : List Bytes) → left ds [] ≡ length ds
unfolding left count_of
left-nil [] = refl
left-nil (d ∷ ds) = ground (arith, left-nil ds)

pub left_none :
    (ds out : List Bytes) → ((d : Bytes) → Memᴰ d ds → 0 < count_of d out) → left ds out ≡ 0
unfolding left
left_none [] out h = refl
left_none (d ∷ ds) out h =
    ground (arith, h d (Memᴰ.head refl), left_none ds out (λ x m. h x (Memᴰ.tail m)))

pub left_mem : (ds out : List Bytes) → left ds out ≡ 0 → (d : Bytes) → Memᴰ d ds → Memᴰ d out
left_mem [] out h d m = elim m [ ]
left_mem (x ∷ ds) out h d (Memᴰ.head p) =
    mem_of_count d out (subst (λ y. 0 < count_of y out) (sym p) (unfold left in ground arith))
left_mem (x ∷ ds) out h d (Memᴰ.tail m) = left_mem ds out (unfold left in ground arith) d m

-- Taking out one occurrence.
remove : Bytes → List Bytes → List Bytes
remove a [] = []
remove a (x ∷ xs) = if str_eq a x then xs else x ∷ remove a xs

length-remove :
    (a : Bytes) (xs : List Bytes) → 0 < count_of a xs → length xs ≡ suc (length (remove a xs))
unfolding remove count_of
length-remove a [] h = absurd (omega arith)
length-remove a (x ∷ xs) h = ground (arith, length-remove a xs)

count_of-remove :
    (m a : Bytes) (xs : List Bytes)
    → 0 < count_of a xs
    → count_of m xs ≡ one_if m a + count_of m (remove a xs)
unfolding remove count_of
count_of-remove m a [] h = absurd (omega arith)
count_of-remove m a (x ∷ xs) h =
    ground (arith, count_of-remove m a xs, str_eq_iff m a, str_eq_iff a x, str_eq_iff m x)

-- Lists with the same names, as often, are equally long.
pub length_of_count :
    (xs ys : List Bytes) → ((m : Bytes) → count_of m xs ≡ count_of m ys) → length xs ≡ length ys
length_of_count [] [] h = refl
length_of_count [] (y ∷ ys) h =
    absurd (omega (arith, h y, count_of_mem y (y ∷ ys) (Memᴰ.head refl), none_in y))
  where
    none_in : (y : Bytes) → count_of y [] ≡ 0
    none_in y = unfold count_of in refl
length_of_count (x ∷ xs) ys h =
    omega (arith, length-remove x ys inside, length_of_count xs (remove x ys) fewer)
  where
    inside : 0 < count_of x ys
    inside = omega (arith, h x, count_of_mem x (x ∷ xs) (Memᴰ.head refl))

    fewer : (m : Bytes) → count_of m xs ≡ count_of m (remove x ys)
    fewer m = omega (arith, h m, count_of-cons m x xs, count_of-remove m x ys inside)
