-- ===== src/Cron/Printed.antt =====
-- The texts of cron fields, and what `parseField` (internal/cronexpr/cronexpr.go) reads in them.
use luncur.Common.{
  append-nil, itoa_nat-cons, atoi-itoa_nat, ℕ, zero, suc, ◌+◌, ◌≤◌, ◌<◌, ◌≡◌, refl, sym, ap, ◌∙◌,
  subst, ◌≢◌, ◌↔◌, ◌⊎◌, inl, inr, Bool, true, false, Option, none, some, List, [], ◌∷◌, ◌++◌, map,
  Memᴰ, arith, append-nil, leb, ◌==◌, if◌then◌else◌, All, All-append, Bytes, codes, str_eq, ℤ,
  ltb_ℤ, pos, cut, split_on, max_int, all_digits, atoi, itoa_nat,
}
use luncur.Common.Fallible.{right}
use luncur.Common.Cutting.{
  Free, cut-Free, cut-append, split_on-Free, split_on-append, Free-itoa_nat,
}
use luncur.Cron.Expr.{
  FieldSpec, IntSet, split_step, single_bounds, term_bounds, outside, parse_term, parse_parts,
  parse_field,
}
use luncur.Cron.Fill.{Stepped, fill-Filled}

-- "*", "n" and "a-b".
pub data Range : Type 0 where
  star : Range
  one : ℕ → Range
  span : ℕ → ℕ → Range

-- A range and the step behind its slash, if any.
pub record Term : Type 0 where
  pub range : Range
  pub step : Option ℕ

abbrev pub show_range : Range → Bytes
show_range star = 42 ∷ []
show_range (one n) = itoa_nat n
show_range (span a b) = itoa_nat a ++ 45 ∷ itoa_nat b

abbrev pub show_step : Bytes → Option ℕ → Bytes
show_step text none = text
show_step text (some n) = text ++ 47 ∷ itoa_nat n

abbrev pub show_term : Term → Bytes
show_term t = show_step (show_range t.range) t.step

-- Terms with commas between them.
abbrev pub show_field : Term → List Term → Bytes
show_field t [] = show_term t
show_field t (u ∷ ts) = show_term t ++ 44 ∷ show_field u ts

abbrev pub low_of : FieldSpec → Range → ℕ
low_of spec star = spec.min_value
low_of spec (one n) = n
low_of spec (span a b) = a

abbrev pub high_of : FieldSpec → Range → Option ℕ → ℕ
high_of spec star s = spec.max_value
high_of spec (one n) none = n
high_of spec (one n) (some s) = spec.max_value
high_of spec (span a b) s = b

abbrev pub step_or_one : Option ℕ → ℕ
step_or_one none = 1
step_or_one (some s) = s

-- The bounds are in order and in the field, and the step is positive and far from the ints' end.
abbrev pub IsValid : FieldSpec → Term → Type 0
IsValid spec t =
    (spec.min_value ≤ low_of spec t.range)
    × (low_of spec t.range ≤ high_of spec t.range t.step)
    × (high_of spec t.range t.step ≤ spec.max_value)
    × (1 ≤ step_or_one t.step)
    × (spec.max_value + step_or_one t.step ≤ max_int)

-- The term selects the value.
abbrev pub Selects : FieldSpec → Term → ℤ → Type 0
Selects spec t z =
    Stepped (low_of spec t.range) (step_or_one t.step) (high_of spec t.range t.step) z

range-Free : (sep : ℕ) (r : Range) → sep < 48 → sep ≢ 45 → sep ≢ 42 → Free sep (show_range r)
range-Free sep star lt n45 n42 = (ground arith, tt)
range-Free sep (one n) lt n45 n42 = Free-itoa_nat sep n lt
range-Free sep (span a b) lt n45 n42 =
    All-append (λ c. (c == sep) ≡ false) (itoa_nat a) (45 ∷ itoa_nat b) (Free-itoa_nat sep a lt)
      (ground arith, Free-itoa_nat sep b lt)

term-Free :
    (sep : ℕ) (t : Term) → sep < 48 → sep ≢ 45 → sep ≢ 42 → sep ≢ 47 → Free sep (show_term t)
term-Free sep t lt n45 n42 n47 = by_step t.step
  where
    by_step : (s : Option ℕ) → Free sep (show_step (show_range t.range) s)
    by_step none = range-Free sep t.range lt n45 n42
    by_step (some n) =
        All-append (λ c. (c == sep) ≡ false) (show_range t.range) (47 ∷ itoa_nat n)
          (range-Free sep t.range lt n45 n42) (ground arith, Free-itoa_nat sep n lt)

atoi-nat : (n : ℕ) → n ≤ max_int → atoi (itoa_nat n) ≡ some (pos n)
atoi-nat n le =
    let fits : leb n max_int ≡ true = ground arith in
    atoi-itoa_nat n ∙ ap (λ b. if b then some (pos n) else none) fits

abbrev slash_of : Option ℕ → Bool
slash_of none = false
slash_of (some s) = true

split_step-show :
    (r : Range) (s : Option ℕ)
    → 1 ≤ step_or_one s
    → step_or_one s ≤ max_int
    → split_step (show_step (show_range r) s) (cut 47 (show_step (show_range r) s))
      ≡ right (show_range r, step_or_one s, slash_of s)
unfolding split_step
split_step-show r none some_step fits =
    rw (cut-Free 47 (show_range r) (range-Free 47 r (omega arith) (omega arith) (omega arith))) refl
split_step-show r (some zero) some_step fits = absurd (omega arith)
split_step-show r (some (suc n)) some_step fits =
    rw
      (cut-append 47 (show_range r) (itoa_nat (suc n))
        (range-Free 47 r (omega arith) (omega arith) (omega arith)))
      (rw (atoi-nat (suc n) fits) refl)

not_star : (n : ℕ) (rest : Bytes) → str_eq (itoa_nat n ++ rest) (codes "*") ≡ false
unfolding str_eq all_digits
not_star n rest =
    let (d, t, e, digits, _) = itoa_nat-cons n in
    let other : (d == 42) ≡ false = ground arith in rw (e, other) refl

one_bounds :
    (spec : FieldSpec) (n : ℕ) (s : Option ℕ)
    → single_bounds spec (slash_of s) (pos n) ≡ right (pos n, pos (high_of spec (one n) s))
one_bounds spec n none = refl
one_bounds spec n (some s) = refl

term_bounds-show :
    (spec : FieldSpec) (r : Range) (s : Option ℕ)
    → low_of spec r ≤ high_of spec r s
    → high_of spec r s ≤ max_int
    → term_bounds spec (show_range r) (slash_of s)
      ≡ right (pos (low_of spec r), pos (high_of spec r s))
unfolding term_bounds str_eq
term_bounds-show spec star s le fits = refl
term_bounds-show spec (one n) s le fits =
    let other : str_eq (itoa_nat n) (codes "*") ≡ false =
      subst (λ t. str_eq t (codes "*") ≡ false) (append-nil (itoa_nat n)) (not_star n []) in
    rw
      (other, cut-Free 45 (itoa_nat n) (Free-itoa_nat 45 n (omega arith)), atoi-nat n (omega arith))
      (one_bounds spec n s)
term_bounds-show spec (span a b) s le fits =
    let in_order : ltb_ℤ (pos b) (pos a) ≡ false = ground arith in
    rw
      (
        not_star a (45 ∷ itoa_nat b),
        cut-append 45 (itoa_nat a) (itoa_nat b) (Free-itoa_nat 45 a (omega arith)),
        atoi-nat a (omega arith),
        atoi-nat b fits,
        in_order,
      )
      refl

-- What reading a term adds to a set.
abbrev pub Adds : FieldSpec → Term → IntSet → IntSet → Type 0
Adds spec t set out = (z : ℤ) → Memᴰ z out ↔ (Memᴰ z set ⊎ Selects spec t z)

parse_term-show :
    (spec : FieldSpec) (t : Term) (set : IntSet)
    → spec.max_value ≤ 59
    → IsValid spec t
    → (out : IntSet) × (parse_term (show_term t) spec set ≡ right out) × Adds spec t set out
unfolding parse_term
parse_term-show spec t set small (low, ordered, high, some_step, far) =
    let lo : ℕ = low_of spec t.range in
    let hi : ℕ = high_of spec t.range t.step in
    let step : ℕ = step_or_one t.step in
    let (out, runs, adds) = fill-Filled 199 step hi lo set some_step (omega arith) (omega arith) in
    let split = split_step-show t.range t.step some_step (omega arith) in
    let bounds = term_bounds-show spec t.range t.step ordered (omega arith) in
    let inside : outside spec (pos lo) (pos hi) ≡ false = ground arith in
    (out, rw split (rw bounds (rw inside (rw runs refl))), adds)

show_term-cons : (t : Term) → (c : ℕ) × (rest : Bytes) × (show_term t ≡ c ∷ rest)
show_term-cons t = by_step t.step (by_range t.range)
  where
    by_range : (r : Range) → (c : ℕ) × (rest : Bytes) × (show_range r ≡ c ∷ rest)
    by_range star = (42, [], refl)
    by_range (one n) = let (d, u, e, _, _) = itoa_nat-cons n in (d, u, e)
    by_range (span a b) =
        let (d, u, e, _, _) = itoa_nat-cons a in
        (d, u ++ 45 ∷ itoa_nat b, ap (λ x. x ++ 45 ∷ itoa_nat b) e)

    by_step :
        (s : Option ℕ)
        → ((c : ℕ) × (rest : Bytes) × (show_range t.range ≡ c ∷ rest))
        → (c : ℕ) × (rest : Bytes) × (show_step (show_range t.range) s ≡ c ∷ rest)
    by_step none (c, rest, e) = (c, rest, e)
    by_step (some n) (c, rest, e) = (c, rest ++ 47 ∷ itoa_nat n, ap (λ x. x ++ 47 ∷ itoa_nat n) e)

-- Some term of the list selects the value.
abbrev pub SelectedBy : FieldSpec → List Term → ℤ → Type 0
SelectedBy spec ts z = (t : Term) × Memᴰ t ts × Selects spec t z

abbrev pub AllValid : FieldSpec → List Term → Type 0
AllValid spec ts = All (IsValid spec) ts

parse_parts-show :
    (spec : FieldSpec) (ts : List Term) (set : IntSet)
    → spec.max_value ≤ 59
    → AllValid spec ts
    → (out : IntSet) × (parse_parts (map show_term ts) spec set ≡ right out)
      × ((z : ℤ) → Memᴰ z out ↔ (Memᴰ z set ⊎ SelectedBy spec ts z))
unfolding parse_parts
parse_parts-show spec [] set small h =
    (set, refl, λ z. (λ m. inl m, λ p. elim p [ inl m ↦ m | inr (t, m, _) ↦ elim m [ ] ]))
parse_parts-show spec (t ∷ ts) set small (v, vs) =
    let (mid, reads, adds) = parse_term-show spec t set small v in
    let (out, rest, union) = parse_parts-show spec ts mid small vs in
    let (c, text, e) = show_term-cons t in
    (
      out,
      rw e (rw (ap (λ x. parse_term x spec set) (sym e) ∙ reads) rest),
      λ z.
          let (fwd, bwd) = union z in
          let (from_add, to_add) = adds z in
          (
            λ m. elim (fwd m) [
              | inl m' ↦ elim (from_add m') [
                | inl old ↦ inl old
                | inr s ↦ inr (t, Memᴰ.head refl, s)
              ]
              | inr (u, k, s) ↦ inr (u, Memᴰ.tail k, s)
            ],
            λ p. elim p [
              | inl old ↦ bwd (inl (to_add (inl old)))
              | inr (u, Memᴰ.head same, s) ↦
                  bwd (inl (to_add (inr (subst (λ x. Selects spec x z) same s))))
              | inr (u, Memᴰ.tail k, s) ↦ bwd (inr (u, k, s))
            ],
          ),
    )

split_on-show : (t : Term) (ts : List Term) → split_on 44 (show_field t ts) ≡ map show_term (t ∷ ts)
split_on-show t [] =
    split_on-Free 44 (show_term t)
      (term-Free 44 t (omega arith) (omega arith) (omega arith) (omega arith))
split_on-show t (u ∷ ts) =
    split_on-append 44 (show_term t) (show_field u ts)
      (term-Free 44 t (omega arith) (omega arith) (omega arith) (omega arith))
    ∙ ap (λ parts. show_term t ∷ parts) (split_on-show u ts)

-- If each of the terms is valid for a field of a cron expression, then the text of the terms with
-- commas between them is read without an error, as the set of exactly the values that some term
-- selects: the ones from its first value on, by its step, up to its last.
pub parse_field-show :
    (spec : FieldSpec) (t : Term) (ts : List Term)
    → spec.max_value ≤ 59
    → AllValid spec (t ∷ ts)
    → (out : IntSet) × (parse_field (show_field t ts) spec ≡ right out)
      × ((z : ℤ) → Memᴰ z out ↔ SelectedBy spec (t ∷ ts) z)
unfolding parse_field
parse_field-show spec t ts small valid =
    let (out, reads, union) = parse_parts-show spec (t ∷ ts) [] small valid in
    (
      out,
      rw (split_on-show t ts) reads,
      λ z.
          let (fwd, bwd) = union z in
          (λ m. elim (fwd m) [ inl old ↦ elim old [ ] | inr s ↦ s ], λ s. bwd (inr s)),
    )
