-- ===== src/Preview/Naming.antt =====
-- The names that `sanitizeBranch` (internal/server/preview.go) gives to preview environments.
use luncur.Common.{
  ℕ, zero, suc, ◌≤◌, ◌<◌, ◌≡◌, refl, ap, inl, inr, true, false, ◌&&◌, ◌||◌, some, [], ◌∷◌, map,
  arith, ltb, ◌==◌, Bool-cases, length, take, All, Bytes,
}
use luncur.Preview.Branch.{
  is_label, label_or_dash, has_double, replace_doubles, collapse, strip_left, before_stripped,
  strip_right, strip, shortened, or_branch, finish_name, sanitize_branch, last_of, all_in_name,
  valid_name,
}

-- A character of a name.
abbrev pub InName : ℕ → Type 0
InName c = (is_label c || c == 45) ≡ true

replaced_le : (s : Bytes) → length (replace_doubles s) ≤ length s
unfolding replace_doubles
replaced_le [] = omega arith
replaced_le (c ∷ []) = omega arith
replaced_le (c ∷ d ∷ s) =
    let after = replaced_le s in
    let next = replaced_le (d ∷ s) in
    elim (Bool-cases (c == 45 && d == 45)) [
      | inl e ↦ rw e (omega (arith, after))
      | inr e ↦ rw e (omega (arith, next))
    ]

-- A pass of the loop makes the text shorter.
replaced_lt : (s : Bytes) → has_double s ≡ true → length (replace_doubles s) < length s
unfolding replace_doubles has_double
replaced_lt [] h = cc
replaced_lt (c ∷ []) h = cc
replaced_lt (c ∷ d ∷ s) h = elim (Bool-cases (c == 45 && d == 45)) [
  | inl e ↦ rw e (omega (arith, replaced_le s))
  | inr e ↦
      let later : has_double (d ∷ s) ≡ true = rw e at h in
      rw e (omega (arith, replaced_lt (d ∷ s) later))
]

replaced-InName : (s : Bytes) → All InName s → All InName (replace_doubles s)
unfolding replace_doubles
replaced-InName [] h = tt
replaced-InName (c ∷ []) h = h
replaced-InName (c ∷ d ∷ s) (hc, (hd, h)) = elim (Bool-cases (c == 45 && d == 45)) [
  | inl e ↦ rw e (refl, replaced-InName s h)
  | inr e ↦ rw e (hc, replaced-InName (d ∷ s) (hd, h))
]

collapse-InName :
    (fuel : ℕ) (s : Bytes)
    → length s < fuel
    → All InName s
    → (t : Bytes) × (collapse fuel s ≡ some t) × All InName t
unfolding collapse
collapse-InName zero s lt h = absurd (omega arith)
collapse-InName (suc fuel) s lt h = elim (Bool-cases (has_double s)) [
  | inl e ↦
      let (t, same, h') =
        collapse-InName fuel (replace_doubles s) (omega (arith, lt, replaced_lt s e))
          (replaced-InName s h) in
      (t, rw e same, h')
  | inr e ↦ (s, rw e refl, h)
]

abbrev StartsWell : Bytes → Type 0
StartsWell [] = Unit {0}
StartsWell (c ∷ s) = (c == 45) ≡ false

abbrev EndsWell : Bytes → Type 0
EndsWell [] = Unit {0}
EndsWell (c ∷ s) = (last_of c s == 45) ≡ false

strip_right-EndsWell : (s : Bytes) → EndsWell (strip_right s)
unfolding strip_right
strip_right-EndsWell [] = tt
strip_right-EndsWell (c ∷ s) = before c (strip_right s) (strip_right-EndsWell s)
  where
    before : (c : ℕ) (t : Bytes) → EndsWell t → EndsWell (before_stripped c t)
    before c [] h = elim (Bool-cases (c == 45)) [ inl e ↦ rw e tt | inr e ↦ rw (e, e) refl ]
    before c (d ∷ t) h = h

strip_left-Well : (s : Bytes) → EndsWell s → StartsWell (strip_left s) × EndsWell (strip_left s)
unfolding strip_left
strip_left-Well [] h = (tt, tt)
strip_left-Well (c ∷ s) h = elim (Bool-cases (c == 45)) [
  | inl e ↦ rw e (strip_left-Well s (shorter c s h))
  | inr e ↦ rw e (kept c s e h)
]
  where
    shorter : (c : ℕ) (s : Bytes) → EndsWell (c ∷ s) → EndsWell s
    shorter c [] h = tt
    shorter c (d ∷ s) h = h

    kept :
        (c : ℕ) (s : Bytes)
        → (c == 45) ≡ false
        → EndsWell (c ∷ s)
        → StartsWell (c ∷ s) × EndsWell (c ∷ s)
    kept c s e h = (e, h)

strip_left-InName :
    (s : Bytes) → All InName s → All InName (strip_left s) × (length (strip_left s) ≤ length s)
unfolding strip_left
strip_left-InName [] h = (tt, omega arith)
strip_left-InName (c ∷ s) (hc, h) =
    let (names, le) = strip_left-InName s h in
    elim (Bool-cases (c == 45)) [
      | inl e ↦ rw e (names, omega (arith, le))
      | inr e ↦ rw e ((hc, h), omega arith)
    ]

strip_right-InName :
    (s : Bytes) → All InName s → All InName (strip_right s) × (length (strip_right s) ≤ length s)
unfolding strip_right
strip_right-InName [] h = (tt, omega arith)
strip_right-InName (c ∷ s) (hc, h) =
    let (names, le) = strip_right-InName s h in before c (length s) (strip_right s) hc names le
  where
    before :
        (c n : ℕ) (t : Bytes)
        → InName c
        → All InName t
        → length t ≤ n
        → All InName (before_stripped c t) × (length (before_stripped c t) ≤ suc n)
    before c n [] hc names le = elim (Bool-cases (c == 45)) [
      | inl e ↦ rw e (tt, omega arith)
      | inr e ↦ rw e ((hc, tt), omega arith)
    ]
    before c n (d ∷ t) hc names le = ((hc, names), omega (arith, le))

-- A text of name characters that starts and ends with a letter or a digit, of bounded length.
abbrev IsTrimmed : ℕ → Bytes → Type 0
IsTrimmed n s = StartsWell s × EndsWell s × All InName s × (length s ≤ n)

strip-IsTrimmed : (s : Bytes) → All InName s → IsTrimmed (length s) (strip s)
strip-IsTrimmed s h =
    let (names, le) = strip_right-InName s h in
    let (names', le') = strip_left-InName (strip_right s) names in
    let (starts, ends) = strip_left-Well (strip_right s) (strip_right-EndsWell s) in
    (starts, ends, names', omega (arith, le, le'))

take-InName : (n : ℕ) (s : Bytes) → All InName s → All InName (take n s) × (length (take n s) ≤ n)
take-InName zero s h = (tt, omega arith)
take-InName (suc n) [] h = (tt, omega arith)
take-InName (suc n) (c ∷ s) (hc, h) =
    let (names, le) = take-InName n s h in ((hc, names), omega (arith, le))

shortened-IsTrimmed : (n : ℕ) (s : Bytes) → IsTrimmed n s → IsTrimmed 30 (shortened s)
shortened-IsTrimmed n s (starts, ends, names, le) = elim (Bool-cases (ltb 30 (length s))) [
  | inl e ↦
      let (names', le') = take-InName 30 s names in
      let (starts', ends', names'', le'') = strip-IsTrimmed (take 30 s) names' in
      rw e (starts', ends', names'', omega (arith, le', le''))
  | inr e ↦ rw e (starts, ends, names, ground arith)
]

all_in_name-All : (s : Bytes) → All InName s → all_in_name s ≡ true
all_in_name-All [] h = refl
all_in_name-All (c ∷ s) (hc, h) = rw hc (all_in_name-All s h)

last_of-InName : (c : ℕ) (s : Bytes) → All InName (c ∷ s) → InName (last_of c s)
last_of-InName c [] (h, _) = h
last_of-InName c (d ∷ s) (_, h) = last_of-InName d s h

label_not_dash : (c : ℕ) → InName c → (c == 45) ≡ false → is_label c ≡ true
label_not_dash c h e = ground (arith, h, e)

or_branch-valid : (s : Bytes) → IsTrimmed 30 s → valid_name (or_branch s) ≡ true
unfolding valid_name
or_branch-valid [] h = refl
or_branch-valid (c ∷ s) (starts, ends, (hc, h), le) =
    let first = label_not_dash c hc starts in
    let last = label_not_dash (last_of c s) (last_of-InName c s (hc, h)) ends in
    let rest = all_in_name-All s h in rw (first, last, rest) (ground (arith, le))

lowered-InName :
    (to_lower : ℕ → ℕ) (b : Bytes) → All InName (map (λ r. label_or_dash (to_lower r)) b)
lowered-InName to_lower [] = tt
lowered-InName to_lower (r ∷ b) = (one (to_lower r), lowered-InName to_lower b)
  where
    one : (r : ℕ) → InName (label_or_dash r)
    one r = elim (Bool-cases (is_label r)) [ inl e ↦ rw (e, e) refl | inr e ↦ rw e refl ]

-- For every branch name, whatever its runes are and whatever they are in lower case, the loop ends
-- and the name of the preview environment is one that `validName` accepts.
pub sanitize_branch-valid :
    (to_lower : ℕ → ℕ) (b : Bytes)
    → (name : Bytes) × (sanitize_branch to_lower b ≡ some name) × (valid_name name ≡ true)
unfolding sanitize_branch
sanitize_branch-valid to_lower b =
    let s = map (λ r. label_or_dash (to_lower r)) b in
    let (t, e, names) =
      collapse-InName (suc (length s)) s (omega arith) (lowered-InName to_lower b) in
    (
      or_branch (shortened (strip t)),
      ap finish_name e,
      or_branch-valid (shortened (strip t))
          (shortened-IsTrimmed (length t) (strip t) (strip-IsTrimmed t names)),
    )
