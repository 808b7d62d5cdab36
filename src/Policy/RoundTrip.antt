-- ===== src/Policy/RoundTrip.antt =====
-- `ParseCanarySteps` reads what `FormatCanarySteps` (internal/store/policies.go) prints.
use luncur.Common.{
  trim_from, trim_suffix, ℕ, ◌<◌, ◌≡◌, refl, sym, ap, ◌∙◌, true, false, not, Option, none, some,
  List, [], ◌∷◌, ◌++◌, map, arith, ltb, length, All, All-append, Bytes, ℤ, pos, negsuc, trim_left,
  trim_right, trim, split_on, atoi, itoa, IsInt, atoi-itoa,
}
use luncur.Common.Fallible.{◌>>=◌, unless, >>=_right, unless_right, right}
use luncur.Common.Cutting.{Free, split_on-Free, split_on-append}
use luncur.Common.Printing.{
  InNumber, InNumber-itoa, itoa-cons, IsPlain, NoSpace, trim-NoSpace, InNumber-NoSpace,
}
use luncur.Policy.Steps.{
  in_percent, weight_or, weight_of, not_above, onto, parse_weights, at_most_five, parse_trimmed,
  parse_canary_steps, format_canary_steps, too_many, bad_step, not_increasing,
}
use luncur.Policy.Weights.{Ascends, IsLadder, onto_right}

trim_suffix-Free : (c : ℕ) (s : Bytes) → Free c s → trim_suffix c s ≡ s
unfolding trim_suffix
trim_suffix-Free c [] f = refl
trim_suffix-Free c (x ∷ []) (e, _) = rw e refl
trim_suffix-Free c (x ∷ y ∷ s) (_, f) = ap (λ t. x ∷ t) (trim_suffix-Free c (y ∷ s) f)

InNumber-Free : (sep : ℕ) (s : Bytes) → sep < 45 → All InNumber s → Free sep s
InNumber-Free sep [] lt h = tt
InNumber-Free sep (c ∷ s) lt ((lo, hi), h) = (ground arith, InNumber-Free sep s lt h)

weight_of-itoa :
    (z : ℤ)
    → IsInt z
    → weight_of (itoa z) ≡ unless (not (in_percent z)) (bad_step (itoa z)) (right z)
unfolding weight_of
weight_of-itoa z h =
    let plain = InNumber-itoa z in
    let trimmed = trim-NoSpace (itoa z) (InNumber-NoSpace (itoa z) plain) in
    let suffix = trim_suffix-Free 37 (itoa z) (InNumber-Free 37 (itoa z) (omega arith) plain) in
    ap (λ t. weight_or (itoa z) (atoi (trim (trim_suffix 37 t)))) trimmed
    ∙ ap (λ t. weight_or (itoa z) (atoi (trim t))) suffix
    ∙ ap (λ t. weight_or (itoa z) (atoi t)) trimmed
    ∙ ap (weight_or (itoa z)) (atoi-itoa z h)

split_on-format :
    (n : ℤ) (ns : List ℤ) → split_on 44 (format_canary_steps (n ∷ ns)) ≡ map itoa (n ∷ ns)
unfolding format_canary_steps
split_on-format n [] =
    split_on-Free 44 (itoa n) (InNumber-Free 44 (itoa n) (omega arith) (InNumber-itoa n))
split_on-format n (m ∷ ns) =
    split_on-append 44 (itoa n) (format_canary_steps (m ∷ ns))
      (InNumber-Free 44 (itoa n) (omega arith) (InNumber-itoa n))
    ∙ ap (λ parts. itoa n ∷ parts) (split_on-format m ns)

format-NoSpace : (n : ℤ) (ns : List ℤ) → NoSpace (format_canary_steps (n ∷ ns))
unfolding format_canary_steps
format-NoSpace n [] = InNumber-NoSpace (itoa n) (InNumber-itoa n)
format-NoSpace n (m ∷ ns) =
    All-append IsPlain (itoa n) (44 ∷ format_canary_steps (m ∷ ns))
      (InNumber-NoSpace (itoa n) (InNumber-itoa n)) ((omega arith, refl), format-NoSpace m ns)

format-cons : (n : ℤ) (ns : List ℤ) → (c : ℕ) × (s : Bytes) × (format_canary_steps (n ∷ ns) ≡ c ∷ s)
unfolding format_canary_steps
format-cons n [] = itoa-cons n
format-cons n (m ∷ ns) =
    let (c, s, e) = itoa-cons n in
    (c, s ++ 44 ∷ format_canary_steps (m ∷ ns), ap (λ t. t ++ 44 ∷ format_canary_steps (m ∷ ns)) e)

-- The parts of a printed list are read back as the list, where they are accepted.
parse_weights-same :
    (s : Bytes) (last : Option ℤ) (ns ms : List ℤ)
    → All IsInt ns
    → parse_weights s last (map itoa ns) ≡ right ms
    → ms ≡ ns
unfolding parse_weights
parse_weights-same s last [] ms _ h = cc
parse_weights-same s last (n ∷ ns) ms (int, ints) h =
    let (m, is_m, h1) = >>=_right (weight_of (itoa n)) _ h in
    let (_, e) =
      unless_right (not (in_percent n)) (bad_step (itoa n)) (right n)
        (sym (weight_of-itoa n int) ∙ is_m) in
    let same : n ≡ m = cc in
    let (above, h2) = unless_right (not_above last m) (not_increasing s) _ h1 in
    let (rest, h3, e2) = onto_right m (parse_weights s (some m) (map itoa ns)) ms h2 in
    let ih = parse_weights-same s (some m) ns rest ints h3 in
    sym e2 ∙ ap (λ x. x ∷ rest) (sym same) ∙ ap (λ r. n ∷ r) ih

-- A ladder's parts are accepted.
parse_weights-Ascends-itoa :
    (s : Bytes) (last : Option ℤ) (ns : List ℤ)
    → All IsInt ns
    → Ascends last ns
    → parse_weights s last (map itoa ns) ≡ right ns
unfolding parse_weights
parse_weights-Ascends-itoa s last [] _ _ = refl
parse_weights-Ascends-itoa s last (n ∷ ns) (int, ints) (above, percent, rest) =
    rw (weight_of-itoa n int, percent, above)
      (ap (onto n) (parse_weights-Ascends-itoa s (some n) ns ints rest))

parse-format_parts :
    (n : ℤ) (ns : List ℤ)
    → (s : Bytes) × (parse_canary_steps (format_canary_steps (n ∷ ns))
        ≡ (parse_weights s none (map itoa (n ∷ ns)) >>= at_most_five))
unfolding parse_canary_steps
parse-format_parts n ns =
    let (c, s, e) = format-cons n ns in
    (
      c ∷ s,
      ap parse_trimmed (trim-NoSpace (format_canary_steps (n ∷ ns)) (format-NoSpace n ns) ∙ e)
          ∙ ap (λ parts. parse_weights (c ∷ s) none parts >>= at_most_five)
              (ap (split_on 44) (sym e) ∙ split_on-format n ns),
    )

-- If the steps that are printed are read back at all, then as the same steps.
pub parse-format :
    (ns ms : List ℤ)
    → All IsInt ns
    → parse_canary_steps (format_canary_steps ns) ≡ right ms
    → ms ≡ ns
unfolding parse_canary_steps format_canary_steps trim trim_left trim_from trim_right
parse-format [] ms _ h = cc
parse-format (n ∷ ns) ms ints h =
    let (s, e) = parse-format_parts n ns in
    let (ks, h1, h2) =
      >>=_right (parse_weights s none (map itoa (n ∷ ns))) at_most_five (sym e ∙ h) in
    let (_, h3) = unless_right (ltb 5 (length ks)) too_many (right ks) h2 in
    let same : ks ≡ ms = cc in sym same ∙ parse_weights-same s none (n ∷ ns) ks ints h1

percent-IsInt : (z : ℤ) → in_percent z ≡ true → IsInt z
percent-IsInt (pos n) h = ground arith
percent-IsInt (negsuc n) h = ground arith

Ascends-IsInt : (last : Option ℤ) (ns : List ℤ) → Ascends last ns → All IsInt ns
Ascends-IsInt last [] h = tt
Ascends-IsInt last (n ∷ ns) (_, percent, rest) =
    (percent-IsInt n percent, Ascends-IsInt (some n) ns rest)

-- If there are one to five steps, each between 1 and 99 and above the one before it, then what is
-- printed for them is read back as the same steps.
pub parse-format_ladder :
    (ns : List ℤ) → IsLadder ns → parse_canary_steps (format_canary_steps ns) ≡ right ns
parse-format_ladder [] (some_step, _, _) = absurd (some_step refl)
parse-format_ladder (n ∷ ns) (_, few, ascends) =
    let (s, e) = parse-format_parts n ns in
    let test : ltb 5 (length (n ∷ ns)) ≡ false = ground arith in
    e
    ∙ ap (λ r. r >>= at_most_five)
        (parse_weights-Ascends-itoa s none (n ∷ ns) (Ascends-IsInt none (n ∷ ns) ascends) ascends)
    ∙ ap (λ b. unless b too_many (right (n ∷ ns))) test
