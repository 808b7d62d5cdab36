-- ===== src/Policy/Steps.antt =====
-- internal/store/policies.go: `ParseCanarySteps` and `FormatCanarySteps`.
use luncur.Common.{
  trim_suffix, Bool, false, not, ◌||◌, Option, none, some, List, [], ◌∷◌, ◌++◌, ltb, length, Bytes,
  ℤ, ltb_ℤ, pos, trim, split_on, atoi, itoa,
}
use luncur.Common.Fallible.{Fallible, ◌>>=◌, unless, wrong, right}

pub data StepsError : Type 0 where
  no_steps too_many : StepsError
  bad_step : Bytes → StepsError
  not_increasing : Bytes → StepsError

abbrev pub in_percent : ℤ → Bool
in_percent z = not (ltb_ℤ z (pos 1) || ltb_ℤ (pos 99) z)

abbrev pub weight_or : Bytes → Option ℤ → Fallible StepsError ℤ
weight_or part none = wrong (bad_step part)
weight_or part (some n) = unless (not (in_percent n)) (bad_step part) (right n)

-- One weight, with or without a percent sign.
unfoldable pub weight_of : Bytes → Fallible StepsError ℤ
weight_of part = weight_or part (atoi (trim (trim_suffix 37 (trim part))))

-- `len(out) > 0 && n <= out[len(out)-1]`
abbrev pub not_above : Option ℤ → ℤ → Bool
not_above none n = false
not_above (some last) n = not (ltb_ℤ last n)

abbrev pub onto {ℓ} : {E : Type ℓ} → ℤ → Fallible E (List ℤ) → Fallible E (List ℤ)
onto n (wrong e) = wrong e
onto n (right ns) = right (n ∷ ns)

-- The loop over the parts, with the last weight so far.
unfoldable pub parse_weights : Bytes → Option ℤ → List Bytes → Fallible StepsError (List ℤ)
parse_weights s last [] = right []
parse_weights s last (part ∷ parts) = weight_of part >>= λ n.
    unless (not_above last n) (not_increasing s) (onto n (parse_weights s (some n) parts))

abbrev pub at_most_five : List ℤ → Fallible StepsError (List ℤ)
at_most_five ns = unless (ltb 5 (length ns)) too_many (right ns)

abbrev pub parse_trimmed : Bytes → Fallible StepsError (List ℤ)
parse_trimmed [] = wrong no_steps
parse_trimmed (c ∷ s) = parse_weights (c ∷ s) none (split_on 44 (c ∷ s)) >>= at_most_five

unfoldable pub parse_canary_steps : Bytes → Fallible StepsError (List ℤ)
parse_canary_steps s = parse_trimmed (trim s)

-- `strings.Join` of the weights with commas.
unfoldable pub format_canary_steps : List ℤ → Bytes
format_canary_steps [] = []
format_canary_steps (n ∷ []) = itoa n
format_canary_steps (n ∷ m ∷ ns) = itoa n ++ 44 ∷ format_canary_steps (m ∷ ns)
