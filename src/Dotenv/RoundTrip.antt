-- ===== src/Dotenv/RoundTrip.antt =====
-- What `parseDotenv` (internal/server/dotenv.go) reads from lines with quoted values.
use luncur.Common.{
  subst, is_space_rune, trim_from, space_width, ℕ, suc, ◌≡◌, refl, sym, ap, ◌∙◌, false, some, List,
  [], ◌∷◌, ◌++◌, map, Memᴰ, arith, append_assoc, ◌==◌, All, All-append, Bytes, codes, update,
  trim_left, before_trimmed, trim_right, trim, trim_suffix, has_prefix, trim_prefix, cut, split_on,
}
use luncur.Common.Fallible.{◌>>=◌, right}
use luncur.Common.Cutting.{Free, cut-append, split_on-Free, split_on-append}
use luncur.Common.Printing.{trim_left-same}
use luncur.Dotenv.Parse.{
  Env, empty_env, last_byte, but_last, unquote, set_key, set_pair, read_line, read_lines,
  parse_dotenv,
}

-- A name without an equals sign, a line break or a space, that does not start a comment and neither
-- starts nor ends in white space.
abbrev pub IsKey : Bytes → Type 0
IsKey [] = ⊥
IsKey (c ∷ key) =
    ((c == 35) ≡ false)
    × Free 61 (c ∷ key)
    × Free 10 (c ∷ key)
    × Free 32 (c ∷ key)
    × (space_width (c ∷ key) ≡ 0)
    × (trim_right (c ∷ key) ≡ c ∷ key)

-- Any value of one line.
abbrev pub IsPair : Bytes × Bytes → Type 0
IsPair (key, val) = IsKey key × Free 10 val

abbrev pub quoted : Bytes → Bytes
quoted val = 34 ∷ (val ++ 34 ∷ [])

-- KEY="VALUE"
abbrev pub show_pair : Bytes × Bytes → Bytes
show_pair (key, val) = key ++ 61 ∷ quoted val

abbrev pub show_lines : List (Bytes × Bytes) → Bytes
show_lines [] = []
show_lines (p ∷ []) = show_pair p
show_lines (p ∷ q ∷ ps) = show_pair p ++ 10 ∷ show_lines (q ∷ ps)

abbrev pub set_all : List (Bytes × Bytes) → Env → Env
set_all [] env = env
set_all ((key, val) ∷ ps) env = set_all ps (update env key (some val))

quote_rune : (c : ℕ) (s : Bytes) → is_space_rune (c ∷ (s ++ 34 ∷ [])) ≡ false
quote_rune c [] = ground arith
quote_rune c (d ∷ []) = ground arith
quote_rune c (d ∷ e ∷ []) = refl
quote_rune c (d ∷ e ∷ f ∷ s) = refl

trim_right-quote : (s : Bytes) → trim_right (s ++ 34 ∷ []) ≡ s ++ 34 ∷ []
unfolding trim_right
trim_right-quote [] = refl
trim_right-quote (c ∷ s) = ap (before_trimmed c) (trim_right-quote s) ∙ rw (quote_rune c s) refl

-- A text that starts without white space and ends in a quote.
trim-quote : (s : Bytes) → space_width (s ++ 34 ∷ []) ≡ 0 → trim (s ++ 34 ∷ []) ≡ s ++ 34 ∷ []
unfolding trim
trim-quote s h = ap trim_left (trim_right-quote s) ∙ trim_left-same (s ++ 34 ∷ []) h

-- An equals sign ends no white space.
space_width-equals :
    (c : ℕ) (key rest : Bytes)
    → space_width (c ∷ key) ≡ 0
    → space_width (c ∷ (key ++ 61 ∷ rest)) ≡ 0
space_width-equals c [] [] h = ground arith
space_width-equals c [] (x ∷ rest) h = ground arith
space_width-equals c (d ∷ []) rest h = ground arith
space_width-equals c (d ∷ e ∷ key) rest h = h

trim_suffix-last :
    (sep : ℕ) (s : Bytes) (d : ℕ) → (d == sep) ≡ false → trim_suffix sep (s ++ d ∷ []) ≡ s ++ d ∷ []
unfolding trim_suffix
trim_suffix-last sep [] d h = rw h refl
trim_suffix-last sep (c ∷ []) d h = rw h refl
trim_suffix-last sep (c ∷ x ∷ s) d h = ap (λ t. c ∷ t) (trim_suffix-last sep (x ∷ s) d h)

unquote-quoted : (val : Bytes) → unquote (quoted val) ≡ val
unquote-quoted [] = refl
unquote-quoted (c ∷ s) = rw (last_quote c s) (but_last_quote c s)
  where
    last_quote : (c : ℕ) (s : Bytes) → last_byte c (s ++ 34 ∷ []) ≡ 34
    last_quote c [] = refl
    last_quote c (d ∷ s) = last_quote d s

    but_last_quote : (c : ℕ) (s : Bytes) → but_last c (s ++ 34 ∷ []) ≡ c ∷ s
    but_last_quote c [] = refl
    but_last_quote c (d ∷ s) = ap (λ t. c ∷ t) (but_last_quote d s)

-- A prefix with a space in it is not found where the key has none.
no_prefix :
    (prefix key rest : Bytes)
    → Free 61 prefix
    → Memᴰ 32 prefix
    → Free 32 key
    → has_prefix prefix (key ++ 61 ∷ rest) ≡ false
unfolding has_prefix
no_prefix [] key rest free m h = elim m [ ]
no_prefix (p ∷ prefix) [] rest (e, free) m h = rw e refl
no_prefix (p ∷ prefix) (c ∷ key) rest (e, free) (Memᴰ.head same) (h, hs) =
    let other : (p == c) ≡ false = ground arith in rw other refl
no_prefix (p ∷ prefix) (c ∷ key) rest (e, free) (Memᴰ.tail m) (h, hs) =
    let ih = no_prefix prefix key rest free m hs in ground (arith, ih)

-- "export "
not_exported :
    (key rest : Bytes)
    → Free 32 key
    → trim_prefix (codes "export ") (key ++ 61 ∷ rest) ≡ key ++ 61 ∷ rest
not_exported key rest h =
    let space : Memᴰ 32 (codes "export ") =
      Memᴰ.tail (Memᴰ.tail (Memᴰ.tail (Memᴰ.tail (Memᴰ.tail (Memᴰ.tail (Memᴰ.head refl)))))) in
    rw
      (no_prefix (codes "export ") key rest
        (refl, (refl, (refl, (refl, (refl, (refl, (refl, tt))))))) space h)
      refl

show_pair-ends :
    (c : ℕ) (key val : Bytes) → show_pair (c ∷ key, val) ≡ c ∷ ((key ++ 61 ∷ 34 ∷ val) ++ 34 ∷ [])
show_pair-ends c key val = ap (λ t. c ∷ t) (sym (append_assoc key (61 ∷ 34 ∷ val) (34 ∷ [])))

trimmed_pair :
    (c : ℕ) (key val : Bytes)
    → space_width (c ∷ key) ≡ 0
    → trim (trim_suffix 13 (show_pair (c ∷ key, val))) ≡ show_pair (c ∷ key, val)
trimmed_pair c key val h =
    let body = c ∷ (key ++ 61 ∷ 34 ∷ val) in
    let ends = show_pair-ends c key val in
    let starts : space_width (body ++ 34 ∷ []) ≡ 0 =
      subst (λ t. space_width t ≡ 0) ends (space_width-equals c key (quoted val) h) in
    ap (λ t. trim (trim_suffix 13 t)) ends
    ∙ ap trim (trim_suffix-last 13 body 34 refl)
    ∙ trim-quote body starts
    ∙ sym ends

trim-key :
    (c : ℕ) (key : Bytes)
    → space_width (c ∷ key) ≡ 0
    → trim_right (c ∷ key) ≡ c ∷ key
    → trim (c ∷ key) ≡ c ∷ key
unfolding trim
trim-key c key starts ends = ap trim_left ends ∙ trim_left-same (c ∷ key) starts

quote_starts : (val : Bytes) → space_width (quoted val) ≡ 0
quote_starts [] = refl
quote_starts (c ∷ []) = refl
quote_starts (c ∷ d ∷ val) = refl

read_line-pair :
    (i : ℕ) (key val : Bytes) (env : Env)
    → IsKey key
    → read_line i (trim (trim_suffix 13 (show_pair (key, val)))) env
      ≡ right (update env key (some val))
unfolding read_line
read_line-pair i [] val env h = absurd h
read_line-pair i (c ∷ key) val env (not_comment, free, _, no_space, starts, ends) =
    let line = show_pair (c ∷ key, val) in
    ap (λ t. read_line i t env) (trimmed_pair c key val starts)
    ∙ rw not_comment
        (ap (λ t. set_pair i t (cut 61 t) env) (not_exported (c ∷ key) (quoted val) no_space))
    ∙ ap (λ o. set_pair i line o env) (cut-append 61 (c ∷ key) (quoted val) free)
    ∙ ap (λ k. set_key i line k (quoted val) env) (trim-key c key starts ends)
    ∙ ap (λ v. right (update env (c ∷ key) (some (unquote v))))
        (trim-quote (34 ∷ val) (quote_starts val))
    ∙ ap (λ v. right (update env (c ∷ key) (some v))) (unquote-quoted val)

Free-pair : (p : Bytes × Bytes) → IsPair p → Free 10 (show_pair p)
Free-pair (key, val) (is_key, free) =
    All-append (λ c. (c == 10) ≡ false) key (61 ∷ quoted val) (Free-key key is_key)
      (refl, (refl, All-append (λ c. (c == 10) ≡ false) val (34 ∷ []) free (refl, tt)))
  where
    Free-key : (key : Bytes) → IsKey key → Free 10 key
    Free-key [] h = absurd h
    Free-key (c ∷ key) (_, _, free, _, _, _) = free

split_on-lines :
    (p : Bytes × Bytes) (ps : List (Bytes × Bytes))
    → All IsPair (p ∷ ps)
    → split_on 10 (show_lines (p ∷ ps)) ≡ map show_pair (p ∷ ps)
split_on-lines p [] (h, _) = split_on-Free 10 (show_pair p) (Free-pair p h)
split_on-lines p (q ∷ ps) (h, hs) =
    split_on-append 10 (show_pair p) (show_lines (q ∷ ps)) (Free-pair p h)
    ∙ ap (λ l. show_pair p ∷ l) (split_on-lines q ps hs)

read_lines-pairs :
    (i : ℕ) (ps : List (Bytes × Bytes)) (env : Env)
    → All IsPair ps
    → read_lines i (map show_pair ps) env ≡ right (set_all ps env)
unfolding read_lines
read_lines-pairs i [] env h = refl
read_lines-pairs i ((key, val) ∷ ps) env ((is_key, _), hs) =
    ap (λ r. r >>= read_lines (suc i) (map show_pair ps)) (read_line-pair i key val env is_key)
    ∙ read_lines-pairs (suc i) ps (update env key (some val)) hs

-- If no name is empty, starts with #, has an equals sign, a line break or a space, or starts or ends
-- in Unicode white space, and no value has a line break, then the text with a line KEY="VALUE" for each pair is read without an error, as the
-- map that holds the pairs, the later ones over the earlier ones.
pub parse_dotenv-show :
    (ps : List (Bytes × Bytes))
    → All IsPair ps
    → parse_dotenv (show_lines ps) ≡ right (set_all ps empty_env)
unfolding parse_dotenv split_on read_lines read_line trim trim_left trim_from trim_right trim_suffix
parse_dotenv-show [] h = refl
parse_dotenv-show (p ∷ ps) h =
    ap (λ lines. read_lines 1 lines empty_env) (split_on-lines p ps h)
    ∙ read_lines-pairs 1 (p ∷ ps) empty_env h
