-- ===== src/Sweep/Parsed.antt =====
-- What `ParseParams` (internal/sweep/params.go) lets through.
use luncur.Common.{
  ◌≤◌, ◌≡◌, refl, subst, ◌⊎◌, inl, inr, false, ◌&&◌, Option, none, some, List, [], ◌∷◌, map, arith,
  length, length-map, Bytes,
}
use luncur.Common.Fallible.{Fallible, >>=_right, unless_right, wrong, right}
use luncur.Sweep.Params.{
  Floats, Item, RawParam, Param, ParamError, choice_string, log_flag, range_param, bounds_param,
  parse_param, onto_params, parse_each, parse_params, sequence, object, scalar, min_not_less,
  log_needs_positive,
}

module _ {F : Type 0} (fl : Floats F) where
  -- A list of choices, or a range from a smaller to a greater number, above zero on a log scale.
  abbrev pub Usable : Param F → Type 0
  Usable p =
      (1 ≤ length p.choices)
      ⊎ ((fl.is_ge p.min_value p.max_value ≡ false)
          × (p.log_scale && fl.le_zero p.min_value ≡ false))

  bounds_param-Usable :
      (key : Bytes) (lo hi : Option F) (item : Option (Item F)) (p : Param F)
      → bounds_param fl key lo hi item ≡ right p
      → Usable p
  bounds_param-Usable key none hi item p h = cc
  bounds_param-Usable key (some lo) none item p h = cc
  bounds_param-Usable key (some lo) (some hi) item p h =
      let (log_scale, _, h1) = >>=_right (log_flag fl key item) (range_param fl key lo hi) h in
      let (less, h2) = unless_right (fl.is_ge lo hi) (min_not_less key) _ h1 in
      let (positive, h3) =
        unless_right (log_scale && fl.le_zero lo) (log_needs_positive key) _ h2 in
      let same : record { choices = []; min_value = lo; max_value = hi; log_scale = log_scale }
          ≡ p =
        cc in
      subst Usable same (inr (less, positive))

  abbrev listed_param : List (Item F) → Param F
  listed_param items = record {
    choices = map (choice_string fl) items;
    min_value = fl.zero_float;
    max_value = fl.zero_float;
    log_scale = false;
  }

  listed : (items : List (Item F)) → 1 ≤ length items → Usable (listed_param items)
  listed items one = inl (omega (arith, length-map (choice_string fl) items))

  parse_param-Usable :
      (key : Bytes) (raw : RawParam F) (p : Param F) → parse_param fl key raw ≡ right p → Usable p
  unfolding parse_param
  parse_param-Usable key (sequence []) p h = cc
  parse_param-Usable key (sequence (item ∷ items)) p h =
      let some_choice = listed (item ∷ items) (omega arith) in
      let same : listed_param (item ∷ items) ≡ p = cc in subst Usable same some_choice
  parse_param-Usable key (object entries) p h = bounds_param-Usable key _ _ _ p h
  parse_param-Usable key scalar p h = cc

  -- The keys are those of the raw mapping, in its order, and each parameter can be sampled.
  abbrev pub ParsedAs : List (Bytes × RawParam F) → List (Bytes × Param F) → Type 0
  ParsedAs [] [] = Unit {0}
  ParsedAs [] (p ∷ ps) = ⊥
  ParsedAs (r ∷ rs) [] = ⊥
  ParsedAs (r ∷ rs) (p ∷ ps) = (r.0 ≡ p.0) × Usable p.1 × ParsedAs rs ps

  onto_params_right :
      (key : Bytes) (p : Param F) (r : Fallible ParamError (List (Bytes × Param F)))
      (ps : List (Bytes × Param F))
      → onto_params fl key p r ≡ right ps
      → (rest : List (Bytes × Param F)) × (r ≡ right rest) × ((key, p) ∷ rest ≡ ps)
  onto_params_right key p (wrong e) ps h = cc
  onto_params_right key p (right rest) ps h = (rest, refl, cc)

  parse_each-ParsedAs :
      (raws : List (Bytes × RawParam F)) (ps : List (Bytes × Param F))
      → parse_each fl raws ≡ right ps
      → ParsedAs raws ps
  parse_each-ParsedAs [] ps h = let e : [] ≡ ps = cc in subst (ParsedAs []) e tt
  parse_each-ParsedAs ((key, raw) ∷ raws) ps h =
      let (p, is_p, h1) = >>=_right (parse_param fl key raw) _ h in
      let (rest, h2, e) = onto_params_right key p (parse_each fl raws) ps h1 in
      subst (ParsedAs ((key, raw) ∷ raws)) e
        (refl, parse_param-Usable key raw p is_p, parse_each-ParsedAs raws rest h2)

  -- If `ParseParams` accepts a mapping, then there is a parameter for each of its keys, which has a
  -- choice or a range whose lower bound is not at or above the upper one, and on a log scale is
  -- above zero; and the mapping is not empty.
  pub parse_params-ParsedAs :
      (raws : List (Bytes × RawParam F)) (ps : List (Bytes × Param F))
      → parse_params fl raws ≡ right ps
      → ParsedAs raws ps × (1 ≤ length raws)
  unfolding parse_params
  parse_params-ParsedAs [] ps h = cc
  parse_params-ParsedAs (raw ∷ raws) ps h = (parse_each-ParsedAs (raw ∷ raws) ps h, omega arith)
