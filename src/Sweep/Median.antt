-- ===== src/Sweep/Median.antt =====
-- `medianOf` of internal/server/sweeps.go.
use luncur.Common.{
  ◌≢◌, ℕ, zero, suc, ◌+◌, ◌-◌, ◌/◌, ◌%◌, ◌≤◌, ◌<◌, ◌≡◌, refl, sym, ap, ◌∙◌, ◌⊎◌, inl, inr, true,
  false, List, [], ◌∷◌, ◌++◌, arith, ◌==◌, Bool-cases, length, get_or, length-append, Permᴰ,
}
use luncur.Sweep.Decide.{Metric, sorts_before, insert_value, sort_values, middle, median_of}

module _ {F : Type 0} where
  perm_same : (vs : List F) → Permᴰ vs vs
  perm_same [] = Permᴰ.nil
  perm_same (v ∷ vs) = Permᴰ.cons refl (perm_same vs)

  length-Permᴰ : {vs ws : List F} → Permᴰ vs ws → length vs ≡ length ws
  length-Permᴰ Permᴰ.nil = refl
  length-Permᴰ (Permᴰ.cons e p) = ap suc (length-Permᴰ p)
  length-Permᴰ (Permᴰ.swap e e') = refl
  length-Permᴰ (Permᴰ.trans p q) = length-Permᴰ p ∙ length-Permᴰ q

  -- The value at an index splits the list.
  split_at :
      (vs : List F) (k : ℕ) (d : F)
      → k < length vs
      → (below : List F) × (above : List F) × (vs ≡ below ++ get_or vs k d ∷ above)
        × (length below ≡ k)
  split_at [] k d h = absurd (ground arith)
  split_at (v ∷ vs) zero d h = ([], vs, refl, refl)
  split_at (v ∷ vs) (suc k) d h =
      let (below, above, e, n) = split_at vs k d (omega arith) in
      (v ∷ below, above, ap (λ t. v ∷ t) e, ap suc n)

  split_two :
      (vs : List F) (k : ℕ) (d : F)
      → suc k < length vs
      → (below : List F) × (above : List F) × (vs
          ≡ below ++ get_or vs k d ∷ get_or vs (suc k) d ∷ above)
        × (length below ≡ k)
  split_two [] k d h = absurd (ground arith)
  split_two (v ∷ []) k d h = absurd (omega arith)
  split_two (v ∷ w ∷ vs) zero d h = ([], vs, refl, refl)
  split_two (v ∷ w ∷ vs) (suc k) d h =
      let (below, above, e, n) = split_two (w ∷ vs) k d (omega arith) in
      (v ∷ below, above, ap (λ t. v ∷ t) e, ap suc n)

  module _ (mt : Metric F) where
    -- What the comparisons of float64 promise: `<` is asymmetric, and false on a NaN.
    pub record IsFloatOrder : Type 0 where
      pub asymmetric : (a b : F) → mt.is_less a b ≡ true → mt.is_less b a ≡ false
      pub nan_left : (a b : F) → mt.is_nan a ≡ true → mt.is_less a b ≡ false
      pub nan_right : (a b : F) → mt.is_nan b ≡ true → mt.is_less a b ≡ false

    -- No value comes before the one in front of it.
    abbrev pub Sorted : List F → Type 0
    Sorted [] = Unit {0}
    Sorted (v ∷ []) = Unit {0}
    Sorted (v ∷ w ∷ vs) = (sorts_before mt w v ≡ false) × Sorted (w ∷ vs)

    -- The middle value, or the average of the two in the middle.
    abbrev pub IsMiddle : List F → F → Type 0
    IsMiddle vs m =
        ((below : List F) × (above : List F) × (vs ≡ below ++ m ∷ above)
          × (length below ≡ length above))
        ⊎ ((below : List F) × (above : List F) × (a : F) × (b : F) × (vs ≡ below ++ a ∷ b ∷ above)
            × (length below ≡ length above)
            × (m ≡ mt.average a b))

    -- The middle of the values in order.
    abbrev pub IsMedian : List F → F → Type 0
    IsMedian vs m = (ordered : List F) × Permᴰ ordered vs × Sorted ordered × IsMiddle ordered m

    sorts_before-asymmetric :
        IsFloatOrder → (a b : F) → sorts_before mt a b ≡ true → sorts_before mt b a ≡ false
    sorts_before-asymmetric order a b h =
        let same = order.asymmetric a b in
        let left = order.nan_left b a in
        let right = order.nan_right b a in let right' = order.nan_right a b in ground arith

    -- The first of an insertion is the value or the list's own.
    insert_value-Sorted-behind :
        IsFloatOrder
        → (w v : F) (ws : List F) → sorts_before mt w v ≡ true
        → Sorted (w ∷ ws)
        → Sorted (insert_value mt v ws)
        → Sorted (w ∷ insert_value mt v ws)
    insert_value-Sorted-behind order w v [] e h t = (sorts_before-asymmetric order w v e, t)
    insert_value-Sorted-behind order w v (x ∷ ws) e (hx, hs) t =
        elim (Bool-cases (sorts_before mt x v)) [
          | inl f ↦ rw f (hx, rw f at t)
          | inr f ↦ rw f (sorts_before-asymmetric order w v e, rw f at t)
        ]

    Sorted-tail : (w : F) (ws : List F) → Sorted (w ∷ ws) → Sorted ws
    Sorted-tail w [] h = tt
    Sorted-tail w (x ∷ ws) (_, h) = h

    insert_value-Sorted :
        IsFloatOrder → (v : F) (ws : List F) → Sorted ws → Sorted (insert_value mt v ws)
    insert_value-Sorted order v [] h = tt
    insert_value-Sorted order v (w ∷ ws) h = elim (Bool-cases (sorts_before mt w v)) [
      | inl e ↦ rw e (
          insert_value-Sorted-behind order w v ws e h
            (insert_value-Sorted order v ws (Sorted-tail w ws h)))
      | inr e ↦ rw e (e, h)
    ]

    insert_value-Permᴰ : (v : F) (ws : List F) → Permᴰ (insert_value mt v ws) (v ∷ ws)
    insert_value-Permᴰ v [] = perm_same (v ∷ [])
    insert_value-Permᴰ v (w ∷ ws) = elim (Bool-cases (sorts_before mt w v)) [
      | inl e ↦
          rw e (Permᴰ.trans (Permᴰ.cons refl (insert_value-Permᴰ v ws)) (Permᴰ.swap refl refl))
      | inr e ↦ rw e (perm_same (v ∷ w ∷ ws))
    ]

    sort_values-Permᴰ : (vs : List F) → Permᴰ (sort_values mt vs) vs
    sort_values-Permᴰ [] = Permᴰ.nil
    sort_values-Permᴰ (v ∷ vs) =
        Permᴰ.trans (insert_value-Permᴰ v (sort_values mt vs))
          (Permᴰ.cons refl (sort_values-Permᴰ vs))

    sort_values-Sorted : IsFloatOrder → (vs : List F) → Sorted (sort_values mt vs)
    sort_values-Sorted order [] = tt
    sort_values-Sorted order (v ∷ vs) =
        insert_value-Sorted order v (sort_values mt vs) (sort_values-Sorted order vs)

    middle-IsMiddle : (n : ℕ) (vs : List F) → length vs ≡ n → 1 ≤ n → IsMiddle vs (middle mt n vs)
    middle-IsMiddle n vs len some_ = elim (Bool-cases (n % 2 == 1)) [
      | inl odd ↦
          let (below, above, e, k) = split_at vs (n / 2) mt.zero_metric (ground arith) in
          let total : length vs ≡ length below + length (get_or vs (n / 2) mt.zero_metric ∷ above) =
            ap length e ∙ length-append below _ in
          let half : n % 2 ≡ 1 = ground arith in rw odd (inl (below, above, e, omega arith))
      | inr even ↦
          let half : n % 2 ≢ 1 = λ p. ground arith in
          let (below, above, e, k) = split_two vs (n / 2 - 1) mt.zero_metric (omega arith) in
          let next : suc (n / 2 - 1) ≡ n / 2 = omega arith in
          let total : length vs
              ≡ length below
                + length (
                    get_or vs (n / 2 - 1) mt.zero_metric
                    ∷ get_or vs (suc (n / 2 - 1)) mt.zero_metric
                    ∷ above) =
            ap length e ∙ length-append below _ in
          rw even (
            inr (
              below,
              above,
              get_or vs (n / 2 - 1) mt.zero_metric,
              get_or vs (suc (n / 2 - 1)) mt.zero_metric,
              e,
              omega arith,
              ap
                  (λ i.
                    mt.average (get_or vs (n / 2 - 1) mt.zero_metric) (get_or vs i mt.zero_metric))
                  (sym next),
            ))
    ]

    pub median_of-IsMedian :
        IsFloatOrder → (vs : List F) → 1 ≤ length vs → IsMedian vs (median_of mt vs)
    unfolding median_of
    median_of-IsMedian order vs h = (
      sort_values mt vs,
      sort_values-Permᴰ vs,
      sort_values-Sorted order vs,
      middle-IsMiddle (length vs) (sort_values mt vs) (length-Permᴰ (sort_values-Permᴰ vs)) h,
    )
