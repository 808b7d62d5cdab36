-- ===== src/Sweep/Lowest.antt =====
-- `minDoneStep` in `decideSweep` (internal/server/sweeps.go).
use luncur.Common.{
  if◌then◌else◌, ◌≡◌, refl, sym, ap, ◌∙◌, subst, ◌⊎◌, inl, inr, true, false, none, some, List, [],
  ◌∷◌, Memᴰ, arith, Bool-cases, Option-cases, ℤ, pos, negsuc, ltb_ℤ,
}
use luncur.Common.Keep.{mem-keep}
use luncur.Sweep.Finished.{counts-Counts, Counts-counts, counts, Counts}
use luncur.Sweep.Decide.{TrialView, done_of, lower_step, min_done_step}

below_trans : (s l r : ℤ) → ltb_ℤ s l ≡ true → ltb_ℤ s r ≡ false → ltb_ℤ l r ≡ false
below_trans (pos s) (pos l) (pos r) h g = ground arith
below_trans (pos s) (pos l) (negsuc r) h g = ground arith
below_trans (pos s) (negsuc l) (pos r) h g = ground arith
below_trans (pos s) (negsuc l) (negsuc r) h g = ground arith
below_trans (negsuc s) (pos l) (pos r) h g = ground arith
below_trans (negsuc s) (pos l) (negsuc r) h g = ground arith
below_trans (negsuc s) (negsuc l) (pos r) h g = ground arith
below_trans (negsuc s) (negsuc l) (negsuc r) h g = ground arith

not_below : (s l r : ℤ) → ltb_ℤ s l ≡ false → ltb_ℤ l r ≡ false → ltb_ℤ s r ≡ false
not_below (pos s) (pos l) (pos r) h g = ground arith
not_below (pos s) (pos l) (negsuc r) h g = ground arith
not_below (pos s) (negsuc l) (pos r) h g = ground arith
not_below (pos s) (negsuc l) (negsuc r) h g = ground arith
not_below (negsuc s) (pos l) (pos r) h g = ground arith
not_below (negsuc s) (pos l) (negsuc r) h g = ground arith
not_below (negsuc s) (negsuc l) (pos r) h g = ground arith
not_below (negsuc s) (negsuc l) (negsuc r) h g = ground arith

below_itself : (s : ℤ) → ltb_ℤ s s ≡ false
below_itself (pos s) = ground arith
below_itself (negsuc s) = ground arith

module _ {F : Type 0} where
  -- The lowest step that a trial that counts recorded, 0 where none did.
  abbrev pub IsLowest : List (TrialView F) → ℤ → Type 0
  IsLowest trials least =
      (((tv : TrialView F) × Memᴰ tv trials × Counts tv × (tv.metric_step ≡ some least))
        × ((tv : TrialView F) (step : ℤ)
            → Memᴰ tv trials
            → Counts tv
            → tv.metric_step ≡ some step
            → ltb_ℤ step least ≡ false))
      ⊎ (((tv : TrialView F) → Memᴰ tv trials → Counts tv → tv.metric_step ≡ none)
          × (least ≡ pos 0))

  abbrev Recorded : List (TrialView F) → ℤ → Type 0
  Recorded tvs step = (tv : TrialView F) × Memᴰ tv tvs × (tv.metric_step ≡ some step)

  abbrev NoneBelow : List (TrialView F) → ℤ → Type 0
  NoneBelow tvs least =
      (tv : TrialView F) (step : ℤ)
      → Memᴰ tv tvs
      → tv.metric_step ≡ some step
      → ltb_ℤ step least ≡ false

  abbrev NoSteps : List (TrialView F) → Type 0
  NoSteps tvs = (tv : TrialView F) → Memᴰ tv tvs → tv.metric_step ≡ none

  Recorded-later :
      (tv : TrialView F) (tvs : List (TrialView F)) (r : ℤ) → Recorded tvs r → Recorded (tv ∷ tvs) r
  Recorded-later tv tvs r (x, m, e) = (x, Memᴰ.tail m, e)

  NoneBelow-cons :
      (tv : TrialView F) (tvs : List (TrialView F)) (r : ℤ)
      → ((step : ℤ) → tv.metric_step ≡ some step → ltb_ℤ step r ≡ false)
      → NoneBelow tvs r
      → NoneBelow (tv ∷ tvs) r
  NoneBelow-cons tv tvs r h hs x step (Memᴰ.head same) e =
      h step (subst (λ y. y.metric_step ≡ some step) same e)
  NoneBelow-cons tv tvs r h hs x step (Memᴰ.tail m) e = hs x step m e

  -- The loop once a step has been seen.
  LowFrom : List (TrialView F) → ℤ → ℤ → Type 0
  LowFrom tvs l r = ((r ≡ l) ⊎ Recorded tvs r) × (ltb_ℤ l r ≡ false) × NoneBelow tvs r

  min_done_step-seen :
      (tvs : List (TrialView F)) (l : ℤ) → LowFrom tvs l (min_done_step tvs (false, l)).1
  unfolding min_done_step LowFrom
  min_done_step-seen [] l = (inl refl, below_itself l, λ tv step m. elim m [ ])
  min_done_step-seen (tv ∷ tvs) l =
      let stays = (min_done_step tvs (false, l)).1 in
      let kept : LowFrom tvs l stays = min_done_step-seen tvs l in
      let (from, le, hs) = kept in
      let from' : (stays ≡ l) ⊎ Recorded (tv ∷ tvs) stays = elim from [
        | inl p ↦ inl p
        | inr x ↦ inr (Recorded-later tv tvs stays x)
      ] in
      elim (Option-cases tv.metric_step) [
        | inl e ↦
            subst (LowFrom (tv ∷ tvs) l)
              (sym (ap (λ o. (min_done_step tvs (lower_step o (false, l))).1) e))
              (from', le, NoneBelow-cons tv tvs stays (λ step f. cc) hs)
        | inr (s, e) ↦ elim (Bool-cases (ltb_ℤ s l)) [
          | inl t ↦
              let r = (min_done_step tvs (false, s)).1 in
              let lower : LowFrom tvs s r = min_done_step-seen tvs s in
              let (from_s, le_s, hs_s) = lower in
              subst (LowFrom (tv ∷ tvs) l)
                (sym (
                  ap (λ o. (min_done_step tvs (lower_step o (false, l))).1) e
                  ∙ ap (λ b. (min_done_step tvs (if b then (false, s) else (false, l))).1) t))
                (
                  elim from_s [
                    | inl p ↦ inr (tv, Memᴰ.head refl, e ∙ ap some (sym p))
                    | inr x ↦ inr (Recorded-later tv tvs r x)
                  ],
                  below_trans s l r t le_s,
                  NoneBelow-cons tv tvs r
                      (λ step f. let q : s ≡ step = cc in subst (λ y. ltb_ℤ y r ≡ false) q le_s)
                      hs_s,
                )
          | inr t ↦
              subst (LowFrom (tv ∷ tvs) l)
                (sym (
                  ap (λ o. (min_done_step tvs (lower_step o (false, l))).1) e
                  ∙ ap (λ b. (min_done_step tvs (if b then (false, s) else (false, l))).1) t))
                (
                  from',
                  le,
                  NoneBelow-cons tv tvs stays
                      (λ step f.
                        let q : s ≡ step = cc in
                        subst (λ y. ltb_ℤ y stays ≡ false) q (not_below s l stays t le))
                      hs,
                )
        ]
      ]

  -- The loop before any step has been seen.
  LowFirst : List (TrialView F) → ℤ → ℤ → Type 0
  LowFirst tvs z r = (NoSteps tvs × (r ≡ z)) ⊎ (Recorded tvs r × NoneBelow tvs r)

  min_done_step-first :
      (tvs : List (TrialView F)) (z : ℤ) → LowFirst tvs z (min_done_step tvs (true, z)).1
  unfolding min_done_step LowFirst LowFrom
  min_done_step-first [] z = inl (λ tv m. elim m [ ], refl)
  min_done_step-first (tv ∷ tvs) z = elim (Option-cases tv.metric_step) [
    | inl e ↦
        let r = (min_done_step tvs (true, z)).1 in
        let rest : LowFirst tvs z r = min_done_step-first tvs z in
        subst (LowFirst (tv ∷ tvs) z)
          (sym (ap (λ o. (min_done_step tvs (lower_step o (true, z))).1) e))
          (elim rest [
            | inl (nothing, p) ↦ inl (
              λ x m. elim m [
                | Memᴰ.head same ↦ subst (λ y. y.metric_step ≡ none) (sym same) e
                | Memᴰ.tail m' ↦ nothing x m'
              ],
              p,
            )
            | inr (x, hs) ↦
                inr (Recorded-later tv tvs r x, NoneBelow-cons tv tvs r (λ step f. cc) hs)
          ])
    | inr (s, e) ↦
        let r = (min_done_step tvs (false, s)).1 in
        let seen : LowFrom tvs s r = min_done_step-seen tvs s in
        let (from, le, hs) = seen in
        subst (LowFirst (tv ∷ tvs) z)
          (sym (ap (λ o. (min_done_step tvs (lower_step o (true, z))).1) e))
          (inr (
            elim from [
              | inl p ↦ (tv, Memᴰ.head refl, e ∙ ap some (sym p))
              | inr x ↦ Recorded-later tv tvs r x
            ],
            NoneBelow-cons tv tvs r
                (λ step f. let q : s ≡ step = cc in subst (λ y. ltb_ℤ y r ≡ false) q le) hs,
          ))
  ]

  pub min_done_step-IsLowest :
      (trials : List (TrialView F))
      → IsLowest trials (min_done_step (done_of trials) (true, pos 0)).1
  unfolding LowFirst
  min_done_step-IsLowest trials =
      let among : (tv : TrialView F) → Memᴰ tv trials → Counts tv → Memᴰ tv (done_of trials) =
        λ tv m c. (mem-keep counts trials tv).1 (m, Counts-counts tv c) in
      let least = (min_done_step (done_of trials) (true, pos 0)).1 in
      let lowest : LowFirst (done_of trials) (pos 0) least =
        min_done_step-first (done_of trials) (pos 0) in
      elim lowest [
        | inl (nothing, p) ↦ inr (λ tv m c. nothing tv (among tv m c), p)
        | inr ((tv, m, e), hs) ↦
            let (there, h) = (mem-keep counts trials tv).0 m in
            inl ((tv, there, counts-Counts tv h, e), λ x step mx c f. hs x step (among x mx c) f)
      ]
