-- ===== src/Sweep/Launching.antt =====
-- The launches and the end in the decision of a sweep's tick (internal/server/sweeps.go).
use luncur.Common.{
  refl, negsuc, ◌-◌, arith, Bool-cases, ap, suc, ◌+◌, sym, pos, ◌∷◌, inr, ltb_ℤ, subst, ◌⊎◌, ◌∙◌,
  inl, [], ◌≢◌, List-cases, length-map, leb, ◌&&◌, take, ◌↔◌, false, map, Memᴰ, if◌then◌else◌, true,
  Bool, length, Bytes, List, ℤ, ℕ, ◌≡◌,
}
use luncur.Common.Keep.{keep, mem-keep, take_mem, length-take, mem-map}
use luncur.Sweep.Decide.{
  running_of, free_slots, pending_of, is_empty, is_pending, is_running, TrialView, TrialState,
  pending, running, done, failed, pruned,
}

is_pending-true : (s : TrialState) → is_pending s ≡ true → s ≡ pending
is_pending-true pending h = refl
is_pending-true running h = cc
is_pending-true done h = cc
is_pending-true failed h = cc
is_pending-true pruned h = cc

pub is_running-true : (s : TrialState) → is_running s ≡ true → s ≡ running
is_running-true pending h = cc
is_running-true running h = refl
is_running-true done h = cc
is_running-true failed h = cc
is_running-true pruned h = cc

pending_tests :
    (s : TrialState)
    → ((is_pending s ≡ false) × (is_running s ≡ false)) ↔ ((s ≢ pending) × (s ≢ running))
pending_tests pending = (λ (a, b). cc, λ (a, b). absurd (a refl))
pending_tests running = (λ (a, b). cc, λ (a, b). absurd (b refl))
pending_tests done = (λ h. (λ e. cc, λ e. cc), λ h. (refl, refl))
pending_tests failed = (λ h. (λ e. cc, λ e. cc), λ h. (refl, refl))
pending_tests pruned = (λ h. (λ e. cc, λ e. cc), λ h. (refl, refl))

pub slots_of :
    (parallel : ℤ) (n w : ℕ) (ids : List Bytes)
    → length ids ≡ (if leb w (free_slots parallel n) then w else free_slots parallel n)
    → ((ids ≡ []) ⊎ (ltb_ℤ parallel (pos (length ids + n)) ≡ false))
      × ((length ids ≡ w) ⊎ (ltb_ℤ (pos (length ids + n)) parallel ≡ false))
slots_of (pos p) n w ids len = (
  elim (List-cases ids) [
    | inl e ↦ inl e
    | inr (x, rest, e) ↦
        let size : length ids ≡ suc (length rest) = ap length e in inr (ground arith)
  ],
  elim (Bool-cases (leb w (p - n))) [ inl e ↦ inl (ground arith) | inr e ↦ inr (ground arith) ],
)
slots_of (negsuc p) n w ids len = (
  elim (List-cases ids) [
    | inl e ↦ inl e
    | inr (x, rest, e) ↦
        let size : length ids ≡ suc (length rest) = ap length e in absurd (ground arith)
  ],
  elim (Bool-cases (leb w 0)) [ inl e ↦ inl (ground arith) | inr e ↦ inr (ground arith) ],
)

module _ {F : Type 0} where
  -- A trial of the list with this id and that property.
  abbrev pub SomeTrial : List (TrialView F) → Bytes → (TrialView F → Type 0) → Type 0
  SomeTrial trials id P = (tv : TrialView F) × Memᴰ tv trials × (tv.id ≡ id) × P tv

  pub launched-Pending :
      (n : ℕ) (trials : List (TrialView F)) (id : Bytes)
      → Memᴰ id (map (λ tv. tv.id) (take n (pending_of trials)))
      → SomeTrial trials id (λ tv. tv.state ≡ pending)
  launched-Pending n trials id m =
      let (tv, there, e) = (mem-map (λ tv. tv.id) (take n (pending_of trials)) id).0 m in
      let (among, h) =
        (mem-keep (λ tv. is_pending tv.state) trials tv).0
          (take_mem n (pending_of trials) tv there) in
      (tv, among, e, is_pending-true tv.state h)

  pub length-launch :
      (n : ℕ) (trials : List (TrialView F))
      → length (map (λ tv. tv.id) (take n (pending_of trials)))
        ≡ (if leb (length (pending_of trials)) n then length (pending_of trials) else n)
  length-launch n trials =
      length-map (λ tv. tv.id) (take n (pending_of trials)) ∙ length-take n (pending_of trials)

  none_kept :
      (test : TrialView F → Bool) (trials : List (TrialView F))
      → (is_empty (keep test trials) ≡ true)
        ↔ ((tv : TrialView F) → Memᴰ tv trials → test tv ≡ false)
  none_kept test trials = (
    λ h tv m. elim (Bool-cases (test tv)) [
      | inl e ↦ absurd (some_kept h ((mem-keep test trials tv).1 (m, e)))
      | inr e ↦ e
    ],
    λ h. elim (List-cases (keep test trials)) [
      | inl e ↦ ap is_empty e
      | inr (x, rest, e) ↦
          let (there, ok) = (mem-keep test trials x).0 (subst (Memᴰ x) (sym e) (Memᴰ.head refl)) in
          let no = h x there in cc
    ],
  )
    where
      some_kept :
          {tv : TrialView F} → is_empty (keep test trials) ≡ true → Memᴰ tv (keep test trials) → ⊥
      some_kept {tv} h m = elim (List-cases (keep test trials)) [
        | inl e ↦ elim (subst (Memᴰ tv) e m) [ ]
        | inr (x, rest, e) ↦ let no : is_empty (x ∷ rest) ≡ true = sym (ap is_empty e) ∙ h in cc
      ]

  pub all_over :
      (trials : List (TrialView F))
      → (is_empty (pending_of trials) && is_empty (running_of trials) ≡ true)
        ↔ ((tv : TrialView F) → Memᴰ tv trials → (tv.state ≢ pending) × (tv.state ≢ running))
  all_over trials =
      let (p, p') = none_kept (λ tv. is_pending tv.state) trials in
      let (r, r') = none_kept (λ tv. is_running tv.state) trials in
      (
        λ h tv m. (pending_tests tv.state).0 (p (left_true _ _ h) tv m, r (right_true _ _ h) tv m),
        λ h.
            both_true _ _ (p' (λ tv m. ((pending_tests tv.state).1 (h tv m)).0))
              (r' (λ tv m. ((pending_tests tv.state).1 (h tv m)).1)),
      )
    where
      left_true : (a b : Bool) → a && b ≡ true → a ≡ true
      left_true true b h = refl
      left_true false b h = cc

      right_true : (a b : Bool) → a && b ≡ true → b ≡ true
      right_true true b h = h
      right_true false b h = cc

      both_true : (a b : Bool) → a ≡ true → b ≡ true → a && b ≡ true
      both_true a b e e' = rw (e, e') refl
