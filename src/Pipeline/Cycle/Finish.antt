-- ===== src/Pipeline/Cycle/Finish.antt =====
-- The depth-first search of `findCycle` (internal/pipeline/compile.go) where it returns false.
use luncur.Common.{
  ℕ, zero, suc, ◌≡◌, refl, sym, ◌∙◌, subst, ◌⊎◌, inl, inr, Bytes, List, [], ◌∷◌, Acc, All, All-mem,
  arith, str_eq_cases, str_eq_iff, update, update_self,
}
use luncur.Pipeline.Graph.{
  Needs, white, gray, black, Colors, Visit, clean, found, no_fuel, visit_deps, blacken, visit,
}
use luncur.Pipeline.Needed.{Dep}

module _ (needs : Needs) where
  clean_injective : {c c' : Colors} → clean c ≡ clean c' → c ≡ c'
  clean_injective e = cc

  -- A finished step has no infinite chain of needs below it.
  abbrev pub BlackAcc : Colors → Type 0
  BlackAcc c = (m : Bytes) → c m ≡ black → Acc (Dep needs) m

  -- What a call that returned false did to the colours.
  pub record Kept (c c' : Colors) : Type 0 where
    pub acc : BlackAcc c → BlackAcc c'
    pub still_black : (m : Bytes) → c m ≡ black → c' m ≡ black
    pub was_gray : (m : Bytes) → c' m ≡ gray → c m ≡ gray
    pub was_white : (m : Bytes) → c' m ≡ white → c m ≡ white

  pub Kept-refl : (c : Colors) → Kept c c
  Kept-refl c = record {
    acc = λ h. h;
    still_black = λ m h. h;
    was_gray = λ m h. h;
    was_white = λ m h. h;
  }

  pub Kept-trans : {c c' c'' : Colors} → Kept c c' → Kept c' c'' → Kept c c''
  Kept-trans j k = record {
    acc = λ h. k.acc (j.acc h);
    still_black = λ m h. k.still_black m (j.still_black m h);
    was_gray = λ m h. j.was_gray m (k.was_gray m h);
    was_white = λ m h. j.was_white m (k.was_white m h);
  }

  abbrev IsBlack : Colors → Bytes → Type 0
  IsBlack c d = c d ≡ black

  -- A visit of a white step that returns false.
  abbrev pub VisitKept : (Bytes → Colors → Visit) → Type 0
  VisitKept v =
      (d : Bytes) (c c' : Colors) → c d ≡ white → v d c ≡ clean c' → Kept c c' × (c' d ≡ black)

  All-still_IsBlack :
      {c c' : Colors} → Kept c c' → (ds : List Bytes) → All (IsBlack c) ds → All (IsBlack c') ds
  All-still_IsBlack k [] h = tt
  All-still_IsBlack k (d ∷ ds) (h, hs) = (k.still_black d h, All-still_IsBlack k ds hs)

  pub visit_deps_nil :
      (v : Bytes → Colors → Visit) (c c' : Colors) → visit_deps v [] c ≡ clean c' → c ≡ c'
  unfolding visit_deps
  visit_deps_nil v c c' e = clean_injective e

  -- How the loop over the needs of a step returned false.
  pub visit_deps_clean :
      (v : Bytes → Colors → Visit) (d : Bytes) (ds : List Bytes) (c c' : Colors)
      → visit_deps v (d ∷ ds) c ≡ clean c'
      → ((c d ≡ black) × (visit_deps v ds c ≡ clean c'))
        ⊎ ((b : Colors) × (c d ≡ white) × (v d c ≡ clean b) × (visit_deps v ds b ≡ clean c'))
  unfolding visit_deps
  visit_deps_clean v d ds c c' e = ground arith

  pub visit_deps-Kept :
      (v : Bytes → Colors → Visit)
      → VisitKept v
      → (ds : List Bytes) (c c' : Colors) → visit_deps v ds c ≡ clean c'
      → Kept c c' × All (IsBlack c') ds
  visit_deps-Kept v hv [] c c' e = (subst (Kept c) (visit_deps_nil v c c' e) (Kept-refl c), tt)
  visit_deps-Kept v hv (d ∷ ds) c c' e = elim (visit_deps_clean v d ds c c' e) [
    | inl (b, e') ↦ let (k, h) = visit_deps-Kept v hv ds c c' e' in (k, (k.still_black d b, h))
    | inr (b, w, e', e'') ↦
        let (j, h') = hv d c b w e' in
        let (k, h) = visit_deps-Kept v hv ds b c' e'' in (Kept-trans j k, (k.still_black d h', h))
  ]

  -- The call that blackens a step: everything that it needs is finished.
  pub blacken_clean :
      (n : Bytes) (r : Visit) (c' : Colors)
      → blacken n r ≡ clean c'
      → (b : Colors) × (r ≡ clean b) × (c' ≡ update b n black)
  blacken_clean n (clean c) c' e = (c, refl, sym (clean_injective e))
  blacken_clean n (found d) c' e = cc
  blacken_clean n no_fuel c' e = cc

  update-Kept :
      (n : Bytes) (c b : Colors)
      → c n ≡ white
      → Kept (update c n gray) b
      → All (IsBlack b) (needs n)
      → Kept c (update b n black)
  update-Kept n c b w k done = record {
    acc = λ h m e. elim (str_eq_cases n m) [
      | inl (t, p) ↦ subst (Acc (Dep needs)) p (
          Acc.intro n
            (λ d mem. k.acc (λ x g. below h x g) d (All-mem (IsBlack b) (needs n) done mem)))
      | inr (t, p) ↦ k.acc (λ x g. below h x g) m (ground (arith, str_eq_iff n m))
    ];
    still_black = λ m h. ground (arith, k.still_black m, str_eq_iff n m);
    was_gray = λ m h. ground (arith, k.was_gray m, str_eq_iff n m);
    was_white = λ m h. ground (arith, k.was_white m, str_eq_iff n m);
  }
    where
      below : BlackAcc c → BlackAcc (update c n gray)
      below h m e = h m (ground (arith, str_eq_iff n m))

  pub visit-suc :
      (fuel : ℕ) (n : Bytes) (c : Colors)
      → visit needs (suc fuel) n c
        ≡ blacken n (visit_deps (visit needs fuel) (needs n) (update c n gray))
  unfolding visit
  visit-suc fuel n c = refl

  pub visit-zero : (n : Bytes) (c : Colors) → visit needs zero n c ≡ no_fuel
  unfolding visit
  visit-zero n c = refl

  pub visit-Kept :
      (fuel : ℕ) (n : Bytes) (c c' : Colors)
      → c n ≡ white
      → visit needs fuel n c ≡ clean c'
      → Kept c c' × (c' n ≡ black)
  visit-Kept zero n c c' w e = absurd (cc (visit-zero n c))
  visit-Kept (suc fuel) n c c' w e =
      let (b, e', p) = blacken_clean n _ c' (sym (visit-suc fuel n c) ∙ e) in
      let (k, done) =
        visit_deps-Kept (visit needs fuel) (visit-Kept fuel) (needs n) (update c n gray) b e' in
      subst (λ r. Kept c r × (r n ≡ black)) (sym p)
        (update-Kept n c b w k done, update_self b n black)
