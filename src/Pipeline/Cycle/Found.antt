-- ===== src/Pipeline/Cycle/Found.antt =====
-- The depth-first search of `findCycle` (internal/pipeline/compile.go) where it returns true.
use luncur.Common.{
  ℕ, zero, suc, ◌≡◌, refl, sym, ◌∙◌, subst, ◌⊎◌, inl, inr, Bytes, List, [], ◌∷◌, Memᴰ, arith,
  str_eq_cases, update, update_ne,
}
use luncur.Pipeline.Graph.{
  Needs, white, gray, black, Colors, Visit, clean, found, no_fuel, visit_deps, blacken, visit,
}
use luncur.Pipeline.Needed.{Needed, direct, Needed-trans}
use luncur.Pipeline.Cycle.Finish.{VisitKept, visit-Kept, visit-suc, visit-zero}

module _ (needs : Needs) where
  -- Every step on the path of calls needs the step that is visited.
  abbrev pub Ancestors : Bytes → Colors → Type 0
  Ancestors n c = (m : Bytes) → c m ≡ gray → Needed needs n m

  -- A visit that returns true names a step that needs itself.
  abbrev pub VisitFound : (Bytes → Colors → Visit) → Type 0
  VisitFound v =
      (d : Bytes) (c : Colors) (s : Bytes)
      → c d ≡ white
      → v d c ≡ found s
      → Ancestors d c
      → Needed needs s s

  visit_deps_found :
      (v : Bytes → Colors → Visit) (d : Bytes) (ds : List Bytes) (c : Colors) (s : Bytes)
      → visit_deps v (d ∷ ds) c ≡ found s
      → ((c d ≡ gray) × (d ≡ s))
        ⊎ ((c d ≡ white) × (v d c ≡ found s))
        ⊎ ((b : Colors) × (c d ≡ white) × (v d c ≡ clean b) × (visit_deps v ds b ≡ found s))
        ⊎ ((c d ≡ black) × (visit_deps v ds c ≡ found s))
  unfolding visit_deps
  visit_deps_found v d ds c s e = ground arith

  visit_deps-found :
      (v : Bytes → Colors → Visit)
      → VisitKept needs v
      → VisitFound v
      → (n : Bytes) (ds : List Bytes) (c : Colors) (s : Bytes)
      → ((d : Bytes) → Memᴰ d ds → Memᴰ d (needs n))
      → ((m : Bytes) → c m ≡ gray → (m ≡ n) ⊎ Needed needs n m)
      → visit_deps v ds c ≡ found s
      → Needed needs s s
  visit_deps-found v hv hf n [] c s sub up e = absurd (unfold visit_deps in cc)
  visit_deps-found v hv hf n (d ∷ ds) c s sub up e = elim (visit_deps_found v d ds c s e) [
    | inl (g, p) ↦ subst (λ x. Needed needs x x) p (closes (up d g))
    | inr (inl (w, e')) ↦ hf d c s w e' (λ m g. above (up m g))
    | inr (inr (inl (b, w, e', e''))) ↦
        visit_deps-found v hv hf n ds b s (λ x m. sub x (Memᴰ.tail m))
          (λ m g. up m ((hv d c b w e').0.was_gray m g)) e''
    | inr (inr (inr (k, e'))) ↦ visit_deps-found v hv hf n ds c s (λ x m. sub x (Memᴰ.tail m)) up e'
  ]
    where
      above : {m : Bytes} → (m ≡ n) ⊎ Needed needs n m → Needed needs d m
      above (inl p) = subst (Needed needs d) (sym p) (direct (sub d (Memᴰ.head refl)))
      above (inr q) = Needed-trans (direct (sub d (Memᴰ.head refl))) q

      closes : (d ≡ n) ⊎ Needed needs n d → Needed needs d d
      closes = above

  blacken_found : (n : Bytes) (r : Visit) (s : Bytes) → blacken n r ≡ found s → r ≡ found s
  blacken_found n (clean c) s e = cc
  blacken_found n (found d) s e = e
  blacken_found n no_fuel s e = cc

  pub visit-found : (fuel : ℕ) → VisitFound (visit needs fuel)
  visit-found zero n c s w e up = absurd (cc (visit-zero needs n c))
  visit-found (suc fuel) n c s w e up =
      visit_deps-found (visit needs fuel) (visit-Kept needs fuel) (visit-found fuel) n (needs n)
        (update c n gray) s (λ d m. m) grays
        (blacken_found n _ s (sym (visit-suc needs fuel n c) ∙ e))
    where
      grays : (m : Bytes) → update c n gray m ≡ gray → (m ≡ n) ⊎ Needed needs n m
      grays m g = elim (str_eq_cases n m) [
        | inl (t, p) ↦ inl (sym p)
        | inr (t, p) ↦ inr (up m (sym (update_ne c n m gray p) ∙ g))
      ]
