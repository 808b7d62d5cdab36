-- ===== src/Pipeline/Cycle/Fuel.antt =====
-- The fuel of `findCycle` (internal/pipeline/compile.go): each nested call turns a white step gray.
use luncur.Common.{
  ℕ, zero, suc, ◌≤◌, ◌≡◌, ◌≢◌, refl, sym, ◌∙◌, ◌⊎◌, inl, inr, Bytes, List, [], ◌∷◌, Memᴰ, arith,
  update,
}
use luncur.Pipeline.Graph.{
  Needs, white, gray, black, Colors, Visit, clean, found, no_fuel, visit_deps, blacken, visit,
}
use luncur.Pipeline.Needed.{Closed}
use luncur.Pipeline.Cycle.Finish.{VisitKept, visit-Kept, visit-suc}
use luncur.Pipeline.Whites.{whites, whites_mono, whites-gray}

module _ (needs : Needs) (names : List Bytes) (closed : Closed names needs) where
  -- A visit of a white step of the list, with as much fuel as there are white names.
  abbrev pub VisitRuns : ℕ → (Bytes → Colors → Visit) → Type 0
  VisitRuns fuel v =
      (d : Bytes) (c : Colors)
      → Memᴰ d names
      → c d ≡ white
      → whites c names ≤ fuel
      → v d c ≢ no_fuel

  visit_deps_no_fuel :
      (v : Bytes → Colors → Visit) (d : Bytes) (ds : List Bytes) (c : Colors)
      → visit_deps v (d ∷ ds) c ≡ no_fuel
      → ((c d ≡ white) × (v d c ≡ no_fuel))
        ⊎ ((b : Colors) × (c d ≡ white) × (v d c ≡ clean b) × (visit_deps v ds b ≡ no_fuel))
        ⊎ ((c d ≡ black) × (visit_deps v ds c ≡ no_fuel))
  unfolding visit_deps
  visit_deps_no_fuel v d ds c e = ground arith

  visit_deps-runs :
      (fuel : ℕ) (v : Bytes → Colors → Visit)
      → VisitKept needs v
      → VisitRuns fuel v
      → (ds : List Bytes) (c : Colors) → ((d : Bytes) → Memᴰ d ds → Memᴰ d names)
      → whites c names ≤ fuel
      → visit_deps v ds c ≢ no_fuel
  visit_deps-runs fuel v hv hr [] c sub le e = absurd (unfold visit_deps in cc)
  visit_deps-runs fuel v hv hr (d ∷ ds) c sub le e = elim (visit_deps_no_fuel v d ds c e) [
    | inl (w, e') ↦ hr d c (sub d (Memᴰ.head refl)) w le e'
    | inr (inl (b, w, e', e'')) ↦
        let fewer = whites_mono c b names ((hv d c b w e').0.was_white) in
        visit_deps-runs fuel v hv hr ds b (λ x m. sub x (Memᴰ.tail m)) (omega arith) e''
    | inr (inr (k, e')) ↦ visit_deps-runs fuel v hv hr ds c (λ x m. sub x (Memᴰ.tail m)) le e'
  ]

  blacken_no_fuel : (n : Bytes) (r : Visit) → blacken n r ≡ no_fuel → r ≡ no_fuel
  blacken_no_fuel n (clean c) e = cc
  blacken_no_fuel n (found d) e = cc
  blacken_no_fuel n no_fuel e = e

  pub visit-runs : (fuel : ℕ) → VisitRuns fuel (visit needs fuel)
  visit-runs zero n c m w le e = absurd (omega (arith, whites-gray c n names m w))
  visit-runs (suc fuel) n c m w le e =
      visit_deps-runs fuel (visit needs fuel) (visit-Kept needs fuel) (visit-runs fuel) (needs n)
        (update c n gray) (λ d mem. closed n d m mem) (omega (arith, whites-gray c n names m w))
        (blacken_no_fuel n _ (sym (visit-suc needs fuel n c) ∙ e))
