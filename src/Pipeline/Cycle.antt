-- ===== src/Pipeline/Cycle.antt =====
-- `findCycle` of internal/pipeline/compile.go.
mod Finish
mod Found
mod Fuel
use luncur.Common.{
  ℕ, zero, suc, ◌≤◌, ◌<◌, ◌≡◌, ◌≢◌, refl, sym, ◌∙◌, subst, ◌⊎◌, inl, inr, Bytes, List, [], ◌∷◌,
  Memᴰ, Acc, All, All-mem, arith, length,
}
use mathlib.Core.List.Memᴰ
use luncur.Pipeline.Graph.{
  Needs, Color, white, gray, black, Colors, Visit, clean, found, no_fuel, visit, visit_all,
  all_white, find_cycle,
}
use luncur.Pipeline.Needed.{Needed, Dep, Closed}
use luncur.Pipeline.Cycle.Finish.{Kept, Kept-refl, Kept-trans, visit-Kept}
use luncur.Pipeline.Cycle.Found.{visit-found}
use luncur.Pipeline.Cycle.Fuel.{visit-runs}
use luncur.Pipeline.Whites.{whites, whites_mono, whites_le}

module _ (needs : Needs) (fuel : ℕ) where
  visit_all_clean :
      (n : Bytes) (ns : List Bytes) (c c' : Colors)
      → visit_all needs fuel (n ∷ ns) c ≡ clean c'
      → ((b : Colors) × (c n ≡ white)
          × (visit needs fuel n c ≡ clean b)
          × (visit_all needs fuel ns b ≡ clean c'))
        ⊎ ((c n ≢ white) × (visit_all needs fuel ns c ≡ clean c'))
  unfolding visit_all
  visit_all_clean n ns c c' e = ground arith

  visit_all_found :
      (n : Bytes) (ns : List Bytes) (c : Colors) (s : Bytes)
      → visit_all needs fuel (n ∷ ns) c ≡ found s
      → ((c n ≡ white) × (visit needs fuel n c ≡ found s))
        ⊎ ((b : Colors) × (c n ≡ white)
            × (visit needs fuel n c ≡ clean b)
            × (visit_all needs fuel ns b ≡ found s))
        ⊎ (visit_all needs fuel ns c ≡ found s)
  unfolding visit_all
  visit_all_found n ns c s e = ground arith

  visit_all_no_fuel :
      (n : Bytes) (ns : List Bytes) (c : Colors)
      → visit_all needs fuel (n ∷ ns) c ≡ no_fuel
      → ((c n ≡ white) × (visit needs fuel n c ≡ no_fuel))
        ⊎ ((b : Colors) × (c n ≡ white)
            × (visit needs fuel n c ≡ clean b)
            × (visit_all needs fuel ns b ≡ no_fuel))
        ⊎ (visit_all needs fuel ns c ≡ no_fuel)
  unfolding visit_all
  visit_all_no_fuel n ns c e = ground arith

  -- Between two visits no step is gray.
  abbrev NoGray : Colors → Type 0
  NoGray c = (m : Bytes) → c m ≢ gray

  Color-black : (k : Color) → k ≢ gray → k ≢ white → k ≡ black
  Color-black white g w = absurd (w refl)
  Color-black gray g w = absurd (g refl)
  Color-black black g w = refl

  visit_all-Kept :
      (ns : List Bytes) (c c' : Colors)
      → NoGray c
      → visit_all needs fuel ns c ≡ clean c'
      → Kept needs c c' × ((n : Bytes) → Memᴰ n ns → c' n ≡ black)
  visit_all-Kept [] c c' g e =
      let p : c ≡ c' = unfold visit_all in cc in
      (subst (Kept needs c) p (Kept-refl needs c), λ n m. elim m [ ])
  visit_all-Kept (n ∷ ns) c c' g e = elim (visit_all_clean n ns c c' e) [
    | inl (b, w, e', e'') ↦
        let (j, black_n) = visit-Kept needs fuel n c b w e' in
        let (k, h) = visit_all-Kept ns b c' (λ m q. g m (j.was_gray m q)) e'' in
        (Kept-trans needs j k, all_black (k.still_black n black_n) h)
    | inr (w, e') ↦
        let (k, h) = visit_all-Kept ns c c' g e' in
        (k, all_black (k.still_black n (Color-black (c n) (g n) w)) h)
  ]
    where
      all_black :
          c' n ≡ black
          → ((x : Bytes) → Memᴰ x ns → c' x ≡ black)
          → (x : Bytes) → Memᴰ x (n ∷ ns)
          → c' x ≡ black
      all_black e h x (Memᴰ.head p) = subst (λ y. c' y ≡ black) (sym p) e
      all_black e h x (Memᴰ.tail m) = h x m

  visit_all-found :
      (ns : List Bytes) (c : Colors) (s : Bytes)
      → NoGray c
      → visit_all needs fuel ns c ≡ found s
      → Needed needs s s
  visit_all-found [] c s g e = absurd (unfold visit_all in cc)
  visit_all-found (n ∷ ns) c s g e = elim (visit_all_found n ns c s e) [
    | inl (w, e') ↦ visit-found needs fuel n c s w e' (λ m q. absurd (g m q))
    | inr (inl (b, w, e', e'')) ↦
        visit_all-found ns b s (λ m q. g m ((visit-Kept needs fuel n c b w e').0.was_gray m q)) e''
    | inr (inr e') ↦ visit_all-found ns c s g e'
  ]

module _ (needs : Needs) (names : List Bytes) (closed : Closed names needs) where
  visit_all-runs :
      (fuel : ℕ) (ns : List Bytes) (c : Colors)
      → ((n : Bytes) → Memᴰ n ns → Memᴰ n names)
      → whites c names ≤ fuel
      → visit_all needs fuel ns c ≢ no_fuel
  visit_all-runs fuel [] c sub le e = absurd (unfold visit_all in cc)
  visit_all-runs fuel (n ∷ ns) c sub le e = elim (visit_all_no_fuel needs fuel n ns c e) [
    | inl (w, e') ↦ visit-runs needs names closed fuel n c (sub n (Memᴰ.head refl)) w le e'
    | inr (inl (b, w, e', e'')) ↦
        let kept = (visit-Kept needs fuel n c b w e').0 in
        let fewer = whites_mono c b names kept.was_white in
        visit_all-runs fuel ns b (λ x m. sub x (Memᴰ.tail m)) (omega arith) e''
    | inr (inr e') ↦ visit_all-runs fuel ns c (λ x m. sub x (Memᴰ.tail m)) le e'
  ]

-- What `findCycle` reports, and what its silence means.
abbrev pub Reported : List Bytes → Needs → Visit → Type 0
Reported names needs (clean c) = (n : Bytes) → Memᴰ n names → Acc (Dep needs) n
Reported names needs (found s) = Needed needs s s
Reported names needs no_fuel = ⊥

-- If no step needs a step outside the list, then the search ends, a step that it names needs itself
-- (directly or through others), and if it names none then no step has an infinite chain of needs.
pub find_cycle-Reported :
    (names : List Bytes) (needs : Needs)
    → Closed names needs
    → Reported names needs (find_cycle names needs)
unfolding find_cycle
find_cycle-Reported names needs closed =
    by_result (visit_all needs (suc (length names)) names all_white) refl
  where
    all_black : (n : Bytes) → all_white n ≢ gray
    all_black n e = cc

    by_result :
        (r : Visit)
        → visit_all needs (suc (length names)) names all_white ≡ r
        → Reported names needs r
    by_result (clean c) e =
        let (kept, done) = visit_all-Kept needs _ names all_white c all_black e in
        λ n m. kept.acc (λ x q. cc) n (done n m)
    by_result (found s) e = visit_all-found needs _ names all_white s all_black e
    by_result no_fuel e =
        visit_all-runs needs names closed _ names all_white (λ n m. m)
          (omega (arith, whites_le all_white names)) e
