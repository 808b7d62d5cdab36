-- ===== src/Pipeline/Dependents.antt =====
-- What the search of `dependsOn` (internal/pipeline/compile.go) finds.
use luncur.Common.{
  ℕ, zero, suc, ◌≡◌, refl, sym, ◌∙◌, subst, ◌≢◌, ◌⊎◌, inl, inr, true, false, List, [], ◌∷◌, Memᴰ,
  Bool-cases, Bytes, str_eq, str_eq_cases,
}
use luncur.Pipeline.Graph.{Needs, visit, no_fuel}
use luncur.Pipeline.Compile.{contains_str}
use luncur.Pipeline.Needed.{Needed}
use luncur.Pipeline.Searching.{Grows, Grows-cons, self_seen}
use luncur.Pipeline.Tick.{Search, depends_deps, depends_on, hit, no_fuel, miss}

not_seen :
    (from n : Bytes) (seen : List Bytes)
    → str_eq from n ≡ false
    → contains_str seen n ≡ false
    → contains_str (from ∷ seen) n ≡ false
unfolding contains_str
not_seen from n seen e h = rw (e, h) refl

module _ (needs : Needs) (target : Bytes) where
  -- Every need of a step that the search newly has been at was looked at, and is not the target.
  abbrev Explored : List Bytes → List Bytes → Type 0
  Explored seen seen' =
      (n d : Bytes)
      → contains_str seen' n ≡ true
      → contains_str seen n ≡ false
      → Memᴰ d (needs n)
      → (d ≢ target) × (contains_str seen' d ≡ true)

  abbrev Passed : List Bytes → List Bytes → List Bytes → Type 0
  Passed deps seen seen' = (d : Bytes) → Memᴰ d deps → (d ≢ target) × (contains_str seen' d ≡ true)

  -- The answer for the needs of a step, and for a step.
  abbrev DepsAnswer : List Bytes → List Bytes → Search → Type 0
  DepsAnswer deps seen hit = (d : Bytes) × Memᴰ d deps × ((d ≡ target) ⊎ Needed needs target d)
  DepsAnswer deps seen no_fuel = Unit {0}
  DepsAnswer deps seen (miss seen') =
      Passed deps seen seen' × Grows seen seen' × Explored seen seen'

  abbrev Answer : Bytes → List Bytes → Search → Type 0
  Answer from seen hit = Needed needs target from
  Answer from seen no_fuel = Unit {0}
  Answer from seen (miss seen') =
      (contains_str seen' from ≡ true) × Grows seen seen' × Explored seen seen'

  Explored-trans : (a b c : List Bytes) → Explored a b → Grows b c → Explored b c → Explored a c
  Explored-trans a b c ab bc ex n d inside outside m = elim (Bool-cases (contains_str b n)) [
    | inl e ↦ let (ne, seen) = ab n d e outside m in (ne, bc d seen)
    | inr e ↦ ex n d inside e m
  ]

  -- What follows the answer for the first of the needs.
  after_dep :
      (dep : Bytes) (deps seen : List Bytes) (s : Search) (rest : List Bytes → Search)
      → dep ≢ target
      → Answer dep seen s
      → ((seen' : List Bytes) → DepsAnswer deps seen' (rest seen'))
      → DepsAnswer
          (dep ∷ deps)
          seen
          (elim s [ hit ↦ hit | no_fuel ↦ no_fuel | miss seen' ↦ rest seen' ])
  after_dep dep deps seen hit rest ne h more = (dep, Memᴰ.head refl, inr h)
  after_dep dep deps seen no_fuel rest ne h more = tt
  after_dep dep deps seen (miss seen') rest ne (here, grows, explored) more =
      joined (rest seen') (more seen')
    where
      joined : (s : Search) → DepsAnswer deps seen' s → DepsAnswer (dep ∷ deps) seen s
      joined hit (d, m, f) = (d, Memᴰ.tail m, f)
      joined no_fuel h = tt
      joined (miss out) (ok, grows', explored') = (
        λ d m. elim m [
          | Memᴰ.head same ↦ (
            (λ e. ne (sym same ∙ e)),
            subst (λ x. contains_str out x ≡ true) (sym same) (grows' dep here),
          )
          | Memᴰ.tail m' ↦ ok d m'
        ],
        (λ n e. grows' n (grows n e)),
        Explored-trans seen seen' out explored grows' explored',
      )

  depends_deps-DepsAnswer :
      (visit : Bytes → List Bytes → Search) (deps seen : List Bytes)
      → ((dep : Bytes) (seen : List Bytes) → Answer dep seen (visit dep seen))
      → DepsAnswer deps seen (depends_deps visit target deps seen)
  unfolding depends_deps
  depends_deps-DepsAnswer visit [] seen each =
      ((λ d m. elim m [ ]), (λ n e. e), λ n d inside outside m. cc)
  depends_deps-DepsAnswer visit (dep ∷ deps) seen each = elim (str_eq_cases dep target) [
    | inl (e, same) ↦ rw e (dep, Memᴰ.head refl, inl same)
    | inr (e, ne) ↦ rw e (
        after_dep dep deps seen (visit dep seen) (depends_deps visit target deps) ne (each dep seen)
          (λ seen'. depends_deps-DepsAnswer visit deps seen' each))
  ]

  -- The answer for a step, from the one for its needs.
  from_deps :
      (from : Bytes) (seen : List Bytes) (s : Search)
      → DepsAnswer (needs from) (from ∷ seen) s
      → Answer from seen s
  from_deps from seen hit (d, m, inl same) = Needed.direct (subst (λ x. Memᴰ x (needs from)) same m)
  from_deps from seen hit (d, m, inr behind) = Needed.further behind m
  from_deps from seen no_fuel h = tt
  from_deps from seen (miss seen') (ok, grows, explored) = (
    grows from (self_seen from seen),
    (λ n e. grows n (Grows-cons from seen n e)),
    λ n d inside outside m. elim (str_eq_cases from n) [
      | inl (e, same) ↦ ok d (subst (λ x. Memᴰ d (needs x)) (sym same) m)
      | inr (e, ne) ↦ explored n d inside (not_seen from n seen e outside) m
    ],
  )

  pub depends_on-Answer :
      (fuel : ℕ) (from : Bytes) (seen : List Bytes)
      → Answer from seen (depends_on needs target fuel from seen)
  unfolding depends_on
  depends_on-Answer zero from seen = tt
  depends_on-Answer (suc fuel) from seen = elim (Bool-cases (contains_str seen from)) [
    | inl e ↦ rw e (e, (λ n h. h), λ n d inside outside m. cc)
    | inr e ↦ rw e (
        from_deps from seen
          (depends_deps (depends_on needs target fuel) target (needs from) (from ∷ seen))
          (depends_deps-DepsAnswer (depends_on needs target fuel) (needs from) (from ∷ seen)
            (λ dep seen'. depends_on-Answer fuel dep seen')))
  ]

  -- Nothing leads from a fully explored set to the target.
  no_way :
      (seen : List Bytes) (n : Bytes)
      → Explored [] seen
      → contains_str seen n ≡ true
      → Needed needs target n
      → ⊥
  unfolding contains_str
  no_way seen n explored here (Needed.direct m) =
      let (ne, _) = explored n target here refl m in ne refl
  no_way seen n explored here (Needed.further behind m) =
      let (_, there) = explored n _ here refl m in no_way seen _ explored there behind

  abbrev pub Exact : Bytes → Search → Type 0
  Exact from hit = Needed needs target from
  Exact from no_fuel = Unit {0}
  Exact from (miss seen') = Needed needs target from → ⊥

  pub Answer-Exact : (from : Bytes) (s : Search) → Answer from [] s → Exact from s
  Answer-Exact from hit h = h
  Answer-Exact from no_fuel h = tt
  Answer-Exact from (miss seen') (here, _, explored) =
      λ behind. no_way seen' from explored here behind
