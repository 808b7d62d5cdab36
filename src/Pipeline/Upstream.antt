-- ===== src/Pipeline/Upstream.antt =====
-- `transitiveNeeds` of internal/pipeline/compile.go.
use luncur.Common.{
  ℕ, zero, suc, ◌≤◌, ◌<◌, ◌≡◌, ◌≢◌, ◌↔◌, refl, sym, ◌∙◌, subst, ◌⊎◌, inl, inr, ⊎_elim, Bool, true,
  false, Bytes, List, [], ◌∷◌, Memᴰ, Option, none, some, arith, str_eq_cases, str_eq_iff, update,
  update_self, update_ne, length,
}
use luncur.Pipeline.Graph.{Needs, Colors, white, black, walk_deps, walk, transitive_needs}
use luncur.Pipeline.Whites.{whites, whites_mono, whites_drop, whites_le}
use luncur.Pipeline.Needed.{Needed, direct, further, Closed, Needed-trans}

abbrev Seen : Type 0
Seen = Bytes → Bool

abbrev Walk : Type 0
Walk = Bytes → Seen → Option Seen

module _ (needs : Needs) where
  abbrev AllSeen : Seen → List Bytes → Type 0
  AllSeen s ds = (d : Bytes) → Memᴰ d ds → s d ≡ true

  -- What a call leaves in the set: what was there, the needs of what it added, and nothing that
  -- the visited step does not need.
  record Grown (n : Bytes) (ds : List Bytes) (s s' : Seen) : Type 0 where
    still : (x : Bytes) → s x ≡ true → s' x ≡ true
    added : (x : Bytes) → s' x ≡ true → (s x ≡ true) ⊎ Needed needs x n
    below : (x : Bytes) → s' x ≡ true → (s x ≡ true) ⊎ AllSeen s' (needs x)
    covers : AllSeen s' ds

  abbrev WalkGrown : Walk → Type 0
  WalkGrown w = (d : Bytes) (s s' : Seen) → w d s ≡ some s' → Grown d (needs d) s s'

  walk_deps-some :
      (w : Walk) (d : Bytes) (ds : List Bytes) (s s' : Seen)
      → walk_deps w (d ∷ ds) s ≡ some s'
      → ((s d ≡ true) × (walk_deps w ds s ≡ some s'))
        ⊎ ((b : Seen) × (s d ≡ false)
            × (w d (update s d true) ≡ some b)
            × (walk_deps w ds b ≡ some s'))
  unfolding walk_deps
  walk_deps-some w d ds s s' e = ground arith

  AllSeen-cons :
      (s : Seen) (d : Bytes) (ds : List Bytes) → s d ≡ true → AllSeen s ds → AllSeen s (d ∷ ds)
  AllSeen-cons s d ds e h x (Memᴰ.head p) = subst (λ y. s y ≡ true) (sym p) e
  AllSeen-cons s d ds e h x (Memᴰ.tail m) = h x m

  was_seen : (s : Seen) (d x : Bytes) → update s d true x ≡ true → (s x ≡ true) ⊎ (d ≡ x)
  was_seen s d x e = elim (str_eq_cases d x) [
    | inl (t, p) ↦ inr p
    | inr (t, p) ↦ inl (sym (update_ne s d x true p) ∙ e)
  ]

  skip-Grown :
      (n d : Bytes) (ds : List Bytes) (s s' : Seen)
      → s d ≡ true
      → Grown n ds s s'
      → Grown n (d ∷ ds) s s'
  skip-Grown n d ds s s' h g = record {
    still = g.still;
    added = g.added;
    below = g.below;
    covers = AllSeen-cons s' d ds (g.still d h) g.covers;
  }

  step-Grown :
      (n d : Bytes) (ds : List Bytes) (s b s' : Seen)
      → Memᴰ d (needs n)
      → Grown d (needs d) (update s d true) b
      → Grown n ds b s'
      → Grown n (d ∷ ds) s s'
  step-Grown n d ds s b s' m g h = record {
    still = λ x e. h.still x (g.still x (ground (arith, str_eq_iff d x)));
    added = λ x e.
        ⊎_elim
          (λ old.
            ⊎_elim (λ q. new x (was_seen s d x q)) (λ q. inr (Needed-trans q (direct m)))
              (g.added x old))
          inr (h.added x e);
    below = λ x e.
        ⊎_elim
          (λ old.
            ⊎_elim (λ q. new_below x (was_seen s d x q)) (λ q. inr (λ y my. h.still y (q y my)))
              (g.below x old))
          inr (h.below x e);
    covers = AllSeen-cons s' d ds (h.still d (g.still d (update_self s d true))) h.covers;
  }
    where
      new : (x : Bytes) → (s x ≡ true) ⊎ (d ≡ x) → (s x ≡ true) ⊎ Needed needs x n
      new x (inl e) = inl e
      new x (inr p) = inr (subst (λ y. Needed needs y n) p (direct m))

      new_below : (x : Bytes) → (s x ≡ true) ⊎ (d ≡ x) → (s x ≡ true) ⊎ AllSeen s' (needs x)
      new_below x (inl e) = inl e
      new_below x (inr p) =
          inr (subst (λ y. AllSeen s' (needs y)) p (λ y my. h.still y (g.covers y my)))

  walk_deps-Grown :
      (w : Walk)
      → WalkGrown w
      → (n : Bytes) (ds : List Bytes) (s s' : Seen) → ((d : Bytes) → Memᴰ d ds → Memᴰ d (needs n))
      → walk_deps w ds s ≡ some s'
      → Grown n ds s s'
  walk_deps-Grown w hw n [] s s' sub e =
      let p : s ≡ s' = unfold walk_deps in cc in
      subst (Grown n [] s) p (record {
        still = λ x h. h;
        added = λ x h. inl h;
        below = λ x h. inl h;
        covers = λ d m. elim m [ ];
      })
  walk_deps-Grown w hw n (d ∷ ds) s s' sub e = elim (walk_deps-some w d ds s s' e) [
    | inl (h, e') ↦
        skip-Grown n d ds s s' h (walk_deps-Grown w hw n ds s s' (λ x m. sub x (Memᴰ.tail m)) e')
    | inr (b, h, e', e'') ↦
        step-Grown n d ds s b s' (sub d (Memᴰ.head refl)) (hw d (update s d true) b e')
          (walk_deps-Grown w hw n ds b s' (λ x m. sub x (Memᴰ.tail m)) e'')
  ]

  walk-Grown : (fuel : ℕ) → WalkGrown (walk needs fuel)
  walk-Grown zero n s s' e = absurd (unfold walk in cc)
  walk-Grown (suc fuel) n s s' e =
      walk_deps-Grown (walk needs fuel) (walk-Grown fuel) n (needs n) s s' (λ d m. m)
        (unfold walk in e)

  -- A set that holds the needs of each of its members holds all that they need.
  closed-Needed :
      (s : Seen)
      → ((x : Bytes) → s x ≡ true → AllSeen s (needs x))
      → (a n : Bytes) → AllSeen s (needs n)
      → Needed needs a n
      → s a ≡ true
  closed-Needed s h a n c (direct m) = c a m
  closed-Needed s h a n c (further {m = k} q m) = closed-Needed s h a k (h k (c k m)) q

  walk_deps-none :
      (w : Walk) (d : Bytes) (ds : List Bytes) (s : Seen)
      → walk_deps w (d ∷ ds) s ≡ none
      → ((s d ≡ true) × (walk_deps w ds s ≡ none))
        ⊎ ((s d ≡ false) × (w d (update s d true) ≡ none))
        ⊎ ((b : Seen) × (s d ≡ false)
            × (w d (update s d true) ≡ some b)
            × (walk_deps w ds b ≡ none))
  unfolding walk_deps
  walk_deps-none w d ds s e = ground arith

-- How many names are not in the set, as a count of white names.
abbrev colors_of : Seen → Colors
colors_of s m = elim (s m) [ true ↦ black | false ↦ white ]

seen_black : (s : Seen) (d : Bytes) → s d ≡ true → colors_of s d ≢ white
seen_black s d e q = ground arith

white_unseen : (s : Seen) (m : Bytes) → colors_of s m ≡ white → s m ≡ false
white_unseen s m e = ground arith

unseen_white : (s : Seen) (m : Bytes) → s m ≡ false → colors_of s m ≡ white
unseen_white s m e = ground arith

not_added : (s : Seen) (d x : Bytes) → update s d true x ≡ false → s x ≡ false
not_added s d x e = ground arith

abbrev unseen : List Bytes → Seen → ℕ
unseen names s = whites (colors_of s) names

module _ (needs : Needs) (names : List Bytes) (closed : Closed names needs) where
  abbrev WalkRuns : ℕ → Walk → Type 0
  WalkRuns fuel w = (d : Bytes) (s : Seen) → Memᴰ d names → unseen names s < fuel → w d s ≢ none

  unseen_mono :
      (s s' : Seen) → ((x : Bytes) → s x ≡ true → s' x ≡ true) → unseen names s' ≤ unseen names s
  unseen_mono s s' h = whites_mono (colors_of s) (colors_of s') names (λ m e. ground (arith, h m))

  unseen_drop :
      (s : Seen) (d : Bytes)
      → Memᴰ d names
      → s d ≡ false
      → unseen names (update s d true) < unseen names s
  unseen_drop s d m e =
      whites_drop (colors_of s) (colors_of (update s d true)) d names m (ground arith)
        (seen_black (update s d true) d (update_self s d true))
        (λ x h. unseen_white s x (not_added s d x (white_unseen (update s d true) x h)))

  walk_deps-runs :
      (fuel : ℕ) (w : Walk)
      → WalkGrown needs w
      → WalkRuns fuel w
      → (ds : List Bytes) (s : Seen) → ((d : Bytes) → Memᴰ d ds → Memᴰ d names)
      → unseen names s ≤ fuel
      → walk_deps w ds s ≢ none
  walk_deps-runs fuel w hg hr [] s sub le e = absurd (unfold walk_deps in cc)
  walk_deps-runs fuel w hg hr (d ∷ ds) s sub le e = elim (walk_deps-none needs w d ds s e) [
    | inl (h, e') ↦ walk_deps-runs fuel w hg hr ds s (λ x m. sub x (Memᴰ.tail m)) le e'
    | inr (inl (h, e')) ↦
        let drop = unseen_drop s d (sub d (Memᴰ.head refl)) h in
        hr d (update s d true) (sub d (Memᴰ.head refl)) (omega arith) e'
    | inr (inr (b, h, e', e'')) ↦
        let drop = unseen_drop s d (sub d (Memᴰ.head refl)) h in
        let fewer = unseen_mono (update s d true) b (hg d (update s d true) b e').still in
        walk_deps-runs fuel w hg hr ds b (λ x m. sub x (Memᴰ.tail m)) (omega arith) e''
  ]

  walk-runs : (fuel : ℕ) → WalkRuns fuel (walk needs fuel)
  walk-runs zero n s m le e = absurd (omega arith)
  walk-runs (suc fuel) n s m le e =
      walk_deps-runs fuel (walk needs fuel) (walk-Grown needs fuel) (walk-runs fuel) (needs n) s
        (λ d md. closed n d m md) (omega arith) (unfold walk in e)

abbrev none_seen : Seen
none_seen _ = false

-- What `transitiveNeeds` returns.
abbrev pub UpstreamOf : Needs → Bytes → Option (Bytes → Bool) → Type 0
UpstreamOf needs name none = ⊥
UpstreamOf needs name (some s) = (a : Bytes) → (s a ≡ true) ↔ Needed needs a name

-- If no step needs a step outside the list and the fuel is more than the number of steps, then the
-- set that is returned for a step of the list holds exactly the steps that it needs, directly or
-- through others.
pub transitive_needs-UpstreamOf :
    (fuel : ℕ) (names : List Bytes) (name : Bytes) (needs : Needs)
    → Closed names needs
    → Memᴰ name names
    → length names < fuel
    → UpstreamOf needs name (transitive_needs fuel name needs)
unfolding transitive_needs
transitive_needs-UpstreamOf fuel names name needs closed m le =
    by_result (walk needs fuel name none_seen) refl
  where
    by_result : (r : Option Seen) → walk needs fuel name none_seen ≡ r → UpstreamOf needs name r
    by_result none e =
        walk-runs needs names closed fuel name none_seen m
          (omega (arith, whites_le (colors_of none_seen) names)) e
    by_result (some s) e =
        let g = walk-Grown needs fuel name none_seen s e in
        λ a. (
          λ h. ⊎_elim (λ q. absurd (cc)) (λ q. q) (g.added a h),
          λ q.
              closed-Needed needs s (λ x h. ⊎_elim (λ p. absurd (cc)) (λ p. p) (g.below x h)) a name
                g.covers q,
        )
