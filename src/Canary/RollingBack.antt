-- ===== src/Canary/RollingBack.antt =====
-- `rollbackTarget` of internal/server/rollback.go, and `CreateRollbackDeployment` of
-- internal/store/deployments.go.
use luncur.Common.{
  ℕ, zero, suc, ◌≤◌, ◌<◌, ◌≡◌, refl, sym, ap, ◌∙◌, subst, ◌≢◌, inl, inr, Bool, true, not, ◌&&◌,
  none, some, List, [], ◌∷◌, Memᴰ, arith, ◌==◌, Bool-cases, Option-cases, take, Bytes, str_eq,
  str_eq_iff, str_eq_of_ne,
}
use luncur.Canary.Deployments.{
  Status, Deployment, Deployments, is_live, max_seq, get_deployment, latest_deployment,
  deployments_of, list_deployments, rollback_row, insert_attempts, max_id_insert_attempts,
  create_rollback_deployment, App, building, deploying, live, failed,
}
use luncur.Canary.World.{World}
use luncur.Canary.Handlers.{previous_live, rollback_target}

-- A deployment that a rollback may restore.
abbrev pub Restorable : ℕ → Bytes → Deployment → Type 0
Restorable app_id latest d =
    (d.app_id ≡ app_id) × (d.id ≢ latest) × (d.status ≡ live) × (d.image_ref ≢ [])

is_live-live : (s : Status) → is_live s ≡ true → s ≡ live
is_live-live live h = refl
is_live-live building h = cc
is_live-live deploying h = cc
is_live-live failed h = cc

-- The newest deployment that fits: it is among the newest `n` rows of the app, and no other that
-- fits stands before it.
pub data Newest (app_id : ℕ) (P : Deployment → Type 0) (d : Deployment)
    : ℕ → Deployments → Type 0 where
  here : {n : ℕ} {rows : Deployments} → P d → Newest app_id P d (suc n) (d ∷ rows)
  later :
      {n : ℕ} {e : Deployment} {rows : Deployments}
      → e.app_id ≡ app_id
      → (P e → ⊥)
      → Newest app_id P d n rows
      → Newest app_id P d (suc n) (e ∷ rows)
  other :
      {n : ℕ} {e : Deployment} {rows : Deployments}
      → e.app_id ≢ app_id
      → Newest app_id P d n rows
      → Newest app_id P d n (e ∷ rows)

abbrev fits : Bytes → Deployment → Bool
fits latest d = not (str_eq d.id latest) && is_live d.status && not (str_eq d.image_ref [])

live-is_live : (s : Status) → s ≡ live → is_live s ≡ true
live-is_live s e = rw e refl

fits-Restorable :
    (app_id : ℕ) (latest : Bytes) (d : Deployment)
    → d.app_id ≡ app_id
    → fits latest d ≡ true
    → Restorable app_id latest d
fits-Restorable app_id latest d same h = (
  same,
  (λ p. ground (arith, str_eq_iff d.id latest)),
  is_live-live d.status (ground arith),
  (λ p. ground (arith, str_eq_iff d.image_ref [])),
)

Restorable-fits :
    (app_id : ℕ) (latest : Bytes) (d : Deployment)
    → Restorable app_id latest d
    → fits latest d ≡ true
Restorable-fits app_id latest d (same, ne, is_l, image) =
    rw (str_eq_of_ne d.id latest ne, live-is_live d.status is_l, str_eq_of_ne d.image_ref [] image)
      refl

previous_live-Newest :
    (app_id : ℕ) (latest : Bytes) (n : ℕ) (rows : Deployments) (d : Deployment)
    → previous_live latest (take n (deployments_of rows app_id)) ≡ some d
    → Newest app_id (Restorable app_id latest) d n rows
unfolding previous_live deployments_of
previous_live-Newest app_id latest zero rows d h = cc
previous_live-Newest app_id latest (suc n) [] d h = cc
previous_live-Newest app_id latest (suc n) (e ∷ rows) d h = elim (Bool-cases (e.app_id == app_id)) [
  | inr f ↦
      other (λ same. ground arith)
        (previous_live-Newest app_id latest (suc n) rows d (rw (f, deployments_of) at h))
  | inl f ↦ elim (Bool-cases (fits latest e)) [
    | inl g ↦
        let is_d : e ≡ d = let h' = rw (f, deployments_of, g, previous_live) at h in cc in
        subst (λ x. Newest app_id (Restorable app_id latest) x (suc n) (e ∷ rows)) is_d
          (here (fits-Restorable app_id latest e (ground arith) g))
    | inr g ↦
        later (ground arith) (λ r. let t = Restorable-fits app_id latest e r in cc)
          (previous_live-Newest app_id latest n rows d
            (rw (f, deployments_of, g, previous_live) at h))
  ]
]

-- If a target is found for an automatic rollback, then it is among the newest 50 deployments of the
-- app and the newest of them that is live, has an image and is not the app's latest deployment.
pub rollback_target-Newest :
    (a : App) (w : World) (latest target : Deployment)
    → latest_deployment w.deployments a.id ≡ some latest
    → rollback_target a w ≡ some target
    → Newest a.id (Restorable a.id latest.id) target 50 w.deployments
unfolding rollback_target list_deployments
rollback_target-Newest a w latest target found h =
    previous_live-Newest a.id latest.id 50 w.deployments target
      (rw (found, rollback_target, list_deployments) at h)

max_seq-bound :
    (app_id : ℕ) (rows : Deployments) (d : Deployment)
    → Memᴰ d rows
    → d.app_id ≡ app_id
    → d.seq ≤ max_seq app_id rows
unfolding max_seq
max_seq-bound app_id [] d m e = elim m [ ]
max_seq-bound app_id (r ∷ rows) d (Memᴰ.head same) e =
    subst (λ x. x.seq ≤ max_seq app_id (r ∷ rows)) (sym same)
      (let mine : r.app_id ≡ app_id = ap (λ x. x.app_id) (sym same) ∙ e in ground arith)
max_seq-bound app_id (r ∷ rows) d (Memᴰ.tail m) e =
    let ih = max_seq-bound app_id rows d m e in ground arith

-- What a rollback's row has, beside the table that it is added to.
abbrev pub FreshRow : ℕ → Bytes → Bytes → Deployments → Deployment → Deployments → Type 0
FreshRow app_id image from rows d rows' =
    (rows' ≡ d ∷ rows)
    × (get_deployment rows d.id ≡ none)
    × (d.rolled_back_from ≡ from)
    × (d.image_ref ≡ image)
    × ((e : Deployment) → Memᴰ e rows → e.app_id ≡ app_id → e.seq < d.seq)

insert_attempts-FreshRow :
    (ids : List Bytes) (app_id : ℕ) (image from : Bytes) (rows : Deployments) (d : Deployment)
    (rows' : Deployments)
    → insert_attempts ids app_id image from rows ≡ some (d, rows')
    → FreshRow app_id image from rows d rows'
unfolding insert_attempts rollback_row
insert_attempts-FreshRow [] app_id image from rows d rows' h = cc
insert_attempts-FreshRow (id ∷ ids) app_id image from rows d rows' h =
    elim (Option-cases (get_deployment rows id)) [
      | inr (taken, e) ↦
          insert_attempts-FreshRow ids app_id image from rows d rows' (rw (e, insert_attempts) at h)
      | inl e ↦
          let h' = rw (e, insert_attempts) at h in
          let is_d : rollback_row id app_id image from rows ≡ d = cc in
          let is_rows : rollback_row id app_id image from rows ∷ rows ≡ rows' = cc in
          subst (λ x. FreshRow app_id image from rows x rows') is_d
            (
              sym is_rows,
              e,
              refl,
              refl,
              λ r m same. let b = max_seq-bound app_id rows r m same in ground arith,
            )
    ]

-- A rollback's deployment is a new row under an id that was free, names the deployment that it
-- restores and its image, and its number is above that of every other deployment of the app.
pub create_rollback_deployment-FreshRow :
    (ids : List Bytes) (app_id : ℕ) (image from : Bytes) (rows : Deployments) (d : Deployment)
    (rows' : Deployments)
    → create_rollback_deployment ids app_id image from rows ≡ some (d, rows')
    → FreshRow app_id image from rows d rows'
unfolding create_rollback_deployment
create_rollback_deployment-FreshRow ids app_id image from rows d rows' h =
    insert_attempts-FreshRow (take max_id_insert_attempts ids) app_id image from rows d rows' h
