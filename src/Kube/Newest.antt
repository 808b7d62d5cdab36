-- ===== src/Kube/Newest.antt =====
-- `newestReplicaSet` and `rolloutPod` of internal/kube/rollout.go.
use luncur.Common.{
  ◌≡◌, sym, subst, ◌⊎◌, inl, inr, true, Option, none, some, List, [], ◌∷◌, Memᴰ, arith, Bool-cases,
  Bytes,
}
use luncur.Kube.Status.{
  is_newer, is_current, ReplicaSet, owned_by, newest_of, newest_replica_set, DeploymentObject,
}

-- The Deployment owns the replica set.
abbrev pub Owned : Bytes → ReplicaSet → Type 0
Owned uid rs = owned_by rs.owners uid ≡ true

-- The one that is chosen is among the candidates and is owned.
abbrev pub Chosen : Bytes → List ReplicaSet → ReplicaSet → Type 0
Chosen uid items rs = Memᴰ rs items × Owned uid rs

pass_on :
    (uid : Bytes) (newest : Option ReplicaSet) (r : ReplicaSet) (items : List ReplicaSet)
    (rs : ReplicaSet)
    → (newest ≡ some rs) ⊎ Chosen uid items rs
    → (newest ≡ some rs) ⊎ Chosen uid (r ∷ items) rs
pass_on uid newest r items rs (inl e) = inl e
pass_on uid newest r items rs (inr (m, o)) = inr (Memᴰ.tail m, o)

taken_on :
    (uid : Bytes) (newest : Option ReplicaSet) (r : ReplicaSet) (items : List ReplicaSet)
    (rs : ReplicaSet)
    → Owned uid r
    → (some r ≡ some rs) ⊎ Chosen uid items rs
    → (newest ≡ some rs) ⊎ Chosen uid (r ∷ items) rs
taken_on uid newest r items rs o (inl e) =
    let same : r ≡ rs = cc in inr (Memᴰ.head (sym same), subst (Owned uid) same o)
taken_on uid newest r items rs o (inr (m, p)) = inr (Memᴰ.tail m, p)

newest_of-Chosen :
    (uid rev : Bytes) (newest : Option ReplicaSet) (items : List ReplicaSet) (rs : ReplicaSet)
    → newest_of uid rev newest items ≡ some rs
    → (newest ≡ some rs) ⊎ Chosen uid items rs
unfolding newest_of
newest_of-Chosen uid rev newest [] rs h = inl h
newest_of-Chosen uid rev newest (r ∷ items) rs h = elim (Bool-cases (owned_by r.owners uid)) [
  | inr e ↦
      pass_on uid newest r items rs
        (newest_of-Chosen uid rev newest items rs (rw (e, newest_of) at h))
  | inl e ↦ elim (Bool-cases (is_current rev r)) [
    | inl c ↦ taken_on uid newest r items rs e (inl (rw (e, c, newest_of) at h))
    | inr c ↦ elim (Bool-cases (is_newer r newest)) [
      | inl n ↦
          taken_on uid newest r items rs e
            (newest_of-Chosen uid rev (some r) items rs (rw (e, c, n, newest_of) at h))
      | inr n ↦
          pass_on uid newest r items rs
            (newest_of-Chosen uid rev newest items rs (rw (e, c, n, newest_of) at h))
    ]
  ]
]

newest_of-current :
    (uid rev : Bytes) (newest : Option ReplicaSet) (items : List ReplicaSet) (r rs : ReplicaSet)
    → Memᴰ r items
    → Owned uid r
    → is_current rev r ≡ true
    → newest_of uid rev newest items ≡ some rs
    → is_current rev rs ≡ true
unfolding newest_of
newest_of-current uid rev newest [] r rs m o c h = elim m [ ]
newest_of-current uid rev newest (x ∷ items) r rs m o c h =
    elim (Bool-cases (owned_by x.owners uid)) [
      | inr e ↦ elim m [
        | Memᴰ.head same ↦ let o' : owned_by x.owners uid ≡ true = subst (Owned uid) same o in cc
        | Memᴰ.tail m' ↦ newest_of-current uid rev newest items r rs m' o c (rw (e, newest_of) at h)
      ]
      | inl e ↦ elim (Bool-cases (is_current rev x)) [
        | inl cur ↦
            let h' = rw (e, cur, newest_of) at h in
            let same : x ≡ rs = cc in subst (λ y. is_current rev y ≡ true) same cur
        | inr cur ↦ elim m [
          | Memᴰ.head same ↦
              let c' : is_current rev x ≡ true = subst (λ y. is_current rev y ≡ true) same c in cc
          | Memᴰ.tail m' ↦ elim (Bool-cases (is_newer x newest)) [
            | inl n ↦
                newest_of-current uid rev (some x) items r rs m' o c
                  (rw (e, cur, n, newest_of) at h)
            | inr n ↦
                newest_of-current uid rev newest items r rs m' o c (rw (e, cur, n, newest_of) at h)
          ]
        ]
      ]
    ]

-- A replica set that is chosen is one of those listed and is owned by the Deployment, and if some
-- owned one has the Deployment's current revision, then the chosen one has it.
pub newest_replica_set-Chosen :
    (dep : DeploymentObject) (items : List ReplicaSet) (rs : ReplicaSet)
    → newest_replica_set dep items ≡ some rs
    → Chosen dep.uid items rs
      × ((r : ReplicaSet)
          → Memᴰ r items
          → Owned dep.uid r
          → is_current dep.revision r ≡ true
          → is_current dep.revision rs ≡ true)
unfolding newest_replica_set
newest_replica_set-Chosen dep items rs h = elim (Bool-cases dep.has_selector) [
  | inr e ↦ let clash = simp (e, newest_replica_set) at h in cc
  | inl e ↦
      let h' : newest_of dep.uid dep.revision none items ≡ some rs = ground arith in
      (
        elim (newest_of-Chosen dep.uid dep.revision none items rs h') [
          | inl clash ↦ cc
          | inr chosen ↦ chosen
        ],
        λ r m o c. newest_of-current dep.uid dep.revision none items r rs m o c h',
      )
]
