-- ===== src/Kube/Evictions.antt =====
-- internal/kube/drain.go: what one pass over the pending pods, and one batch, does to each pod.
use luncur.Common.{
  suc, ◌≡◌, refl, sym, subst, ◌⊎◌, inl, inr, Bool, true, false, ◌&&◌, List, [], ◌∷◌, ◌++◌, Memᴰ,
  Bool-cases, if◌then◌else◌, length, Bytes,
}
use luncur.Kube.Drain.{
  DrainPod, EvictAnswer, evicted, not_found, too_many_requests, other_error, DrainProgress, Pass,
  canceled, timed_out, drainable, batch_of, blocked_line, PassEnd, stopped, passed_over, run_pass,
  BatchEnd, ended, finished, after_pass, drain_batch,
}

pub EvictAnswer-cases :
    (e : EvictAnswer)
    → (e ≡ evicted)
      ⊎ (e ≡ not_found)
      ⊎ ((err : Bytes) × (e ≡ too_many_requests err))
      ⊎ ((err : Bytes) × (e ≡ other_error err))
EvictAnswer-cases evicted = inl refl
EvictAnswer-cases not_found = inr (inl refl)
EvictAnswer-cases (too_many_requests err) = inr (inr (inl (err, refl)))
EvictAnswer-cases (other_error err) = inr (inr (inr (err, refl)))

pub PassEnd-cases :
    (e : PassEnd)
    → ((p : DrainPod) × (err : Bytes) × (prog : DrainProgress) × (e ≡ stopped p err prog))
      ⊎ ((retry : List DrainPod) × (prog : DrainProgress) × (e ≡ passed_over retry prog))
PassEnd-cases (stopped p err prog) = inl (p, err, prog, refl)
PassEnd-cases (passed_over retry prog) = inr (retry, prog, refl)

pub after_pass-finished :
    (pass : Pass) (retry : List DrainPod) (prog : DrainProgress) (again : BatchEnd)
    (rest : List Pass) (prog' : DrainProgress)
    → after_pass pass retry prog again ≡ finished rest prog'
    → again ≡ finished rest prog'
after_pass-finished pass retry prog again rest prog' h = go pass.past_deadline pass.context_done h
  where
    go :
        (b c : Bool)
        → (if b
            then ended (timed_out (length retry)) prog
            else if c
            then ended canceled prog
            else again)
          ≡ finished rest prog'
        → again ≡ finished rest prog'
    go true c h = cc
    go false true h = cc
    go false false h = h

-- The API server has evicted the pod, or knows none such.
abbrev pub Answered : (DrainPod → EvictAnswer) → DrainPod → Type 0
Answered evict p = (evict p ≡ evicted) ⊎ (evict p ≡ not_found)

-- In one of the passes it has.
abbrev pub Gone : List Pass → DrainPod → Type 0
Gone passes p = (pass : Pass) × Memᴰ pass passes × Answered pass.evict p

mem-append_left : (p : DrainPod) (xs ys : List DrainPod) → Memᴰ p xs → Memᴰ p (xs ++ ys)
mem-append_left p [] ys m = elim m [ ]
mem-append_left p (x ∷ xs) ys (Memᴰ.head e) = Memᴰ.head e
mem-append_left p (x ∷ xs) ys (Memᴰ.tail m) = Memᴰ.tail (mem-append_left p xs ys m)

mem-snoc : (p : DrainPod) (xs : List DrainPod) → Memᴰ p (xs ++ p ∷ [])
mem-snoc p [] = Memᴰ.head refl
mem-snoc p (x ∷ xs) = Memᴰ.tail (mem-snoc p xs)

run_pass-keeps :
    (evict : DrainPod → EvictAnswer) (pending retry : List DrainPod) (prog : DrainProgress)
    (retry' : List DrainPod) (prog' : DrainProgress) (q : DrainPod)
    → run_pass evict pending retry prog ≡ passed_over retry' prog'
    → Memᴰ q retry
    → Memᴰ q retry'
unfolding run_pass
run_pass-keeps evict [] retry prog retry' prog' q h m =
    let same : retry ≡ retry' = cc in subst (λ r. Memᴰ q r) same m
run_pass-keeps evict (p ∷ pending) retry prog retry' prog' q h m =
    elim (EvictAnswer-cases (evict p)) [
      | inl e ↦
          run_pass-keeps evict pending retry (record prog { evicted = suc prog.evicted }) retry'
            prog' q (rw (e, run_pass) at h) m
      | inr (inl e) ↦
          run_pass-keeps evict pending retry (record prog { evicted = suc prog.evicted }) retry'
            prog' q (rw (e, run_pass) at h) m
      | inr (inr (inl (err, e))) ↦
          run_pass-keeps evict pending (retry ++ p ∷ [])
            (record prog { blocked = prog.blocked ++ blocked_line p err ∷ [] }) retry' prog' q
            (rw (e, run_pass) at h) (mem-append_left q retry (p ∷ []) m)
      | inr (inr (inr (err, e))) ↦ let clash = rw (e, run_pass) at h in cc
    ]

run_pass-Answered :
    (evict : DrainPod → EvictAnswer) (pending retry : List DrainPod) (prog : DrainProgress)
    (retry' : List DrainPod) (prog' : DrainProgress) (q : DrainPod)
    → run_pass evict pending retry prog ≡ passed_over retry' prog'
    → Memᴰ q pending
    → Answered evict q ⊎ Memᴰ q retry'
unfolding run_pass
run_pass-Answered evict [] retry prog retry' prog' q h m = elim m [ ]
run_pass-Answered evict (p ∷ pending) retry prog retry' prog' q h m =
    elim (EvictAnswer-cases (evict p)) [
      | inl e ↦ elim m [
        | Memᴰ.head same ↦ inl (inl (subst (λ x. evict x ≡ evicted) (sym same) e))
        | Memᴰ.tail m' ↦
            run_pass-Answered evict pending retry (record prog { evicted = suc prog.evicted })
              retry' prog' q (rw (e, run_pass) at h) m'
      ]
      | inr (inl e) ↦ elim m [
        | Memᴰ.head same ↦ inl (inr (subst (λ x. evict x ≡ not_found) (sym same) e))
        | Memᴰ.tail m' ↦
            run_pass-Answered evict pending retry (record prog { evicted = suc prog.evicted })
              retry' prog' q (rw (e, run_pass) at h) m'
      ]
      | inr (inr (inl (err, e))) ↦
          let again : run_pass evict pending (retry ++ p ∷ [])
                (record prog { blocked = prog.blocked ++ blocked_line p err ∷ [] })
              ≡ passed_over retry' prog' =
            rw (e, run_pass) at h in
          elim m [
            | Memᴰ.head same ↦ inr (
                run_pass-keeps evict pending (retry ++ p ∷ [])
                  (record prog { blocked = prog.blocked ++ blocked_line p err ∷ [] }) retry' prog' q
                  again (subst (λ x. Memᴰ x (retry ++ p ∷ [])) (sym same) (mem-snoc p retry)))
            | Memᴰ.tail m' ↦
                run_pass-Answered evict pending (retry ++ p ∷ [])
                  (record prog { blocked = prog.blocked ++ blocked_line p err ∷ [] }) retry' prog' q
                  again m'
          ]
      | inr (inr (inr (err, e))) ↦ let clash = rw (e, run_pass) at h in cc
    ]

Gone-later :
    (pass : Pass) (passes : List Pass) (p : DrainPod) → Gone passes p → Gone (pass ∷ passes) p
Gone-later pass passes p (x, m, a) = (x, Memᴰ.tail m, a)

-- A finished batch leaves a part of the passes, and each of its pods is gone.
pub drain_batch-Gone :
    (passes : List Pass) (pending : List DrainPod) (prog : DrainProgress) (rest : List Pass)
    (prog' : DrainProgress)
    → drain_batch passes pending prog ≡ finished rest prog'
    → ((q : DrainPod) → Memᴰ q pending → Gone passes q) × ((x : Pass) → Memᴰ x rest → Memᴰ x passes)
unfolding drain_batch
drain_batch-Gone passes [] prog rest prog' h =
    let same : passes ≡ rest = cc in (λ q m. elim m [ ], λ x m. subst (λ r. Memᴰ x r) (sym same) m)
drain_batch-Gone [] (p ∷ pending) prog rest prog' h = cc
drain_batch-Gone (pass ∷ passes) (p ∷ pending) prog rest prog' h =
    elim (PassEnd-cases (run_pass pass.evict (p ∷ pending) [] (record prog { blocked = [] }))) [
      | inl (q, err, prog2, e) ↦ let clash = rw (e, drain_batch) at h in cc
      | inr ([], prog2, e) ↦
          let h' = rw (e, drain_batch) at h in
          let same : passes ≡ rest = cc in
          (
            λ q m.
                elim (run_pass-Answered pass.evict (p ∷ pending) [] (record prog { blocked = [] })
                  [] prog2 q e m) [
                    | inl a ↦ (pass, Memᴰ.head refl, a)
                    | inr stays ↦ elim stays [ ]
                  ],
            λ x m. Memᴰ.tail (subst (λ r. Memᴰ x r) (sym same) m),
          )
      | inr (r ∷ rs, prog2, e) ↦
          let h' =
            after_pass-finished pass (r ∷ rs) prog2 (drain_batch passes (r ∷ rs) prog2) rest prog'
              (rw (e, drain_batch) at h) in
          let (gone, part) = drain_batch-Gone passes (r ∷ rs) prog2 rest prog' h' in
          (
            λ q m.
                elim (run_pass-Answered pass.evict (p ∷ pending) [] (record prog { blocked = [] })
                  (r ∷ rs) prog2 q e m) [
                    | inl a ↦ (pass, Memᴰ.head refl, a)
                    | inr stays ↦ Gone-later pass passes q (gone q stays)
                  ],
            λ x m. Memᴰ.tail (part x m),
          )
    ]

pub mem-batch_of :
    (wanted : DrainPod → Bool) (pods : List DrainPod) (p : DrainPod)
    → drainable p ≡ true
    → wanted p ≡ true
    → Memᴰ p pods
    → Memᴰ p (batch_of wanted pods)
unfolding batch_of
mem-batch_of wanted [] p d w m = elim m [ ]
mem-batch_of wanted (x ∷ pods) p d w (Memᴰ.head same) =
    let d' = subst (λ y. drainable y ≡ true) same d in
    let w' = subst (λ y. wanted y ≡ true) same w in rw (d', w', batch_of) (Memᴰ.head same)
mem-batch_of wanted (x ∷ pods) p d w (Memᴰ.tail m) =
    let ih = mem-batch_of wanted pods p d w m in
    elim (Bool-cases (drainable x && wanted x)) [
      | inl e ↦ rw (e, batch_of) (Memᴰ.tail ih)
      | inr e ↦ rw (e, batch_of) ih
    ]
