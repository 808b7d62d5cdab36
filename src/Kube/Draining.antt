-- ===== src/Kube/Draining.antt =====
-- `Drain` of internal/kube/drain.go: the tally of a drain.
use luncur.Common.{
  length-append, ℕ, suc, ◌+◌, ◌≡◌, refl, sym, ap, ◌∙◌, subst, Memᴰ, Bool-cases, ◌≢◌, ◌⊎◌, inl, inr,
  Bool, true, not, none, some, List, [], ◌∷◌, ◌++◌, arith, length, length-append, Bytes,
}
use luncur.Kube.Evictions.{
  EvictAnswer-cases, PassEnd-cases, after_pass-finished, Gone, drain_batch-Gone, mem-batch_of,
}
use luncur.Kube.Drain.{
  drainable, DrainPod, EvictAnswer, DrainProgress, Pass, batch_of, blocked_line, passed_over,
  run_pass, BatchEnd, no_answer, ended, finished, drain_batch, drain_result, drain_last, drain,
}

-- A pod is either evicted or kept to be tried again, and each one kept has a line.
abbrev pub Tallied : ℕ → ℕ → DrainProgress → List DrainPod → Type 0
Tallied total due prog retry =
    (prog.total ≡ total)
    × (prog.evicted + length retry ≡ due)
    × (length prog.blocked ≡ length retry)

length-snoc {ℓ} : {A : Type ℓ} (xs : List A) (x : A) → length (xs ++ x ∷ []) ≡ suc (length xs)
length-snoc xs x = omega (arith, length-append xs (x ∷ []))

move :
    (total due n : ℕ) (prog : DrainProgress) (retry : List DrainPod)
    → Tallied total (suc due + n) prog retry
    → Tallied total (due + suc n) prog retry
move total due n prog retry (a, b, c) = (a, omega arith, c)

run_pass-Tallied :
    (evict : DrainPod → EvictAnswer) (pending retry : List DrainPod) (prog : DrainProgress)
    (retry' : List DrainPod) (prog' : DrainProgress) (total due : ℕ)
    → Tallied total due prog retry
    → run_pass evict pending retry prog ≡ passed_over retry' prog'
    → Tallied total (due + length pending) prog' retry'
unfolding run_pass
run_pass-Tallied evict [] retry prog retry' prog' total due (a, b, c) h =
    let same_retry : retry ≡ retry' = cc in
    let same_prog : prog ≡ prog' = cc in
    subst (λ r. Tallied total (due + 0) prog' r) same_retry
      (subst (λ x. Tallied total (due + 0) x retry) same_prog (a, omega arith, c))
run_pass-Tallied evict (p ∷ pending) retry prog retry' prog' total due (a, b, c) h =
    elim (EvictAnswer-cases (evict p)) [
      | inl e ↦ move total due (length pending) prog' retry' (
          run_pass-Tallied evict pending retry (record prog { evicted = suc prog.evicted }) retry'
            prog' total (suc due) (a, omega arith, c) (rw (e, run_pass) at h))
      | inr (inl e) ↦ move total due (length pending) prog' retry' (
          run_pass-Tallied evict pending retry (record prog { evicted = suc prog.evicted }) retry'
            prog' total (suc due) (a, omega arith, c) (rw (e, run_pass) at h))
      | inr (inr (inl (err, e))) ↦ move total due (length pending) prog' retry' (
          run_pass-Tallied evict pending (retry ++ p ∷ [])
            (record prog { blocked = prog.blocked ++ blocked_line p err ∷ [] }) retry' prog' total
            (suc due)
            (
              a,
              omega (arith, length-snoc retry p),
              length-snoc prog.blocked (blocked_line p err) ∙ ap suc c ∙ sym (length-snoc retry p),
            )
            (rw (e, run_pass) at h))
      | inr (inr (inr (err, e))) ↦ let clash = rw (e, run_pass) at h in cc
    ]

-- After a finished batch each of its pods is evicted, and no line is left, if none was before or the
-- batch had a pod.
abbrev pub BatchDone : DrainProgress → List DrainPod → DrainProgress → Type 0
BatchDone prog pending prog' =
    (prog'.total ≡ prog.total)
    × (prog'.evicted ≡ prog.evicted + length pending)
    × ((prog.blocked ≡ []) ⊎ (pending ≢ []) → prog'.blocked ≡ [])

empty_blocked : (xs : List Bytes) → length xs ≡ 0 → xs ≡ []
empty_blocked [] h = refl
empty_blocked (x ∷ xs) h = elim (absurd h) [ ]
  where
    absurd : suc (length xs) ≡ 0 → ⊥
    absurd h = ground arith

drain_batch-BatchDone :
    (passes : List Pass) (pending : List DrainPod) (prog : DrainProgress) (rest : List Pass)
    (prog' : DrainProgress)
    → drain_batch passes pending prog ≡ finished rest prog'
    → BatchDone prog pending prog'
unfolding drain_batch
drain_batch-BatchDone passes [] prog rest prog' h =
    let same : prog ≡ prog' = cc in
    subst (λ x. BatchDone prog [] x) same
      (
        refl,
        omega arith,
        λ e. elim e [ inl none_before ↦ none_before | inr ne ↦ elim (ne refl) [ ] ],
      )
drain_batch-BatchDone [] (p ∷ pending) prog rest prog' h = cc
drain_batch-BatchDone (pass ∷ passes) (p ∷ pending) prog rest prog' h =
    elim (PassEnd-cases (run_pass pass.evict (p ∷ pending) [] (record prog { blocked = [] }))) [
      | inl (q, err, prog2, e) ↦ let clash = rw (e, drain_batch) at h in cc
      | inr ([], prog2, e) ↦
          let (a, b, c) =
            run_pass-Tallied pass.evict (p ∷ pending) [] (record prog { blocked = [] }) [] prog2
              prog.total prog.evicted (refl, omega arith, refl) e in
          let h' = rw (e, drain_batch) at h in
          let same : prog2 ≡ prog' = cc in
          subst (λ x. BatchDone prog (p ∷ pending) x) same
            (a, omega arith, λ _. empty_blocked prog2.blocked c)
      | inr (q ∷ qs, prog2, e) ↦
          let (a, b, c) =
            run_pass-Tallied pass.evict (p ∷ pending) [] (record prog { blocked = [] }) (q ∷ qs)
              prog2 prog.total prog.evicted (refl, omega arith, refl) e in
          let h' =
            after_pass-finished pass (q ∷ qs) prog2 (drain_batch passes (q ∷ qs) prog2) rest prog'
              (rw (e, drain_batch) at h) in
          let (a2, b2, c2) = drain_batch-BatchDone passes (q ∷ qs) prog2 rest prog' h' in
          (a2 ∙ a, omega arith, λ _. c2 (inr (λ p. cc)))
    ]

drain_last-Drained :
    (last : List DrainPod) (e : BatchEnd) (prog : DrainProgress)
    → drain_last last e ≡ some (none, prog)
    → (passes : List Pass) × (rest : List Pass) × (prog1 : DrainProgress) × (e
        ≡ finished passes prog1)
      × (drain_batch passes last prog1 ≡ finished rest prog)
unfolding drain_last
drain_last-Drained last no_answer prog h = cc
drain_last-Drained last (ended why prog1) prog h = cc
drain_last-Drained last (finished passes prog1) prog h = read (drain_batch passes last prog1) refl h
  where
    read :
        (b : BatchEnd)
        → drain_batch passes last prog1 ≡ b
        → drain_result b ≡ some (none, prog)
        → (passes' : List Pass) × (rest : List Pass) × (prog1' : DrainProgress) × (finished passes
              prog1
            ≡ finished passes' prog1')
          × (drain_batch passes' last prog1' ≡ finished rest prog)
    read no_answer e h = cc
    read (ended why prog') e h = cc
    read (finished rest prog') e h = (passes, rest, prog1, refl, cc)

-- If a drain returns no error, then each pod to evict was evicted or not there any more by the API
-- server's answer in one of the passes, the total is the number of the pods to evict in the two
-- batches, as many are counted as evicted, and no pod is reported as blocked.
pub drain-Drained :
    (is_last : DrainPod → Bool) (passes : List Pass) (pods : List DrainPod) (prog : DrainProgress)
    → drain is_last passes pods ≡ some (none, prog)
    → ((p : DrainPod) → Memᴰ p pods → drainable p ≡ true → Gone passes p)
      × (prog.total
          ≡ length (batch_of (λ p. not (is_last p)) pods) + length (batch_of is_last pods))
      × (prog.evicted ≡ prog.total)
      × (prog.blocked ≡ [])
unfolding drain drain_last
drain-Drained is_last passes pods prog h =
    let first : List DrainPod = batch_of (λ p. not (is_last p)) pods in
    let last : List DrainPod = batch_of is_last pods in
    let start : DrainProgress = record {
      total = length first + length last;
      evicted = 0;
      blocked = [];
    } in
    let (passes', rest, prog1, e1, e2) =
      drain_last-Drained last (drain_batch passes first start) prog h in
    let (a1, b1, c1) = drain_batch-BatchDone passes first start passes' prog1 e1 in
    let (a2, b2, c2) = drain_batch-BatchDone passes' last prog1 rest prog e2 in
    let (gone1, part) = drain_batch-Gone passes first start passes' prog1 e1 in
    let (gone2, _) = drain_batch-Gone passes' last prog1 rest prog e2 in
    (
      λ p m d. elim (Bool-cases (is_last p)) [
        | inl w ↦ let (x, mx, a) = gone2 p (mem-batch_of is_last pods p d w m) in (x, part x mx, a)
        | inr w ↦ gone1 p (mem-batch_of (λ q. not (is_last q)) pods p d (rw w refl) m)
      ],
      a2 ∙ a1,
      omega arith,
      c2 (inl (c1 (inl refl))),
    )
