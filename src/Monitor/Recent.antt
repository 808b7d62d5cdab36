-- ===== src/Monitor/Recent.antt =====
-- A ring (internal/server/monitor.go) against the list of all samples that were added to it.
use luncur.Common.{
  ℕ, suc, ◌+◌, ◌-◌, ◌%◌, ◌≤◌, ◌<◌, ◌≡◌, refl, sym, ap, ◌∙◌, subst, inl, inr, true, false, some,
  List, [], ◌∷◌, ◌++◌, arith, append_assoc, append-nil, ltb, ◌==◌, if◌then◌else◌, Bool-cases,
  length, get_elem?, drop, length-append,
}
use luncur.Common.Tabulate.{
  tabulate-get_elem?, get_elem?-drop, length-drop, get_elem?-append, get_elem?-length,
}
use luncur.Monitor.Ring.{
  monitor_window, MetricSample, MetricRing, zero_ring, add_sample, valid_count, snapshot,
}

-- What a chart shows of all samples: the newest ones, oldest first.
abbrev pub newest : List MetricSample → List MetricSample
newest history = drop (length history - monitor_window) history

-- The ring has the newest samples of the history.
abbrev pub Holds : MetricRing → List MetricSample → Type 0
Holds r history =
    (r.n ≡ length history)
    × ((i : ℕ)
        → i < length history
        → length history ≤ i + monitor_window
        → get_elem? history i ≡ some (r.buf (i % monitor_window)))

pub zero_ring-Holds : Holds zero_ring []
zero_ring-Holds = (refl, λ i lt le. absurd (omega arith))

pub add_sample-Holds :
    (s : MetricSample) (r : MetricRing) (history : List MetricSample)
    → Holds r history
    → Holds (add_sample s r) (history ++ s ∷ [])
unfolding add_sample
add_sample-Holds s r history (count, held) = (
  omega (arith, count, length-append history (s ∷ [])),
  λ i lt le.
      slot i (omega (arith, lt, length-append history (s ∷ [])))
        (omega (arith, le, length-append history (s ∷ []))),
)
  where
    slot :
        (i : ℕ)
        → i < suc (length history)
        → length history < i + 120
        → get_elem? (history ++ s ∷ []) i
          ≡ some (if r.n % 120 == i % 120 then s else r.buf (i % 120))
    slot i lt le = elim (Bool-cases (ltb i (length history))) [
      | inl e ↦
          let below : i < length history = ground arith in
          let other : (r.n % 120 == i % 120) ≡ false = ground arith in
          get_elem?-append history (s ∷ []) i below
          ∙ held i below (omega arith)
          ∙ ap (λ b. some (if b then s else r.buf (i % 120))) (sym other)
      | inr e ↦
          let last : i ≡ length history = ground arith in
          let here : (r.n % 120 == i % 120) ≡ true = ground arith in
          ap (get_elem? (history ++ s ∷ [])) last
          ∙ get_elem?-length history s
          ∙ ap (λ b. some (if b then s else r.buf (i % 120))) (sym here)
    ]

pub snapshot-Holds :
    (r : MetricRing) (history : List MetricSample) → Holds r history → snapshot r ≡ newest history
unfolding snapshot
snapshot-Holds r history (count, held) =
    let c : valid_count r.n ≡ length history - (length history - 120) = ground arith in
    tabulate-get_elem? (valid_count r.n) _ (newest history)
      (length-drop (length history - 120) history ∙ sym c)
      (λ i lt.
        get_elem?-drop (length history - 120) history i
        ∙ held (length history - 120 + i) (omega (arith, c, lt)) (omega arith)
        ∙ ap (λ k. some (r.buf (k % 120))) (omega (arith, c, count, lt)))

-- The ring after the samples were added one after another.
abbrev pub add_all : List MetricSample → MetricRing → MetricRing
add_all [] r = r
add_all (s ∷ ss) r = add_all ss (add_sample s r)

add_all-Holds :
    (ss : List MetricSample) (r : MetricRing) (history : List MetricSample)
    → Holds r history
    → Holds (add_all ss r) (history ++ ss)
add_all-Holds [] r history h = subst (Holds r) (sym (append-nil history)) h
add_all-Holds (s ∷ ss) r history h =
    subst (Holds (add_all ss (add_sample s r))) (append_assoc history (s ∷ []) ss)
      (add_all-Holds ss (add_sample s r) (history ++ s ∷ []) (add_sample-Holds s r history h))

-- For all samples that were added to an empty ring, its snapshot is the last 120 of them, or all of
-- them where there are fewer, oldest first.
pub snapshot-newest :
    (samples : List MetricSample) → snapshot (add_all samples zero_ring) ≡ newest samples
snapshot-newest samples =
    snapshot-Holds (add_all samples zero_ring) samples
      (add_all-Holds samples zero_ring [] zero_ring-Holds)
