-- ===== src/Monitor/Charts.antt =====
-- The charts of a monitor (internal/server/monitor.go) against the history of each key.
use luncur.Common.{
  ℕ, ◌≡◌, refl, sym, subst, inl, inr, Bool, true, false, Option, none, some, List, [], ◌∷◌, ◌++◌,
  if◌then◌else◌, Bool-cases, Bytes, str_eq, str_eq_cases, update, update_ne, pos,
}
use luncur.Monitor.Ring.{MetricSample, MetricRing}
use luncur.Monitor.Recent.{newest, Holds, zero_ring-Holds, add_sample-Holds, snapshot-Holds}
use luncur.Monitor.Recorder.{
  AppMetrics, NodeInfo, Rings, Monitor, new_monitor, ring_or_new, add_at, add_if_there, fill_unseen,
  app_sample, node_sample, record_apps, record_nodes, record_tick, samples_of, app_samples,
  node_samples,
}

abbrev pub Entries : Type 0
Entries = List (Bytes × MetricSample)

abbrev pub app_entries : ℕ → List (Bytes × AppMetrics) → Entries
app_entries at_time [] = []
app_entries at_time ((key, am) ∷ apps) = (key, app_sample at_time am) ∷ app_entries at_time apps

abbrev pub node_entries : ℕ → List NodeInfo → Entries
node_entries at_time [] = []
node_entries at_time (node ∷ nodes) =
    let rest = node_entries at_time nodes in
    if node.metrics_ok then (node.name, node_sample at_time node) ∷ rest else rest

-- What a tick samples under a key.
abbrev pub sampled : Bytes → Entries → List MetricSample
sampled key [] = []
sampled key ((k, s) ∷ es) = let rest = sampled key es in if str_eq k key then s ∷ rest else rest

abbrev pub so_far : Option (List MetricSample) → List MetricSample
so_far none = []
so_far (some l) = l

-- A history that a tick adds nothing to gets a zero sample.
abbrev pub left_out : ℕ → Bool → Option (List MetricSample) → Option (List MetricSample)
left_out at_time true h = h
left_out at_time false none = none
left_out at_time false (some l) =
    some (l ++ record { at_time = at_time; cpu_milli = pos 0; memory_mib = pos 0 } ∷ [])

-- A key's history after the tick's samples.
abbrev pub grown :
    ℕ → Bool → List MetricSample → Option (List MetricSample) → Option (List MetricSample)
grown at_time seen [] h = left_out at_time seen h
grown at_time seen (s ∷ ss) h = grown at_time true ss (some (so_far h ++ s ∷ []))

-- The ring under a key has the newest samples of the key's history.
abbrev pub Tracks : Option MetricRing → Option (List MetricSample) → Type 0
Tracks none none = Unit {0}
Tracks none (some l) = ⊥
Tracks (some r) none = ⊥
Tracks (some r) (some l) = Holds r l

Tracks-new :
    (o : Option MetricRing) (h : Option (List MetricSample))
    → Tracks o h
    → Holds (ring_or_new o) (so_far h)
Tracks-new none none _ = zero_ring-Holds
Tracks-new none (some l) t = absurd t
Tracks-new (some r) none t = absurd t
Tracks-new (some r) (some l) t = t

Tracks-unseen :
    (at_time : ℕ) (seen : Bool) (o : Option MetricRing) (h : Option (List MetricSample))
    → Tracks o h
    → Tracks
        (if seen
          then o
          else add_if_there (record { at_time = at_time; cpu_milli = pos 0; memory_mib = pos 0 }) o)
        (left_out at_time seen h)
Tracks-unseen at_time true o h t = t
Tracks-unseen at_time false none none t = tt
Tracks-unseen at_time false none (some l) t = absurd t
Tracks-unseen at_time false (some r) none t = absurd t
Tracks-unseen at_time false (some r) (some l) t = add_sample-Holds _ r l t

update_at {ℓ} :
    {A : Type ℓ} (m : Bytes → A) (k j : Bytes) (v : A) → str_eq k j ≡ true → update m k v j ≡ v
update_at m k j v e = rw e refl

-- Both loops of `record`, over what they sample.
abbrev pub record_entries : ℕ → Entries → (Bytes → Bool) → Rings → Rings
record_entries at_time [] seen rings = fill_unseen at_time seen rings
record_entries at_time ((key, s) ∷ es) seen rings =
    record_entries at_time es (update seen key true) (add_at key s rings)

record_apps-entries :
    (at_time : ℕ) (apps : List (Bytes × AppMetrics)) (seen : Bytes → Bool) (rings : Rings)
    → record_apps at_time apps seen rings
      ≡ record_entries at_time (app_entries at_time apps) seen rings
unfolding record_apps
record_apps-entries at_time [] seen rings = refl
record_apps-entries at_time ((key, am) ∷ apps) seen rings =
    record_apps-entries at_time apps (update seen key true)
      (add_at key (app_sample at_time am) rings)

record_nodes-entries :
    (at_time : ℕ) (nodes : List NodeInfo) (seen : Bytes → Bool) (rings : Rings)
    → record_nodes at_time nodes seen rings
      ≡ record_entries at_time (node_entries at_time nodes) seen rings
unfolding record_nodes
record_nodes-entries at_time [] seen rings = refl
record_nodes-entries at_time (node ∷ nodes) seen rings = elim (Bool-cases node.metrics_ok) [
  | inl e ↦ rw e (
      record_nodes-entries at_time nodes (update seen node.name true)
        (add_at node.name (node_sample at_time node) rings))
  | inr e ↦ rw e (record_nodes-entries at_time nodes seen rings)
]

record_entries-Tracks :
    (at_time : ℕ) (es : Entries) (seen : Bytes → Bool) (rings : Rings) (key : Bytes)
    (h : Option (List MetricSample))
    → Tracks (rings key) h
    → Tracks
        (record_entries at_time es seen rings key)
        (grown at_time (seen key) (sampled key es) h)
record_entries-Tracks at_time [] seen rings key h t =
    Tracks-unseen at_time (seen key) (rings key) h t
record_entries-Tracks at_time ((k, s) ∷ es) seen rings key h t =
    let ih = record_entries-Tracks at_time es (update seen k true) (add_at k s rings) key in
    elim (str_eq_cases k key) [
      | inl (e, same) ↦
          let t' = Tracks-new (rings k) h (subst (λ x. Tracks (rings x) h) (sym same) t) in
          let added = add_sample-Holds s (ring_or_new (rings k)) (so_far h) t' in
          let grew = ih (some (so_far h ++ s ∷ [])) (
            subst (λ o. Tracks o (some (so_far h ++ s ∷ []))) (sym (update_at rings k key _ e))
              added) in
          rw e (
            subst
              (λ b.
                Tracks (record_entries at_time es (update seen k true) (add_at k s rings) key)
                  (grown at_time b (sampled key es) (some (so_far h ++ s ∷ []))))
              (update_at seen k key true e) grew)
      | inr (e, other) ↦
          let kept = ih h (subst (λ o. Tracks o h) (sym (update_ne rings k key _ other)) t) in
          rw e (
            subst
              (λ b.
                Tracks (record_entries at_time es (update seen k true) (add_at k s rings) key)
                  (grown at_time b (sampled key es) h))
              (update_ne seen k key true other) kept)
    ]

-- A tick of the sampler: its time, the apps' metrics and the nodes.
pub record Tick : Type 0 where
  pub at_time : ℕ
  pub apps : List (Bytes × AppMetrics)
  pub nodes : List NodeInfo

abbrev pub record_all : List Tick → Monitor → Monitor
record_all [] m = m
record_all (t ∷ ts) m = record_all ts (record_tick t.at_time t.apps t.nodes m)

-- The history of a key over ticks that sample `entries`.
abbrev pub history :
    (Tick → Entries) → Bytes → List Tick → Option (List MetricSample) → Option (List MetricSample)
history entries key [] h = h
history entries key (t ∷ ts) h =
    history entries key ts (grown t.at_time false (sampled key (entries t)) h)

abbrev pub apps_of : Tick → Entries
apps_of t = app_entries t.at_time t.apps

abbrev pub nodes_of : Tick → Entries
nodes_of t = node_entries t.at_time t.nodes

record_all-Tracks :
    (ts : List Tick) (m : Monitor) (key : Bytes) (h g : Option (List MetricSample))
    → Tracks (m.apps key) h
    → Tracks (m.nodes key) g
    → Tracks ((record_all ts m).apps key) (history apps_of key ts h)
      × Tracks ((record_all ts m).nodes key) (history nodes_of key ts g)
unfolding record_tick
record_all-Tracks [] m key h g th tg = (th, tg)
record_all-Tracks (t ∷ ts) m key h g th tg =
    record_all-Tracks ts (record_tick t.at_time t.apps t.nodes m) key _ _
      (subst (λ r. Tracks (r key) (grown t.at_time false (sampled key (apps_of t)) h))
        (sym (record_apps-entries t.at_time t.apps (λ k. false) m.apps))
        (record_entries-Tracks t.at_time (apps_of t) (λ k. false) m.apps key h th))
      (subst (λ r. Tracks (r key) (grown t.at_time false (sampled key (nodes_of t)) g))
        (sym (record_nodes-entries t.at_time t.nodes (λ k. false) m.nodes))
        (record_entries-Tracks t.at_time (nodes_of t) (λ k. false) m.nodes key g tg))

samples_of-Tracks :
    (o : Option MetricRing) (h : Option (List MetricSample))
    → Tracks o h
    → samples_of o ≡ newest (so_far h)
samples_of-Tracks none none t = refl
samples_of-Tracks none (some l) t = absurd t
samples_of-Tracks (some r) none t = absurd t
samples_of-Tracks (some r) (some l) t = snapshot-Holds r l t

-- After any ticks of a new monitor, the chart of an app and the chart of a node show the last 120
-- samples of its history, or all of them where there are fewer, oldest first. The history starts
-- with the first tick that has metrics for it; each later tick adds its metrics, or a zero sample
-- where there are none.
pub charts-history :
    (ts : List Tick) (key : Bytes)
    → (app_samples (record_all ts new_monitor) key ≡ newest (so_far (history apps_of key ts none)))
      × (node_samples (record_all ts new_monitor) key
          ≡ newest (so_far (history nodes_of key ts none)))
unfolding app_samples node_samples
charts-history ts key =
    let (a, n) = record_all-Tracks ts new_monitor key none none tt tt in
    (samples_of-Tracks _ _ a, samples_of-Tracks _ _ n)
