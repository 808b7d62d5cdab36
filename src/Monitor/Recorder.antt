-- ===== src/Monitor/Recorder.antt =====
-- internal/server/monitor.go: `monitor`, `record`, `appSamples` and `nodeSamples`. A map that is
-- only read and written by key is a function; the map of a tick's apps is an association list.
use luncur.Common.{
  ℕ, Bool, true, false, Option, none, some, List, [], ◌∷◌, if◌then◌else◌, Bytes, update, ℤ, pos,
}
use luncur.Monitor.Ring.{MetricSample, MetricRing, zero_ring, add_sample, snapshot}

-- kube.AppMetrics
pub record AppMetrics : Type 0 where
  pub cpu_milli : ℤ
  pub memory_mib : ℤ

-- The fields of kube.NodeInfo that are read.
pub record NodeInfo : Type 0 where
  pub name : Bytes
  pub metrics_ok : Bool
  pub cpu_milli : ℤ
  pub mem_mib : ℤ

abbrev pub Rings : Type 0
Rings = Bytes → Option MetricRing

pub record Monitor : Type 0 where
  pub apps : Rings
  pub nodes : Rings

abbrev pub new_monitor : Monitor
new_monitor = record { apps = λ key. none; nodes = λ name. none }

-- The ring under a key, made where there is none.
abbrev pub ring_or_new : Option MetricRing → MetricRing
ring_or_new none = zero_ring
ring_or_new (some r) = r

abbrev pub add_at : Bytes → MetricSample → Rings → Rings
add_at key s rings = update rings key (some (add_sample s (ring_or_new (rings key))))

abbrev pub add_if_there : MetricSample → Option MetricRing → Option MetricRing
add_if_there s none = none
add_if_there s (some r) = some (add_sample s r)

-- `for key, r := range rings { if !seen[key] { r.add(metricSample{At: at}) } }`
abbrev pub fill_unseen : ℕ → (Bytes → Bool) → Rings → Rings
fill_unseen at_time seen rings key =
    if seen key
    then rings key
    else add_if_there (record { at_time = at_time; cpu_milli = pos 0; memory_mib = pos 0 })
        (rings key)

abbrev pub app_sample : ℕ → AppMetrics → MetricSample
app_sample at_time am = record {
  at_time = at_time;
  cpu_milli = am.cpu_milli;
  memory_mib = am.memory_mib;
}

abbrev pub node_sample : ℕ → NodeInfo → MetricSample
node_sample at_time node = record {
  at_time = at_time;
  cpu_milli = node.cpu_milli;
  memory_mib = node.mem_mib;
}

-- The loop over the apps, with `seenApps`, and the loop over the rings after it.
unfoldable pub record_apps : ℕ → List (Bytes × AppMetrics) → (Bytes → Bool) → Rings → Rings
record_apps at_time [] seen rings = fill_unseen at_time seen rings
record_apps at_time ((key, am) ∷ apps) seen rings =
    record_apps at_time apps (update seen key true) (add_at key (app_sample at_time am) rings)

-- The same for the nodes: one without metrics is passed over.
unfoldable pub record_nodes : ℕ → List NodeInfo → (Bytes → Bool) → Rings → Rings
record_nodes at_time [] seen rings = fill_unseen at_time seen rings
record_nodes at_time (node ∷ nodes) seen rings =
    let seen' = if node.metrics_ok then update seen node.name true else seen in
    let rings' =
      if node.metrics_ok then add_at node.name (node_sample at_time node) rings else rings in
    record_nodes at_time nodes seen' rings'

unfoldable pub record_tick : ℕ → List (Bytes × AppMetrics) → List NodeInfo → Monitor → Monitor
record_tick at_time apps nodes m = record {
  apps = record_apps at_time apps (λ key. false) m.apps;
  nodes = record_nodes at_time nodes (λ name. false) m.nodes;
}

abbrev pub samples_of : Option MetricRing → List MetricSample
samples_of none = []
samples_of (some r) = snapshot r

unfoldable pub app_samples : Monitor → Bytes → List MetricSample
app_samples m key = samples_of (m.apps key)

unfoldable pub node_samples : Monitor → Bytes → List MetricSample
node_samples m name = samples_of (m.nodes name)
