-- ===== src/Monitor/Ring.antt =====
-- internal/server/monitor.go: `metricSample` and `metricRing`. The array is a function of its index.
use luncur.Common.{ℕ, suc, ◌+◌, ◌-◌, ◌%◌, List, ltb, ◌==◌, if◌then◌else◌, ℤ, pos}
use luncur.Common.Tabulate.{tabulate}

-- `monitorWindow`
abbrev pub monitor_window : ℕ
monitor_window = 120

pub record MetricSample : Type 0 where
  pub at_time : ℕ
  pub cpu_milli : ℤ
  pub memory_mib : ℤ

pub record MetricRing : Type 0 where
  pub buf : ℕ → MetricSample
  pub n : ℕ

-- The zero value.
abbrev pub zero_sample : MetricSample
zero_sample = record { at_time = 0; cpu_milli = pos 0; memory_mib = pos 0 }

abbrev pub zero_ring : MetricRing
zero_ring = record { buf = λ i. zero_sample; n = 0 }

-- `r.buf[i] = s`
abbrev pub set_index : ℕ → MetricSample → (ℕ → MetricSample) → ℕ → MetricSample
set_index i s buf j = if i == j then s else buf j

unfoldable pub add_sample : MetricSample → MetricRing → MetricRing
add_sample s r = record { buf = set_index (r.n % monitor_window) s r.buf; n = suc r.n }

-- `count` and, from it, the slice.
abbrev pub valid_count : ℕ → ℕ
valid_count n = if ltb monitor_window n then monitor_window else n

unfoldable pub snapshot : MetricRing → List MetricSample
snapshot r = tabulate (valid_count r.n) (λ i. r.buf ((r.n - valid_count r.n + i) % monitor_window))
