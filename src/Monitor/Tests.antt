-- ===== src/Monitor/Tests.antt =====
-- The monitor at concrete ticks and checks.
use luncur.Common.{◌≡◌, refl, none, List, [], ◌∷◌, length, replicate, Bytes, codes, str_eq, pos}
use luncur.Monitor.Ring.{zero_sample, zero_ring, snapshot}
use luncur.Monitor.Recent.{newest, add_all, snapshot-newest}
use luncur.Monitor.Recorder.{AppMetrics, new_monitor, app_samples, node_samples}
use luncur.Monitor.Charts.{so_far, Tick, record_all, history, apps_of, nodes_of, charts-history}
use luncur.Monitor.Crash.{new_crash_state, crash_loop_check}
use luncur.Monitor.Alerts.{Check, alert_times, Spaced, alert_times-Spaced}

abbrev web : Bytes
web = codes "luncur-shop/web"

abbrev usage : AppMetrics
usage = record { cpu_milli = pos 20; memory_mib = pos 64 }

-- The app is there in the first tick and gone in the second.
abbrev ticks : List Tick
ticks =
    record { at_time = 15; apps = (web, usage) ∷ []; nodes = [] }
    ∷ record { at_time = 30; apps = []; nodes = [] }
    ∷ []

charts-history_example :
    (app_samples (record_all ticks new_monitor) web
      ≡ newest (so_far (history apps_of web ticks none)))
    × (node_samples (record_all ticks new_monitor) web
        ≡ newest (so_far (history nodes_of web ticks none)))
charts-history_example = charts-history ticks web

two_points : length (newest (so_far (history apps_of web ticks none))) ≡ 2
unfolding str_eq
two_points = refl

-- The newest of 121 samples are 120.
snapshot-newest_example :
    snapshot (add_all (replicate 121 zero_sample) zero_ring) ≡ newest (replicate 121 zero_sample)
snapshot-newest_example = snapshot-newest (replicate 121 zero_sample)

abbrev crashes : List Check
crashes =
    record { now = 10; key = web; count = 0 }
    ∷ record { now = 20; key = web; count = 5 }
    ∷ record { now = 30; key = web; count = 10 }
    ∷ record { now = 60; key = web; count = 15 }
    ∷ []

alert_times-Spaced_example : Spaced 30 none (alert_times web 30 crashes new_crash_state)
alert_times-Spaced_example = alert_times-Spaced web 30 crashes

two_alerts : alert_times web 30 crashes new_crash_state ≡ 20 ∷ 60 ∷ []
unfolding crash_loop_check str_eq
two_alerts = refl
