-- ===== src/Uptime/Probe.antt =====
-- internal/server/uptime.go: `recordUptime`, `uptimeDown` and `uptimeRecovered`. The text that says
-- how long an outage was is an argument.
use luncur.Common.{
  ℕ, suc, Bool, true, false, not, ◌&&◌, List, [], ◌∷◌, ◌++◌, leb, if◌then◌else◌, Bytes, codes,
}
use luncur.Uptime.Stored.{
  CheckState, UptimeCheck, set_uptime_state, UptimeSample, UptimeTables, add_uptime_sample,
  open_incident, resolve_auto, unknown, up, down,
}

abbrev pub uptime_down_after : ℕ
uptime_down_after = 3

abbrev pub uptime_recover_after : ℕ
uptime_recover_after = 2

pub record UptimeResult : Type 0 where
  pub is_ok : Bool
  pub code : ℕ
  pub latency_ms : ℕ
  pub error : Bytes

pub data UptimeEvent : Type 0 where
  app_down app_recovered : Bytes → UptimeEvent

-- The tables, and the notifications, newest first.
pub record UptimeWorld : Type 0 where
  pub tables : UptimeTables
  pub events : List UptimeEvent

abbrev pub reason_of : Bytes → Bytes
reason_of [] = codes "unreachable"
reason_of (c ∷ s) = c ∷ s

abbrev pub uptime_down : Bytes → UptimeWorld → UptimeWorld
uptime_down error w = record {
  tables = record w.tables {
    incidents =
        open_incident (codes "3 consecutive checks failed: " ++ reason_of error) w.tables.incidents;
  };
  events = app_down (reason_of error) ∷ w.events;
}

abbrev pub uptime_recovered : Bytes → UptimeWorld → UptimeWorld
uptime_recovered msg w = record {
  tables = record w.tables {
    incidents = resolve_auto (codes "Recovered: " ++ msg) w.tables.incidents;
  };
  events = app_recovered msg ∷ w.events;
}

abbrev pub is_down : CheckState → Bool
is_down unknown = false
is_down up = false
is_down down = true

-- The check after a pass and after a failure.
abbrev pub count_pass : ℕ → UptimeCheck → UptimeCheck
count_pass now c = record c {
  ok_streak = suc c.ok_streak;
  fail_streak = 0;
  last_at = now;
  last_error = [];
}

abbrev pub count_fail : ℕ → Bytes → UptimeCheck → UptimeCheck
count_fail now error c = record c {
  fail_streak = suc c.fail_streak;
  ok_streak = 0;
  last_at = now;
  last_error = error;
}

abbrev pub in_state : CheckState → UptimeCheck → UptimeCheck
in_state state c = record c { state = state }

-- The switch on a result: the check and the world after it.
abbrev pub step_passed : Bytes → UptimeCheck → UptimeWorld → UptimeCheck × UptimeWorld
step_passed msg c w =
    if not (is_down c.state)
    then (in_state up c, w)
    else (if leb uptime_recover_after c.ok_streak
        then (in_state up c, uptime_recovered msg w)
        else (c, w))

abbrev pub step_failed : Bytes → UptimeCheck → UptimeWorld → UptimeCheck × UptimeWorld
step_failed error c w =
    if not (is_down c.state) && leb uptime_down_after c.fail_streak
    then (in_state down c, uptime_down error w)
    else (c, w)

abbrev pub stepped :
    Bytes → ℕ → UptimeResult → UptimeCheck → UptimeWorld → UptimeCheck × UptimeWorld
stepped msg now r c w =
    if r.is_ok
    then step_passed msg (count_pass now c) w
    else step_failed r.error (count_fail now r.error c) w

abbrev pub sample_of : ℕ → UptimeResult → UptimeSample
sample_of now r = record {
  at_time = now;
  is_ok = r.is_ok;
  latency_ms = r.latency_ms;
  code = r.code;
}

abbrev pub saved : UptimeCheck × UptimeWorld → UptimeWorld
saved (c, w) = record w { tables = record w.tables { row = set_uptime_state c w.tables.row } }

-- `c` is the check that the round read.
unfoldable pub record_uptime : Bytes → ℕ → UptimeResult → UptimeCheck → UptimeWorld → UptimeWorld
record_uptime msg now r c w =
    saved (stepped msg now r c (record w { tables = add_uptime_sample (sample_of now r) w.tables }))
