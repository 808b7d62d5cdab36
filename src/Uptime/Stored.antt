-- ===== src/Uptime/Stored.antt =====
-- internal/store/uptime.go for one app: its row of uptime_checks, its samples and daily roll-ups, and
-- its incidents, newest first. Times are seconds since the epoch.
use luncur.Common.{
  ℕ, suc, ◌+◌, ◌/◌, Bool, true, false, not, ◌&&◌, Option, none, some, List, [], ◌∷◌, ◌==◌,
  if◌then◌else◌, Bytes,
}
use luncur.Common.Fallible.{Fallible, unless, right}

pub data CheckState : Type 0 where
  unknown up down : CheckState

pub record UptimeCheck : Type 0 where
  pub enabled : Bool
  pub external : Bool
  pub path : Bytes
  pub state : CheckState
  pub fail_streak : ℕ
  pub ok_streak : ℕ
  pub last_at : ℕ
  pub last_error : Bytes

abbrev pub default_uptime_check : UptimeCheck
default_uptime_check = record {
  enabled = true;
  external = false;
  path = [];
  state = unknown;
  fail_streak = 0;
  ok_streak = 0;
  last_at = 0;
  last_error = [];
}

abbrev pub get_uptime_check : Option UptimeCheck → UptimeCheck
get_uptime_check none = default_uptime_check
get_uptime_check (some c) = c

-- The user's fields of the row; the others keep their values, or start at the defaults.
abbrev pub with_config : Bool → Bool → Bytes → UptimeCheck → UptimeCheck
with_config enabled external path c = record c {
  enabled = enabled;
  external = external;
  path = path;
}

pub data UptimeError : Type 0 where
  path_without_slash : UptimeError

-- `path != "" && !strings.HasPrefix(path, "/")`
abbrev pub bad_path : Bytes → Bool
bad_path [] = false
bad_path (c ∷ path) = not (c == 47)

unfoldable pub set_uptime_config :
    Bool → Bool → Bytes → Option UptimeCheck → Fallible UptimeError (Option UptimeCheck)
set_uptime_config enabled external path row =
    unless (bad_path path) path_without_slash
      (right (some (with_config enabled external path (get_uptime_check row))))

-- The prober's fields of the row; the user's fields only where there is no row yet.
abbrev pub set_uptime_state : UptimeCheck → Option UptimeCheck → Option UptimeCheck
set_uptime_state c none = some c
set_uptime_state c (some row) =
    some (record c { enabled = row.enabled; external = row.external; path = row.path })

pub record UptimeSample : Type 0 where
  pub at_time : ℕ
  pub is_ok : Bool
  pub latency_ms : ℕ
  pub code : ℕ

-- A day's counts.
pub record DayCount : Type 0 where
  pub ok_count : ℕ
  pub total : ℕ

pub record Incident : Type 0 where
  pub is_open : Bool
  pub auto : Bool
  pub updates : List Bytes

pub record UptimeTables : Type 0 where
  pub row : Option UptimeCheck
  pub samples : List UptimeSample
  pub daily : ℕ → DayCount
  pub incidents : List Incident

-- The day of a time in UTC.
abbrev pub day_of : ℕ → ℕ
day_of at_time = at_time / 86400

abbrev pub counted_day : Bool → DayCount → DayCount
counted_day is_ok day = record {
  ok_count = day.ok_count + (if is_ok then 1 else 0);
  total = suc day.total;
}

unfoldable pub add_uptime_sample : UptimeSample → UptimeTables → UptimeTables
add_uptime_sample smp t = record t {
  samples = smp ∷ t.samples;
  daily =
      λ day. if day_of smp.at_time == day then counted_day smp.is_ok (t.daily day) else t.daily day;
}

-- `OpenIncident` by the prober, with its first update.
abbrev pub open_incident : Bytes → List Incident → List Incident
open_incident body incidents =
    record { is_open = true; auto = true; updates = body ∷ [] } ∷ incidents

abbrev pub resolved : Bytes → Incident → Incident
resolved body i = record { is_open = false; auto = i.auto; updates = body ∷ i.updates }

-- `OpenAutoIncident`, with the update and `ResolveIncident` on what it finds.
unfoldable pub resolve_auto : Bytes → List Incident → List Incident
resolve_auto body [] = []
resolve_auto body (i ∷ incidents) =
    let rest = resolve_auto body incidents in
    if i.auto && i.is_open then resolved body i ∷ incidents else i ∷ rest
