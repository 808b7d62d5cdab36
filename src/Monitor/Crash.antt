-- ===== src/Monitor/Crash.antt =====
-- internal/server/monitor.go: `crashLoopCheck`. Times are natural numbers; restart counts are not
-- negative.
use luncur.Common.{
  ℕ, ◌+◌, ◌-◌, Bool, true, false, not, ◌||◌, Option, none, some, ltb, leb, if◌then◌else◌, Bytes,
  update, ℤ, ltb_ℤ, pos, negsuc,
}

pub record CrashState : Type 0 where
  pub restarts : Bytes → Option ℕ
  pub last_alert : Bytes → Option ℕ

abbrev pub new_crash_state : CrashState
new_crash_state = record { restarts = λ key. none; last_alert = λ key. none }

-- `count - prev`, where a missing key reads as 0
abbrev pub restart_delta : Option ℕ → ℕ → ℤ
restart_delta none count = pos count
restart_delta (some prev) count =
    if leb prev count then pos (count - prev) else negsuc (prev - count - 1)

abbrev pub is_some {ℓ} : {A : Type ℓ} → Option A → Bool
is_some none = false
is_some (some a) = true

-- `ok && now.Sub(last) < cooldown`
abbrev pub cooling_down : Option ℕ → ℕ → ℕ → Bool
cooling_down none now cooldown = false
cooling_down (some last) now cooldown = ltb now (last + cooldown)

-- The delta and whether to alert, with the state after the check.
unfoldable pub crash_loop_check : ℕ → Bytes → ℕ → ℕ → CrashState → ℤ × Bool × CrashState
crash_loop_check now key count cooldown m =
    let delta = restart_delta (m.restarts key) count in
    let counted : CrashState = record m { restarts = update m.restarts key (some count) } in
    if not (is_some (m.restarts key)) || ltb_ℤ delta (pos 3)
    then (delta, false, counted)
    else if cooling_down (m.last_alert key) now cooldown
    then (delta, false, counted)
    else (delta, true, record counted { last_alert = update m.last_alert key (some now) })
