-- ===== src/Monitor/Alerts.antt =====
-- The alerts that `crashLoopCheck` (internal/server/monitor.go) lets through.
use luncur.Common.{
  ℕ, ◌+◌, ◌≤◌, ◌≡◌, refl, ap, ◌∙◌, subst, ◌⊎◌, inl, inr, true, false, not, ◌&&◌, ◌||◌, Option, none,
  some, List, [], ◌∷◌, arith, if◌then◌else◌, Bool-cases, Bytes, str_eq, str_eq_cases, update, ltb_ℤ,
  pos,
}
use luncur.Monitor.Crash.{
  CrashState, new_crash_state, restart_delta, is_some, cooling_down, crash_loop_check,
}

-- A check of an app: the time, the app and its restart count.
pub record Check : Type 0 where
  pub now : ℕ
  pub key : Bytes
  pub count : ℕ

-- The times at which the checks alert for an app, in their order.
abbrev pub alert_times : Bytes → ℕ → List Check → CrashState → List ℕ
alert_times key cooldown [] m = []
alert_times key cooldown (c ∷ cs) m =
    let answer = crash_loop_check c.now c.key c.count cooldown m in
    let rest = alert_times key cooldown cs answer.2 in
    if answer.1 && str_eq c.key key then c.now ∷ rest else rest

abbrev pub Cooled : ℕ → Option ℕ → ℕ → Type 0
Cooled cooldown none t = Unit {0}
Cooled cooldown (some last) t = last + cooldown ≤ t

-- Each time is at least the cooldown after the one before it.
abbrev pub Spaced : ℕ → Option ℕ → List ℕ → Type 0
Spaced cooldown last [] = Unit {0}
Spaced cooldown last (t ∷ ts) = Cooled cooldown last t × Spaced cooldown (some t) ts

cooling_down-Cooled :
    (last : Option ℕ) (now cooldown : ℕ)
    → cooling_down last now cooldown ≡ false
    → Cooled cooldown last now
cooling_down-Cooled none now cooldown h = tt
cooling_down-Cooled (some last) now cooldown h = ground arith

crash_loop_check-cases :
    (now : ℕ) (key : Bytes) (count cooldown : ℕ) (m : CrashState)
    → let answer = crash_loop_check now key count cooldown m in
      ((answer.1 ≡ false) × (answer.2.last_alert ≡ m.last_alert))
      ⊎ ((answer.1 ≡ true)
          × (answer.2.last_alert ≡ update m.last_alert key (some now))
          × Cooled cooldown (m.last_alert key) now)
unfolding crash_loop_check
crash_loop_check-cases now key count cooldown m =
    elim (Bool-cases
      (not (is_some (m.restarts key)) || ltb_ℤ (restart_delta (m.restarts key) count) (pos 3))) [
        | inl e ↦ inl (rw e refl, rw e refl)
        | inr e ↦ elim (Bool-cases (cooling_down (m.last_alert key) now cooldown)) [
          | inl c ↦ inl (rw (e, c) refl, rw (e, c) refl)
          | inr c ↦ inr (rw (e, c) refl, rw (e, c) refl, cooling_down-Cooled _ now cooldown c)
        ]
      ]

alert_times-Spaced_from :
    (key : Bytes) (cooldown : ℕ) (cs : List Check) (m : CrashState)
    → Spaced cooldown (m.last_alert key) (alert_times key cooldown cs m)
alert_times-Spaced_from key cooldown [] m = tt
alert_times-Spaced_from key cooldown (c ∷ cs) m =
    let answer = crash_loop_check c.now c.key c.count cooldown m in
    let ih = alert_times-Spaced_from key cooldown cs answer.2 in
    elim (crash_loop_check-cases c.now c.key c.count cooldown m) [
      | inl (e, kept) ↦
          rw e (subst (λ l. Spaced cooldown (l key) (alert_times key cooldown cs answer.2)) kept ih)
      | inr (e, set, cooled) ↦ elim (str_eq_cases c.key key) [
        | inl (f, same) ↦
            rw (e, f)
              (
                subst (λ k. Cooled cooldown (m.last_alert k) c.now) same cooled,
                subst (λ l. Spaced cooldown l (alert_times key cooldown cs answer.2))
                    (ap (λ l. l key) set ∙ ap (λ b. if b then some c.now else m.last_alert key) f)
                    ih,
              )
        | inr (f, other) ↦
            rw (e, f)
              (subst (λ l. Spaced cooldown l (alert_times key cooldown cs answer.2))
                (ap (λ l. l key) set ∙ ap (λ b. if b then some c.now else m.last_alert key) f) ih)
      ]
    ]

-- Whatever restart counts are checked at whatever times, two alerts for the same app are at least
-- the cooldown apart.
pub alert_times-Spaced :
    (key : Bytes) (cooldown : ℕ) (cs : List Check)
    → Spaced cooldown none (alert_times key cooldown cs new_crash_state)
alert_times-Spaced key cooldown cs = alert_times-Spaced_from key cooldown cs new_crash_state
