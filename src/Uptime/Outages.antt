-- ===== src/Uptime/Outages.antt =====
-- The up and down states of `recordUptime` (internal/server/uptime.go) against the results of all
-- probes, newest first.
use luncur.Common.{
  ℕ, suc, ◌-◌, ◌≡◌, refl, sym, ap, ◌∙◌, subst, inl, inr, Bool, true, false, not, ◌&&◌, ◌||◌, Option,
  none, some, List, [], ◌∷◌, ◌++◌, map, arith, leb, if◌then◌else◌, Bool-cases, Bytes, codes,
}
use luncur.Common.Fallible.{Fallible, wrong, right}
use luncur.Uptime.Stored.{
  UptimeCheck, get_uptime_check, UptimeError, bad_path, set_uptime_config, set_uptime_state,
  UptimeSample, Incident, add_uptime_sample, resolved, resolve_auto,
}
use luncur.Uptime.Probe.{
  UptimeResult, UptimeWorld, is_down, count_pass, count_fail, step_passed, step_failed, sample_of,
  saved, record_uptime,
}

-- How many failures, or passes, there were since the last pass, or failure.
abbrev pub fails : List Bool → ℕ
fails [] = 0
fails (true ∷ h) = 0
fails (false ∷ h) = suc (fails h)

abbrev pub passes : List Bool → ℕ
passes [] = 0
passes (true ∷ h) = suc (passes h)
passes (false ∷ h) = 0

-- An outage starts with the third failure in a row, and ends with the second pass in a row.
abbrev pub outage : List Bool → Bool
outage [] = false
outage (true ∷ h) = outage h && not (leb 2 (passes (true ∷ h)))
outage (false ∷ h) = outage h || leb 3 (fails (false ∷ h))

-- The incidents that the prober opened and that are still open.
abbrev pub open_count : List Incident → ℕ
open_count [] = 0
open_count (i ∷ incidents) =
    let rest = open_count incidents in if i.auto && i.is_open then suc rest else rest

abbrev pub check_of : UptimeWorld → UptimeCheck
check_of w = get_uptime_check w.tables.row

-- A check and a world that agree with the results.
pub record Agrees (h : List Bool) (c : UptimeCheck) (w : UptimeWorld) : Type 0 where
  pub fail_streak : c.fail_streak ≡ fails h
  pub ok_streak : c.ok_streak ≡ passes h
  pub down : is_down c.state ≡ outage h
  pub incidents : open_count w.tables.incidents ≡ (if outage h then 1 else 0)
  pub samples : map (λ s. s.is_ok) w.tables.samples ≡ h

-- A probe's outcome, or a change of the user's settings.
pub data Round : Type 0 where
  probe : Bytes → ℕ → UptimeResult → Round
  configure : Bool → Bool → Bytes → Round

abbrev pub with_row : UptimeWorld → Option UptimeCheck → UptimeWorld
with_row w row = record w { tables = record w.tables { row = row } }

abbrev pub configured : UptimeWorld → Fallible UptimeError (Option UptimeCheck) → UptimeWorld
configured w (wrong e) = w
configured w (right row) = with_row w row

abbrev pub empty_world : UptimeWorld
empty_world = record {
  tables = record {
    row = none;
    samples = [];
    daily = λ day. record { ok_count = 0; total = 0 };
    incidents = [];
  };
  events = [];
}

-- The world after the rounds, of which the first is the newest.
abbrev pub after_rounds : List Round → UptimeWorld
after_rounds [] = empty_world
after_rounds (probe msg now r ∷ rounds) =
    let w = after_rounds rounds in record_uptime msg now r (check_of w) w
after_rounds (configure enabled external path ∷ rounds) =
    let w = after_rounds rounds in
    configured w (set_uptime_config enabled external path w.tables.row)

abbrev pub results : List Round → List Bool
results [] = []
results (probe msg now r ∷ rounds) = r.is_ok ∷ results rounds
results (configure enabled external path ∷ rounds) = results rounds

resolve_auto-open_count :
    (body : Bytes) (incidents : List Incident)
    → open_count (resolve_auto body incidents) ≡ open_count incidents - 1
unfolding resolve_auto
resolve_auto-open_count body [] = omega arith
resolve_auto-open_count body (i ∷ incidents) = elim (Bool-cases (i.auto && i.is_open)) [
  | inl e ↦ let closed : i.auto && false ≡ false = ground arith in rw (e, closed) (omega arith)
  | inr e ↦ kept (resolve_auto body incidents) e (resolve_auto-open_count body incidents)
]
  where
    kept :
        (rest : List Incident)
        → i.auto && i.is_open ≡ false
        → open_count rest ≡ open_count incidents - 1
        → open_count (if i.auto && i.is_open then resolved body i ∷ incidents else i ∷ rest)
          ≡ open_count (i ∷ incidents) - 1
    kept rest e ih = rw (e, e) ih

saved_check :
    (c : UptimeCheck) (row : Option UptimeCheck)
    → let d = get_uptime_check (set_uptime_state c row) in
      (d.fail_streak ≡ c.fail_streak) × (d.ok_streak ≡ c.ok_streak) × (d.state ≡ c.state)
saved_check c none = (refl, refl, refl)
saved_check c (some row) = (refl, refl, refl)

saved-Agrees :
    (h : List Bool) (c : UptimeCheck) (w : UptimeWorld)
    → Agrees h c w
    → Agrees h (check_of (saved (c, w))) (saved (c, w))
saved-Agrees h c w a =
    let (fail, ok, state) = saved_check c w.tables.row in
    record {
      fail_streak = fail ∙ a.fail_streak;
      ok_streak = ok ∙ a.ok_streak;
      down = ap is_down state ∙ a.down;
      incidents = a.incidents;
      samples = a.samples;
    }

step_passed-Agrees :
    (msg : Bytes) (now : ℕ) (h : List Bool) (c : UptimeCheck) (w : UptimeWorld)
    → Agrees h c w
    → (s : UptimeSample) → s.is_ok ≡ true
    → let p =
        step_passed msg (count_pass now c) (record w { tables = add_uptime_sample s w.tables }) in
      Agrees (true ∷ h) p.0 p.1
unfolding add_uptime_sample
step_passed-Agrees msg now h c w a s is_ok =
    let added : s.is_ok ∷ map (λ x. x.is_ok) w.tables.samples ≡ true ∷ h =
      ap (λ b. b ∷ map (λ x. x.is_ok) w.tables.samples) is_ok ∙ ap (λ l. true ∷ l) a.samples in
    let count = a.incidents in
    let streak = a.ok_streak in
    elim (Bool-cases (is_down c.state)) [
      | inl e ↦
          let out : outage h ≡ true = sym a.down ∙ e in
          elim (Bool-cases (leb 2 (suc c.ok_streak))) [
            | inl f ↦
                let over : outage (true ∷ h) ≡ false = ground (arith, streak, f) in
                let fewer =
                  resolve_auto-open_count (codes "Recovered: " ++ msg) w.tables.incidents in
                rw (e, f)
                  (record {
                    fail_streak = refl;
                    ok_streak = ap suc streak;
                    down = sym over;
                    incidents = ground (arith, fewer, count, out, over);
                    samples = added;
                  })
            | inr f ↦
                let still : outage (true ∷ h) ≡ true = ground (arith, streak, f, out) in
                rw (e, f)
                  (record {
                    fail_streak = refl;
                    ok_streak = ap suc streak;
                    down = e ∙ sym still;
                    incidents = ground (arith, count, out, still);
                    samples = added;
                  })
          ]
      | inr e ↦
          let calm : outage h ≡ false = sym a.down ∙ e in
          let still : outage (true ∷ h) ≡ false = ground (arith, calm) in
          rw e (record {
            fail_streak = refl;
            ok_streak = ap suc streak;
            down = sym still;
            incidents = ground (arith, count, calm, still);
            samples = added;
          })
    ]

step_failed-Agrees :
    (error : Bytes) (now : ℕ) (h : List Bool) (c : UptimeCheck) (w : UptimeWorld)
    → Agrees h c w
    → (s : UptimeSample) → s.is_ok ≡ false
    → let p =
        step_failed error
          (count_fail now error c)
          (record w { tables = add_uptime_sample s w.tables }) in
      Agrees (false ∷ h) p.0 p.1
unfolding add_uptime_sample
step_failed-Agrees error now h c w a s not_ok =
    let added : s.is_ok ∷ map (λ x. x.is_ok) w.tables.samples ≡ false ∷ h =
      ap (λ b. b ∷ map (λ x. x.is_ok) w.tables.samples) not_ok ∙ ap (λ l. false ∷ l) a.samples in
    let count = a.incidents in
    let streak = a.fail_streak in
    elim (Bool-cases (not (is_down c.state) && leb 3 (suc c.fail_streak))) [
      | inl e ↦
          let calm : is_down c.state ≡ false = ground (arith, e) in
          let before : outage h ≡ false = sym a.down ∙ calm in
          let starts : outage (false ∷ h) ≡ true = ground (arith, streak, e) in
          rw e (record {
            fail_streak = ap suc streak;
            ok_streak = refl;
            down = sym starts;
            incidents = ground (arith, count, before, starts);
            samples = added;
          })
      | inr e ↦
          let same : outage (false ∷ h) ≡ outage h = ground (arith, streak, e, a.down) in
          rw e (record {
            fail_streak = ap suc streak;
            ok_streak = refl;
            down = a.down ∙ sym same;
            incidents = ground (arith, count, same);
            samples = added;
          })
    ]

record_uptime-Agrees :
    (msg : Bytes) (now : ℕ) (r : UptimeResult) (h : List Bool) (w : UptimeWorld)
    → Agrees h (check_of w) w
    → let w' = record_uptime msg now r (check_of w) w in Agrees (r.is_ok ∷ h) (check_of w') w'
unfolding record_uptime
record_uptime-Agrees msg now r h w a =
    let world : UptimeWorld = record w { tables = add_uptime_sample (sample_of now r) w.tables } in
    let pass = step_passed msg (count_pass now (check_of w)) world in
    let fail = step_failed r.error (count_fail now r.error (check_of w)) world in
    saved-Agrees (r.is_ok ∷ h) (if r.is_ok then pass else fail).0 (if r.is_ok then pass else fail).1
      (elim (Bool-cases r.is_ok) [
        | inl e ↦
            subst (λ b. Agrees (b ∷ h) (if b then pass else fail).0 (if b then pass else fail).1)
              (sym e) (step_passed-Agrees msg now h (check_of w) w a (sample_of now r) e)
        | inr e ↦
            subst (λ b. Agrees (b ∷ h) (if b then pass else fail).0 (if b then pass else fail).1)
              (sym e) (step_failed-Agrees r.error now h (check_of w) w a (sample_of now r) e)
      ])

configured-Agrees :
    (enabled external : Bool) (path : Bytes) (h : List Bool) (w : UptimeWorld)
    → Agrees h (check_of w) w
    → let w' = configured w (set_uptime_config enabled external path w.tables.row) in
      Agrees h (check_of w') w'
unfolding set_uptime_config
configured-Agrees enabled external path h w a = elim (Bool-cases (bad_path path)) [
  | inl e ↦ rw e a
  | inr e ↦ rw e (record {
    fail_streak = a.fail_streak;
    ok_streak = a.ok_streak;
    down = a.down;
    incidents = a.incidents;
    samples = a.samples;
  })
]

-- After any probes and any changes of the settings between them, the check is down exactly if
-- three probes in a row failed and no two in a row passed since; the prober has one open incident
-- then, and else none; and the samples are the results of the probes.
pub after_rounds-Agrees :
    (rounds : List Round)
    → Agrees (results rounds) (check_of (after_rounds rounds)) (after_rounds rounds)
after_rounds-Agrees [] = record {
  fail_streak = refl;
  ok_streak = refl;
  down = refl;
  incidents = refl;
  samples = refl;
}
after_rounds-Agrees (probe msg now r ∷ rounds) =
    record_uptime-Agrees msg now r (results rounds) (after_rounds rounds)
      (after_rounds-Agrees rounds)
after_rounds-Agrees (configure enabled external path ∷ rounds) =
    configured-Agrees enabled external path (results rounds) (after_rounds rounds)
      (after_rounds-Agrees rounds)
