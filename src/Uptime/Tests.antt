-- ===== src/Uptime/Tests.antt =====
-- An outage.
use luncur.Common.{◌≡◌, refl, true, false, List, [], ◌∷◌, codes}
use luncur.Uptime.Stored.{set_uptime_config, add_uptime_sample}
use luncur.Uptime.Probe.{record_uptime, app_down}
use luncur.Uptime.Outages.{
  outage, check_of, Agrees, Round, after_rounds, results, after_rounds-Agrees, probe, configure,
}

abbrev refused : Round
refused = probe [] 60 (record { is_ok = false; code = 0; latency_ms = 5; error = codes "refused" })

abbrev answered : Round
answered = probe [] 90 (record { is_ok = true; code = 200; latency_ms = 5; error = [] })

-- Three failures with a change of the path between them, and then one pass.
abbrev rounds : List Round
rounds = answered ∷ refused ∷ configure true false (codes "/up") ∷ refused ∷ refused ∷ answered ∷ []

after_rounds-Agrees_example :
    Agrees (results rounds) (check_of (after_rounds rounds)) (after_rounds rounds)
after_rounds-Agrees_example = after_rounds-Agrees rounds

is_out : outage (results rounds) ≡ true
is_out = refl

told_once : (after_rounds rounds).events ≡ app_down (codes "refused") ∷ []
unfolding record_uptime add_uptime_sample set_uptime_config
told_once = refl
