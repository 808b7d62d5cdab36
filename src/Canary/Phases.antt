-- ===== src/Canary/Phases.antt =====
-- The phase of a deploy's rollout after each operation of the store and of the server.
use luncur.Common.{ℕ, ◌≡◌, refl, ap, ◌∙◌, ◌≢◌, Bool, Option, none, some, arith, Bytes}
use luncur.Canary.Rows.{set_row, map_row, find_row-set_row, find_row-set_row_ne}
use luncur.Canary.Deployments.{Reason}
use luncur.Canary.Rollouts.{
  Phase, Rollout, Rollouts, key, get_rollout, at_step, set_rollout_step, in_phase,
  set_rollout_phase, requested, probed, add_rollout_probe, stepping,
}
use luncur.Canary.World.{World}

-- The phase that is recorded for a deploy, if it has a rollout.
abbrev pub phase_of_row : Option Rollout → Option Phase
phase_of_row none = none
phase_of_row (some r) = some r.phase

abbrev pub phase_in : Rollouts → Bytes → Option Phase
phase_in rows id = phase_of_row (get_rollout rows id)

abbrev pub phase_of : World → Bytes → Option Phase
phase_of w id = phase_in w.rollouts id

-- The phase of a row that is read.
pub phase_in-some :
    (rows : Rollouts) (id : Bytes) (r : Rollout)
    → get_rollout rows id ≡ some r
    → phase_in rows id ≡ some r.phase
phase_in-some rows id r e = ap phase_of_row e

-- A deploy with a phase has a row.
pub row-phase_in :
    (rows : Rollouts) (id : Bytes) (p : Phase)
    → phase_in rows id ≡ some p
    → (r : Rollout) × (get_rollout rows id ≡ some r) × (r.phase ≡ p)
row-phase_in rows id p e = read (get_rollout rows id) e
  where
    read :
        (o : Option Rollout)
        → phase_of_row o ≡ some p
        → (r : Rollout) × (o ≡ some r) × (r.phase ≡ p)
    read none h = cc
    read (some r) h = (r, refl, cc)

pub get_rollout-set_rollout_phase :
    (id : Bytes) (p : Phase) (why : Option Reason) (now : ℕ) (rows : Rollouts)
    → get_rollout (set_rollout_phase id p why now rows) id
      ≡ map_row (in_phase p why now) (get_rollout rows id)
unfolding get_rollout set_rollout_phase
get_rollout-set_rollout_phase id p none now rows = find_row-set_row key _ (λ r. refl) id rows
get_rollout-set_rollout_phase id p (some why) now rows = find_row-set_row key _ (λ r. refl) id rows

pub get_rollout-set_rollout_step :
    (id : Bytes) (step weight now : ℕ) (rows : Rollouts)
    → get_rollout (set_rollout_step id step weight now rows) id
      ≡ map_row (at_step step weight now) (get_rollout rows id)
unfolding get_rollout set_rollout_step
get_rollout-set_rollout_step id step weight now rows =
    find_row-set_row key (at_step step weight now) (λ r. refl) id rows

pub get_rollout-add_rollout_probe :
    (id : Bytes) (ok : Bool) (now : ℕ) (rows : Rollouts)
    → get_rollout (add_rollout_probe id ok now rows) id
      ≡ map_row (probed ok now) (get_rollout rows id)
unfolding get_rollout add_rollout_probe
get_rollout-add_rollout_probe id ok now rows =
    find_row-set_row key (probed ok now) (λ r. refl) id rows

key-requested : (p : Phase) (now : ℕ) (r : Rollout) → key (requested p now r) ≡ key r
key-requested p now r = ground arith

pub get_rollout-request :
    (id : Bytes) (p : Phase) (now : ℕ) (rows : Rollouts)
    → get_rollout (set_row key id (requested p now) rows) id
      ≡ map_row (requested p now) (get_rollout rows id)
unfolding get_rollout
get_rollout-request id p now rows =
    find_row-set_row key (requested p now) (key-requested p now) id rows

pub get_rollout-request_ne :
    (id other : Bytes) (p : Phase) (now : ℕ) (rows : Rollouts)
    → id ≢ other
    → get_rollout (set_row key id (requested p now) rows) other ≡ get_rollout rows other
unfolding get_rollout
get_rollout-request_ne id other p now rows h =
    find_row-set_row_ne key (requested p now) (key-requested p now) id other rows h

in_phase-phase :
    (p : Phase) (why : Option Reason) (now : ℕ) (r : Rollout)
    → phase_of_row (some (in_phase p why now r)) ≡ some p
in_phase-phase p none now r = refl
in_phase-phase p (some why) now r = refl

-- Where a rollout is recorded, its phase is the one that is set.
pub phase_in-set_rollout_phase :
    (id : Bytes) (p : Phase) (why : Option Reason) (now : ℕ) (rows : Rollouts) (q : Phase)
    → phase_in rows id ≡ some q
    → phase_in (set_rollout_phase id p why now rows) id ≡ some p
phase_in-set_rollout_phase id p why now rows q h =
    let (r, e, _) = row-phase_in rows id q h in
    ap phase_of_row
      (get_rollout-set_rollout_phase id p why now rows ∙ ap (map_row (in_phase p why now)) e)
    ∙ in_phase-phase p why now r

pub phase_in-set_rollout_step :
    (id : Bytes) (step weight now : ℕ) (rows : Rollouts) (q : Phase)
    → phase_in rows id ≡ some q
    → phase_in (set_rollout_step id step weight now rows) id ≡ some stepping
phase_in-set_rollout_step id step weight now rows q h =
    let (r, e, _) = row-phase_in rows id q h in
    phase_in-some (set_rollout_step id step weight now rows) id (at_step step weight now r) (
      get_rollout-set_rollout_step id step weight now rows
      ∙ ap (map_row (at_step step weight now)) e)
