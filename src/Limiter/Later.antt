-- ===== src/Limiter/Later.antt =====
-- An attempt that comes a minute after all others (internal/server/ratelimit.go).
use luncur.Common.{
  ℕ, ◌+◌, ◌≤◌, ◌<◌, ◌≡◌, inl, inr, true, List, [], ◌∷◌, arith, ltb, Bool-cases, All, Bytes,
  str_eq_refl,
}
use luncur.Limiter.Window.{login_window, RateLimiter, new_rate_limiter, limit_of, allow}
use luncur.Limiter.Burst.{Attempt, Within, stays, rolls, allow_from}

abbrev pub after_attempts : List Attempt → RateLimiter → RateLimiter
after_attempts [] l = l
after_attempts (a ∷ attempts) l = after_attempts attempts (allow a.now a.ip l).1

reset_le :
    (attempts : List Attempt) (l : RateLimiter) (last : ℕ)
    → All (Within 0 last) attempts
    → l.reset ≤ last + login_window
    → (after_attempts attempts l).reset ≤ last + login_window
reset_le [] l last h le = le
reset_le (a ∷ attempts) l last ((_, before), h) le =
    reset_le attempts (allow a.now a.ip l).1 last h (elim (Bool-cases (ltb l.reset a.now)) [
      | inl e ↦
          let (reset, _, _) = allow_from a.ip a l _ (rolls a.now l (ground arith)) in
          omega (arith, reset)
      | inr e ↦
          let (reset, _, _) = allow_from a.ip a l l (stays a.now l (ground arith)) in
          omega (arith, reset)
    ])

one_le_limit_of : (limit : ℕ) → 1 ≤ limit_of limit
one_le_limit_of limit = ground arith

allow-rolled : (now : ℕ) (ip : Bytes) (l : RateLimiter) → l.reset < now → (allow now ip l).0 ≡ true
unfolding allow
allow-rolled now ip l lt =
    let one = one_le_limit_of l.limit in rw (rolls now l lt, str_eq_refl) (ground arith)

-- However many attempts were made by a time, an attempt more than a minute after that time is
-- allowed, whatever its address.
pub allow-later :
    (limit : ℕ) (attempts : List Attempt) (last now : ℕ) (ip : Bytes)
    → All (Within 0 last) attempts
    → last + login_window < now
    → (allow now ip (after_attempts attempts (record new_rate_limiter { limit = limit }))).0 ≡ true
allow-later limit attempts last now ip h lt =
    let l : RateLimiter = record new_rate_limiter { limit = limit } in
    let le = reset_le attempts l last h (omega arith) in
    allow-rolled now ip (after_attempts attempts l) (omega arith)
