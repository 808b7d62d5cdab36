-- ===== src/Limiter/Burst.antt =====
-- How many attempts `allow` (internal/server/ratelimit.go) lets through.
use luncur.Common.{
  ℕ, suc, ◌+◌, ◌-◌, ◌*◌, ◌≤◌, ◌<◌, ◌≡◌, refl, ap, inl, inr, Bool, true, false, ◌&&◌, List, [], ◌∷◌,
  arith, ltb, leb, if◌then◌else◌, Bool-cases, All, Bytes, str_eq, str_eq_refl, str_eq_cases,
}
use luncur.Limiter.Window.{login_window, RateLimiter, limit_of, rolled_over, counted, allow}

-- An attempt: its time and its address.
pub record Attempt : Type 0 where
  pub now : ℕ
  pub ip : Bytes

-- The number of attempts of an address that are allowed.
abbrev pub allowed : Bytes → List Attempt → RateLimiter → ℕ
allowed ip [] l = 0
allowed ip (a ∷ attempts) l =
    let answer = allow a.now a.ip l in
    let rest = allowed ip attempts answer.1 in if answer.0 && str_eq a.ip ip then suc rest else rest

abbrev pub Within : ℕ → ℕ → Attempt → Type 0
Within from to a = (from ≤ a.now) × (a.now ≤ to)

-- The attempts that the limit leaves an address in this window.
abbrev pub remaining : Bytes → RateLimiter → ℕ
remaining ip l = limit_of l.limit - l.hits ip

-- 1 if the attempt is one of the address that is allowed.
abbrev pub hit : Bytes → Bytes → Bool → ℕ
hit ip other ok = if ok && str_eq other ip then 1 else 0

counted_hit :
    (ip other : Bytes) (l : RateLimiter)
    → hit ip other (leb ((counted other l).hits other) (limit_of l.limit))
        + remaining ip (counted other l)
      ≤ remaining ip l
counted_hit ip other l = elim (str_eq_cases other ip) [
  | inl (e, same) ↦
      let same_hits : l.hits other ≡ l.hits ip = ap l.hits same in
      rw (e, str_eq_refl) (ground (arith, same_hits))
  | inr (e, ne) ↦ rw (e, str_eq_refl) (ground arith)
]

allowed-cons :
    (ip : Bytes) (a : Attempt) (attempts : List Attempt) (l : RateLimiter)
    → allowed ip (a ∷ attempts) l
      ≡ hit ip a.ip (allow a.now a.ip l).0 + allowed ip attempts (allow a.now a.ip l).1
allowed-cons ip a attempts l = elim (Bool-cases ((allow a.now a.ip l).0 && str_eq a.ip ip)) [
  | inl e ↦ rw e (omega arith)
  | inr e ↦ rw e (omega arith)
]

pub stays : (now : ℕ) (l : RateLimiter) → now ≤ l.reset → rolled_over now l ≡ l
stays now l le = let test : ltb l.reset now ≡ false = ground arith in rw test refl

pub rolls :
    (now : ℕ) (l : RateLimiter)
    → l.reset < now
    → rolled_over now l ≡ record { hits = λ ip. 0; reset = now + login_window; limit = l.limit }
rolls now l lt = let test : ltb l.reset now ≡ true = ground arith in rw test refl

-- An attempt, by the state that it finds once the window is looked at.
pub allow_from :
    (ip : Bytes) (a : Attempt) (l found : RateLimiter)
    → rolled_over a.now l ≡ found
    → ((allow a.now a.ip l).1.reset ≡ found.reset)
      × ((allow a.now a.ip l).1.limit ≡ found.limit)
      × (hit ip a.ip (allow a.now a.ip l).0 + remaining ip (allow a.now a.ip l).1
          ≤ remaining ip found)
unfolding allow
allow_from ip a l found e = rw e (refl, refl, counted_hit ip a.ip found)

-- Until the window ends.
allowed_le_remaining :
    (ip : Bytes) (attempts : List Attempt) (l : RateLimiter) (from to : ℕ)
    → All (Within from to) attempts
    → to ≤ l.reset
    → allowed ip attempts l ≤ remaining ip l
allowed_le_remaining ip [] l from to h le = omega arith
allowed_le_remaining ip (a ∷ attempts) l from to ((_, in_window), h) le =
    let (reset, limit, spent) = allow_from ip a l l (stays a.now l (omega arith)) in
    let ih =
      allowed_le_remaining ip attempts (allow a.now a.ip l).1 from to h (omega (arith, reset)) in
    omega (arith, allowed-cons ip a attempts l, spent, ih)

allowed_le :
    (ip : Bytes) (attempts : List Attempt) (l : RateLimiter) (from : ℕ)
    → All (Within from (from + login_window)) attempts
    → allowed ip attempts l ≤ remaining ip l + limit_of l.limit
allowed_le ip [] l from h = omega arith
allowed_le ip (a ∷ attempts) l from ((late, early), h) = elim (Bool-cases (ltb l.reset a.now)) [
  | inl e ↦
      let (reset, limit, spent) = allow_from ip a l _ (rolls a.now l (ground arith)) in
      let ih =
        allowed_le_remaining ip attempts (allow a.now a.ip l).1 from (from + login_window) h
          (omega (arith, reset)) in
      omega (arith, allowed-cons ip a attempts l, spent, ih)
  | inr e ↦
      let (reset, limit, spent) = allow_from ip a l l (stays a.now l (ground arith)) in
      let ih = allowed_le ip attempts (allow a.now a.ip l).1 from h in
      let same : limit_of (allow a.now a.ip l).1.limit ≡ limit_of l.limit = ap limit_of limit in
      omega (arith, allowed-cons ip a attempts l, spent, ih, same)
]

-- Of all attempts within a minute, at whatever times of it and in whatever state the limiter is, at
-- most twice the limit are allowed to one address.
pub allowed_le_twice :
    (ip : Bytes) (attempts : List Attempt) (l : RateLimiter) (from : ℕ)
    → All (Within from (from + login_window)) attempts
    → allowed ip attempts l ≤ 2 * limit_of l.limit
allowed_le_twice ip attempts l from h = omega (arith, allowed_le ip attempts l from h)
