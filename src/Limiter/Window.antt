-- ===== src/Limiter/Window.antt =====
-- internal/server/ratelimit.go: `rateLimiter` and `allow`. Times are nanoseconds from the zero time;
-- the limit is not negative.
use luncur.Common.{ℕ, suc, ◌+◌, Bool, ltb, leb, ◌==◌, if◌then◌else◌, Bytes, update}

abbrev pub login_limit : ℕ
login_limit = 10

-- A minute.
abbrev pub login_window : ℕ
login_window = 60000000000

pub record RateLimiter : Type 0 where
  pub hits : Bytes → ℕ
  pub reset : ℕ
  pub limit : ℕ

abbrev pub new_rate_limiter : RateLimiter
new_rate_limiter = record { hits = λ ip. 0; reset = 0; limit = 0 }

-- The limit, 10 where it is 0.
abbrev pub limit_of : ℕ → ℕ
limit_of limit = if limit == 0 then login_limit else limit

-- `if n.After(l.reset) { … }`
abbrev pub rolled_over : ℕ → RateLimiter → RateLimiter
rolled_over now l =
    if ltb l.reset now
    then record { hits = λ ip. 0; reset = now + login_window; limit = l.limit }
    else l

abbrev pub counted : Bytes → RateLimiter → RateLimiter
counted ip l = record {
  hits = update l.hits ip (suc (l.hits ip));
  reset = l.reset;
  limit = l.limit;
}

-- Whether the hit is within the limit, and the state after it.
unfoldable pub allow : ℕ → Bytes → RateLimiter → Bool × RateLimiter
allow now ip l =
    let l' = counted ip (rolled_over now l) in (leb (l'.hits ip) (limit_of l'.limit), l')
