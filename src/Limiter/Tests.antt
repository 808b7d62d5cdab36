-- ===== src/Limiter/Tests.antt =====
-- The theorems on the limiter at concrete attempts.
use luncur.Common.{◌+◌, ◌*◌, ◌≤◌, ◌≡◌, refl, true, List, [], ◌∷◌, arith, All, Bytes, codes, str_eq}
use luncur.Limiter.Window.{login_window, RateLimiter, new_rate_limiter, limit_of, allow}
use luncur.Limiter.Burst.{Attempt, allowed, Within, allowed_le_twice}
use luncur.Limiter.Later.{after_attempts, allow-later}

-- A limiter of one attempt.
abbrev strict : RateLimiter
strict = record new_rate_limiter { limit = 1 }

abbrev from : Bytes
from = codes "10.0.0.7"

-- Two windows meet in a minute.
abbrev opened : RateLimiter
opened = record { hits = λ ip. 0; reset = 60000000000; limit = 1 }

abbrev at_once : List Attempt
at_once =
    record { now = 60000000000; ip = from }
    ∷ record { now = 60000000001; ip = from }
    ∷ record { now = 60000000002; ip = from }
    ∷ []

at_once-Within : All (Within 60000000000 (60000000000 + login_window)) at_once
at_once-Within =
    ((omega arith, omega arith), ((omega arith, omega arith), ((omega arith, omega arith), tt)))

allowed_le_twice_example : allowed from at_once opened ≤ 2 * limit_of 1
allowed_le_twice_example = allowed_le_twice from at_once opened 60000000000 at_once-Within

twice_reached : allowed from at_once opened ≡ 2
unfolding allow str_eq
twice_reached = refl

allow-later_example : (allow 130000000000 from (after_attempts at_once strict)).0 ≡ true
allow-later_example =
    allow-later 1 at_once 60000000002 130000000000 from
      ((omega arith, omega arith), ((omega arith, omega arith), ((omega arith, omega arith), tt)))
      (omega arith)
