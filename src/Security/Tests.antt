-- ===== src/Security/Tests.antt =====
-- The theorems on the rate limits at concrete requests.
use far_away.Prelude.{◌+◌, ◌-◌, ◌*◌, ◌≤◌, refl, List, [], ◌∷◌, arith}
use far_away.Security.RateLimit.{RateLimiter, new_limiter}
use far_away.Security.Granted.{Request, granted, after, new_limiter-granted}

-- A burst of 2 and one token in a tick.
abbrev small : RateLimiter
small = record { capacity = 2; refill_rate = 1; buckets = [] }

abbrev burst : List Request
burst =
    record { principal = "ann"; cost = 1; now = 5 }
    ∷ record { principal = ""; cost = 1; now = 5 }
    ∷ record { principal = "ann"; cost = 2; now = 6 }
    ∷ []

-- An idle principal, and one that has spent its burst.
abbrev earlier : List Request
earlier =
    record { principal = "ann"; cost = 2; now = 1 }
    ∷ record { principal = "bob"; cost = 1; now = 2 }
    ∷ []

new_limiter-granted_example : granted "ann" burst (after earlier small) ≤ 2 + (7 - 5) * 1
unfolding new_limiter
new_limiter-granted_example =
    new_limiter-granted "ann" 5 7 2 1 small earlier burst refl
      ((omega arith, omega arith), ((omega arith, omega arith), ((omega arith, omega arith), tt)))
