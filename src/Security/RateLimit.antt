-- ===== src/Security/RateLimit.antt =====
-- security/ratelimit.py: the token buckets. Time is counted in ticks and tokens in fractions, of any
-- size for which all amounts are whole; the clock's readings are arguments.
use far_away.Prelude.{
  ℕ, ◌+◌, ◌-◌, ◌*◌, String, Bool, true, false, Option, none, some, [], str_eq, leb, ◌==◌,
  if◌then◌else◌,
}
use far_away.Core.Dict.{Dict, find, put, pop}

-- `_Bucket`
pub record Bucket : Type 0 where
  pub tokens : ℕ
  pub last_refill : ℕ

abbrev pub min : ℕ → ℕ → ℕ
min a b = if leb a b then a else b

-- `_Bucket._refill`. Where the clock did not advance, the later time stays.
unfoldable pub refill : (now capacity rate : ℕ) → Bucket → Bucket
refill now capacity rate b = if leb now b.last_refill then b else record {
  tokens = min capacity (b.tokens + (now - b.last_refill) * rate);
  last_refill = now;
}

-- `retry_after`: 0, a number of ticks given as a fraction, or infinity
pub data Wait : Type 0 where
  no_wait never : Wait
  fraction : (deficit rate : ℕ) → Wait

-- `RateLimitResult`
pub record RateLimitResult : Type 0 where
  pub allowed : Bool
  pub remaining : ℕ
  pub retry_after : Wait

-- `RateLimiter`
pub record RateLimiter : Type 0 where
  pub capacity : ℕ
  pub refill_rate : ℕ
  pub buckets : Dict Bucket

-- `RateLimiter(...)` with `__post_init__`; `none` is its `ValueError`, which a rate below 0 raises too
unfoldable pub new_limiter : (capacity refill_rate : ℕ) → Option RateLimiter
new_limiter capacity refill_rate =
    if capacity == 0
    then none
    else some (record { capacity = capacity; refill_rate = refill_rate; buckets = [] })

-- `principal or "anonymous"`
abbrev pub key_of : String → String
key_of principal = if str_eq principal "" then "anonymous" else principal

abbrev pub or_full : ℕ → ℕ → Option Bucket → Bucket
or_full capacity now none = record { tokens = capacity; last_refill = now }
or_full capacity now (some b) = b

-- the bucket of a principal, made where it is missing, and refilled
abbrev pub refilled : String → ℕ → RateLimiter → Bucket
refilled key now l =
    refill now l.capacity l.refill_rate (or_full l.capacity now (find key l.buckets))

-- the part of `check` behind the refill
unfoldable pub spend : (cost rate : ℕ) → Bucket → Bucket × RateLimitResult
spend cost rate b =
    if leb cost b.tokens
    then (
      record b { tokens = b.tokens - cost },
      record { allowed = true; remaining = b.tokens - cost; retry_after = no_wait },
    )
    else (
      b,
      record {
        allowed = false;
        remaining = b.tokens;
        retry_after = if rate == 0 then never else fraction (cost - b.tokens) rate;
      },
    )

-- `check`
unfoldable pub check :
    (principal : String) → (cost now : ℕ) → RateLimiter → RateLimiter × RateLimitResult
unfolding refill spend put
check principal cost now l =
    let (b, result) = spend cost l.refill_rate (refilled (key_of principal) now l) in
    (record l { buckets = put (key_of principal) b l.buckets }, result)

-- `allow`
unfoldable pub allow : (principal : String) → (cost now : ℕ) → RateLimiter → RateLimiter × Bool
unfolding check
allow principal cost now l = let (l', result) = check principal cost now l in (l', result.allowed)

abbrev remaining_in : String → ℕ → RateLimiter → Option Bucket → RateLimiter × ℕ
unfolding refill put
remaining_in key now l none = (l, l.capacity)
remaining_in key now l (some b) =
    let b' = refill now l.capacity l.refill_rate b in
    (record l { buckets = put key b' l.buckets }, b'.tokens)

-- `remaining`
unfoldable pub remaining_for : (principal : String) → (now : ℕ) → RateLimiter → RateLimiter × ℕ
unfolding refill put find
remaining_for principal now l =
    remaining_in (key_of principal) now l (find (key_of principal) l.buckets)

-- `reset`, of one principal or of all
unfoldable pub reset : Option String → RateLimiter → RateLimiter
unfolding pop
reset none l = record l { buckets = [] }
reset (some principal) l = record l { buckets = pop principal l.buckets }
