-- ===== src/Ops/Breaker.antt =====
-- ops/retry.py: `CircuitBreaker`. The clock's readings are arguments, in whole seconds.
use far_away.Prelude.{
  ℕ, ◌+◌, Bool, true, false, Option, none, some, List, [], ◌∷◌, leb, ltb, ◌||◌, if◌then◌else◌,
}

-- `BreakerState`
pub data BreakerState : Type 0 where
  closed opened half_open : BreakerState

-- `CircuitBreaker`
pub record Breaker : Type 0 where
  pub failure_threshold : ℕ
  pub reset_timeout : ℕ
  pub success_threshold : ℕ
  pub state : BreakerState
  pub failure_count : ℕ
  pub success_count : ℕ
  pub opened_at : Option ℕ

-- `CircuitBreaker(...)` with `__post_init__`; `none` is its `ValueError`
unfoldable pub new_breaker :
    (failure_threshold reset_timeout success_threshold : ℕ) → Option Breaker
new_breaker failure_threshold reset_timeout success_threshold =
    if ltb failure_threshold 1 || ltb success_threshold 1
    then none
    else some (record {
      failure_threshold = failure_threshold;
      reset_timeout = reset_timeout;
      success_threshold = success_threshold;
      state = closed;
      failure_count = 0;
      success_count = 0;
      opened_at = none;
    })

-- `_cooldown_elapsed`
unfoldable pub cooldown_elapsed : Option ℕ → ℕ → ℕ → Bool
cooldown_elapsed none reset_timeout now = true
cooldown_elapsed (some t) reset_timeout now = leb (t + reset_timeout) now

-- `_open`
unfoldable pub open_breaker : ℕ → Breaker → Breaker
open_breaker now b = record b { state = opened; opened_at = some now; success_count = 0 }

-- `_close`, and `reset`
unfoldable pub close_breaker : Breaker → Breaker
close_breaker b = record b {
  state = closed;
  failure_count = 0;
  success_count = 0;
  opened_at = none;
}

abbrev allows : BreakerState → ℕ → Breaker → Breaker × Bool
unfolding cooldown_elapsed
allows closed now b = (b, true)
allows half_open now b = (b, true)
allows opened now b =
    if cooldown_elapsed b.opened_at b.reset_timeout now
    then (record b { state = half_open; success_count = 0 }, true)
    else (b, false)

-- `allows_request`
unfoldable pub allows_request : ℕ → Breaker → Breaker × Bool
unfolding cooldown_elapsed
allows_request now b = allows b.state now b

abbrev succeeded_in : BreakerState → Breaker → Breaker
unfolding close_breaker
succeeded_in half_open b =
    if leb b.success_threshold (b.success_count + 1)
    then close_breaker (record b { success_count = b.success_count + 1 })
    else record b { success_count = b.success_count + 1 }
succeeded_in other b = close_breaker b

-- `record_success`
unfoldable pub record_success : Breaker → Breaker
unfolding close_breaker
record_success b = succeeded_in b.state b

abbrev failed_in : BreakerState → ℕ → Breaker → Breaker
unfolding open_breaker
failed_in half_open now b = open_breaker now b
failed_in other now b =
    if leb b.failure_threshold (b.failure_count + 1)
    then open_breaker now (record b { failure_count = b.failure_count + 1 })
    else record b { failure_count = b.failure_count + 1 }

-- `record_failure`
unfoldable pub record_failure : ℕ → Breaker → Breaker
unfolding open_breaker
record_failure now b = failed_in b.state now b

-- How the guarded function ends: it returns, raises one of `exceptions`, or raises another one.
pub data Ending : Type 0 where
  returns fails escapes : Ending

-- What a call comes to: `CircuitOpenError`, or the function's own ending.
pub data Answer : Type 0 where
  rejected : Answer
  ran : Ending → Answer

unfoldable pub finish : Ending → ℕ → Breaker → Breaker
unfolding record_success record_failure
finish returns now b = record_success b
finish fails now b = record_failure now b
finish escapes now b = b

abbrev pub guarded : Ending → ℕ → Breaker × Bool → Breaker × Answer
guarded ending ended (b, true) = (finish ending ended b, ran ending)
guarded ending ended (b, false) = (b, rejected)

-- `call`, asked at one time, for a function that ends in a certain way at another
unfoldable pub call : (asked : ℕ) → Ending → (ended : ℕ) → Breaker → Breaker × Answer
unfolding finish allows_request
call asked ending ended b = guarded ending ended (allows_request asked b)

-- A call's times and its function's ending.
pub record Call : Type 0 where
  pub asked : ℕ
  pub ending : Ending
  pub ended : ℕ

-- Calls one after the other, and their answers.
unfoldable pub calls : List Call → Breaker → Breaker × List Answer
calls [] b = (b, [])
calls (c ∷ rest) b =
    let (b1, a) = call c.asked c.ending c.ended b in
    let (b2, more) = calls rest b1 in (b2, a ∷ more)

-- The breaker's public operations.
pub data Use : Type 0 where
  asks : (now : ℕ) → Use
  succeeds : Use
  fails_at : (now : ℕ) → Use
  resets : Use
  makes : Call → Use

unfoldable pub apply : Use → Breaker → Breaker
unfolding allows_request record_success record_failure close_breaker call
apply (asks now) b = (allows_request now b).0
apply succeeds b = record_success b
apply (fails_at now) b = record_failure now b
apply resets b = close_breaker b
apply (makes c) b = (call c.asked c.ending c.ended b).0

unfoldable pub apply_all : List Use → Breaker → Breaker
unfolding apply
apply_all [] b = b
apply_all (u ∷ rest) b = apply_all rest (apply u b)
