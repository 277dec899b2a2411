-- ===== src/Ops/Tests.antt =====
-- The theorems on the breaker of ops/retry.py at concrete calls.
use far_away.Prelude.{◌≡◌, refl, none, some, [], ◌∷◌, All, arith}
use far_away.Prelude.{ℕ, zero, suc, String, ◌*◌, ltb, length}
use far_away.Ops.Retry.{Floats, Try, listed, returned, Retried, backoff_schedule, retry}
use far_away.Ops.Attempts.{IsRetried, retry-IsRetried}
use far_away.Ops.Breaker.{
  Breaker, new_breaker, closed, opened, half_open, Call, returns, fails, escapes, ran, call, calls,
  asks, fails_at, apply_all,
}
use far_away.Ops.States.{IsWell, new_breaker_stays-IsWell}
use far_away.Ops.Trips.{breaker, failing, calls_trip, call_probes}

-- Three failures trip it, for half a minute, and one success closes it.
abbrev guard : Breaker
guard = breaker 3 30 1 closed 0 0 none

new_breaker_stays-IsWell_example : IsWell (apply_all (fails_at 5 ∷ asks 9 ∷ []) guard)
unfolding new_breaker
new_breaker_stays-IsWell_example =
    new_breaker_stays-IsWell 3 30 1 guard (fails_at 5 ∷ asks 9 ∷ []) refl

abbrev early_call : Call
early_call = record { asked = 20; ending = returns; ended = 21 }

calls_trip_example :
    (let before = calls (failing ((1, 2) ∷ (3, 4) ∷ [])) guard in
      (before.0 ≡ breaker 3 30 1 closed 2 0 none)
      × All (λ a. a ≡ ran fails) before.1
      × (call 5 fails 6 before.0 ≡ (breaker 3 30 1 opened 3 0 (some 6), ran fails)))
calls_trip_example = calls_trip 3 30 1 ((1, 2) ∷ (3, 4) ∷ []) 5 6 0 refl

call_probes_example :
    (call 40 fails 41 (breaker 3 30 1 opened 3 0 (some 10))
      ≡ (breaker 3 30 1 opened 3 0 (some 41), ran fails))
    × (call 40 returns 41 (breaker 3 30 1 opened 3 0 (some 10))
        ≡ (breaker 3 30 1 closed 0 0 none, ran returns))
    × (call 40 escapes 41 (breaker 3 30 1 opened 3 0 (some 10))
        ≡ (breaker 3 30 1 half_open 3 0 (some 10), ran escapes))
call_probes_example = call_probes 3 30 1 40 41 3 0 10 (omega arith)

-- Whole milliseconds, and a function that fails once and then returns.
abbrev millis : Floats
millis = record { Real = ℕ; times = λ a b. a * b; below = ltb }

abbrev second_time : ℕ → Try ℕ String
second_time zero = listed "timeout"
second_time (suc n) = returned n

retry-IsRetried_example :
    (length (backoff_schedule millis 3 500 2 none) ≡ 2)
    × ((r : Retried ℕ String ℕ) × (retry millis 3 500 2 none (λ d. d) second_time ≡ some r)
        × IsRetried (λ (d : ℕ). d) second_time 0 (backoff_schedule millis 3 500 2 none) r)
retry-IsRetried_example = retry-IsRetried millis (λ d. d) second_time 2 500 2 none
