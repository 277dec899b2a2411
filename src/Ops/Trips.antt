-- ===== src/Ops/Trips.antt =====
-- ops/retry.py: when a breaker trips, and what it does while it is open.
use far_away.Prelude.{
  ℕ, suc, ◌+◌, ◌≤◌, ◌<◌, ◌≡◌, refl, sym, ap, ◌∙◌, true, false, Option, none, some, List, [], ◌∷◌,
  leb, if◌then◌else◌, length, All, arith,
}
use mathlib.Core.Path.{subst}
use far_away.Ops.Breaker.{
  BreakerState, closed, opened, half_open, Breaker, cooldown_elapsed, open_breaker, close_breaker,
  allows_request, record_success, record_failure, returns, fails, escapes, Answer, rejected, ran,
  finish, call, Call, calls,
}

-- Failing calls, by their times.
abbrev pub failing : List (ℕ × ℕ) → List Call
failing [] = []
failing ((asked, ended) ∷ rest) =
    record { asked = asked; ending = fails; ended = ended } ∷ failing rest

module _ (failure_threshold reset_timeout success_threshold : ℕ) where
  abbrev pub breaker : BreakerState → ℕ → ℕ → Option ℕ → Breaker
  breaker state f s t = record {
    failure_threshold = failure_threshold;
    reset_timeout = reset_timeout;
    success_threshold = success_threshold;
    state = state;
    failure_count = f;
    success_count = s;
    opened_at = t;
  }

  call_cooling :
      (c : Call) (f s t : ℕ)
      → c.asked < t + reset_timeout
      → call c.asked c.ending c.ended (breaker opened f s (some t))
        ≡ (breaker opened f s (some t), rejected)
  unfolding call allows_request cooldown_elapsed
  call_cooling c f s t early =
      let e : leb (t + reset_timeout) c.asked ≡ false = ground arith in rw e

  -- If every call is asked before an open breaker's reset timeout has passed since it opened, every call
  -- is rejected and none changes the breaker.
  pub calls_cooling :
      (cs : List Call) (f s t : ℕ)
      → All (λ (c : Call). c.asked < t + reset_timeout) cs
      → ((calls cs (breaker opened f s (some t))).0 ≡ breaker opened f s (some t))
        × All (λ a. a ≡ rejected) (calls cs (breaker opened f s (some t))).1
  unfolding calls
  calls_cooling [] f s t early = (refl, tt)
  calls_cooling (c ∷ cs) f s t early =
      let rest = calls_cooling cs f s t early.1 in
      rw (call_cooling c f s t early.0) (rest.0, (refl, rest.1))

  failing_call :
      (asked ended f : ℕ)
      → f + 1 < failure_threshold
      → call asked fails ended (breaker closed f 0 none)
        ≡ (breaker closed (f + 1) 0 none, ran fails)
  unfolding call allows_request finish record_failure
  failing_call asked ended f few =
      let e : leb failure_threshold (f + 1) ≡ false = ground arith in rw e

  last_failing_call :
      (asked ended f : ℕ)
      → f + 1 ≡ failure_threshold
      → call asked fails ended (breaker closed f 0 none)
        ≡ (breaker opened (f + 1) 0 (some ended), ran fails)
  unfolding call allows_request finish record_failure open_breaker
  last_failing_call asked ended f many =
      let e : leb failure_threshold (f + 1) ≡ true = ground arith in rw e

  -- If every call fails, a closed breaker with some failures trips with the call that reaches the
  -- threshold, at the time when that call ends, and not before: all calls have run, and after those
  -- before the last it is still closed.
  pub calls_trip :
      (cs : List (ℕ × ℕ)) (asked ended f : ℕ)
      → f + length cs + 1 ≡ failure_threshold
      → (let before = calls (failing cs) (breaker closed f 0 none) in
          (before.0 ≡ breaker closed (f + length cs) 0 none)
          × All (λ a. a ≡ ran fails) before.1
          × (call asked fails ended before.0
              ≡ (breaker opened failure_threshold 0 (some ended), ran fails)))
  unfolding calls
  calls_trip [] asked ended f many = (
    ap (λ n. breaker closed n 0 none) (omega arith),
    tt,
    last_failing_call asked ended f (omega (arith, many))
        ∙ ap (λ n. (breaker opened n 0 (some ended), ran fails)) (omega (arith, many)),
  )
  calls_trip ((asked', ended') ∷ cs) asked ended f many =
      let rest = calls_trip cs asked ended (f + 1) (omega (arith, many)) in
      subst
        (λ (r : Breaker × Answer).
          ((calls (failing cs) r.0).0 ≡ breaker closed (f + suc (length cs)) 0 none)
          × ((r.1 ≡ ran fails) × All (λ a. a ≡ ran fails) (calls (failing cs) r.0).1)
          × (call asked fails ended (calls (failing cs) r.0).0
              ≡ (breaker opened failure_threshold 0 (some ended), ran fails)))
        (sym (failing_call asked' ended' f (omega (arith, many))))
        (rest.0 ∙ ap (λ n. breaker closed n 0 none) (omega arith), (refl, rest.1), rest.2)

  -- The first call of an open breaker after its cooldown runs: if it fails, the breaker opens anew at
  -- the time when that call ends; if it returns and one success is enough, the breaker closes and
  -- forgets its failures; and if it raises anything else, the breaker stays half-open.
  pub call_probes :
      (asked ended f s t : ℕ)
      → t + reset_timeout ≤ asked
      → (call asked fails ended (breaker opened f s (some t))
          ≡ (breaker opened f 0 (some ended), ran fails))
        × (call asked returns ended (breaker opened f s (some t)) ≡ (
          if leb success_threshold 1
              then breaker closed 0 0 none
              else breaker half_open f 1 (some t),
          ran returns,
        ))
        × (call asked escapes ended (breaker opened f s (some t))
            ≡ (breaker half_open f 0 (some t), ran escapes))
  unfolding call allows_request finish record_failure record_success open_breaker close_breaker
      cooldown_elapsed
  call_probes asked ended f s t late =
      let e : leb (t + reset_timeout) asked ≡ true = ground arith in rw e (refl, refl, refl)
