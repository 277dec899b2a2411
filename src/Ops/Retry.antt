-- ===== src/Ops/Retry.antt =====
-- ops/retry.py: `backoff_schedule` and `retry`.
use far_away.Prelude.{ℕ, zero, suc, Bool, Option, none, some, List, [], ◌∷◌, if◌then◌else◌}

-- Floats, as far as the schedule uses them: `x * y` and `x < y`.
pub record Floats : Type 1 where
  pub Real : Type 0
  pub times : Real → Real → Real
  pub below : Real → Real → Bool

-- How a try ends: it returns, raises one of `exceptions`, or raises another one.
pub data Try (V E : Type 0) : Type 0 where
  returned : V → Try V E
  listed : E → Try V E
  unlisted : E → Try V E

-- What a call of the wrapped function does: its ending, how often it tried, and what `on_retry` was
-- given, with the delays that it slept.
pub record Retried (V E Real : Type 0) : Type 0 where
  pub ending : Try V E
  pub tries : ℕ
  pub retries : List (ℕ × (E × Real))

module _ (floats : Floats) where
  open floats use {Real, times, below}

  -- `delay if max_delay is None else min(delay, max_delay)`
  unfoldable pub clamped : Option Real → Real → Real
  clamped none delay = delay
  clamped (some limit) delay = if below limit delay then limit else delay

  -- the loop of `backoff_schedule`
  unfoldable pub delays_from : ℕ → (factor : Real) → Option Real → (delay : Real) → List Real
  unfolding clamped
  delays_from zero factor max_delay delay = []
  delays_from (suc n) factor max_delay delay =
      clamped max_delay delay ∷ delays_from n factor max_delay (times delay factor)

  -- `backoff_schedule`
  unfoldable pub backoff_schedule :
      (attempts : ℕ) → (base_delay factor : Real) → Option Real → List Real
  unfolding delays_from
  backoff_schedule zero base_delay factor max_delay = []
  backoff_schedule (suc n) base_delay factor max_delay = delays_from n factor max_delay base_delay

  module _ {V E : Type 0} where
    abbrev pub with_retry : ℕ → E → Real → Retried V E Real → Retried V E Real
    with_retry i exc delay r = record r { retries = (i, (exc, delay)) ∷ r.retries }

    -- the loop of `wrapper` from the i-th try on, with a delay for each try but the last; `fn`
    -- gives the ending of each try, and `jitter` is the identity where it is omitted
    unfoldable pub tries_from :
        (jitter : Real → Real) → (fn : ℕ → Try V E) → ℕ → List Real → Retried V E Real
    tries_from jitter fn i [] = record { ending = fn i; tries = suc i; retries = [] }
    tries_from jitter fn i (d ∷ delays) =
        let rest = tries_from jitter fn (suc i) delays in
        elim (fn i) [
          | returned v ↦ record { ending = returned v; tries = suc i; retries = [] }
          | unlisted e ↦ record { ending = unlisted e; tries = suc i; retries = [] }
          | listed e ↦ with_retry (suc i) e (jitter d) rest
        ]

    -- `retry`, applied to a function and called; `none` is its `ValueError`
    unfoldable pub retry :
        (attempts : ℕ)
        → (base_delay factor : Real) → Option Real
        → (jitter : Real → Real) → (fn : ℕ → Try V E) → Option (Retried V E Real)
    unfolding tries_from backoff_schedule
    retry zero base_delay factor max_delay jitter fn = none
    retry (suc n) base_delay factor max_delay jitter fn =
        some (tries_from jitter fn 0 (backoff_schedule (suc n) base_delay factor max_delay))
