-- ===== src/Ops/States.antt =====
-- ops/retry.py: the states that a breaker reaches.
use far_away.Prelude.{
  ℕ, ◌+◌, ◌≤◌, ◌<◌, ◌≡◌, refl, sym, ap, ◌∙◌, Bool, true, false, Option, none, some, List, [], ◌∷◌,
  leb, ltb, ◌||◌, if◌then◌else◌, if-ind, arith, Bool-cases, inl, inr,
}
use mathlib.Core.Path.{subst}
use mathlib.Core.Option.{some_inj}
use far_away.Ops.Breaker.{
  BreakerState, closed, opened, half_open, Breaker, new_breaker, cooldown_elapsed, open_breaker,
  close_breaker, allows_request, record_success, record_failure, Ending, returns, fails, escapes,
  finish, guarded, call, Use, asks, succeeds, fails_at, resets, makes, apply, apply_all,
}

-- What the fields say in each state.
abbrev pub Consistent : BreakerState → Breaker → Type 0
Consistent closed b =
    (b.failure_count < b.failure_threshold) × ((b.success_count ≡ 0) × (b.opened_at ≡ none))
Consistent opened b = ((t : ℕ) × (b.opened_at ≡ some t)) × (b.success_count ≡ 0)
Consistent half_open b =
    ((t : ℕ) × (b.opened_at ≡ some t)) × (b.success_count < b.success_threshold)

pub record IsWell (b : Breaker) : Type 0 where
  pub some_failures : 1 ≤ b.failure_threshold
  pub some_successes : 1 ≤ b.success_threshold
  pub consistent : Consistent b.state b

close_breaker-IsWell :
    (b : Breaker) → 1 ≤ b.failure_threshold → 1 ≤ b.success_threshold → IsWell (close_breaker b)
unfolding close_breaker
close_breaker-IsWell b f s = record {
  some_failures = f;
  some_successes = s;
  consistent = (omega (arith, f), (refl, refl));
}

open_breaker-IsWell :
    (now : ℕ) (b : Breaker)
    → 1 ≤ b.failure_threshold
    → 1 ≤ b.success_threshold
    → IsWell (open_breaker now b)
unfolding open_breaker
open_breaker-IsWell now b f s = record {
  some_failures = f;
  some_successes = s;
  consistent = ((now, refl), refl);
}

module _ (failure_threshold reset_timeout success_threshold : ℕ) where
  abbrev made : BreakerState → ℕ → ℕ → Option ℕ → Breaker
  made state f s t = record {
    failure_threshold = failure_threshold;
    reset_timeout = reset_timeout;
    success_threshold = success_threshold;
    state = state;
    failure_count = f;
    success_count = s;
    opened_at = t;
  }

  success_parts :
      (state : BreakerState) (f s : ℕ) (t : Option ℕ)
      → IsWell (made state f s t)
      → IsWell (record_success (made state f s t))
  unfolding record_success
  success_parts closed f s t h =
      close_breaker-IsWell (made closed f s t) h.some_failures h.some_successes
  success_parts opened f s t h =
      close_breaker-IsWell (made opened f s t) h.some_failures h.some_successes
  success_parts half_open f s t h =
      if-ind IsWell (leb success_threshold (s + 1))
        (λ e. close_breaker-IsWell (made half_open f (s + 1) t) h.some_failures h.some_successes)
        (λ e. record {
          some_failures = h.some_failures;
          some_successes = h.some_successes;
          consistent = (h.consistent.0, ground (arith, e));
        })

  failure_parts :
      (now : ℕ) (state : BreakerState) (f s : ℕ) (t : Option ℕ)
      → IsWell (made state f s t)
      → IsWell (record_failure now (made state f s t))
  unfolding record_failure
  failure_parts now half_open f s t h =
      open_breaker-IsWell now (made half_open f s t) h.some_failures h.some_successes
  failure_parts now closed f s t h =
      if-ind IsWell (leb failure_threshold (f + 1))
        (λ e. open_breaker-IsWell now (made closed (f + 1) s t) h.some_failures h.some_successes)
        (λ e. record {
          some_failures = h.some_failures;
          some_successes = h.some_successes;
          consistent = (ground (arith, e), h.consistent.1);
        })
  failure_parts now opened f s t h =
      if-ind IsWell (leb failure_threshold (f + 1))
        (λ e. open_breaker-IsWell now (made opened (f + 1) s t) h.some_failures h.some_successes)
        (λ e. record {
          some_failures = h.some_failures;
          some_successes = h.some_successes;
          consistent = h.consistent;
        })

  allows_parts :
      (now : ℕ) (state : BreakerState) (f s : ℕ) (t : Option ℕ)
      → IsWell (made state f s t)
      → IsWell (allows_request now (made state f s t)).0
  unfolding allows_request
  allows_parts now closed f s t h = h
  allows_parts now half_open f s t h = h
  allows_parts now opened f s t h =
      if-ind (λ (r : Breaker × Bool). IsWell r.0) (cooldown_elapsed t reset_timeout now)
        (λ e. record {
          some_failures = h.some_failures;
          some_successes = h.some_successes;
          consistent = (h.consistent.0, omega (arith, h.some_successes));
        })
        (λ e. h)

success-IsWell : (b : Breaker) → IsWell b → IsWell (record_success b)
success-IsWell b h =
    success_parts b.failure_threshold b.reset_timeout b.success_threshold b.state b.failure_count
      b.success_count b.opened_at h

failure-IsWell : (now : ℕ) (b : Breaker) → IsWell b → IsWell (record_failure now b)
failure-IsWell now b h =
    failure_parts b.failure_threshold b.reset_timeout b.success_threshold now b.state
      b.failure_count b.success_count b.opened_at h

allows-IsWell : (now : ℕ) (b : Breaker) → IsWell b → IsWell (allows_request now b).0
allows-IsWell now b h =
    allows_parts b.failure_threshold b.reset_timeout b.success_threshold now b.state b.failure_count
      b.success_count b.opened_at h

finish-IsWell :
    (ending : Ending) (ended : ℕ) (b : Breaker) → IsWell b → IsWell (finish ending ended b)
unfolding finish
finish-IsWell returns ended b h = success-IsWell b h
finish-IsWell fails ended b h = failure-IsWell ended b h
finish-IsWell escapes ended b h = h

guarded-IsWell :
    (ending : Ending) (ended : ℕ) (r : Breaker × Bool)
    → IsWell r.0
    → IsWell (guarded ending ended r).0
guarded-IsWell ending ended (b, true) h = finish-IsWell ending ended b h
guarded-IsWell ending ended (b, false) h = h

apply-IsWell : (u : Use) (b : Breaker) → IsWell b → IsWell (apply u b)
unfolding apply call
apply-IsWell (asks now) b h = allows-IsWell now b h
apply-IsWell succeeds b h = success-IsWell b h
apply-IsWell (fails_at now) b h = failure-IsWell now b h
apply-IsWell resets b h = close_breaker-IsWell b h.some_failures h.some_successes
apply-IsWell (makes c) b h = guarded-IsWell c.ending c.ended _ (allows-IsWell c.asked b h)

apply_all-IsWell : (uses : List Use) (b : Breaker) → IsWell b → IsWell (apply_all uses b)
unfolding apply_all
apply_all-IsWell [] b h = h
apply_all-IsWell (u ∷ rest) b h = apply_all-IsWell rest (apply u b) (apply-IsWell u b h)

new_breaker-IsWell : (f r s : ℕ) (b : Breaker) → new_breaker f r s ≡ some b → IsWell b
unfolding new_breaker
new_breaker-IsWell f r s b e = elim (Bool-cases (ltb f 1 || ltb s 1)) [
  | inl h ↦ cc (e, h)
  | inr h ↦
      subst IsWell
        (some_inj.0
          (sym (ap (λ (k : Bool). if k then none else some (made f r s closed 0 0 none)) h) ∙ e))
        (record {
          some_failures = ground (arith, h);
          some_successes = ground (arith, h);
          consistent = (ground (arith, h), (refl, refl));
        })
]

-- A breaker that could be constructed stays well formed under every sequence of calls, queries,
-- recorded outcomes and resets: both thresholds are at least 1; a closed breaker has fewer failures
-- than the threshold, no successes and no time of opening; an open one has a time of opening and no
-- successes; a half-open one has a time of opening and fewer successes than the threshold.
pub new_breaker_stays-IsWell :
    (failure_threshold reset_timeout success_threshold : ℕ) (b : Breaker) (uses : List Use)
    → new_breaker failure_threshold reset_timeout success_threshold ≡ some b
    → IsWell (apply_all uses b)
new_breaker_stays-IsWell f r s b uses e = apply_all-IsWell uses b (new_breaker-IsWell f r s b e)
