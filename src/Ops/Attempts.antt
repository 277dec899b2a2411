-- ===== src/Ops/Attempts.antt =====
-- ops/retry.py: which try's ending `retry` gives, and after which delays.
use far_away.Prelude.{
  ℕ, zero, suc, ◌+◌, ◌≡◌, refl, sym, ap, ◌∙◌, Option, some, List, [], ◌∷◌, length, arith, ◌⊎◌, inl,
  inr,
}
use far_away.Ops.Retry.{
  Floats, Try, returned, listed, unlisted, with_retry, delays_from, backoff_schedule, Retried,
  tries_from, retry,
}

abbrev pub IsListed : {V E : Type 0} → Try V E → Type 0
IsListed (listed e) = Unit
IsListed other = ⊥

module _ {V E Real : Type 0} (jitter : Real → Real) (fn : ℕ → Try V E) where
  -- The i-th try and the following ones, one for each retry, raise the exceptions that the retries
  -- name, and are followed by the delays in order.
  pub data Matches : ℕ → List (ℕ × (E × Real)) → List Real → Type 0 where
    done : {i : ℕ} {delays : List Real} → Matches i [] delays
    next :
        {i : ℕ} {e : E} {d : Real} {retries : List (ℕ × (E × Real))} {delays : List Real}
        → fn i ≡ listed e
        → Matches (suc i) retries delays
        → Matches i ((suc i, (e, jitter d)) ∷ retries) (d ∷ delays)

  pub record IsRetried (i : ℕ) (delays : List Real) (r : Retried V E Real) : Type 0 where
    pub ends : r.ending ≡ fn (i + length r.retries)
    pub counted : r.tries ≡ suc (i + length r.retries)
    pub matches : Matches i r.retries delays
    -- it gave up because no delay was left, or because the last try raised nothing to retry
    pub final : (length r.retries ≡ length delays) ⊎ (IsListed r.ending → ⊥)

module _ (floats : Floats) {V E : Type 0} (jitter : floats.Real → floats.Real)
    (fn : ℕ → Try V E) where
  open floats use {Real}

  stops :
      (i : ℕ) (delays : List Real) (t : Try V E)
      → fn i ≡ t
      → (IsListed t → ⊥)
      → IsRetried jitter fn i delays (record { ending = t; tries = suc i; retries = [] })
  stops i delays t e over = record {
    ends = sym e ∙ ap fn (omega arith);
    counted = omega arith;
    matches = done;
    final = inr over;
  }

  tries_from-IsRetried :
      (i : ℕ) (delays : List Real)
      → IsRetried jitter fn i delays (tries_from floats jitter fn i delays)
  unfolding tries_from
  tries_from-IsRetried i [] = record {
    ends = ap fn (omega arith);
    counted = omega arith;
    matches = done;
    final = inl refl;
  }
  tries_from-IsRetried i (d ∷ delays) = go (fn i) refl (tries_from-IsRetried (suc i) delays)
    where
      more :
          (e : E) (r : Retried V E Real)
          → fn i ≡ listed e
          → IsRetried jitter fn (suc i) delays r
          → IsRetried jitter fn i
              (d ∷ delays)
              (record r { retries = (suc i, (e, jitter d)) ∷ r.retries })
      more e r raises h = record {
        ends = h.ends ∙ ap fn (omega arith);
        counted = omega (arith, h.counted);
        matches = next raises h.matches;
        final = elim h.final [ inl k ↦ inl (ap suc k) | inr over ↦ inr over ];
      }

      go :
          (t : Try V E)
          → fn i ≡ t
          → IsRetried jitter fn (suc i) delays (tries_from floats jitter fn (suc i) delays)
          → IsRetried jitter fn i (d ∷ delays) (elim t [
            | returned v ↦ record { ending = returned v; tries = suc i; retries = [] }
            | unlisted e ↦ record { ending = unlisted e; tries = suc i; retries = [] }
            | listed e ↦
                with_retry floats (suc i) e (jitter d) (tries_from floats jitter fn (suc i) delays)
          ])
      go (returned v) e ih = stops i (d ∷ delays) (returned v) e (λ h. h)
      go (unlisted x) e ih = stops i (d ∷ delays) (unlisted x) e (λ h. h)
      go (listed x) e ih = more x _ e ih

  delays_from-length :
      (n : ℕ) (factor : Real) (max_delay : Option Real) (delay : Real)
      → length (delays_from floats n factor max_delay delay) ≡ n
  unfolding delays_from
  delays_from-length zero factor max_delay delay = refl
  delays_from-length (suc n) factor max_delay delay =
      ap suc (delays_from-length n factor max_delay (floats.times delay factor))

  -- With n + 1 attempts the schedule has n delays, and `retry` comes to an end. Its ending is that of one try, all tries before
  -- which raised listed exceptions, each of them given to the hook with its number and the jittered
  -- delay of the schedule at its place; and that try is the last of the allowed attempts, or it
  -- returned or raised an exception that is not listed.
  pub retry-IsRetried :
      (n : ℕ) (base_delay factor : Real) (max_delay : Option Real)
      → (length (backoff_schedule floats (suc n) base_delay factor max_delay) ≡ n)
        × ((r : Retried V E Real) × (retry floats (suc n) base_delay factor max_delay jitter fn
              ≡ some r)
            × IsRetried jitter fn 0 (backoff_schedule floats (suc n) base_delay factor max_delay) r)
  unfolding retry backoff_schedule
  retry-IsRetried n base_delay factor max_delay =
      (delays_from-length n factor max_delay base_delay, (_, refl, tries_from-IsRetried 0 _))
