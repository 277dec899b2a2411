-- ===== src/Security/Waiting.antt =====
-- security/ratelimit.py: whom a limiter's answers concern.
use far_away.Prelude.{ℕ, String, ◌≡◌, ap, ◌∙◌, false, str_eq}
use far_away.Core.Dict.{find, find-put}
use far_away.Security.RateLimit.{refill, RateLimiter, key_of, or_full, refilled, spend, check}

-- What one principal requests makes no difference to the answer that another one gets.
pub check-check :
    (p q : String) (cost cost' now now' : ℕ) (l : RateLimiter)
    → str_eq (key_of p) (key_of q) ≡ false
    → (check q cost' now' (check p cost now l).0).1 ≡ (check q cost' now' l).1
unfolding check
check-check p q cost cost' now now' l apart =
    let b = (spend cost l.refill_rate (refilled (key_of p) now l)).0 in
    ap
      (λ o.
        (spend cost' l.refill_rate
          (refill now' l.capacity l.refill_rate (or_full l.capacity now' o))).1)
      {y = find (key_of q) l.buckets} (find-put (key_of p) (key_of q) b l.buckets ∙ rw apart)
