-- ===== src/Security/Admission.antt =====
-- api/server.py with security/ratelimit.py: how many requests of a principal reach the application.
use mathlib.Core.Path.{subst}
use far_away.Prelude.{
  ℕ, ◌+◌, ◌-◌, ◌*◌, ◌≤◌, String, ◌≡◌, refl, sym, ap, ◌∙◌, Bool, true, false, not, ◌&&◌, some, List,
  [], ◌∷◌, str_eq, if◌then◌else◌, arith, All, if-ind,
}
use far_away.Security.RateLimit.{RateLimiter, new_limiter, key_of, check}
use far_away.Security.Granted.{Request, InSpan, granted, charged, after, new_limiter-granted}
use far_away.Security.Auth.{
  TokenStore, Verified, raised, unknown, verified, has_scope, authenticate,
}
use far_away.Security.Gate.{
  ScopeType, http, websocket, lifespan, Scope, Gate, Answer, unguarded, admitted, refused, closed,
  crashed, reject, is_open, client_ip, presented, required_scope, limit_principal, admit, call,
}

-- A request with the clock's readings of its two limits.
pub record Visit : Type 0 where
  pub scope : Scope
  pub ip_now : ℕ
  pub now : ℕ

-- 1 for an admission of a principal whose bucket has the key, else 0
abbrev pub counted : String → Answer → ℕ
counted key (admitted name) = if str_eq (key_of name) key then 1 else 0
counted key unguarded = 0
counted key (refused status) = 0
counted key closed = 0
counted key crashed = 0

times_zero : (n unit : ℕ) → (0 + n) * unit ≡ n * unit
times_zero n unit = grind arith

times_if :
    (b : Bool) (n unit : ℕ) → ((if b then 1 else 0) + n) * unit ≡ (if b then unit else 0) + n * unit
times_if true n unit = grind arith
times_if false n unit = grind arith

module _ (sha256 : String → String) (unit : ℕ) (store : TokenStore) where
  -- The gate after a sequence of requests.
  unfoldable pub gate_after : List Visit → Gate → Gate
  gate_after [] g = g
  gate_after (v ∷ vs) g = gate_after vs (call sha256 unit store v.scope v.ip_now v.now g).0

  -- The admissions under a key in a sequence of requests.
  unfoldable pub admissions : String → List Visit → Gate → ℕ
  admissions key [] g = 0
  admissions key (v ∷ vs) g =
      let (g', answer) = call sha256 unit store v.scope v.ip_now v.now g in
      counted key answer + admissions key vs g'

  -- What a call makes of the principals' limiter: nothing, or one request.
  data Limits (now : ℕ) (l : RateLimiter) : Gate × Answer → Type 0 where
    aside :
        (g : Gate) (answer : Answer)
        → g.limiter ≡ l
        → ((key : String) → counted key answer ≡ 0)
        → Limits now l (g, answer)
    asked :
        (g : Gate) (answer : Answer) (name : String)
        → g.limiter ≡ (check name unit now l).0
        → ((key : String)
            → counted key answer
              ≡ (if str_eq (key_of name) key && (check name unit now l).1.allowed then 1 else 0))
        → Limits now l (g, answer)

  reject-counted :
      (type : ScopeType) (status : ℕ) (key : String) → counted key (reject type status) ≡ 0
  reject-counted http status key = refl
  reject-counted websocket status key = refl
  reject-counted lifespan status key = refl

  answer-counted :
      (type : ScopeType) (name key : String) (allowed : Bool)
      → counted key (if allowed then admitted name else reject type 429)
        ≡ (if str_eq (key_of name) key && allowed then 1 else 0)
  answer-counted type name key allowed = ground (arith, reject-counted type 429 key)

  limit_principal-Limits :
      (type : ScopeType) (name : String) (now : ℕ) (g : Gate)
      → Limits now g.limiter (limit_principal sha256 unit store type name now g)
  unfolding limit_principal
  limit_principal-Limits type name now g =
      asked _ _ name refl
        (λ key. answer-counted type name key (check name unit now g.limiter).1.allowed)

  admit-Limits :
      (scope : Scope) (v : Verified) (now : ℕ) (g : Gate)
      → Limits now g.limiter (admit sha256 unit store scope v now g)
  unfolding admit
  admit-Limits scope raised now g = aside g crashed refl (λ key. refl)
  admit-Limits scope unknown now g = aside g _ refl (reject-counted scope.type 401)
  admit-Limits scope (verified p) now g =
      if-ind (Limits now g.limiter)
        (store.rbac_enabled && not (has_scope (required_scope scope.path scope.method) p))
        (λ _. aside g _ refl (reject-counted scope.type 403))
        (λ _. limit_principal-Limits scope.type p.name now g)

  call-Limits :
      (v : Visit) (g : Gate)
      → Limits v.now g.limiter (call sha256 unit store v.scope v.ip_now v.now g)
  unfolding call
  call-Limits v g =
      let (l, result) = check (client_ip v.scope) unit v.ip_now g.ip_limiter in
      let g' : Gate = record g { ip_limiter = l } in
      if-ind (Limits v.now g.limiter) (is_open v.scope) (λ _. aside g unguarded refl (λ key. refl))
        (λ _.
          if-ind (Limits v.now g.limiter) (not result.allowed)
            (λ _. aside g' _ refl (reject-counted v.scope.type 429))
            (λ _. admit-Limits v.scope (authenticate sha256 (presented v.scope) store) v.now g'))

  -- The requests that a sequence of calls makes to the principals' limiter.
  record Asks (key : String) (start until : ℕ) (vs : List Visit) (g : Gate) (reqs : List Request)
      : Type 0 where
    within : All (λ v. (start ≤ v.now) × (v.now ≤ until)) vs → All (InSpan key start until) reqs
    same : (gate_after vs g).limiter ≡ after reqs g.limiter
    counts : admissions key vs g * unit ≡ granted key reqs g.limiter

  module _ (key : String) (start until : ℕ) where
    Asks-cons :
        (v : Visit) (vs : List Visit) (g : Gate) (r : Gate × Answer)
        → Limits v.now g.limiter r
        → (reqs : List Request) → Asks key start until vs r.0 reqs
        → call sha256 unit store v.scope v.ip_now v.now g ≡ r
        → (all : List Request) × Asks key start until (v ∷ vs) g all
    unfolding gate_after admissions granted after
    Asks-cons v vs g r (aside g' answer e counts) reqs asks c = (
      reqs,
      record {
        within = λ h. asks.within h.1;
        same = ap (λ x. (gate_after vs x.0).limiter) c ∙ asks.same ∙ ap (after reqs) e;
        counts =
            ap (λ x. (counted key x.1 + admissions key vs x.0) * unit) c
            ∙ ap (λ n. (n + admissions key vs g') * unit) (counts key)
            ∙ times_zero (admissions key vs g') unit
            ∙ asks.counts
            ∙ ap (granted key reqs) e;
      },
    )
    Asks-cons v vs g r (asked g' answer name e counts) reqs asks c =
        let req : Request = record { principal = name; cost = unit; now = v.now } in
        (
          req ∷ reqs,
          record {
            within = λ h. (h.0, asks.within h.1);
            same = ap (λ x. (gate_after vs x.0).limiter) c ∙ asks.same ∙ ap (after reqs) e;
            counts =
                ap (λ x. (counted key x.1 + admissions key vs x.0) * unit) c
                ∙ ap (λ n. (n + admissions key vs g') * unit) (counts key)
                ∙ times_if (str_eq (key_of name) key && (check name unit v.now g.limiter).1.allowed)
                    (admissions key vs g') unit
                ∙ ap (λ n. charged key req (check name unit v.now g.limiter).1 + n)
                    (asks.counts ∙ ap (granted key reqs) e);
          },
        )

    calls-Asks :
        (vs : List Visit) (g : Gate) → (reqs : List Request) × Asks key start until vs g reqs
    unfolding gate_after admissions granted after
    calls-Asks [] g = ([], record { within = λ _. tt; same = refl; counts = omega arith })
    calls-Asks (v ∷ vs) g =
        let r = call sha256 unit store v.scope v.ip_now v.now g in
        let (reqs, asks) = calls-Asks vs r.0 in Asks-cons v vs g r (call-Limits v g) reqs asks refl

-- However many requests reach a gate, from whatever addresses, with whatever tokens and for
-- whatever paths, and whatever it was asked before: it admits a principal to the application within
-- a span of time for a total cost of at most the capacity of the principals' limiter and what
-- refills in that span.
pub call-admissions :
    (sha256 : String → String) (unit capacity rate start until : ℕ) (store : TokenStore)
    (ip_limiter l : RateLimiter) (key : String) (before vs : List Visit)
    → new_limiter capacity rate ≡ some l
    → All (λ v. (start ≤ v.now) × (v.now ≤ until)) vs
    → admissions sha256 unit store key vs
          (gate_after sha256 unit store before (record { ip_limiter = ip_limiter; limiter = l }))
        * unit
      ≤ capacity + (until - start) * rate
call-admissions sha256 unit capacity rate start until store ip_limiter l key before vs made span =
    let g : Gate = record { ip_limiter = ip_limiter; limiter = l } in
    let (earlier, was) = calls-Asks sha256 unit store key start until before g in
    let (reqs, asks) =
      calls-Asks sha256 unit store key start until vs (gate_after sha256 unit store before g) in
    subst (λ n. n ≤ capacity + (until - start) * rate)
      (sym (asks.counts ∙ ap (granted key reqs) was.same))
      (new_limiter-granted key start until capacity rate l earlier reqs made (asks.within span))
