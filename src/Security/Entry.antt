-- ===== src/Security/Entry.antt =====
-- The theorems on the gate at concrete requests.
use far_away.Prelude.{◌+◌, ◌-◌, ◌*◌, ◌≤◌, ◌≡◌, refl, true, some, String, List, [], ◌∷◌, arith}
use far_away.Core.LowerCase.{lower_text}
use far_away.Security.RateLimit.{RateLimiter, new_limiter}
use far_away.Security.Auth.{TokenStore, from_env}
use far_away.Security.Gate.{Scope, http, Gate, admitted, crashed, refused, call}
use far_away.Security.Admission.{Visit, gate_after, admissions, call-admissions}
use far_away.Security.Permissions.{watching, permitted, call-IsPermitted}

-- A stand-in for a digest.
abbrev plain : String → String
plain s = s

abbrev limiter : RateLimiter
limiter = record { capacity = 2; refill_rate = 1; buckets = [] }

abbrev gate : Gate
gate = record { ip_limiter = limiter; limiter = limiter }

abbrev request : (token path method : String) → Scope
request token path method = record {
  type = http;
  path = path;
  method = method;
  headers = ("Authorization", token) ∷ [];
  client = some "10.0.0.1";
  query = [];
}

-- `ann` may only read; the key `bare` has no role.
abbrev store : TokenStore
store = record {
  tokens = ("bare", "key-bare") ∷ ("t1", "ann") ∷ [];
  scopes = ("ann", "viewer" ∷ []) ∷ [];
  roles = ("ann", "viewer") ∷ [];
  rbac_enabled = true;
}

store_opens : from_env plain "bare" "ann:t1" "ann: Viewer" ≡ some store
unfolding from_env lower_text
store_opens = refl

-- A viewer does not get to act.
viewer_acts :
    (call plain 1 store (request "Bearer t1" "/v1/plans/approve" "POST") 5 5 gate).1 ≡ refused 403
unfolding call
viewer_acts = refl

-- A bare key gets to the administration, though its documented role is that of an operator.
bare_administers :
    (call plain 1 store (request "Bearer bare" "/admin/keys" "POST") 5 5 gate).1
    ≡ admitted "key-bare"
unfolding call
bare_administers = refl

-- A token that is not ASCII makes the middleware raise.
foreign_token : (call plain 1 store (request "Bearer é" "/plans" "GET") 5 5 gate).1 ≡ crashed
unfolding call
foreign_token = refl

call-IsPermitted_example : permitted watching (request "Bearer t1" "/plans" "GET") ≡ true
unfolding from_env call lower_text
call-IsPermitted_example =
    call-IsPermitted plain "bare" "ann:t1" "ann: Viewer" "ann" "Viewer" store watching 1 5 5
      (request "Bearer t1" "/plans" "GET") gate refl refl refl refl refl

abbrev visits : List Visit
visits =
    record { scope = request "t1" "/plans" "GET"; ip_now = 5; now = 5 }
    ∷ record { scope = request "bare" "/plans" "GET"; ip_now = 5; now = 5 }
    ∷ record { scope = request "t1" "/plans" "GET"; ip_now = 6; now = 6 }
    ∷ []

call-admissions_example :
    admissions plain 1 store "ann" visits (gate_after plain 1 store visits gate) * 1
    ≤ 2 + (6 - 5) * 1
unfolding new_limiter
call-admissions_example =
    call-admissions plain 1 2 1 5 6 store limiter limiter "ann" visits visits refl
      ((omega arith, omega arith), ((omega arith, omega arith), ((omega arith, omega arith), tt)))
