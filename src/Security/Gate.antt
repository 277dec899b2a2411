-- ===== src/Security/Gate.antt =====
-- api/server.py: the middleware of `_mount_security`, which admits a request to the application or
-- answers it. Headers and bodies of the answers are left out.
use far_away.Prelude.{
  ℕ, String, Bool, true, false, not, ◌&&◌, ◌||◌, Option, none, some, List, [], ◌∷◌, str_eq,
  if◌then◌else◌, any, or_else,
}
use far_away.Core.Dict.{Dict, find, put}
use far_away.Core.LowerCase.{lower_text}
use far_away.Core.Split.{strip_text, before, has_prefix, drop_text}
use far_away.Security.RateLimit.{RateLimiter, check}
use far_away.Security.Auth.{
  viewer, operator, admin, has_scope, TokenStore, Verified, raised, unknown, verified, authenticate,
}

pub data ScopeType : Type 0 where
  http websocket lifespan : ScopeType

-- The part of an ASGI scope that the middleware reads. `query` is the dict that `parse_qs` gives.
pub record Scope : Type 0 where
  pub type : ScopeType
  pub path : String
  pub method : String
  pub headers : List (String × String)
  pub client : Option String
  pub query : Dict (List String)

-- `client_ip` without its last way out
abbrev host_of : Option String → String
host_of none = "unknown"
host_of (some host) = if str_eq host "" then "unknown" else host

-- the loop over the headers of `client_ip`, then the rest of it
unfoldable pub client_ip_from : Option String → List (String × String) → String
unfolding strip_text before
client_ip_from client [] = host_of client
client_ip_from client ((k, v) ∷ headers) =
    let rest = client_ip_from client headers in
    let first = strip_text (before b',' v) in
    if str_eq k "x-forwarded-for" && not (str_eq first "") then first else rest

-- `client_ip`
unfoldable pub client_ip : Scope → String
unfolding client_ip_from
client_ip scope = client_ip_from scope.client scope.headers

-- `open_paths`
abbrev pub open_paths : List String
open_paths =
    "/" ∷ "/index.html" ∷ "/health" ∷ "/healthz" ∷ "/readyz" ∷ "/metrics" ∷ "/docs"
    ∷ "/openapi.json" ∷ "/redoc" ∷ []

-- `path[len("/v1"):]` where the path is under `/v1`
unfoldable pub unversioned : String → String
unfolding has_prefix drop_text
unversioned path = if has_prefix "/v1/" path || str_eq path "/v1" then drop_text 3 path else path

-- `_required_scope`
unfoldable pub required_scope : (path method : String) → String
unfolding unversioned has_prefix
required_scope path method =
    let p = unversioned path in
    if str_eq p "/admin" || has_prefix "/admin/" p
    then admin
    else if any (str_eq method) ("GET" ∷ "HEAD" ∷ "OPTIONS" ∷ [])
    then viewer
    else operator

-- `{k.lower(): v for k, v in headers}`
unfoldable pub lowered : List (String × String) → Dict String → Dict String
unfolding lower_text put
lowered [] d = d
lowered ((k, v) ∷ rest) d = lowered rest (put (lower_text k) v d)

-- `a or b` of two lookups, where an empty value counts as missing
abbrev pub or_text : Option String → Option String → Option String
or_text none b = b
or_text (some s) b = if str_eq s "" then b else some s

abbrev pub first_of : List String → Option String
first_of [] = none
first_of (v ∷ vs) = some v

abbrev pub or_list : List String → List String → List String
or_list [] b = b
or_list (v ∷ vs) b = v ∷ vs

-- the token that a request presents
unfoldable pub presented : Scope → Option String
unfolding lowered find
presented scope =
    let headers = lowered scope.headers [] in
    let header = or_text (find "authorization" headers) (find "x-api-key" headers) in
    let values =
      or_list (or_else (find "token" scope.query) []) (or_else (find "api_key" scope.query) []) in
    or_text header (first_of values)

-- What the middleware does with a request: it passes it on unguarded or for a principal, answers it
-- with an error's status or by closing the socket, or raises.
pub data Answer : Type 0 where
  unguarded : Answer
  admitted : (name : String) → Answer
  refused : (status : ℕ) → Answer
  closed crashed : Answer

-- `_reject`
abbrev pub reject : ScopeType → ℕ → Answer
reject websocket status = closed
reject other status = refused status

-- The limiters that the middleware keeps.
pub record Gate : Type 0 where
  pub ip_limiter : RateLimiter
  pub limiter : RateLimiter

abbrev pub is_open : Scope → Bool
is_open scope = elim scope.type [
  | lifespan ↦ true
  | http ↦ any (str_eq scope.path) open_paths
  | websocket ↦ false
]

-- `unit` is the size of a token in the limiters' fractions.
module _ (sha256 : String → String) (unit : ℕ) (store : TokenStore) where
  -- the check of the principal's limit, and the request's admission
  unfoldable pub limit_principal : ScopeType → String → (now : ℕ) → Gate → Gate × Answer
  unfolding check
  limit_principal type name now g =
      let (l, result) = check name unit now g.limiter in
      (record g { limiter = l }, if result.allowed then admitted name else reject type 429)

  -- from the token's check on
  unfoldable pub admit : Scope → Verified → (now : ℕ) → Gate → Gate × Answer
  unfolding required_scope has_scope limit_principal
  admit scope raised now g = (g, crashed)
  admit scope unknown now g = (g, reject scope.type 401)
  admit scope (verified p) now g =
      if store.rbac_enabled && not (has_scope (required_scope scope.path scope.method) p)
      then (g, reject scope.type 403)
      else limit_principal scope.type p.name now g

  -- `__call__` of `_SecurityASGI`; both limits read the clock
  unfoldable pub call : Scope → (ip_now now : ℕ) → Gate → Gate × Answer
  unfolding check client_ip presented authenticate admit
  call scope ip_now now g =
      let (l, result) = check (client_ip scope) unit ip_now g.ip_limiter in
      let g' = record g { ip_limiter = l } in
      if is_open scope
      then (g, unguarded)
      else if not result.allowed
      then (g', reject scope.type 429)
      else admit scope (authenticate sha256 (presented scope) store) now g'
