-- ===== src/Security/Permissions.antt =====
-- security/auth.py with api/server.py: what a role of `DM_API_SCOPES` lets a principal reach.
use mathlib.Core.Path.{subst}
use mathlib.Core.Bool.{true≢false}
use mathlib.Core.Option.{some_inj}
use far_away.Prelude.{
  ℕ, String, ◌≡◌, ◌≢◌, refl, sym, ap, ◌∙◌, Bool, true, false, not, ◌&&◌, ◌||◌, Option, none, some,
  List, [], ◌∷◌, str_eq, eq_iff, if◌then◌else◌, any, arith, if-ind, Bool-cases, inl, inr, or_else,
  >>=-some,
}
use far_away.Core.Dict.{Dict, find, find-put, Distinct, put-Distinct}
use far_away.Core.LowerCase.{lower_text}
use far_away.Core.Split.{strip_text, before, behind, has_char, has_prefix}
use far_away.Security.RateLimit.{check}
use far_away.Security.Auth.{
  Principal, TokenStore, new_store, set_role, set_roles, scopes_of, role_to_scopes, has_scope,
  is_nil, put_scope, parse_scopes_from, chunks, parse_scopes_map, parse_keys_csv, parse_keys_map,
  add_bare, add_named, from_env, principal_of, compare_digest, verify_among, verify, normalise,
  authenticate, enabled, Verified, raised, unknown, verified,
}
use far_away.Security.Gate.{
  ScopeType, http, websocket, lifespan, Scope, Gate, Answer, unguarded, admitted, refused, closed,
  crashed, reject, is_open, client_ip, presented, unversioned, required_scope, limit_principal,
  admit, call,
}

-- The three roles.
pub data Rank : Type 0 where
  watching acting administering : Rank

abbrev pub role_of : Rank → String
role_of watching = "viewer"
role_of acting = "operator"
role_of administering = "admin"

abbrev pub is_admin_path : Scope → Bool
is_admin_path scope =
    str_eq (unversioned scope.path) "/admin" || has_prefix "/admin/" (unversioned scope.path)

abbrev pub is_read : Scope → Bool
is_read scope = any (str_eq scope.method) ("GET" ∷ "HEAD" ∷ "OPTIONS" ∷ [])

-- What each role may do: read outside the administration, act outside of it too, or everything.
abbrev pub may : Rank → (is_admin is_read : Bool) → Bool
may watching is_admin is_read = not is_admin && is_read
may acting is_admin is_read = not is_admin
may administering is_admin is_read = true

abbrev pub permitted : Rank → Scope → Bool
permitted r scope = may r (is_admin_path scope) (is_read scope)

scopes_of-may :
    (r : Rank) (a b : Bool)
    → (is_nil (scopes_of (role_of r))
        || any
            (str_eq (if a then "admin" else if b then "viewer" else "operator"))
            (scopes_of (role_of r)))
      ≡ may r a b
unfolding scopes_of
scopes_of-may watching true b = refl
scopes_of-may watching false true = refl
scopes_of-may watching false false = refl
scopes_of-may acting true b = refl
scopes_of-may acting false true = refl
scopes_of-may acting false false = refl
scopes_of-may administering true b = refl
scopes_of-may administering false true = refl
scopes_of-may administering false false = refl

has_scope-permitted :
    (r : Rank) (scope : Scope) (p : Principal)
    → p.scopes ≡ scopes_of (role_of r)
    → has_scope (required_scope scope.path scope.method) p ≡ permitted r scope
unfolding has_scope required_scope
has_scope-permitted r scope p e =
    ap (λ s. is_nil s || any (str_eq (required_scope scope.path scope.method)) s) e
    ∙ scopes_of-may r (is_admin_path scope) (is_read scope)

put_scope-Distinct :
    (principal role : String) (d : Dict String) → Distinct d → Distinct (put_scope principal role d)
unfolding put_scope
put_scope-Distinct principal role d h =
    if-ind Distinct (not (str_eq principal "") && not (str_eq role ""))
      (λ _. put-Distinct principal role d h) (λ _. h)

parse_scopes_from-Distinct :
    (items : List String) (d : Dict String) → Distinct d → Distinct (parse_scopes_from items d)
unfolding parse_scopes_from
parse_scopes_from-Distinct [] d h = h
parse_scopes_from-Distinct (item ∷ items) d h = parse_scopes_from-Distinct items _ (
    if-ind Distinct (has_char b':' item)
      (λ _. put_scope-Distinct (strip_text (before b':' item)) (strip_text (behind b':' item)) d h)
      (λ _. h))

module _ (sha256 : String → String) (name : String) where
  set_roles-other :
      (d : Dict String) (s : TokenStore)
      → find name d ≡ none
      → find name (set_roles sha256 d s).scopes ≡ find name s.scopes
  unfolding set_roles set_role find
  set_roles-other [] s h = refl
  set_roles-other ((k, role) ∷ d) s h =
      ground (
        arith,
        set_roles-other d (set_role k role s),
        find-put k name (role_to_scopes role) s.scopes,
      )

  set_roles-enabled :
      (d : Dict String) (s : TokenStore)
      → s.rbac_enabled ≡ true
      → (set_roles sha256 d s).rbac_enabled ≡ true
  unfolding set_roles set_role
  set_roles-enabled [] s h = h
  set_roles-enabled ((k, role) ∷ d) s h = set_roles-enabled d (set_role k role s) refl

  -- The last word of `DM_API_SCOPES` on a principal.
  set_roles-scopes :
      (d : Dict String) (s : TokenStore) {role : String}
      → Distinct d
      → find name d ≡ some role
      → (find name (set_roles sha256 d s).scopes ≡ some (role_to_scopes role))
        × ((set_roles sha256 d s).rbac_enabled ≡ true)
  unfolding set_roles set_role find
  set_roles-scopes [] s u h = cc
  set_roles-scopes ((k, v) ∷ d) s {role} u h = elim (Bool-cases (str_eq k name)) [
    | inl e ↦ (
      set_roles-other d (set_role k v s) (ap (λ x. find x d) (sym ((eq_iff k name).0 e)) ∙ u.0)
          ∙ find-put k name (role_to_scopes v) s.scopes
          ∙ ground (arith),
      set_roles-enabled d (set_role k v s) refl,
    )
    | inr e ↦ set_roles-scopes d (set_role k v s) {role = role} u.1 (ground arith)
  ]

  -- A verified principal has the scopes that the store keeps under its name.
  abbrev ScopedIn : TokenStore → Verified → Type 0
  ScopedIn s raised = Unit
  ScopedIn s unknown = Unit
  ScopedIn s (verified p) = p.scopes ≡ or_else (find p.name s.scopes) []

  verify_among-ScopedIn :
      (s : TokenStore) (token : String) (d : Dict String)
      → ScopedIn s (verify_among sha256 s token d)
  unfolding verify_among principal_of
  verify_among-ScopedIn s token [] = tt
  verify_among-ScopedIn s token ((known, n) ∷ d) =
      elim (compare_digest known token)
        as (λ o. ScopedIn s (elim o as (λ _. Verified) [
          | none ↦ raised
          | some same ↦
              if same
              then verified (principal_of sha256 s known n)
              else verify_among sha256 s token d
        ])) [
          | none ↦ tt
          | some same ↦ if-ind (ScopedIn s) same (λ _. refl) (λ _. verify_among-ScopedIn s token d)
        ]

  verify-ScopedIn : (token : Option String) (s : TokenStore) → ScopedIn s (verify sha256 token s)
  unfolding verify
  verify-ScopedIn none s = tt
  verify-ScopedIn (some t) s =
      if-ind (ScopedIn s) (str_eq t "") (λ _. tt)
        (λ _. verify_among-ScopedIn s (strip_text t) s.tokens)

  authenticate-ScopedIn :
      (token : Option String) (s : TokenStore)
      → enabled s.tokens ≡ true
      → ScopedIn s (authenticate sha256 token s)
  unfolding authenticate
  authenticate-ScopedIn token s on =
      if-ind (ScopedIn s) (not (enabled s.tokens)) (λ e. cc)
        (λ _. verify-ScopedIn (normalise token) s)

  -- What an admission under the name tells.
  abbrev AdmitsOnly : Bool → Answer → Type 0
  AdmitsOnly ok (admitted n) = str_eq n name ≡ true → ok ≡ true
  AdmitsOnly ok unguarded = Unit
  AdmitsOnly ok (refused status) = Unit
  AdmitsOnly ok closed = Unit
  AdmitsOnly ok crashed = Unit

  reject-AdmitsOnly :
      (ok : Bool) (type : ScopeType) (status : ℕ) → AdmitsOnly ok (reject type status)
  reject-AdmitsOnly ok http status = tt
  reject-AdmitsOnly ok websocket status = tt
  reject-AdmitsOnly ok lifespan status = tt

  module _ (unit : ℕ) (store : TokenStore) (r : Rank) (rbac : store.rbac_enabled ≡ true)
      (given : find name store.scopes ≡ some (scopes_of (role_of r))) where
    limit_principal-AdmitsOnly :
        (ok : Bool) (type : ScopeType) (n : String) (now : ℕ) (g : Gate)
        → (str_eq n name ≡ true → ok ≡ true)
        → AdmitsOnly ok (limit_principal sha256 unit store type n now g).1
    unfolding limit_principal
    limit_principal-AdmitsOnly ok type n now g h =
        if-ind (AdmitsOnly ok) (check n unit now g.limiter).1.allowed (λ _. h)
          (λ _. reject-AdmitsOnly ok type 429)

    admit-AdmitsOnly :
        (scope : Scope) (v : Verified) (now : ℕ) (g : Gate)
        → ScopedIn store v
        → AdmitsOnly (permitted r scope) (admit sha256 unit store scope v now g).1
    unfolding admit
    admit-AdmitsOnly scope raised now g scoped = tt
    admit-AdmitsOnly scope unknown now g scoped =
        reject-AdmitsOnly (permitted r scope) scope.type 401
    admit-AdmitsOnly scope (verified p) now g scoped =
        if-ind (λ (x : Gate × Answer). AdmitsOnly (permitted r scope) x.1)
          (store.rbac_enabled && not (has_scope (required_scope scope.path scope.method) p))
          (λ _. reject-AdmitsOnly (permitted r scope) scope.type 403)
          (λ e. limit_principal-AdmitsOnly (permitted r scope) scope.type p.name now g (λ same.
            let scopes : p.scopes ≡ scopes_of (role_of r) =
              scoped
              ∙ ap (λ n. or_else (find n store.scopes) []) ((eq_iff p.name name).0 same)
              ∙ ap (λ o. or_else o []) given in
            sym (has_scope-permitted r scope p scopes) ∙ ground (arith)))

    call-AdmitsOnly :
        enabled store.tokens ≡ true
        → (scope : Scope) (ip_now now : ℕ) (g : Gate)
        → AdmitsOnly (permitted r scope) (call sha256 unit store scope ip_now now g).1
    unfolding call
    call-AdmitsOnly on scope ip_now now g =
        let (l, result) = check (client_ip scope) unit ip_now g.ip_limiter in
        if-ind (λ (x : Gate × Answer). AdmitsOnly (permitted r scope) x.1) (is_open scope) (λ _. tt)
          (λ _.
            if-ind (λ (x : Gate × Answer). AdmitsOnly (permitted r scope) x.1) (not result.allowed)
              (λ _. reject-AdmitsOnly (permitted r scope) scope.type 429)
              (λ _.
                admit-AdmitsOnly scope (authenticate sha256 (presented scope) store) now
                  (record g { ip_limiter = l }) (authenticate-ScopedIn (presented scope) store on)))

role_to_scopes-role_of :
    (r : Rank) (role : String)
    → lower_text (strip_text role) ≡ role_of r
    → role_to_scopes role ≡ scopes_of (role_of r)
unfolding role_to_scopes strip_text lower_text
role_to_scopes-role_of r role h = elim (Bool-cases (str_eq role "")) [
  | inl e ↦ absurd (blank r (ap (λ x. lower_text (strip_text x)) (sym ((eq_iff role "").0 e)) ∙ h))
  | inr e ↦ rw e (ap scopes_of h)
]
  where
    blank : (r : Rank) → lower_text (strip_text "") ≢ role_of r
    blank watching k = true≢false (ap (str_eq "") k)
    blank acting k = true≢false (ap (str_eq "") k)
    blank administering k = true≢false (ap (str_eq "") k)

from_env-set_roles :
    (sha256 : String → String) (api_keys api_keys_map api_scopes : String) {store : TokenStore}
    → from_env sha256 api_keys api_keys_map api_scopes ≡ some store
    → (before : TokenStore) × (set_roles sha256 (parse_scopes_map api_scopes) before ≡ store)
unfolding from_env
from_env-set_roles sha256 api_keys api_keys_map api_scopes h =
    let (bare, _, h') = >>=-some (add_bare sha256 (parse_keys_csv api_keys) new_store) _ h in
    let (named, _, h'') = >>=-some (add_named sha256 (parse_keys_map api_keys_map) bare) _ h' in
    (named, some_inj.0 h'')

-- Where the store is opened from the environment and has a token: if the last entry of
-- `DM_API_SCOPES` on a principal gives it one of the three roles, then each request that is
-- admitted for the principal is one that the role permits, whatever the keys, the request and
-- the limits are. A viewer only reads outside the administration, an operator acts outside of it
-- too.
pub call-IsPermitted :
    (sha256 : String → String) (api_keys api_keys_map api_scopes name role : String)
    (store : TokenStore) (r : Rank) (unit ip_now now : ℕ) (scope : Scope) (g : Gate)
    → from_env sha256 api_keys api_keys_map api_scopes ≡ some store
    → enabled store.tokens ≡ true
    → find name (parse_scopes_map api_scopes) ≡ some role
    → lower_text (strip_text role) ≡ role_of r
    → (call sha256 unit store scope ip_now now g).1 ≡ admitted name
    → permitted r scope ≡ true
unfolding parse_scopes_map
call-IsPermitted sha256 api_keys api_keys_map api_scopes name role store r unit ip_now now scope g
      opened on entry named answer =
    let (before, set) = from_env-set_roles sha256 api_keys api_keys_map api_scopes opened in
    let distinct = parse_scopes_from-Distinct (chunks api_scopes) [] tt in
    let last =
      set_roles-scopes sha256 name (parse_scopes_map api_scopes) before {role = role} distinct
        entry in
    let given : find name store.scopes ≡ some (scopes_of (role_of r)) =
      ap (λ (s : TokenStore). find name s.scopes) (sym set)
      ∙ last.0
      ∙ ap some (role_to_scopes-role_of r role named) in
    let rbac : store.rbac_enabled ≡ true =
      ap (λ (s : TokenStore). s.rbac_enabled) (sym set) ∙ last.1 in
    subst (AdmitsOnly sha256 name (permitted r scope)) answer
      (call-AdmitsOnly sha256 name unit store r rbac given on scope ip_now now g)
      ((eq_iff name name).1 refl)
