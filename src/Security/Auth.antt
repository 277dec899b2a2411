-- ===== src/Security/Auth.antt =====
-- security/auth.py: tokens, principals and roles. SHA-256 is a parameter.
use Prim.Native.Char.{code}
use Prim.Native.String.{◌++◌ as append}
use far_away.Prelude.{
  String, Bool, true, false, not, ◌&&◌, ◌||◌, Option, none, some, List, [], ◌∷◌, str_eq,
  if◌then◌else◌, any, filter, leb, ◌>>=◌, or_else,
}
use mathlib.Core.List.{map}
use far_away.Core.Dict.{Dict, find, put}
use far_away.Core.LowerCase.{lower_text}
use far_away.Core.Split.{
  strip_text, replace, split, before, behind, has_char, has_prefix, drop_text, take_text,
}

abbrev pub viewer : String
viewer = "viewer"

abbrev pub operator : String
operator = "operator"

abbrev pub admin : String
admin = "admin"

-- `ROLE_SCOPES.get(role)`, else the scope of the role's own name; a set is the list of its members
unfoldable pub scopes_of : String → List String
scopes_of role =
    if str_eq role viewer
    then viewer ∷ []
    else if str_eq role operator
    then viewer ∷ operator ∷ []
    else if str_eq role admin
    then viewer ∷ operator ∷ admin ∷ []
    else role ∷ []

-- `role_to_scopes`; an empty text stands for `None`, which the code treats alike
unfoldable pub role_to_scopes : String → List String
unfolding scopes_of
role_to_scopes role =
    scopes_of (lower_text (strip_text (if str_eq role "" then operator else role)))

-- `Principal`
pub record Principal : Type 0 where
  pub name : String
  pub fingerprint : String
  pub scopes : List String

abbrev pub is_nil : List String → Bool
is_nil [] = true
is_nil (x ∷ xs) = false

-- `has_scope`
unfoldable pub has_scope : String → Principal → Bool
has_scope scope p = is_nil p.scopes || any (str_eq scope) p.scopes

abbrev or_none : String → Option String
or_none s = if str_eq s "" then none else some s

-- `extract_bearer` of a header's value; the prefix is compared in lower case
unfoldable pub extract_bearer : String → Option String
unfolding strip_text has_prefix drop_text
extract_bearer authorization =
    let value = strip_text authorization in
    if str_eq value ""
    then none
    else if has_prefix "bearer " (lower_text value)
    then or_none (strip_text (drop_text 7 value))
    else some value

-- `_normalise`
unfoldable pub normalise : Option String → Option String
unfolding extract_bearer has_prefix strip_text
normalise none = none
normalise (some token) =
    if has_prefix "bearer " (lower_text token)
    then extract_bearer token
    else or_none (strip_text token)

-- `_fingerprint`
unfoldable pub fingerprint_of : (sha256 : String → String) → (token : String) → String
unfolding take_text
fingerprint_of sha256 token = take_text 12 (sha256 token)

-- `raw.replace("\n", ",").split(",")`, each chunk stripped
unfoldable pub chunks : String → List String
unfolding replace split strip_text
chunks raw = map strip_text (split b',' (replace b'\n' "," raw))

-- `_parse_keys_csv`
unfoldable pub parse_keys_csv : String → List String
unfolding chunks
parse_keys_csv raw = filter (λ token. not (str_eq token "")) (chunks raw)

-- what an entry `principal:token:role` gives
pub record KeyEntry : Type 0 where
  pub principal : String
  pub role : Option String

abbrev pub role_in : List String → Option String
role_in [] = none
role_in (role ∷ rest) = if str_eq role "" then none else some role

unfoldable pub put_key : List String → Dict KeyEntry → Dict KeyEntry
unfolding put
put_key [] mapping = mapping
put_key (principal ∷ []) mapping = mapping
put_key (principal ∷ token ∷ rest) mapping =
    if not (str_eq principal "") && not (str_eq token "")
    then put token (record { principal = principal; role = role_in rest }) mapping
    else mapping

unfoldable pub parse_keys_from : List String → Dict KeyEntry → Dict KeyEntry
unfolding put_key has_char split strip_text
parse_keys_from [] mapping = mapping
parse_keys_from (item ∷ items) mapping =
    parse_keys_from items
      (if has_char b':' item then put_key (map strip_text (split b':' item)) mapping else mapping)

-- `_parse_keys_map`
unfoldable pub parse_keys_map : String → Dict KeyEntry
unfolding chunks parse_keys_from
parse_keys_map raw = parse_keys_from (chunks raw) []

unfoldable pub put_scope : String → String → Dict String → Dict String
unfolding put
put_scope principal role mapping =
    if not (str_eq principal "") && not (str_eq role "")
    then put principal role mapping
    else mapping

unfoldable pub parse_scopes_from : List String → Dict String → Dict String
unfolding put_scope has_char before behind strip_text
parse_scopes_from [] mapping = mapping
parse_scopes_from (item ∷ items) mapping = parse_scopes_from items (
    if has_char b':' item
    then put_scope (strip_text (before b':' item)) (strip_text (behind b':' item)) mapping
    else mapping)

-- `_parse_scopes_map`
unfoldable pub parse_scopes_map : String → Dict String
unfolding chunks parse_scopes_from
parse_scopes_map raw = parse_scopes_from (chunks raw) []

-- `TokenStore`
pub record TokenStore : Type 0 where
  pub tokens : Dict String
  pub scopes : Dict (List String)
  pub roles : Dict String
  pub rbac_enabled : Bool

-- `TokenStore()`
abbrev pub new_store : TokenStore
new_store = record { tokens = []; scopes = []; roles = []; rbac_enabled = false }

-- `set_role`
unfoldable pub set_role : (principal role : String) → TokenStore → TokenStore
unfolding put role_to_scopes
set_role principal role s = record {
  tokens = s.tokens;
  scopes = put principal (role_to_scopes role) s.scopes;
  roles = put principal (lower_text (strip_text role)) s.roles;
  rbac_enabled = true;
}

unfoldable pub give_role : String → Option String → TokenStore → TokenStore
unfolding set_role
give_role name none s = s
give_role name (some role) s = set_role name role s

-- `enabled`
abbrev pub enabled : Dict String → Bool
enabled [] = false
enabled (t ∷ tokens) = true

unfoldable pub is_ascii : String → Bool
is_ascii String.[] = true
is_ascii (String.◌∷◌ c s) = if leb (code c) 127 then is_ascii s else false

-- `hmac.compare_digest` of two texts, which refuses texts that are not ASCII by a `TypeError`, `none`
unfoldable pub compare_digest : String → String → Option Bool
unfolding is_ascii
compare_digest a b = if is_ascii a && is_ascii b then some (str_eq a b) else none

-- How a verification ends: with an exception, with `None`, or with a principal.
pub data Verified : Type 0 where
  raised unknown : Verified
  verified : Principal → Verified

module _ (sha256 : String → String) where
  -- `principal or f"key-{_fingerprint(token)}"`
  unfoldable pub name_for : (token : String) → Option String → String
  unfolding fingerprint_of
  name_for token none = append "key-" (fingerprint_of sha256 token)
  name_for token (some principal) =
      if str_eq principal "" then append "key-" (fingerprint_of sha256 token) else principal

  -- `add` without explicit scopes, which the factories never give; `none` is its `ValueError`
  unfoldable pub add :
      (token : String) → (principal role : Option String) → TokenStore → Option TokenStore
  unfolding strip_text give_role name_for
  add token principal role s =
      let t = strip_text token in
      let name = name_for t principal in
      if str_eq t ""
      then none
      else some (give_role name role (record s { tokens = put t name s.tokens }))

  unfoldable pub add_bare : List String → TokenStore → Option TokenStore
  unfolding add
  add_bare [] s = some s
  add_bare (token ∷ rest) s = add token none none s >>= λ s'. add_bare rest s'

  unfoldable pub add_named : Dict KeyEntry → TokenStore → Option TokenStore
  unfolding add
  add_named [] s = some s
  add_named ((token, k) ∷ rest) s =
      add token (some k.principal) k.role s >>= λ s'. add_named rest s'

  unfoldable pub set_roles : Dict String → TokenStore → TokenStore
  unfolding set_role
  set_roles [] s = s
  set_roles ((principal, role) ∷ rest) s = set_roles rest (set_role principal role s)

  -- `from_env`, on the values of the three variables, empty where one is not set
  unfoldable pub from_env : (api_keys api_keys_map api_scopes : String) → Option TokenStore
  unfolding parse_keys_csv parse_keys_map parse_scopes_map add_bare add_named set_roles
  from_env api_keys api_keys_map api_scopes = do
    bare ← add_bare (parse_keys_csv api_keys) new_store
    named ← add_named (parse_keys_map api_keys_map) bare
    some (set_roles (parse_scopes_map api_scopes) named)

  -- the principal of a token that is registered under a name
  unfoldable pub principal_of : TokenStore → (token name : String) → Principal
  unfolding find fingerprint_of
  principal_of s token name = record {
    name = name;
    fingerprint = fingerprint_of sha256 token;
    scopes = or_else (find name s.scopes) [];
  }

  -- the loop of `verify`
  unfoldable pub verify_among : TokenStore → (token : String) → Dict String → Verified
  unfolding compare_digest principal_of
  verify_among s token [] = unknown
  verify_among s token ((known, name) ∷ rest) =
      let next = verify_among s token rest in
      elim (compare_digest known token) [
        | none ↦ raised
        | some same ↦ if same then verified (principal_of s known name) else next
      ]

  -- `verify`
  unfoldable pub verify : Option String → TokenStore → Verified
  unfolding verify_among strip_text
  verify none s = unknown
  verify (some token) s =
      if str_eq token "" then unknown else verify_among s (strip_text token) s.tokens

  -- `authenticate`
  unfoldable pub authenticate : Option String → TokenStore → Verified
  unfolding normalise verify
  authenticate token s =
      if not (enabled s.tokens)
      then verified (record { name = "anonymous"; fingerprint = "anonymous"; scopes = [] })
      else verify (normalise token) s
