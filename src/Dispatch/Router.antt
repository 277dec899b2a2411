-- ===== src/Dispatch/Router.antt =====
-- tier3/dispatch/router.py: the agent that executes dispatch orders.
use far_away.Prelude.{
  ℕ, String, Bool, true, false, not, ◌&&◌, ◌||◌, Option, none, some, List, [], ◌∷◌, ◌++◌, str_eq,
  if◌then◌else◌, any, filter,
}
use far_away.Core.Value.{Value, null, text, list, Items, nil, item, Fields}
use far_away.Core.LowerCase.{lower_text}
use far_away.Core.Dict.{Dict, find, put}
use far_away.Core.Contracts.{Message}
use far_away.Dispatch.Channel.{Channel, Outside, to_text}

-- The reasoning texts.
pub data Line : Type 0 where
  fell_back : (requested : Value) (fallback : String) → Line
  no_fallback : (requested : Value) → Line
  fanned_out : List String → Line
  routed_to_cap no_cap : Line
  sent_on : (channel : String) (status detail : Value) → Line
  given : String → Line

abbrev pub DispatchMessage : Type 0
DispatchMessage = Message Fields Line

-- `DispatchRouter`, its channels by name. `sends` counts the calls of `send`.
pub record Router : Type 0 where
  pub name : String
  pub channels : Dict Channel
  pub fallback_name : Option String
  pub sends : ℕ

abbrev pub names_of : Dict Channel → List String
names_of [] = []
names_of ((k, ch) ∷ rest) = k ∷ names_of rest

-- `name in self.channels`
abbrev pub has_channel : String → Dict Channel → Bool
has_channel name chs = any (str_eq name) (names_of chs)

unfoldable pub by_name : List Channel → Dict Channel → Dict Channel
unfolding put
by_name [] chs = chs
by_name (ch ∷ rest) chs = by_name rest (put ch.name ch chs)

abbrev pub first_name : Dict Channel → Option String
first_name [] = none
first_name ((k, ch) ∷ rest) = some k

-- `DispatchRouter(...)`
unfoldable pub new_router : String → List Channel → Router
unfolding by_name
new_router name channels =
    let chs = by_name channels [] in
    record {
      name = name;
      channels = chs;
      fallback_name = if has_channel "sms" chs then some "sms" else first_name chs;
      sends = 0;
    }

-- `aliases`
unfoldable pub aliases : Dict String
aliases =
    ("fcm", "push")
    ∷ ("notification", "push")
    ∷ ("sat", "iridium")
    ∷ ("satellite", "iridium")
    ∷ ("text", "sms")
    ∷ ("broadcast", "cap")
    ∷ ("wa", "whatsapp")
    ∷ ("voice", "ivr")
    ∷ ("call", "ivr")
    ∷ ("phone", "ivr")
    ∷ []

-- `channel in ("all", "*", "broadcast_all")`
abbrev pub is_everyone : String → Bool
is_everyone s = str_eq s "all" || (str_eq s "*" || str_eq s "broadcast_all")

abbrev pub aliased : Option String → Dict Channel → List String
aliased none chs = []
aliased (some name) chs = if has_channel name chs then name ∷ [] else []

-- The channel of a key, or of what the key is an alias for.
unfoldable pub by_key : Dict Channel → String → List String
unfolding aliases find
by_key chs key = if has_channel key chs then key ∷ [] else aliased (find key aliases) chs

-- each name once, where it is met first
unfoldable pub without_repeats : (seen : List String) → List String → List String
without_repeats seen [] = []
without_repeats seen (n ∷ rest) = elim (any (str_eq n) seen) [
  | true ↦ without_repeats seen rest
  | false ↦ n ∷ without_repeats (n ∷ seen) rest
]

-- `requested in (None, "cap", "broadcast")`
abbrev pub is_default_alert : Value → Bool
is_default_alert null = true
is_default_alert (text s) = str_eq s "cap" || str_eq s "broadcast"
is_default_alert v = false

-- `_CITIZEN_REACH`, as far as it is configured
abbrev pub citizen_reach : Dict Channel → List String
citizen_reach chs = filter (λ name. has_channel name chs) ("sms" ∷ "whatsapp" ∷ "ivr" ∷ [])

abbrev reach_line : List String → List Line
reach_line [] = []
reach_line (n ∷ rest) = fanned_out (n ∷ rest) ∷ []

-- the part of `_cap_targets` that puts CAP first
abbrev pub with_cap : Dict Channel → List String × List Line → List String × List Line
with_cap chs (base, reasoning) =
    if has_channel "cap" chs && not (any (str_eq "cap") base)
    then ("cap" ∷ base, reasoning ++ routed_to_cap ∷ [])
    else if not (has_channel "cap" chs)
    then (base, reasoning ++ no_cap ∷ [])
    else (base, reasoning)

module _ (out : Outside) where
  -- `_select`, by the names of the channels
  unfoldable mutual
    unfolding by_key lower_text without_repeats

    pub select : Dict Channel → Value → List String
    select chs null = names_of chs
    select chs (text s) = if is_everyone s then names_of chs else by_key chs (lower_text s)
    select chs (list xs) = without_repeats [] (select_items chs xs)
    select chs v = by_key chs (lower_text (to_text out v))

    pub select_items : Dict Channel → Items → List String
    select_items chs nil = []
    select_items chs (item v rest) = select chs v ++ select_items chs rest

  unfoldable pub alert_base : Dict Channel → Value → List String × List Line
  unfolding select
  alert_base chs requested =
      if is_default_alert requested
      then (citizen_reach chs, reach_line (citizen_reach chs))
      else (select chs requested, [])

  -- `_cap_targets`, with the reasoning it adds
  unfoldable pub cap_targets : Dict Channel → Value → List String × List Line
  unfolding alert_base
  cap_targets chs requested = with_cap chs (alert_base chs requested)
