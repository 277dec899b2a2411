-- ===== src/Field/Model.antt =====
-- tier2/field/agent.py: the state of the agent, its orders and its messages.
use far_away.Prelude.{ℕ, String, Bool, Option, none, some, List, [], ◌∷◌, if◌then◌else◌}
use far_away.Prelude.Int.{ℤ, pos}
use far_away.Core.Value.{
  Value, null, int, text, list, dict, Items, nil, item, Fields, end, field, get_or, or_value,
  truthy,
}
use far_away.Core.Convert.{to_int}
use far_away.Core.Dict.{Dict}
use far_away.Core.Contracts.{Message, EscalationTrigger, value}
use far_away.Federation.Model.{AssetType, ndrf_team, asset_type_of}

-- What comes from outside: how floats are read as a place and measured, whose distance, not negative,
-- is given by its 64 bits; Python's `==` on two values and `str` of one that is no text; the time in
-- seconds of a text in ISO 8601; the text of an f-string with the
-- values put in; draws of `uuid4().hex[:8]`, of message ids and timestamps.
pub record Outside : Type 1 where
  pub Place : Type 0
  pub as_latlon : Value → Option Place
  pub place_value : Place → Value
  pub distance : Place → Place → ℕ
  pub same : Value → Value → Bool
  pub render : Value → String
  pub seconds : Value → Option ℕ
  pub format : String → List Value → String
  pub hex : ℕ → String
  pub message_id : ℕ → String
  pub stamp : ℕ → String

-- `FieldTeam` of models/domain.py, without the time of its last update, which the agent does not read
pub record FieldTeam (Place : Type 0) : Type 0 where
  pub team_id : String
  pub asset_type : AssetType
  pub location : Place
  pub status : String
  pub assignment : Value

-- an order's dict; `flag` is there on an order that is flagged
pub record FieldOrder (Place : Type 0) : Type 0 where
  pub team_id : String
  pub site : Value
  pub waypoints : List Place
  pub priority : ℤ
  pub reason : Value
  pub channel : String
  pub incident_id : String
  pub order_id : Value
  pub asset_id : Value
  pub flag : Option String

-- `FieldCoordinationAgent`; of a beacon its place and its time, in seconds. `draws` counts the uses of `uuid4` and
-- of the clock.
pub record Coordinator (Place : Type 0) : Type 0 where
  pub name : String
  pub teams : Dict (FieldTeam Place)
  pub last_beacon : Dict (Place × ℕ)
  pub active_orders : Dict (FieldOrder Place)
  pub resource_plan : Dict (List Fields)
  pub routing_plan : Dict (List Value)
  pub flagged_stalled : List String
  pub draws : ℕ

-- `str(v)`
abbrev pub str : Outside → Value → String
str out (text s) = s
str out v = out.render v

-- `int(d.get(key, default))`, `none` for an exception
abbrev pub int_at : String → ℤ → Fields → Option ℤ
unfolding to_int get_or
int_at key default d = to_int (get_or key (int default) d)

-- `int(d.get(key, 0) or 0)`
abbrev pub count_at : String → Fields → Option ℤ
unfolding to_int get_or or_value
count_at key d = to_int (or_value (get_or key (int (pos 0)) d) (int (pos 0)))

-- `d.get("target_cell") or d.get("site")`
abbrev pub site_in : Fields → Value
unfolding get_or or_value
site_in d = or_value (get_or "target_cell" null d) (get_or "site" null d)

unfoldable pub members : Items → List Value
members nil = []
members (item v rest) = v ∷ members rest

-- `list(v or [])`, `none` for its `TypeError`; the members of a text or a dict are texts, which all
-- readers pass over, and are left out
unfoldable pub list_of : Value → Option (List Value)
unfolding members truthy
list_of (list items) = some (members items)
list_of (text s) = some []
list_of (dict d) = some []
list_of v = if truthy v then none else some []

abbrev pub prepend_if_dict : Value → List Fields → List Fields
prepend_if_dict (dict d) ds = d ∷ ds
prepend_if_dict v ds = ds

-- `rplan_orders`
unfoldable pub dicts_in : List Value → List Fields
dicts_in [] = []
dicts_in (v ∷ vs) = prepend_if_dict v (dicts_in vs)

-- `_coerce_asset_type`
unfoldable pub coerce_asset_type : Value → AssetType
unfolding asset_type_of
coerce_asset_type v = elim (asset_type_of v) [ none ↦ ndrf_team | some t ↦ t ]

abbrev pub flag_fields : Option String → Fields
flag_fields none = end
flag_fields (some flag) = field "flag" (text flag) end

abbrev pub items_of {ℓ} : {A : Type ℓ} → (A → Value) → List A → Items
items_of f [] = nil
items_of f (x ∷ xs) = item (f x) (items_of f xs)

-- an order as the payload holds it
unfoldable pub order_fields : (out : Outside) → FieldOrder (Outside.Place out) → Fields
order_fields out o = field "team_id" (text o.team_id) (
    field "site" o.site (
      field "waypoints" (list (items_of out.place_value o.waypoints)) (
        field "priority" (int o.priority) (
          field "reason" o.reason (
            field "channel" (text o.channel) (
              field "incident_id" (text o.incident_id) (
                field "order_id" o.order_id
                  (field "asset_id" o.asset_id (flag_fields o.flag)))))))))

-- an escalation hint
pub record Hint : Type 0 where
  pub trigger : EscalationTrigger
  pub summary : String
  pub scale : ℤ

abbrev pub hint_fields : Hint → Fields
unfolding value
hint_fields h =
    field "trigger" (text (value h.trigger))
      (field "summary" (text h.summary) (field "scale" (int h.scale) end))

abbrev pub hint_value : Option Hint → Value
unfolding value
hint_value none = null
hint_value (some h) = dict (hint_fields h)

abbrev pub trigger_in : Option Hint → Option EscalationTrigger
trigger_in none = none
trigger_in (some h) = some h.trigger

-- the payload of a FIELD_ORDER
unfoldable pub order_payload :
    (out : Outside) → String → List (FieldOrder (Outside.Place out)) → Option Hint → Fields
unfolding order_fields value
order_payload out incident_id orders hint = field "kind" (text "field_order") (
    field "incident_id" (text incident_id) (
      field "orders" (list (items_of (λ o. dict (order_fields out o)) orders))
        (field "escalation" (hint_value hint) end)))

abbrev pub FieldMessage : Type 0
FieldMessage = Message Fields String
