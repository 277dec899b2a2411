-- ===== src/Federation/Messages.antt =====
-- federation/model.py: requests and offers as messages, and back.
use far_away.Prelude.{
  String, Bool, false, not, Option, none, some, [], ◌∷◌, str_eq, if◌then◌else◌, ◌>>=◌,
}
use far_away.Prelude.Int.{ℤ, pos}
use far_away.Core.Value.{Value, null, bool, int, text, Fields, end, field, get, get_or, truthy}
use far_away.Core.Convert.{to_int}
use far_away.Core.Contracts.{Priority, Message, query, escalation, ack, other, all}
use far_away.Federation.Model.{
  AssetType, asset_value, asset_type_of, priority_number, priority_of, AidRequest,
  escalation_trigger, decision_value, decision_of, AidOffer, is_offer,
}

-- The reasoning texts.
pub data Line : Type 0 where
  asked : (quantity : ℤ) (asset_type : AssetType) (zone_id : String) → Line
  needs_approval autonomous : Line
  responds : (request_id : String) (verb : Line) → Line
  offers : (quantity : ℤ) (asset_type : AssetType) → Line
  declines : (asset_type : AssetType) → Line

abbrev pub FederationMessage : Type 0
FederationMessage = Message Fields Line

-- `msg.payload.get("kind") == kind`
abbrev pub is_kind : String → Fields → Bool
is_kind kind p = elim (get_or "kind" null p) [ text s ↦ str_eq s kind | _ ↦ false ]

-- The payload of `request_to_message`.
unfoldable pub request_payload : AidRequest String → Fields
unfolding asset_value
request_payload req = field "kind" (text "mutual_aid_request") (
    field "request_id" (text req.request_id) (
      field "from_district" (text req.from_district) (
        field "to_district" (text req.to_district) (
          field "zone_id" (text req.zone_id) (
            field "asset_type" (text (asset_value req.asset_type)) (
              field "quantity" (int req.quantity) (
                field "priority" (int (priority_number req.priority)) (
                  field "cross_state" (bool req.cross_state)
                    (field "note" (text req.note) end)))))))))

-- A message's id and timestamp, drawn for it.
pub record Stamp : Type 0 where
  pub id : String
  pub timestamp : String

-- `request_to_message`
unfoldable pub request_to_message :
    Stamp → (sender : String) → (incident_id : Value) → AidRequest String → FederationMessage
unfolding request_payload
request_to_message stamp sender incident_id req = record {
  sender = sender;
  recipient = req.to_district;
  type = if req.cross_state then escalation else query;
  priority = req.priority;
  payload = request_payload req;
  reasoning =
      asked req.quantity req.asset_type req.zone_id
      ∷ (if req.cross_state then needs_approval else autonomous)
      ∷ [];
  ttl_seconds = 300;
  topic = other "federation.mutual_aid";
  incident_id = incident_id;
  module_of = all;
  escalation_trigger = escalation_trigger req;
  timestamp = stamp.timestamp;
  id = stamp.id;
}

-- `request_from_message`; `none` is its `ValueError`, `KeyError` or `TypeError`
unfoldable pub request_from_message : FederationMessage → Option (AidRequest Value)
unfolding get get_or truthy to_int asset_type_of priority_of
request_from_message msg =
    let p = msg.payload in
    if not (is_kind "mutual_aid_request" p) then none else do
      request_id ← get "request_id" p
      from_district ← get "from_district" p
      to_district ← get "to_district" p
      zone_id ← get "zone_id" p
      asset_value ← get "asset_type" p
      asset_type ← asset_type_of asset_value
      quantity_value ← get "quantity" p
      quantity ← to_int quantity_value
      priority_value ← get "priority" p
      number ← to_int priority_value
      priority ← priority_of number
      some (record {
        request_id = request_id;
        from_district = from_district;
        to_district = to_district;
        zone_id = zone_id;
        asset_type = asset_type;
        quantity = quantity;
        priority = priority;
        cross_state = truthy (get_or "cross_state" (bool false) p);
        note = get_or "note" (text "") p;
      })

-- The payload of `offer_to_message`.
unfoldable pub offer_payload : AidOffer String → Fields
unfolding asset_value
offer_payload o = field "kind" (text "mutual_aid_offer") (
    field "request_id" (text o.request_id) (
      field "from_district" (text o.from_district) (
        field "to_district" (text o.to_district) (
          field "asset_type" (text (asset_value o.asset_type)) (
            field "decision" (text (decision_value o.decision))
              (field "quantity" (int o.quantity) (field "note" (text o.note) end)))))))

-- `offer_to_message`; an empty `sender` stands for `None`, which the code treats alike
unfoldable pub offer_to_message :
    Stamp
    → (sender : String) → (incident_id : Value) → Priority
    → AidOffer String
    → FederationMessage
unfolding offer_payload is_offer
offer_to_message stamp sender incident_id priority o = record {
  sender = if str_eq sender "" then o.from_district else sender;
  recipient = o.to_district;
  type = ack;
  priority = priority;
  payload = offer_payload o;
  reasoning =
      responds o.request_id
        (if is_offer o then offers o.quantity o.asset_type else declines o.asset_type)
      ∷ [];
  ttl_seconds = 300;
  topic = other "federation.mutual_aid";
  incident_id = incident_id;
  module_of = all;
  escalation_trigger = none;
  timestamp = stamp.timestamp;
  id = stamp.id;
}

-- `offer_from_message`; `none` is its `ValueError`, `KeyError` or `TypeError`
unfoldable pub offer_from_message : FederationMessage → Option (AidOffer Value)
unfolding get get_or to_int asset_type_of decision_of
offer_from_message msg =
    let p = msg.payload in
    if not (is_kind "mutual_aid_offer" p) then none else do
      request_id ← get "request_id" p
      from_district ← get "from_district" p
      to_district ← get "to_district" p
      asset_value ← get "asset_type" p
      asset_type ← asset_type_of asset_value
      decision_value ← get "decision" p
      decision ← decision_of decision_value
      quantity ← to_int (get_or "quantity" (int (pos 0)) p)
      some (record {
        request_id = request_id;
        from_district = from_district;
        to_district = to_district;
        asset_type = asset_type;
        decision = decision;
        quantity = quantity;
        note = get_or "note" (text "") p;
      })
