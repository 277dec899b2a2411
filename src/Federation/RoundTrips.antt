-- ===== src/Federation/RoundTrips.antt =====
-- federation/model.py: what is read back from a message.
use far_away.Prelude.{String, ◌≡◌, refl, none, some}
use far_away.Core.Value.{Value, text}
use far_away.Core.Contracts.{Priority}
use far_away.Federation.Model.{
  AssetType, asset_value, asset_type_of, priority_number, priority_of, AidRequest, AidDecision,
  decision_value, decision_of, AidOffer,
}
use far_away.Federation.Messages.{
  Stamp, request_to_message, request_from_message, offer_to_message, offer_from_message,
}

abbrev pub request_as_read : AidRequest String → AidRequest Value
request_as_read req = record {
  request_id = text req.request_id;
  from_district = text req.from_district;
  to_district = text req.to_district;
  zone_id = text req.zone_id;
  asset_type = req.asset_type;
  quantity = req.quantity;
  priority = req.priority;
  cross_state = req.cross_state;
  note = text req.note;
}

abbrev pub offer_as_read : AidOffer String → AidOffer Value
offer_as_read o = record {
  request_id = text o.request_id;
  from_district = text o.from_district;
  to_district = text o.to_district;
  asset_type = o.asset_type;
  decision = o.decision;
  quantity = o.quantity;
  note = text o.note;
}

asset_type_of-asset_value : (a : AssetType) → asset_type_of (text (asset_value a)) ≡ some a
unfolding asset_type_of asset_value
asset_type_of-asset_value AssetType.boat = refl
asset_type_of-asset_value _ = refl

priority_of-priority_number : (p : Priority) → priority_of (priority_number p) ≡ some p
unfolding priority_of
priority_of-priority_number Priority.critical = refl
priority_of-priority_number _ = refl

decision_of-decision_value : (d : AidDecision) → decision_of (text (decision_value d)) ≡ some d
unfolding decision_of
decision_of-decision_value AidDecision.offer = refl
decision_of-decision_value _ = refl

module _ (stamp : Stamp) (sender : String) (incident_id : Value) where
  -- A request is read back from its message as it was, and its message is not read as an offer,
  -- whatever the sender and the incident.
  pub request_from_message-request_to_message :
      (req : AidRequest String)
      → (request_from_message (request_to_message stamp sender incident_id req)
          ≡ some (request_as_read req))
        × (offer_from_message (request_to_message stamp sender incident_id req) ≡ none)
  unfolding request_from_message request_to_message offer_from_message
  request_from_message-request_to_message req = (
    rw (asset_type_of-asset_value req.asset_type, priority_of-priority_number req.priority),
    refl,
  )

  -- An offer or a decline is read back from its message as it was, and its message is not read as
  -- a request, whatever the sender, the incident and the message's priority.
  pub offer_from_message-offer_to_message :
      (priority : Priority) (o : AidOffer String)
      → (offer_from_message (offer_to_message stamp sender incident_id priority o)
          ≡ some (offer_as_read o))
        × (request_from_message (offer_to_message stamp sender incident_id priority o) ≡ none)
  unfolding offer_from_message offer_to_message request_from_message
  offer_from_message-offer_to_message priority o =
      (rw (asset_type_of-asset_value o.asset_type, decision_of-decision_value o.decision), refl)
