-- ===== src/Dispatch/Handle.antt =====
-- tier3/dispatch/router.py: what the router does with a message.
use far_away.Prelude.{
  ℕ, suc, String, Bool, true, false, not, ◌&&◌, ◌||◌, Option, none, some, List, [], ◌∷◌, ◌++◌,
  str_eq, if◌then◌else◌, filter, length,
}
use far_away.Prelude.Int.{pos}
use far_away.Core.Value.{
  Value, null, int, text, list, dict, Items, nil, item, Fields, end, field, get, get_or,
}
use far_away.Core.LowerCase.{lower_text}
use far_away.Core.Dict.{Dict, find, put}
use far_away.Core.Contracts.{MessageType, ack, low, Topic, dispatch}
use far_away.Dispatch.Channel.{Outcome, received, raised, Channel, Outside, to_text, send}
use far_away.Dispatch.Router.{
  Line, fell_back, no_fallback, sent_on, DispatchMessage, Router, has_channel, select, cap_targets,
}

-- `v == s`
abbrev pub is_text : String → Value → Bool
is_text s (text t) = str_eq t s
is_text s v = false

-- `r.get("status") in ("sent", "recorded")`
abbrev pub is_delivered : Fields → Bool
unfolding get_or
is_delivered r =
    is_text "sent" (get_or "status" null r) || is_text "recorded" (get_or "status" null r)

-- `r.get("status") == "failed"`
abbrev pub is_failed : Fields → Bool
unfolding get_or
is_failed r = is_text "failed" (get_or "status" null r)

abbrev xml_of : Option Value → Option String
xml_of (some (text s)) = some s
xml_of v = none

abbrev wire_xml : Value → Option String
unfolding get
wire_xml (dict wire) = xml_of (get "xml" wire)
wire_xml v = none

-- `_cap_xml_from`
unfoldable pub cap_xml_from : List Fields → Option String
unfolding get get_or
cap_xml_from [] = none
cap_xml_from (r ∷ rest) =
    if not (is_text "cap" (get_or "channel" null r))
    then cap_xml_from rest
    else elim (wire_xml (get_or "wire" null r)) [ none ↦ cap_xml_from rest | some xml ↦ some xml ]

abbrev pub dicts : List Fields → Items
dicts [] = nil
dicts (r ∷ rest) = item (dict r) (dicts rest)

abbrev xml_field : Option String → Fields
xml_field none = end
xml_field (some xml) = field "cap_xml" (text xml) end

-- The payload of `_ack`.
unfoldable pub ack_payload : DispatchMessage → List Fields → Fields
unfolding get_or cap_xml_from
ack_payload message receipts = field "kind" (text "dispatch_ack") (
    field "incident_id" message.incident_id (
      field "requested_channel" (get_or "channel" null message.payload) (
        field "delivered" (int (pos (length (filter is_delivered receipts)))) (
          field "failed" (int (pos (length (filter is_failed receipts))))
            (field "receipts" (list (dicts receipts)) (xml_field (cap_xml_from receipts)))))))

-- What a run over targets leaves: the channels, the receipts and the reasoning lines.
pub record Delivered : Type 0 where
  pub channels : Dict Channel
  pub sends : ℕ
  pub receipts : List Fields
  pub lines : List Line

-- the receipt of a call, a failed one where the call raised
abbrev pub receipt_of : Fields → String → Outcome → Fields
unfolding get_or
receipt_of payload name (received r) = r
receipt_of payload name (raised e) = field "kind" (text "dispatch_receipt") (
    field "channel" (text name) (
      field "status" (text "failed") (
        field "detail" (text e) (field "recipients" (get_or "recipients" (list nil) payload) end))))

abbrev pub delivered_on : Fields → String → Channel × Outcome → Delivered → Delivered
unfolding put get_or
delivered_on payload name (ch, o) d =
    let r = receipt_of payload name o in
    record {
      channels = put name ch d.channels;
      sends = suc d.sends;
      receipts = d.receipts ++ r ∷ [];
      lines = d.lines ++ sent_on name (get_or "status" null r) (get_or "detail" (text "") r) ∷ [];
    }

abbrev pub is_present : Option Value → Bool
is_present none = false
is_present (some v) = true

abbrev pub usable : Option String → Dict Channel → Option String
usable none chs = none
usable (some name) chs = if has_channel name chs && not (str_eq name "") then some name else none

abbrev pub is_dispatch : Topic → Bool
is_dispatch dispatch = true
is_dispatch t = false

abbrev pub is_ack : MessageType → Bool
is_ack ack = true
is_ack t = false

module _ (out : Outside) where
  -- `_ack`, with `Message.reply`
  unfoldable pub ack_message :
      (name : String) → ℕ → DispatchMessage → List Fields → List Line → DispatchMessage
  unfolding ack_payload
  ack_message name n message receipts reasoning = record {
    sender = name;
    recipient = message.sender;
    type = ack;
    priority = low;
    payload = ack_payload message receipts;
    reasoning = reasoning;
    ttl_seconds = 300;
    topic = dispatch;
    incident_id = message.incident_id;
    module_of = message.module_of;
    escalation_trigger = none;
    timestamp = out.utcnow n;
    id = out.message_id n;
  }

  unfoldable pub deliver_found : Fields → String → Delivered → Option Channel → Delivered
  unfolding send put get_or
  deliver_found payload name d none = d
  deliver_found payload name d (some ch) = delivered_on payload name (send out d.sends payload ch) d

  -- the body of the delivery loop
  unfoldable pub deliver_on : Fields → String → Delivered → Delivered
  unfolding deliver_found find
  deliver_on payload name d = deliver_found payload name d (find name d.channels)

  -- the delivery loop
  unfoldable pub deliver_all : Fields → List String → Delivered → Delivered
  unfolding deliver_on
  deliver_all payload [] d = d
  deliver_all payload (name ∷ rest) d = deliver_all payload rest (deliver_on payload name d)

  -- `is_public_alert`
  unfoldable pub is_public_alert : Fields → Bool
  unfolding get get_or lower_text
  is_public_alert payload =
      is_text "public_alert" (get_or "kind" null payload)
      || (str_eq (lower_text (to_text out (get_or "channel" null payload))) "cap"
          && is_present (get "public_alerts" payload))

  -- the targets, before the fallback
  unfoldable pub targets_of : Dict Channel → Fields → List String × List Line
  unfolding is_public_alert cap_targets select get_or
  targets_of chs payload =
      if is_public_alert payload
      then cap_targets out chs (get_or "channel" null payload)
      else (select out chs (get_or "channel" null payload), [])

  -- the delivery to targets and the ACK
  unfoldable pub execute :
      DispatchMessage → Router → List String → List Line → Router × List DispatchMessage
  unfolding deliver_all ack_message
  execute message r targets reasoning =
      let d =
        deliver_all message.payload targets
          (record { channels = r.channels; sends = r.sends; receipts = []; lines = reasoning }) in
      (
        record r { channels = d.channels; sends = d.sends },
        ack_message r.name d.sends message d.receipts d.lines ∷ [],
      )

  -- the fallback to the router's lowest common denominator
  unfoldable pub fall_back :
      DispatchMessage → Router → Option String → List Line → Router × List DispatchMessage
  unfolding execute ack_message get_or
  fall_back message r none lines = (
    r,
    ack_message r.name r.sends message []
          (lines ++ no_fallback (get_or "channel" null message.payload) ∷ [])
        ∷ [],
  )
  fall_back message r (some name) lines =
      execute message r (name ∷ [])
        (lines ++ fell_back (get_or "channel" null message.payload) name ∷ [])

  unfoldable pub run_order :
      DispatchMessage → Router → List String × List Line → Router × List DispatchMessage
  unfolding execute fall_back
  run_order message r ([], lines) = fall_back message r (usable r.fallback_name r.channels) lines
  run_order message r (name ∷ rest, lines) = execute message r (name ∷ rest) lines

  -- `handle`
  unfoldable pub handle : DispatchMessage → Router → Router × List DispatchMessage
  unfolding targets_of run_order get_or
  handle message r =
      if not (is_dispatch message.topic)
      then (r, [])
      else if str_eq message.sender r.name
          || is_text "dispatch_ack" (get_or "kind" null message.payload)
      then (r, [])
      else if is_ack message.type
      then (r, [])
      else run_order message r (targets_of r.channels message.payload)
