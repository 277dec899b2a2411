-- ===== src/Core/Contracts.antt =====
-- disastermind/core/contracts.py: the message envelope and the enums that agents share.
use far_away.Prelude.{ℕ, String, Bool, true, false, Option, List, [], ◌∷◌}
use far_away.Core.Value.{Value}

-- `Module`
pub data Module : Type 0 where
  cyclone_flood earthquake fire_collapse all : Module

-- `Priority`, 1 to 5
pub data Priority : Type 0 where
  critical high medium low info : Priority

-- `MessageType`
pub data MessageType : Type 0 where
  alert instruction query ack escalation : MessageType

-- `EscalationTrigger`
pub data EscalationTrigger : Type 0 where
  cross_state_resource military_asset mass_evacuation requisition_private : EscalationTrigger
  media_broadcast international_aid state_of_emergency : EscalationTrigger
  armed_forces_civil critical_national_infra : EscalationTrigger

-- In declaration order, as iteration over the enum gives them.
unfoldable pub all_triggers : List EscalationTrigger
all_triggers =
    cross_state_resource ∷ military_asset ∷ mass_evacuation ∷ requisition_private ∷ media_broadcast
    ∷ international_aid ∷ state_of_emergency ∷ armed_forces_civil ∷ critical_national_infra ∷ []

-- `trig in HUMAN_ONLY_TRIGGERS`
unfoldable pub is_human_only : EscalationTrigger → Bool
is_human_only international_aid = true
is_human_only state_of_emergency = true
is_human_only armed_forces_civil = true
is_human_only critical_national_infra = true
is_human_only other = false

-- `trig.value`
unfoldable pub value : EscalationTrigger → String
value cross_state_resource = "cross_state_resource_request"
value military_asset = "military_asset_deployment"
value mass_evacuation = "mandatory_evacuation_gt_10000"
value requisition_private = "requisition_private_infrastructure"
value media_broadcast = "media_broadcast_order"
value international_aid = "international_aid_request"
value state_of_emergency = "declare_state_of_emergency"
value armed_forces_civil = "armed_forces_in_civil_situation"
value critical_national_infra = "critical_national_infrastructure"

-- `trig.name`
unfoldable pub member_name : EscalationTrigger → String
member_name cross_state_resource = "CROSS_STATE_RESOURCE"
member_name military_asset = "MILITARY_ASSET"
member_name mass_evacuation = "MASS_EVACUATION"
member_name requisition_private = "REQUISITION_PRIVATE"
member_name media_broadcast = "MEDIA_BROADCAST"
member_name international_aid = "INTERNATIONAL_AID"
member_name state_of_emergency = "STATE_OF_EMERGENCY"
member_name armed_forces_civil = "ARMED_FORCES_CIVIL"
member_name critical_national_infra = "CRITICAL_NATIONAL_INFRA"

-- `Topic`: the three topics that the commander reads and writes, and any other.
pub data Topic : Type 0 where
  field_order escalations dispatch : Topic
  other : String → Topic

-- `Message`. An agent's payloads `P` and reasoning lines `R` are its own types: a constructor for
-- each dict that it builds and for each text that it formats.
pub record Message (P R : Type 0) : Type 0 where
  pub sender : String
  pub recipient : String
  pub type : MessageType
  pub priority : Priority
  pub payload : P
  pub reasoning : List R
  pub ttl_seconds : ℕ
  pub topic : Topic
  pub incident_id : Value
  pub module_of : Module
  pub escalation_trigger : Option EscalationTrigger
  pub timestamp : String
  pub id : String
