-- ===== src/Federation/Model.antt =====
-- federation/model.py: the records that districts exchange, and their messages.
use far_away.Prelude.{
  ℕ, String, Bool, false, Option, none, some, str_eq, ◌==◌, if◌then◌else◌, or_else,
}
use far_away.Prelude.Int.{ℤ, pos, negsuc, lt_int, or_zero}
use far_away.Core.Value.{Value, text}
use far_away.Core.Dict.{Dict, find}
use far_away.Core.Contracts.{
  Priority, critical, high, medium, low, info, EscalationTrigger, cross_state_resource,
}

-- `AssetType` of models/domain.py
pub data AssetType : Type 0 where
  boat helicopter ndrf_team sdrf_team medical_unit fire_engine usar_team : AssetType

-- `asset_type.value`
unfoldable pub asset_value : AssetType → String
asset_value boat = "boat"
asset_value helicopter = "helicopter"
asset_value ndrf_team = "ndrf_team"
asset_value sdrf_team = "sdrf_team"
asset_value medical_unit = "medical_unit"
asset_value fire_engine = "fire_engine"
asset_value usar_team = "usar_team"

unfoldable asset_named : String → Option AssetType
asset_named s =
    if str_eq s "boat"
    then some boat
    else if str_eq s "helicopter"
    then some helicopter
    else if str_eq s "ndrf_team"
    then some ndrf_team
    else if str_eq s "sdrf_team"
    then some sdrf_team
    else if str_eq s "medical_unit"
    then some medical_unit
    else if str_eq s "fire_engine"
    then some fire_engine
    else if str_eq s "usar_team"
    then some usar_team
    else none

-- `AssetType(v)`, `none` for its `ValueError`
unfoldable pub asset_type_of : Value → Option AssetType
unfolding asset_named
asset_type_of (text s) = asset_named s
asset_type_of other_value = none

-- `int(priority)`
abbrev pub priority_number : Priority → ℤ
priority_number critical = pos 1
priority_number high = pos 2
priority_number medium = pos 3
priority_number low = pos 4
priority_number info = pos 5

-- `Priority(n)`, `none` for its `ValueError`
unfoldable pub priority_of : ℤ → Option Priority
priority_of (pos n) =
    if n == 1
    then some critical
    else if n == 2
    then some high
    else if n == 3
    then some medium
    else if n == 4
    then some low
    else if n == 5
    then some info
    else none
priority_of (negsuc n) = none

-- A finite float, by its shortest decimal: m / 10^k.
abbrev pub Decimal : Type 0
Decimal = ℤ × ℕ

-- `District`. What is spare is kept by the asset type's value, which a `StrEnum` is equal to.
pub record District : Type 0 where
  pub district_id : String
  pub name : String
  pub state : String
  pub endpoint : String
  pub centroid_lat : Decimal
  pub centroid_lon : Decimal
  pub available : Dict ℤ

-- `max(0, int(pool.get(asset_type, 0)))`
unfoldable pub spare_in : AssetType → Dict ℤ → ℕ
unfolding asset_value find
spare_in asset_type pool = or_zero (or_else (find (asset_value asset_type) pool) (pos 0))

-- `District.spare`
abbrev pub spare : District → AssetType → ℕ
spare d asset_type = spare_in asset_type d.available

-- `AidRequest`. What a payload gives for a text is not checked to be one, so the type of the
-- texts is an argument.
pub record AidRequest (T : Type 0) : Type 0 where
  pub request_id : T
  pub from_district : T
  pub to_district : T
  pub zone_id : T
  pub asset_type : AssetType
  pub quantity : ℤ
  pub priority : Priority
  pub cross_state : Bool
  pub note : T

-- `AidRequest.escalation_trigger`
abbrev pub escalation_trigger : {T : Type 0} → AidRequest T → Option EscalationTrigger
escalation_trigger req = if req.cross_state then some cross_state_resource else none

-- `AidDecision`
pub data AidDecision : Type 0 where
  offer decline : AidDecision

abbrev pub decision_value : AidDecision → String
decision_value offer = "offer"
decision_value decline = "decline"

-- `AidDecision(v)`, `none` for its `ValueError`
unfoldable pub decision_of : Value → Option AidDecision
decision_of (text s) =
    if str_eq s "offer" then some offer else if str_eq s "decline" then some decline else none
decision_of v = none

-- `AidOffer`
pub record AidOffer (T : Type 0) : Type 0 where
  pub request_id : T
  pub from_district : T
  pub to_district : T
  pub asset_type : AssetType
  pub decision : AidDecision
  pub quantity : ℤ
  pub note : T

-- `AidOffer.is_offer`
unfoldable pub is_offer : {T : Type 0} → AidOffer T → Bool
is_offer o = elim o.decision [ offer ↦ lt_int (pos 0) o.quantity | decline ↦ false ]
