-- ===== src/Field/Beacons.antt =====
-- tier2/field/agent.py: the beacons of the teams, and the dispatch of messages by topic.
use far_away.Prelude.{
  ℕ, suc, ◌+◌, String, Bool, true, false, not, ◌&&◌, Option, none, some, List, [], ◌∷◌, ◌++◌,
  str_eq, leb, ◌==◌, if◌then◌else◌, any, filter, or_else,
}
use far_away.Prelude.Int.{ℤ, pos, sub_ℕ}
use far_away.Core.Value.{
  Value, null, text, int, Fields, end, field, dict, get, get_or, or_value, truthy,
}
use far_away.Core.Convert.{to_int}
use far_away.Core.Dict.{find, put}
use far_away.Core.Contracts.{high, query, field_order, escalations, dispatch, other}
use far_away.Field.Model.{
  Outside, FieldOrder, Coordinator, FieldMessage, str, list_of, coerce_asset_type,
}
use far_away.Field.Agent.{
  is_at_rest, infer_status, active_assignment, flag_message, on_resource_plan, on_routing_plan,
}

abbrev pub has_team_id : Value → Bool
unfolding get
has_team_id (dict r) = elim (get "team_id" r) [ none ↦ false | some v ↦ true ]
has_team_id v = false

abbrev pub gps_kinds : List String
gps_kinds = "gps" ∷ "gps_beacon" ∷ "beacon" ∷ "team_gps" ∷ "ais" ∷ []

-- 25.0 metres, the 64 bits of the float
abbrev stall_distance : ℕ
stall_distance = 0x4039000000000000

module _ (out : Outside) where
  open out use {Place, as_latlon, distance, format, seconds, place_value}

  -- `_parse_iso_seconds(v) or now`
  abbrev seconds_or : ℕ → Value → ℕ
  seconds_or now v = let n = or_else (seconds v) 0 in if n == 0 then now else n

  -- `_record_beacon`
  unfoldable pub record_beacon : String → Fields → Place → ℕ → Coordinator Place → Coordinator Place
  unfolding put infer_status active_assignment coerce_asset_type get_or or_value truthy
  record_beacon t r loc secs s = record s {
    teams =
        put t
          (record {
            team_id = t;
            asset_type = coerce_asset_type (get_or "asset_type" null r);
            location = loc;
            status = str out (or_value (get_or "status" null r) (text (infer_status t s)));
            assignment = or_value (get_or "assignment" null r) (active_assignment t s);
          })
          s.teams;
    last_beacon = put t (loc, secs) s.last_beacon;
  }

  abbrev discard : String → Coordinator Place → Coordinator Place
  discard t s = record s { flagged_stalled = filter (λ u. not (str_eq u t)) s.flagged_stalled }

  -- `_build_stall_order`, with the two places whose distance its texts give
  unfoldable pub stall_message :
      String → FieldOrder Place → (from to : Place) → ℤ → Coordinator Place → FieldMessage
  unfolding flag_message
  stall_message t o from to dt s =
      flag_message out o
        (format
          "STALL DETECTED: team {} moved from {} to {} in {}s while en route — possible field incident; verify status."
          (text t ∷ place_value from ∷ place_value to ∷ int dt ∷ []))
        (format "team {} stalled ({} to {} in {}s) en route to {}"
            (text t ∷ place_value from ∷ place_value to ∷ int dt ∷ o.site ∷ [])
          ∷ "flagging possible field incident (PRD Step 6)"
          ∷ [])
        s

  -- `_check_stall` of a team on its way, with its beacon before this one
  unfoldable pub check_moved :
      String
      → FieldOrder Place
      → Place
      → ℕ
      → Place × ℕ
      → Coordinator Place
      → Coordinator Place × List FieldMessage
  unfolding stall_message
  check_moved t o loc secs (before, then_secs) s =
      let moved = distance loc before in
      if leb moved stall_distance && leb (then_secs + 180) secs
      then (if any (str_eq t) s.flagged_stalled then (s, []) else (
        record s { flagged_stalled = t ∷ s.flagged_stalled; draws = suc s.draws },
        stall_message t o before loc (sub_ℕ secs then_secs) s ∷ [],
      ))
      else if leb moved stall_distance
      then (s, [])
      else (discard t s, [])

  -- `_check_stall`
  unfoldable pub check_stall :
      String
      → Place
      → ℕ
      → Option (Place × ℕ)
      → Coordinator Place
      → Coordinator Place × List FieldMessage
  unfolding check_moved is_at_rest find
  check_stall t loc secs prev s = elim (find t s.active_orders) [
    | none ↦ (discard t s, [])
    | some o ↦
        if is_at_rest t s
        then (discard t s, [])
        else elim prev [ none ↦ (s, []) | some p ↦ check_moved t o loc secs p s ]
  ]

  -- the body of the first loop of `_on_telemetry`, for a reading that is a dict
  unfoldable pub on_reading :
      (now : ℕ) → Fields → Coordinator Place → Coordinator Place × List FieldMessage
  unfolding record_beacon check_stall find get_or or_value truthy
  on_reading now r s =
      let id = or_value (get_or "team_id" null r) (get_or "asset_id" null r) in
      let t = str out id in
      let secs = seconds_or now (or_value (get_or "ts" null r) (get_or "last_update" null r)) in
      elim (as_latlon
        (or_value (or_value (get_or "location" null r) (get_or "latlon" null r)) (dict r))) [
          | none ↦ (s, [])
          | some loc ↦
              if truthy id
              then check_stall t loc secs (find t s.last_beacon) (record_beacon t r loc secs s)
              else (s, [])
        ]

  unfoldable pub on_readings :
      (now : ℕ) → List Value → Coordinator Place → Coordinator Place × List FieldMessage
  unfolding on_reading
  on_readings now [] s = (s, [])
  on_readings now (v ∷ vs) s =
      let (s', ms) = elim v as (λ _. Coordinator Place × List FieldMessage) [
        | dict r ↦ on_reading now r s
        | _ ↦ (s, [])
      ] in
      let (s'', ms') = on_readings now vs s' in (s'', ms ++ ms')

  -- `_request_extra_resources`, `none` for an exception
  unfoldable pub request_extra : FieldMessage → Fields → Coordinator Place → Option FieldMessage
  unfolding active_assignment to_int get_or or_value
  request_extra message r s =
      let team_id = str out (
        or_value (or_value (get_or "team_id" null r) (get_or "asset_id" null r))
          (text "unknown")) in
      let site =
        or_value (or_value (get_or "site" null r) (active_assignment team_id s)) (text "unknown") in
      elim (to_int (or_value (get_or "shortfall" (int (pos 1)) r) (int (pos 1)))) [
        | none ↦ none
        | some shortfall ↦ some (record {
          sender = s.name;
          recipient = "resource";
          type = query;
          priority = high;
          payload = field "kind" (text "resource_request") (
              field "incident_id" message.incident_id (
                field "from_team" (text team_id) (
                  field "site" site (
                    field "shortfall" (int shortfall) (
                      field "note"
                        (text "site over capacity — field coordinator requesting reinforcement")
                        end)))));
          reasoning =
              format "team {} reports {} over capacity by {}"
                (text team_id ∷ site ∷ int shortfall ∷ [])
              ∷ "autonomously requesting extra resources (PRD Step 6)"
              ∷ [];
          ttl_seconds = 300;
          topic = other "tier2.resource_plan";
          incident_id = message.incident_id;
          module_of = message.module_of;
          escalation_trigger = none;
          timestamp = out.stamp s.draws;
          id = out.message_id s.draws;
        })
      ]

  -- the second loop of `_on_telemetry`
  unfoldable pub requests_for :
      FieldMessage → List Value → Coordinator Place → Coordinator Place × Option (List FieldMessage)
  unfolding request_extra get_or truthy
  requests_for message [] s = (s, some [])
  requests_for message (v ∷ vs) s =
      let m : Option (Option FieldMessage) = elim v as (λ _. Option (Option FieldMessage)) [
        | dict r ↦
            if truthy (get_or "site_over_capacity" null r)
            then some (request_extra message r s)
            else none
        | _ ↦ none
      ] in
      elim m [
        | none ↦ requests_for message vs s
        | some none ↦ (s, none)
        | some (some req) ↦
            let (s', rest) = requests_for message vs (record s { draws = suc s.draws }) in
            (s', elim rest [ none ↦ none | some ms ↦ some (req ∷ ms) ])
      ]

  -- `_on_telemetry`
  unfoldable pub on_telemetry :
      FieldMessage → Coordinator Place → Coordinator Place × Option (List FieldMessage)
  unfolding on_readings requests_for list_of get_or
  on_telemetry message s = elim (list_of (get_or "readings" null message.payload)) [
    | none ↦ (s, none)
    | some vs ↦
        if not (any (str_eq (str out (get_or "kind" (text "") message.payload))) gps_kinds)
          && not (any has_team_id vs)
        then (s, some [])
        else let (s', ms) = on_readings (or_else (seconds (text message.timestamp)) 0) vs s in
          let (s'', rest) = requests_for message vs s' in
          (s'', elim rest [ none ↦ none | some ms' ↦ some (ms ++ ms') ])
  ]

  -- `handle`
  unfoldable pub handle :
      FieldMessage → Coordinator Place → Coordinator Place × Option (List FieldMessage)
  unfolding on_telemetry on_resource_plan on_routing_plan
  handle message s = elim message.topic [
    | other topic ↦
        if str_eq topic "tier3.iot_telemetry"
        then on_telemetry message s
        else if str_eq topic "tier2.resource_plan"
        then on_resource_plan out message s
        else if str_eq topic "tier2.routing_plan"
        then on_routing_plan out message s
        else (s, some [])
    | field_order ↦ (s, some [])
    | escalations ↦ (s, some [])
    | dispatch ↦ (s, some [])
  ]
