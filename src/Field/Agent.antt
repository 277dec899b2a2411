-- ===== src/Field/Agent.antt =====
-- tier2/field/agent.py: the handling of plans and beacons, and the sweep for silent teams.
use far_away.Prelude.{
  ℕ, suc, ◌+◌, String, Bool, false, not, ◌&&◌, ◌||◌, Option, none, some, List, [], ◌∷◌, ◌++◌,
  str_eq, leb, if◌then◌else◌, any, ◌>>=◌,
}
use far_away.Prelude.Int.{ℤ, pos, min_int, sub_ℕ}
use far_away.Core.Value.{Value, null, text, int, get_or, or_value}
use far_away.Core.Dict.{Dict, find, put}
use far_away.Core.Contracts.{all, high}
use far_away.Field.Model.{Outside, FieldOrder, Coordinator, FieldMessage, list_of, dicts_in}
use far_away.Field.Orders.{field_message, generate_field_orders}

abbrev is_stationary : String → Bool
is_stationary status = str_eq status "onsite" || str_eq status "returning" || str_eq status "idle"

module _ {Place : Type 0} where
  -- a team is at its site, on the way back or idle
  unfoldable pub is_at_rest : String → Coordinator Place → Bool
  unfolding find
  is_at_rest t s = elim (find t s.teams) [ none ↦ false | some team ↦ is_stationary team.status ]

  -- `_infer_status`
  unfoldable pub infer_status : String → Coordinator Place → String
  unfolding find
  infer_status t s = elim (find t s.active_orders) [
    | some o ↦ "enroute"
    | none ↦ elim (find t s.teams) [ none ↦ "idle" | some team ↦ team.status ]
  ]

  -- `_active_assignment`
  unfoldable pub active_assignment : String → Coordinator Place → Value
  unfolding find
  active_assignment t s = elim (find t s.active_orders) [ none ↦ null | some o ↦ o.site ]

  -- `flagged` with its three keys
  unfoldable pub flagged : (reason : String) → FieldOrder Place → FieldOrder Place
  flagged reason o = record o {
    priority = min_int o.priority (pos 2);
    reason = text reason;
    flag = some "possible_incident";
  }

module _ (out : Outside) where
  open out use {Place, as_latlon, distance, format, seconds}

  -- a message with one flagged order and no escalation hint
  unfoldable pub flag_message :
      FieldOrder Place → (reason : String) → List String → Coordinator Place → FieldMessage
  unfolding field_message flagged
  flag_message o reason reasoning s =
      field_message out s.draws s.name o.incident_id (flagged reason o ∷ []) reasoning high none all

  abbrev silent_reason : String → ℤ → String
  silent_reason t silent =
      format
        "SILENT BEACON: no GPS update from team {} for {}s — possible field incident; verify status."
        (text t ∷ int silent ∷ [])

  -- the body of the loop of `tick`
  unfoldable pub check_silent :
      (now : ℕ)
      → String
      → FieldOrder Place
      → Coordinator Place
      → Coordinator Place × List FieldMessage
  unfolding is_at_rest flag_message find
  check_silent now t o s = elim (find t s.last_beacon) [
    | none ↦ (s, [])
    | some (place, secs) ↦
        if not (is_at_rest t s) && leb (secs + 180) now && not (any (str_eq t) s.flagged_stalled)
        then (
          record s { flagged_stalled = t ∷ s.flagged_stalled; draws = suc s.draws },
          flag_message o (silent_reason t (sub_ℕ now secs))
                (format "team {} beacon silent {}s en route" (text t ∷ int (sub_ℕ now secs) ∷ [])
                  ∷ "flagging possible field incident (PRD Step 6/10)"
                  ∷ [])
                s
              ∷ [],
        )
        else (s, [])
  ]

  unfoldable pub check_all :
      (now : ℕ)
      → Dict (FieldOrder Place)
      → Coordinator Place
      → Coordinator Place × List FieldMessage
  unfolding check_silent
  check_all now [] s = (s, [])
  check_all now ((t, o) ∷ rest) s =
      let (s', ms) = check_silent now t o s in
      let (s'', ms') = check_all now rest s' in (s'', ms ++ ms')

  -- `tick`
  unfoldable pub tick : (now : ℕ) → Coordinator Place → Coordinator Place × List FieldMessage
  unfolding check_all
  tick now s = check_all now s.active_orders s

  -- The incident of a plan. An id that is neither a text nor missing is not modelled.
  abbrev incident_of : FieldMessage → Option String
  unfolding get_or or_value
  incident_of message =
      elim (or_value message.incident_id (get_or "incident_id" null message.payload)) [
        | text s ↦ some s
        | _ ↦ none
      ]

  abbrev put_orders : String → List Value → Coordinator Place → Coordinator Place
  unfolding put dicts_in
  put_orders incident vs s = record s { resource_plan = put incident (dicts_in vs) s.resource_plan }

  abbrev put_routes : String → List Value → Coordinator Place → Coordinator Place
  unfolding put
  put_routes incident vs s = record s { routing_plan = put incident vs s.routing_plan }

  abbrev is_request : Value → Bool
  is_request (text s) = str_eq s "resource_request"
  is_request v = false

  -- `_on_resource_plan`; a plan whose gaps are no list raises before it is stored
  unfoldable pub on_resource_plan :
      FieldMessage → Coordinator Place → Coordinator Place × Option (List FieldMessage)
  unfolding list_of generate_field_orders put dicts_in get_or or_value
  on_resource_plan message s =
      if is_request (get_or "kind" null message.payload)
      then (s, some [])
      else elim (incident_of message) [
        | none ↦ (s, some [])
        | some incident ↦
            elim (list_of (get_or "gaps" null message.payload) >>= λ _.
            list_of (get_or "orders" null message.payload)) [
              | none ↦ (s, none)
              | some vs ↦
                  generate_field_orders out incident message.module_of (put_orders incident vs s)
            ]
      ]

  -- `_on_routing_plan`
  unfoldable pub on_routing_plan :
      FieldMessage → Coordinator Place → Coordinator Place × Option (List FieldMessage)
  unfolding list_of generate_field_orders put find get_or or_value
  on_routing_plan message s = elim (incident_of message) [
    | none ↦ (s, some [])
    | some incident ↦ elim (list_of (get_or "routes" null message.payload)) [
      | none ↦ (s, none)
      | some vs ↦ elim (find incident s.resource_plan) [
        | none ↦ (put_routes incident vs s, some [])
        | some plan ↦
            generate_field_orders out incident message.module_of (put_routes incident vs s)
      ]
    ]
  ]
