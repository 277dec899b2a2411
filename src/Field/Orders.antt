-- ===== src/Field/Orders.antt =====
-- tier2/field/agent.py: the message of the orders that were given, with its escalation hint.
use far_away.Prelude.{
  ℕ, suc, String, Bool, false, Option, none, some, List, [], ◌∷◌, if◌then◌else◌, or_else, ◌>>=◌,
  length,
}
use far_away.Prelude.Int.{ℤ, pos, lt_int, min_int, add_int}
use far_away.Core.Value.{Value, text, int, Fields, dict, get_or, or_value}
use far_away.Core.Dict.{find}
use far_away.Core.Contracts.{
  Module, Priority, critical, high, medium, low, info, instruction, field_order, mass_evacuation,
  cross_state_resource, requisition_private,
}
use far_away.Core.Convert.{to_int}
use far_away.Field.Model.{
  Outside, FieldOrder, Coordinator, FieldMessage, Hint, count_at, trigger_in, order_payload,
}
use far_away.Field.Giving.{Batch, by_priority, give_orders}

unfoldable pub population_of : Value → Option ℤ
unfolding to_int get_or or_value
population_of (dict route) = count_at "population" route
population_of v = some (pos 0)

-- `_route_population`
unfoldable pub route_population : List Value → Option ℤ
unfolding to_int get_or or_value add_int population_of
route_population [] = some (pos 0)
route_population (v ∷ vs) = do
  n ← population_of v
  rest ← route_population vs
  some (add_int n rest)

-- `min(priorities, default=3)` from a first one on
unfoldable pub least_priority : {Place : Type 0} → ℤ → List (FieldOrder Place) → ℤ
least_priority p [] = p
least_priority p (o ∷ orders) = least_priority (min_int p o.priority) orders

-- `Priority(min(max(p, 1), 5))`
unfoldable pub clamped : ℤ → Priority
clamped p =
    if lt_int p (pos 2)
    then critical
    else if lt_int p (pos 3)
    then high
    else if lt_int p (pos 4)
    then medium
    else if lt_int p (pos 5)
    then low
    else info

module _ (out : Outside) where
  open out use {Place, format}

  -- `_build_escalation_hint`
  unfoldable pub escalation_hint : String → ℤ → (cross_state requisition : Bool) → ℤ → Option Hint
  escalation_hint incident_id population cross_state requisition n_orders =
      if lt_int (pos 10000) population
      then some (record {
        trigger = mass_evacuation;
        summary =
            format "field orders imply evacuation of ~{} people (> 10000) for incident {}"
              (int population ∷ text incident_id ∷ []);
        scale = population;
      })
      else if cross_state
      then some (record {
        trigger = cross_state_resource;
        summary =
            format "field order requires cross-state team movement for incident {}"
              (text incident_id ∷ []);
        scale = n_orders;
      })
      else if requisition
      then some (record {
        trigger = requisition_private;
        summary =
            format "field order requires requisition of private infrastructure for incident {}"
              (text incident_id ∷ []);
        scale = n_orders;
      })
      else none

  -- `_emit_field_order`, at the n-th draw
  unfoldable pub field_message :
      ℕ
      → String
      → String
      → List (FieldOrder Place)
      → List String
      → Priority
      → Option Hint
      → Module
      → FieldMessage
  unfolding order_payload
  field_message n sender incident_id orders reasoning priority hint module_of = record {
    sender = sender;
    recipient = "commander";
    type = instruction;
    priority = priority;
    payload = order_payload out incident_id orders hint;
    reasoning = reasoning;
    ttl_seconds = 300;
    topic = field_order;
    incident_id = text incident_id;
    module_of = module_of;
    escalation_trigger = trigger_in hint;
    timestamp = out.stamp n;
    id = out.message_id n;
  }

  abbrev count {ℓ} : {A : Type ℓ} → List A → ℤ
  count xs = pos (length xs)

  -- the message of the orders that were given, if there are any
  unfoldable pub message_with :
      String
      → Module
      → Coordinator Place
      → (reasoning : List String) → Option Hint
      → List (FieldOrder Place)
      → Coordinator Place × List FieldMessage
  unfolding field_message least_priority clamped
  message_with incident_id module_of s reasoning hint [] = (s, [])
  message_with incident_id module_of s reasoning hint (o ∷ orders) = (
    record s { draws = suc s.draws },
    field_message s.draws s.name incident_id (o ∷ orders) reasoning
          (clamped (least_priority o.priority orders)) hint module_of
        ∷ [],
  )

  -- the end of `_generate_field_orders`
  unfoldable pub message_of :
      String → Module → Coordinator Place → Batch Place → ℤ → Coordinator Place × List FieldMessage
  unfolding escalation_hint message_with add_int
  message_of incident_id module_of s b from_routes =
      message_with incident_id module_of s b.reasoning
        (escalation_hint incident_id (add_int b.population from_routes) b.cross_state b.requisition
          (count b.orders))
        b.orders

  unfoldable pub finish :
      String
      → Module
      → List Value
      → Coordinator Place × Option (Batch Place)
      → Coordinator Place × Option (List FieldMessage)
  unfolding message_of route_population
  finish incident_id module_of routes (s, none) = (s, none)
  finish incident_id module_of routes (s, some b) = elim (route_population routes) [
    | none ↦ (s, none)
    | some n ↦ let (s', ms) = message_of incident_id module_of s b n in (s', some ms)
  ]

  -- the loop and what follows it, on the sorted orders
  unfoldable pub fuse :
      String
      → Module
      → List Value
      → List Fields
      → Coordinator Place
      → Coordinator Place × Option (List FieldMessage)
  unfolding give_orders finish
  fuse incident_id module_of routes ds s = finish incident_id module_of routes (
      give_orders out incident_id routes ds
        (record {
          assigned = [];
          orders = [];
          reasoning =
              format "fusing {} deployment orders with {} routes for incident {}"
                (int (count ds) ∷ int (count routes) ∷ text incident_id ∷ [])
              ∷ [];
          population = pos 0;
          cross_state = false;
          requisition = false;
        })
        s)

  -- `_generate_field_orders`
  unfoldable pub generate_field_orders :
      String → Module → Coordinator Place → Coordinator Place × Option (List FieldMessage)
  unfolding by_priority fuse find
  generate_field_orders incident_id module_of s =
      elim (by_priority (or_else (find incident_id s.resource_plan) [])) [
        | none ↦ (s, none)
        | some [] ↦ (s, some [])
        | some (d ∷ ds) ↦
            fuse incident_id module_of (or_else (find incident_id s.routing_plan) []) (d ∷ ds) s
      ]
