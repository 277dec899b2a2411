-- ===== src/Field/Tests.antt =====
-- The field agent and the commander at a concrete plan.
use far_away.Prelude.{
  ℕ, ◌+◌, ◌-◌, ◌≡◌, refl, true, false, Option, none, some, List, [], ◌∷◌, length, or_else,
}
use mathlib.Core.List.{map}
use far_away.Prelude.Int.{pos}
use far_away.Core.Value.{
  Value, null, text, int, list, dict, Fields, end, field, nil, item, get_or, or_value,
}
use far_away.Core.Text.{lower, occurs_in}
use far_away.Core.Contracts.{all, high, instruction, other, Topic, escalations}
use far_away.Commander.Matrix.{
  classify, decide, block_trigger, coerce_trigger, trigger_of, to_text, infer_trigger,
  is_mass_evacuation, scale_of, words, keyword_match, keyword_triggers, haystack_of,
}
use far_away.Commander.State.{Commander, Env, init, Sent}
use far_away.Commander.Agent.{
  Outcome, returned, raised, handle, orders_of, block_of, review_items, review_member, review,
  register_and_escalate,
}
use far_away.Federation.Model.{boat}
use far_away.Field.Model.{Outside, FieldTeam, FieldOrder, Coordinator, FieldMessage, order_fields}
use far_away.Field.Giving.{Batch, give_orders}
use far_away.Field.Agent.{tick, flagged, flag_message}
use far_away.Field.Beacons as Beacons
use far_away.Field.Teams.{chosen, nobody, select_team}
use far_away.Field.Choices.{IsChoice, select_team-IsChoice}
use far_away.Field.Batches.{Keeps, give_orders-Keeps}
use far_away.Field.Hints.{received, IsSent, flag_message-IsSent}

abbrev as_place : Value → Option ℕ
as_place (int (pos n)) = some n
as_place v = none

-- Places are whole numbers; a text that is put together is its template.
abbrev flat : Outside
flat = record {
  Place = ℕ;
  as_latlon = as_place;
  place_value = λ p. int (pos p);
  distance = λ a b. a - b + (b - a);
  same = λ a b. false;
  render = λ v. "?";
  seconds = λ v. none;
  format = λ template values. template;
  hex = λ n. "0";
  message_id = λ n. "m";
  stamp = λ n. "t";
}

abbrev env : Env
env = record {
  hex = λ n. "0";
  message_id = λ n. "m";
  stamp = λ n. "t";
  clock = λ n. 1000;
  write_ok = λ n. true;
  render = λ v. "?";
}

abbrev boat_team : FieldTeam ℕ
boat_team = record {
  team_id = "b1";
  asset_type = boat;
  location = 3;
  status = "idle";
  assignment = null;
}

abbrev fresh : Coordinator ℕ
fresh = record {
  name = "field_coordinator";
  teams = ("b1", boat_team) ∷ [];
  last_beacon = ("b1", (3, 100)) ∷ [];
  active_orders = [];
  resource_plan = [];
  routing_plan = [];
  flagged_stalled = [];
  draws = 0;
}

abbrev plan : FieldMessage
plan = record {
  sender = "resource.allocator";
  recipient = "broadcast";
  type = instruction;
  priority = high;
  payload = field "kind" (text "resource_plan") (
      field "orders"
        (list (
          item
            (dict (
              field "asset_id" (text "b1")
                (field "target_cell" (text "delta") (field "population" (int (pos 20000)) end))))
            nil))
        end);
  reasoning = [];
  ttl_seconds = 300;
  topic = other "tier2.resource_plan";
  incident_id = text "inc";
  module_of = all;
  escalation_trigger = none;
  timestamp = "t";
  id = "m";
}

abbrev commander : Commander
commander = init "commander" 600

abbrev after_plan : Coordinator ℕ
after_plan = (Beacons.handle flat plan fresh).0

abbrev topics_of : Commander × Outcome → List Topic
topics_of (c, raised) = []
topics_of (c, returned ms) = map (λ (m : Sent). m.topic) ms

abbrev answers : List FieldMessage → List (List Topic)
answers ms = map (λ m. topics_of (handle env (received m) commander)) ms

-- An order for more than 10000 people is escalated.
plan_is_held : answers (or_else (Beacons.handle flat plan fresh).1 []) ≡ (escalations ∷ []) ∷ []
unfolding Beacons.handle handle orders_of block_of review_items review_member review
    register_and_escalate classify decide block_trigger coerce_trigger trigger_of to_text
plan_is_held = refl

-- The order that the plan gives.
abbrev boat_order : FieldOrder ℕ
boat_order = record {
  team_id = "b1";
  site = text "delta";
  waypoints = 3 ∷ [];
  priority = pos 3;
  reason = text "deployment";
  channel = "radio";
  incident_id = "inc";
  order_id = text "fo-0";
  asset_id = text "b1";
  flag = none;
}

abbrev evacuation : Fields
evacuation =
    field "asset_id" (text "b1")
      (field "target_cell" (text "delta") (field "population" (int (pos 9000)) end))

abbrev route : Value
route = dict (field "population" (int (pos 2000)) end)

-- Three minutes without a beacon later, the same order is flagged.
silence_flags : length (tick flat 280 after_plan).1 ≡ 1
unfolding Beacons.handle tick
silence_flags = refl

flag_message-IsSent_example :
    IsSent commander
      (handle env (received (flag_message flat boat_order "beacon lost" [] fresh)) commander)
unfolding coerce_trigger trigger_of get_or or_value is_mass_evacuation scale_of words occurs_in
    lower infer_trigger order_fields flagged keyword_match keyword_triggers haystack_of
flag_message-IsSent_example =
    flag_message-IsSent env flat boat_order "beacon lost" [] fresh commander refl

-- An order of a higher priority for another boat.
abbrev rescue : Fields
rescue =
    field "asset_type" (text "boat")
      (field "target_cell" (text "ghat") (field "priority" (int (pos 1)) end))

-- The boat, which has an order, is taken for the rescue, unless the batch has it already.
rescue_preempts : select_team flat rescue [] after_plan ≡ chosen "b1"
unfolding Beacons.handle select_team
rescue_preempts = refl

rescue_waits : select_team flat rescue ("b1" ∷ []) after_plan ≡ nobody
unfolding Beacons.handle select_team
rescue_waits = refl

select_team-IsChoice_example :
    IsChoice flat after_plan rescue [] (select_team flat rescue [] after_plan)
select_team-IsChoice_example = select_team-IsChoice flat after_plan rescue []

abbrev no_orders : Batch ℕ
no_orders = record {
  assigned = [];
  orders = [];
  reasoning = [];
  population = pos 0;
  cross_state = false;
  requisition = false;
}

give_orders-Keeps_example :
    Keeps flat (give_orders flat "inc" [] (rescue ∷ rescue ∷ []) no_orders fresh)
give_orders-Keeps_example =
    give_orders-Keeps flat "inc" [] (rescue ∷ rescue ∷ []) no_orders fresh
      (record { same_teams = λ t. refl; apart = refl; active = tt })
