-- ===== src/Field/Giving.antt =====
-- tier2/field/agent.py: the orders that the agent gives to teams for a resource plan, one after the other.
-- A call returns, or raises, which leaves what it has changed.
use Prim.Native.String.{◌++◌ as append}
use mathlib.Core.List.{map}
use far_away.Prelude.{
  suc, String, Bool, not, ◌||◌, Option, none, some, List, [], ◌∷◌, ◌++◌, str_eq, if◌then◌else◌,
  filter, ◌>>=◌,
}
use far_away.Prelude.Int.{ℤ, pos, lt_int, add_int}
use far_away.Core.Value.{Value, null, text, int, Fields, get_or, or_value, truthy}
use far_away.Core.Dict.{find, put}
use far_away.Core.Convert.{to_int}
use far_away.Field.Model.{Outside, FieldOrder, Coordinator, int_at, count_at, site_in}
use far_away.Field.Teams.{
  Choice, raised, nobody, chosen, select_team, waypoints_for, channel_for, is_reassignment,
}

-- The local variables of `_generate_field_orders`.
pub record Batch (Place : Type 0) : Type 0 where
  pub assigned : List String
  pub orders : List (FieldOrder Place)
  pub reasoning : List String
  pub population : ℤ
  pub cross_state : Bool
  pub requisition : Bool

-- stable insertion by the priority
unfoldable pub insert_order : ℤ → Fields → List (ℤ × Fields) → List (ℤ × Fields)
insert_order p d [] = (p, d) ∷ []
insert_order p d ((q, e) ∷ rest) =
    let next = insert_order p d rest in if lt_int p q then (p, d) ∷ (q, e) ∷ rest else (q, e) ∷ next

unfoldable pub sort_from : List (ℤ × Fields) → List Fields → Option (List (ℤ × Fields))
unfolding insert_order to_int get_or
sort_from sorted [] = some sorted
sort_from sorted (d ∷ ds) =
    int_at "priority" (pos 3) d >>= λ p. sort_from (insert_order p d sorted) ds

-- `sorted(orders, key=lambda o: int(o.get("priority", 3)))`
unfoldable pub by_priority : List Fields → Option (List Fields)
unfolding sort_from
by_priority ds = sort_from [] ds >>= λ sorted. some (map (λ (e : ℤ × Fields). e.1) sorted)

module _ (out : Outside) where
  open out use {Place, format}

  -- `_mark_enroute`
  unfoldable pub mark_enroute : String → Value → Coordinator Place → Coordinator Place
  unfolding find put
  mark_enroute team_id site s = record s {
    teams = elim (find team_id s.teams) [
      | none ↦ s.teams
      | some team ↦ put team_id (record team { status = "enroute"; assignment = site }) s.teams
    ];
    flagged_stalled = filter (λ t. not (str_eq t team_id)) s.flagged_stalled;
  }

  -- the order that a team gets
  unfoldable pub order_for :
      String → Fields → String → List Place → ℤ → Coordinator Place → FieldOrder Place
  unfolding channel_for is_reassignment get_or or_value
  order_for incident_id d team_id waypoints priority s =
      let reason = get_or "reason" (text "deployment") d in
      record {
        team_id = team_id;
        site = or_value (site_in d) (text "unknown");
        waypoints = waypoints;
        priority = priority;
        reason =
            if is_reassignment out team_id d s
            then text (format "REASSIGNED to higher-priority rescue: {}" (reason ∷ []))
            else reason;
        channel = channel_for out d team_id s;
        incident_id = incident_id;
        order_id = or_value (get_or "order_id" null d) (text (append "fo-" (out.hex s.draws)));
        asset_id = get_or "asset_id" null d;
        flag = none;
      }

  -- what an order of the plan adds to the batch, apart from its population
  unfoldable pub add_order :
      Fields → FieldOrder Place → (reassigned : Bool) → Batch Place → Batch Place
  unfolding truthy get_or
  add_order d order reassigned b = record {
    assigned = order.team_id ∷ b.assigned;
    orders = b.orders ++ order ∷ [];
    reasoning =
        if reassigned
        then b.reasoning
          ++ format "reassigned {} -> {} (priority {})"
              (text order.team_id ∷ order.site ∷ int order.priority ∷ [])
            ∷ []
        else b.reasoning;
    population = b.population;
    cross_state = truthy (get_or "cross_state" null d) || b.cross_state;
    requisition =
        truthy (get_or "requisition_private" null d)
        || truthy (get_or "private_infrastructure" null d)
        || b.requisition;
  }

  abbrev pub add_population : Option ℤ → Batch Place → Option (Batch Place)
  unfolding add_int
  add_population none b = none
  add_population (some n) b = some (record b { population = add_int b.population n })

  -- the loop's body for a team, its waypoints and its priority
  unfoldable pub give_order :
      String
      → Fields
      → String
      → List Place
      → ℤ
      → Batch Place
      → Coordinator Place
      → Coordinator Place × Option (Batch Place)
  unfolding order_for add_order mark_enroute put is_reassignment add_int to_int get_or or_value
  give_order incident_id d team_id waypoints priority b s =
      let order = order_for incident_id d team_id waypoints priority s in
      let s' : Coordinator Place = record s {
        active_orders = put team_id order s.active_orders;
        draws = if truthy (get_or "order_id" null d) then s.draws else suc s.draws;
      } in
      (
        mark_enroute team_id order.site s',
        add_population (count_at "population" d)
            (add_order d order (is_reassignment out team_id d s) b),
      )

  abbrev pub prepared : Fields → List Value → Option (List Place × ℤ)
  unfolding waypoints_for to_int get_or
  prepared d routes = do
    ws ← waypoints_for out d routes
    p ← int_at "priority" (pos 3) d
    some (ws, p)

  abbrev pub give_prepared :
      String
      → Fields
      → String
      → Option (List Place × ℤ)
      → Batch Place
      → Coordinator Place
      → Coordinator Place × Option (Batch Place)
  unfolding give_order
  give_prepared incident_id d t none b s = (s, none)
  give_prepared incident_id d t (some (ws, p)) b s = give_order incident_id d t ws p b s

  -- the body of the loop, for a choice of a team
  unfoldable pub give_to :
      String
      → List Value
      → Fields
      → Choice
      → Batch Place
      → Coordinator Place
      → Coordinator Place × Option (Batch Place)
  unfolding give_order waypoints_for
  give_to incident_id routes d raised b s = (s, none)
  give_to incident_id routes d nobody b s = (s, some b)
  give_to incident_id routes d (chosen t) b s =
      give_prepared incident_id d t (prepared d routes) b s

  -- the loop over the orders of the plan
  unfoldable pub give_orders :
      String
      → List Value
      → List Fields
      → Batch Place
      → Coordinator Place
      → Coordinator Place × Option (Batch Place)
  unfolding select_team give_to
  give_orders incident_id routes [] b s = (s, some b)
  give_orders incident_id routes (d ∷ ds) b s =
      let r = give_to incident_id routes d (select_team out d b.assigned s) b s in
      elim r.1 [ none ↦ (r.0, none) | some b' ↦ give_orders incident_id routes ds b' r.0 ]
