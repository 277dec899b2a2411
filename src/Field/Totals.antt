-- ===== src/Field/Totals.antt =====
-- tier2/field/agent.py with tier1/commander/agent.py: the people and the teams that the orders of a plan
-- concern, and what the commander does with the message of these orders.
use far_away.Prelude.{
  ◌≡◌, ◌⊎◌, Bool, false, ◌||◌, Option, none, some, List, [], ◌∷◌, ◌++◌, any, All, length,
}
use far_away.Prelude.Int.{ℤ, pos, lt_int, add_int}
use far_away.Core.Value.{Value, null, dict, text, Fields, get_or, or_value, truthy}
use far_away.Commander.State.{Commander, Env}
use far_away.Commander.Agent.{handle}
use far_away.Field.Model.{Outside, FieldOrder, Coordinator, FieldMessage, count_at, site_in}
use far_away.Field.Giving.{Batch}
use far_away.Field.Hints.{received, IsHeld}

-- The people of the orders, added up from a number on; what names none counts for nothing.
abbrev plus : ℤ → Option ℤ → ℤ
plus n none = n
plus n (some p) = add_int n p

abbrev pub people : ℤ → List Fields → ℤ
people n [] = n
people n (d ∷ ds) = people (plus n (count_at "population" d)) ds

-- The order needs a team from another state; it needs what is private.
abbrev pub crosses : Fields → Bool
crosses d = truthy (get_or "cross_state" null d)

abbrev pub requisitions : Fields → Bool
requisitions d =
    truthy (get_or "requisition_private" null d) || truthy (get_or "private_infrastructure" null d)

-- The people of a route; what is no route has none.
abbrev Counts : Value → ℤ → Type 0
Counts (dict route) n = count_at "population" route ≡ some n
Counts v n = n ≡ pos 0

pub data Sums : List Value → ℤ → Type 0 where
  no_route : Sums [] (pos 0)
  then_route :
      (v : Value) (n : ℤ) (vs : List Value) (rest : ℤ)
      → Counts v n
      → Sums vs rest
      → Sums (v ∷ vs) (add_int n rest)

abbrev SumsTo : List Value → Option ℤ → Type 0
SumsTo vs none = Unit
SumsTo vs (some n) = Sums vs n

abbrev CountsTo : Value → Option ℤ → Type 0
CountsTo v none = Unit
CountsTo v (some n) = Counts v n

module _ (out : Outside) where
  abbrev Place : Type 0
  Place = Outside.Place out

  -- The order is for the site and the asset of the plan's order.
  abbrev IsFor : Fields → FieldOrder Place → Type 0
  IsFor d o =
      (o.site ≡ or_value (site_in d) (text "unknown")) × (o.asset_id ≡ get_or "asset_id" null d)

  -- Of the plan's orders, those that are given to teams, with the orders that the teams get.
  pub data Gives : List Fields → List Fields → List (FieldOrder Place) → Type 0 where
    ended : Gives [] [] []
    skipped :
        (d : Fields) (ds given : List Fields) (orders : List (FieldOrder Place))
        → Gives ds given orders
        → Gives (d ∷ ds) given orders
    gave :
        (d : Fields) (o : FieldOrder Place) (ds given : List Fields)
        (orders : List (FieldOrder Place))
        → IsFor d o
        → Gives ds given orders
        → Gives (d ∷ ds) (d ∷ given) (o ∷ orders)

  -- What orders that are given add to a batch.
  record Adds (b : Batch Place) (given : List Fields) (orders : List (FieldOrder Place))
      (b' : Batch Place) : Type 0 where
    more : b'.orders ≡ b.orders ++ orders
    counted : b'.population ≡ people b.population given
    crossing : b'.cross_state ≡ (any crosses given || b.cross_state)
    requiring : b'.requisition ≡ (any requisitions given || b.requisition)

  abbrev One : Batch Place → Fields → Option (Batch Place) → Type 0
  One b d none = Unit
  One b d (some b') = (b' ≡ b) ⊎ ((o : FieldOrder Place) × IsFor d o × Adds b (d ∷ []) (o ∷ []) b')

  abbrev Told : Batch Place → List Fields → Coordinator Place × Option (Batch Place) → Type 0
  Told b ds (s, none) = Unit
  Told b ds (s, some b') =
      (given : List Fields) × ((orders : List (FieldOrder Place)) × Gives ds given orders
        × Adds b given orders b')

  -- The plan is due to be held: its orders and the routes concern more than 10000 people, or an order
  -- needs a team from another state or what is private.
  abbrev pub is_plan_due : List Fields → ℤ → Bool
  is_plan_due given on_routes =
      lt_int (pos 10000) (add_int (people (pos 0) given) on_routes)
      || (any crosses given || any requisitions given)

  -- There is one message, if there are orders.
  abbrev IsOneFor : List (FieldOrder Place) → List FieldMessage → Type 0
  IsOneFor [] ms = ms ≡ []
  IsOneFor (o ∷ orders) ms = length ms ≡ 1

  -- What the agent sends for the plan's orders and the routes, and what a commander does with it.
  abbrev pub HoldsPlan :
      Env
      → Commander
      → List Value
      → List Fields
      → Coordinator Place × Option (List FieldMessage)
      → Type 0
  HoldsPlan env c routes ds (s, none) = Unit
  HoldsPlan env c routes ds (s, some ms) =
      (given : List Fields) × ((orders : List (FieldOrder Place)) × ((on_routes : ℤ) × Gives ds
            given orders
          × Sums routes on_routes
          × IsOneFor orders ms
          × ((is_plan_due given on_routes ≡ false)
              ⊎ All (λ m. IsHeld (length orders) c (handle env (received m) c)) ms)))
