-- ===== src/Field/Batches.antt =====
-- tier2/field/agent.py: what the loop of `_generate_field_orders` keeps of its orders.
use far_away.Prelude.{
  String, ◌≡◌, refl, sym, ap, ◌∙◌, true, false, Option, none, some, List, [], ◌∷◌, ◌++◌, str_eq,
  eq_iff, any, All, All-snoc, arith, any-append, any_sym, all_distinct, all_distinct-snoc,
}
use text.Mathlib.TextPositions.{eq_refl}
use far_away.Prelude.Int.{ℤ}
use far_away.Core.Value.{Value, Fields}
use far_away.Core.Dict.{find, put, find-put}
use far_away.Field.Model.{Outside, FieldOrder, Coordinator, count_at}
use far_away.Field.Teams.{Choice, raised, nobody, chosen, select_team, is_reassignment}
use far_away.Field.Choices.{IsChoice, select_team-IsChoice}
use far_away.Field.Giving.{
  Batch, add_order, give_order, add_population, give_to, give_prepared, prepared, give_orders,
  mark_enroute, order_for,
}

module _ (out : Outside) where
  abbrev Order : Type 0
  Order = FieldOrder (Outside.Place out)

  abbrev pub teams_of : List Order → List String
  teams_of [] = []
  teams_of (o ∷ orders) = o.team_id ∷ teams_of orders

  teams_of-append : (xs ys : List Order) → teams_of (xs ++ ys) ≡ teams_of xs ++ teams_of ys
  teams_of-append [] ys = refl
  teams_of-append (o ∷ xs) ys = ap (λ ts. o.team_id ∷ ts) (teams_of-append xs ys)

  -- The order is the one that its team has.
  abbrev pub IsActive : Coordinator (Outside.Place out) → Order → Type 0
  IsActive s o = find o.team_id s.active_orders ≡ some o

  -- What a batch keeps: its teams are those with an order, each order is its team's active one, and no
  -- team has two.
  pub record IsBatch (s : Coordinator (Outside.Place out)) (b : Batch (Outside.Place out))
      : Type 0 where
    pub same_teams : (t : String) → any (str_eq t) b.assigned ≡ any (str_eq t) (teams_of b.orders)
    pub apart : all_distinct (teams_of b.orders) ≡ true
    pub active : All (IsActive s) b.orders

  -- The same of an ending, where no exception was raised.
  abbrev pub Keeps : Coordinator (Outside.Place out) × Option (Batch (Outside.Place out)) → Type 0
  Keeps (s, none) = Unit
  Keeps (s, some b) = IsBatch s b

  put-IsActive :
      (s s' : Coordinator (Outside.Place out)) (t : String) (o : Order) (orders : List Order)
      → s'.active_orders ≡ put t o s.active_orders
      → any (str_eq t) (teams_of orders) ≡ false
      → All (IsActive s) orders
      → All (IsActive s') orders
  put-IsActive s s' t o [] e new all = tt
  put-IsActive s s' t o (o' ∷ orders) e new all = (
    ap (find o'.team_id) e
        ∙ find-put t o'.team_id o s.active_orders
        ∙ ground (arith, eq_iff t o'.team_id, all.0),
    put-IsActive s s' t o orders e (ground arith) all.1,
  )

  give_order-Keeps :
      (incident : String) (d : Fields) (t : String) (ws : List (Outside.Place out)) (p : ℤ)
      (b : Batch (Outside.Place out)) (s : Coordinator (Outside.Place out))
      → any (str_eq t) b.assigned ≡ false
      → IsBatch s b
      → Keeps (give_order out incident d t ws p b s)
  unfolding give_order add_order order_for mark_enroute
  give_order-Keeps incident d t ws p b s new h =
      let o = order_for out incident d t ws p s in
      let fresh : any (str_eq t) (teams_of b.orders) ≡ false = sym (h.same_teams t) ∙ new in
      let s' = (give_order out incident d t ws p b s).0 in
      let b' = add_order out d o (is_reassignment out t d s) b in
      let teams : teams_of b'.orders ≡ teams_of b.orders ++ t ∷ [] =
        teams_of-append b.orders (o ∷ []) in
      elim (count_at "population" d) as (λ n. Keeps (s', add_population out n b')) [
        | none ↦ tt
        | some n ↦ record {
          same_teams = λ t'. rw teams (
              ground (arith, h.same_teams t', any-append (str_eq t') (teams_of b.orders) (t ∷ [])));
          apart = rw teams (
              all_distinct-snoc t (teams_of b.orders) (any_sym t (teams_of b.orders) ∙ fresh)
                h.apart);
          active =
              All-snoc (IsActive s') b.orders o (put-IsActive s s' t o b.orders refl fresh h.active)
                (find-put t t o s.active_orders ∙ ground (arith, eq_refl t));
        }
      ]

  give_to-Keeps :
      (incident : String) (routes : List Value) (d : Fields) (c : Choice)
      (b : Batch (Outside.Place out)) (s : Coordinator (Outside.Place out))
      → IsChoice out s d b.assigned c
      → IsBatch s b
      → Keeps (give_to out incident routes d c b s)
  unfolding give_to
  give_to-Keeps incident routes d raised b s choice h = tt
  give_to-Keeps incident routes d nobody b s choice h = h
  give_to-Keeps incident routes d (chosen t) b s choice h =
      elim (prepared out d routes) as (λ x. Keeps (give_prepared out incident d t x b s)) [
        | none ↦ tt
        | some (ws, p) ↦ give_order-Keeps incident d t ws p b s choice.0 h
      ]

-- The loop over the orders of a plan keeps a batch as it should be: the teams that the
-- batch counts as assigned are those with an order of it, no team has two orders, and each order is
-- the active order of its team, as long as no exception is raised.
pub give_orders-Keeps :
    (out : Outside) (incident : String) (routes : List Value) (ds : List Fields)
    (b : Batch (Outside.Place out)) (s : Coordinator (Outside.Place out))
    → IsBatch out s b
    → Keeps out (give_orders out incident routes ds b s)
unfolding give_orders
give_orders-Keeps out incident routes [] b s h = h
give_orders-Keeps out incident routes (d ∷ ds) b s h =
    let c = select_team out d b.assigned s in
    let r = give_to out incident routes d c b s in
    elim r.1
        as (λ o.
          Keeps out (r.0, o)
          → Keeps out
              (elim o
                as (λ _. Coordinator (Outside.Place out) × Option (Batch (Outside.Place out))) [
                  | none ↦ (r.0, none)
                  | some b' ↦ give_orders out incident routes ds b' r.0
                ])) [
                  | none ↦ λ k. tt
                  | some b' ↦ λ k. give_orders-Keeps out incident routes ds b' r.0 k
                ]
      (give_to-Keeps out incident routes d c b s (select_team-IsChoice out s d b.assigned) h)
