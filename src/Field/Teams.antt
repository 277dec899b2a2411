-- ===== src/Field/Teams.antt =====
-- tier2/field/agent.py: the choice of a team for an order, and of its waypoints and its channel.
use far_away.Prelude.{
  ℕ, String, Bool, true, false, not, ◌&&◌, ◌||◌, Option, none, some, List, [], ◌∷◌, str_eq, ltb,
  if◌then◌else◌, any, filter, ◌>>=◌,
}
use far_away.Prelude.Int.{ℤ, pos, lt_int}
use far_away.Core.Value.{
  Value, null, text, list, dict, item, field, Fields, get_or, or_value, truthy,
}
use far_away.Core.Dict.{Dict, find}
use far_away.Core.TextOrder.{text_lt}
use far_away.Federation.Model.{AssetType, boat, helicopter, asset_value}
use far_away.Field.Model.{
  Outside, FieldTeam, Coordinator, str, int_at, site_in, list_of, coerce_asset_type,
}

-- What a choice of a team comes to: an exception, no team, or a team.
pub data Choice : Type 0 where
  raised nobody : Choice
  chosen : String → Choice

-- `named and named not in assigned and named in self.teams`, for an `asset_id`: only a text can be the
-- id of a team, and a list or a dict with members raises where it is looked up
pub data Named : Type 0 where
  unhashable unnamed : Named
  named : String → Named

abbrev pub is_in {ℓ} : {V : Type ℓ} → String → Dict V → Bool
unfolding find
is_in k d = elim (find k d) [ none ↦ false | some v ↦ true ]

-- Two types of assets are compared by their values.
abbrev pub same_type : AssetType → AssetType → Bool
unfolding asset_value
same_type a b = str_eq (asset_value a) (asset_value b)

-- `sorted(team_ids)[0]`, from a first one on
unfoldable pub first_of : String → List String → String
first_of best [] = best
first_of best (t ∷ ts) = first_of (if text_lt t best then t else best) ts

module _ {Place : Type 0} where
  unfoldable pub named_team : Value → List String → Coordinator Place → Named
  unfolding find truthy
  named_team (text t) assigned s =
      if not (str_eq t "") && not (any (str_eq t) assigned) && is_in t s.teams
      then named t
      else unnamed
  named_team (list (item v vs)) assigned s = unhashable
  named_team (dict (field k v d)) assigned s = unhashable
  named_team v assigned s = unnamed

  abbrev pub is_busy : String → Coordinator Place → Bool
  is_busy t s = is_in t s.active_orders

  -- `_candidate_teams`
  unfoldable pub candidate_teams :
      AssetType
      → List String
      → (busy : Bool) → Coordinator Place
      → Dict (FieldTeam Place)
      → List String
  unfolding asset_value find
  candidate_teams wanted assigned busy s [] = []
  candidate_teams wanted assigned busy s ((t, team) ∷ teams) =
      let rest = candidate_teams wanted assigned busy s teams in
      if not (any (str_eq t) assigned)
        && (if is_busy t s then busy else not busy)
        && same_type team.asset_type wanted
      then t ∷ rest
      else rest

  -- `[t for t in busy if int(self._active_orders.get(t, {}).get("priority", 5)) > prio]`
  abbrev pub priority_of : String → Coordinator Place → ℤ
  unfolding find
  priority_of t s = elim (find t s.active_orders) [ none ↦ pos 5 | some o ↦ o.priority ]

  -- `any_free`
  unfoldable pub free_teams : List String → Coordinator Place → Dict (FieldTeam Place) → List String
  unfolding find
  free_teams assigned s [] = []
  free_teams assigned s ((t, team) ∷ teams) =
      let rest = free_teams assigned s teams in
      if not (any (str_eq t) assigned) && not (is_busy t s) then t ∷ rest else rest

module _ (out : Outside) where
  open out use {Place, as_latlon, distance, same}

  -- `_distance` of a team; the ids that it is asked for are those of teams
  abbrev distance_to : Place → String → Coordinator Place → Option ℕ
  unfolding find
  distance_to target t s = elim (find t s.teams) [
    | none ↦ none
    | some team ↦ some (distance team.location target)
  ]

  abbrev is_less : Option ℕ → Option ℕ → Bool
  is_less (some a) (some b) = ltb a b
  is_less a b = false

  -- `min` by the distance: the first of the least
  unfoldable pub nearest_from : Place → Coordinator Place → String → List String → String
  unfolding find
  nearest_from target s best [] = best
  nearest_from target s best (t ∷ ts) =
      nearest_from target s
        (if is_less (distance_to target t s) (distance_to target best s) then t else best) ts

  -- `_nearest`
  unfoldable pub nearest : List String → Option Place → Coordinator Place → Choice
  unfolding first_of nearest_from
  nearest [] target s = nobody
  nearest (t ∷ ts) none s = chosen (first_of t ts)
  nearest (t ∷ ts) (some target) s = chosen (nearest_from target s t ts)

  -- `_order_location`
  unfoldable pub order_location : Fields → Option Place
  unfolding get_or or_value
  order_location d = as_latlon (or_value (get_or "location" null d) (get_or "centroid" null d))

  abbrev pub or_choice : List String → Choice → Choice → Choice
  or_choice [] a b = b
  or_choice (t ∷ ts) a b = a

  -- the part of `_select_team` behind the named team and the priority
  unfoldable pub select_other : Fields → ℤ → List String → Coordinator Place → Choice
  unfolding candidate_teams free_teams coerce_asset_type nearest order_location get_or
  select_other d prio assigned s =
      let wanted = coerce_asset_type (get_or "asset_type" null d) in
      let target = order_location d in
      let free = candidate_teams wanted assigned false s s.teams in
      let preemptable =
        filter (λ t. lt_int prio (priority_of t s))
          (candidate_teams wanted assigned true s s.teams) in
      or_choice free (nearest free target s) (
        or_choice preemptable (nearest preemptable target s)
          (nearest (free_teams assigned s s.teams) target s))

  abbrev with_priority : Option ℤ → Fields → List String → Coordinator Place → Choice
  unfolding select_other
  with_priority none d assigned s = raised
  with_priority (some prio) d assigned s = select_other d prio assigned s

  -- `_select_team`
  unfoldable pub select_team : Fields → List String → Coordinator Place → Choice
  unfolding named_team select_other get_or
  select_team d assigned s = elim (named_team (get_or "asset_id" null d) assigned s) [
    | unhashable ↦ raised
    | named t ↦ chosen t
    | unnamed ↦ with_priority (int_at "priority" (pos 3) d) d assigned s
  ]

  abbrev is_dict : Value → Option Fields
  is_dict (dict d) = some d
  is_dict v = none

  abbrev fits_site : Value → Fields → Bool
  unfolding get_or
  fits_site site route =
      truthy site
      && (same (get_or "shelter_id" null route) site || same (get_or "route_id" null route) site)

  -- the loop of `_waypoints_for`: the first route for the vehicle, else the last one for the site
  unfoldable pub match_route : (asset_id site : Value) → Option Fields → List Value → Option Fields
  unfolding get_or truthy
  match_route asset_id site found [] = found
  match_route asset_id site found (v ∷ vs) = elim (is_dict v) [
    | none ↦ match_route asset_id site found vs
    | some route ↦ elim (truthy asset_id && same (get_or "vehicle_id" null route) asset_id) [
      | true ↦ some route
      | false ↦ match_route asset_id site (if fits_site site route then some route else found) vs
    ]
  ]

  unfoldable pub places_of : List Value → List Place
  places_of [] = []
  places_of (v ∷ vs) = elim (as_latlon v) [ none ↦ places_of vs | some p ↦ p ∷ places_of vs ]

  abbrev singleton : Option Place → List Place
  singleton none = []
  singleton (some p) = p ∷ []

  abbrev or_places : List Place → List Place → List Place
  or_places [] b = b
  or_places (p ∷ ps) b = p ∷ ps

  -- `_waypoints_for`, `none` for an exception
  unfoldable pub waypoints_for : Fields → List Value → Option (List Place)
  unfolding match_route places_of order_location list_of get_or
  waypoints_for d routes =
      let fallback = singleton (order_location d) in
      elim (match_route (get_or "asset_id" null d) (site_in d) none routes) [
        | none ↦ some fallback
        | some route ↦ list_of (get_or "waypoints" null route) >>= λ ws.
            some (or_places (places_of ws) fallback)
      ]

  abbrev is_remote : AssetType → Bool
  is_remote boat = true
  is_remote helicopter = true
  is_remote other = false

  abbrev remote_team : Option (FieldTeam Place) → Bool
  remote_team none = false
  remote_team (some team) = is_remote team.asset_type

  -- `_channel_for`
  unfoldable pub channel_for : Fields → String → Coordinator Place → String
  unfolding find get_or truthy
  channel_for d team_id s =
      if truthy (get_or "zero_coverage" null d) || truthy (get_or "no_cell_coverage" null d)
      then "iridium"
      else if truthy (get_or "channel" null d)
      then str out (get_or "channel" null d)
      else if remote_team (find team_id s.teams)
      then "iridium"
      else "terrestrial"

  -- `_is_reassignment`
  unfoldable pub is_reassignment : String → Fields → Coordinator Place → Bool
  unfolding find truthy
  is_reassignment team_id d s = elim (find team_id s.active_orders) [
    | none ↦ false
    | some prev ↦ truthy (site_in d) && not (same prev.site (site_in d))
  ]
