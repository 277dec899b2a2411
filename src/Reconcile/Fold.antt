-- ===== src/Reconcile/Fold.antt =====
-- models/reconcile.py: the fold from the observation set to one canonical state.
use far_away.Prelude.{String, ◌||◌, Option, none, some, List, [], ◌∷◌, ◌++◌, str_eq, if◌then◌else◌}
use far_away.Core.Dict.{Dict, find}
use far_away.Core.TextOrder.{text_lt}
use far_away.Reconcile.Policy.{Numbers}
use far_away.Reconcile.Observation.{Observation, keys, retracted_fields}
use far_away.Reconcile.Ranking.{has, FieldSelection}
use far_away.Reconcile.Select.{select}

module _ (num : Numbers) where
  open num use {Value, Real, null}

  abbrev Report : Type 0
  Report = Observation Value

  -- `CanonicalState`
  pub record CanonicalState : Type 0 where
    pub incident_id : String
    pub fields : Dict (FieldSelection num)
    pub recommendation : String
    pub p_event : Real

  abbrev selected_value : Option (FieldSelection num) → Value
  selected_value none = null
  selected_value (some s) = s.value

  -- `CanonicalState.value`
  unfoldable pub value_of : String → Dict (FieldSelection num) → Value
  unfolding find
  value_of name fields = selected_value (find name fields)

  -- `if key != "retracted" and key not in names: names.append(key)`, for the keys of one report
  unfoldable pub add_names : List String → List String → List String
  add_names names [] = names
  add_names names (k ∷ ks) =
      add_names (if str_eq k "retracted" || has k names then names else names ++ k ∷ []) ks

  unfoldable pub names_of : List String → List Report → List String
  unfolding add_names retracted_fields
  names_of names [] = names
  names_of names (o ∷ rest) = names_of (add_names names (keys o.fields ++ retracted_fields o)) rest

  unfoldable pub place_name : String → List String → List String
  place_name x [] = x ∷ []
  place_name x (y ∷ ys) = let rest = place_name x ys in if text_lt y x then y ∷ rest else x ∷ y ∷ ys

  -- `sorted(names)`
  unfoldable pub sorted_names : List String → List String
  unfolding place_name
  sorted_names [] = []
  sorted_names (x ∷ xs) = place_name x (sorted_names xs)

  abbrev with_selection :
      String → Option (FieldSelection num) → Dict (FieldSelection num) → Dict (FieldSelection num)
  with_selection name none rest = rest
  with_selection name (some s) rest = (name, s) ∷ rest

  -- the loop of `reconcile` over distinct names
  unfoldable pub select_all : List Report → List String → Dict (FieldSelection num)
  select_all observations [] = []
  select_all observations (name ∷ names) =
      with_selection name (select num observations name) (select_all observations names)

  -- `reconcile`; `recommendation_for` is `_recommendation_for`, the capstone
  unfoldable pub reconcile :
      (recommendation_for : Value → String × Real) → String → List Report → CanonicalState
  unfolding select_all names_of sorted_names value_of
  reconcile recommendation_for incident_id observations =
      let fields = select_all observations (sorted_names (names_of [] observations)) in
      let (recommendation, p) = recommendation_for (value_of "magnitude" fields) in
      record {
        incident_id = incident_id;
        fields = fields;
        recommendation = recommendation;
        p_event = p;
      }
