-- ===== src/Resource/Demand.antt =====
-- tier2/resource/optimizer.py: cells, assets and the value of sending one to the other, with the
-- vulnerability of models/domain.py.
use far_away.Prelude.{String, Bool, true, List, [], ◌∷◌, str_eq, if◌then◌else◌, any, or_else}
use far_away.Prelude.Int.{ℤ, pos, lt_int, min_int}
use far_away.Core.Dict.{Dict, find}
use far_away.Core.Value.{is_zero}
use far_away.Resource.Real.{Reals, least, greatest}

-- a cell that names no asset types is open to every one
unfoldable pub is_needed : (type : String) → List String → Bool
is_needed type [] = true
is_needed type (t ∷ ts) = any (str_eq type) (t ∷ ts)

module _ (reals : Reals) where
  open reals use {Real, plus, minus, times, over, below, decimal, of_int}

  -- `VulnerabilityProfile`
  pub record VulnerabilityProfile : Type 0 where
    pub elderly_density : Real
    pub hospital_proximity : Real
    pub road_accessibility : Real
    pub informal_settlement_density : Real
    pub mobility_impaired : ℤ
    pub children : ℤ
    pub hospitalised : ℤ

  -- `VulnerabilityProfile.weight`
  unfoldable pub weight : VulnerabilityProfile → Real
  weight v =
      plus (plus (plus (decimal 1 0) v.elderly_density) v.informal_settlement_density)
        (minus (decimal 1 0) v.road_accessibility)

  -- `DemandCell`, whose places are of the type `Place`
  pub record DemandCell (Place : Type 0) : Type 0 where
    pub cell_id : String
    pub centroid : Place
    pub population_at_risk : ℤ
    pub probability : Real
    pub horizon_minutes : ℤ
    pub vulnerability : VulnerabilityProfile
    pub needed_asset_types : List String

  -- `AssetView`
  pub record AssetView (Place : Type 0) : Type 0 where
    pub asset_id : String
    pub type : String
    pub location : Place
    pub capacity : ℤ
    pub fuel_pct : Real

  -- `_ASSET_SPEED_KMH`
  unfoldable pub asset_speed_kmh : Dict Real
  asset_speed_kmh =
      ("boat", decimal 35 0)
      ∷ ("helicopter", decimal 200 0)
      ∷ ("ndrf_team", decimal 50 0)
      ∷ ("sdrf_team", decimal 50 0)
      ∷ ("medical_unit", decimal 60 0)
      ∷ ("fire_engine", decimal 55 0)
      ∷ ("usar_team", decimal 45 0)
      ∷ []

  abbrev speed_or_default : Real → Real
  speed_or_default speed = if below (decimal 0 0) speed then speed else decimal 50 0

  -- `eta_minutes`
  unfoldable pub eta_minutes : (asset_type : String) → (distance_km : Real) → Real
  unfolding asset_speed_kmh find
  eta_minutes asset_type distance_km =
      times
        (over distance_km
          (speed_or_default (or_else (find asset_type asset_speed_kmh) (decimal 50 0))))
        (decimal 60 0)

  module _ {Place : Type 0} where
    -- `equity_weight`
    abbrev pub equity_weight : DemandCell Place → Real
    equity_weight cell = weight cell.vulnerability

    -- `demand_score`
    unfoldable pub demand_score : DemandCell Place → Real
    demand_score cell =
        let urgency = plus (decimal 5 1) (
          times (decimal 5 1)
            (greatest reals (decimal 0 0) (least reals (decimal 1 0) cell.probability))) in
        times (times (of_int cell.population_at_risk) (equity_weight cell)) urgency

    -- `_pair_value`
    unfoldable pub pair_value : AssetView Place → DemandCell Place → (dist_km : Real) → Real
    unfolding weight eta_minutes
    pair_value asset cell dist_km =
        let cap = if lt_int (pos 0) asset.capacity then asset.capacity else pos 1 in
        let covered =
          if is_zero cell.population_at_risk then cap else min_int cap cell.population_at_risk in
        let et = eta_minutes asset.type dist_km in
        let time_penalty = over (decimal 1 0) (plus (decimal 1 0) (over et (decimal 30 0))) in
        let fuel_factor = greatest reals (decimal 1 1) (over asset.fuel_pct (decimal 100 0)) in
        times (times (times (of_int covered) (equity_weight cell)) time_penalty) fuel_factor

    -- `_compatible`
    unfoldable pub compatible : AssetView Place → DemandCell Place → Bool
    unfolding is_needed
    compatible asset cell = is_needed asset.type cell.needed_asset_types
