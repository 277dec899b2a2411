-- ===== src/Resource/Tests.antt =====
-- The greedy assignment and the fallback at concrete assets and cells.
use far_away.Prelude.{
  ℕ, ◌+◌, ◌-◌, ◌*◌, ◌/◌, ◌^◌, ◌≡◌, refl, true, Option, none, some, String, List, [], ◌∷◌, ltb, ◌==◌,
}
use mathlib.Core.List.{map}
use far_away.Prelude.Int.{pos, or_zero}
use far_away.Resource.Real.{Reals}
use far_away.Resource.Demand.{DemandCell, AssetView}
use far_away.Resource.Pairs.{Outside}
use far_away.Resource.Optimizer.{OptimisationResult, Assignment, solve_greedy, optimise, max}
use far_away.Resource.Allocation.{Allocates, IsSound, solve_greedy-Allocates}
use far_away.Resource.Fallback.{optimise-IsSound}

-- Whole numbers of thousandths stand for floats.
abbrev thousandths : Reals
thousandths = record {
  Real = ℕ;
  plus = λ x y. x + y;
  minus = λ x y. x - y;
  times = λ x y. x * y / 1000;
  over = λ x y. x * 1000 / max 1 y;
  negative = λ x. 1000000000 - x;
  below = ltb;
  same = λ x y. x == y;
  decimal = λ m k. m * 1000 / 10 ^ k;
  of_int = λ n. or_zero n * 1000;
  round = λ x n. x;
}

-- Places on a line, in thousandths of metres, without a solver.
abbrev line : Outside thousandths ℕ
line = record { haversine = λ a b. a - b + (b - a); solve = λ pairs. none }

abbrev cell : String → ℕ → ℕ → DemandCell thousandths ℕ
cell id place population = record {
  cell_id = id;
  centroid = place;
  population_at_risk = pos population;
  probability = 500;
  horizon_minutes = pos 60;
  vulnerability = record {
    elderly_density = 0;
    hospital_proximity = 0;
    road_accessibility = 1000;
    informal_settlement_density = 0;
    mobility_impaired = pos 0;
    children = pos 0;
    hospitalised = pos 0;
  };
  needed_asset_types = [];
}

abbrev asset : String → ℕ → ℕ → AssetView thousandths ℕ
asset id place capacity = record {
  asset_id = id;
  type = "boat";
  location = place;
  capacity = pos capacity;
  fuel_pct = 100000;
}

abbrev boats : List (AssetView thousandths ℕ)
boats = asset "b1" 0 20 ∷ asset "b2" 500000 30 ∷ []

abbrev town_and_field : List (DemandCell thousandths ℕ)
town_and_field = cell "town" 0 40 ∷ cell "field" 0 0 ∷ []

abbrev shown : Option (OptimisationResult ℕ) → List (String × (String × ℕ))
shown none = []
shown (some r) = map (λ (x : Assignment ℕ). (x.asset_id, (x.cell_id, x.covered))) r.assignments

-- A cell without people takes every asset that comes to it, for its whole capacity, before a cell
-- whose people are fewer than that.
empty_cell_first :
    shown (solve_greedy thousandths line boats (cell "town" 0 10 ∷ cell "field" 0 0 ∷ []))
    ≡ ("b2", ("field", 30)) ∷ ("b1", ("field", 20)) ∷ []
unfolding solve_greedy
empty_cell_first = refl

solve_greedy-Allocates_example :
    (r : OptimisationResult ℕ) × (solve_greedy thousandths line boats town_and_field ≡ some r)
    × Allocates thousandths boats town_and_field r
solve_greedy-Allocates_example = solve_greedy-Allocates thousandths line boats town_and_field

optimise-IsSound_example :
    (r : OptimisationResult ℕ) × (optimise thousandths line boats town_and_field true ≡ some r)
    × IsSound thousandths boats town_and_field r
optimise-IsSound_example = optimise-IsSound thousandths line boats town_and_field true
