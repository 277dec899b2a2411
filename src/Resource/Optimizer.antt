-- ===== src/Resource/Optimizer.antt =====
-- tier2/resource/optimizer.py: the greedy assignment, the one by linear programming, and the choice
-- between them. The solver of PuLP and the distance of two places are parameters.
use far_away.Prelude.{
  ℕ, ◌-◌, String, Bool, true, false, not, ◌&&◌, Option, none, some, List, [], ◌∷◌, ◌++◌, str_eq,
  leb, ◌==◌, if◌then◌else◌, any, filter, or_else, ◌>>=◌,
}
use mathlib.Core.List.{map}
use far_away.Prelude.Int.{pos, lt_int, or_zero}
use far_away.Core.Dict.{Dict, find, put}
use far_away.Core.Value.{is_zero}
use far_away.Resource.Real.{Reals}
use far_away.Resource.Pairs.{Outside, Pair, at_risk, cell_by_id, asset_by_id, all_pairs, sort_onto}
use far_away.Resource.Demand.{DemandCell, AssetView, eta_minutes}

abbrev pub min : ℕ → ℕ → ℕ
min a b = if leb a b then a else b

abbrev pub max : ℕ → ℕ → ℕ
max a b = if leb b a then a else b

-- `Assignment`
pub record Assignment (Real : Type 0) : Type 0 where
  pub asset_id : String
  pub asset_type : String
  pub cell_id : String
  pub eta : Real
  pub covered : ℕ
  pub weighted_value : Real
  pub distance : Real
  pub within_preposition : Bool

pub data Solver : Type 0 where
  pulp greedy : Solver

-- `OptimisationResult`
pub record OptimisationResult (Real : Type 0) : Type 0 where
  pub assignments : List (Assignment Real)
  pub solver : Solver
  pub objective : Real
  pub shortfall : Dict ℕ

-- The local variables of the loops that assign.
pub record Progress (Real : Type 0) : Type 0 where
  pub remaining : Dict ℕ
  pub used_assets : List String
  pub assignments : List (Assignment Real)
  pub objective : Real

-- `{cid: rem for cid, rem in remaining.items() if rem > 0}`
unfoldable pub uncovered : Dict ℕ → Dict ℕ
uncovered remaining = filter (λ entry. not (entry.1 == 0)) remaining

module _ {Real : Type 0} where
  -- the dicts of the variables, by asset and cell
  unfoldable pub put_pair : Pair Real → List (Pair Real) → List (Pair Real)
  put_pair p [] = p ∷ []
  put_pair p (q ∷ qs) =
      let rest = put_pair p qs in
      if str_eq q.asset_id p.asset_id && str_eq q.cell_id p.cell_id then p ∷ qs else q ∷ rest

  unfoldable pub variables : List (Pair Real) → List (Pair Real) → List (Pair Real)
  unfolding put_pair
  variables [] keyed = keyed
  variables (p ∷ ps) keyed = variables ps (put_pair p keyed)

  -- the guard on a cell that is covered
  unfoldable pub is_covered : Pair Real → Progress Real → Bool
  unfolding find
  is_covered p s = or_else (find p.cell_id s.remaining) 0 == 0

module _ (reals : Reals) where
  open reals use {Real, round}

  unfoldable pub finished : Solver → Progress Real → OptimisationResult Real
  unfolding uncovered
  finished solver s = record {
    assignments = s.assignments;
    solver = solver;
    objective = round s.objective 4;
    shortfall = uncovered s.remaining;
  }

module _ (reals : Reals) {Place : Type 0} where
  open reals use {Real, plus, below, decimal, round}

  -- `cell.population_at_risk > 0`
  abbrev pub is_populated : DemandCell reals Place → Bool
  is_populated cell = lt_int (pos 0) cell.population_at_risk

  -- `cap`, then `covered`
  unfoldable pub capacity_at : AssetView reals Place → Dict ℕ → (cell_id : String) → ℕ
  unfolding find
  capacity_at asset remaining cell_id =
      if lt_int (pos 0) asset.capacity
      then or_zero asset.capacity
      else max 1 (or_else (find cell_id remaining) 1)

  unfoldable pub covers :
      AssetView reals Place → DemandCell reals Place → Dict ℕ → (cell_id : String) → ℕ
  unfolding capacity_at find
  covers asset cell remaining cell_id =
      let cap = capacity_at asset remaining cell_id in
      if is_zero cell.population_at_risk
      then cap
      else min cap (or_else (find cell_id remaining) cap)

  -- `Assignment(...)`
  unfoldable pub assignment_of : Pair Real → AssetView reals Place → (covered : ℕ) → Assignment Real
  unfolding eta_minutes
  assignment_of p asset covered = record {
    asset_id = p.asset_id;
    asset_type = asset.type;
    cell_id = p.cell_id;
    eta = round (eta_minutes reals asset.type p.dist) 1;
    covered = covered;
    weighted_value = round p.worth 4;
    distance = round p.dist 3;
    within_preposition = not (below (decimal 50 0) p.dist);
  }

  -- the rest of both loops' bodies, which assigns a pair
  unfoldable pub assign :
      Pair Real → AssetView reals Place → DemandCell reals Place → Progress Real → Progress Real
  unfolding covers put find assignment_of
  assign p asset cell s =
      let covered = covers asset cell s.remaining p.cell_id in
      record {
        remaining =
            if is_populated cell
            then put p.cell_id (or_else (find p.cell_id s.remaining) 0 - covered) s.remaining
            else s.remaining;
        used_assets = p.asset_id ∷ s.used_assets;
        assignments = s.assignments ++ assignment_of p asset covered ∷ [];
        objective = plus s.objective p.worth;
      }

  module _ (assets : Dict (AssetView reals Place)) (cells : Dict (DemandCell reals Place)) where
    -- the lookups of an assigned pair; `none` is a `KeyError`
    unfoldable pub assign_ids : Pair Real → Progress Real → Option (Progress Real)
    unfolding assign find
    assign_ids p s = do
      asset ← find p.asset_id assets
      cell ← find p.cell_id cells
      some (assign p asset cell s)

    unfoldable pub place_at :
        Pair Real → Progress Real → DemandCell reals Place → Option (Progress Real)
    unfolding is_covered assign_ids
    place_at p s cell = if is_covered p s && is_populated cell then some s else assign_ids p s

    -- the body of the greedy loop
    unfoldable pub place : Pair Real → Progress Real → Option (Progress Real)
    unfolding place_at find
    place p s =
        if any (str_eq p.asset_id) s.used_assets
        then some s
        else find p.cell_id cells >>= place_at p s

    unfoldable pub place_all : List (Pair Real) → Progress Real → Option (Progress Real)
    unfolding place
    place_all [] s = some s
    place_all (p ∷ ps) s = place p s >>= place_all ps

    -- the loop over the variables that are set
    unfoldable pub assign_chosen :
        (chosen : List (String × String))
        → List (Pair Real)
        → Progress Real
        → Option (Progress Real)
    unfolding assign_ids
    assign_chosen chosen [] s = some s
    assign_chosen chosen (p ∷ ps) s =
        let next =
          if any (λ k. str_eq k.0 p.asset_id && str_eq k.1 p.cell_id) chosen
          then assign_ids p s
          else some s in
        next >>= assign_chosen chosen ps

  unfoldable pub started : List (DemandCell reals Place) → Progress Real
  unfolding at_risk
  started cells = record {
    remaining = at_risk reals cells [];
    used_assets = [];
    assignments = [];
    objective = decimal 0 0;
  }

  -- what follows the solver's run: its status is refused by a `RuntimeError`
  unfoldable pub read_solution :
      List (AssetView reals Place)
      → List (DemandCell reals Place)
      → List (Pair Real)
      → Bool × List (String × String)
      → Option (OptimisationResult Real)
  unfolding started asset_by_id cell_by_id assign_chosen finished
  read_solution assets cells keyed (false, chosen) = none
  read_solution assets cells keyed (true, chosen) = do
    s ←
        assign_chosen (asset_by_id reals assets []) (cell_by_id reals cells []) chosen keyed
          (started cells)
    some (finished reals pulp s)

abbrev pub or_else_result {ℓ} : {A : Type ℓ} → Option A → Option A → Option A
or_else_result none r = r
or_else_result (some x) r = some x

module _ (reals : Reals) {Place : Type 0} (out : Outside reals Place) where
  open reals use {Real, decimal}

  -- the state in which the greedy loop ends
  unfoldable pub run_greedy :
      List (AssetView reals Place) → List (DemandCell reals Place) → Option (Progress Real)
  unfolding started sort_onto all_pairs place_all asset_by_id cell_by_id
  run_greedy assets cells =
      place_all reals (asset_by_id reals assets []) (cell_by_id reals cells [])
        (sort_onto reals [] (all_pairs reals out assets cells)) (started reals cells)

  -- `solve_greedy`
  unfoldable pub solve_greedy :
      List (AssetView reals Place)
      → List (DemandCell reals Place)
      → Option (OptimisationResult Real)
  unfolding run_greedy finished
  solve_greedy assets cells = run_greedy assets cells >>= λ s. some (finished reals greedy s)

  -- `solve_lp`; `none` is an exception
  unfoldable pub solve_lp :
      List (AssetView reals Place)
      → List (DemandCell reals Place)
      → Option (OptimisationResult Real)
  unfolding all_pairs variables read_solution
  solve_lp assets cells =
      let keyed = variables (all_pairs reals out assets cells) [] in
      out.solve (map (λ p. ((p.asset_id, p.cell_id), p.worth)) keyed)
      >>= read_solution reals assets cells keyed

  -- `optimise`
  unfoldable pub optimise :
      List (AssetView reals Place)
      → List (DemandCell reals Place)
      → (prefer_lp : Bool) → Option (OptimisationResult Real)
  unfolding at_risk solve_lp solve_greedy
  optimise [] cells prefer_lp = some (record {
    assignments = [];
    solver = greedy;
    objective = decimal 0 0;
    shortfall = at_risk reals cells [];
  })
  optimise (a ∷ assets) [] prefer_lp =
      some (record { assignments = []; solver = greedy; objective = decimal 0 0; shortfall = [] })
  optimise (a ∷ assets) (c ∷ cells) prefer_lp =
      if prefer_lp
      then or_else_result (solve_lp (a ∷ assets) (c ∷ cells))
          (solve_greedy (a ∷ assets) (c ∷ cells))
      else solve_greedy (a ∷ assets) (c ∷ cells)
