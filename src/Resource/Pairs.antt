-- ===== src/Resource/Pairs.antt =====
-- tier2/resource/optimizer.py: the pairs of assets and cells, in the order in which the greedy
-- assignment goes through them. The distance of two places is a parameter, and so is the solver of
-- PuLP.
use far_away.Prelude.{
  ℕ, String, Bool, ◌&&◌, ◌||◌, Option, List, [], ◌∷◌, ◌++◌, str_eq, if◌then◌else◌,
}
use far_away.Prelude.Int.{or_zero}
use far_away.Core.Dict.{Dict, put}
use far_away.Core.TextOrder.{text_lt}
use far_away.Resource.Real.{Reals}
use far_away.Resource.Demand.{DemandCell, AssetView, pair_value, compatible}

-- a compatible pair: its value, the ids and the distance in kilometres
pub record Pair (Real : Type 0) : Type 0 where
  pub worth : Real
  pub asset_id : String
  pub cell_id : String
  pub dist : Real

-- What comes from outside: the distance of two places in metres, and for the values of the pairs of
-- asset and cell, in their order, what PuLP gives: an exception, `none`, or whether the status is
-- one of the two accepted ones with the pairs whose variable is set.
pub record Outside (reals : Reals) (Place : Type 0) : Type 0 where
  pub haversine : Place → Place → Reals.Real reals
  pub solve : List ((String × String) × Reals.Real reals) → Option (Bool × List (String × String))

module _ (reals : Reals) {Place : Type 0} where
  -- `{c.cell_id: max(0, c.population_at_risk) for c in cells}`
  unfoldable pub at_risk : List (DemandCell reals Place) → Dict ℕ → Dict ℕ
  unfolding put
  at_risk [] d = d
  at_risk (c ∷ cells) d = at_risk cells (put c.cell_id (or_zero c.population_at_risk) d)

  -- `{c.cell_id: c for c in cells}`
  unfoldable pub cell_by_id :
      List (DemandCell reals Place) → Dict (DemandCell reals Place) → Dict (DemandCell reals Place)
  unfolding put
  cell_by_id [] d = d
  cell_by_id (c ∷ cells) d = cell_by_id cells (put c.cell_id c d)

  -- `{a.asset_id: a for a in assets}`
  unfoldable pub asset_by_id :
      List (AssetView reals Place) → Dict (AssetView reals Place) → Dict (AssetView reals Place)
  unfolding put
  asset_by_id [] d = d
  asset_by_id (a ∷ assets) d = asset_by_id assets (put a.asset_id a d)

module _ (reals : Reals) where
  open reals use {Real, negative, below, same}

  -- the order of the keys `(-p[0], p[1], p[2])`
  unfoldable pub ranks_before : Pair Real → Pair Real → Bool
  ranks_before p q =
      if same (negative p.worth) (negative q.worth)
      then text_lt p.asset_id q.asset_id
        || (str_eq p.asset_id q.asset_id && text_lt p.cell_id q.cell_id)
      else below (negative p.worth) (negative q.worth)

  -- `sort`, which keeps the order of pairs with the same key
  unfoldable pub insert : Pair Real → List (Pair Real) → List (Pair Real)
  unfolding ranks_before
  insert p [] = p ∷ []
  insert p (q ∷ qs) = let rest = insert p qs in if ranks_before p q then p ∷ q ∷ qs else q ∷ rest

  unfoldable pub sort_onto : List (Pair Real) → List (Pair Real) → List (Pair Real)
  unfolding insert
  sort_onto sorted [] = sorted
  sort_onto sorted (p ∷ ps) = sort_onto (insert p sorted) ps

module _ (reals : Reals) {Place : Type 0} (out : Outside reals Place) where
  open reals use {Real, plus, over, negative, below, same, decimal, round}

  -- `distance_km`
  unfoldable pub distance_km : Place → Place → Real
  distance_km a b = over (out.haversine a b) (decimal 1000 0)

  -- the pair of an asset and a cell
  unfoldable pub pair_of : AssetView reals Place → DemandCell reals Place → Pair Real
  unfolding distance_km pair_value
  pair_of a c =
      let d = distance_km a.location c.centroid in
      record {
        worth = pair_value reals a c d;
        asset_id = a.asset_id;
        cell_id = c.cell_id;
        dist = d;
      }

  unfoldable pub pairs_with :
      AssetView reals Place → List (DemandCell reals Place) → List (Pair Real)
  unfolding compatible pair_of
  pairs_with a [] = []
  pairs_with a (c ∷ cells) =
      let rest = pairs_with a cells in if compatible reals a c then pair_of a c ∷ rest else rest

  -- the loops over assets and cells
  unfoldable pub all_pairs :
      List (AssetView reals Place) → List (DemandCell reals Place) → List (Pair Real)
  unfolding pairs_with
  all_pairs [] cells = []
  all_pairs (a ∷ assets) cells = pairs_with a cells ++ all_pairs assets cells
