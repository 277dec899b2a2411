-- ===== src/Resource/Allocation.antt =====
-- tier2/resource/optimizer.py: what the greedy assignment promises.
use mathlib.Core.Option.{none-ne-some}
use far_away.Prelude.{
  ◌+◌, ◌≤◌, String, ◌≡◌, refl, ap, ◌∙◌, true, some, List, [], if◌then◌else◌, or_else, arith, All,
  All-map, inl, inr, ◌⊎◌, ◌>>=◌,
}
use far_away.Prelude.Int.{or_zero}
use far_away.Core.Dict.{find}
use far_away.Resource.Real.{Reals}
use far_away.Resource.Demand.{DemandCell, AssetView, compatible}
use far_away.Resource.Pairs.{Pair, Outside, cell_by_id, asset_by_id, pair_of, all_pairs, sort_onto}
use far_away.Resource.Optimizer.{
  OptimisationResult, Progress, Solver, is_populated, started, finished, greedy, run_greedy,
  solve_greedy,
}
use far_away.Resource.Steps.{times_assigned, covered_at, HeldBy, IsKept}
use far_away.Resource.Greedy.{IsKnown, IsSettled, IsPlaced, IsOnce, place_all-IsPlaced}
use far_away.Resource.Inputs.{
  asset_by_id-Has, cell_by_id-Has, at_risk-Distinct, at_risk-cell_by_id, sort_onto-All,
  All-sort_onto, All-all_pairs, all_pairs-All, uncovered-find,
}

module _ (reals : Reals) {Place : Type 0} (assets : List (AssetView reals Place))
    (cells : List (DemandCell reals Place)) where
  open reals use {Real}

  -- The cell is full: it has people, and no one of them is left uncovered.
  abbrev pub IsFull : OptimisationResult Real → String → Type 0
  IsFull r k =
      (or_else (find k r.shortfall) 0 ≡ 0)
      × ((c : DemandCell reals Place) × (find k (cell_by_id reals cells []) ≡ some c)
          × (is_populated reals c ≡ true))

  -- Each assignment is one of an asset of the inventory and covers no more than its capacity, and the
  -- people of each cell are covered or listed as uncovered, none of them twice.
  pub record IsSound (r : OptimisationResult Real) : Type 0 where
    pub held : All (HeldBy reals (asset_by_id reals assets [])) r.assignments
    pub conserved :
        (k : String) (c : DemandCell reals Place)
        → find k (cell_by_id reals cells []) ≡ some c
        → is_populated reals c ≡ true
        → covered_at k r.assignments + or_else (find k r.shortfall) 0 ≡ or_zero c.population_at_risk

  -- No asset is assigned twice, and an asset is idle only where every cell that it fits is full.
  pub record Allocates (r : OptimisationResult Real) : Type 0 where
    pub sound : IsSound r
    pub once : (k : String) → times_assigned k r.assignments ≤ 1
    pub complete :
        All
          (λ (a : AssetView reals Place).
            All
              (λ (c : DemandCell reals Place).
                compatible reals a c ≡ true
                → (times_assigned a.asset_id r.assignments ≡ 1) ⊎ IsFull r c.cell_id)
              cells)
          assets

  pub started-IsKept :
      IsKept reals (asset_by_id reals assets []) (cell_by_id reals cells []) (started reals cells)
  unfolding started covered_at find
  started-IsKept = record {
    distinct = at_risk-Distinct reals cells [] tt;
    held = tt;
    conserved = λ k c e pop. (
      or_zero c.population_at_risk,
      at_risk-cell_by_id reals cells [] [] (λ k c e. absurd (none-ne-some c e)) k c e,
      omega arith,
    );
  }

  pub finished-IsSound :
      (solver : Solver) (s : Progress Real)
      → IsKept reals (asset_by_id reals assets []) (cell_by_id reals cells []) s
      → IsSound (finished reals solver s)
  unfolding finished
  finished-IsSound solver s kept = record {
    held = kept.held;
    conserved = λ k c e pop.
        let (n, left, total) = kept.conserved k c e pop in
        ground (arith, uncovered-find k s.remaining kept.distinct);
  }

  module _ (out : Outside reals Place) where
    pub all_pairs-IsKnown :
        All
          (IsKnown reals (asset_by_id reals assets []) (cell_by_id reals cells []))
          (all_pairs reals out assets cells)
    unfolding pair_of
    all_pairs-IsKnown =
        all_pairs-All reals out
          (IsKnown reals (asset_by_id reals assets []) (cell_by_id reals cells [])) assets cells
          (All-map
            (λ a found. All-map (λ c found'. (found, found')) cells (cell_by_id-Has reals cells []))
            assets (asset_by_id-Has reals assets []))

    full :
        (s : Progress Real)
        → IsKept reals (asset_by_id reals assets []) (cell_by_id reals cells []) s
        → IsOnce reals (asset_by_id reals assets []) (cell_by_id reals cells []) s
        → (p : Pair Real)
        → IsSettled reals (asset_by_id reals assets []) (cell_by_id reals cells []) p s
        → (times_assigned p.asset_id s.assignments ≡ 1) ⊎ IsFull (finished reals greedy s) p.cell_id
    unfolding finished
    full s kept once p (inl used) = inl (once p.asset_id ∙ ap (λ b. if b then 1 else 0) used)
    full s kept once p (inr (left, known)) =
        inr (uncovered-find p.cell_id s.remaining kept.distinct ∙ ap (λ o. or_else o 0) left, known)

    finished-Allocates :
        (s : Progress Real)
        → IsPlaced reals
            (asset_by_id reals assets [])
            (cell_by_id reals cells [])
            (sort_onto reals [] (all_pairs reals out assets cells))
            (started reals cells)
            s
        → Allocates (finished reals greedy s)
    unfolding finished started times_assigned pair_of
    finished-Allocates s placed =
        let kept = placed.kept started-IsKept in
        let once = placed.once (λ k. refl) in
        record {
          sound = finished-IsSound greedy s kept;
          once = λ k. ground (arith, once k);
          complete =
              All-map
                (λ a.
                  All-map
                    (λ c settled fits. full s kept once (pair_of reals out a c) (settled fits))
                    cells)
                assets
                (All-all_pairs reals out
                  (λ p.
                    IsSettled reals (asset_by_id reals assets []) (cell_by_id reals cells []) p s)
                  assets cells
                  (All-sort_onto reals
                    (λ p.
                      IsSettled reals (asset_by_id reals assets []) (cell_by_id reals cells []) p s)
                    [] (all_pairs reals out assets cells) (placed.settled started-IsKept)).1);
        }

-- The greedy assignment always gives a result. It assigns assets of the inventory only, none of them
-- twice, each for at most its capacity where it has one; the covered and the uncovered people of
-- each cell with people add up to its population; and it leaves an asset idle only where each cell
-- that the asset fits has people, none of whom is left uncovered.
pub solve_greedy-Allocates :
    (reals : Reals) {Place : Type 0} (out : Outside reals Place)
    (assets : List (AssetView reals Place)) (cells : List (DemandCell reals Place))
    → (r : OptimisationResult (Reals.Real reals)) × (solve_greedy reals out assets cells ≡ some r)
      × Allocates reals assets cells r
unfolding solve_greedy run_greedy
solve_greedy-Allocates reals out assets cells =
    let (s, e, placed) =
      place_all-IsPlaced reals (asset_by_id reals assets []) (cell_by_id reals cells [])
        (sort_onto reals [] (all_pairs reals out assets cells)) (started reals cells)
        (sort_onto-All reals
          (IsKnown reals (asset_by_id reals assets []) (cell_by_id reals cells [])) []
          (all_pairs reals out assets cells) tt (all_pairs-IsKnown reals assets cells out)) in
    (
      finished reals greedy s,
      ap (λ o. o >>= λ s. some (finished reals greedy s)) e,
      finished-Allocates reals assets cells out s placed,
    )
