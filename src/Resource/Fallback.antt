-- ===== src/Resource/Fallback.antt =====
-- tier2/resource/optimizer.py: the choice between the two solvers.
use mathlib.Core.Option.{none-ne-some}
use far_away.Prelude.{
  String, ◌≡◌, refl, sym, ap, Bool, true, false, ◌&&◌, Option, none, some, List, [], ◌∷◌, str_eq,
  any, or_else, arith, All, if-ind, Bool-cases, inl, inr, ◌⊎◌, ◌>>=◌,
}
use far_away.Prelude.Int.{or_zero}
use far_away.Core.Dict.{Dict, find}
use far_away.Resource.Real.{Reals}
use far_away.Resource.Demand.{DemandCell, AssetView}
use far_away.Resource.Pairs.{Pair, Outside, cell_by_id, asset_by_id, at_risk, all_pairs}
use far_away.Resource.Optimizer.{
  OptimisationResult, Progress, pulp, started, finished, assign, assign_ids, assign_chosen,
  put_pair, variables, read_solution, solve_lp, solve_greedy, or_else_result, optimise,
}
use far_away.Resource.Steps.{IsKept, assign-IsKept, covered_at}
use far_away.Resource.Greedy.{IsKnown}
use far_away.Resource.Inputs.{at_risk-cell_by_id}
use far_away.Resource.Allocation.{
  IsSound, started-IsKept, finished-IsSound, all_pairs-IsKnown, solve_greedy-Allocates,
}

module _ {Real : Type 0} (P : Pair Real → Type 0) where
  put_pair-All : (p : Pair Real) (qs : List (Pair Real)) → P p → All P qs → All P (put_pair p qs)
  unfolding put_pair
  put_pair-All p [] h k = (h, tt)
  put_pair-All p (q ∷ qs) h k =
      if-ind (All P) (str_eq q.asset_id p.asset_id && str_eq q.cell_id p.cell_id) {x = p ∷ qs}
        {y = q ∷ put_pair p qs} (λ _. (h, k.1)) (λ _. (k.0, put_pair-All p qs h k.1))

  variables-All :
      (ps keyed : List (Pair Real)) → All P ps → All P keyed → All P (variables ps keyed)
  unfolding variables
  variables-All [] keyed h k = k
  variables-All (p ∷ ps) keyed h k =
      variables-All ps (put_pair p keyed) h.1 (put_pair-All p keyed h.0 k)

module _ (reals : Reals) {Place : Type 0} where
  open reals use {Real}

  module _ (assets : Dict (AssetView reals Place)) (cells : Dict (DemandCell reals Place)) where
    -- The ids of known pairs are found, and what the loops keep is kept.
    assign_chosen-IsKept :
        (chosen : List (String × String)) (ps : List (Pair Real)) (s : Progress Real)
        → All (IsKnown reals assets cells) ps
        → IsKept reals assets cells s
        → (t : Progress Real) × (assign_chosen reals assets cells chosen ps s ≡ some t)
          × IsKept reals assets cells t
    unfolding assign_chosen assign_ids
    assign_chosen-IsKept chosen [] s known kept = (s, refl, kept)
    assign_chosen-IsKept chosen (p ∷ ps) s (((a, fa), (c, fc)), known) kept =
        elim (Bool-cases (any (λ k. str_eq k.0 p.asset_id && str_eq k.1 p.cell_id) chosen)) [
          | inl taken ↦
              let (t, e, kept') =
                assign_chosen-IsKept chosen ps (assign reals p a c s) known
                  (assign-IsKept reals assets cells p a c s fa fc kept) in
              (t, rw (taken, fa, fc) e, kept')
          | inr left ↦
              let (t, e, kept') = assign_chosen-IsKept chosen ps s known kept in
              (t, rw left e, kept')
        ]

  module _ (out : Outside reals Place) (assets : List (AssetView reals Place))
      (cells : List (DemandCell reals Place)) where
    -- A sound result.
    abbrev Gives : Option (OptimisationResult Real) → Type 0
    Gives o = (r : OptimisationResult Real) × (o ≡ some r) × IsSound reals assets cells r

    read_solution-Gives :
        (o : Bool × List (String × String)) (keyed : List (Pair Real))
        → All (IsKnown reals (asset_by_id reals assets []) (cell_by_id reals cells [])) keyed
        → (read_solution reals assets cells keyed o ≡ none)
          ⊎ Gives (read_solution reals assets cells keyed o)
    unfolding read_solution
    read_solution-Gives (false, chosen) keyed known = inl refl
    read_solution-Gives (true, chosen) keyed known =
        let (t, e, kept) =
          assign_chosen-IsKept (asset_by_id reals assets []) (cell_by_id reals cells []) chosen
            keyed (started reals cells) known (started-IsKept reals assets cells) in
        inr (
          finished reals pulp t,
          ap (λ o. o >>= λ s. some (finished reals pulp s)) e,
          finished-IsSound reals assets cells pulp t kept,
        )

    solve_lp-Gives :
        (solve_lp reals out assets cells ≡ none) ⊎ Gives (solve_lp reals out assets cells)
    unfolding solve_lp
    solve_lp-Gives = after_solver (out.solve _)
      where
        keyed : List (Pair Real)
        keyed = variables (all_pairs reals out assets cells) []

        after_solver :
            (o : Option (Bool × List (String × String)))
            → ((o >>= read_solution reals assets cells keyed) ≡ none)
              ⊎ Gives (o >>= read_solution reals assets cells keyed)
        after_solver none = inl refl
        after_solver (some x) = read_solution-Gives x keyed (
            variables-All (IsKnown reals (asset_by_id reals assets []) (cell_by_id reals cells []))
              (all_pairs reals out assets cells) [] (all_pairs-IsKnown reals assets cells out) tt)

    greedy-Gives : Gives (solve_greedy reals out assets cells)
    greedy-Gives = let (r, e, h) = solve_greedy-Allocates reals out assets cells in (r, e, h.sound)

    preferred-Gives :
        (o : Option (OptimisationResult Real))
        → (o ≡ none) ⊎ Gives o
        → Gives (or_else_result o (solve_greedy reals out assets cells))
    preferred-Gives none h = greedy-Gives
    preferred-Gives (some r) (inl e) = absurd (none-ne-some r (sym e))
    preferred-Gives (some r) (inr h) = h

-- Whatever the solver of PuLP does, also where it fails, there is a result. It assigns assets of
-- the inventory only, each time for at most the asset's capacity where it has one, and the covered
-- and the uncovered people of each cell with people add up to its population.
pub optimise-IsSound :
    (reals : Reals) {Place : Type 0} (out : Outside reals Place)
    (assets : List (AssetView reals Place)) (cells : List (DemandCell reals Place))
    (prefer_lp : Bool)
    → (r : OptimisationResult (Reals.Real reals)) × (optimise reals out assets cells prefer_lp
        ≡ some r)
      × IsSound reals assets cells r
unfolding optimise covered_at cell_by_id at_risk find
optimise-IsSound reals out [] cells prefer_lp = (
  _,
  refl,
  record {
    held = tt;
    conserved = λ k c e pop.
        let all : or_else (find k (at_risk reals cells [])) 0 ≡ or_zero c.population_at_risk =
          ap (λ o. or_else o 0)
            (at_risk-cell_by_id reals cells [] [] (λ k c e. absurd (none-ne-some c e)) k c e) in
        omega arith;
  },
)
optimise-IsSound reals out (a ∷ assets) [] prefer_lp =
    (_, refl, record { held = tt; conserved = λ k c e pop. absurd (none-ne-some c e) })
optimise-IsSound reals out (a ∷ assets) (c ∷ cells) true =
    preferred-Gives reals out (a ∷ assets) (c ∷ cells) (solve_lp reals out (a ∷ assets) (c ∷ cells))
      (solve_lp-Gives reals out (a ∷ assets) (c ∷ cells))
optimise-IsSound reals out (a ∷ assets) (c ∷ cells) false =
    greedy-Gives reals out (a ∷ assets) (c ∷ cells)
