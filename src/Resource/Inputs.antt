-- ===== src/Resource/Inputs.antt =====
-- tier2/resource/optimizer.py: the dicts and the pairs that the loops start from.
use mathlib.Core.Bool.{true≢false}
use far_away.Prelude.{
  ℕ, String, ◌≡◌, refl, sym, ap, ◌∙◌, true, none, some, List, [], ◌∷◌, ◌++◌, str_eq, eq_iff,
  if◌then◌else◌, or_else, arith, All, All-append, if-ind, Bool-cases, inl, inr,
}
use far_away.Prelude.Int.{or_zero}
use far_away.Core.Dict.{Dict, find, put, find-put, Distinct, put-Distinct}
use far_away.Resource.Real.{Reals}
use far_away.Resource.Demand.{DemandCell, AssetView, compatible}
use far_away.Resource.Pairs.{
  Pair, Outside, ranks_before, at_risk, cell_by_id, asset_by_id, pair_of, pairs_with, all_pairs,
  insert, sort_onto,
}
use far_away.Resource.Optimizer.{uncovered}

-- The key has an entry.
abbrev Has {ℓ} : {V : Type ℓ} → String → Dict V → Type ℓ
Has {V = V} k d = (v : V) × (find k d ≡ some v)

Has-put {ℓ} : {V : Type ℓ} (j k : String) (v : V) (d : Dict V) → Has k d → Has k (put j v d)
Has-put j k v d (w, e) = elim (Bool-cases (str_eq j k)) [
  | inl same ↦ (v, find-put j k v d ∙ ground arith)
  | inr other ↦ (w, find-put j k v d ∙ ground arith)
]

Has-put_self {ℓ} : {V : Type ℓ} (k : String) (v : V) (d : Dict V) → Has k (put k v d)
Has-put_self k v d = (v, find-put k k v d ∙ ground (arith, eq_iff k k))

module _ (reals : Reals) {Place : Type 0} where
  asset_by_id-keeps :
      (k : String) (assets : List (AssetView reals Place)) (d : Dict (AssetView reals Place))
      → Has k d
      → Has k (asset_by_id reals assets d)
  unfolding asset_by_id
  asset_by_id-keeps k [] d h = h
  asset_by_id-keeps k (a ∷ assets) d h =
      asset_by_id-keeps k assets (put a.asset_id a d) (Has-put a.asset_id k a d h)

  pub asset_by_id-Has :
      (assets : List (AssetView reals Place)) (d : Dict (AssetView reals Place))
      → All (λ a. Has a.asset_id (asset_by_id reals assets d)) assets
  unfolding asset_by_id
  asset_by_id-Has [] d = tt
  asset_by_id-Has (a ∷ assets) d = (
    asset_by_id-keeps a.asset_id assets (put a.asset_id a d) (Has-put_self a.asset_id a d),
    asset_by_id-Has assets (put a.asset_id a d),
  )

  cell_by_id-keeps :
      (k : String) (cells : List (DemandCell reals Place)) (d : Dict (DemandCell reals Place))
      → Has k d
      → Has k (cell_by_id reals cells d)
  unfolding cell_by_id
  cell_by_id-keeps k [] d h = h
  cell_by_id-keeps k (c ∷ cells) d h =
      cell_by_id-keeps k cells (put c.cell_id c d) (Has-put c.cell_id k c d h)

  pub cell_by_id-Has :
      (cells : List (DemandCell reals Place)) (d : Dict (DemandCell reals Place))
      → All (λ c. Has c.cell_id (cell_by_id reals cells d)) cells
  unfolding cell_by_id
  cell_by_id-Has [] d = tt
  cell_by_id-Has (c ∷ cells) d = (
    cell_by_id-keeps c.cell_id cells (put c.cell_id c d) (Has-put_self c.cell_id c d),
    cell_by_id-Has cells (put c.cell_id c d),
  )

  pub at_risk-Distinct :
      (cells : List (DemandCell reals Place)) (d : Dict ℕ)
      → Distinct d
      → Distinct (at_risk reals cells d)
  unfolding at_risk
  at_risk-Distinct [] d h = h
  at_risk-Distinct (c ∷ cells) d h =
      at_risk-Distinct cells _ (put-Distinct c.cell_id (or_zero c.population_at_risk) d h)

  -- The people of each cell are those of the cell that its id stands for.
  abbrev AgreesWith : Dict (DemandCell reals Place) → Dict ℕ → Type 0
  AgreesWith known d =
      (k : String) (c : DemandCell reals Place)
      → find k known ≡ some c
      → find k d ≡ some (or_zero c.population_at_risk)

  pub at_risk-cell_by_id :
      (cells : List (DemandCell reals Place)) (known : Dict (DemandCell reals Place)) (d : Dict ℕ)
      → AgreesWith known d
      → AgreesWith (cell_by_id reals cells known) (at_risk reals cells d)
  unfolding at_risk cell_by_id
  at_risk-cell_by_id [] known d h = h
  at_risk-cell_by_id (c ∷ cells) known d h =
      at_risk-cell_by_id cells (put c.cell_id c known)
        (put c.cell_id (or_zero c.population_at_risk) d)
        (λ k c' e. elim (Bool-cases (str_eq c.cell_id k)) [
          | inl same ↦
              let this : c ≡ c' = ground (arith, find-put c.cell_id k c known) in
              find-put c.cell_id k (or_zero c.population_at_risk) d
              ∙ ap (λ b. if b then some (or_zero c.population_at_risk) else find k d) same
              ∙ ap (λ (x : DemandCell reals Place). some (or_zero x.population_at_risk)) this
          | inr other ↦
              find-put c.cell_id k (or_zero c.population_at_risk) d
              ∙ ap (λ b. if b then some (or_zero c.population_at_risk) else find k d) other
              ∙ h k c' (ground (arith, find-put c.cell_id k c known))
        ])

module _ (reals : Reals) (P : Pair (Reals.Real reals) → Type 0) where
  open reals use {Real}

  -- What holds of all pairs holds of all sorted ones, and conversely.
  insert-All : (p : Pair Real) (qs : List (Pair Real)) → P p → All P qs → All P (insert reals p qs)
  unfolding insert
  insert-All p [] h k = (h, tt)
  insert-All p (q ∷ qs) h k =
      if-ind (All P) (ranks_before reals p q) {x = p ∷ q ∷ qs} {y = q ∷ insert reals p qs}
        (λ _. (h, k)) (λ _. (k.0, insert-All p qs h k.1))

  All-insert : (p : Pair Real) (qs : List (Pair Real)) → All P (insert reals p qs) → P p × All P qs
  unfolding insert
  All-insert p [] = λ h. h
  All-insert p (q ∷ qs) =
      if-ind (λ ps. All P ps → P p × All P (q ∷ qs)) (ranks_before reals p q) {x = p ∷ q ∷ qs}
        {y = q ∷ insert reals p qs} (λ _ h. h)
        (λ _ h. let (first, rest) = All-insert p qs h.1 in (first, (h.0, rest)))

  pub sort_onto-All :
      (sorted ps : List (Pair Real)) → All P sorted → All P ps → All P (sort_onto reals sorted ps)
  unfolding sort_onto
  sort_onto-All sorted [] h k = h
  sort_onto-All sorted (p ∷ ps) h k =
      sort_onto-All (insert reals p sorted) ps (insert-All p sorted k.0 h) k.1

  pub All-sort_onto :
      (sorted ps : List (Pair Real)) → All P (sort_onto reals sorted ps) → All P sorted × All P ps
  unfolding sort_onto
  All-sort_onto sorted [] h = (h, tt)
  All-sort_onto sorted (p ∷ ps) h =
      let (front, rest) = All-sort_onto (insert reals p sorted) ps h in
      let (first, before) = All-insert p sorted front in (before, (first, rest))

module _ (reals : Reals) {Place : Type 0} (out : Outside reals Place)
    (P : Pair (Reals.Real reals) → Type 0) where
  -- What holds of the pairs of an asset with all cells holds of its compatible ones.
  All-pairs_with :
      (a : AssetView reals Place) (cells : List (DemandCell reals Place))
      (rest : List (Pair (Reals.Real reals)))
      → All P (pairs_with reals out a cells ++ rest)
      → All (λ c. compatible reals a c ≡ true → P (pair_of reals out a c)) cells × All P rest
  unfolding pairs_with
  All-pairs_with a [] rest h = (tt, h)
  All-pairs_with a (c ∷ cells) rest h =
      if-ind
        (λ ps.
          All P (ps ++ rest)
          → All (λ x. compatible reals a x ≡ true → P (pair_of reals out a x)) (c ∷ cells)
            × All P rest)
        (compatible reals a c) {x = pair_of reals out a c ∷ pairs_with reals out a cells}
        {y = pairs_with reals out a cells}
        (λ _ k.
          let (found, others) = All-pairs_with a cells rest k.1 in (((λ _. k.0), found), others))
        (λ e k.
          let (found, others) = All-pairs_with a cells rest k in
          (((λ e'. absurd (true≢false (sym e' ∙ e))), found), others))
        h

  pub All-all_pairs :
      (assets : List (AssetView reals Place)) (cells : List (DemandCell reals Place))
      → All P (all_pairs reals out assets cells)
      → All (λ a. All (λ c. compatible reals a c ≡ true → P (pair_of reals out a c)) cells) assets
  unfolding all_pairs
  All-all_pairs [] cells h = tt
  All-all_pairs (a ∷ assets) cells h =
      let (first, rest) = All-pairs_with a cells (all_pairs reals out assets cells) h in
      (first, All-all_pairs assets cells rest)

  pairs_with-All :
      (a : AssetView reals Place) (cells : List (DemandCell reals Place))
      → All (λ c. P (pair_of reals out a c)) cells
      → All P (pairs_with reals out a cells)
  unfolding pairs_with
  pairs_with-All a [] h = tt
  pairs_with-All a (c ∷ cells) h =
      if-ind (All P) (compatible reals a c)
        {x = pair_of reals out a c ∷ pairs_with reals out a cells}
        {y = pairs_with reals out a cells} (λ _. (h.0, pairs_with-All a cells h.1))
        (λ _. pairs_with-All a cells h.1)

  pub all_pairs-All :
      (assets : List (AssetView reals Place)) (cells : List (DemandCell reals Place))
      → All (λ a. All (λ c. P (pair_of reals out a c)) cells) assets
      → All P (all_pairs reals out assets cells)
  unfolding all_pairs
  all_pairs-All [] cells h = tt
  all_pairs-All (a ∷ assets) cells h =
      All-append P (pairs_with reals out a cells) (all_pairs reals out assets cells)
        (pairs_with-All a cells h.0) (all_pairs-All assets cells h.1)

-- What is left of a cell is what the result lists for it.
pub uncovered-find :
    (k : String) (d : Dict ℕ) → Distinct d → or_else (find k (uncovered d)) 0 ≡ or_else (find k d) 0
unfolding uncovered find
uncovered-find k [] h = refl
uncovered-find k ((j, n) ∷ d) h = elim (Bool-cases (str_eq j k)) [
  | inl same ↦
      let absent : find k d ≡ none = ap (λ i. find i d) (sym ((eq_iff j k).0 same)) ∙ h.0 in
      ground (arith, uncovered-find k d h.1)
  | inr other ↦ ground (arith, uncovered-find k d h.1)
]
