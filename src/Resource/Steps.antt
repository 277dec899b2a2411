-- ===== src/Resource/Steps.antt =====
-- tier2/resource/optimizer.py: the steps of the loops that assign, and what each of them keeps.
use far_away.Prelude.{
  ℕ, ◌+◌, ◌-◌, ◌≤◌, String, ◌≡◌, sym, ap, ◌∙◌, true, some, List, [], ◌∷◌, ◌++◌, str_eq, eq_iff,
  if◌then◌else◌, or_else, arith, All, All-snoc, if-ind, Bool-cases, inl, inr,
}
use mathlib.Core.Option.{some_inj}
use far_away.Prelude.Int.{pos, lt_int, or_zero}
use far_away.Core.Dict.{Dict, find, put, find-put, Distinct, put-Distinct}
use far_away.Resource.Real.{Reals}
use far_away.Resource.Demand.{DemandCell, AssetView}
use far_away.Resource.Pairs.{Pair}
use far_away.Resource.Optimizer.{
  Assignment, Progress, is_populated, capacity_at, covers, assign, assignment_of,
}

module _ {Real : Type 0} where
  -- How often an asset is assigned.
  unfoldable pub times_assigned : String → List (Assignment Real) → ℕ
  times_assigned k [] = 0
  times_assigned k (x ∷ xs) = (if str_eq k x.asset_id then 1 else 0) + times_assigned k xs

  -- The people of a cell that are covered by the assignments.
  unfoldable pub covered_at : String → List (Assignment Real) → ℕ
  covered_at k [] = 0
  covered_at k (x ∷ xs) = (if str_eq x.cell_id k then x.covered else 0) + covered_at k xs

  pub times_assigned-snoc :
      (k : String) (xs : List (Assignment Real)) (x : Assignment Real)
      → times_assigned k (xs ++ x ∷ [])
        ≡ times_assigned k xs + (if str_eq k x.asset_id then 1 else 0)
  unfolding times_assigned
  times_assigned-snoc k [] x = ground arith
  times_assigned-snoc k (y ∷ xs) x = ground (arith, times_assigned-snoc k xs x)

  pub covered_at-snoc :
      (k : String) (xs : List (Assignment Real)) (x : Assignment Real)
      → covered_at k (xs ++ x ∷ [])
        ≡ covered_at k xs + (if str_eq x.cell_id k then x.covered else 0)
  unfolding covered_at
  covered_at-snoc k [] x = ground arith
  covered_at-snoc k (y ∷ xs) x = ground (arith, covered_at-snoc k xs x)

module _ (reals : Reals) {Place : Type 0} where
  open reals use {Real}

  -- An asset covers no more than is left of a cell with people, and no more than its capacity.
  pub covers-le :
      (a : AssetView reals Place) (c : DemandCell reals Place) (remaining : Dict ℕ) (k : String)
      (n : ℕ)
      → find k remaining ≡ some n
      → is_populated reals c ≡ true
      → covers reals a c remaining k ≤ n
  unfolding covers
  covers-le a c remaining k n h = ground arith

  pub covers-le_capacity :
      (a : AssetView reals Place) (c : DemandCell reals Place) (remaining : Dict ℕ) (k : String)
      → lt_int (pos 0) a.capacity ≡ true
      → covers reals a c remaining k ≤ or_zero a.capacity
  unfolding covers capacity_at
  covers-le_capacity a c remaining k h = ground arith

  -- The assignment is one of an asset of the inventory, and covers no more than its capacity.
  abbrev pub HeldBy : Dict (AssetView reals Place) → Assignment Real → Type 0
  HeldBy assets x =
      (a : AssetView reals Place) × (find x.asset_id assets ≡ some a)
      × (lt_int (pos 0) a.capacity ≡ true → x.covered ≤ or_zero a.capacity)

  -- What the loops keep.
  pub record IsKept (assets : Dict (AssetView reals Place)) (cells : Dict (DemandCell reals Place))
      (s : Progress Real) : Type 0 where
    pub distinct : Distinct s.remaining
    pub held : All (HeldBy assets) s.assignments
    pub conserved :
        (k : String) (c : DemandCell reals Place)
        → find k cells ≡ some c
        → is_populated reals c ≡ true
        → (n : ℕ) × (find k s.remaining ≡ some n)
          × (covered_at k s.assignments + n ≡ or_zero c.population_at_risk)

  pub assign-IsKept :
      (assets : Dict (AssetView reals Place)) (cells : Dict (DemandCell reals Place))
      (p : Pair Real) (a : AssetView reals Place) (c : DemandCell reals Place) (s : Progress Real)
      → find p.asset_id assets ≡ some a
      → find p.cell_id cells ≡ some c
      → IsKept assets cells s
      → IsKept assets cells (assign reals p a c s)
  unfolding assign assignment_of
  assign-IsKept assets cells p a c s fa fc kept =
      let cov = covers reals a c s.remaining p.cell_id in
      let left = or_else (find p.cell_id s.remaining) 0 - cov in
      let new = assignment_of reals p a cov in
      record {
        distinct =
            if-ind Distinct (is_populated reals c)
              (λ _. put-Distinct p.cell_id left s.remaining kept.distinct) (λ _. kept.distinct);
        held =
            All-snoc (HeldBy assets) s.assignments new kept.held
              (a, fa, covers-le_capacity a c s.remaining p.cell_id);
        conserved = λ k d fd pop.
            let (n, e, total) = kept.conserved k d fd pop in
            elim (Bool-cases (str_eq p.cell_id k)) [
              | inl same ↦
                  let here : p.cell_id ≡ k = (eq_iff p.cell_id k).0 same in
                  let at : find p.cell_id s.remaining ≡ some n =
                    ap (λ j. find j s.remaining) here ∙ e in
                  let cell : d ≡ c = some_inj.0 (sym fd ∙ ap (λ j. find j cells) (sym here) ∙ fc) in
                  let pop' : is_populated reals c ≡ true =
                    ap (is_populated reals) (sym cell) ∙ pop in
                  (
                    n - cov,
                    ap (λ b. find k (if b then put p.cell_id left s.remaining else s.remaining))
                          pop'
                        ∙ ground (arith, find-put p.cell_id k left s.remaining),
                    ground (
                      arith,
                      covered_at-snoc k s.assignments new,
                      covers-le a c s.remaining p.cell_id n at pop',
                    ),
                  )
              | inr other ↦ (
                n,
                if-ind (λ (r : Dict ℕ). find k r ≡ some n) (is_populated reals c)
                    (λ _. ground (arith, find-put p.cell_id k left s.remaining)) (λ _. e),
                ground (arith, covered_at-snoc k s.assignments new),
              )
            ];
      }
