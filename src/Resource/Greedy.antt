-- ===== src/Resource/Greedy.antt =====
-- tier2/resource/optimizer.py: what the greedy loop does.
use far_away.Prelude.{
  ℕ, ◌-◌, String, ◌≡◌, refl, ap, ◌∙◌, true, false, ◌&&◌, some, List, [], ◌∷◌, str_eq, eq_iff,
  if◌then◌else◌, any, or_else, arith, All, if-ind, Bool-cases, inl, inr, ◌⊎◌, ◌>>=◌,
}
use far_away.Core.Dict.{Dict, find, find-put}
use far_away.Resource.Real.{Reals}
use far_away.Resource.Demand.{DemandCell, AssetView}
use far_away.Resource.Pairs.{Pair}
use far_away.Resource.Optimizer.{
  Progress, is_populated, covers, assignment_of, assign, assign_ids, is_covered, place_at, place,
  place_all,
}
use far_away.Resource.Steps.{times_assigned, times_assigned-snoc, IsKept, assign-IsKept}

module _ (reals : Reals) {Place : Type 0} (assets : Dict (AssetView reals Place))
    (cells : Dict (DemandCell reals Place)) where
  open reals use {Real}

  -- The ids of a pair are those of an asset and of a cell.
  abbrev pub IsKnown : Pair Real → Type 0
  IsKnown p =
      ((a : AssetView reals Place) × (find p.asset_id assets ≡ some a))
      × ((c : DemandCell reals Place) × (find p.cell_id cells ≡ some c))

  -- A pair's asset is used, or its cell has people and all of them are covered.
  abbrev pub IsSettled : Pair Real → Progress Real → Type 0
  IsSettled p s =
      (any (str_eq p.asset_id) s.used_assets ≡ true)
      ⊎ ((find p.cell_id s.remaining ≡ some 0)
          × ((c : DemandCell reals Place) × (find p.cell_id cells ≡ some c)
              × (is_populated reals c ≡ true)))

  -- Each asset is marked as used exactly where it is assigned, and no more than once.
  abbrev pub IsOnce : Progress Real → Type 0
  IsOnce s =
      (k : String)
      → times_assigned k s.assignments ≡ (if any (str_eq k) s.used_assets then 1 else 0)

  assign-IsOnce :
      (p : Pair Real) (a : AssetView reals Place) (c : DemandCell reals Place) (s : Progress Real)
      → any (str_eq p.asset_id) s.used_assets ≡ false
      → IsOnce s
      → IsOnce (assign reals p a c s)
  unfolding assign assignment_of
  assign-IsOnce p a c s free once k =
      let new = assignment_of reals p a (covers reals a c s.remaining p.cell_id) in
      elim (Bool-cases (str_eq k p.asset_id)) [
        | inl same ↦
            let free' : any (str_eq k) s.used_assets ≡ false =
              ap (λ j. any (str_eq j) s.used_assets) ((eq_iff k p.asset_id).0 same) ∙ free in
            ground (arith, times_assigned-snoc k s.assignments new, once k)
        | inr other ↦ ground (arith, times_assigned-snoc k s.assignments new, once k)
      ]

  -- A pair that is settled stays so.
  assign-IsSettled :
      (q p : Pair Real) (a : AssetView reals Place) (c : DemandCell reals Place) (s : Progress Real)
      → IsSettled q s
      → IsSettled q (assign reals p a c s)
  unfolding assign
  assign-IsSettled q p a c s (inl used) = inl (ground arith)
  assign-IsSettled q p a c s (inr (left, known)) =
      let covered = covers reals a c s.remaining p.cell_id in
      inr (
        if-ind (λ (r : Dict ℕ). find q.cell_id r ≡ some 0) (is_populated reals c)
            (λ _. elim (Bool-cases (str_eq p.cell_id q.cell_id)) [
              | inl same ↦
                  let at : find p.cell_id s.remaining ≡ some 0 =
                    ap (λ j. find j s.remaining) ((eq_iff p.cell_id q.cell_id).0 same) ∙ left in
                  ground (
                    arith,
                    find-put p.cell_id q.cell_id (or_else (find p.cell_id s.remaining) 0 - covered)
                        s.remaining,
                  )
              | inr other ↦ ground (
                arith,
                find-put p.cell_id q.cell_id (or_else (find p.cell_id s.remaining) 0 - covered)
                    s.remaining,
              )
            ])
            (λ _. left),
        known,
      )

  own_id :
      (p : Pair Real) (a : AssetView reals Place) (c : DemandCell reals Place) (s : Progress Real)
      → any (str_eq p.asset_id) (assign reals p a c s).used_assets ≡ true
  unfolding assign
  own_id p a c s = ground (arith, eq_iff p.asset_id p.asset_id)

  -- What a run of the loop from one state to another does.
  pub record IsPlaced (ps : List (Pair Real)) (s t : Progress Real) : Type 0 where
    pub once : IsOnce s → IsOnce t
    pub kept : IsKept reals assets cells s → IsKept reals assets cells t
    pub stays : (q : Pair Real) → IsSettled q s → IsSettled q t
    pub settled : IsKept reals assets cells s → All (λ p. IsSettled p t) ps

  place-IsPlaced :
      (p : Pair Real) (s : Progress Real)
      → IsKnown p
      → (t : Progress Real) × (place reals assets cells p s ≡ some t) × IsPlaced (p ∷ []) s t
  unfolding place place_at assign_ids is_covered
  place-IsPlaced p s ((a, fa), (c, fc)) =
      elim (Bool-cases (any (str_eq p.asset_id) s.used_assets)) [
        | inl used ↦ (
          s,
          rw used,
          record { once = λ h. h; kept = λ h. h; stays = λ q h. h; settled = λ _. (inl used, tt) },
        )
        | inr free ↦ elim (Bool-cases (is_covered p s && is_populated reals c)) [
          | inl full ↦ (
            s,
            rw (free, fc, full),
            record {
              once = λ h. h;
              kept = λ h. h;
              stays = λ q h. h;
              settled = λ kept.
                  let populated : is_populated reals c ≡ true = ground arith in
                  let (n, e, total) = kept.conserved p.cell_id c fc populated in
                  (inr (ground arith, (c, fc, populated)), tt);
            },
          )
          | inr room ↦ (
            assign reals p a c s,
            rw (free, fc, room, fa, fc),
            record {
              once = assign-IsOnce p a c s free;
              kept = assign-IsKept reals assets cells p a c s fa fc;
              stays = λ q. assign-IsSettled q p a c s;
              settled = λ _. (inl (own_id p a c s), tt);
            },
          )
        ]
      ]

  pub place_all-IsPlaced :
      (ps : List (Pair Real)) (s : Progress Real)
      → All IsKnown ps
      → (t : Progress Real) × (place_all reals assets cells ps s ≡ some t) × IsPlaced ps s t
  unfolding place_all
  place_all-IsPlaced [] s known =
      (s, refl, record { once = λ h. h; kept = λ h. h; stays = λ q h. h; settled = λ _. tt })
  place_all-IsPlaced (p ∷ ps) s known =
      let (s', e, first) = place-IsPlaced p s known.0 in
      let (t, e', rest) = place_all-IsPlaced ps s' known.1 in
      (
        t,
        ap (λ o. o >>= place_all reals assets cells ps) e ∙ e',
        record {
          once = λ h. rest.once (first.once h);
          kept = λ h. rest.kept (first.kept h);
          stays = λ q h. rest.stays q (first.stays q h);
          settled = λ h. (rest.stays p (first.settled h).0, rest.settled (first.kept h));
        },
      )
