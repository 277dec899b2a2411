-- ===== src/Federation/Nearest.antt =====
-- federation/coordinator.py: which peer `nearest_provider` gives.
use mathlib.Core.List.{Memᴰ}
use mathlib.Core.Path.{subst}
use mathlib.Core.Bool.{true≢false}
use far_away.Prelude.{
  String, ◌≡◌, refl, sym, Bool, ◌||◌, if◌then◌else◌, true, false, Option, none, some, List, [], ◌∷◌,
  arith, filter, All, All-map, All-filter, All-members, All-passing, Bool-cases, inl, inr, if-ind,
}
use far_away.Core.TextOrder.{text_lt_irrefl, text_lt_trans, text_lt_cotrans}
use far_away.Federation.Model.{AssetType, District}
use far_away.Federation.Coordinator.{
  Coordinator, Outside, is_nearer, nearest_from, is_candidate, nearest_of, nearest_provider,
}

module _ (out : Outside) (home : District) where
  is_nearer_irrefl : (a : District) → is_nearer out home a a ≡ false
  unfolding is_nearer
  is_nearer_irrefl a = ground (arith, text_lt_irrefl a.district_id)

  is_nearer_trans :
      (a b c : District)
      → is_nearer out home a b ≡ true
      → is_nearer out home b c ≡ true
      → is_nearer out home a c ≡ true
  unfolding is_nearer
  is_nearer_trans a b c h k =
      ground (arith, text_lt_trans a.district_id b.district_id c.district_id)

  is_nearer_cotrans :
      (a b c : District)
      → is_nearer out home a c ≡ true
      → (is_nearer out home a b || is_nearer out home b c) ≡ true
  unfolding is_nearer
  is_nearer_cotrans a b c h =
      ground (arith, text_lt_cotrans a.district_id b.district_id c.district_id)

  -- The choice is no further than any of the peers it is made from.
  abbrev NotFurther : District → District → Type 0
  NotFurther d p = is_nearer out home p d ≡ false

  nearest_from-NotFurther :
      (best : District) (ps : List District)
      → NotFurther (nearest_from out home best ps) best
        × All (NotFurther (nearest_from out home best ps)) ps
  unfolding nearest_from
  nearest_from-NotFurther best [] = (is_nearer_irrefl best, tt)
  nearest_from-NotFurther best (p ∷ ps) =
      let r = nearest_from out home (if is_nearer out home p best then p else best) ps in
      let ih = nearest_from-NotFurther (if is_nearer out home p best then p else best) ps in
      elim (Bool-cases (is_nearer out home p best)) [
        | inl e ↦
            let chosen : NotFurther r p =
              subst (λ b. NotFurther r (if b then p else best)) e ih.0 in
            (ground (arith, is_nearer_trans p best r e), (chosen, ih.1))
        | inr e ↦
            let chosen : NotFurther r best =
              subst (λ b. NotFurther r (if b then p else best)) e ih.0 in
            (chosen, (ground (arith, is_nearer_cotrans p best r), ih.1))
      ]

  nearest_from-All :
      (P : District → Type 0) (best : District) (ps : List District)
      → P best
      → All P ps
      → P (nearest_from out home best ps)
  unfolding nearest_from
  nearest_from-All P best [] h all = h
  nearest_from-All P best (p ∷ ps) h all =
      nearest_from-All P (if is_nearer out home p best then p else best) ps
        (if-ind P (is_nearer out home p best) (λ _. all.0) (λ _. h)) all.1

  -- What `nearest_provider` gives: no peer that is not excluded has the asset type to spare, or a
  -- peer that has, is not excluded, and is no further than any other such one.
  pub data IsNearest (asset_type : AssetType) (exclude : List String) (peers : List District)
      : Option District → Type 0 where
    nobody :
        All (λ p. is_candidate asset_type exclude p ≡ false) peers
        → IsNearest asset_type exclude peers none
    nearest :
        (d : District)
        → Memᴰ d peers
        → is_candidate asset_type exclude d ≡ true
        → All (λ p. is_candidate asset_type exclude p ≡ true → is_nearer out home p d ≡ false) peers
        → IsNearest asset_type exclude peers (some d)

  module _ (asset_type : AssetType) (exclude : List String) (peers : List District) where
    abbrev passes : District → Bool
    passes = is_candidate asset_type exclude

    nearest_of-IsNearest :
        (ps : List District)
        → filter passes peers ≡ ps
        → IsNearest asset_type exclude peers (nearest_of out home ps)
    unfolding nearest_of
    nearest_of-IsNearest [] e = nobody (
        All-map
          (λ p h. elim (Bool-cases (passes p)) [ inl k ↦ absurd (true≢false (h k)) | inr k ↦ k ])
          peers
          (All-passing (λ _. true ≡ false) passes peers
            (subst (All (λ _. true ≡ false)) (sym e) tt)))
    nearest_of-IsNearest (p ∷ ps) e =
        let found =
          subst (All (λ d. Memᴰ d peers × (passes d ≡ true))) e
            (All-filter (λ d. Memᴰ d peers) passes peers (All-members peers)) in
        let d = nearest_from out home p ps in
        let is_found =
          nearest_from-All (λ d. Memᴰ d peers × (passes d ≡ true)) p ps found.0 found.1 in
        nearest d is_found.0 is_found.1 (
          All-passing (NotFurther d) passes peers
            (subst (All (NotFurther d)) (sym e) (nearest_from-NotFurther p ps)))

-- The provider is a peer that is not excluded and has the asset type to spare, and none such is
-- nearer or as near with an id before it; no provider is given only where there is none such.
pub nearest_provider-IsNearest :
    (out : Outside) (asset_type : AssetType) (exclude : List String) (c : Coordinator)
    → IsNearest out c.home asset_type exclude c.peers (nearest_provider out asset_type exclude c)
unfolding nearest_provider
nearest_provider-IsNearest out asset_type exclude c =
    nearest_of-IsNearest out c.home asset_type exclude c.peers
      (filter (is_candidate asset_type exclude) c.peers) refl

pub nearest-is_candidate :
    (out : Outside) (home : District) (asset_type : AssetType) (exclude : List String)
    (peers : List District) (d : District)
    → IsNearest out home asset_type exclude peers (some d)
    → is_candidate asset_type exclude d ≡ true
nearest-is_candidate out home asset_type exclude peers d (nearest _ m h all) = h
