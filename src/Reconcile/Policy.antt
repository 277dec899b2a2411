-- ===== src/Reconcile/Policy.antt =====
-- models/reconcile_policy.py: authorities, tolerances and thresholds.
use far_away.Prelude.{
  ℕ, String, Bool, ◌&&◌, ◌||◌, Option, none, some, List, [], ◌∷◌, str_eq, if◌then◌else◌,
}
use far_away.Core.Dict.{Dict, find}

-- Python's values and floats, as far as reconciliation uses them: `None`, `v is None`,
-- `v == w`, `str(v)`, `float(v)`
-- with `none` for `TypeError` and `ValueError`, `abs(x - y)`, `x <= y`, `x < y`, `round(x, 4)` and
-- the float that is written as m / 10^k.
pub record Numbers : Type 1 where
  pub Value : Type 0
  pub Real : Type 0
  pub null : Value
  pub is_null : Value → Bool
  pub same_value : Value → Value → Bool
  pub shown : Value → String
  pub to_float : Value → Option Real
  pub distance : Real → Real → Real
  pub at_most : Real → Real → Bool
  pub below : Real → Real → Bool
  pub rounded : Real → Real
  pub decimal : (m k : ℕ) → Real

-- `SOURCE_AUTHORITY`
unfoldable pub source_authority : Dict (Dict ℕ)
source_authority =
    ("magnitude", ("india_ncs", 2) ∷ ("usgs", 2) ∷ ("emsc", 2) ∷ [])
    ∷ ("depth_km", ("usgs", 3) ∷ ("emsc", 2) ∷ ("india_ncs", 1) ∷ [])
    ∷ ("lat", ("usgs", 3) ∷ ("emsc", 2) ∷ ("india_ncs", 1) ∷ [])
    ∷ ("lon", ("usgs", 3) ∷ ("emsc", 2) ∷ ("india_ncs", 1) ∷ [])
    ∷ ("place", ("india_ncs", 3) ∷ ("usgs", 2) ∷ ("emsc", 1) ∷ [])
    ∷ []

-- `DEFAULT_AUTHORITY`
abbrev pub default_authority : ℕ
default_authority = 1

abbrev ranking_or_empty : Option (Dict ℕ) → Dict ℕ
ranking_or_empty none = []
ranking_or_empty (some d) = d

abbrev or_authority : Option ℕ → ℕ
or_authority none = default_authority
or_authority (some n) = n

-- `authority_of`
unfoldable pub authority_of : (source field : String) → ℕ
unfolding source_authority find
authority_of source field =
    or_authority (find source (ranking_or_empty (find field source_authority)))

-- `FAIL_TOWARD_CAUTION_FIELDS`
abbrev pub fails_toward_caution : String → Bool
fails_toward_caution name = str_eq name "magnitude"

-- `CAPSTONE_RECOMMENDATIONS`
unfoldable pub is_capstone : String → Bool
is_capstone s =
    str_eq s "NO_ACTIONABLE_WARNING"
    || (str_eq s "BELOW_BREAKEVEN_HOLD"
        || (str_eq s "NOT_CLEARABLE_VERTICAL" || str_eq s "ORDER_BY_DEADLINE"))

module _ (num : Numbers) where
  open num use {Value, Real, is_null, to_float, at_most, below, decimal}

  -- `FIELD_TOLERANCE`, `DEFAULT_TOLERANCE` and `tolerance_of`
  unfoldable pub tolerance_of : String → Real
  tolerance_of field =
      if str_eq field "magnitude"
      then decimal 10 2
      else if str_eq field "depth_km"
      then decimal 50 1
      else if str_eq field "lat"
      then decimal 10 2
      else if str_eq field "lon"
      then decimal 10 2
      else decimal 0 1

  -- `DISPATCH_THRESHOLDS`
  unfoldable pub dispatch_thresholds : String → List Real
  dispatch_thresholds field =
      if str_eq field "magnitude"
      then decimal 45 1 ∷ decimal 55 1 ∷ decimal 60 1 ∷ decimal 65 1 ∷ decimal 70 1 ∷ []
      else if str_eq field "depth_km"
      then decimal 700 1 ∷ []
      else []

  -- the loop of `crossed_threshold`: the first threshold with lo < threshold <= hi
  unfoldable pub first_crossed : (lo hi : Real) → List Real → Option Real
  first_crossed lo hi [] = none
  first_crossed lo hi (t ∷ rest) =
      if below lo t && at_most t hi then some t else first_crossed lo hi rest

  abbrev pub crossed_between : String → Option Real → Option Real → Option Real
  crossed_between field (some a) (some b) =
      let (lo, hi) : Real × Real = if below b a then (b, a) else (a, b) in
      first_crossed lo hi (dispatch_thresholds field)
  crossed_between field a b = none

  -- `crossed_threshold`
  unfoldable pub crossed_threshold : String → (before after : Value) → Option Real
  unfolding first_crossed dispatch_thresholds
  crossed_threshold field before after =
      if is_null before || is_null after
      then none
      else crossed_between field (to_float before) (to_float after)
