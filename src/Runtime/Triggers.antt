-- ===== src/Runtime/Triggers.antt =====
-- orchestration/triggers.py: which disaster modules a snapshot of the signals activates.
use far_away.Prelude.{
  ℕ, ◌*◌, ◌^◌, Bool, true, false, Option, none, some, List, [], ◌∷◌, leb, if◌then◌else◌,
}
use far_away.Prelude.Int.{ℤ, pos, negsuc}
use far_away.Core.Contracts.{Module, cyclone_flood, earthquake, fire_collapse}

-- A finite float, by its shortest decimal: m / 10^k.
abbrev pub Decimal : Type 0
Decimal = ℤ × ℕ

-- x >= n / 10, exactly
unfoldable pub at_least_tenths : Decimal → ℕ → Bool
at_least_tenths (pos m, k) n = leb (n * 10 ^ k) (m * 10)
at_least_tenths (negsuc m, k) n = false

-- `Signals`
pub record Signals : Type 0 where
  pub imd_cyclone_alert : Bool
  pub river_gauge_pct_of_danger : Decimal
  pub dam_discharge_ordered : Bool
  pub waterlogging_breach_zones : ℕ
  pub hours_to_landfall : Option Decimal
  pub max_seismic_magnitude : Decimal
  pub fire_brigade_calls_in_zone_10min : ℕ
  pub smoke_heat_cluster : Bool
  pub firms_thermal_anomaly : Bool
  pub social_collapse_cluster : Bool

-- The reasons of the predicates.
pub data Reason : Type 0 where
  no_reason cyclone_alert dam_discharge smoke_heat thermal_anomaly collapse_cluster : Reason
  river_gauge : Decimal → Reason
  waterlogging : ℕ → Reason
  seismic : Decimal → Reason
  brigade_calls : ℕ → Reason

-- `module_a_active`
unfoldable pub module_a_active : Signals → Bool × Reason
unfolding at_least_tenths
module_a_active s =
    if s.imd_cyclone_alert
    then (true, cyclone_alert)
    else if at_least_tenths s.river_gauge_pct_of_danger 750
    then (true, river_gauge s.river_gauge_pct_of_danger)
    else if s.dam_discharge_ordered
    then (true, dam_discharge)
    else if leb 3 s.waterlogging_breach_zones
    then (true, waterlogging s.waterlogging_breach_zones)
    else (false, no_reason)

-- `module_b_active`
unfoldable pub module_b_active : Signals → Bool × Reason
unfolding at_least_tenths
module_b_active s =
    if at_least_tenths s.max_seismic_magnitude 45
    then (true, seismic s.max_seismic_magnitude)
    else (false, no_reason)

-- `module_c_active`
unfoldable pub module_c_active : Signals → Bool × Reason
module_c_active s =
    if leb 3 s.fire_brigade_calls_in_zone_10min
    then (true, brigade_calls s.fire_brigade_calls_in_zone_10min)
    else if s.smoke_heat_cluster
    then (true, smoke_heat)
    else if s.firms_thermal_anomaly
    then (true, thermal_anomaly)
    else if s.social_collapse_cluster
    then (true, collapse_cluster)
    else (false, no_reason)

-- The lead time notes.
pub data LeadTime : Type 0 where
  within_90_seconds immediately before_72_hours : LeadTime

-- `_PREDICATES`
unfoldable pub predicates : List ((Signals → Bool × Reason) × (Module × LeadTime))
unfolding module_a_active module_b_active module_c_active
predicates =
    (module_b_active, (earthquake, within_90_seconds))
    ∷ (module_c_active, (fire_collapse, immediately))
    ∷ (module_a_active, (cyclone_flood, before_72_hours))
    ∷ []

-- the loop of `should_activate`
unfoldable pub first_active :
    List ((Signals → Bool × Reason) × (Module × LeadTime)) → Signals → Option Module
first_active [] s = none
first_active ((fn, (m, lead)) ∷ rest) s = if (fn s).0 then some m else first_active rest s

-- `should_activate`
unfoldable pub should_activate : Signals → Option Module
unfolding first_active predicates
should_activate s = first_active predicates s

-- `ActivationDecision`
pub record ActivationDecision : Type 0 where
  pub module_of : Module
  pub reason : Reason
  pub lead_time_note : LeadTime

-- the loop of `activation_report`
unfoldable pub report_from :
    List ((Signals → Bool × Reason) × (Module × LeadTime)) → Signals → List ActivationDecision
report_from [] s = []
report_from ((fn, (m, lead)) ∷ rest) s =
    let later = report_from rest s in
    if (fn s).0
    then record { module_of = m; reason = (fn s).1; lead_time_note = lead } ∷ later
    else later

-- `activation_report`
unfoldable pub activation_report : Signals → List ActivationDecision
unfolding report_from predicates
activation_report s = report_from predicates s
