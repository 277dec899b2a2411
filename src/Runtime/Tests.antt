-- ===== src/Runtime/Tests.antt =====
-- The theorems on the runtime at concrete systems.
use far_away.Prelude.{ℕ, ◌*◌, suc, String, refl, true, false, none, List, [], ◌∷◌, arith}
use far_away.Prelude.Int.{pos}
use far_away.Commander.State.{Env, init}
use far_away.Runtime.Triggers.{Signals}
use far_away.Runtime.Loop.{Agent, Loop, has_commander, run}
use far_away.Runtime.Cycles.{Runs, run-Runs}
use far_away.Core.Contracts.{fire_collapse}
use far_away.Runtime.Incidents.{Systems, IncidentRuntime, signals, activate}
use far_away.Runtime.Isolation.{Activates, activate-Activates}
use far_away.Runtime.Bus.{Bus, remember, publish}
use far_away.Runtime.History.{unused, then_published, IsWithin, publish-IsWithin}

abbrev environment : Env
environment = record {
  hex = λ n. "0";
  message_id = λ n. "id";
  stamp = λ n. "now";
  clock = λ n. 100;
  write_ok = λ n. true;
  render = λ v. "";
}

abbrev two_agents : List (Agent ℕ)
two_agents =
    record { name = "field"; run_tick = λ s. (s.0, suc s.1) }
    ∷ record { name = "commander"; run_tick = λ s. s }
    ∷ []

abbrev loop : Loop ℕ
loop = record {
  agents = two_agents;
  disaster_active = false;
  cycle = 4;
  degraded_modules = [];
  commander = init "commander" 300;
  world = 0;
}

run-Runs_example :
    Runs environment
      (λ n. refl)
      3
      (λ n. n * 30)
      (λ n. true)
      loop
      (run environment 3 (λ n. n * 30) (λ n. true) loop)
unfolding has_commander
run-Runs_example = run-Runs environment (λ n. refl) 3 (λ n. n * 30) (λ n. true) loop refl

-- A quake of magnitude 4.5 and a burning zone.
abbrev signals_now : Signals
signals_now = record {
  imd_cyclone_alert = false;
  river_gauge_pct_of_danger = (pos 74, 0);
  dam_discharge_ordered = false;
  waterlogging_breach_zones = 2;
  hours_to_landfall = none;
  max_seismic_magnitude = (pos 45, 1);
  fire_brigade_calls_in_zone_10min = 3;
  smoke_heat_cluster = false;
  firms_thermal_anomaly = false;
  social_collapse_cluster = false;
}

abbrev full_bus : Bus String
full_bus = record { subs = ("a", ("x", 0) ∷ []) ∷ []; history_max = 2; history = "a" ∷ "b" ∷ [] }

-- A callback that answers on the bus.
abbrev answering : ℕ → String → Bus String × ℕ → Bus String × ℕ
answering n m (b, w) = (remember "c" b, suc w)

publish-IsWithin_example : IsWithin 2 (publish (λ m. m) answering "a" (full_bus, 0)).0
publish-IsWithin_example =
    publish-IsWithin (λ m. m) answering (λ n m s. then_published s.0 s.0 "c" (unused s.0)) "a"
      full_bus 0 (omega arith) (omega arith)

-- Systems whose agents all fail to load, and a manager with one fire.
abbrev systems : Systems ℕ ℕ
systems = record {
  load = λ path. none;
  new_commander = init "commander" 300;
  new_world = 0;
  inject = λ incident_id s l. l;
  details_of = λ m s. 7;
}

abbrev fire : IncidentRuntime ℕ ℕ
fire = record {
  incident_id = "fire-1";
  module_of = fire_collapse;
  loop = loop;
  seed = record { module_of = fire_collapse; details = 1 };
  active = true;
}

activate-Activates_example :
    Activates systems "quake-1"
      (signals signals_now)
      (("fire-1", fire) ∷ [])
      (activate systems "quake-1" (signals signals_now) (("fire-1", fire) ∷ []))
activate-Activates_example =
    activate-Activates systems "quake-1" (signals signals_now) (("fire-1", fire) ∷ [])
