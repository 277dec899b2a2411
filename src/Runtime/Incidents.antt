-- ===== src/Runtime/Incidents.antt =====
-- multi_incident/manager.py: an agent system for each active disaster.
use far_away.Prelude.{
  ℕ, zero, suc, String, Bool, true, false, not, Option, none, some, List, [], ◌∷◌, if◌then◌else◌,
}
use far_away.Core.Dict.{Dict, find, put, pop}
use far_away.Core.Contracts.{Module}
use far_away.Commander.State.{Commander, Env}
use far_away.Runtime.Triggers.{Signals, should_activate}
use far_away.Runtime.Loop.{Agent, Loop, build_system, run_once, stop}

-- `IncidentSeed`: its module, and what only the messages that are injected read of it
pub record IncidentSeed (D : Type 0) : Type 0 where
  pub module_of : Module
  pub details : D

-- `signals_or_seed`
pub data Source (D : Type 0) : Type 0 where
  signals : Signals → Source D
  seed : IncidentSeed D → Source D

-- `IncidentRuntime`; its bus is part of its system
pub record IncidentRuntime (D W : Type 0) : Type 0 where
  pub incident_id : String
  pub module_of : Module
  pub loop : Loop W
  pub seed : IncidentSeed D
  pub active : Bool

-- `IncidentManager`, its incidents by id
abbrev pub IncidentManager : Type 0 → Type 0 → Type 0
IncidentManager D W = Dict (IncidentRuntime D W)

-- What the manager calls: the loading of a module's agents, a fresh commander and a fresh bus with
-- what else belongs to a system, what `_seed_field_teams` and `_inject_hazard` leave of a system, by
-- publishing on its bus, and `_seed_from_signals`.
pub record Systems (D W : Type 0) : Type 0 where
  pub load : String → Option (List (Agent W))
  pub new_commander : Commander
  pub new_world : W
  pub inject : String → IncidentSeed D → Loop W → Loop W
  pub details_of : Module → Signals → D

-- How `activate` ends: with the incident, or with one of its two `ValueError`s.
pub data Activated (D W : Type 0) : Type 0 where
  activated : IncidentRuntime D W → Activated D W
  already_active nothing_to_activate : Activated D W

module _ {D W : Type 0} (systems : Systems D W) where
  -- `_resolve_seed`; `none` is its `ValueError`
  unfoldable pub resolve_seed : Source D → Option (IncidentSeed D)
  unfolding should_activate
  resolve_seed (seed s) = some s
  resolve_seed (signals s) = elim (should_activate s) [
    | none ↦ none
    | some m ↦ some (record { module_of = m; details = systems.details_of m s })
  ]

  -- the incident that `activate` makes of a seed
  unfoldable pub new_incident : String → IncidentSeed D → IncidentRuntime D W
  unfolding build_system
  new_incident incident_id s = record {
    incident_id = incident_id;
    module_of = s.module_of;
    loop =
        systems.inject incident_id s
          (build_system systems.load systems.new_commander systems.new_world);
    seed = s;
    active = true;
  }

  -- `activate` behind its guard
  unfoldable pub activate_seed :
      String → Option (IncidentSeed D) → IncidentManager D W → IncidentManager D W × Activated D W
  unfolding new_incident put
  activate_seed incident_id none m = (m, nothing_to_activate)
  activate_seed incident_id (some s) m =
      let r = new_incident incident_id s in (put incident_id r m, activated r)

  abbrev guarded :
      Option (IncidentRuntime D W)
      → IncidentManager D W
      → IncidentManager D W × Activated D W
      → IncidentManager D W × Activated D W
  guarded none m next = next
  guarded (some r) m next = (m, already_active)

  -- `activate`
  unfoldable pub activate :
      String → Source D → IncidentManager D W → IncidentManager D W × Activated D W
  unfolding resolve_seed activate_seed find
  activate incident_id source m =
      guarded (find incident_id m) m (activate_seed incident_id (resolve_seed source) m)

module _ {D W : Type 0} where
  -- what `deactivate` leaves of the incident that it drops
  unfoldable pub retired : IncidentRuntime D W → IncidentRuntime D W
  unfolding stop
  retired r = record r { active = false; loop = stop r.loop }

  abbrev retired_of : Option (IncidentRuntime D W) → Option (IncidentRuntime D W)
  unfolding retired
  retired_of none = none
  retired_of (some r) = some (retired r)

  -- `deactivate`, with the incident that it drops, where it returns `True`
  unfoldable pub deactivate :
      String → IncidentManager D W → IncidentManager D W × Option (IncidentRuntime D W)
  unfolding find pop retired
  deactivate incident_id m = (pop incident_id m, retired_of (find incident_id m))

  module _ (env : Env) where
    -- the body of the loop of `run_cycle`, on one incident
    unfoldable pub drive : ℕ → IncidentRuntime D W → IncidentRuntime D W
    unfolding run_once
    drive now r = if not r.active then r else record r { loop = (run_once env now r.loop).0 }

    -- `run_cycle`: the incidents that it leaves, and its results
    unfoldable pub run_cycle : ℕ → IncidentManager D W → IncidentManager D W × Dict ℕ
    unfolding drive
    run_cycle now [] = ([], [])
    run_cycle now ((k, r) ∷ rest) =
        let (m, results) = run_cycle now rest in
        let r' = drive now r in
        ((k, r') ∷ m, if not r.active then results else (k, r'.loop.cycle) ∷ results)

    -- `run_cycles`
    unfoldable pub run_cycles : (n : ℕ) → ℕ → IncidentManager D W → IncidentManager D W
    unfolding run_cycle
    run_cycles zero now m = m
    run_cycles (suc n) now m = run_cycles n now (run_cycle now m).0
