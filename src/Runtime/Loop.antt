-- ===== src/Runtime/Loop.antt =====
-- orchestration/loop.py: the coordination loop around the commander.
use far_away.Prelude.{
  ℕ, zero, suc, ◌-◌, String, Bool, true, false, not, ◌&&◌, Option, none, some, List, [], ◌∷◌, ◌++◌,
  str_eq, if◌then◌else◌,
}
use far_away.Core.Contracts.{Module}
use far_away.Commander.State.{Commander, Env}
use far_away.Commander.Pending.{resolve_pending}
use far_away.Runtime.Triggers.{Signals, should_activate}

-- An agent of the loop. `run_tick` gives what its periodic work leaves of the commander, to which
-- it may deliver messages, and of the rest of the system, where it raises too.
pub record Agent (W : Type 0) : Type 0 where
  pub name : String
  pub run_tick : Commander × W → Commander × W

-- `CoordinationLoop`, with the commander's state and that of the rest of the system
pub record Loop (W : Type 0) : Type 0 where
  pub agents : List (Agent W)
  pub disaster_active : Bool
  pub cycle : ℕ
  pub degraded_modules : List String
  pub commander : Commander
  pub world : W

abbrev is_some : Option Module → Bool
is_some none = false
is_some (some m) = true

module _ {W : Type 0} where
  abbrev is_commander : Agent W → Bool
  is_commander a = str_eq a.name "commander"

  -- `self.commander is not None`
  unfoldable pub has_commander : List (Agent W) → Bool
  has_commander [] = false
  has_commander (a ∷ rest) = if is_commander a then true else has_commander rest

  -- the ticks of the agents but the first that is named "commander"; `passed` says it was met
  unfoldable pub tick_all : (passed : Bool) → List (Agent W) → Commander × W → Commander × W
  tick_all passed [] s = s
  tick_all passed (a ∷ rest) s =
      let skips = is_commander a && not passed in
      tick_all (if skips then true else passed) rest (if skips then s else a.run_tick s)

  module _ (env : Env) where
    -- `run_once`, with the reading of the clock that the sweep uses
    unfoldable pub run_once : (now_epoch : ℕ) → Loop W → Loop W × ℕ
    unfolding tick_all has_commander resolve_pending
    run_once now_epoch l =
        let (c, w) = tick_all false l.agents (l.commander, l.world) in
        let swept = if has_commander l.agents then (resolve_pending env now_epoch c).0 else c in
        (record l { cycle = suc l.cycle; commander = swept; world = w }, suc l.cycle)

    -- the cycles of `run` from the n-th on, of which `left` more follow at most; `active n` says
    -- that `stop` was not called by the end of the n-th cycle
    unfoldable pub run_from :
        (clock : ℕ → ℕ) → (active : ℕ → Bool) → (left n : ℕ) → Loop W → Loop W × ℕ
    unfolding run_once
    run_from clock active zero n l =
        (record (run_once (clock n) l).0 { disaster_active = active (suc n) }, suc n)
    run_from clock active (suc left) n l =
        let l' = (run_once (clock n) l).0 in
        elim (active (suc n)) [
          | true ↦ run_from clock active left (suc n) l'
          | false ↦ (record l' { disaster_active = false }, suc n)
        ]

    -- `run` with a limit of cycles
    unfoldable pub run :
        (max_cycles : ℕ) → (clock : ℕ → ℕ) → (active : ℕ → Bool) → Loop W → Loop W × ℕ
    unfolding run_from
    run max_cycles clock active l =
        run_from clock active (max_cycles - 1) 0 (record l { disaster_active = true })

  -- `stop`
  unfoldable pub stop : Loop W → Loop W
  stop l = record l { disaster_active = false }

  -- `evaluate_activation`
  unfoldable pub evaluate_activation : Signals → Loop W → Loop W × Option Module
  unfolding should_activate
  evaluate_activation signals l =
      let m = should_activate signals in (record l { disaster_active = is_some m }, m)

  abbrev pub extend :
      String → Option (List (Agent W)) → List (Agent W) × List String → List (Agent W) × List String
  extend path none (agents, degraded) = (agents, path ∷ degraded)
  extend path (some built) (agents, degraded) = (built ++ agents, degraded)

  -- the loop of `build_system`; `load` is none for a module that fails to load or to build
  unfoldable pub load_all :
      (load : String → Option (List (Agent W))) → List String → List (Agent W) × List String
  load_all load [] = ([], [])
  load_all load (path ∷ rest) = extend path (load path) (load_all load rest)

-- `MODULE_BUILD_PATHS`
unfoldable pub module_build_paths : List String
module_build_paths =
    "disastermind.observability.build" ∷ "disastermind.tracing.build"
    ∷ "disastermind.persistence.build" ∷ "disastermind.llm.build"
    ∷ "disastermind.tier2.prediction.build" ∷ "disastermind.tier2.cascade.build"
    ∷ "disastermind.tier2.resource.build" ∷ "disastermind.tier2.routing.build"
    ∷ "disastermind.tier2.field.build" ∷ "disastermind.tier1.commander.build"
    ∷ "disastermind.tier3.dispatch.build" ∷ "disastermind.tier3.iot.build"
    ∷ "disastermind.tier3.ingestion.build" ∷ "disastermind.tier3.social.build" ∷ []

-- `build_system`
unfoldable pub build_system :
    {W : Type 0} → (load : String → Option (List (Agent W))) → Commander → W → Loop W
unfolding load_all module_build_paths
build_system load commander world =
    let (agents, degraded) = load_all load module_build_paths in
    record {
      agents = agents;
      disaster_active = false;
      cycle = 0;
      degraded_modules = degraded;
      commander = commander;
      world = world;
    }
