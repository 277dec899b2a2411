-- ===== src/Commander/Autonomy.antt =====
-- tier1/commander/matrix.py: the rules of the Autonomy Threshold Matrix, and its decisions.
use far_away.Prelude.{
  ℕ, Bool, true, not, ◌&&◌, Option, none, some, List, [], ◌∷◌, str_eq, if◌then◌else◌,
}
use far_away.Prelude.Int.{ℤ, pos}
use far_away.Core.Contracts.{EscalationTrigger, all_triggers, is_human_only, value}

-- `MASS_EVACUATION_THRESHOLD`
abbrev pub mass_evacuation_threshold : ℤ
mass_evacuation_threshold = pos 10000

-- `AutonomyRule`
pub record AutonomyRule : Type 0 where
  pub requires_human : Bool
  pub human_only : Bool
  pub timeout_seconds : ℕ

-- `AutonomyRule.auto_executable`
unfoldable pub auto_executable : AutonomyRule → Bool
auto_executable rule = not rule.human_only

-- `dict[EscalationTrigger, AutonomyRule]`, in insertion order
abbrev pub Matrix : Type 0
Matrix = List (EscalationTrigger × AutonomyRule)

unfoldable pub rule_for : ℕ → EscalationTrigger → AutonomyRule
unfolding is_human_only
rule_for default_timeout trig = record {
  requires_human = true;
  human_only = is_human_only trig;
  timeout_seconds = default_timeout;
}

-- the loop of `build_matrix`
unfoldable pub build_rows : ℕ → List EscalationTrigger → Matrix
unfolding rule_for
build_rows default_timeout [] = []
build_rows default_timeout (trig ∷ rest) =
    (trig, rule_for default_timeout trig) ∷ build_rows default_timeout rest

unfoldable pub build_matrix : ℕ → Matrix
unfolding build_rows all_triggers
build_matrix default_timeout = build_rows default_timeout all_triggers

-- Triggers are compared by their values.
abbrev same_trigger : EscalationTrigger → EscalationTrigger → Bool
unfolding value
same_trigger a b = str_eq (value a) (value b)

-- `matrix.get(trig)`
unfoldable pub rule_of : EscalationTrigger → Matrix → Option AutonomyRule
unfolding value
rule_of trig [] = none
rule_of trig ((t, rule) ∷ rest) = if same_trigger t trig then some rule else rule_of trig rest

-- A reasoning line of a decision, one constructor for each text that `classify` formats.
pub data Reason : Type 0 where
  declared inferred never_auto_executed : EscalationTrigger → Reason
  within_authority : Reason
  needs_approval : EscalationTrigger → ℕ → Reason

-- `Decision`
pub record Decision : Type 0 where
  pub autonomous : Bool
  pub requires_human : Bool
  pub human_only : Bool
  pub trigger : Option EscalationTrigger
  pub timeout_seconds : ℕ
  pub reasoning : List Reason

-- `Decision.auto_execute_on_timeout`
unfoldable pub auto_execute_on_timeout : Decision → Bool
auto_execute_on_timeout d = d.requires_human && not d.human_only
