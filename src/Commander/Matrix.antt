-- ===== src/Commander/Matrix.antt =====
-- tier1/commander/matrix.py: the Autonomy Threshold Matrix, and the decision on one field order.
pub mod Rules
pub mod Keywords
use far_away.Prelude.{
  ℕ, suc, ◌/◌, ◌^◌, String, Bool, true, false, not, ◌&&◌, ◌||◌, Option, none, some, List, [], ◌∷◌,
  ◌++◌, leb, ltb, str_eq, any, if◌then◌else◌, ◌==◌,
}
use far_away.Prelude.Int.{ℤ, pos, negsuc, lt_int}
use far_away.Core.Value.{
  Value, null, bool, int, float, text, list, dict, Fields, get, or_default, get_or, or_value,
  truthy, codes,
}
use far_away.Core.Convert.{whole}
use far_away.Core.Text.{negate, lower, occurs_in, parse_int}
use far_away.Core.Contracts.{
  EscalationTrigger, cross_state_resource, military_asset, mass_evacuation, requisition_private,
  media_broadcast, international_aid, state_of_emergency, armed_forces_civil,
  critical_national_infra, all_triggers, is_human_only, value, member_name, Priority, critical,
  high, medium, low, info,
}
use far_away.Commander.Autonomy.{
  rule_for, AutonomyRule, Decision, Matrix, Reason, auto_executable, auto_execute_on_timeout,
  build_matrix, build_rows, declared, inferred, mass_evacuation_threshold, needs_approval,
  never_auto_executed, rule_of, within_authority,
}

-- `_as_int`
unfoldable pub as_int : Value → Option ℤ
unfolding whole parse_int
as_int null = none
as_int (bool b) = none
as_int (int n) = some n
as_int (float m k) = some (whole m k)
as_int (text s) = parse_int (codes s)
as_int (list xs) = none
as_int (dict d) = none

abbrev is_nonzero : Option ℤ → Bool
is_nonzero none = false
is_nonzero (some (pos n)) = ltb 0 n
is_nonzero (some (negsuc n)) = true

-- `a or b` on `int | None`
abbrev or_int : Option ℤ → Option ℤ → Option ℤ
or_int a b = if is_nonzero a then a else b

-- `scale is not None and scale > MASS_EVACUATION_THRESHOLD`
abbrev pub over_threshold : Option ℤ → Bool
over_threshold none = false
over_threshold (some n) = lt_int mass_evacuation_threshold n

unfoldable pub find_trigger :
    (EscalationTrigger → String) → String → List EscalationTrigger → Option EscalationTrigger
find_trigger key s [] = none
find_trigger key s (t ∷ rest) = if str_eq (key t) s then some t else find_trigger key s rest

abbrev pub or_trigger :
    Option EscalationTrigger → Option EscalationTrigger → Option EscalationTrigger
or_trigger none other = other
or_trigger (some t) other = some t

-- `EscalationTrigger(s)`, or failing that `EscalationTrigger[s]`
unfoldable pub trigger_of : String → Option EscalationTrigger
unfolding find_trigger value member_name all_triggers
trigger_of s =
    or_trigger (find_trigger value s all_triggers) (find_trigger member_name s all_triggers)

-- `_KEYWORD_TRIGGERS`, in order
unfoldable pub keyword_triggers : List (EscalationTrigger × List String)
keyword_triggers =
    (international_aid, "international aid" ∷ "foreign aid" ∷ "un team" ∷ "overseas" ∷ [])
    ∷ (state_of_emergency, "state of emergency" ∷ "declare emergency" ∷ "national emergency" ∷ [])
    ∷ (armed_forces_civil, "armed forces" ∷ "shoot" ∷ "lethal" ∷ "armed troops" ∷ "open fire" ∷ [])
    ∷ (
      critical_national_infra,
      "nuclear" ∷ "national grid" ∷ "critical national" ∷ "dam release" ∷ "refinery" ∷ [],
    )
    ∷ (
      cross_state_resource,
      "cross-state" ∷ "cross state" ∷ "inter-state" ∷ "interstate" ∷ "neighbouring state"
          ∷ "neighboring state" ∷ "another state" ∷ [],
    )
    ∷ (
      military_asset,
      "military" ∷ "army" ∷ "navy" ∷ "air force" ∷ "iaf" ∷ "helicopter sortie" ∷ "military asset"
          ∷ [],
    )
    ∷ (
      requisition_private,
      "requisition" ∷ "commandeer" ∷ "seize private" ∷ "private infrastructure" ∷ "private vehicles"
          ∷ "private boats" ∷ [],
    )
    ∷ (
      media_broadcast,
      "media broadcast" ∷ "broadcast" ∷ "press release" ∷ "public broadcast" ∷ "tv alert" ∷ [],
    )
    ∷ []

-- `any(kw in haystack for kw in keywords)`
abbrev pub mentions : List ℕ → List String → Bool
unfolding occurs_in
mentions haystack = any (λ kw. occurs_in (codes kw) haystack)

-- the loop over `_KEYWORD_TRIGGERS`
unfoldable pub keyword_match :
    List ℕ → List (EscalationTrigger × List String) → Option EscalationTrigger
keyword_match haystack [] = none
keyword_match haystack ((candidate, keywords) ∷ rest) =
    if any (λ kw. occurs_in (codes kw) haystack) keywords
    then some candidate
    else keyword_match haystack rest

abbrev declared_or_inferred : Option EscalationTrigger → Option EscalationTrigger → List Reason
declared_or_inferred (some t) other = declared t ∷ []
declared_or_inferred none (some t) = inferred t ∷ []
declared_or_inferred none none = []

abbrev rule_or_default : Option AutonomyRule → AutonomyRule → AutonomyRule
rule_or_default none d = d
rule_or_default (some rule) d = rule

-- `a or b` on numbers
abbrev pub or_number : ℕ → ℕ → ℕ
or_number a b = if a == 0 then b else a

-- the part of `classify` below the search for a trigger
unfoldable pub decide : Option EscalationTrigger → List Reason → Matrix → ℕ → Decision
unfolding rule_of rule_for
decide none reasoning matrix default_timeout = record {
  autonomous = true;
  requires_human = false;
  human_only = false;
  trigger = none;
  timeout_seconds = 0;
  reasoning = reasoning ++ within_authority ∷ [];
}
decide (some trig) reasoning matrix default_timeout =
    let rule = rule_or_default (rule_of trig matrix) (rule_for default_timeout trig) in
    let timeout = or_number rule.timeout_seconds default_timeout in
    record {
      autonomous = false;
      requires_human = rule.requires_human;
      human_only = rule.human_only;
      trigger = some trig;
      timeout_seconds = timeout;
      reasoning =
          reasoning
          ++ (if rule.human_only then never_auto_executed trig else needs_approval trig timeout)
            ∷ [];
    }

-- `Priority(max(1, min(5, p)))`
abbrev clamp_priority : ℤ → Priority
clamp_priority (negsuc n) = critical
clamp_priority (pos n) =
    if leb n 1
    then critical
    else if n == 2
    then high
    else if n == 3
    then medium
    else if n == 4
    then low
    else info

abbrev priority_of : Option ℤ → Priority
priority_of none = high
priority_of (some p) = clamp_priority p

-- `order_priority`
unfoldable pub order_priority : Fields → Priority
unfolding as_int get_or
order_priority order = priority_of (as_int (get_or "priority" null order))

-- `render` is Python's `str` on a value that is no text.
module _ (render : Value → String) where
  -- `str(v)`
  unfoldable pub to_text : Value → String
  to_text (text s) = s
  to_text v = render v

  -- `_coerce_trigger`
  unfoldable pub coerce_trigger : Value → Option EscalationTrigger
  coerce_trigger null = none
  coerce_trigger raw = trigger_of (to_text raw)

  -- The population that an order concerns.
  unfoldable pub scale_of : Fields → Option ℤ
  unfolding as_int get_or
  scale_of order =
      or_int (or_int (as_int (get_or "scale" null order)) (as_int (get_or "population" null order)))
        (as_int (get_or "evacuees" null order))

  -- `str(order.get(key, ""))`, its code points
  unfoldable pub words : String → Fields → List ℕ
  unfolding to_text get_or
  words key order = codes (to_text (get_or key (text "") order))

  -- `" ".join(...).lower()`
  unfoldable pub haystack_of : Fields → List ℕ
  haystack_of order = lower (
      words "reason" order
      ++ (32
          ∷ (words "note" order ++ (32 ∷ (words "summary" order ++ (32 ∷ words "action" order))))))

  -- the two mass-evacuation tests of `_infer_trigger`
  unfoldable pub is_mass_evacuation : Fields → Bool
  is_mass_evacuation order =
      let scale = scale_of order in
      let reason = lower (words "reason" order) in
      mentions reason ("evacuat" ∷ "mandatory evac" ∷ "clear zone" ∷ []) && over_threshold scale
      || (over_threshold scale && occurs_in (codes "evac") reason)

  -- `_infer_trigger`
  unfoldable pub infer_trigger : Fields → Option EscalationTrigger
  infer_trigger order =
      or_trigger
        (coerce_trigger
          (or_value (get_or "escalation_trigger" null order) (get_or "trigger" null order)))
        (if is_mass_evacuation order
          then some mass_evacuation
          else keyword_match (haystack_of order) keyword_triggers)

  -- the trigger of a payload's `escalation` block, if there is one
  unfoldable pub block_trigger : Option Fields → Option EscalationTrigger
  block_trigger none = none
  block_trigger (some escalation) = coerce_trigger (get_or "trigger" null escalation)

  -- `classify`. An absent `escalation` block and an empty one are alike.
  unfoldable pub classify : Fields → Matrix → ℕ → Option Fields → Decision
  classify order matrix default_timeout escalation =
      let block = block_trigger escalation in
      let inferred = infer_trigger order in
      decide (or_trigger block inferred) (declared_or_inferred block inferred) matrix
        default_timeout
