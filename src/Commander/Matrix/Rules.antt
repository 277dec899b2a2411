-- ===== src/Commander/Matrix/Rules.antt =====
-- What `build_matrix`, `trigger_of` and `classify` promise about each trigger.
use far_away.Prelude.{
  ℕ, String, ◌≡◌, refl, sym, ◌∙◌, Bool, true, false, not, Option, none, some, List, if◌then◌else◌,
  arith,
}
use far_away.Core.Value.{Value, Fields}
use far_away.Core.Contracts.{
  EscalationTrigger, is_human_only, value, member_name, cross_state_resource,
}
use far_away.Commander.Autonomy.{Reason, Decision, build_matrix, rule_of}
use far_away.Commander.Matrix.{
  trigger_of, decide, classify, block_trigger, infer_trigger, or_number, or_trigger,
}

-- Every trigger has its row in the matrix: it needs a human, it is human-only exactly when it is
-- one of `HUMAN_ONLY_TRIGGERS`, and it has the default timeout.
pub rule_of-build_matrix :
    (t : EscalationTrigger) (default_timeout : ℕ)
    → rule_of t (build_matrix default_timeout)
      ≡ some (record {
        requires_human = true;
        human_only = is_human_only t;
        timeout_seconds = default_timeout;
      })
unfolding rule_of build_matrix
rule_of-build_matrix cross_state_resource d = refl
rule_of-build_matrix _ d = refl

-- A trigger is recognised by its value and by its member name, and by both as itself.
pub trigger_of-value_and_name :
    (t : EscalationTrigger)
    → (trigger_of (value t) ≡ some t) × (trigger_of (member_name t) ≡ some t)
unfolding trigger_of
trigger_of-value_and_name cross_state_resource = (refl, refl)
trigger_of-value_and_name _ = (refl, refl)

abbrev pub human_only_of : Option EscalationTrigger → Bool
unfolding is_human_only
human_only_of none = false
human_only_of (some t) = is_human_only t

abbrev pub is_none {ℓ} : {A : Type ℓ} → Option A → Bool
is_none none = true
is_none (some a) = false

or_number_self : (n : ℕ) → or_number n n ≡ n
or_number_self n = ground arith

-- What a decision says of the trigger that it rests on.
pub record Decides (trig : Option EscalationTrigger) (default_timeout : ℕ) (d : Decision)
    : Type 0 where
  pub trigger : d.trigger ≡ trig
  pub autonomous : d.autonomous ≡ is_none trig
  pub requires_human : d.requires_human ≡ not (is_none trig)
  pub human_only : d.human_only ≡ human_only_of trig
  pub timeout : d.timeout_seconds ≡ (if is_none trig then 0 else default_timeout)

pub decide-Decides :
    (trig : Option EscalationTrigger) (reasoning : List Reason) (default_timeout : ℕ)
    → Decides trig default_timeout
        (decide trig reasoning (build_matrix default_timeout) default_timeout)
unfolding decide is_human_only
decide-Decides none reasoning d = record {
  trigger = refl;
  autonomous = refl;
  requires_human = refl;
  human_only = refl;
  timeout = refl;
}
decide-Decides (some t) reasoning d = rw (rule_of-build_matrix t d) (record {
  trigger = refl;
  autonomous = refl;
  requires_human = refl;
  human_only = refl;
  timeout = or_number_self d;
})

-- `classify` rests on the trigger that the payload's block declares, and else on the inferred one.
pub classify-Decides :
    (render : Value → String) (order : Fields) (default_timeout : ℕ) (escalation : Option Fields)
    → Decides
        (or_trigger (block_trigger render escalation) (infer_trigger render order))
        default_timeout
        (classify render order (build_matrix default_timeout) default_timeout escalation)
unfolding classify
classify-Decides render order d escalation = decide-Decides _ _ d

autonomous_trigger : (t : Option EscalationTrigger) → is_none t ≡ true → human_only_of t ≡ false
unfolding is_human_only
autonomous_trigger none h = refl
autonomous_trigger (some t) h = cc

-- An autonomous decision is not human-only.
pub autonomous-Decides :
    {trig : Option EscalationTrigger} {default_timeout : ℕ} {d : Decision}
    → Decides trig default_timeout d
    → d.autonomous ≡ true
    → d.human_only ≡ false
autonomous-Decides {trig} h a = h.human_only ∙ autonomous_trigger trig (sym h.autonomous ∙ a)
