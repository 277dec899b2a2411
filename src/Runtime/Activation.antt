-- ===== src/Runtime/Activation.antt =====
-- orchestration/triggers.py and loop.py: what activates the loop.
use far_away.Prelude.{
  ◌≡◌, refl, Bool, true, false, not, Option, none, some, List, [], ◌∷◌, if◌then◌else◌, Bool-ind,
}
use far_away.Core.Contracts.{Module}
use far_away.Runtime.Triggers.{
  Signals, ActivationDecision, LeadTime, Reason, first_active, report_from, predicates,
  should_activate, activation_report,
}
use far_away.Runtime.Loop.{Loop, evaluate_activation}

-- The module of the first decision of a report.
abbrev pub first_module : List ActivationDecision → Option Module
first_module [] = none
first_module (d ∷ rest) = some d.module_of

abbrev pub is_empty : List ActivationDecision → Bool
is_empty [] = true
is_empty (d ∷ rest) = false

first_active-report_from :
    (ps : List ((Signals → Bool × Reason) × (Module × LeadTime))) (s : Signals)
    → first_active ps s ≡ first_module (report_from ps s)
unfolding first_active report_from
first_active-report_from [] s = refl
first_active-report_from ((fn, (m, lead)) ∷ rest) s =
    Bool-ind
      (λ b.
        (if b then some m else first_active rest s)
        ≡ first_module (
            if b
            then record { module_of = m; reason = (fn s).1; lead_time_note = lead }
              ∷ report_from rest s
            else report_from rest s))
      (fn s).0 (λ _. refl) (λ _. first_active-report_from rest s)

activated :
    (ds : List ActivationDecision) {W : Type 0} (l : Loop W) (s : Signals)
    → should_activate s ≡ first_module ds
    → (evaluate_activation s l).0.disaster_active ≡ not (is_empty ds)
unfolding evaluate_activation
activated [] l s e = rw e
activated (d ∷ ds) l s e = rw e

-- The loop is activated exactly where the report of triggered modules is not empty, and by the first
-- module of that report.
pub evaluate_activation-activation_report :
    {W : Type 0} (s : Signals) (l : Loop W)
    → ((evaluate_activation s l).1 ≡ first_module (activation_report s))
      × ((evaluate_activation s l).0.disaster_active ≡ not (is_empty (activation_report s)))
unfolding evaluate_activation should_activate activation_report
evaluate_activation-activation_report s l =
    let first = first_active-report_from predicates s in
    (first, activated (report_from predicates s) l s first)
