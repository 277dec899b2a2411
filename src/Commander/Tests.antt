-- ===== src/Commander/Tests.antt =====
-- The theorems on tier1/commander at concrete orders and runs.
use far_away.Prelude.{String, ◌≡◌, refl, Bool, true, false, none, some, List, [], ◌∷◌, any, All}
use far_away.Prelude.Int.{pos}
use far_away.Core.Value.{int, text, list, dict, nil, item, Fields, end, field, get_or, or_value}
use far_away.Core.Text.{lower, occurs_in}
use far_away.Core.Dict.{find}
use far_away.Core.Contracts.{Message, mass_evacuation, earthquake, instruction, high, field_order}
use far_away.Commander.Autonomy.{build_matrix}
use far_away.Commander.Matrix.{
  coerce_trigger, scale_of, words, haystack_of, block_trigger, classify, keyword_triggers,
  is_mass_evacuation,
}
use far_away.Commander.Matrix.Rules.{Decides}
use far_away.Commander.Matrix.Keywords.{
  hits_human_only, classify_by_keywords, classify_mass_evacuation,
}
use far_away.Commander.State.{is_due, Line, Env, PendingEscalation, Commander, pending, init}
use far_away.Commander.Pending.{resolve_pending, expire, approve, reject}
use far_away.Commander.Events.{Event, delivered, swept, approved_by, rejected_by, run}
use far_away.Commander.Authority.{LawfulSent}
use far_away.Commander.Authority.Runs.{Delivered, run-LawfulSent}
use far_away.Commander.HumanOnly.{MayActAlone, run_without_approvals}
use far_away.Commander.Sweep.{Sweeps, resolve_pending-Sweeps}
use far_away.Commander.Responses.{
  Approves, Untouched, Loses, response-Untouched, expire-Loses, approve-Approves,
}

-- An environment whose draws are all alike, and whose audit writes succeed or fail.
abbrev env_with : Bool → Env
env_with ok = record {
  hex = λ n. "0";
  message_id = λ n. "id";
  stamp = λ n. "now";
  clock = λ n. 100;
  write_ok = λ n. ok;
  render = λ v. "";
}

-- An order that mentions foreign aid, and one that clears a town.
abbrev aid_order : Fields
aid_order = field "team_id" (text "T1") (field "reason" (text "request foreign aid") end)

abbrev evacuation_order : Fields
evacuation_order = field "reason" (text "Evacuate the town") (field "scale" (int (pos 20000)) end)

abbrev orders_message : Message Fields Line
orders_message = record {
  sender = "earthquake";
  recipient = "commander";
  type = instruction;
  priority = high;
  payload = field "orders" (list (item (dict aid_order) (item (dict evacuation_order) nil))) end;
  reasoning = [];
  ttl_seconds = 300;
  topic = field_order;
  incident_id = text "INC-1";
  module_of = earthquake;
  escalation_trigger = none;
  timestamp = "now";
  id = "m1";
}

-- A new commander with the evacuation pending.
abbrev waiting : PendingEscalation
waiting = record {
  report_id = "esc-1";
  decision = record {
    autonomous = false;
    requires_human = true;
    human_only = false;
    trigger = some mass_evacuation;
    timeout_seconds = 600;
    reasoning = [];
  };
  order = evacuation_order;
  incident_id = text "INC-1";
  module_of = earthquake;
  created_epoch = 100;
  deadline_epoch = 700;
  reasoning = [];
  status = pending;
}

abbrev with_waiting : Commander
with_waiting = record (init "commander" 600) { pendings = ("esc-1", waiting) ∷ [] }

abbrev Anyone : String → Type 0
Anyone who = Unit

classify_by_keywords_example :
    (classify (env_with true).render aid_order (build_matrix 600) 600 none).human_only
    ≡ any (hits_human_only (haystack_of (env_with true).render aid_order)) keyword_triggers
unfolding coerce_trigger block_trigger get_or or_value is_mass_evacuation scale_of words occurs_in
    lower
classify_by_keywords_example =
    classify_by_keywords (env_with true).render aid_order none 600 refl refl refl

classify_mass_evacuation_example :
    Decides
      (some mass_evacuation)
      600
      (classify (env_with true).render evacuation_order (build_matrix 600) 600 none)
unfolding coerce_trigger block_trigger get_or or_value scale_of words occurs_in lower
classify_mass_evacuation_example =
    classify_mass_evacuation (env_with true).render evacuation_order none 600 refl refl
      {n = pos 20000} refl refl refl

abbrev events : List Event
events = delivered orders_message ∷ approved_by "esc-0" "chief" ∷ swept 800 ∷ []

run-LawfulSent_example :
    All
      (LawfulSent (env_with true) 600 Anyone (Delivered events))
      (run (env_with true) events (init "commander" 600)).published
run-LawfulSent_example =
    run-LawfulSent (env_with true) 600 Anyone events "commander" (tt, (tt, (tt, tt)))

abbrev unattended : List Event
unattended = delivered orders_message ∷ swept 800 ∷ rejected_by "esc-0" "chief" "no" ∷ []

run_without_approvals_example :
    All
      (λ m. MayActAlone (env_with true) 600 (Delivered unattended) m.payload)
      (run (env_with true) unattended (init "commander" 600)).published
run_without_approvals_example =
    run_without_approvals (env_with true) 600 unattended "commander" (tt, (tt, (tt, tt)))

resolve_pending-Sweeps_example :
    Sweeps
      (env_with true)
      (λ n. refl)
      800
      (("esc-1", waiting) ∷ [])
      with_waiting
      (resolve_pending (env_with true) 800 with_waiting)
resolve_pending-Sweeps_example = resolve_pending-Sweeps (env_with true) (λ n. refl) 800 with_waiting

response-Untouched_example :
    Untouched
      (env_with false)
      "esc-1"
      waiting
      with_waiting
      (approve (env_with false) "esc-1" "chief" with_waiting)
    × Untouched
        (env_with false)
        "esc-1"
        waiting
        with_waiting
        (reject (env_with false) "esc-1" "chief" "no" with_waiting)
unfolding find
response-Untouched_example =
    response-Untouched (env_with false) "esc-1" waiting with_waiting "chief" "no" refl refl refl

expire-Loses_example :
    Loses
      (env_with false)
      "esc-1"
      waiting
      with_waiting
      (expire (env_with false) 800 "esc-1" waiting with_waiting)
unfolding is_due
expire-Loses_example = expire-Loses (env_with false) "esc-1" waiting with_waiting 800 refl refl

approve-Approves_example :
    Approves
      (env_with true)
      "esc-1"
      waiting
      with_waiting
      "chief"
      (approve (env_with true) "esc-1" "chief" with_waiting)
unfolding find
approve-Approves_example =
    approve-Approves (env_with true) "esc-1" waiting with_waiting "chief" refl refl refl
