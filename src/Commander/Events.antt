-- ===== src/Commander/Events.antt =====
-- The commander's entry points as events: a delivered message, a timeout sweep, and the two human
-- responses. What a call raises reaches its caller; the state is the one that it left.
use far_away.Prelude.{ℕ, String, List, [], ◌∷◌}
use far_away.Core.Contracts.{Message}
use far_away.Core.Value.{Fields}
use far_away.Commander.State.{Line, Commander, Env}
use far_away.Commander.Agent.{on_message}
use far_away.Commander.Pending.{resolve_pending, approve, reject}

pub data Event : Type 0 where
  delivered : Message Fields Line → Event
  swept : (now_epoch : ℕ) → Event
  approved_by : (report_id approver : String) → Event
  rejected_by : (report_id approver note : String) → Event

module _ (env : Env) where
  unfoldable pub step : Event → Commander → Commander
  step (delivered message) s = on_message env message s
  step (swept now_epoch) s = (resolve_pending env now_epoch s).0
  step (approved_by report_id approver) s = (approve env report_id approver s).0
  step (rejected_by report_id approver note) s = (reject env report_id approver note s).0

  unfoldable pub run : List Event → Commander → Commander
  run [] s = s
  run (event ∷ events) s = run events (step event s)
