-- ===== src/Commander/Agent.antt =====
-- tier1/commander/agent.py and the plumbing of core/agent.py: the commander's entry points. A
-- message that `emit` is given is audited first and then published; an audit write that fails
-- raises, and then nothing is published.
use Prim.Native.String.{◌++◌ as append}
use far_away.Prelude.{
  ℕ, suc, ◌+◌, String, Bool, true, false, Option, none, some, List, [], ◌∷◌, ◌++◌, str_eq,
  if◌then◌else◌,
}
use far_away.Core.Value.{
  Value, null, text, list, dict, Items, nil, item, Fields, get_or, or_value, truthy,
}
use far_away.Core.Dict.{put}
use far_away.Core.Contracts.{
  EscalationTrigger, value, Message, Module, critical, instruction, escalation, field_order,
  escalations, dispatch, Topic,
}
use far_away.Commander.Autonomy.{Decision, Reason}
use far_away.Commander.Matrix.{classify, order_priority, or_number}
use far_away.Commander.State.{
  Via, autonomous, Line, reviewed, decided, to_site, to_team, EscalationReport, dispatch_order,
  escalation_report, Sent, pending, PendingEscalation, Commander, Env,
}

-- `payload.get("orders") or []`; `none` for what cannot be iterated, or whose members are no dicts, which
-- raises before any order is reviewed
unfoldable pub orders_of : Value → Option Items
unfolding truthy
orders_of (list items) = some items
orders_of v = if truthy v then none else some nil

-- The payload's `escalation` block, absent where it is falsy; `none` where it is no dict.
unfoldable pub block_of : Value → Option (Option Fields)
unfolding truthy
block_of (dict d) = some (some d)
block_of v = if truthy v then none else some none

abbrev pub is_null : Value → Bool
is_null null = true
is_null v = false

-- `list(decision.reasoning)`
unfoldable pub lines : List Reason → List Line
lines [] = []
lines (r ∷ rest) = decided r ∷ lines rest

-- `trig.value if trig else default`
abbrev pub value_or : String → Option EscalationTrigger → String
unfolding value
value_or default none = default
value_or default (some t) = value t

-- `_summary_for`, the parts of its text
abbrev pub summary_for : Fields → Decision → String × Value × Value × Value
unfolding get_or value
summary_for order decision = (
  value_or "escalation" decision.trigger,
  get_or "team_id" (text "?") order,
  get_or "site" (text "?") order,
  get_or "reason" (text "") order,
)

-- What a call returns: its messages, or that it raised.
pub data Outcome : Type 0 where
  returned : List Sent → Outcome
  raised : Outcome

-- A record with a counter one further.
unfoldable pub count_dispatched : Commander → Commander
count_dispatched s = record s { stats = record stats { dispatched = suc stats.dispatched } }
  where
    open s use {stats}

unfoldable pub count_escalated : Commander → Commander
count_escalated s = record s { stats = record stats { escalated = suc stats.escalated } }
  where
    open s use {stats}

module _ (env : Env) where
  -- `f"esc-{uuid.uuid4().hex[:12]}"`, at the n-th draw
  unfoldable pub report_id_at : ℕ → String
  report_id_at n = append "esc-" (env.hex n)

  -- `_build_dispatch`
  unfoldable pub build_dispatch :
      Fields → Decision → Value → Module → Via → Commander → Commander × Sent
  build_dispatch order decision incident_id module_of via s =
      let team = get_or "team_id" (text "unassigned") order in
      let site = get_or "site" null order in
      let reason = get_or "reason" (text "") order in
      let body = if is_null site then to_team team reason else to_site team site reason in
      let m : Sent = record {
        sender = s.name;
        recipient = "dispatch";
        type = instruction;
        priority = order_priority order;
        payload =
            dispatch_order (get_or "channel" (text "field_radio") order)
              (get_or "recipients" (list (item team nil)) order) body order via;
        reasoning = reviewed via ∷ lines decision.reasoning;
        ttl_seconds = 300;
        topic = dispatch;
        incident_id = incident_id;
        module_of = module_of;
        escalation_trigger = none;
        timestamp = env.stamp s.draws;
        id = env.message_id s.draws;
      } in
      (record s { draws = suc s.draws }, m)

  -- `_register_and_escalate`
  unfoldable pub register_and_escalate :
      Fields → Decision → Value → Module → Commander → Commander × Sent
  register_and_escalate order decision incident_id module_of s =
      let report_id = report_id_at s.draws in
      let now = env.clock s.draws in
      let timeout = or_number decision.timeout_seconds s.default_timeout in
      let p : PendingEscalation = record {
        report_id = report_id;
        decision = decision;
        order = order;
        incident_id = incident_id;
        module_of = module_of;
        created_epoch = now;
        deadline_epoch = now + timeout;
        reasoning = lines decision.reasoning;
        status = pending;
      } in
      let report : EscalationReport = record {
        report_id = report_id;
        trigger = value_or "unknown" decision.trigger;
        summary = summary_for order decision;
        held = decision.human_only;
        timeout_seconds = timeout;
        human_only = decision.human_only;
        order = order;
        incident_id = incident_id;
        deadline_epoch = now + timeout;
      } in
      let m : Sent = record {
        sender = s.name;
        recipient = "human_dashboard";
        type = escalation;
        priority = critical;
        payload = escalation_report report_id report decision.human_only timeout;
        reasoning = lines decision.reasoning;
        ttl_seconds = 300;
        topic = escalations;
        incident_id = incident_id;
        module_of = module_of;
        escalation_trigger = decision.trigger;
        timestamp = env.stamp s.draws;
        id = env.message_id s.draws;
      } in
      (record s { draws = suc s.draws; pendings = put report_id p s.pendings }, m)

  -- the body of the loop of `handle`
  unfoldable pub review : Fields → Option Fields → Value → Module → Commander → Commander × Sent
  review order block incident_id module_of s =
      let decision = classify env.render order s.matrix s.default_timeout block in
      let (s1, m1) = build_dispatch order decision incident_id module_of autonomous s in
      let (s2, m2) = register_and_escalate order decision incident_id module_of s in
      if decision.autonomous then (count_dispatched s1, m1) else (count_escalated s2, m2)

  -- the same for what the list holds: an order that is no dict raises, as does an escalation block that
  -- is none. With a declared trigger the code keeps an entry for such an order before it raises, which
  -- is not modelled.
  unfoldable pub review_member :
      Value → Option (Option Fields) → Value → Module → Commander → Commander × Option Sent
  unfolding review
  review_member (dict order) (some block) incident_id module_of s =
      let (s', m) = review order block incident_id module_of s in (s', some m)
  review_member v block incident_id module_of s = (s, none)

  abbrev pub add_message : Sent → Outcome → Outcome
  add_message m (returned ms) = returned (m ∷ ms)
  add_message m raised = raised

  -- the loop of `handle`; what the orders before one that raises have changed stays
  unfoldable pub review_items :
      Items → Option (Option Fields) → Value → Module → Commander → Commander × Outcome
  unfolding review_member
  review_items nil block incident_id module_of s = (s, returned [])
  review_items (item v rest) block incident_id module_of s =
      let one = review_member v block incident_id module_of s in
      let more = review_items rest block incident_id module_of one.0 in
      elim one.1 [ none ↦ (one.0, raised) | some m ↦ (more.0, add_message m more.1) ]

  abbrev pub review_payload :
      Option Items → Option (Option Fields) → Value → Module → Commander → Commander × Outcome
  unfolding review_items
  review_payload (some orders) block incident_id module_of s =
      review_items orders block incident_id module_of s
  review_payload none block incident_id module_of s = (s, raised)

  abbrev pub handle_on : Topic → Message Fields Line → Commander → Commander × Outcome
  handle_on field_order message s =
      review_payload (orders_of (get_or "orders" null message.payload))
        (block_of (get_or "escalation" null message.payload))
        (or_value message.incident_id (get_or "incident_id" null message.payload)) message.module_of
        s
  handle_on topic message s = (s, returned [])

  -- `handle`
  unfoldable pub handle : Message Fields Line → Commander → Commander × Outcome
  handle message s = handle_on message.topic message s

  -- `emit`: whether the audit write succeeded, without which it raises
  unfoldable pub emit : Sent → Commander → Commander × Bool
  emit m s =
      let m' = record m { sender = if str_eq m.sender "" then s.name else m.sender } in
      if env.write_ok s.writes
      then (
        record s {
          writes = suc s.writes;
          audited = s.audited ++ m' ∷ [];
          published = s.published ++ m' ∷ [];
        },
        true,
      )
      else (record s { writes = suc s.writes }, false)

  -- the loop of `_on_message`, which the first failing `emit` ends
  unfoldable pub emit_all : List Sent → Commander → Commander
  emit_all [] s = s
  emit_all (m ∷ ms) s = let (s', written) = emit m s in if written then emit_all ms s' else s'

  abbrev pub emit_outcome : Commander × Outcome → Commander
  emit_outcome (s, returned out) = emit_all out s
  emit_outcome (s, raised) = s

  -- `_on_message`, which swallows what is raised
  unfoldable pub on_message : Message Fields Line → Commander → Commander
  on_message message s = emit_outcome (handle message s)
