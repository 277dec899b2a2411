-- ===== src/Field/Hints.antt =====
-- tier2/field/agent.py with tier1/commander/agent.py: what the commander does with field orders that
-- carry an escalation hint, and with those that do not.
use mathlib.Core.Bool.{true≢false}
use mathlib.Core.Path.{subst}
use far_away.Prelude.{
  ℕ, suc, ◌+◌, String, ◌≡◌, refl, sym, ap, ◌∙◌, true, false, Option, none, some, List, [], ◌∷◌,
  arith, All, length, if-ind, ◌||◌,
}
use far_away.Prelude.Int.{ℤ, pos, lt_int, add_int}
use far_away.Core.Value.{Value, truthy, or_value, text, dict, Fields, get_or}
use far_away.Core.Contracts.{
  Message, Module, all, Priority, escalations, dispatch, EscalationTrigger,
}
use far_away.Commander.Autonomy.{Matrix}
use far_away.Commander.Matrix.{
  classify, decide, block_trigger, coerce_trigger, to_text, infer_trigger,
}
use far_away.Commander.Matrix.Rules.{trigger_of-value_and_name}
use far_away.Commander.State.{Commander, Env, Sent, Line}
use far_away.Commander.Agent.{
  Outcome, returned, raised, orders_of, block_of, review, review_items, review_member, add_message,
  handle, build_dispatch, register_and_escalate, count_dispatched, count_escalated,
}
use far_away.Field.Model.{
  Outside, FieldOrder, Coordinator, FieldMessage, Hint, order_fields, order_payload, items_of,
  hint_fields,
}
use far_away.Field.Agent.{flagged, flag_message}
use far_away.Field.Giving.{Batch}
use far_away.Field.Orders.{
  escalation_hint, field_message, message_of, message_with, clamped, least_priority,
}

-- The message as the commander gets it; it does not read the reasoning.
abbrev pub received : FieldMessage → Message Fields Line
received m = record {
  sender = m.sender;
  recipient = m.recipient;
  type = m.type;
  priority = m.priority;
  payload = m.payload;
  reasoning = [];
  ttl_seconds = m.ttl_seconds;
  topic = m.topic;
  incident_id = m.incident_id;
  module_of = m.module_of;
  escalation_trigger = m.escalation_trigger;
  timestamp = m.timestamp;
  id = m.id;
}

-- Every order is escalated to a human, and nothing is dispatched.
abbrev pub IsHeld : ℕ → Commander → Commander × Outcome → Type 0
IsHeld n c (c', raised) = ⊥
IsHeld n c (c', returned ms) =
    All (λ (m : Sent). m.topic ≡ escalations) ms
    × (length ms ≡ n)
    × (c'.stats.dispatched ≡ c.stats.dispatched)

module _ (env : Env) where
  classify_hinted :
      (order : Fields) (matrix : Matrix) (d : ℕ) (block : Option Fields) (t : EscalationTrigger)
      → block_trigger env.render block ≡ some t
      → (classify env.render order matrix d block).autonomous ≡ false
  unfolding classify decide
  classify_hinted order matrix d block t e = rw e

  review_hinted :
      (order : Fields) (block : Option Fields) (t : EscalationTrigger) (incident : Value)
      (module_of : Module) (c : Commander)
      → block_trigger env.render block ≡ some t
      → ((review env order block incident module_of c).1.topic ≡ escalations)
        × ((review env order block incident module_of c).0.stats.dispatched ≡ c.stats.dispatched)
  unfolding review register_and_escalate count_escalated
  review_hinted order block t incident module_of c e =
      rw (classify_hinted order c.matrix c.default_timeout block t e) (refl, refl)

  add_message-IsHeld :
      (n : ℕ) (c c' : Commander) (m : Sent) (r : Commander × Outcome)
      → m.topic ≡ escalations
      → c'.stats.dispatched ≡ c.stats.dispatched
      → IsHeld n c' r
      → IsHeld (suc n) c (r.0, add_message env m r.1)
  add_message-IsHeld n c c' m (s, raised) t e h = h
  add_message-IsHeld n c c' m (s, returned ms) t e h = ((t, h.0), ap suc h.1, h.2 ∙ e)

  review_items-IsHeld :
      (out : Outside) (orders : List (FieldOrder (Outside.Place out))) (block : Option Fields)
      (t : EscalationTrigger) (incident : Value) (module_of : Module) (c : Commander)
      → block_trigger env.render block ≡ some t
      → IsHeld (length orders) c (
          review_items env
            (items_of (λ o. dict (order_fields out o)) orders)
            (some block)
            incident
            module_of
            c)
  unfolding review_items review_member
  review_items-IsHeld out [] block t incident module_of c e = (tt, refl, refl)
  review_items-IsHeld out (o ∷ orders) block t incident module_of c e =
      let r = review env (order_fields out o) block incident module_of c in
      let (topic, same) = review_hinted (order_fields out o) block t incident module_of c e in
      add_message-IsHeld (length orders) c r.0 r.1
        (review_items env (items_of (λ o. dict (order_fields out o)) orders) (some block) incident
          module_of r.0)
        topic same (review_items-IsHeld out orders block t incident module_of r.0 e)

  module _ (out : Outside) (n : ℕ) (sender incident : String)
      (orders : List (FieldOrder (Outside.Place out))) (reasoning : List String)
      (priority : Priority) (module_of : Module) (c : Commander) where
    -- A message with a hint is held.
    field_message-IsHeld :
        (h : Hint)
        → IsHeld (length orders) c (
            handle env
              (received
                (field_message out n sender incident orders reasoning priority (some h) module_of))
              c)
    unfolding handle field_message order_payload get_or orders_of block_of block_trigger
        coerce_trigger to_text review_items
    field_message-IsHeld h =
        review_items-IsHeld out orders (some (hint_fields h)) h.trigger
          (or_value (text incident) (text incident)) module_of c
          (trigger_of-value_and_name h.trigger).0

  module _ (out : Outside) (incident : String) (module_of : Module)
      (s : Coordinator (Outside.Place out)) (b : Batch (Outside.Place out)) (n : ℤ)
      (c : Commander) where
    -- Some hint is due: for the people, for a team from another state, or for what is private.
    abbrev pub IsDue : Type 0
    IsDue = (lt_int (pos 10000) (add_int b.population n) || (b.cross_state || b.requisition)) ≡ true

    escalation_hint_due :
        IsDue
        → (k : ℤ)
        → (h : Hint) × (escalation_hint out incident
              (add_int b.population n)
              b.cross_state
              b.requisition
              k
            ≡ some h)
    unfolding escalation_hint
    escalation_hint_due due k =
        if-ind (λ (o : Option Hint). (h : Hint) × (o ≡ some h))
          (lt_int (pos 10000) (add_int b.population n)) (λ _. (_, refl))
          (λ e.
            if-ind (λ (o : Option Hint). (h : Hint) × (o ≡ some h)) b.cross_state (λ _. (_, refl))
              (λ e'.
                if-ind (λ (o : Option Hint). (h : Hint) × (o ≡ some h)) b.requisition
                  (λ _. (_, refl)) (λ e''. absurd (true≢false (sym due ∙ ground arith)))))

    message_with-IsHeld :
        (h : Hint) (orders : List (FieldOrder (Outside.Place out)))
        → All
            (λ m. IsHeld (length orders) c (handle env (received m) c))
            (message_with out incident module_of s b.reasoning (some h) orders).1
    unfolding message_with
    message_with-IsHeld h [] = tt
    message_with-IsHeld h (o ∷ orders) = (
      field_message-IsHeld out s.draws s.name incident (o ∷ orders) b.reasoning
          (clamped (least_priority o.priority orders)) module_of c h,
      tt,
    )

-- If a batch and the routes count more than 10000 people in all, or
-- an order needs a team from another state or private infrastructure, then the commander escalates
-- each order of the message to a human and dispatches none, in whatever state it is and whatever
-- else the orders say.
pub message_of-IsHeld :
    (env : Env) (out : Outside) (incident : String) (module_of : Module)
    (s : Coordinator (Outside.Place out)) (b : Batch (Outside.Place out)) (n : ℤ) (c : Commander)
    → IsDue env out incident module_of s b n c
    → All
        (λ m. IsHeld (length b.orders) c (handle env (received m) c))
        (message_of out incident module_of s b n).1
unfolding message_of
message_of-IsHeld env out incident module_of s b n c due =
    let (h, e) =
      escalation_hint_due env out incident module_of s b n c due (pos (length b.orders)) in
    subst
      (λ o.
        All (λ m. IsHeld (length b.orders) c (handle env (received m) c))
          (message_with out incident module_of s b.reasoning o b.orders).1)
      (sym e) (message_with-IsHeld env out incident module_of s b n c h b.orders)

classify_own :
    (render : Value → String) (order : Fields) (matrix : Matrix) (d : ℕ)
    → infer_trigger render order ≡ none
    → (classify render order matrix d none).autonomous ≡ true
unfolding classify decide block_trigger
classify_own render order matrix d e = rw e refl

review_sent :
    (env : Env) (order : Fields) (incident : Value) (module_of : Module) (c : Commander)
    → infer_trigger env.render order ≡ none
    → ((review env order none incident module_of c).1.topic ≡ dispatch)
      × ((review env order none incident module_of c).0.stats.dispatched ≡ c.stats.dispatched + 1)
unfolding review build_dispatch count_dispatched
review_sent env order incident module_of c e =
    let own : (classify env.render order c.matrix c.default_timeout none).autonomous ≡ true =
      classify_own env.render order c.matrix c.default_timeout e in
    rw own (refl, omega arith)

-- The order is dispatched.
abbrev pub IsSent : Commander → Commander × Outcome → Type 0
IsSent c (c', raised) = ⊥
IsSent c (c', returned []) = ⊥
IsSent c (c', returned (m ∷ ms)) =
    (m.topic ≡ dispatch) × (ms ≡ []) × (c'.stats.dispatched ≡ c.stats.dispatched + 1)

-- A flag for a silent or a stalled team carries no hint: whatever hint the team's order was held
-- for, the commander dispatches the flagged order on its own authority, unless its words or its fields
-- name a trigger.
pub flag_message-IsSent :
    (env : Env) (out : Outside) (o : FieldOrder (Outside.Place out)) (reason : String)
    (reasoning : List String) (s : Coordinator (Outside.Place out)) (c : Commander)
    → infer_trigger env.render (order_fields out (flagged reason o)) ≡ none
    → IsSent c (handle env (received (flag_message out o reason reasoning s)) c)
unfolding handle flag_message field_message order_payload get_or orders_of block_of truthy
    review_items review_member
flag_message-IsSent env out o reason reasoning s c e =
    let sent =
      review_sent env (order_fields out (flagged reason o))
        (or_value (text o.incident_id) (text o.incident_id)) all c e in
    (sent.0, refl, sent.1)
