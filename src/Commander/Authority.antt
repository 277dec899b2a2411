-- ===== src/Commander/Authority.antt =====
-- The bounded-authority contract: which orders the commander may dispatch, and on whose word.
pub mod Runs
use far_away.Prelude.{
  ℕ, suc, String, ◌≡◌, ◌⊎◌, refl, Bool, true, false, not, if◌then◌else◌, inl, inr, Option, none,
  some, List, [], ◌∷◌, arith, All, All-snoc, Bool-cases, if-ind,
}
use far_away.Core.Value.{
  Value, null, bool, int, float, text, list, dict, Items, nil, item, Fields, get_or, truthy,
}
use far_away.Core.Dict.{Dict, AllValues, put-AllValues, pop-AllValues, find-AllValues}
use far_away.Core.Contracts.{Message, Module, Topic, field_order}
use far_away.Commander.Autonomy.{Decision, build_matrix}
use far_away.Commander.Matrix.{classify}
use far_away.Commander.Matrix.Rules.{classify-Decides}
use far_away.Commander.State.{
  Via, autonomous, on_timeout, human_approved, Line, Payload, dispatch_order, Sent, is_pending,
  PendingEscalation, Commander, Env, init,
}
use far_away.Commander.Agent.{
  Outcome, returned, raised, build_dispatch, register_and_escalate, review, review_items,
  review_member, add_message, orders_of, block_of, review_payload, handle_on, handle, emit,
  emit_all, emit_outcome, on_message, count_dispatched, count_escalated,
}
use far_away.Commander.Pending.{
  waits, send_approved, send_rejected, and_then, closing, close_approved, close_rejected, rejection,
  emitted, prefixed, approve_entry, reject_entry, count_auto_executed, auto_execute, expire, sweep,
  resolve_pending, approve, reject,
}
use far_away.Commander.Events.{Event, delivered, swept, approved_by, rejected_by, step, run}

-- The order is one of a list's members.
abbrev In : Items → Fields → Type 0
In nil order = ⊥
In (item v rest) order = (v ≡ dict order) ⊎ In rest order

abbrev Lists : Value → Fields → Type 0
Lists (list items) order = In items order
Lists v order = ⊥

-- The message is a field order that lists the order and has the escalation block.
abbrev pub Orders : Message Fields Line → Fields → Option Fields → Type 0
unfolding get_or block_of
Orders message order block =
    (message.topic ≡ field_order)
    × Lists (get_or "orders" null message.payload) order
    × (block_of (get_or "escalation" null message.payload) ≡ some block)

-- `Approver` says whose approvals are given, and `Given` which orders are, under which escalation blocks.
module _ (env : Env) (timeout : ℕ) (Approver : String → Type 0)
    (Given : Fields → Option Fields → Type 0) where
  abbrev pub ruling : Fields → Option Fields → Decision
  ruling order block = classify env.render order (build_matrix timeout) timeout block

  -- What a dispatch needs: an autonomous decision, a lapsed one that is not human-only, or a human.
  abbrev pub Allows : Via → Decision → Type 0
  Allows autonomous d = d.autonomous ≡ true
  Allows on_timeout d = (d.requires_human ≡ true) × (d.human_only ≡ false)
  Allows (human_approved who) d = Approver who

  abbrev pub Lawful : Payload → Type 0
  Lawful (dispatch_order channel recipients body order via) =
      (block : Option Fields) × Given order block × Allows via (ruling order block)
  Lawful other = Unit

  abbrev pub LawfulSent : Sent → Type 0
  LawfulSent m = Lawful m.payload

  pub record IsHeld (p : PendingEscalation) : Type 0 where
    pub block : Option Fields
    pub given : Given p.order block
    pub ruled : p.decision ≡ ruling p.order block
    pub held : p.decision.autonomous ≡ false

  pub record Inv (s : Commander) : Type 0 where
    pub matrix : s.matrix ≡ build_matrix timeout
    pub default_timeout : s.default_timeout ≡ timeout
    pub pendings : AllValues IsHeld s.pendings
    pub published : All LawfulSent s.published

  pub requires_human_of_held : {p : PendingEscalation} → IsHeld p → p.decision.requires_human ≡ true
  requires_human_of_held {p} h =
      let d = classify-Decides env.render p.order timeout h.block in
      ground (arith, d.requires_human, d.autonomous, h.ruled, h.held)

  review-Inv :
      (order : Fields) (block : Option Fields) (incident_id : Value) (m : Module) (s : Commander)
      → Given order block
      → Inv s
      → Inv (review env order block incident_id m s).0
        × LawfulSent (review env order block incident_id m s).1
  unfolding review register_and_escalate build_dispatch count_dispatched count_escalated
  review-Inv order block incident_id m s g h = elim (Bool-cases (ruling order block).autonomous) [
    | inl e ↦
        rw (h.matrix, h.default_timeout, e)
          (
            record {
              matrix = refl;
              default_timeout = refl;
              pendings = h.pendings;
              published = h.published;
            },
            (block, g, e),
          )
    | inr e ↦
        rw (h.matrix, h.default_timeout, e)
          (
            record {
              matrix = refl;
              default_timeout = refl;
              pendings =
                  put-AllValues IsHeld _ _ s.pendings
                    (record { block = block; given = g; ruled = ground (arith, e); held = refl })
                    h.pendings;
              published = h.published;
            },
            tt,
          )
  ]

  abbrev AllLawful : Outcome → Type 0
  AllLawful (returned ms) = All LawfulSent ms
  AllLawful raised = Unit

  add_message-AllLawful :
      (m : Sent) (o : Outcome) → LawfulSent m → AllLawful o → AllLawful (add_message env m o)
  add_message-AllLawful m (returned ms) h k = (h, k)
  add_message-AllLawful m raised h k = tt

  abbrev Reviewed : Commander × Outcome → Type 0
  Reviewed r = Inv r.0 × AllLawful r.1

  review_items-Inv :
      (items : Items) (block : Option (Option Fields)) (incident_id : Value) (m : Module)
      (s : Commander)
      → ((order : Fields) (b : Option Fields) → In items order → block ≡ some b → Given order b)
      → Inv s
      → Reviewed (review_items env items block incident_id m s)
  unfolding review_items review_member
  review_items-Inv nil block incident_id m s g h = (h, tt)
  review_items-Inv (item (dict order) rest) (some b) incident_id m s g h =
      let one = review-Inv order b incident_id m s (g order b (inl refl) refl) h in
      let more = review_items-Inv rest (some b) incident_id m _ (λ o b' i. g o b' (inr i)) one.0 in
      (more.0, add_message-AllLawful _ _ one.1 more.1)
  review_items-Inv (item (dict order) rest) none incident_id m s g h = (h, tt)
  review_items-Inv (item v rest) block incident_id m s g h = (h, tt)

  pub emit-Inv : (m : Sent) (s : Commander) → LawfulSent m → Inv s → Inv (emit env m s).0
  unfolding emit
  emit-Inv m s l h = elim (Bool-cases (env.write_ok s.writes)) [
    | inl e ↦ rw e (record {
      matrix = h.matrix;
      default_timeout = h.default_timeout;
      pendings = h.pendings;
      published = All-snoc LawfulSent s.published _ h.published l;
    })
    | inr e ↦ rw e (record {
      matrix = h.matrix;
      default_timeout = h.default_timeout;
      pendings = h.pendings;
      published = h.published;
    })
  ]

  emit_all-Inv :
      (ms : List Sent) (s : Commander) → All LawfulSent ms → Inv s → Inv (emit_all env ms s)
  unfolding emit_all
  emit_all-Inv [] s l h = h
  emit_all-Inv (m ∷ ms) s l h = elim (Bool-cases (emit env m s).1) [
    | inl e ↦ rw e (emit_all-Inv ms _ l.1 (emit-Inv m s l.0 h))
    | inr e ↦ rw e (emit-Inv m s l.0 h)
  ]

  emit_outcome-Inv : (r : Commander × Outcome) → Reviewed r → Inv (emit_outcome env r)
  emit_outcome-Inv (s, returned ms) h = emit_all-Inv ms s h.1 h.0
  emit_outcome-Inv (s, raised) h = h.0

  no_orders-Inv :
      (b : Bool) (block : Option (Option Fields)) (incident_id : Value) (m : Module) (s : Commander)
      → Inv s
      → Reviewed (review_payload env (if b then none else some nil) block incident_id m s)
  unfolding review_items
  no_orders-Inv true block incident_id m s h = (h, tt)
  no_orders-Inv false block incident_id m s h = (h, tt)

  review_payload-Inv :
      (orders : Value) (block : Option (Option Fields)) (incident_id : Value) (m : Module)
      (s : Commander)
      → ((order : Fields) (b : Option Fields) → Lists orders order → block ≡ some b → Given order b)
      → Inv s
      → Reviewed (review_payload env (orders_of orders) block incident_id m s)
  unfolding orders_of review_items
  review_payload-Inv (list items) block incident_id m s g h =
      review_items-Inv items block incident_id m s g h
  review_payload-Inv v block incident_id m s g h = no_orders-Inv (truthy v) block incident_id m s h

  handle_on-Inv :
      (topic : Topic) (message : Message Fields Line) (s : Commander)
      → message.topic ≡ topic
      → ((order : Fields) (block : Option Fields) → Orders message order block → Given order block)
      → Inv s
      → Reviewed (handle_on env topic message s)
  unfolding Orders
  handle_on-Inv field_order message s e g h =
      review_payload-Inv _ _ _ _ s (λ order b i same. g order b (e, i, same)) h
  handle_on-Inv _ message s e g h = (h, tt)

  pub on_message-Inv :
      (message : Message Fields Line) (s : Commander)
      → ((order : Fields) (block : Option Fields) → Orders message order block → Given order block)
      → Inv s
      → Inv (on_message env message s)
  unfolding on_message handle
  on_message-Inv message s g h = emit_outcome-Inv _ (handle_on-Inv message.topic message s refl g h)
