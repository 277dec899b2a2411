-- ===== src/Commander/Authority/Runs.antt =====
-- Every event keeps the authority invariant, and so does every run.
use far_away.Prelude.{
  ℕ, suc, String, ◌≡◌, ◌⊎◌, refl, false, not, inl, inr, Option, none, some, List, [], ◌∷◌, All,
  Bool-cases, if-ind,
}
use far_away.Core.Value.{Fields}
use far_away.Core.Dict.{Dict, AllValues, pop-AllValues, find-AllValues}
use far_away.Commander.State.{
  human_approved, Sent, is_pending, PendingEscalation, Commander, Env, init,
}
use far_away.Commander.Agent.{Outcome, returned, raised, build_dispatch, emit}
use far_away.Commander.Pending.{
  waits, send_approved, send_rejected, and_then, closing, close_approved, close_rejected, rejection,
  emitted, prefixed, approve_entry, reject_entry, count_auto_executed, auto_execute, expire, sweep,
  resolve_pending, approve, reject,
}
use far_away.Commander.Events.{Event, delivered, swept, approved_by, rejected_by, step, run}
use far_away.Commander.Authority.{
  Inv, IsHeld, LawfulSent, Orders, emit-Inv, on_message-Inv, requires_human_of_held,
}

module _ (env : Env) (timeout : ℕ) (Approver : String → Type 0)
    (Given : Fields → Option Fields → Type 0) where
  -- The state that a call leaves satisfies the invariant, whether it returned or raised.
  record Keeps (r : Commander × Outcome) : Type 0 where
    inv : Inv env timeout Approver Given r.0

  -- A lawful message and an invariant state stay so through `emit`, whatever the write's outcome.
  emitted-Inv :
      (m : Sent) (s : Commander)
      → LawfulSent env timeout Approver Given m
      → Inv env timeout Approver Given s
      → Keeps (emitted m (emit env m s))
  emitted-Inv m s l h = elim (Bool-cases (emit env m s).1) [
    | inl e ↦ rw (e, emitted) (record { inv = emit-Inv env timeout Approver Given m s l h })
    | inr e ↦ rw (e, emitted) (record { inv = emit-Inv env timeout Approver Given m s l h })
  ]

  auto_execute-Inv :
      (report_id : String) (p : PendingEscalation) (s : Commander)
      → IsHeld env timeout Approver Given p
      → p.decision.human_only ≡ false
      → Inv env timeout Approver Given s
      → Keeps (auto_execute env report_id p s)
  unfolding auto_execute build_dispatch count_auto_executed
  auto_execute-Inv report_id p s held lapsed h =
      emitted-Inv _ _
        (
          held.block,
          held.given,
          (
            rw (← held.ruled) (requires_human_of_held env timeout Approver Given held),
            rw (← held.ruled) lapsed,
          ),
        )
        (record {
          matrix = h.matrix;
          default_timeout = h.default_timeout;
          pendings =
              pop-AllValues (IsHeld env timeout Approver Given) report_id s.pendings h.pendings;
          published = h.published;
        })

  expire-Inv :
      (now : ℕ) (report_id : String) (p : PendingEscalation) (s : Commander)
      → IsHeld env timeout Approver Given p
      → Inv env timeout Approver Given s
      → Keeps (expire env now report_id p s)
  unfolding expire
  expire-Inv now report_id p s held h =
      if-ind Keeps (waits now p) {x = (s, returned [])} (λ _. record { inv = h })
        (λ _.
          if-ind Keeps p.decision.human_only {x = (s, returned [])}
            {y = auto_execute env report_id p s} (λ _. record { inv = h })
            (λ e. auto_execute-Inv report_id p s held e h))

  prefixed-Inv : (ms : List Sent) (r : Commander × Outcome) → Keeps r → Keeps (prefixed ms r)
  prefixed-Inv ms (s, returned rest) h = record { inv = h.inv }
  prefixed-Inv ms (s, raised) h = record { inv = h.inv }

  and_then-Inv :
      (r : Commander × Outcome) (rest : Commander → Commander × Outcome)
      → Keeps r
      → ((s : Commander) → Inv env timeout Approver Given s → Keeps (rest s))
      → Keeps (and_then r rest)
  and_then-Inv (s, returned ms) rest h k = prefixed-Inv ms (rest s) (k s h.inv)
  and_then-Inv (s, raised) rest h k = record { inv = h.inv }

  sweep-Inv :
      (now : ℕ) (entries : Dict PendingEscalation) (s : Commander)
      → AllValues (IsHeld env timeout Approver Given) entries
      → Inv env timeout Approver Given s
      → Keeps (sweep env now entries s)
  unfolding sweep
  sweep-Inv now [] s all h = record { inv = h }
  sweep-Inv now ((report_id, p) ∷ rest) s all h =
      and_then-Inv _ _ (expire-Inv now report_id p s all.0 h) (λ s'. sweep-Inv now rest s' all.1)

  closing-Inv :
      (f : Commander → Commander) (r : Commander × Outcome)
      → ((s : Commander) → Inv env timeout Approver Given s → Inv env timeout Approver Given (f s))
      → Keeps r
      → Keeps (closing f r)
  closing-Inv f (s, returned ms) k h = record { inv = k s h.inv }
  closing-Inv f (s, raised) k h = record { inv = h.inv }

  close_approved-Inv :
      (report_id : String) (s : Commander)
      → Inv env timeout Approver Given s
      → Inv env timeout Approver Given (close_approved report_id s)
  unfolding close_approved
  close_approved-Inv report_id s h = record {
    matrix = h.matrix;
    default_timeout = h.default_timeout;
    pendings = pop-AllValues (IsHeld env timeout Approver Given) report_id s.pendings h.pendings;
    published = h.published;
  }

  close_rejected-Inv :
      (report_id : String) (s : Commander)
      → Inv env timeout Approver Given s
      → Inv env timeout Approver Given (close_rejected report_id s)
  unfolding close_rejected
  close_rejected-Inv report_id s h = record {
    matrix = h.matrix;
    default_timeout = h.default_timeout;
    pendings = pop-AllValues (IsHeld env timeout Approver Given) report_id s.pendings h.pendings;
    published = h.published;
  }

  drawn-Inv :
      (s : Commander)
      → Inv env timeout Approver Given s
      → Inv env timeout Approver Given (record s { draws = suc s.draws })
  drawn-Inv s h = record {
    matrix = h.matrix;
    default_timeout = h.default_timeout;
    pendings = h.pendings;
    published = h.published;
  }

  approve_entry-Inv :
      (o : Option PendingEscalation) (report_id who : String) (s : Commander)
      → ((p : PendingEscalation) → o ≡ some p → IsHeld env timeout Approver Given p)
      → Approver who
      → Inv env timeout Approver Given s
      → Keeps (approve_entry env o report_id who s)
  unfolding send_approved build_dispatch
  approve_entry-Inv none report_id who s held ok h = record { inv = h }
  approve_entry-Inv (some p) report_id who s held ok h =
      if-ind Keeps (not (is_pending p.status)) {x = (s, returned [])}
        {y = send_approved env report_id who p s} (λ _. record { inv = h })
        (λ _. closing-Inv _ _ (close_approved-Inv report_id) (
          emitted-Inv
            (build_dispatch env p.order p.decision p.incident_id p.module_of (human_approved who)
              s).1
            _ ((held p refl).block, (held p refl).given, ok) (drawn-Inv s h)))

  reject_entry-Inv :
      (o : Option PendingEscalation) (report_id who note : String) (s : Commander)
      → Inv env timeout Approver Given s
      → Keeps (reject_entry env o report_id who note s)
  unfolding send_rejected rejection
  reject_entry-Inv none report_id who note s h = record { inv = h }
  reject_entry-Inv (some p) report_id who note s h =
      if-ind Keeps (not (is_pending p.status)) {x = (s, returned [])}
        {y = send_rejected env report_id who note p s} (λ _. record { inv = h })
        (λ _.
          closing-Inv _ _ (close_rejected-Inv report_id)
            (emitted-Inv (rejection env report_id who note p s) _ tt (drawn-Inv s h)))

  -- What an event brings: an approval is by an approver, and a message has orders that are given.
  abbrev Brings : Event → Type 0
  Brings (approved_by report_id who) = Approver who
  Brings (delivered message) =
      (order : Fields) (block : Option Fields) → Orders message order block → Given order block
  Brings other = Unit

  step-Inv :
      (event : Event) (s : Commander)
      → Brings event
      → Inv env timeout Approver Given s
      → Inv env timeout Approver Given (step env event s)
  unfolding step resolve_pending approve reject
  step-Inv (delivered message) s ok h = on_message-Inv env timeout Approver Given message s ok h
  step-Inv (swept now) s ok h = (sweep-Inv now s.pendings s h.pendings h).inv
  step-Inv (approved_by report_id who) s ok h =
      (approve_entry-Inv _ report_id who s
        (λ p e.
          find-AllValues (IsHeld env timeout Approver Given) report_id s.pendings h.pendings e)
        ok h).inv
  step-Inv (rejected_by report_id who note) s ok h = (reject_entry-Inv _ report_id who note s h).inv

  run-Inv :
      (events : List Event) (s : Commander)
      → All Brings events
      → Inv env timeout Approver Given s
      → Inv env timeout Approver Given (run env events s)
  unfolding run
  run-Inv [] s ok h = h
  run-Inv (event ∷ events) s ok h = run-Inv events _ ok.1 (step-Inv event s ok.0 h)

  init-Inv : (name : String) → Inv env timeout Approver Given (init name timeout)
  unfolding init
  init-Inv name = record { matrix = refl; default_timeout = refl; pendings = tt; published = tt }

-- The order is one of a message that was delivered, with that message's escalation block.
abbrev pub Delivered : List Event → Fields → Option Fields → Type 0
Delivered [] order block = ⊥
Delivered (delivered message ∷ events) order block =
    Orders message order block ⊎ Delivered events order block
Delivered (event ∷ events) order block = Delivered events order block

module _ (env : Env) (timeout : ℕ) (Approver : String → Type 0) where
  -- An approval is given by an approver.
  abbrev pub Admits : Event → Type 0
  Admits (approved_by report_id who) = Approver who
  Admits other = Unit

  Brings-Delivered :
      (Given : Fields → Option Fields → Type 0) (events : List Event)
      → ((order : Fields) (block : Option Fields)
          → Delivered events order block
          → Given order block)
      → All Admits events
      → All (Brings env timeout Approver Given) events
  Brings-Delivered Given [] g ok = tt
  Brings-Delivered Given (delivered message ∷ events) g ok = (
    λ order block h. g order block (inl h),
    Brings-Delivered Given events (λ order block h. g order block (inr h)) ok.1,
  )
  Brings-Delivered Given (approved_by report_id who ∷ events) g ok =
      (ok.0, Brings-Delivered Given events g ok.1)
  Brings-Delivered Given (swept now ∷ events) g ok = (tt, Brings-Delivered Given events g ok.1)
  Brings-Delivered Given (rejected_by report_id who note ∷ events) g ok =
      (tt, Brings-Delivered Given events g ok.1)

  -- From a new commander, whatever is delivered, swept, approved and rejected in whatever order,
  -- and whichever audit writes fail, if every approval is given by an approver: the order of each
  -- published dispatch is one of a delivered message, and under that message's escalation block it is
  -- ruled autonomous, if the dispatch is marked autonomous; needs a human without being human-only,
  -- if it is marked as executed on timeout; and if it is marked as approved by someone, that is an
  -- approver.
  pub run-LawfulSent :
      (events : List Event) (name : String)
      → All Admits events
      → All
          (LawfulSent env timeout Approver (Delivered events))
          (run env events (init name timeout)).published
  run-LawfulSent events name ok =
      (run-Inv env timeout Approver (Delivered events) events _
        (Brings-Delivered (Delivered events) events (λ order block h. h) ok)
        (init-Inv env timeout Approver (Delivered events) name)).published
