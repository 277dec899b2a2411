-- ===== src/Commander/HumanOnly.antt =====
-- Human-only orders: without a human's approval none of them is dispatched.
use far_away.Prelude.{ℕ, String, ◌≡◌, true, false, Option, List, All, All-map}
use far_away.Core.Value.{Fields}
use far_away.Commander.Matrix.Rules.{classify-Decides, autonomous-Decides}
use far_away.Commander.State.{
  Via, autonomous, on_timeout, human_approved, Payload, dispatch_order, escalation_report,
  escalation_rejected, Sent, Env, init,
}
use far_away.Commander.Events.{Event, run}
use far_away.Commander.Authority.{ruling, Allows, Lawful, LawfulSent}
use far_away.Commander.Authority.Runs.{Admits, Delivered, run-LawfulSent}

abbrev pub Nobody : String → Type 0
Nobody who = ⊥

module _ (env : Env) (timeout : ℕ) (Given : Fields → Option Fields → Type 0) where
  -- The order of a dispatch was given with a block under which it is not human-only.
  abbrev pub MayActAlone : Payload → Type 0
  MayActAlone (dispatch_order channel recipients body order via) =
      (block : Option Fields) × Given order block
      × ((ruling env timeout Nobody Given order block).human_only ≡ false)
  MayActAlone other = Unit

  autonomous_not_human_only :
      (order : Fields) (block : Option Fields)
      → (ruling env timeout Nobody Given order block).autonomous ≡ true
      → (ruling env timeout Nobody Given order block).human_only ≡ false
  autonomous_not_human_only order block h =
      autonomous-Decides (classify-Decides env.render order timeout block) h

  allowed_alone :
      (via : Via) (order : Fields) (block : Option Fields)
      → Allows env timeout Nobody Given via (ruling env timeout Nobody Given order block)
      → (ruling env timeout Nobody Given order block).human_only ≡ false
  allowed_alone autonomous order block h = autonomous_not_human_only order block h
  allowed_alone on_timeout order block h = h.1
  allowed_alone (human_approved who) order block h = absurd h

  lawful_alone : (m : Sent) → LawfulSent env timeout Nobody Given m → MayActAlone m.payload
  lawful_alone m = go m.payload
    where
      go : (p : Payload) → Lawful env timeout Nobody Given p → MayActAlone p
      go (dispatch_order channel recipients body order via) h =
          (h.0, h.1, allowed_alone via order h.0 h.2)
      go (escalation_report r e b n) h = tt
      go (escalation_rejected r a n) h = tt

-- From a new commander, whatever is delivered, swept and rejected in whatever order, and whichever
-- audit writes fail, if there is no approval: the order of each published dispatch is one of a
-- delivered message, and is not ruled human-only under that message's escalation block.
pub run_without_approvals :
    (env : Env) (timeout : ℕ) (events : List Event) (name : String)
    → All (Admits env timeout Nobody) events
    → All
        (λ (m : Sent). MayActAlone env timeout (Delivered events) m.payload)
        (run env events (init name timeout)).published
run_without_approvals env timeout events name h =
    All-map (lawful_alone env timeout (Delivered events)) _
      (run-LawfulSent env timeout Nobody events name h)
