-- ===== src/Commander/Pending.antt =====
-- tier1/commander/agent.py: what becomes of a pending escalation. A sweep executes it when its time
-- is up, unless it is human-only; a human approves or rejects it.
use far_away.Prelude.{
  ℕ, suc, String, Bool, true, false, not, ◌||◌, Option, none, some, List, [], ◌∷◌, ◌++◌,
  if◌then◌else◌,
}
use far_away.Core.Dict.{Dict, find, pop}
use far_away.Core.Contracts.{high, ack, escalations}
use far_away.Commander.State.{
  on_timeout, human_approved, timed_out, rejected_by, escalation_rejected, Sent, is_pending,
  PendingEscalation, is_due, Commander, Env,
}
use far_away.Commander.Agent.{Outcome, returned, raised, build_dispatch, emit}

unfoldable pub count_auto_executed : Commander → Commander
count_auto_executed s = record s {
  stats = record stats { auto_executed = suc stats.auto_executed };
}
  where
    open s use {stats}

-- the counter and the `pop` of `approve`
unfoldable pub close_approved : String → Commander → Commander
close_approved report_id s = record s {
  stats = record stats { approved = suc stats.approved };
  pendings = pop report_id s.pendings;
}
  where
    open s use {stats}

-- the counter and the `pop` of `reject`
unfoldable pub close_rejected : String → Commander → Commander
close_rejected report_id s = record s {
  stats = record stats { rejected = suc stats.rejected };
  pendings = pop report_id s.pendings;
}
  where
    open s use {stats}

abbrev pub emitted : Sent → Commander × Bool → Commander × Outcome
emitted m (s, true) = (s, returned (m ∷ []))
emitted m (s, false) = (s, raised)

abbrev pub prefixed : List Sent → Commander × Outcome → Commander × Outcome
prefixed ms (s, returned rest) = (s, returned (ms ++ rest))
prefixed ms (s, raised) = (s, raised)

-- The first test of the loop of `resolve_pending`.
abbrev pub waits : ℕ → PendingEscalation → Bool
unfolding is_due
waits now p = not (is_pending p.status) || not (is_due p now)

-- The next statement, unless the last one raised.
abbrev pub and_then : Commander × Outcome → (Commander → Commander × Outcome) → Commander × Outcome
and_then (s, returned ms) rest = prefixed ms (rest s)
and_then (s, raised) rest = (s, raised)

-- What follows an `emit` that did not raise.
abbrev pub closing : (Commander → Commander) → Commander × Outcome → Commander × Outcome
closing f (s, returned ms) = (f s, returned ms)
closing f (s, raised) = (s, raised)

module _ (env : Env) where
  -- the part of the loop of `resolve_pending` behind its tests
  unfoldable pub auto_execute : String → PendingEscalation → Commander → Commander × Outcome
  auto_execute report_id p s =
      let (s1, m) =
        build_dispatch env p.order p.decision p.incident_id p.module_of on_timeout
          (count_auto_executed s) in
      let m' = record m {
        reasoning = timed_out report_id p.decision.timeout_seconds ∷ m.reasoning;
      } in
      emitted m' (emit env m' (record s1 { pendings = pop report_id s1.pendings }))

  -- the body of the loop of `resolve_pending`
  unfoldable pub expire : ℕ → String → PendingEscalation → Commander → Commander × Outcome
  expire now report_id p s =
      if waits now p
      then (s, returned [])
      else if p.decision.human_only
      then (s, returned [])
      else auto_execute report_id p s

  -- the loop of `resolve_pending`, over a snapshot of the pending entries
  unfoldable pub sweep : ℕ → Dict PendingEscalation → Commander → Commander × Outcome
  sweep now [] s = (s, returned [])
  sweep now ((report_id, p) ∷ rest) s =
      and_then (expire now report_id p s) (λ s'. sweep now rest s')

  -- `resolve_pending`; `tick` calls it at the clock's reading
  unfoldable pub resolve_pending : ℕ → Commander → Commander × Outcome
  resolve_pending now s = sweep now s.pendings s

  -- the rest of `approve`, behind its guard
  unfoldable pub send_approved :
      String → String → PendingEscalation → Commander → Commander × Outcome
  send_approved report_id approver p s =
      let (s1, m) =
        build_dispatch env p.order p.decision p.incident_id p.module_of (human_approved approver)
          s in
      closing (close_approved report_id) (emitted m (emit env m s1))

  abbrev pub approve_entry :
      Option PendingEscalation → String → String → Commander → Commander × Outcome
  approve_entry none report_id approver s = (s, returned [])
  approve_entry (some p) report_id approver s =
      if not (is_pending p.status) then (s, returned []) else send_approved report_id approver p s

  -- `approve`
  unfoldable pub approve : String → String → Commander → Commander × Outcome
  approve report_id approver s = approve_entry (find report_id s.pendings) report_id approver s

  -- the message of `reject`
  unfoldable pub rejection : String → String → String → PendingEscalation → Commander → Sent
  rejection report_id approver note p s = record {
    sender = s.name;
    recipient = "human_dashboard";
    type = ack;
    priority = high;
    payload = escalation_rejected report_id approver note;
    reasoning = rejected_by report_id approver note ∷ [];
    ttl_seconds = 300;
    topic = escalations;
    incident_id = p.incident_id;
    module_of = p.module_of;
    escalation_trigger = p.decision.trigger;
    timestamp = env.stamp s.draws;
    id = env.message_id s.draws;
  }

  -- the rest of `reject`, behind its guard
  unfoldable pub send_rejected :
      String → String → String → PendingEscalation → Commander → Commander × Outcome
  send_rejected report_id approver note p s =
      let m = rejection report_id approver note p s in
      closing (close_rejected report_id) (emitted m (emit env m (record s { draws = suc s.draws })))

  abbrev pub reject_entry :
      Option PendingEscalation → String → String → String → Commander → Commander × Outcome
  reject_entry none report_id approver note s = (s, returned [])
  reject_entry (some p) report_id approver note s =
      if not (is_pending p.status)
      then (s, returned [])
      else send_rejected report_id approver note p s

  -- `reject`
  unfoldable pub reject : String → String → String → Commander → Commander × Outcome
  reject report_id approver note s =
      reject_entry (find report_id s.pendings) report_id approver note s
