-- ===== src/Commander/Responses.antt =====
-- What the two human responses do, and what a failing audit write leaves behind there and in a sweep.
use far_away.Prelude.{ℕ, suc, String, ◌≡◌, refl, true, false, Option, none, some, [], ◌∷◌, ◌++◌}
use text.Mathlib.TextPositions.{eq_refl}
use far_away.Core.Dict.{find, pop, find-pop}
use far_away.Commander.State.{
  is_pending, Via, Payload, dispatch_order, escalation_report, escalation_rejected, human_approved,
  Sent, PendingEscalation, Commander, Env,
}
use far_away.Commander.Agent.{Outcome, emit, returned, raised, build_dispatch}
use far_away.Commander.Pending.{
  reject, send_rejected, close_rejected, auto_execute, expire, approve, send_approved,
  count_auto_executed, close_approved, emitted, closing,
}
use far_away.Commander.Emit.{emitted_written, emitted_failed, with_sender_lem}
use far_away.Commander.Sweep.{lapses, expire_lapsed}

-- How a payload's order came to be dispatched, if it is a dispatch.
abbrev pub via_of : Payload → Option Via
via_of (dispatch_order channel recipients body order via) = some via
via_of (escalation_report report_id report human_only timeout) = none
via_of (escalation_rejected report_id approver note) = none

module _ (env : Env) (report_id : String) (p : PendingEscalation) (s : Commander) where
  -- What an approval of a pending entry does when its audit record is written.
  pub record Approves (approver : String) (r : Commander × Outcome) : Type 0 where
    pub message : Sent
    pub via_human : via_of message.payload ≡ some (human_approved approver)
    pub returns : r.1 ≡ returned (message ∷ [])
    pub published : r.0.published ≡ s.published ++ message ∷ []
    pub audited : r.0.audited ≡ s.audited ++ message ∷ []
    pub counted : r.0.stats ≡ record (s.stats) { approved = suc s.stats.approved }
    pub closed : find report_id r.0.pendings ≡ none

  -- Nothing but the counters of draws and of writes has changed, and the call raised.
  pub record Untouched (r : Commander × Outcome) : Type 0 where
    pub raises : r.1 ≡ raised
    pub published : r.0.published ≡ s.published
    pub audited : r.0.audited ≡ s.audited
    pub stats : r.0.stats ≡ s.stats
    pub pendings : r.0.pendings ≡ s.pendings

  -- The entry is gone and counted as executed, and nothing was published or audited.
  pub record Loses (r : Commander × Outcome) : Type 0 where
    pub raises : r.1 ≡ raised
    pub published : r.0.published ≡ s.published
    pub audited : r.0.audited ≡ s.audited
    pub counted : r.0.stats ≡ record (s.stats) { auto_executed = suc s.stats.auto_executed }
    pub gone : find report_id r.0.pendings ≡ none

  abbrev drawn : Commander → Commander
  drawn t = record t { draws = suc t.draws }

  closing-Untouched :
      (f : Commander → Commander) (m : Sent)
      → env.write_ok s.writes ≡ false
      → Untouched (closing f (emitted m (emit env m (drawn s))))
  closing-Untouched f m fails =
      rw (emitted_failed env m (drawn s) fails)
        (record { raises = refl; published = refl; audited = refl; stats = refl; pendings = refl })

  send_approved-Untouched :
      (approver : String)
      → env.write_ok s.writes ≡ false
      → Untouched (send_approved env report_id approver p s)
  unfolding send_approved build_dispatch
  send_approved-Untouched approver fails = closing-Untouched (close_approved report_id) _ fails

  send_rejected-Untouched :
      (approver note : String)
      → env.write_ok s.writes ≡ false
      → Untouched (send_rejected env report_id approver note p s)
  unfolding send_rejected
  send_rejected-Untouched approver note fails = closing-Untouched (close_rejected report_id) _ fails

  -- If the audit write fails, an approval or a rejection of a pending entry raises and changes
  -- nothing but counters of draws and writes: the entry stays pending, and the human can try again.
  pub response-Untouched :
      (approver note : String)
      → find report_id s.pendings ≡ some p
      → is_pending p.status ≡ true
      → env.write_ok s.writes ≡ false
      → Untouched (approve env report_id approver s)
        × Untouched (reject env report_id approver note s)
  unfolding approve reject
  response-Untouched approver note found waiting fails =
      rw (found, waiting)
        (send_approved-Untouched approver fails, send_rejected-Untouched approver note fails)

  Loses-drawn :
      (m : Sent)
      → env.write_ok s.writes ≡ false
      → Loses (
          emitted m (
            emit env m
              (record (drawn (count_auto_executed s)) { pendings = pop report_id s.pendings })))
  unfolding count_auto_executed
  Loses-drawn m fails =
      rw
        (emitted_failed env m
          (record (drawn (count_auto_executed s)) { pendings = pop report_id s.pendings }) fails)
        (record {
          raises = refl;
          published = refl;
          audited = refl;
          counted = refl;
          gone = simp (find-pop, eq_refl);
        })

  auto_execute-Loses : env.write_ok s.writes ≡ false → Loses (auto_execute env report_id p s)
  unfolding auto_execute build_dispatch count_auto_executed
  auto_execute-Loses fails = Loses-drawn _ fails

  -- If the audit write fails while a sweep executes a lapsed entry, the order is lost: the sweep
  -- raises, nothing is published or audited, and yet the entry is no longer pending and is counted
  -- as executed.
  pub expire-Loses :
      (now : ℕ)
      → lapses now p ≡ true
      → env.write_ok s.writes ≡ false
      → Loses (expire env now report_id p s)
  expire-Loses now lapsed fails =
      rw (expire_lapsed env now report_id p s lapsed) (auto_execute-Loses fails)

  Approves-drawn :
      (approver : String) (m : Sent)
      → m.sender ≡ s.name
      → via_of m.payload ≡ some (human_approved approver)
      → env.write_ok s.writes ≡ true
      → Approves approver (closing (close_approved report_id) (emitted m (emit env m (drawn s))))
  unfolding close_approved
  Approves-drawn approver m same approved ok =
      let sent = with_sender_lem env m (drawn s) same in
      rw (emitted_written env m (drawn s) ok) (record {
        message = m;
        via_human = approved;
        returns = refl;
        published = rw sent;
        audited = rw sent;
        counted = refl;
        closed = simp (find-pop, eq_refl);
      })

  send_approved-Approves :
      (approver : String)
      → env.write_ok s.writes ≡ true
      → Approves approver (send_approved env report_id approver p s)
  unfolding send_approved build_dispatch
  send_approved-Approves approver ok = Approves-drawn approver _ refl refl ok

  -- If the audit write succeeds, the approval of a pending entry returns one message, which is both
  -- audited and published, counts it, and closes the entry.
  pub approve-Approves :
      (approver : String)
      → find report_id s.pendings ≡ some p
      → is_pending p.status ≡ true
      → env.write_ok s.writes ≡ true
      → Approves approver (approve env report_id approver s)
  unfolding approve
  approve-Approves approver found waiting ok =
      rw (found, waiting) (send_approved-Approves approver ok)
