-- ===== src/Reconcile/Audited.antt =====
-- models/reconcile.py: the revisions of a history in the decision log.
use far_away.Prelude.{ℕ, suc, ◌+◌, ◌≤◌, String, ◌≡◌, Option, none, some, List, [], ◌∷◌, length}
use far_away.Core.Value.{text}
use far_away.Core.Contracts.{Message, alert, query, high, info, earthquake, other}
use far_away.Audit.Log.{Codec, Logger, Write, append}
use far_away.Audit.Chain.{IsSound}
use far_away.Audit.Writes.{Left}
use far_away.Reconcile.Policy.{Numbers}
use far_away.Reconcile.History.{meaningful, minor}
use far_away.Reconcile.Timeline.{Revision}

module _ (num : Numbers) (c : Codec) where
  open c use {Body, canonical, reload}

  -- What a message takes from outside, and its dict: the text of the reason, the n-th id and
  -- timestamp, and `to_dict`.
  pub record Outside : Type 0 where
    pub reason_of : Revision num → String
    pub message_id : ℕ → String
    pub stamp : ℕ → String
    pub to_dict : Message (Revision num) String → Body

  module _ (outside : Outside) (incident_id : String) where
    -- the message of one revision
    unfoldable pub revision_message : ℕ → Revision num → Message (Revision num) String
    revision_message n r = record {
      sender = "models.reconcile";
      recipient = "audit";
      type = elim r.classification [ meaningful ↦ alert | minor ↦ query ];
      priority = elim r.classification [ meaningful ↦ high | minor ↦ info ];
      payload = r;
      reasoning = outside.reason_of r ∷ [];
      ttl_seconds = 300;
      topic = other "tier3.raw_feed";
      incident_id = text incident_id;
      module_of = earthquake;
      escalation_trigger = none;
      timestamp = outside.stamp n;
      id = outside.message_id n;
    }

    abbrev more_written : Option String → Logger c × Option ℕ → Logger c → Logger c × Option ℕ
    more_written none rest left = (left, none)
    more_written (some stored) rest left = rest

    -- `append_revisions_to_chain` after `written` revisions: how many are written, or `none` where a
    -- write fails and raises; `writes` says how each write ends
    unfoldable pub append_revisions :
        (writes : ℕ → Write) → (written : ℕ) → List (Revision num) → Logger c → Logger c × Option ℕ
    unfolding revision_message append
    append_revisions writes written [] l = (l, some written)
    append_revisions writes written (r ∷ rest) l =
        let after = append c (writes written) (outside.to_dict (revision_message written r)) l in
        more_written after.1 (append_revisions writes (suc written) rest after.0) after.0

    -- Either all revisions are written, their number is returned, and the log holds as many records
    -- more; or a write raises, and of the log with the revisions before it that write leaves what
    -- a failing write does.
    pub data IsWritten (writes : ℕ → Write) (n written : ℕ) (revisions : List (Revision num))
        (r : Logger c × Option ℕ) : Type 0 where
      all_written :
          r.1 ≡ some (written + length revisions)
          → IsSound c (n + length revisions) r.0
          → IsWritten writes n written revisions r
      failed_after :
          (m : ℕ)
          → suc m ≤ length revisions
          → r.1 ≡ none
          → Left c (n + m) (writes (written + m)) r.0
          → IsWritten writes n written revisions r
