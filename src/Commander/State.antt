-- ===== src/Commander/State.antt =====
-- tier1/commander/agent.py: the commander's state, and the messages that it sends.
use far_away.Prelude.{ℕ, String, Bool, true, false, List, [], leb}
use far_away.Core.Value.{Value, Fields}
use far_away.Core.Dict.{Dict}
use far_away.Core.Contracts.{Message, Module}
use far_away.Commander.Autonomy.{Matrix, Decision, Reason, build_matrix}

-- How an order came to be dispatched: the texts "autonomous", "auto_execute_on_timeout" and
-- f"human_approved:{approver}".
pub data Via : Type 0 where
  autonomous on_timeout : Via
  human_approved : String → Via

-- A reasoning line, a constructor for each text that the agent formats.
pub data Line : Type 0 where
  reviewed : Via → Line
  decided : Reason → Line
  timed_out : String → ℕ → Line
  rejected_by : String → String → String → Line

-- The body of a dispatch, with and without a site.
pub data Body : Type 0 where
  to_site : Value → Value → Value → Body
  to_team : Value → Value → Body

-- `EscalationReport`; `held` is the recommended action's choice between its two texts
pub record EscalationReport : Type 0 where
  pub report_id : String
  pub trigger : String
  pub summary : String × Value × Value × Value
  pub held : Bool
  pub timeout_seconds : ℕ
  pub human_only : Bool
  pub order : Fields
  pub incident_id : Value
  pub deadline_epoch : ℕ

-- The payloads that the commander sends.
pub data Payload : Type 0 where
  dispatch_order : (channel recipients : Value) → Body → Fields → Via → Payload
  escalation_report : String → EscalationReport → Bool → ℕ → Payload
  escalation_rejected : (report_id approver note : String) → Payload

abbrev pub Sent : Type 0
Sent = Message Payload Line

-- `PendingEscalation.status`
pub data Status : Type 0 where
  pending approved rejected auto_executed expired : Status

abbrev pub is_pending : Status → Bool
is_pending pending = true
is_pending other = false

-- `PendingEscalation`
pub record PendingEscalation : Type 0 where
  pub report_id : String
  pub decision : Decision
  pub order : Fields
  pub incident_id : Value
  pub module_of : Module
  pub created_epoch : ℕ
  pub deadline_epoch : ℕ
  pub reasoning : List Line
  pub status : Status

-- `PendingEscalation.is_due`
unfoldable pub is_due : PendingEscalation → ℕ → Bool
is_due p now_epoch = leb p.deadline_epoch now_epoch

-- `self.stats`
pub record Stats : Type 0 where
  pub dispatched : ℕ
  pub escalated : ℕ
  pub auto_executed : ℕ
  pub approved : ℕ
  pub rejected : ℕ

-- `CommanderAgent`, with what its logger and its bus have received. `draws` counts the uses of
-- the clock and of `uuid4`, `writes` the audit writes that were tried.
pub record Commander : Type 0 where
  pub name : String
  pub default_timeout : ℕ
  pub matrix : Matrix
  pub pendings : Dict PendingEscalation
  pub stats : Stats
  pub draws : ℕ
  pub writes : ℕ
  pub audited : List Sent
  pub published : List Sent

-- What the agent takes from outside: the n-th draw of `uuid4().hex[:12]`, of a message's id and
-- timestamp and of `time.time()`, whether the n-th audit write succeeds, and Python's `str` on a
-- value that is no text.
pub record Env : Type 0 where
  pub hex : ℕ → String
  pub message_id : ℕ → String
  pub stamp : ℕ → String
  pub clock : ℕ → ℕ
  pub write_ok : ℕ → Bool
  pub render : Value → String

-- `CommanderAgent.__init__`
unfoldable pub init : String → ℕ → Commander
init name default_timeout = record {
  name = name;
  default_timeout = default_timeout;
  matrix = build_matrix default_timeout;
  pendings = [];
  stats = record { dispatched = 0; escalated = 0; auto_executed = 0; approved = 0; rejected = 0 };
  draws = 0;
  writes = 0;
  audited = [];
  published = [];
}
