-- ===== src/Lib.antt =====
-- Far-Away (disastermind): the decision core of a disaster response system, modelled and verified.
--
-- Agents exchange messages on a bus. Field orders reach the commander (tier 1), which rules on each
-- of them by the autonomy matrix: it dispatches what is within its own authority, and holds the rest
-- as pending escalations until a human approves or rejects them, or until their time runs out. Every
-- message that an agent emits is first written to the hash-chained decision log. What is known of an
-- incident is folded from an append-only store of reports into one canonical state, and each arrival
-- that changes that state is a revision of a history. The dispatch router (tier 3) executes the orders
-- that the commander dispatches. A loop drives the agents in cycles. Districts ask each other for what
-- they lack, and rate limits guard the interfaces.
--
-- The files, and the code they are about:
-- - Prelude, Prelude/*: Boolean tests, lists and whole numbers that the other files share.
-- - Core/Contracts: disastermind/core/contracts.py. Enums are data types, and a message's payload and
--   reasoning are types of the agent that sends it, with a constructor for each dict or text built.
--   Core/Value and Core/Text are Python's JSON-like values, `int()` on them, and text search;
--   Core/Dict is a dict in insertion order.
-- - Commander/Autonomy and Matrix: disastermind/tier1/commander/matrix.py, function by function, and on
--   its promises Matrix/Rules and Matrix/Keywords.
-- - Commander/State, Agent, Pending, Events: disastermind/tier1/commander/agent.py, and `_on_message`
--   and `emit` of disastermind/core/agent.py. The state is the agent's, with what its logger and its
--   bus received. A call returns its messages or raises. Events are the agent's entry points, and a
--   run is any sequence of them.
-- - Commander/Authority and its Runs, HumanOnly, Emit, Sweep, Responses: theorems on the commander.
-- - Audit/Log: disastermind/audit/decision_log.py, with a file as the list of its lines. Audit/Chain,
--   Tamper, Lines, Recovery and Writes are theorems on it.
-- - Reconcile/Policy, Observation, Ranking, Select, Fold, History, Timeline:
--   disastermind/models/reconcile_policy.py, observation.py and reconcile.py. Reconcile/Ledger,
--   Withdrawn and Numbered are theorems on them. Reconcile/Audited writes a history to the
--   decision log.
-- - Ops/Breaker and Ops/Retry: the circuit breaker and the retry loop of disastermind/ops/retry.py.
--   Ops/States, Trips and Attempts are theorems on them.
-- - Security/RateLimit: disastermind/security/ratelimit.py, with theorems in Security/Granted and
--   Waiting. Security/Auth: disastermind/security/auth.py. Security/Gate: the security middleware of
--   disastermind/api/server.py, which composes both, with theorems in Security/Admission and
--   Permissions and their examples in Security/Entry.
-- - Resource/Real, Demand, Pairs and Optimizer: disastermind/tier2/resource/optimizer.py and the
--   vulnerability of disastermind/models/domain.py. Resource/Steps, Greedy, Inputs, Allocation and
--   Fallback are theorems on them.
-- - Federation/Model, Messages, Coordinator and Answering: disastermind/federation/model.py and
--   coordinator.py. Federation/RoundTrips, Nearest, Requests and Answers are theorems on them.
-- - Dispatch/Channel: the base channel of disastermind/tier3/dispatch/channels.py, on the breaker and
--   the retry loop of Ops. Dispatch/Router and Handle: disastermind/tier3/dispatch/router.py. The
--   other files of Dispatch are theorems on them.
-- - Runtime/Triggers and Loop: disastermind/orchestration/triggers.py and loop.py, with theorems in
--   Runtime/Activation and Cycles. Runtime/Bus: disastermind/core/bus.py, with theorems in
--   Runtime/History. Runtime/Incidents: disastermind/multi_incident/manager.py, with a theorem in
--   Runtime/Isolation.
-- - Field/Model, Teams, Giving, Orders, Agent and Beacons: disastermind/tier2/field/agent.py and
--   FieldTeam of disastermind/models/domain.py. Field/Choices and Batches are theorems on them, and
--   Field/Hints and Totals on the agent together with the commander.
-- - The Tests modules apply the theorems at concrete inputs.
--
-- Parameters stand for what is not in the repository: the clock, `uuid4`, the outcome of audit writes
-- and Python's `str` (Env of Commander/State); the JSON and SHA-256 libraries (Codec of Audit/Log);
-- floats and Python's equality (Numbers of Reconcile/Policy, Floats of Ops/Retry, and Reals
-- of Resource/Real); the linear-programming solver (Outside of Resource/Pairs); SHA-256 of tokens; places, formatted
-- texts, ISO times and Python's equality (Outside of Field/Model); and content
-- hashes as `hashlib` computes them (Naming of Reconcile/Observation). The evacuation capstone, which
-- the fold calls on a magnitude, is in the repository and not modelled: what is said of the fold holds
-- for any function in its place. The Outside records
-- of Federation/Coordinator and Dispatch/Channel hold draws, the transport and the clock. The distance
-- of two places (trigonometry on floats in disastermind/models/geo.py) and the single channels' ways of
-- building and delivering are in the repository and not modelled either; the theorems hold for any
-- functions in their place, those on receipts for any whose receipts have a documented status. Times
-- are natural numbers of seconds; tokens of a rate limit are whole, so that rounding, by which a retry
-- after the named wait can fall short in floats, is not modelled; a method that reads the clock has the reading as an argument. No
-- definition needs fuel: each loop is a recursion on the list that it walks, or on the number of its
-- rounds.
--
-- Not modelled: the delivery of one agent's messages to another over the bus (an agent's publications
-- are kept in its state, and what callbacks and ticks leave behind is a parameter), threads and locks
-- (each call is one step), the coordination loop without a limit of cycles, the Elasticsearch sink,
-- lines of the log that are arrays of pairs, the entry that the commander keeps of an order that is
-- no dict before it raises, errors of the operating system on reading, the sentences that explain a selection, dashboard views,
-- and the agents and services around this core.
pub mod Prelude
pub mod Core
pub mod Commander
pub mod Audit
pub mod Reconcile
pub mod Ops
pub mod Security
pub mod Federation
pub mod Dispatch
pub mod Runtime
pub mod Resource
pub mod Field
