-- ===== src/Lib.antt =====
-- The brain of Coroner: what it may conclude about a failed pod, what a human may approve, and
-- what the agent may then do (brain/src/coroner_brain), and the harness that measures it (eval).
--
-- The agent sends an evidence contract (Contract for contract.py). Evidence (evidence.py) puts it
-- in a class with a confidence ceiling, and gates the incidents that carry no causal signal. A
-- diagnosis of the model (Diagnosis for diagnosis.py) is asked for by the state machine of Graph
-- (graph.py), and checked against the contract by Validate (validate.py: Path for resolve_path and
-- resolve_citation, Escape for _unescape, Collected for collected_text, _normalise, _render and
-- the quoted spans). Whatever came out is recorded in the Ledger (ledger.py). Graph/State has the
-- state and what the pipeline is built with, Graph/RetryAfter retry_after_seconds, Graph/Call
-- _call_with_deadline, Graph/Nodes the nodes, the edges and the compiled graph, and Graph/Record
-- run and _record. Schema (schema.py) has strictify, Sink (sink.py) the notice and rebuilding a
-- verdict from a row, with Sink/Render for render_observed, Sink/Message for render_inferred,
-- render_decision and render_text, Sink/Status for render_status and Sink/Stored
-- for the columns that verdict_from_row decodes; Slack (slack.py) has the
-- buttons of a message, Slack/Blocks the whole message, Slack/Views the modals, Slack/Client
-- SlackClient and SlackSink over a client of HTTP and Slack/Signature verify_signature.
-- Ledger/Schema (ledger.py) has the columns of the table and the migrations, Ledger/Race the calls
-- of label on several threads, Config (config.py) the settings, Llm (llm.py) the model client over
-- its endpoint, Prompts (prompts.py) the prompts, for which Validate/Failures writes out the
-- failures, and Tracing (tracing.py) which tracer is installed. Api (api.py) has build_response
-- and deliver, Api/Startup what is built from the settings and healthz, Api/Endpoints the JSON
-- handlers with their statuses, Api/Payload what is read of a Slack payload, Api/Answers and
-- Api/Interactions the handlers of Slack, and Api/Serve the service as a machine whose steps are
-- requests and the rounds of the sweeper. A verdict (Verdict for verdict.py) that offers approval
-- is parked by Approval (approval.py) in an Inflight store (inflight.py), and a decision resumes
-- it: Approval/Token has sign and verify, Approval/State the states and errors, Approval/Rules the
-- decisions that touch no state, Approval/Pipeline the nodes load, check and record with decide,
-- and Approval/Park has register, pending and expire_overdue. Eval is the accuracy harness:
-- Eval/Catalog the incidents (eval/catalog.py), Eval/Judge the score of a row, Eval/Score and
-- Eval/Report the numbers of the report, and Eval/Collect and Eval/Resume the phases that go on
-- where they stopped (eval/run.py). The other children hold proofs.
--
-- How state corresponds: the SQLite table is a list of rows, and each method of Ledger is a
-- function of it that returns the new table or the exception. A store is any implementation of the
-- record Inflight.InFlightStore, whose laws say which record is pending at which instant;
-- Inflight/Memory implements it as MemoryStore does and Inflight/Redis as RedisStore does, over
-- the commands of a Redis client; Inflight/Spec is the abstract store that both implement. A
-- method of the approval graph is an action on a world of store, ledger and clock: it returns a
-- result or what was raised, and keeps what was written before. Each reading of the clock is the
-- next of a sequence.
--
-- Representation: a date is a count of microseconds, and a float that is not negative a count of
-- millionths. The messages that the program formats are data, one constructor for each, with the
-- values that they show. Text is a sequence of code points; lower case is that of ASCII letters. A
-- JSON number is the text that it prints as.
--
-- Parameters: the keyed hash and the text of a date (Approval.Token.Crypto), with the law that a
-- printed date is read back; and what Graph.State.Pipeline holds of other code: the readings of a
-- monotonic clock, the model's reply to a call, the parser of its answer, the dump of a contract,
-- the digest of a text, and which code points beyond ASCII are printable. A sink is whether it
-- accepts a notice. Inflight.Redis.Redis has the commands of Redis with what is documented of
-- them. Api.Answers.Site has the settings, Python's int and str of a JSON value, the parsers of
-- JSON and of a form, and whether Slack takes a call. Slack/Client takes what a POST comes to.
-- Sink.Render.Wording has the texts of a number with two decimals, of a time of day and of the
-- reasons, Config.Environment the environment of the process with Python's float and int, and
-- Eval.Resume.Brain the brain as the harness reaches it, and Eval.Collect.Cluster what kubectl,
-- the agent and the clock answer it.
--
-- Loops are by structural recursion on a list or a text, but for four, which take fuel: the model
-- call gets one unit for each microsecond that is left, and each round but the last takes more
-- than one; the diagnosis graph gets one for the gate, two for each attempt and one for the
-- terminal. The harness repeats a POST as long as the provider names a wait, which nothing bounds:
-- there the fuel is a number of rounds, and running out of it is an outcome of its own. Its wait
-- for pods to fail sleeps five seconds in each round until ten minutes are over, for which 121 are
-- enough.
--
-- Not modelled: the recursion limit of the graph library, writing a message to a stream, what the
-- HTTP framework does round a handler, a failing connection to Redis, the connection of SQLite,
-- requests that are served at the same time but for calls of label, what a model call that was
-- given up at its deadline does later, a .env file, the spans of tracing, the files of the
-- accuracy harness other than its list of contracts, and the agent.
pub mod Base
pub mod Contract
pub mod Evidence
pub mod Diagnosis
pub mod Ledger
pub mod Inflight
pub mod Json
pub mod Validate
pub mod Graph
pub mod Schema
pub mod Verdict
pub mod Approval
pub mod Sink
pub mod Config
pub mod Tracing
pub mod Llm
pub mod Prompts
pub mod Eval
pub mod Api
pub mod Slack
pub mod Examples
