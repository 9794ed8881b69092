-- ===== src/Lib.antt =====
-- OmniDesk Agent: the durable queues, the approval gates, the guards and the run bookkeeping
-- of the Python runtime.
--
-- The program is a gateway between chat channels and an agent. Webhooks are screened for
-- replays and rates (omnidesk_agent/security/webhook_security.py) and enqueue messages
-- (omnidesk_agent/core/job_queue.py) and a worker claims them (omnidesk_agent/core/worker.py);
-- every side effect is first a proposal that the permission manager
-- (omnidesk_agent/security/permissions.py) allows, refuses or turns into an approval
-- (omnidesk_agent/security/approval_store.py), for critical risks with two approvers
-- (omnidesk_agent/security/dual_approval.py); a run that waits is resumed by a one-time token
-- (omnidesk_agent/core/run_store.py); answers leave through the outbound queue and its
-- dispatcher (omnidesk_agent/core/outbound_messages.py, outbound_dispatcher.py); requests that
-- are repeated are answered from the idempotency stores
-- (omnidesk_agent/security/idempotency.py, agent_run_idempotency.py). Calls of language models
-- pass the token budget (omnidesk_agent/core/token_budget.py), and emergency access is a
-- break-glass session (omnidesk_agent/security/break_glass.py). A deployment keeps these
-- stores in SQLite files or in one Postgres table
-- (omnidesk_agent/repositories/postgres_state.py).
--
-- Conventions. A store is a record that holds its SQL tables as lists of rows in insertion
-- order (Shared/Table); a method is a function from the store to its reply and the new store.
-- `time.time()`, uuids and tokens are arguments. Times and durations are natural numbers of
-- one unit, so `x <= now - lease` is written `x + lease <= now`, and a counter or a duration
-- given as a negative number is not modelled. ORDER BY leaves rows of the same age in an order
-- of SQLite's choice; here the first inserted comes first. A call is one step: where the
-- source opens no transaction (the connections commit each statement by itself) and another
-- writer could come between its statements, the module says so. Logging, metrics counters,
-- schema creation and added columns are left out. Hashes and JSON printing are arguments. No
-- function runs on fuel but the printing of a number in decimal, with as much fuel as the
-- number plus one.
--
-- Jobs (Jobs/*.antt): omnidesk_agent/core/job_queue.py. Job is a row of the table jobs,
-- JobQueue the object; enqueue, claim_next, recover_stale_running, complete, fail,
-- requeue_dead_letter, purge_dead_letter, get, list_jobs and stats are its methods.
-- Jobs/History has any sequence of calls as a list of JobCall.
--
-- Outbound (Outbound/*.antt): omnidesk_agent/core/outbound_messages.py is Outbound/Defs and
-- Outbound/Marks, one function per method of OutboundMessageStore over Outbox;
-- omnidesk_agent/core/outbound_dispatcher.py is Outbound/Dispatch, where deliver is _deliver
-- up to its mark_sent and run_once a round. The adapters, the reader of the payload's JSON,
-- sha256 and str.lower are the fields of Environment. Outbound/Provider is
-- channels/provider_errors.py and channels/idempotency.py, Outbound/Options the option check
-- of tools/channel_send.py; an exception there is a Failure with the status that _status_code
-- finds, its text and the text in lower case. settled_status (Outbound/Readings) is the
-- independent reading of a failure that a round is compared with.
--
-- Approvals (Approvals/*.antt): omnidesk_agent/security/approval_store.py is Approvals/Store
-- and Approvals/Decisions, one function per method of ApprovalStore;
-- omnidesk_agent/security/dual_approval.py is Approvals/Requests (proposals and their
-- requesters) and Approvals/Dual (the table dual_approvals). A proposal is a record of the
-- keys that the two stores read, with texts as values, and passes through its JSON column
-- unchanged; an empty expected proposal counts as none. The exceptions of both are
-- ApprovalError, without their messages. attach_dual_approval_store is called when the runtime
-- is put together, so it is a function but no call of Approvals/History.
--
-- Permissions (Permissions/*.antt): omnidesk_agent/security/permissions.py is
-- Permissions/Defs, where verify is split by its branches; the proposals go to the
-- ApprovalStore of Approvals. A proposal is an Action, the record of the keys that are read,
-- where a missing key is none and a key with the value None does not occur. The terminal is a
-- Console that answers with the stripped lower-case text, or none when stdin is no terminal.
-- The audit log keeps the events in order with the action, without the redaction, the hash
-- chain and the approval id or session key that some entries add.
--
-- Idempotency (Idempotency/*.antt): omnidesk_agent/security/idempotency.py and
-- agent_run_idempotency.py. The two SQLite stores have the same statements over two tables and
-- differ in the scope that a request is known under, so Idempotency/Defs has their methods
-- once, on a Request that says which of the two it is for; Idempotency/JsonState has the two
-- stores over a JSON state (_PostgresJsonState), whose listing is cut off at a limit that the
-- clean-up asks for or that the state imposes, and takes the rows that it reaches as an
-- argument. sha256 and the canonical JSON are the fields of Hashing; a payload and a response
-- are JSON texts.
--
-- Runs (Runs/*.antt): omnidesk_agent/core/run_store.py is Runs/Defs, one function per method
-- of RunStore. The dict of columns that update takes is a list of Field, where other stands
-- for a key outside UPDATE_FIELDS; plans, messages, proposals and step results are JSON texts.
--
-- Resume (Resume/*.antt): omnidesk_agent/core/orchestrator.py is modelled in its resume, from
-- the reply that no run store is configured to the point where the rest of the plan is
-- executed (Resume/Defs). It calls the stores of Runs, Approvals and Permissions; the
-- orchestrator and its permission manager share one ApprovalStore (omnidesk_agent/daemon.py),
-- which stands in the PermissionManager. Reading the JSON of a proposal or a plan is a field
-- of Json.
--
-- Upgrades (Upgrades/*.antt): omnidesk_agent/self_upgrade/state_machine.py is Upgrades/Defs:
-- the states as texts, the table ALLOWED_TRANSITIONS, transition and transition_metadata,
-- whose metadata is the record of the two keys that are read and written. A transition is its
-- two states.
--
-- Postgres (Postgres/*.antt): omnidesk_agent/repositories/postgres_state.py. Postgres/State
-- has the statements of _PostgresJsonState on the rows of one namespace, where a row is its
-- JSON value; Postgres/Jobs has the methods of PostgresJobQueue over the Job and JobQueue of
-- Jobs, Postgres/Outbound those of PostgresOutboundMessageStore over the Message and Outbox of
-- Outbound, and Postgres/Approvals those of the two approval stores over the ApprovalStore of
-- Approvals. The two statements of enqueue, create, purge_dead_letter and _update_by_id are
-- taken as one step; the unique indexes are those of the SQLite tables.
--
-- BreakGlass (BreakGlass/*.antt): omnidesk_agent/security/break_glass.py is BreakGlass/Rules
-- (rows, sessions and the checks that both stores share) and BreakGlass/Sqlite (one function
-- per method of BreakGlassStore); PostgresBreakGlassStore of repositories/postgres_state.py is
-- BreakGlass/Stores. The audit log is a list of events, and metadata a JSON text.
-- BreakGlass/History has any sequence of calls on a store over either backend.
--
-- Webhooks (Webhooks/*.antt): omnidesk_agent/security/webhook_security.py is Webhooks/Sqlite,
-- the replay protection, the single-use nonces and the rate limit of WebhookSecurity;
-- PostgresWebhookSecurity of repositories/postgres_state.py is Webhooks/Stores. A body is a
-- text, sha256 an argument; a window of 0 seconds is a ZeroDivisionError. The checks of
-- signatures (verify_line, verify_hmac_sha256_hex) are hmac and are left out. Webhooks/History
-- has sequences of calls over either implementation.
--
-- Budget (Budget/*.antt): omnidesk_agent/core/token_budget.py is Budget/Trim (trimming and the
-- estimate of tokens) and Budget/Defs (decide, the cache and the usage of TokenBudgetManager);
-- _complete_with_provider of models/router.py, which uses them around the call of a provider,
-- is complete_with_provider; ask_provider is its part from the provider's answer on and
-- repair_structured_output is _repair_structured_output_if_needed, which may ask the provider
-- again. The two replies of the provider (Replies) and validate_json_text with its schema
-- (Structure) are arguments. Calls are one after the other: between decide and record_call the
-- router waits for the provider, and other calls may come between.
--
-- Not modelled: the orchestrator and the planner, the language-model clients and the
-- validation of structured answers, the channel adapters and the tools, the HTTP routes, the
-- self-learning and self-upgrade pipelines beyond the parts above, the run store, the token
-- budget and the other repositories over Postgres, observability, deployment and the apps;
-- they are I/O, calls of other services, or wait for a later extension.
pub mod Shared
pub mod Approvals
pub mod BreakGlass
pub mod Budget
pub mod Idempotency
pub mod Jobs
pub mod Outbound
pub mod Permissions
pub mod Postgres
pub mod Resume
pub mod Runs
pub mod Upgrades
pub mod Webhooks
