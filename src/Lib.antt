-- ===== src/Lib.antt =====
-- A model of hermes-plugin-async-threads: producers outside a chat send signed events to a listener,
-- and the plugin delivers each of them to the chat thread or agent session that the listener names.
--
-- The program's parts, and the files that model them (paths of the program from the repository's root):
--
-- - Python: what the program takes from its language. Json has the values that JSON decodes to,
--   Except the exceptions, Text and Values the methods of `str` and the conversions. Runtime is a
--   record of what comes from outside the program: Unicode tables, `json`, `hmac`, `hashlib`, float
--   arithmetic, and the regular expressions of async_threads/privacy.py. Every module takes it as an
--   instance argument, so that the theorems hold of any such functions; Tests.AsciiRuntime is one.
--   Where a theorem needs more of them, it has a named hypothesis: IsHexDigest on the form of digests,
--   KnowsAscii on the Unicode tables below 128.
-- - Security: async_threads/security.py, the checks of a request (`parse_json_body`,
--   `verify_hmac_signature`, `extract_envelope_fields`, `validate_timestamp`).
-- - Privacy: async_threads/privacy.py, redaction (`redact_secret_text`, `sanitize_untrusted_value`).
-- - Emitter: async_threads/emitter.py, the producer's side (`build_event_envelope`, `sign_bytes`,
--   `classify_receiver_response`, `exit_code_for_result`) An envelope's time is an argument, so
--   that the default of `occurred_at`, the clock's time, is what a caller without one passes.
-- - Workflow: async_threads/workflows.py; Event is `normalize_workflow_event`, Transition is
--   `apply_workflow_transition`, Gates is `compute_gates`, Policy is `WorkflowPolicy`.
-- - Continuation, Lifecycle, IngressDigest, SourceFilters: the policy files of the same names under
--   async_threads/. IngressDigest.Payload is what is stored of an event.
-- - Registry: async_threads/registry.py. `Db` is the set of tables, a table is a list of rows in order
--   of insertion, and each method is a function from `Db` to its result and the next `Db`; a file for
--   each table. A row of handles holds each policy as it was written; `row_to_handle` reads it again,
--   as `get_handle` does on every call. `advance_source_binding_cursor` and the cursor of async_threads/source_runner.py are
--   Registry.Cursor. Registry.Retention fetches and prunes stored payloads; of two payloads of one
--   time the first one stored counts as the later, which SQL leaves open.
-- - Kanban: async_threads/kanban.py, `transform_kanban_task_event`: which rows of a board's events are
--   emitted, and as what. Kanban.Board reads a board's rows in order and is the dry run of a binding;
--   opening the database is a parameter.
-- - SourceRunner: async_threads/source_runner.py, `run_source_binding_once`: State has the variables of
--   its loop and what it takes from outside (`RunnerEnv`), Outcomes and Steps one pass of the loop, Run
--   the checks before it and the report. Status is `source_binding_runner_status`. Order, Moves,
--   PassMoves, Untouched and Passes say what a pass does to the registry.
-- - Listeners: async_threads/listeners.py; Request is `normalize_listen_request`, Create is
--   `create_listener`.
-- - Origin: async_threads/origin.py; Index is the index of captured origins, Resolve is
--   `resolve_current_origin`. The host's session store, sessions file and variables are arguments.
-- - Secrets: async_threads/secrets.py; Files is the file system below a resolved root, Artifact the
--   calls that write, describe and remove a listener's files.
-- - Handoffs: async_threads/handoffs.py; Build is `build_producer_handoff`; Modes has its
--   arguments, Files what it writes, Texts, Loops and LoopEvents what it tells a producer.
-- - Finalizers: async_threads/finalizers.py; Retire is `retire_listener`, on a registry and the secret
--   files. Quiet puts it before the receiver.
-- - Adapter: async_threads/adapter.py, the receiver. State has what it holds (`Receiver`: registry,
--   buckets of coalesced events, timers, what went out), Receive is `_handle_event`, Dispatch and
--   Ack are `dispatch_event`, Buckets, Digest and Coalesce are the buckets and their flush, Events
--   tells routine from priority. The gateway and the clock are the record `Gateway`.
--
-- A request is handled in one step: the interleavings at the `await`s of the source are not modelled.
-- No definition uses fuel; every loop is a recursion over a list or a text. The bounds on what is read
-- (100 entries of a container, depth 8, the lengths of texts) are the program's own.
--
-- Not modelled: connecting and disconnecting, the health page and the runner's loop of
-- async_threads/adapter.py; list and count queries, `prune_old_rows` and the schema of
-- async_threads/registry.py; the HTTP call of async_threads/emitter.py; the SQL rows of
-- async_threads/kanban.py; the session lookup of listeners.py, the registration of finalizers.py, the
-- private table of a session store in origin.py, file permissions and the resolution of the root
-- directories of secrets.py and handoffs.py; routing.py, tools.py, commands.py, profile_lane.py,
-- plugin.py, and scripts/. Of rendering.py only the tail mode is modelled; the rendered text is a
-- function of the gateway, of which nothing is assumed.
pub mod Prelude
pub mod Python
pub mod SourceFilters
pub mod Privacy
pub mod Security
pub mod Emitter
pub mod Workflow
pub mod Continuation
pub mod Lifecycle
pub mod IngressDigest
pub mod Registry
pub mod Kanban
pub mod SourceRunner
pub mod Adapter
pub mod Listeners
pub mod Origin
pub mod Secrets
pub mod Handoffs
pub mod Finalizers
pub mod Tests
