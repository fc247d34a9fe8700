-- ===== src/Registry.antt =====
-- async_threads/registry.py: the durable tables, and the operations on them. The modules below are
-- split by table: handles, de-dupe marks, the event log, workflow states, stored payloads, source
-- bindings, their outbox and their cursor.
pub mod Rows
pub mod Handles
pub mod Seen
pub mod SeenLaws
pub mod SeenRefinement
pub mod EventLog
pub mod Workflows
pub mod Payloads
pub mod Retention
pub mod RetentionLaws
pub mod PruneLaws
pub mod Bindings
pub mod Outbox
pub mod OutboxLaws
pub mod Cursor
pub mod CursorLaws
