-- ===== src/Workflow.antt =====
-- async_threads/workflows.py: the workflow that events report on, its evidence and its gates.
pub mod Policy
pub mod Event
pub mod Gates
pub mod Transition
pub mod Serial
pub mod Stale
