-- ===== src/Kanban.antt =====
-- async_threads/kanban.py: what the bridge makes of a row of a Kanban board's `task_events`.
pub mod Transform
pub mod Board
pub mod Allowed
