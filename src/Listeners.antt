-- ===== src/Listeners.antt =====
-- async_threads/listeners.py: a listener from a request to its row.
pub mod Request
pub mod Create
pub mod Bounds
pub mod Stored
