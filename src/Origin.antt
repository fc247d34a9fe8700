-- ===== src/Origin.antt =====
-- async_threads/origin.py: which conversation a tool call comes from.
pub mod Index
pub mod Resolve
pub mod Sources
pub mod Trusted
