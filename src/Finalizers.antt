-- ===== src/Finalizers.antt =====
-- async_threads/finalizers.py: the cleanup of a listener after its workflow.
pub mod Retire
pub mod Retired
pub mod Quiet
