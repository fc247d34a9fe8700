-- ===== src/Handoffs.antt =====
-- async_threads/handoffs.py: what a producer is given to send events to a listener.
pub mod Texts
pub mod LoopEvents
pub mod Loops
pub mod Modes
pub mod Files
pub mod Build
pub mod Secrecy
pub mod Example
