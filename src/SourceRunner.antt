-- ===== src/SourceRunner.antt =====
-- async_threads/source_runner.py: one batch of a source binding's events, from the upstream board
-- through the outbox to the receiver.
pub mod State
pub mod Diagnostics
pub mod Outcomes
pub mod Steps
pub mod Run
pub mod Status
pub mod Lag
pub mod Untouched
pub mod Passes
pub mod Settled
pub mod Moves
pub mod PassMoves
pub mod Order
pub mod Skips
pub mod Accepting
