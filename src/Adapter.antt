-- ===== src/Adapter.antt =====
-- async_threads/adapter.py: the receiver. A request is handled from its first line to its reply in
-- one step; the modules below follow the methods of the adapter class.
pub mod State
pub mod Events
pub mod Ack
pub mod Dispatch
pub mod Buckets
pub mod Digest
pub mod Coalesce
pub mod Receive
pub mod Authentic
pub mod Seen
pub mod Frames
pub mod Retry
pub mod Lost
pub mod Failure
