-- ===== src/IngressDigest.antt =====
-- async_threads/ingress_digest.py: what is kept of the payload of an event, decided by layers of
-- configuration.
pub mod Policy
pub mod Normalize
pub mod Resolve
pub mod Payload
pub mod Policies
pub mod Layers
