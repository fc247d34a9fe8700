-- ===== src/Secrets.antt =====
-- async_threads/secrets.py: the producer's copy of a listener's secret.
pub mod Files
pub mod Artifact
pub mod Laws
pub mod Roundtrip
