-- ===== src/Ingestion.antt =====
-- internal/ingestion: fingerprints, and the writing of battles and player profiles.
pub mod Runtime
pub mod Fingerprint
pub mod TeamResults
pub mod Discovery
pub mod Battle
pub mod Player
