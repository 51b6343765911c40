-- ===== src/Engine.antt =====
-- crates/rationale-engine: orchestration of Git, documents, snapshots and the proof worker.
pub mod Candidate
pub mod Evidence
pub mod Types
pub mod Sync
pub mod Github
pub mod Attach
pub mod Suggest
pub mod Query
