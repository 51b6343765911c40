-- ===== src/Protocol/Worker.antt =====
-- crates/rationale-protocol/src/worker.rs: the supervisor of the proof worker process.
pub mod Config
pub mod Exchange
pub mod Supervise
