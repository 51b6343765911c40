-- ===== src/Protocol.antt =====
-- crates/rationale-protocol: frames of the worker pipe, and the supervisor of the proof worker.
pub mod Frame
pub mod Worker
