-- ===== src/Store.antt =====
-- crates/rationale-store: immutable evidence and atomically published snapshots in SQLite, with the
-- tables of migrations/0001_initial.sql.
pub mod Types
pub mod Candidate
pub mod Publish
pub mod Session
pub mod Read
