-- ===== src/Store.antt =====
-- The store, internal/db/store.go: the tables of internal/db/migrations/001_initial.sql, and the
-- statements that the program sends to PostgreSQL as functions on them.
pub mod Tables
pub mod Session
pub mod Rules
pub mod Kept
pub mod Imports
pub mod Scans
pub mod Records
pub mod Outbox
pub mod Queue
