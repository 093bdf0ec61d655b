-- ===== src/Scanner.antt =====
-- The durable address scanner, internal/scanner.
mod Tests
pub mod Health
pub mod Check
pub mod Run
pub mod Retry
