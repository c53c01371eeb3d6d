-- ===== src/Journal.antt =====
-- internal/responseactions/journal.go: the durable journal of response actions.
pub mod State
pub mod Entries
pub mod Operations
pub mod Phases
pub mod Loaded
pub mod Recovery
pub mod Transitions
pub mod Forward
pub mod Once
pub mod Filed
pub mod Limits
pub mod Capacity
mod Tests
