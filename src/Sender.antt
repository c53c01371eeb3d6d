-- ===== src/Sender.antt =====
-- The delivery client of internal/sender/sender.go.
pub mod Classify
pub mod Post
pub mod Deliver
pub mod Rules
pub mod Verdict
pub mod Plain
pub mod Queueing
pub mod Events
pub mod Flush
mod Tests
